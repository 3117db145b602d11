-- ===== src/WebSocket/Rooms.antt =====
-- `RedisSocketAdapter` of packages/redis-conn/src/adapter.rs: which sockets of this server are whose and in
-- which rooms, and which of them get a message. The maps are functions, a socket's channel is there or not,
-- and each operation is taken to be one step.
use bookit.Common.{
  Bool, true, false, ◌&&◌, not, Option, none, some, List, [], ◌∷◌, ℤ, ◌==ℤ◌, if◌then◌else◌, String,
  same_text,
}

pub record RedisSocketAdapter : Type 0 where
  pub sockets : String → Bool
  pub user_sockets : ℤ → String → Bool
  pub show_sockets : ℤ → String → Bool
  pub socket_shows : String → Option (ℤ → Bool)

unfoldable pub empty_adapter : RedisSocketAdapter
empty_adapter = record {
  sockets = λ k. false;
  user_sockets = λ u k. false;
  show_sockets = λ s k. false;
  socket_shows = λ k. none;
}

unfoldable pub add_local_connection : String → ℤ → RedisSocketAdapter → RedisSocketAdapter
add_local_connection socket_id user_id a = record {
  sockets = λ k. if same_text socket_id k then true else a.sockets k;
  user_sockets =
      λ u k. if (u ==ℤ user_id) && same_text socket_id k then true else a.user_sockets u k;
  show_sockets = a.show_sockets;
  socket_shows = λ k. if same_text socket_id k then some (λ s. false) else a.socket_shows k;
}

abbrev pub among_shows : Option (ℤ → Bool) → ℤ → Bool
among_shows none s = false
among_shows (some shows) s = shows s

unfoldable pub remove_local_connection : String → ℤ → RedisSocketAdapter → RedisSocketAdapter
remove_local_connection socket_id user_id a = record {
  sockets = λ k. if same_text socket_id k then false else a.sockets k;
  user_sockets =
      λ u k. if (u ==ℤ user_id) && same_text socket_id k then false else a.user_sockets u k;
  show_sockets = λ s k.
      if among_shows (a.socket_shows socket_id) s && same_text socket_id k
      then false
      else a.show_sockets s k;
  socket_shows = λ k. if same_text socket_id k then none else a.socket_shows k;
}

abbrev pub with_show : Bool → ℤ → Option (ℤ → Bool) → Option (ℤ → Bool)
with_show b showtime_id none = none
with_show b showtime_id (some shows) = some (λ s. if s ==ℤ showtime_id then b else shows s)

unfoldable pub subscribe_local : String → ℤ → RedisSocketAdapter → RedisSocketAdapter
subscribe_local socket_id showtime_id a = record a {
  show_sockets =
      λ s k. if (s ==ℤ showtime_id) && same_text socket_id k then true else a.show_sockets s k;
  socket_shows = λ k.
      if same_text socket_id k
      then with_show true showtime_id (a.socket_shows k)
      else a.socket_shows k;
}

unfoldable pub unsubscribe_local : String → ℤ → RedisSocketAdapter → RedisSocketAdapter
unsubscribe_local socket_id showtime_id a = record a {
  show_sockets =
      λ s k. if (s ==ℤ showtime_id) && same_text socket_id k then false else a.show_sockets s k;
  socket_shows = λ k.
      if same_text socket_id k
      then with_show false showtime_id (a.socket_shows k)
      else a.socket_shows k;
}

-- Whether a message goes to the socket `k`.
unfoldable pub broadcast_to_room_local : RedisSocketAdapter → ℤ → String → Bool
broadcast_to_room_local a showtime_id k = a.show_sockets showtime_id k && a.sockets k

unfoldable pub broadcast_to_room_excluding_user : RedisSocketAdapter → ℤ → ℤ → String → Bool
broadcast_to_room_excluding_user a showtime_id excluded k =
    a.show_sockets showtime_id k && (not (a.user_sockets excluded k) && a.sockets k)

unfoldable pub send_to_user_local : RedisSocketAdapter → ℤ → String → Bool
send_to_user_local a user_id k = a.user_sockets user_id k && a.sockets k

-- What `handle_socket` of apps/ws-server/src/handlers.rs does to the adapter, for the sockets of all its
-- tasks; a subscription may come after the removal, since the task that receives is only told to stop.
pub data Operation : Type 0 where
  adds : String → ℤ → Operation
  removes : String → ℤ → Operation
  subscribes unsubscribes : String → ℤ → Operation

unfoldable pub operate : Operation → RedisSocketAdapter → RedisSocketAdapter
operate (adds k u) a = add_local_connection k u a
operate (removes k u) a = remove_local_connection k u a
operate (subscribes k s) a = subscribe_local k s a
operate (unsubscribes k s) a = unsubscribe_local k s a

unfoldable pub operate_all : List Operation → RedisSocketAdapter → RedisSocketAdapter
operate_all [] a = a
operate_all (x ∷ xs) a = operate_all xs (operate x a)
