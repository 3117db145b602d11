-- ===== src/WebSocket/Delivered.antt =====
-- The adapter against what it promises: each socket by itself is not used yet, connected with a user and
-- a set of rooms, or gone.
use bookit.Common.{
  ◌≡◌, refl, ◌∙◌, Bool, true, false, ◌&&◌, not, some, List, [], ◌∷◌, ℤ, ◌==ℤ◌, if◌then◌else◌,
  String, same_text, arith, if_lem,
}
use bookit.WebSocket.Rooms.{
  RedisSocketAdapter, empty_adapter, add_local_connection, remove_local_connection, subscribe_local,
  unsubscribe_local, broadcast_to_room_local, broadcast_to_room_excluding_user, send_to_user_local,
  Operation, adds, removes, subscribes, unsubscribes, operate, operate_all,
}

pub data Life : Type 0 where
  unused gone : Life
  connected : ℤ → (ℤ → Bool) → Life

-- A room is entered or left; a socket that is not connected is used by it all the same.
abbrev pub set_room : Bool → ℤ → Life → Life
set_room b s unused = gone
set_room b s gone = gone
set_room b s (connected u rooms) = connected u (λ t. if t ==ℤ s then b else rooms t)

-- What an operation on its socket means for that socket.
unfoldable pub live_on : Operation → Life → Life
live_on (adds k u) l = connected u (λ s. false)
live_on (removes k u) l = gone
live_on (subscribes k s) l = set_room true s l
live_on (unsubscribes k s) l = set_room false s l

abbrev pub socket_of : Operation → String
socket_of (adds k u) = k
socket_of (removes k u) = k
socket_of (subscribes k s) = k
socket_of (unsubscribes k s) = k

unfoldable pub life_after : String → List Operation → Life → Life
life_after j [] l = l
life_after j (x ∷ xs) l = life_after j xs (if same_text (socket_of x) j then live_on x l else l)

-- A connection has an id that no operation has had before.
abbrev pub IsNew : Operation → Life → Type 0
IsNew (adds k u) l = l ≡ unused
IsNew (removes k u) l = Unit
IsNew (subscribes k s) l = Unit
IsNew (unsubscribes k s) l = Unit

unfoldable pub NewIds : String → List Operation → Life → Type 0
NewIds j [] l = Unit
NewIds j (x ∷ xs) l =
    (same_text (socket_of x) j ≡ true → IsNew x l)
    × NewIds j xs (if same_text (socket_of x) j then live_on x l else l)

-- What the adapter holds of the socket `j`.
abbrev Agrees : String → RedisSocketAdapter → Life → Type 0
Agrees j a unused =
    (a.sockets j ≡ false)
    × (((u : ℤ) → a.user_sockets u j ≡ false) × ((s : ℤ) → a.show_sockets s j ≡ false))
Agrees j a gone = a.sockets j ≡ false
Agrees j a (connected u rooms) =
    (a.sockets j ≡ true)
    × (((v : ℤ) → a.user_sockets v j ≡ (v ==ℤ u))
        × (((s : ℤ) → a.show_sockets s j ≡ rooms s)
            × ((shows : ℤ → Bool) × (a.socket_shows j ≡ some shows))))

-- Two adapters hold the same of the socket `j`.
abbrev SameAt : String → RedisSocketAdapter → RedisSocketAdapter → Type 0
SameAt j a b =
    (b.sockets j ≡ a.sockets j)
    × (((v : ℤ) → b.user_sockets v j ≡ a.user_sockets v j)
        × (((s : ℤ) → b.show_sockets s j ≡ a.show_sockets s j)
            × (b.socket_shows j ≡ a.socket_shows j)))

SameAt-Agrees :
    (j : String) (a b : RedisSocketAdapter) (l : Life) → SameAt j a b → Agrees j a l → Agrees j b l
SameAt-Agrees j a b unused e h = (e.0 ∙ h.0, (λ v. e.1.0 v ∙ h.1.0 v, λ s. e.1.1.0 s ∙ h.1.1 s))
SameAt-Agrees j a b gone e h = e.0 ∙ h
SameAt-Agrees j a b (connected u rooms) e h = (
  e.0 ∙ h.0,
  (λ v. e.1.0 v ∙ h.1.0 v, (λ s. e.1.1.0 s ∙ h.1.1.0 s, (h.1.1.1.0, e.1.1.1 ∙ h.1.1.1.1))),
)

-- An operation on another socket leaves what is held of `j`.
other-SameAt :
    (j : String) (x : Operation) (a : RedisSocketAdapter)
    → same_text (socket_of x) j ≡ false
    → SameAt j a (operate x a)
unfolding operate add_local_connection remove_local_connection subscribe_local unsubscribe_local
other-SameAt j (adds k u) a e = (simp e refl, (λ v. ground (arith, e), (λ s. refl, simp e refl)))
other-SameAt j (removes k u) a e =
    (simp e refl, (λ v. ground (arith, e), (λ s. ground (arith, e), simp e refl)))
other-SameAt j (subscribes k s) a e = (refl, (λ v. refl, (λ t. ground (arith, e), simp e refl)))
other-SameAt j (unsubscribes k s) a e = (refl, (λ v. refl, (λ t. ground (arith, e), simp e refl)))

-- An operation on the socket does to what is held of it what it means.
own-Agrees :
    (j : String) (x : Operation) (a : RedisSocketAdapter) (l : Life)
    → same_text (socket_of x) j ≡ true
    → IsNew x l
    → Agrees j a l
    → Agrees j (operate x a) (live_on x l)
unfolding operate add_local_connection remove_local_connection subscribe_local unsubscribe_local
    live_on
own-Agrees j (adds k u) a unused e new h =
    (simp e refl, (λ v. ground (arith, e, h.1.0 v), (λ s. h.1.1 s, (λ s. false, simp e refl))))
own-Agrees j (adds k u) a gone e new h = cc new
own-Agrees j (adds k u) a (connected v rooms) e new h = cc new
own-Agrees j (removes k u) a l e new h = simp e refl
own-Agrees j (subscribes k s) a unused e new h = h.0
own-Agrees j (subscribes k s) a gone e new h = h
own-Agrees j (subscribes k s) a (connected u rooms) e new h = (
  h.0,
  (
    h.1.0,
    (
      λ t. ground (arith, e, h.1.1.0 t),
      (λ r. if r ==ℤ s then true else h.1.1.1.0 r, simp (e, h.1.1.1.1) refl),
    ),
  ),
)
own-Agrees j (unsubscribes k s) a unused e new h = h.0
own-Agrees j (unsubscribes k s) a gone e new h = h
own-Agrees j (unsubscribes k s) a (connected u rooms) e new h = (
  h.0,
  (
    h.1.0,
    (
      λ t. ground (arith, e, h.1.1.0 t),
      (λ r. if r ==ℤ s then false else h.1.1.1.0 r, simp (e, h.1.1.1.1) refl),
    ),
  ),
)

operate_all-Agrees :
    (j : String) (xs : List Operation) (a : RedisSocketAdapter) (l : Life)
    → NewIds j xs l
    → Agrees j a l
    → Agrees j (operate_all xs a) (life_after j xs l)
unfolding operate_all life_after NewIds
operate_all-Agrees j [] a l n h = h
operate_all-Agrees j (x ∷ xs) a l n h = operate_all-Agrees j xs (operate x a) _ n.1 (
    if_lem (Agrees j (operate x a)) (same_text (socket_of x) j) (live_on x l) l
      (λ e. own-Agrees j x a l e (n.0 e) h)
      (λ e. SameAt-Agrees j a (operate x a) l (other-SameAt j x a e) h))

-- Who gets what, by the lives of the sockets.
abbrev pub is_in : ℤ → Life → Bool
is_in s unused = false
is_in s gone = false
is_in s (connected u rooms) = rooms s

abbrev pub is_of : ℤ → Life → Bool
is_of v unused = false
is_of v gone = false
is_of v (connected u rooms) = v ==ℤ u

delivered :
    (j : String) (a : RedisSocketAdapter) (l : Life) (s v : ℤ)
    → Agrees j a l
    → (broadcast_to_room_local a s j ≡ is_in s l)
      × ((send_to_user_local a v j ≡ is_of v l)
          × (broadcast_to_room_excluding_user a s v j ≡ (is_in s l && not (is_of v l))))
unfolding broadcast_to_room_local send_to_user_local broadcast_to_room_excluding_user
delivered j a unused s v h = (ground (arith, h.0), (ground (arith, h.0), ground (arith, h.0)))
delivered j a gone s v h = (ground (arith, h), (ground (arith, h), ground (arith, h)))
delivered j a (connected u rooms) s v h = (
  ground (arith, h.0, h.1.1.0 s),
  (ground (arith, h.0, h.1.0 v), ground (arith, h.0, h.1.0 v, h.1.1.0 s)),
)

-- Whatever the sockets of the server do, in any order, where each connection has a new id: a message for a
-- room goes to exactly the connected sockets whose last word on the room was to subscribe, one for a user to
-- exactly the user's connected sockets, and one for a room without a user to those of the room that are not
-- the user's.
pub operate_all-delivered :
    (j : String) (xs : List Operation) (s v : ℤ)
    → NewIds j xs unused
    → (broadcast_to_room_local (operate_all xs empty_adapter) s j
        ≡ is_in s (life_after j xs unused))
      × ((send_to_user_local (operate_all xs empty_adapter) v j ≡ is_of v (life_after j xs unused))
          × (broadcast_to_room_excluding_user (operate_all xs empty_adapter) s v j
              ≡ (is_in s (life_after j xs unused) && not (is_of v (life_after j xs unused)))))
unfolding empty_adapter
operate_all-delivered j xs s v n =
    delivered j (operate_all xs empty_adapter) (life_after j xs unused) s v
      (operate_all-Agrees j xs empty_adapter unused n (refl, (λ u. refl, λ t. refl)))
