-- ===== src/SeatLock/Single.antt =====
-- The operations of `SingleNodeLock` (packages/redis-conn/src/single_node_lock.rs). A call's commands
-- are numbered in the order in which the source sends them; the commands on all servers are sent
-- after the one on the seat's own server.
use bookit.Common.{
  ℕ, suc, ◌*◌, ◌%◌, ◌^◌, Bool, true, false, ◌&&◌, Option, none, some, List, [], ◌∷◌, ℤ, pos, negsuc,
  ◌+ℤ◌, ◌==ℤ◌, as_u64, ◌==◌, if◌then◌else◌,
}
use bookit.Redis.Keys.{
  user_zset, room_zset, processing_queue, seats_bitmap, Val, num, Member, seat, seat_user, entry,
}
use bookit.Redis.Interface.{Redis}
use bookit.SeatLock.Cluster.{Env, Node, Cluster, run_at, on_all, zadd_cluster, zrem_cluster}
use bookit.SeatLock.Route.{pool_for_seat}
use bookit.SeatLock.Scripts.{
  Request, lock_key, context_key, owner_at, add_to_sets, set_bits, acquire_script,
  release_expired_script, settle_script, force_book_script,
}

-- `{"seat_id":…,"schedule_id":…,"user_id":…}`
abbrev pub queue_member : Request → Member
queue_member q = entry q.seat_id q.showtime_id q.user_id

-- `(expires_in_sec as u64) * 1000`, on 64 bits
abbrev pub ttl_of : ℤ → ℕ
ttl_of expires_in_sec = as_u64 expires_in_sec * 1000 % 2 ^ 64

abbrev pub expiry_of : Env → ℤ → ℤ
expiry_of e expires_in_sec = pos e.now +ℤ expires_in_sec

-- `usize::try_from(seat_id).ok().and_then(|id| id.checked_mul(2))`
abbrev pub seat_offset : ℤ → Option ℕ
seat_offset (pos n) = some (n * 2)
seat_offset (negsuc n) = none

abbrev pub is_one : Option ℕ → Bool
is_one none = false
is_one (some n) = n == 1

abbrev pub is_true : Option Bool → Bool
is_true (some true) = true
is_true _ = false

-- An answer to GET read as `Option<i32>`; an error and a value that is no number count as none.
abbrev pub read_owner : Option (Option Val) → Option ℤ
read_owner (some (some (num v))) = some v
read_owner _ = none

abbrev pub owned_by : Option ℤ → ℤ → Bool
owned_by none user = false
owned_by (some v) user = v ==ℤ user

module _ (R : Redis) (e : Env) where
  -- What a call does once the pool of the seat gives a connection; without one it is `refused`.
  unfoldable pub at_seat {ℓ} :
      {A : Type ℓ} → A → (ℕ → Cluster R → Cluster R × A) → Request → Cluster R → Cluster R × A
  at_seat refused f q c = elim (pool_for_seat R c q.showtime_id q.seat_id) [
    | none ↦ (c, refused)
    | some i ↦ if e.connects i then f i c else (c, refused)
  ]

  unfoldable pub set_schedule_seat_bitmap_state_cluster : ℕ → ℤ → ℤ → ℕ → Cluster R → Cluster R
  set_schedule_seat_bitmap_state_cluster command showtime_id seat_id state c =
      elim (seat_offset seat_id) [
        | none ↦ c
        | some o ↦
            on_all R (e.delivery command)
              (λ n. record n { bits = R.bits.set_field n.bits (seats_bitmap showtime_id) o state })
              c
      ]

  -- The ZADDs and the BITFIELD on every server that follow a successful acquisition.
  unfoldable pub replicate_lock : Request → ℤ → ℤ → Cluster R → Cluster R
  replicate_lock q expiry processing_expiry c =
      let c1 =
        zadd_cluster R (e.delivery 1) (user_zset q.showtime_id q.user_id) (seat q.seat_id) expiry
          c in
      let c2 =
        zadd_cluster R (e.delivery 2) (room_zset q.showtime_id) (seat_user q.seat_id q.user_id)
          expiry c1 in
      let c3 =
        zadd_cluster R (e.delivery 3) processing_queue (queue_member q) processing_expiry c2 in
      set_schedule_seat_bitmap_state_cluster 4 q.showtime_id q.seat_id 1 c3

  -- The ZREMs and the BITFIELD on every server that follow a release or a booking.
  unfoldable pub replicate_drop : Request → Member → ℕ → Cluster R → Cluster R
  replicate_drop q member state c =
      let c1 =
        zrem_cluster R (e.delivery 1) (user_zset q.showtime_id q.user_id) (seat q.seat_id) c in
      let c2 =
        zrem_cluster R (e.delivery 2) (room_zset q.showtime_id) (seat_user q.seat_id q.user_id)
          c1 in
      let c3 = zrem_cluster R (e.delivery 3) processing_queue member c2 in
      set_schedule_seat_bitmap_state_cluster 4 q.showtime_id q.seat_id state c3

  -- SET k v NX PX ttl: whether the key was set.
  unfoldable pub set_nx : Request → ℕ → Node R → Node R × Bool
  set_nx q ttl_ms n = elim (owner_at R q e.now_ms n) [
    | none ↦ (
      record n {
        strings = R.strings.set_px n.strings (lock_key q) (num q.user_id) e.now_ms ttl_ms;
      },
      true,
    )
    | some v ↦ (n, false)
  ]

  unfoldable pub pexpire : Request → ℕ → Node R → Node R × Unit {0}
  pexpire q ttl_ms n =
      (record n { strings = R.strings.pexpire n.strings (lock_key q) e.now_ms ttl_ms }, tt)

  -- The branch for a lock that was not set: the user's own lock gets a new time to live.
  unfoldable pub extend_lock : Request → ℕ → ℕ → Cluster R → Cluster R × Bool
  extend_lock q ttl_ms i c =
      let (c2, current_owner) = run_at R (e.delivery 1 i) i (λ n. (n, owner_at R q e.now_ms n)) c in
      if owned_by (read_owner current_owner) q.user_id
      then ((run_at R (e.delivery 2 i) i (pexpire q ttl_ms) c2).0, true)
      else (c2, false)

  unfoldable pub acquire_at : Request → ℕ → ℕ → Cluster R → Cluster R × Bool
  acquire_at q ttl_ms i c =
      let (c1, set_res) = run_at R (e.delivery 0 i) i (set_nx q ttl_ms) c in
      if is_true set_res then (c1, true) else extend_lock q ttl_ms i c1

  unfoldable pub acquire_lock : Request → ℕ → Cluster R → Cluster R × Bool
  acquire_lock q ttl_ms = at_seat false (acquire_at q ttl_ms) q

  unfoldable pub acquire_distributed_lock : Request → ℤ → Cluster R → Cluster R × Bool
  acquire_distributed_lock q expires_in_sec = acquire_lock q (ttl_of expires_in_sec)

  unfoldable pub acquire_seat_at : Request → ℤ → ℕ → Cluster R → Cluster R × Bool
  acquire_seat_at q expires_in_sec i c =
      let expiry = expiry_of e expires_in_sec in
      let (c1, res) =
        run_at R (e.delivery 0 i) i
          (acquire_script R q (queue_member q) (ttl_of expires_in_sec) expiry (expiry +ℤ pos 15)
            e.now_ms)
          c in
      if is_one res then (replicate_lock q expiry (expiry +ℤ pos 15) c1, true) else (c1, false)

  unfoldable pub acquire_seat_lock_lua : Request → ℤ → Cluster R → Cluster R × Bool
  acquire_seat_lock_lua q expires_in_sec = at_seat false (acquire_seat_at q expires_in_sec) q

  -- The atomic pipeline of one seat in `update_seat_metadata_lua`; the answer is not used.
  unfoldable pub metadata_at : Request → ℤ → ℕ → ℕ → Cluster R → Cluster R × Bool
  metadata_at q expires_in_sec command i c =
      let expiry = expiry_of e expires_in_sec in
      let (c1, res) =
        run_at R (e.delivery command i) i
          (λ n. (
            record n {
              zsets = add_to_sets R q (queue_member q) expiry (expiry +ℤ pos 15) n.zsets;
              bits = set_bits R q 1 n.bits;
            },
            true,
          ))
          c in
      (c1, is_true res)

  unfoldable pub metadata_from : ℕ → ℤ → ℤ → ℤ → List ℤ → Cluster R → Cluster R × Bool
  metadata_from command showtime_id user_id expires_in_sec [] c = (c, true)
  metadata_from command showtime_id user_id expires_in_sec (seat_id ∷ rest) c =
      let q : Request = record {
        showtime_id = showtime_id;
        seat_id = seat_id;
        user_id = user_id;
      } in
      let (c1, done) = at_seat false (metadata_at q expires_in_sec command) q c in
      let (c2, success) = metadata_from (suc command) showtime_id user_id expires_in_sec rest c1 in
      (c2, done && success)

  unfoldable pub update_seat_metadata_lua : ℤ → List ℤ → ℤ → ℤ → Cluster R → Cluster R × Bool
  update_seat_metadata_lua showtime_id seat_ids user_id expires_in_sec =
      metadata_from 0 showtime_id user_id expires_in_sec seat_ids

  unfoldable pub release_expired_at : Request → Member → ℕ → Cluster R → Cluster R × Bool
  release_expired_at q member i c =
      let (c1, result) =
        run_at R (e.delivery 0 i) i (release_expired_script R q member e.now_ms) c in
      (replicate_drop q member 0 c1, is_one result)

  unfoldable pub release_expired_lock_lua : Request → Member → Cluster R → Cluster R × Bool
  release_expired_lock_lua q member = at_seat false (release_expired_at q member) q

  -- `release_lock` (state 0) and `book_seat_lua` (state 2) differ in the state that they write.
  unfoldable pub settle_at : ℕ → Request → ℕ → Cluster R → Cluster R × Bool
  settle_at state q i c =
      let (c1, res) =
        run_at R (e.delivery 0 i) i (settle_script R state q (queue_member q) e.now_ms) c in
      if is_one res then (replicate_drop q (queue_member q) state c1, true) else (c1, false)

  unfoldable pub release_lock : Request → Cluster R → Cluster R × Bool
  release_lock q = at_seat false (settle_at 0 q) q

  unfoldable pub book_seat_lua : Request → Cluster R → Cluster R × Bool
  book_seat_lua q = at_seat false (settle_at 2 q) q

  unfoldable pub force_book_at : Request → Member → ℕ → Cluster R → Cluster R × Unit {0}
  force_book_at q member i c =
      let c1 = (run_at R (e.delivery 0 i) i (force_book_script R q member e.now_ms) c).0 in
      (replicate_drop q member 2 c1, tt)

  unfoldable pub force_book_seat_lua : Request → Member → Cluster R → Cluster R
  force_book_seat_lua q member c = (at_seat tt (force_book_at q member) q c).0

  unfoldable pub get_lock_owner : Request → Cluster R → Option ℤ
  get_lock_owner q c =
      (at_seat none
        (λ i c'.
          (c', read_owner (run_at R (e.delivery 0 i) i (λ n. (n, owner_at R q e.now_ms n)) c').1))
        q c).1

  -- EXISTS on the context key.
  unfoldable pub exists_context : Request → Node R → Node R × Bool
  exists_context q n =
      (n, elim (R.strings.get n.strings (context_key q) e.now_ms) [ none ↦ false | some v ↦ true ])

  unfoldable pub user_holds_lock : Request → Cluster R → Bool
  user_holds_lock q c =
      (at_seat false (λ i c'. (c', is_true (run_at R (e.delivery 0 i) i (exists_context q) c').1)) q
        c).1
