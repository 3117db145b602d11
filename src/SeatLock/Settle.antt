-- ===== src/SeatLock/Settle.antt =====
-- What a release and a booking leave behind on the seat's own server (`release_lock`,
-- `book_seat_lua` of packages/redis-conn/src/single_node_lock.rs).
use bookit.Common.{
  ℕ, ◌+◌, ◌*◌, ◌%◌, ◌^◌, ◌≤◌, ◌<◌, ◌≡◌, ◌∙◌, inl, inr, true, false, none, some, ℤ, pos, arith, ltb,
  ◌&&◌, Bool-cases, Option,
}
use bookit.Redis.Keys.{
  seat_lock, seat_user_context, user_zset, room_zset, processing_queue, seats_bitmap, seat,
  seat_user, entry,
}
use bookit.Redis.Interface.{Redis}
use bookit.SeatLock.Cluster.{
  Delivery, answered, Env, Node, Cluster, run_at, on_all, zrem_cluster, executed,
}
use bookit.SeatLock.Route.{pool_for_seat}
use bookit.SeatLock.Scripts.{Request, foreign, owner_at, drop_seat, settle_script}
use bookit.SeatLock.Single.{
  at_seat, is_one, settle_at, release_lock, book_seat_lua, queue_member, replicate_drop,
  set_schedule_seat_bitmap_state_cluster,
}
use bookit.SeatLock.Owner.Calls.{replicate_drop-SameLock}
use bookit.SeatLock.Owner.Acquire.{at_seat-true, run_at-is_one}

module _ (R : Redis) (s : ℤ) (k : ℕ) (v : ℤ) where
  abbrev pub request : Request
  request = record { showtime_id = s; seat_id = pos k; user_id = v }

  -- No lock, no context key and no entry in the three sets is left, and the bitmap says `state`.
  pub record Settled (state : ℕ) (n : Node R) : Type 0 where
    pub unlocked : (t : ℕ) → R.strings.get n.strings (seat_lock s (pos k)) t ≡ none
    pub no_context : (t : ℕ) → R.strings.get n.strings (seat_user_context s (pos k) v) t ≡ none
    pub user_free : R.zsets.score n.zsets (user_zset s v) (seat (pos k)) ≡ none
    pub room_free : R.zsets.score n.zsets (room_zset s) (seat_user (pos k) v) ≡ none
    pub queue_free : R.zsets.score n.zsets processing_queue (entry (pos k) s v) ≡ none
    pub bits : R.bits.field n.bits (seats_bitmap s) (k * 2) ≡ state

  module _ (state : ℕ) (small : state < 4) (fits : k * 2 + 2 ≤ 2 ^ 32) where
    drop_seat-Settled :
        (n : Node R) → Settled state (drop_seat R request (queue_member request) state n)
    drop_seat-Settled n = record {
      unlocked = λ t. R.strings.get-del_ne _ _ _ t (λ p. cc) ∙ R.strings.get-del_self _ _ t;
      no_context = λ t. R.strings.get-del_self _ _ t;
      user_free =
          R.zsets.score-zrem_ne _ _ _ _ _ (inl (λ p. cc))
          ∙ R.zsets.score-zrem_ne _ _ _ _ _ (inl (λ p. cc))
          ∙ R.zsets.score-zrem_self _ _ _;
      room_free = R.zsets.score-zrem_ne _ _ _ _ _ (inl (λ p. cc)) ∙ R.zsets.score-zrem_self _ _ _;
      queue_free = R.zsets.score-zrem_self _ _ _;
      bits =
          let e : k * 2 % 2 ^ 64 ≡ k * 2 = omega arith in
          cc (e, R.bits.field-set_field_self n.bits (seats_bitmap s) (k * 2) state fits small);
    }

    on_all-node :
        (d : ℕ → Delivery) (f : Node R → Node R) (c : Cluster R) (i : ℕ)
        → Settled state (c.node i)
        → ((n : Node R) → Settled state n → Settled state (f n))
        → Settled state ((on_all R d f c).node i)
    unfolding on_all
    on_all-node d f c i h k = elim (Bool-cases (ltb i c.size && executed (d i))) [
      | inl b ↦ rw b (k _ h)
      | inr b ↦ rw b h
    ]

    replicate_drop-Settled :
        (e : Env) (c : Cluster R) (i : ℕ)
        → Settled state (c.node i)
        → Settled state ((replicate_drop R e request (queue_member request) state c).node i)
    unfolding replicate_drop zrem_cluster set_schedule_seat_bitmap_state_cluster
    replicate_drop-Settled e c i h =
        on_all-node _ _ _ i
          (on_all-node _ _ _ i
            (on_all-node _ _ _ i
              (on_all-node _ _ c i h λ n g. record {
                unlocked = g.unlocked;
                no_context = g.no_context;
                user_free = R.zsets.score-zrem_self _ _ _;
                room_free = R.zsets.score-zrem_ne _ _ _ _ _ (inl (λ p. cc)) ∙ g.room_free;
                queue_free = R.zsets.score-zrem_ne _ _ _ _ _ (inl (λ p. cc)) ∙ g.queue_free;
                bits = g.bits;
              })
              λ n g. record {
                unlocked = g.unlocked;
                no_context = g.no_context;
                user_free = R.zsets.score-zrem_ne _ _ _ _ _ (inl (λ p. cc)) ∙ g.user_free;
                room_free = R.zsets.score-zrem_self _ _ _;
                queue_free = R.zsets.score-zrem_ne _ _ _ _ _ (inl (λ p. cc)) ∙ g.queue_free;
                bits = g.bits;
              })
            λ n g. record {
              unlocked = g.unlocked;
              no_context = g.no_context;
              user_free = R.zsets.score-zrem_ne _ _ _ _ _ (inl (λ p. cc)) ∙ g.user_free;
              room_free = R.zsets.score-zrem_ne _ _ _ _ _ (inl (λ p. cc)) ∙ g.room_free;
              queue_free = R.zsets.score-zrem_self _ _ _;
              bits = g.bits;
            })
          λ n g. record {
            unlocked = g.unlocked;
            no_context = g.no_context;
            user_free = g.user_free;
            room_free = g.room_free;
            queue_free = g.queue_free;
            bits = R.bits.field-set_field_self _ _ _ _ fits small;
          }

    settle_script-Settled :
        (now_ms : ℕ) (n : Node R)
        → (settle_script R state request (queue_member request) now_ms n).1 ≡ 1
        → Settled state (settle_script R state request (queue_member request) now_ms n).0
    unfolding settle_script
    settle_script-Settled now_ms n one =
        elim (Bool-cases (foreign (owner_at R request now_ms n) v)) [
          | inl f ↦ absurd (ground arith)
          | inr f ↦ rw f (drop_seat-Settled n)
        ]

    -- A release or a booking that returns true was answered by the seat's own server, which then holds
    -- no trace of the lock and the new state of the seat.
    settle_at-Settled :
        (e : Env) (c : Cluster R) (i : ℕ)
        → (settle_at R e state request i c).1 ≡ true
        → Settled state ((settle_at R e state request i c).0.node i)
    unfolding settle_at
    settle_at-Settled e c i h = elim (Bool-cases (is_one call.1)) [
      | inl one ↦
          let r = run_at-is_one R e (e.delivery 0 i) i script c one in
          rw one (
            replicate_drop-Settled e call.0 i
              (rw (r.0) (settle_script-Settled e.now_ms (c.node i) r.1)))
      | inr other ↦ absurd (ground arith)
    ]
      where
        script : Node R → Node R × ℕ
        script = settle_script R state request (queue_member request) e.now_ms

        call : Cluster R × Option ℕ
        call = run_at R (e.delivery 0 i) i script c

  -- What a call of the seat's lock that returns true leaves on the seat's own server.
  abbrev pub SettledAt : ℕ → Cluster R → Type 0
  SettledAt state c = (i : ℕ) → pool_for_seat R c s (pos k) ≡ some i → Settled state (c.node i)

  settle_at-size :
      (state : ℕ) (e : Env) (i : ℕ) (c : Cluster R)
      → (settle_at R e state request i c).0.size ≡ c.size
  unfolding settle_at run_at
  settle_at-size state e i c = ground (
    arith,
    (replicate_drop-SameLock R s (pos k) v e request (queue_member request) state
        (run_at R (e.delivery 0 i) i (settle_script R state request (queue_member request) e.now_ms)
          c).0).size,
  )

  at_seat-Settled :
      (state : ℕ) (e : Env) (c : Cluster R)
      → state < 4
      → k * 2 + 2 ≤ 2 ^ 32
      → (at_seat R e false (settle_at R e state request) request c).1 ≡ true
      → SettledAt state (at_seat R e false (settle_at R e state request) request c).0
  at_seat-Settled state e c small fits h j pj =
      let (i, p, w, done) = at_seat-true R e (settle_at R e state request) request c h in
      let same : j ≡ i = cc (p, pj, w, settle_at-size state e i c) in
      rw (same, w) (settle_at-Settled state small fits e c i done)

  -- A booking that returns true leaves the seat booked (state 2): no lock, no context key, no entry
  -- in the sets, whoever owned the lock before; for the seats that fit into a bitmap.
  pub book_seat_lua-Settled :
      (e : Env) (c : Cluster R)
      → k * 2 + 2 ≤ 2 ^ 32
      → (book_seat_lua R e request c).1 ≡ true
      → SettledAt 2 (book_seat_lua R e request c).0
  unfolding book_seat_lua
  book_seat_lua-Settled e c fits h = at_seat-Settled 2 e c (omega arith) fits h

  -- A release that returns true leaves the seat available (state 0) on the seat's own server, with no
  -- lock, no context key and no entry in the three sets, for the seats that fit into a bitmap.
  pub release_lock-Settled :
      (e : Env) (c : Cluster R)
      → k * 2 + 2 ≤ 2 ^ 32
      → (release_lock R e request c).1 ≡ true
      → SettledAt 0 (release_lock R e request c).0
  unfolding release_lock
  release_lock-Settled e c fits h = at_seat-Settled 0 e c (omega arith) fits h

  release_lock_answered :
      (e : Env) (c : Cluster R) (i : ℕ)
      → pool_for_seat R c s (pos k) ≡ some i
      → e.connects i ≡ true
      → e.delivery 0 i ≡ answered
      → R.strings.get (c.node i).strings (seat_lock s (pos k)) e.now_ms ≡ none
      → (release_lock R e request c).1 ≡ true
  unfolding release_lock at_seat settle_at run_at settle_script
  release_lock_answered e c i p up ans free =
      rw (p, at_seat) (rw up (rw (ans, run_at) (rw (free, settle_script))))

  -- A release of a seat that nobody has locked succeeds, whatever its state was: where the seat's own
  -- server has no lock for the seat and answers, a release by any user returns true and makes the
  -- seat available in the bitmap, a booked seat too.
  pub release_lock_unowned :
      (e : Env) (c : Cluster R) (i : ℕ)
      → k * 2 + 2 ≤ 2 ^ 32
      → pool_for_seat R c s (pos k) ≡ some i
      → e.connects i ≡ true
      → e.delivery 0 i ≡ answered
      → R.strings.get (c.node i).strings (seat_lock s (pos k)) e.now_ms ≡ none
      → ((release_lock R e request c).1 ≡ true) × SettledAt 0 (release_lock R e request c).0
  release_lock_unowned e c i fits p up ans free =
      let done = release_lock_answered e c i p up ans free in
      (done, release_lock-Settled e c fits done)

  released_bits :
      (e : Env) (c : Cluster R) (i : ℕ)
      → k * 2 + 2 ≤ 2 ^ 32
      → pool_for_seat R c s (pos k) ≡ some i
      → (release_lock R e request c).1 ≡ true
      → R.bits.field ((release_lock R e request c).0.node i).bits (seats_bitmap s) (k * 2) ≡ 0
  unfolding release_lock
  released_bits e c i fits p h =
      let (j, pj, w, done) = at_seat-true R e (settle_at R e 0 request) request c h in
      let same : i ≡ j = cc (p, pj) in
      rw (same, w) (settle_at-Settled 0 (omega arith) fits e c j done).bits

module _ (R : Redis) (s : ℤ) (k : ℕ) (v : ℤ) where
  -- A seat that was booked is made available again by a release that any user sends: after a booking
  -- that returned true, a release of the seat by user `w` whose command the server answers returns
  -- true and leaves the seat available.
  pub book_then_release :
      (e e' : Env) (w : ℤ) (c : Cluster R) (i : ℕ)
      → k * 2 + 2 ≤ 2 ^ 32
      → (book_seat_lua R e (request R s k v) c).1 ≡ true
      → pool_for_seat R (book_seat_lua R e (request R s k v) c).0 s (pos k) ≡ some i
      → e'.connects i ≡ true
      → e'.delivery 0 i ≡ answered
      → let q = request R s k w in
        let d = (book_seat_lua R e (request R s k v) c).0 in
        (R.bits.field (d.node i).bits (seats_bitmap s) (k * 2) ≡ 2)
        × ((release_lock R e' q d).1 ≡ true)
        × (R.bits.field ((release_lock R e' q d).0.node i).bits (seats_bitmap s) (k * 2) ≡ 0)
  book_then_release e e' w c i fits h p up ans =
      let d = (book_seat_lua R e (request R s k v) c).0 in
      let booked = book_seat_lua-Settled R s k v e c fits h i p in
      let done = release_lock_answered R s k w e' d i p up ans (booked.unlocked e'.now_ms) in
      (booked.bits, done, released_bits R s k w e' d i fits p done)
