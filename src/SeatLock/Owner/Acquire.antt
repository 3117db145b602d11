-- ===== src/SeatLock/Owner/Acquire.antt =====
-- What a successful acquisition gives, and that the lock of another user refuses every other one
-- (`acquire_seat_lock_lua`, `acquire_lock`, `release_lock`, `book_seat_lua` of
-- packages/redis-conn/src/single_node_lock.rs).
use bookit.Common.{
  ℕ, ◌+◌, ◌+ℤ◌, ◌^◌, ◌≤◌, ◌<◌, ◌≡◌, ◌≢◌, refl, ◌∙◌, inl, inr, Bool, true, false, Option, some, List,
  ℤ, pos, All, arith, Bool-cases, Option-cases,
}
use bookit.Redis.Keys.{num, Member}
use bookit.Redis.Interface.{Redis}
use bookit.SeatLock.Cluster.{Delivery, answered, unanswered, dropped, Env, Node, Cluster, run_at}
use bookit.SeatLock.Route.{pool_for_seat}
use bookit.SeatLock.Scripts.{
  Request, lock_key, context_key, owner_at, acquire_script, settle_script,
}
use bookit.SeatLock.Single.{
  at_seat, is_one, is_true, ttl_of, acquire_at, acquire_lock, acquire_distributed_lock,
  acquire_seat_at, acquire_seat_lock_lua, settle_at, release_lock, book_seat_lua, set_nx,
  extend_lock, replicate_lock, queue_member,
}
use bookit.SeatLock.Owner.Scripts.{ne-false}
use bookit.SeatLock.Owner.Calls.{HoldsAt, replicate_lock-SameLock, not-owned, run_at-SameLock}
use bookit.SeatLock.Owner.Safety.{Call, run, Owns, Other, run-Owns}

module _ (R : Redis) (e : Env) where
  run_at-size :
      {A : Type 0} (d : Delivery) (i : ℕ) (f : Node R → Node R × A) (c : Cluster R)
      → (run_at R d i f c).0.size ≡ c.size
  unfolding run_at
  run_at-size d i f c = refl

  -- A positive answer means that the command ran, and with this result.
  pub run_at-is_one :
      (d : Delivery) (i : ℕ) (f : Node R → Node R × ℕ) (c : Cluster R)
      → is_one (run_at R d i f c).1 ≡ true
      → ((run_at R d i f c).0.node i ≡ (f (c.node i)).0) × ((f (c.node i)).1 ≡ 1)
  unfolding run_at
  run_at-is_one answered i f c h = ground arith
  run_at-is_one unanswered i f c h = cc
  run_at-is_one dropped i f c h = cc

  -- A positive result means that the pool of the seat gave a connection.
  pub at_seat-true :
      (f : ℕ → Cluster R → Cluster R × Bool) (q : Request) (c : Cluster R)
      → (at_seat R e false f q c).1 ≡ true
      → (i : ℕ) × (pool_for_seat R c q.showtime_id q.seat_id ≡ some i)
        × (at_seat R e false f q c ≡ f i c)
        × ((f i c).1 ≡ true)
  unfolding at_seat
  at_seat-true f q c h = elim (Option-cases (pool_for_seat R c q.showtime_id q.seat_id)) [
    | inl p ↦ absurd (ground arith)
    | inr (i, p) ↦ elim (Bool-cases (e.connects i)) [
      | inl up ↦ (i, p, ground arith, ground arith)
      | inr down ↦ absurd (ground arith)
    ]
  ]

  acquire_script_one :
      (q : Request) (m : Member) (ttl_ms : ℕ) (x y : ℤ) (n : Node R) (t : ℕ)
      → 0 < ttl_ms
      → ttl_ms < 2 ^ 63
      → e.now_ms ≤ t
      → t < e.now_ms + ttl_ms
      → (acquire_script R q m ttl_ms x y e.now_ms n).1 ≡ 1
      → R.strings.get (acquire_script R q m ttl_ms x y e.now_ms n).0.strings (lock_key q) t
        ≡ some (num q.user_id)
  unfolding acquire_script
  acquire_script_one q m ttl_ms x y n t h0 h1 h2 h3 h = ground (
    arith,
    R.strings.get-set_px_self n.strings (lock_key q) (num q.user_id) e.now_ms ttl_ms t,
    R.strings.get-set_px_ne
        (R.strings.set_px n.strings (lock_key q) (num q.user_id) e.now_ms ttl_ms) (context_key q)
        (lock_key q) (num (pos 1)) e.now_ms ttl_ms t (λ p. cc),
  )

  -- An acquisition by the script that returns true, with a time to live that Redis takes, makes the
  -- caller the owner of the seat from now until the time to live is over.
  pub acquire_seat_lock_lua-Owns :
      (q : Request) (x : ℤ) (c : Cluster R)
      → 0 < ttl_of x
      → ttl_of x < 2 ^ 63
      → (acquire_seat_lock_lua R e q x c).1 ≡ true
      → Owns R q.showtime_id q.seat_id q.user_id e.now_ms
          (e.now_ms + ttl_of x)
          (acquire_seat_lock_lua R e q x c).0
  unfolding acquire_seat_lock_lua acquire_seat_at
  acquire_seat_lock_lua-Owns q x c h0 h1 h =
      let (i, p, w, done) = at_seat-true (acquire_seat_at R e q x) q c h in
      elim (Bool-cases (is_one (call i).1)) [
        | inl one ↦ rw (w, one) (own i p one)
        | inr other ↦ absurd (ground arith)
      ]
    where
      call : ℕ → Cluster R × Option ℕ
      call i =
          run_at R (e.delivery 0 i) i
            (acquire_script R q (queue_member q) (ttl_of x) (pos e.now +ℤ x)
              (pos e.now +ℤ x +ℤ pos 15) e.now_ms)
            c

      own :
          (i : ℕ)
          → pool_for_seat R c q.showtime_id q.seat_id ≡ some i
          → is_one (call i).1 ≡ true
          → Owns R q.showtime_id q.seat_id q.user_id e.now_ms
              (e.now_ms + ttl_of x)
              (replicate_lock R e q (pos e.now +ℤ x) (pos e.now +ℤ x +ℤ pos 15) (call i).0)
      own i p one j pj t since until =
          let g =
            replicate_lock-SameLock R q.showtime_id q.seat_id q.user_id e q (pos e.now +ℤ x)
              (pos e.now +ℤ x +ℤ pos 15) (call i).0 in
          let same : i ≡ j = cc (p, pj, g.size, run_at-size (e.delivery 0 i) i _ c) in
          let r = run_at-is_one (e.delivery 0 i) i _ c one in
          cc (
            same,
            g.lock j t,
            r.0,
            acquire_script_one q (queue_member q) (ttl_of x) (pos e.now +ℤ x)
                (pos e.now +ℤ x +ℤ pos 15) (c.node i) t h0 h1 since until r.1,
          )

module _ (R : Redis) (e : Env) (u : ℤ) (q : Request) (other : q.user_id ≢ u) where
  acquire_script-refused :
      (m : Member) (ttl_ms : ℕ) (x y : ℤ) (n : Node R)
      → owner_at R q e.now_ms n ≡ some (num u)
      → acquire_script R q m ttl_ms x y e.now_ms n ≡ (n, 0)
  unfolding acquire_script
  acquire_script-refused m ttl_ms x y n o = rw o (ground (arith, ne-false u q.user_id other))

  settle_script-refused :
      (state : ℕ) (m : Member) (n : Node R)
      → owner_at R q e.now_ms n ≡ some (num u)
      → settle_script R state q m e.now_ms n ≡ (n, 0)
  unfolding settle_script
  settle_script-refused state m n o = rw o (ground (arith, ne-false u q.user_id other))

  set_nx-refused :
      (ttl_ms : ℕ) (n : Node R)
      → owner_at R q e.now_ms n ≡ some (num u)
      → set_nx R e q ttl_ms n ≡ (n, false)
  unfolding set_nx
  set_nx-refused ttl_ms n o = rw (o, set_nx)

  run_at-refused :
      (d : Delivery) (i : ℕ) (f : Node R → Node R × ℕ) (c : Cluster R)
      → (f (c.node i)).1 ≡ 0
      → is_one (run_at R d i f c).1 ≡ false
  unfolding run_at
  run_at-refused answered i f c h = rw h
  run_at-refused unanswered i f c h = refl
  run_at-refused dropped i f c h = refl

  run_at_bool-refused :
      (d : Delivery) (i : ℕ) (f : Node R → Node R × Bool) (c : Cluster R)
      → (f (c.node i)).1 ≡ false
      → is_true (run_at R d i f c).1 ≡ false
  unfolding run_at
  run_at_bool-refused answered i f c h = rw h
  run_at_bool-refused unanswered i f c h = refl
  run_at_bool-refused dropped i f c h = refl

  at_seat-false :
      (f : ℕ → Cluster R → Cluster R × Bool) (c : Cluster R)
      → ((i : ℕ) → pool_for_seat R c q.showtime_id q.seat_id ≡ some i → (f i c).1 ≡ false)
      → (at_seat R e false f q c).1 ≡ false
  at_seat-false f c h = elim (Bool-cases (at_seat R e false f q c).1) [
    | inl yes' ↦ let (i, p, w, done) = at_seat-true R e f q c yes' in absurd (cc (done, h i p))
    | inr no' ↦ no'
  ]

  module _ (c : Cluster R) (holds : HoldsAt R q.showtime_id q.seat_id u c e.now_ms) where
    settle_at-refused :
        (state i : ℕ)
        → pool_for_seat R c q.showtime_id q.seat_id ≡ some i
        → (settle_at R e state q i c).1 ≡ false
    unfolding settle_at
    settle_at-refused state i p =
        let f = settle_script-refused state (queue_member q) (c.node i) (holds i p) in
        rw (
          run_at-refused (e.delivery 0 i) i (settle_script R state q (queue_member q) e.now_ms) c
            (ground (arith, f)))

    acquire_seat_at-refused :
        (x : ℤ) (i : ℕ)
        → pool_for_seat R c q.showtime_id q.seat_id ≡ some i
        → (acquire_seat_at R e q x i c).1 ≡ false
    unfolding acquire_seat_at
    acquire_seat_at-refused x i p =
        let f =
          acquire_script-refused (queue_member q) (ttl_of x) (pos e.now +ℤ x)
            (pos e.now +ℤ x +ℤ pos 15) (c.node i) (holds i p) in
        rw (
          run_at-refused (e.delivery 0 i) i
            (acquire_script R q (queue_member q) (ttl_of x) (pos e.now +ℤ x)
              (pos e.now +ℤ x +ℤ pos 15) e.now_ms)
            c (ground (arith, f)))

    acquire_at-refused :
        (ttl_ms i : ℕ)
        → pool_for_seat R c q.showtime_id q.seat_id ≡ some i
        → (acquire_at R e q ttl_ms i c).1 ≡ false
    unfolding acquire_at extend_lock
    acquire_at-refused ttl_ms i p =
        let f = set_nx-refused ttl_ms (c.node i) (holds i p) in
        let g =
          run_at-SameLock R q.showtime_id q.seat_id u (e.delivery 0 i) i (set_nx R e q ttl_ms) c
            (λ t. rw f) in
        let o : owner_at R q e.now_ms
              ((run_at R (e.delivery 0 i) i (set_nx R e q ttl_ms) c).0.node i)
            ≡ some (num u) =
          g.lock i e.now_ms ∙ holds i p in
        rw (run_at_bool-refused (e.delivery 0 i) i (set_nx R e q ttl_ms) c (ground (arith, f))) (
          rw (
            not-owned R q.showtime_id q.seat_id u e q other c holds (e.delivery 1 i) i
              (run_at R (e.delivery 0 i) i (set_nx R e q ttl_ms) c).0 o))

    -- While another user holds the lock of a seat, the acquisition by the script, the acquisition by
    -- SET, the release and the booking of the seat all return false, whatever gets lost.
    pub calls_refused :
        (x : ℤ)
        → ((acquire_seat_lock_lua R e q x c).1 ≡ false)
          × ((acquire_distributed_lock R e q x c).1 ≡ false)
          × ((release_lock R e q c).1 ≡ false)
          × ((book_seat_lua R e q c).1 ≡ false)
    unfolding acquire_seat_lock_lua acquire_distributed_lock acquire_lock release_lock book_seat_lua
    calls_refused x = (
      at_seat-false _ c (acquire_seat_at-refused x),
      at_seat-false _ c (acquire_at-refused (ttl_of x)),
      at_seat-false _ c (settle_at-refused 0),
      at_seat-false _ c (settle_at-refused 2),
    )

module _ (R : Redis) (e : Env) (q : Request) (x : ℤ) (c : Cluster R) where
  -- Mutual exclusion. If an acquisition by the script returns true, with a time to live that Redis
  -- takes, then after any calls of other users that reach the servers before it is over, a further
  -- acquisition of the seat by another user before that time returns false, by the script and by
  -- SET; so do its release and its booking of the seat.
  pub acquire_exclusive :
      (calls : List (Env × Call)) (e' : Env) (v : ℤ) (y : ℤ)
      → 0 < ttl_of x
      → ttl_of x < 2 ^ 63
      → (acquire_seat_lock_lua R e q x c).1 ≡ true
      → All (Other R q.showtime_id q.seat_id q.user_id e.now_ms (e.now_ms + ttl_of x)) calls
      → v ≢ q.user_id
      → e.now_ms ≤ e'.now_ms
      → e'.now_ms < e.now_ms + ttl_of x
      → let d = run R calls (acquire_seat_lock_lua R e q x c).0 in
        let q' : Request = record q { user_id = v } in
        ((acquire_seat_lock_lua R e' q' y d).1 ≡ false)
        × ((acquire_distributed_lock R e' q' y d).1 ≡ false)
        × ((release_lock R e' q' d).1 ≡ false)
        × ((book_seat_lua R e' q' d).1 ≡ false)
  acquire_exclusive calls e' v y h0 h1 h others ne since until =
      calls_refused R e' q.user_id (record q { user_id = v }) ne
        (run R calls (acquire_seat_lock_lua R e q x c).0)
        (λ i p.
          run-Owns R q.showtime_id q.seat_id q.user_id e.now_ms (e.now_ms + ttl_of x) calls _
            (acquire_seat_lock_lua-Owns R e q x c h0 h1 h) others i p e'.now_ms since until)
        y
