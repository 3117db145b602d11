-- ===== src/SeatLock/Owner/Calls.antt =====
-- The lock key of a seat, on every server, under one call of another user, whatever gets lost on
-- the way (packages/redis-conn/src/single_node_lock.rs).
use bookit.Common.{
  ℕ, ◌≡◌, ◌≢◌, refl, ◌∙◌, inl, inr, Bool, true, false, some, ℤ, pos, negsuc, if◌then◌else◌, arith,
  Bool-cases, Option-cases,
}
use bookit.Redis.Keys.{Key-discrete, seat_lock, num, Member}
use bookit.Redis.Interface.{Redis}
use bookit.SeatLock.Cluster.{
  Delivery, answered, unanswered, dropped, Env, Node, Cluster, run_at, on_all, zadd_cluster,
  zrem_cluster,
}
use bookit.SeatLock.Route.{pool_for_seat}
use bookit.SeatLock.Scripts.{Request, lock_key, owner_at}
use bookit.SeatLock.Single.{
  owned_by, read_owner, at_seat, replicate_lock, replicate_drop,
  set_schedule_seat_bitmap_state_cluster, extend_lock, acquire_at, acquire_seat_at, metadata_at,
  release_expired_at, settle_at, force_book_at,
}
use bookit.SeatLock.Owner.Scripts.{
  Held, Keeps, acquire_script-Keeps, release_expired_script-Keeps, settle_script-Keeps,
  force_book_script-Keeps, set_nx-Keeps, pexpire-Keeps, ne-false,
}

module _ (R : Redis) (s a u : ℤ) where
  -- The same servers, with the same lock key at all times.
  pub record SameLock (c d : Cluster R) : Type 0 where
    pub size : d.size ≡ c.size
    pub lock : (j : ℕ) → Keeps R s a u (c.node j) (d.node j)

  -- User `u` holds the lock of the seat, on the seat's own server.
  abbrev pub HoldsAt : Cluster R → ℕ → Type 0
  HoldsAt c now =
      (i : ℕ)
      → pool_for_seat R c s a ≡ some i
      → R.strings.get (c.node i).strings (seat_lock s a) now ≡ some (num u)

  pub SameLock-refl : (c : Cluster R) → SameLock c c
  SameLock-refl c = record { size = refl; lock = λ j t. refl }

  pub SameLock-trans : {c d e : Cluster R} → SameLock c d → SameLock d e → SameLock c e
  SameLock-trans g h = record { size = h.size ∙ g.size; lock = λ j t. h.lock j t ∙ g.lock j t }

  pub HoldsAt-SameLock : {c d : Cluster R} (now : ℕ) → SameLock c d → HoldsAt c now → HoldsAt d now
  HoldsAt-SameLock {c} {d} now g h i p = g.lock i now ∙ h i (cc (p, g.size))

  held :
      (c : Cluster R) (q : Request) (now i : ℕ)
      → HoldsAt c now
      → pool_for_seat R c q.showtime_id q.seat_id ≡ some i
      → Held R s a u q now (c.node i)
  held c q now i h p same = h i (cc (p, same))

  pub run_at-SameLock :
      {A : Type 0} (d : Delivery) (i : ℕ) (f : Node R → Node R × A) (c : Cluster R)
      → Keeps R s a u (c.node i) (f (c.node i)).0
      → SameLock c (run_at R d i f c).0
  unfolding run_at
  run_at-SameLock answered i f c k = record { size = refl; lock = λ j t. ground (arith, k t) }
  run_at-SameLock unanswered i f c k = record { size = refl; lock = λ j t. ground (arith, k t) }
  run_at-SameLock dropped i f c k = record { size = refl; lock = λ j t. ground arith }

  on_all-SameLock :
      (d : ℕ → Delivery) (f : Node R → Node R) (c : Cluster R)
      → ((n : Node R) → Keeps R s a u n (f n))
      → SameLock c (on_all R d f c)
  unfolding on_all
  on_all-SameLock d f c k = record { size = refl; lock = λ j t. ground (arith, k (c.node j) t) }

  module _ (e : Env) (q : Request) where
    set_bitmap-SameLock :
        (command : ℕ) (x y : ℤ) (state : ℕ) (c : Cluster R)
        → SameLock c (set_schedule_seat_bitmap_state_cluster R e command x y state c)
    unfolding set_schedule_seat_bitmap_state_cluster
    set_bitmap-SameLock command x (pos n) state c = on_all-SameLock _ _ c (λ n t. refl)
    set_bitmap-SameLock command x (negsuc n) state c = SameLock-refl c

    pub replicate_lock-SameLock :
        (x y : ℤ) (c : Cluster R) → SameLock c (replicate_lock R e q x y c)
    unfolding replicate_lock zadd_cluster
    replicate_lock-SameLock x y c = SameLock-trans (on_all-SameLock _ _ c (λ n t. refl)) (
        SameLock-trans (on_all-SameLock _ _ _ (λ n t. refl))
          (SameLock-trans (on_all-SameLock _ _ _ (λ n t. refl)) (set_bitmap-SameLock 4 _ _ 1 _)))

    pub replicate_drop-SameLock :
        (m : Member) (state : ℕ) (c : Cluster R) → SameLock c (replicate_drop R e q m state c)
    unfolding replicate_drop zrem_cluster
    replicate_drop-SameLock m state c = SameLock-trans (on_all-SameLock _ _ c (λ n t. refl)) (
        SameLock-trans (on_all-SameLock _ _ _ (λ n t. refl)) (
          SameLock-trans (on_all-SameLock _ _ _ (λ n t. refl)) (set_bitmap-SameLock 4 _ _ state _)))

    pub at_seat-SameLock :
        {A : Type 0} (refused : A) (f : ℕ → Cluster R → Cluster R × A) (c : Cluster R)
        → ((i : ℕ) → pool_for_seat R c q.showtime_id q.seat_id ≡ some i → SameLock c (f i c).0)
        → SameLock c (at_seat R e refused f q c).0
    unfolding at_seat
    at_seat-SameLock refused f c k =
        elim (Option-cases (pool_for_seat R c q.showtime_id q.seat_id)) [
          | inl p ↦ rw (p, at_seat) (SameLock-refl c)
          | inr (i, p) ↦ elim (Bool-cases (e.connects i)) [
            | inl up ↦ rw (p, at_seat) (rw up (k i p))
            | inr down ↦ rw (p, at_seat) (rw down (SameLock-refl c))
          ]
        ]

    -- A call that sends one command, and others if the answer says so.
    if-SameLock :
        (b : Bool) (c : Cluster R) (x y : Cluster R × Bool)
        → SameLock c x.0
        → SameLock c y.0
        → SameLock c (if b then x else y).0
    if-SameLock true c x y h k = h
    if-SameLock false c x y h k = k

    module _ (other : q.user_id ≢ u) (c : Cluster R) (holds : HoldsAt c e.now_ms) where
      -- The first command of a call, on the seat's own server.
      first :
          {A : Type 0} (command : ℕ) (f : Node R → Node R × A) (i : ℕ)
          → pool_for_seat R c q.showtime_id q.seat_id ≡ some i
          → ((n : Node R) → Held R s a u q e.now_ms n → Keeps R s a u n (f n).0)
          → SameLock c (run_at R (e.delivery command i) i f c).0
      first command f i p k =
          run_at-SameLock (e.delivery command i) i f c (k (c.node i) (held c q e.now_ms i holds p))

      pub settle_at-SameLock :
          (state i : ℕ)
          → pool_for_seat R c q.showtime_id q.seat_id ≡ some i
          → SameLock c (settle_at R e state q i c).0
      unfolding settle_at
      settle_at-SameLock state i p =
          let g = first 0 _ i p (settle_script-Keeps R s a u q other state _ e.now_ms) in
          if-SameLock _ c _ _ (SameLock-trans g (replicate_drop-SameLock _ state _)) g

      pub release_expired_at-SameLock :
          (m : Member) (i : ℕ)
          → pool_for_seat R c q.showtime_id q.seat_id ≡ some i
          → SameLock c (release_expired_at R e q m i c).0
      unfolding release_expired_at
      release_expired_at-SameLock m i p =
          SameLock-trans (first 0 _ i p (release_expired_script-Keeps R s a u q other m e.now_ms))
            (replicate_drop-SameLock m 0 _)

      pub force_book_at-SameLock :
          (m : Member) (i : ℕ)
          → pool_for_seat R c q.showtime_id q.seat_id ≡ some i
          → SameLock c (force_book_at R e q m i c).0
      unfolding force_book_at
      force_book_at-SameLock m i p =
          SameLock-trans (first 0 _ i p (force_book_script-Keeps R s a u q other m e.now_ms))
            (replicate_drop-SameLock m 2 _)

      pub acquire_seat_at-SameLock :
          (x : ℤ) (i : ℕ)
          → pool_for_seat R c q.showtime_id q.seat_id ≡ some i
          → SameLock c (acquire_seat_at R e q x i c).0
      unfolding acquire_seat_at
      acquire_seat_at-SameLock x i p =
          let g = first 0 _ i p (acquire_script-Keeps R s a u q other _ _ _ _ e.now_ms) in
          if-SameLock _ c _ _ (SameLock-trans g (replicate_lock-SameLock _ _ _)) g

      pub metadata_at-SameLock :
          (x : ℤ) (command i : ℕ)
          → pool_for_seat R c q.showtime_id q.seat_id ≡ some i
          → SameLock c (metadata_at R e q x command i c).0
      unfolding metadata_at
      metadata_at-SameLock x command i p = first command _ i p (λ n h t. refl)

      -- The answer to GET on the user's seat names user `u`, if it arrives.
      pub not-owned :
          (d : Delivery) (i : ℕ) (b : Cluster R)
          → owner_at R q e.now_ms (b.node i) ≡ some (num u)
          → owned_by (read_owner (run_at R d i (λ n. (n, owner_at R q e.now_ms n)) b).1) q.user_id
            ≡ false
      unfolding run_at
      not-owned answered i b o = rw o (ne-false u q.user_id other)
      not-owned unanswered i b o = refl
      not-owned dropped i b o = refl

      extend_lock-SameLock :
          (ttl_ms i : ℕ) (b : Cluster R)
          → SameLock c b
          → pool_for_seat R c q.showtime_id q.seat_id ≡ some i
          → SameLock c (extend_lock R e q ttl_ms i b).0
      unfolding extend_lock
      extend_lock-SameLock ttl_ms i b g p = elim (Key-discrete (lock_key q) (seat_lock s a)) [
        | yes same ↦
            let o : owner_at R q e.now_ms (b.node i) ≡ some (num u) =
              cc (same, held c q e.now_ms i holds p same, g.lock i e.now_ms) in
            rw (not-owned (e.delivery 1 i) i b o) (SameLock-trans g read)
        | no ne ↦
            if-SameLock _ c _ _
              (SameLock-trans g (
                SameLock-trans read
                  (run_at-SameLock _ i _ _ (pexpire-Keeps R s a u q other e ttl_ms _ ne))))
              (SameLock-trans g read)
      ]
        where
          read : SameLock b (run_at R (e.delivery 1 i) i (λ n. (n, owner_at R q e.now_ms n)) b).0
          read = run_at-SameLock _ i _ b (λ t. refl)

      pub acquire_at-SameLock :
          (ttl_ms i : ℕ)
          → pool_for_seat R c q.showtime_id q.seat_id ≡ some i
          → SameLock c (acquire_at R e q ttl_ms i c).0
      unfolding acquire_at
      acquire_at-SameLock ttl_ms i p =
          let g = first 0 _ i p (set_nx-Keeps R s a u q other e ttl_ms) in
          if-SameLock _ c _ _ g (extend_lock-SameLock ttl_ms i _ g p)
