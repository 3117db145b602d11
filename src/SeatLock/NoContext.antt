-- ===== src/SeatLock/NoContext.antt =====
-- The per-user context key ("Key 2") of packages/redis-conn/src/single_node_lock.rs under the calls that
-- take a user, and what `user_holds_lock` answers without it.
use bookit.Common.{
  ℕ, suc, ◌≡◌, refl, ◌∙◌, inl, inr, true, false, none, List, [], ◌∷◌, ℤ, pos, negsuc, arith,
  Bool-cases, Option-cases,
}
use bookit.Redis.Keys.{Key-discrete, seat_user_context, Member, num}
use bookit.Redis.Interface.{Redis}
use bookit.SeatLock.Cluster.{
  Delivery, answered, unanswered, dropped, Env, Node, Cluster, run_at, zrem_cluster,
}
use bookit.SeatLock.Route.{pool_for_seat}
use bookit.SeatLock.Scripts.{
  Request, lock_key, context_key, owner_at, delete_keys, release_expired_script, settle_script,
  force_book_script,
}
use bookit.SeatLock.Single.{
  at_seat, set_schedule_seat_bitmap_state_cluster, replicate_drop, set_nx, pexpire, extend_lock,
  acquire_at, acquire_lock, acquire_distributed_lock, metadata_at, metadata_from,
  update_seat_metadata_lua, release_expired_at, release_expired_lock_lua, settle_at, release_lock,
  book_seat_lua, force_book_at, force_book_seat_lua, exists_context, user_holds_lock, is_true,
}
use bookit.SeatLock.Owner.Safety.{
  Call, acquires, acquires_seat, updates, releases, releases_expired, books, force_books, step,
}
use bookit.SeatLock.Every.{Every, run_at-Every, on_all-Every, at_seat-Every, if-Every}

module _ (R : Redis) where
  -- No context key of any user for any seat is live, ever.
  pub record NoContext (n : Node R) : Type 0 where
    pub absent : (s a v : ℤ) (t : ℕ) → R.strings.get n.strings (seat_user_context s a v) t ≡ none

  delete_keys-NoContext :
      (q : Request) (n : Node R)
      → NoContext n
      → (s a v : ℤ) (t : ℕ)
      → R.strings.get (delete_keys R q n.strings) (seat_user_context s a v) t ≡ none
  delete_keys-NoContext q n h s a v t =
      elim (Key-discrete (context_key q) (seat_user_context s a v)) [
        | yes same ↦
            cc (
              same,
              R.strings.get-del_self (R.strings.del n.strings (lock_key q)) (context_key q) t,
            )
        | no ne ↦
            R.strings.get-del_ne _ _ _ t ne
            ∙ R.strings.get-del_ne _ (lock_key q) _ t (λ p. cc)
            ∙ h.absent s a v t
      ]

  settle_script-NoContext :
      (state : ℕ) (q : Request) (m : Member) (now : ℕ) (n : Node R)
      → NoContext n
      → NoContext (settle_script R state q m now n).0
  unfolding settle_script
  settle_script-NoContext state q m now n h = record {
    absent = λ s a v t. ground (arith, delete_keys-NoContext q n h s a v t, h.absent s a v t);
  }

  release_expired_script-NoContext :
      (q : Request) (m : Member) (now : ℕ) (n : Node R)
      → NoContext n
      → NoContext (release_expired_script R q m now n).0
  unfolding release_expired_script
  release_expired_script-NoContext q m now n h = record {
    absent = λ s a v t. ground (arith, delete_keys-NoContext q n h s a v t, h.absent s a v t);
  }

  force_book_script-NoContext :
      (q : Request) (m : Member) (now : ℕ) (n : Node R)
      → NoContext n
      → NoContext (force_book_script R q m now n).0
  unfolding force_book_script
  force_book_script-NoContext q m now n h = record {
    absent = λ s a v t. ground (arith, delete_keys-NoContext q n h s a v t, h.absent s a v t);
  }

  set_nx-NoContext :
      (e : Env) (q : Request) (ttl_ms : ℕ) (n : Node R)
      → NoContext n
      → NoContext (set_nx R e q ttl_ms n).0
  unfolding set_nx
  set_nx-NoContext e q ttl_ms n h = record {
    absent = λ s a v t. ground (
      arith,
      R.strings.get-set_px_ne n.strings (lock_key q) (seat_user_context s a v) (num q.user_id)
          e.now_ms ttl_ms t (λ p. cc),
      h.absent s a v t,
    );
  }

  pexpire-NoContext :
      (e : Env) (q : Request) (ttl_ms : ℕ) (n : Node R)
      → NoContext n
      → NoContext (pexpire R e q ttl_ms n).0
  unfolding pexpire
  pexpire-NoContext e q ttl_ms n h = record {
    absent = λ s a v t.
        R.strings.get-pexpire_ne n.strings (lock_key q) _ e.now_ms ttl_ms t (λ p. cc)
        ∙ h.absent s a v t;
  }

  module _ (e : Env) (c : Cluster R) (h : Every R NoContext c) where
    pub set_bitmap-Every :
        (command : ℕ) (x y : ℤ) (state : ℕ) (d : Cluster R)
        → Every R NoContext d
        → Every R NoContext (set_schedule_seat_bitmap_state_cluster R e command x y state d)
    unfolding set_schedule_seat_bitmap_state_cluster
    set_bitmap-Every command x (pos n) state d k =
        on_all-Every R NoContext _ _ d (λ n g. record { absent = g.absent }) k
    set_bitmap-Every command x (negsuc n) state d k = k

    replicate_drop-Every :
        (q : Request) (m : Member) (state : ℕ) (d : Cluster R)
        → Every R NoContext d
        → Every R NoContext (replicate_drop R e q m state d)
    unfolding replicate_drop zrem_cluster
    replicate_drop-Every q m state d k = set_bitmap-Every 4 _ _ state _ (
        on_all-Every R NoContext _ _ _ (λ n g. record { absent = g.absent })
          (on_all-Every R NoContext _ _ _ (λ n g. record { absent = g.absent })
            (on_all-Every R NoContext _ _ d (λ n g. record { absent = g.absent }) k)))

    settle_at-Every :
        (state : ℕ) (q : Request) (i : ℕ) → Every R NoContext (settle_at R e state q i c).0
    unfolding settle_at
    settle_at-Every state q i =
        let g =
          run_at-Every R NoContext (e.delivery 0 i) i _ c
            (settle_script-NoContext state q _ e.now_ms) h in
        if-Every R NoContext _ _ _ (replicate_drop-Every q _ state _ g) g

    release_expired_at-Every :
        (q : Request) (m : Member) (i : ℕ) → Every R NoContext (release_expired_at R e q m i c).0
    unfolding release_expired_at
    release_expired_at-Every q m i = replicate_drop-Every q m 0 _ (
        run_at-Every R NoContext (e.delivery 0 i) i _ c
          (release_expired_script-NoContext q m e.now_ms) h)

    force_book_at-Every :
        (q : Request) (m : Member) (i : ℕ) → Every R NoContext (force_book_at R e q m i c).0
    unfolding force_book_at
    force_book_at-Every q m i = replicate_drop-Every q m 2 _ (
        run_at-Every R NoContext (e.delivery 0 i) i _ c (force_book_script-NoContext q m e.now_ms)
          h)

    extend_lock-Every :
        (q : Request) (ttl_ms i : ℕ) (d : Cluster R)
        → Every R NoContext d
        → Every R NoContext (extend_lock R e q ttl_ms i d).0
    unfolding extend_lock
    extend_lock-Every q ttl_ms i d k =
        let read =
          run_at-Every R NoContext (e.delivery 1 i) i (λ n. (n, owner_at R q e.now_ms n)) d
            (λ n g. g) k in
        if-Every R NoContext _ (_, true) (_, false)
          (run_at-Every R NoContext (e.delivery 2 i) i (pexpire R e q ttl_ms) _
            (pexpire-NoContext e q ttl_ms) read)
          read

    acquire_at-Every :
        (q : Request) (ttl_ms i : ℕ) → Every R NoContext (acquire_at R e q ttl_ms i c).0
    unfolding acquire_at
    acquire_at-Every q ttl_ms i =
        let g =
          run_at-Every R NoContext (e.delivery 0 i) i (set_nx R e q ttl_ms) c
            (set_nx-NoContext e q ttl_ms) h in
        if-Every R NoContext (is_true (run_at R (e.delivery 0 i) i (set_nx R e q ttl_ms) c).1)
          (_, true) (extend_lock R e q ttl_ms i _) g (extend_lock-Every q ttl_ms i _ g)

    metadata_at-Every :
        (q : Request) (x : ℤ) (command i : ℕ)
        → Every R NoContext (metadata_at R e q x command i c).0
    unfolding metadata_at
    metadata_at-Every q x command i =
        run_at-Every R NoContext (e.delivery command i) i _ c (λ n k. record { absent = k.absent })
          h

    exists_context-false :
        (q : Request) (d : Delivery) (i : ℕ)
        → is_true (run_at R d i (exists_context R e q) c).1 ≡ false
    unfolding run_at exists_context
    exists_context-false q answered i =
        rw ((h.at i).absent q.showtime_id q.seat_id q.user_id e.now_ms, exists_context)
    exists_context-false q unanswered i = refl
    exists_context-false q dropped i = refl

    pub user_holds_lock-false : (q : Request) → user_holds_lock R e q c ≡ false
    unfolding user_holds_lock at_seat
    user_holds_lock-false q = elim (Option-cases (pool_for_seat R c q.showtime_id q.seat_id)) [
      | inl p ↦ rw (p, user_holds_lock, at_seat)
      | inr (i, p) ↦ elim (Bool-cases (e.connects i)) [
        | inl up ↦
            rw (p, user_holds_lock, at_seat) (rw up (exists_context-false q (e.delivery 0 i) i))
        | inr down ↦ rw (p, user_holds_lock, at_seat) (rw down)
      ]
    ]

  metadata_from-Every :
      (e : Env) (command : ℕ) (x y z : ℤ) (seats : List ℤ) (c : Cluster R)
      → Every R NoContext c
      → Every R NoContext (metadata_from R e command x y z seats c).0
  unfolding metadata_from
  metadata_from-Every e command x y z [] c h = h
  metadata_from-Every e command x y z (seat_id ∷ rest) c h =
      metadata_from-Every e (suc command) x y z rest _
        (at_seat-Every R NoContext e false _ _ c (λ i. metadata_at-Every e c h _ z command i) h)

  -- Every call of `Call` but `acquire_seat_lock_lua`.
  abbrev pub LeavesContext : Call → Type 0
  LeavesContext (acquires_seat q x) = ⊥
  LeavesContext _ = Unit

  pub step-Every :
      (e : Env) (call : Call) (c : Cluster R)
      → LeavesContext call
      → Every R NoContext c
      → Every R NoContext (step R e call c)
  unfolding step acquire_distributed_lock acquire_lock update_seat_metadata_lua release_lock
      release_expired_lock_lua book_seat_lua force_book_seat_lua
  step-Every e (acquires q x) c l h =
      at_seat-Every R NoContext e false _ q c (λ i. acquire_at-Every e c h q _ i) h
  step-Every e (acquires_seat q x) c l h = absurd l
  step-Every e (updates x seats y z) c l h = metadata_from-Every e 0 x y z seats c h
  step-Every e (releases q) c l h =
      at_seat-Every R NoContext e false _ q c (λ i. settle_at-Every e c h 0 q i) h
  step-Every e (releases_expired q m) c l h =
      at_seat-Every R NoContext e false _ q c (λ i. release_expired_at-Every e c h q m i) h
  step-Every e (books q) c l h =
      at_seat-Every R NoContext e false _ q c (λ i. settle_at-Every e c h 2 q i) h
  step-Every e (force_books q m) c l h =
      at_seat-Every R NoContext e tt _ q c (λ i. force_book_at-Every e c h q m i) h
