-- ===== src/LockServer/Swept.antt =====
-- What a sweep leaves in the queue of a server.
use bookit.Common.{
  ℕ, suc, ◌≡◌, ◌≢◌, sym, subst, inl, inr, Bool, true, false, none, List, [], ◌∷◌, ℤ, pos, negsuc,
  Bool-cases, Option-cases, All, ◌<◌, arith,
}
use bookit.Redis.Keys.{processing_queue, user_zset, room_zset, Member, seat, seat_user, entry, raw}
use bookit.Redis.Interface.{Redis}
use bookit.SeatLock.Cluster.{executed, Env, Cluster, run_at, on_all, zrem_cluster}
use bookit.SeatLock.Route.{pool_for_seat, pool_index}
use bookit.SeatLock.Scripts.{Request, release_expired_script, force_book_script, owner_at, foreign}
use bookit.SeatLock.Single.{
  at_seat, replicate_drop, set_schedule_seat_bitmap_state_cluster, release_expired_at,
  release_expired_lock_lua, force_book_at, force_book_seat_lua,
}
use bookit.Payment.Tables.{Database}
use bookit.LockServer.Requests.{Server}
use bookit.LockServer.Sweep.{Counts, settle_due, settle_member, sweep}
use bookit.LockServer.Shrink.{
  zrem-gone, Gone, Below, Below-refl, Below-trans, Shrinks, run_at-Below, on_all-Below, on_all-Gone,
  zrem_cluster-Below,
}

module _ (R : Redis) where
  module _ (e : Env) where
    bitmap-Below :
        (command : ℕ) (s a : ℤ) (state : ℕ) (c : Cluster R)
        → Below R c (set_schedule_seat_bitmap_state_cluster R e command s a state c)
    unfolding set_schedule_seat_bitmap_state_cluster
    bitmap-Below command s (pos n) state c = on_all-Below R _ _ c (λ m x h. h)
    bitmap-Below command s (negsuc n) state c = Below-refl R c

    replicate_drop-Below :
        (q : Request) (m : Member) (state : ℕ) (c : Cluster R)
        → Below R c (replicate_drop R e q m state c)
    unfolding replicate_drop
    replicate_drop-Below q m state c = Below-trans R c _ _ (zrem_cluster-Below R _ _ _ c) (
        Below-trans R _ _ _ (zrem_cluster-Below R _ _ _ _)
          (Below-trans R _ _ _ (zrem_cluster-Below R _ _ _ _) (bitmap-Below 4 _ _ state _)))

    replicate_drop-Gone :
        (q : Request) (m : Member) (state : ℕ) (c : Cluster R) (j : ℕ)
        → j < c.size
        → executed (e.delivery 3 j) ≡ true
        → Gone R m ((replicate_drop R e q m state c).node j)
    unfolding replicate_drop zrem_cluster on_all
    replicate_drop-Gone q m state c j h x =
        let c1 =
          zrem_cluster R (e.delivery 1) (user_zset q.showtime_id q.user_id) (seat q.seat_id) c in
        let c2 =
          zrem_cluster R (e.delivery 2) (room_zset q.showtime_id) (seat_user q.seat_id q.user_id)
            c1 in
        (bitmap-Below 4 q.showtime_id q.seat_id state _).gone m j
          (on_all-Gone R (e.delivery 3) m c2 j h x)

    release_expired_script-Shrinks :
        (q : Request) (x : Member) → Shrinks R (λ n. (release_expired_script R q x e.now_ms n).0)
    unfolding release_expired_script
    release_expired_script-Shrinks q x m n h =
        elim (Bool-cases (foreign (owner_at R q e.now_ms n) q.user_id)) [
          | inl k ↦ rw k (zrem-gone R n.zsets processing_queue m x h)
          | inr k ↦ rw k (zrem-gone R _ _ m _ (zrem-gone R _ _ m _ (zrem-gone R n.zsets _ m _ h)))
        ]

    force_book_script-Shrinks :
        (q : Request) (x : Member) → Shrinks R (λ n. (force_book_script R q x e.now_ms n).0)
    unfolding force_book_script
    force_book_script-Shrinks q x m n h =
        zrem-gone R _ _ m _ (zrem-gone R _ _ m _ (zrem-gone R n.zsets _ m _ h))

    release_expired_at-Below :
        (q : Request) (m : Member) (i : ℕ) (c : Cluster R)
        → Below R c (release_expired_at R e q m i c).0
    unfolding release_expired_at
    release_expired_at-Below q m i c =
        Below-trans R c _ _ (run_at-Below R _ i _ c (release_expired_script-Shrinks q m))
          (replicate_drop-Below q m 0 _)

    force_book_at-Below :
        (q : Request) (m : Member) (i : ℕ) (c : Cluster R) → Below R c (force_book_at R e q m i c).0
    unfolding force_book_at
    force_book_at-Below q m i c =
        Below-trans R c _ _ (run_at-Below R _ i _ c (force_book_script-Shrinks q m))
          (replicate_drop-Below q m 2 _)

    at_seat-Below :
        {A : Type 0} (refused : A) (f : ℕ → Cluster R → Cluster R × A) (q : Request) (c : Cluster R)
        → ((i : ℕ) → Below R c (f i c).0)
        → Below R c (at_seat R e refused f q c).0
    unfolding at_seat
    at_seat-Below refused f q c k =
        elim (Option-cases (pool_for_seat R c q.showtime_id q.seat_id)) [
          | inl p ↦ rw (p, at_seat) (Below-refl R c)
          | inr (i, p) ↦ elim (Bool-cases (e.connects i)) [
            | inl up ↦ rw (p, at_seat) (rw up (k i))
            | inr down ↦ rw (p, at_seat) (rw down (Below-refl R c))
          ]
        ]

    pool-some : (c : Cluster R) (s a : ℤ) (j : ℕ) → j < c.size → pool_for_seat R c s a ≢ none
    unfolding pool_index
    pool-some c s a j h p = ground (arith, h, p)

    at_seat-Gone :
        {A : Type 0} (refused : A) (f : ℕ → Cluster R → Cluster R × A) (q : Request) (c : Cluster R)
        (m : Member) (j : ℕ)
        → j < c.size
        → ((i : ℕ) → e.connects i ≡ true)
        → ((i : ℕ) → Gone R m ((f i c).0.node j))
        → Gone R m ((at_seat R e refused f q c).0.node j)
    unfolding at_seat
    at_seat-Gone refused f q c m j h up k =
        elim (Option-cases (pool_for_seat R c q.showtime_id q.seat_id)) [
          | inl p ↦ absurd (pool-some c q.showtime_id q.seat_id j h p)
          | inr (i, p) ↦ rw (p, at_seat) (rw (up i) (k i))
        ]

    settle_due-Below :
        (through : ℕ → Bool) (n : ℕ) (booked : Bool) (a s v : ℤ) (w : Server R)
        → Below R w.cluster (settle_due R e through n booked a s v w).cluster
    unfolding settle_due force_book_seat_lua release_expired_lock_lua
    settle_due-Below through n true a s v w =
        at_seat-Below tt _ _ w.cluster (λ i. force_book_at-Below _ _ i w.cluster)
    settle_due-Below through n false a s v w =
        at_seat-Below false _ _ w.cluster (λ i. release_expired_at-Below _ _ i w.cluster)

    settle_member-Below :
        (x : Counts) (through : ℕ → Bool) (n : ℕ) (db : Database) (m : Member) (w : Server R)
        → Below R w.cluster (settle_member R e x through n db m w).cluster
    unfolding settle_member
    settle_member-Below x through n db (entry a s v) w = settle_due-Below through n _ a s v w
    settle_member-Below x through n db (seat a) w = zrem_cluster-Below R _ _ _ w.cluster
    settle_member-Below x through n db (seat_user a v) w = zrem_cluster-Below R _ _ _ w.cluster
    settle_member-Below x through n db (raw t) w = zrem_cluster-Below R _ _ _ w.cluster

    module _ (j : ℕ) (up : (i : ℕ) → e.connects i ≡ true)
        (reached : (command : ℕ) → executed (e.delivery command j) ≡ true) where
      settle_due-Gone :
          (through : ℕ → Bool) (n : ℕ) (booked : Bool) (a s v : ℤ) (w : Server R)
          → j < w.cluster.size
          → Gone R (entry a s v) ((settle_due R e through n booked a s v w).cluster.node j)
      unfolding settle_due force_book_seat_lua release_expired_lock_lua force_book_at
          release_expired_at run_at
      settle_due-Gone through n true a s v w h =
          at_seat-Gone tt _ _ w.cluster (entry a s v) j h up
            (λ i. replicate_drop-Gone _ _ 2 _ j h (reached 3))
      settle_due-Gone through n false a s v w h =
          at_seat-Gone false _ _ w.cluster (entry a s v) j h up
            (λ i. replicate_drop-Gone _ _ 0 _ j h (reached 3))

      settle_member-Gone :
          (x : Counts) (through : ℕ → Bool) (n : ℕ) (db : Database) (m : Member) (w : Server R)
          → j < w.cluster.size
          → Gone R m ((settle_member R e x through n db m w).cluster.node j)
      unfolding settle_member
      settle_member-Gone x through n db (entry a s v) w h = settle_due-Gone through n _ a s v w h
      settle_member-Gone x through n db (seat a) w h = on_all-Gone R _ _ w.cluster j h (reached 0)
      settle_member-Gone x through n db (seat_user a v) w h =
          on_all-Gone R _ _ w.cluster j h (reached 0)
      settle_member-Gone x through n db (raw t) w h = on_all-Gone R _ _ w.cluster j h (reached 0)

  sweep-Below :
      (envs : ℕ → Env) (answers : ℕ → Counts) (through : ℕ → Bool) (n : ℕ) (db : Database)
      (due : List Member) (w : Server R)
      → Below R w.cluster (sweep R envs answers through n db due w).cluster
  unfolding sweep
  sweep-Below envs answers through n db [] w = Below-refl R w.cluster
  sweep-Below envs answers through n db (m ∷ rest) w =
      Below-trans R _ _ _ (settle_member-Below (envs n) (answers n) through n db m w)
        (sweep-Below envs answers through (suc n) db rest _)

  -- A sweep gets on: where the pools give connections and the removals reach a server, each member that
  -- was due, be it settled as booked, as released or thrown away, is out of that server's queue after
  -- the sweep.
  pub sweep_removes :
      (envs : ℕ → Env) (answers : ℕ → Counts) (through : ℕ → Bool) (n : ℕ) (db : Database)
      (due : List Member) (w : Server R) (j : ℕ)
      → j < w.cluster.size
      → ((k i : ℕ) → (envs k).connects i ≡ true)
      → ((k command : ℕ) → executed ((envs k).delivery command j) ≡ true)
      → All
          (λ m.
            R.zsets.score
              ((sweep R envs answers through n db due w).cluster.node j).zsets
              processing_queue
              m
            ≡ none)
          due
  unfolding sweep
  sweep_removes envs answers through n db [] w j h up reached = tt
  sweep_removes envs answers through n db (m ∷ rest) w j h up reached =
      let w1 = settle_member R (envs n) (answers n) through n db m w in
      let first = settle_member-Below (envs n) (answers n) through n db m w in
      (
        (sweep-Below envs answers through (suc n) db rest w1).gone m j
            (settle_member-Gone (envs n) j (up n) (reached n) (answers n) through n db m w h),
        sweep_removes envs answers through (suc n) db rest w1 j
            (subst (λ k. j < k) (sym first.same) h) up reached,
      )
