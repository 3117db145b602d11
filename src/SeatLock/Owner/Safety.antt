-- ===== src/SeatLock/Owner/Safety.antt =====
-- Any sequence of calls of other users, over any deliveries, leaves a held lock alone
-- (the trait `SeatLock` as `SingleNodeLock` implements it, packages/redis-conn/src).
use bookit.Common.{ℕ, suc, ◌≤◌, ◌<◌, ◌≡◌, ◌≢◌, ◌∙◌, false, some, List, [], ◌∷◌, ℤ, All}
use bookit.Redis.Keys.{seat_lock, num, Member}
use bookit.Redis.Interface.{Redis}
use bookit.SeatLock.Cluster.{Env, Cluster}
use bookit.SeatLock.Route.{pool_for_seat}
use bookit.SeatLock.Scripts.{Request}
use bookit.SeatLock.Single.{
  acquire_lock, acquire_distributed_lock, acquire_seat_lock_lua, metadata_from,
  update_seat_metadata_lua, release_expired_lock_lua, release_lock, book_seat_lua,
  force_book_seat_lua,
}
use bookit.SeatLock.Owner.Calls.{
  SameLock, SameLock-refl, SameLock-trans, HoldsAt, HoldsAt-SameLock, at_seat-SameLock,
  settle_at-SameLock, release_expired_at-SameLock, force_book_at-SameLock, acquire_seat_at-SameLock,
  metadata_at-SameLock, acquire_at-SameLock,
}

-- The writing calls of the trait that take a user, with their arguments; those that take a key are in
-- SeatLock/Context.antt.
pub data Call : Type 0 where
  acquires : Request → ℤ → Call
  acquires_seat : Request → ℤ → Call
  updates : ℤ → List ℤ → ℤ → ℤ → Call
  releases : Request → Call
  releases_expired : Request → Member → Call
  books : Request → Call
  force_books : Request → Member → Call

abbrev pub caller : Call → ℤ
caller (acquires q x) = q.user_id
caller (acquires_seat q x) = q.user_id
caller (updates showtime_id seat_ids user_id x) = user_id
caller (releases q) = q.user_id
caller (releases_expired q m) = q.user_id
caller (books q) = q.user_id
caller (force_books q m) = q.user_id

module _ (R : Redis) where
  unfoldable pub step : Env → Call → Cluster R → Cluster R
  step e (acquires q x) c = (acquire_distributed_lock R e q x c).0
  step e (acquires_seat q x) c = (acquire_seat_lock_lua R e q x c).0
  step e (updates showtime_id seat_ids user_id x) c =
      (update_seat_metadata_lua R e showtime_id seat_ids user_id x c).0
  step e (releases q) c = (release_lock R e q c).0
  step e (releases_expired q m) c = (release_expired_lock_lua R e q m c).0
  step e (books q) c = (book_seat_lua R e q c).0
  step e (force_books q m) c = force_book_seat_lua R e q m c

  unfoldable pub run : List (Env × Call) → Cluster R → Cluster R
  run [] c = c
  run ((e, call) ∷ rest) c = run rest (step e call c)

module _ (R : Redis) (s a u : ℤ) where
  -- Over this window of time user `u` owns the seat, on the seat's own server.
  abbrev pub Owns : ℕ → ℕ → Cluster R → Type 0
  Owns since until c =
      (i : ℕ)
      → pool_for_seat R c s a ≡ some i
      → (t : ℕ) → since ≤ t
      → t < until
      → R.strings.get (c.node i).strings (seat_lock s a) t ≡ some (num u)

  Owns-SameLock :
      (since until : ℕ) (c d : Cluster R)
      → SameLock R s a u c d
      → Owns since until c
      → Owns since until d
  Owns-SameLock since until c d g o i p t h k = g.lock i t ∙ o i (cc (p, g.size)) t h k

  metadata_from-SameLock :
      (e : Env) (command : ℕ) (x y z : ℤ) (seats : List ℤ) (c : Cluster R)
      → y ≢ u
      → HoldsAt R s a u c e.now_ms
      → SameLock R s a u c (metadata_from R e command x y z seats c).0
  unfolding metadata_from
  metadata_from-SameLock e command x y z [] c other h = SameLock-refl R s a u c
  metadata_from-SameLock e command x y z (seat_id ∷ rest) c other h =
      let q : Request = record { showtime_id = x; seat_id = seat_id; user_id = y } in
      let g =
        at_seat-SameLock R s a u e q false _ c
          (λ i p. metadata_at-SameLock R s a u e q other c h z command i p) in
      SameLock-trans R s a u g (
        metadata_from-SameLock e (suc command) x y z rest _ other
          (HoldsAt-SameLock R s a u e.now_ms g h))

  step-SameLock :
      (e : Env) (call : Call) (c : Cluster R)
      → caller call ≢ u
      → HoldsAt R s a u c e.now_ms
      → SameLock R s a u c (step R e call c)
  unfolding step acquire_distributed_lock acquire_lock acquire_seat_lock_lua
      update_seat_metadata_lua release_lock release_expired_lock_lua book_seat_lua
      force_book_seat_lua
  step-SameLock e (acquires q x) c other h =
      at_seat-SameLock R s a u e q false _ c
        (λ i p. acquire_at-SameLock R s a u e q other c h _ i p)
  step-SameLock e (acquires_seat q x) c other h =
      at_seat-SameLock R s a u e q false _ c
        (λ i p. acquire_seat_at-SameLock R s a u e q other c h x i p)
  step-SameLock e (updates x seats y z) c other h = metadata_from-SameLock e 0 x y z seats c other h
  step-SameLock e (releases q) c other h =
      at_seat-SameLock R s a u e q false _ c (λ i p. settle_at-SameLock R s a u e q other c h 0 i p)
  step-SameLock e (releases_expired q m) c other h =
      at_seat-SameLock R s a u e q false _ c
        (λ i p. release_expired_at-SameLock R s a u e q other c h m i p)
  step-SameLock e (books q) c other h =
      at_seat-SameLock R s a u e q false _ c (λ i p. settle_at-SameLock R s a u e q other c h 2 i p)
  step-SameLock e (force_books q m) c other h =
      at_seat-SameLock R s a u e q tt _ c
        (λ i p. force_book_at-SameLock R s a u e q other c h m i p)

  -- A call of another user that reaches the servers within the window.
  abbrev pub Other : ℕ → ℕ → Env × Call → Type 0
  Other since until (e, call) = (caller call ≢ u) × (since ≤ e.now_ms) × (e.now_ms < until)

  -- Over a window in which a user owns a seat, any sequence of calls of other users (acquisitions,
  -- metadata updates, releases, expiries, bookings and forced bookings, of any seats) that reach the
  -- servers within that window leaves that user the owner over all of it, whichever commands or
  -- answers are lost and whichever connections are refused.
  pub run-Owns :
      (since until : ℕ) (calls : List (Env × Call)) (c : Cluster R)
      → Owns since until c
      → All (Other since until) calls
      → Owns since until (run R calls c)
  unfolding run
  run-Owns since until [] c o h = o
  run-Owns since until ((e, call) ∷ rest) c o h =
      run-Owns since until rest (step R e call c)
        (Owns-SameLock since until c _
          (step-SameLock e call c h.0.0 (λ i p. o i p e.now_ms h.0.1 h.0.2)) o)
        h.1
