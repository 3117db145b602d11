-- ===== src/Examples/SeatLock.antt =====
-- The seat lock (packages/redis-conn/src/single_node_lock.rs) on one empty server, for seat 12 of
-- schedule 7.
use bookit.Common.{
  ℕ, ◌≡◌, ◌≢◌, refl, true, false, none, some, List, [], ◌∷◌, ℤ, pos, All, arith, ◌*◌, ◌==◌,
  if◌then◌else◌,
}
use bookit.Redis.Keys.{seat_lock, entry, processing_queue}
use bookit.Redis.Interface.{Redis}
use bookit.Redis.Reference.{reference, live}
use bookit.SeatLock.Cluster.{
  answered, unanswered, dropped, Env, Cluster, run_at, on_all, zrem_cluster,
}
use bookit.SeatLock.Route.{pool_for_seat, pool_index, crc16, decimal}
use bookit.SeatLock.Scripts.{Request, acquire_script, settle_script}
use bookit.SeatLock.Single.{
  at_seat, acquire_seat_at, acquire_seat_lock_lua, acquire_distributed_lock, release_lock,
  book_seat_lua, settle_at, replicate_drop, set_schedule_seat_bitmap_state_cluster,
}
use bookit.SeatLock.Owner.Safety.{Call, acquires, releases, force_books, run, Owns, Other, run-Owns}
use bookit.SeatLock.Owner.Acquire.{acquire_seat_lock_lua-Owns, calls_refused, acquire_exclusive}
use bookit.SeatLock.Settle.{request, SettledAt, book_seat_lua-Settled, release_lock-Settled}
use bookit.SeatLock.Every.{Every}
use bookit.SeatLock.NoContext.{NoContext}
use bookit.SeatLock.Context.{Writing, calls, adds, Leaves}

abbrev pub R : Redis
R = reference

abbrev pub empty : Cluster R
empty = record {
  size = 1;
  node = λ i. record { strings = λ k. none; zsets = λ k m. none; bits = λ k o. 0 };
}

-- A call at a number of seconds.
abbrev pub call_at : ℕ → Env
call_at t = record {
  connects = λ i. true;
  delivery = λ command i. answered;
  now = t;
  now_ms = t * 1000;
}

-- The answer of the first command is lost, and so are all the other commands.
abbrev lossy_at : ℕ → Env
lossy_at t = record (call_at t) {
  delivery = λ command i. if command == 0 then unanswered else dropped;
}

abbrev seat_for : ℤ → Request
seat_for user_id = record { showtime_id = pos 7; seat_id = pos 12; user_id = user_id }

pool_test : pool_for_seat R empty (pos 7) (pos 12) ≡ some 0
unfolding pool_index crc16 decimal
pool_test = refl

acquired : (acquire_seat_lock_lua R (call_at 1000) (seat_for (pos 42)) (pos 300) empty).1 ≡ true
unfolding acquire_seat_lock_lua at_seat acquire_seat_at acquire_script run_at pool_index crc16
    decimal live
acquired = refl

abbrev pub held : Cluster R
held = (acquire_seat_lock_lua R (call_at 1000) (seat_for (pos 42)) (pos 300) empty).0

-- User 43 tries for the seat, is lost on the way to releasing it, and books it by force.
abbrev others : List (Env × Call)
others =
    (call_at 1001, acquires (seat_for (pos 43)) (pos 300))
    ∷ (lossy_at 1002, releases (seat_for (pos 43)))
    ∷ (call_at 1003, force_books (seat_for (pos 43)) (entry (pos 12) (pos 7) (pos 43)))
    ∷ []

others-Other : All (Other R (pos 7) (pos 12) (pos 42) 1000000 1300000) others
others-Other =
    let ne : pos 43 ≢ pos 42 = λ p. ground arith in
    (
      (ne, omega arith, omega arith),
      ((ne, omega arith, omega arith), ((ne, omega arith, omega arith), tt)),
    )

held_by_42 : Owns R (pos 7) (pos 12) (pos 42) 1000000 1300000 held
held_by_42 =
    acquire_seat_lock_lua-Owns R (call_at 1000) (seat_for (pos 42)) (pos 300) empty (omega arith)
      (omega arith) acquired

run-Owns_example : Owns R (pos 7) (pos 12) (pos 42) 1000000 1300000 (run R others held)
run-Owns_example =
    run-Owns R (pos 7) (pos 12) (pos 42) 1000000 1300000 others held held_by_42 others-Other

calls_refused_example :
    ((acquire_seat_lock_lua R (call_at 1100) (seat_for (pos 43)) (pos 300) held).1 ≡ false)
    × ((acquire_distributed_lock R (call_at 1100) (seat_for (pos 43)) (pos 300) held).1 ≡ false)
    × ((release_lock R (call_at 1100) (seat_for (pos 43)) held).1 ≡ false)
    × ((book_seat_lua R (call_at 1100) (seat_for (pos 43)) held).1 ≡ false)
calls_refused_example =
    calls_refused R (call_at 1100) (pos 42) (seat_for (pos 43)) (λ p. ground arith) held
      (λ i p. held_by_42 i p 1100000 (omega arith) (omega arith)) (pos 300)

acquire_exclusive_example :
    let d = run R others held in
    ((acquire_seat_lock_lua R (call_at 1299) (seat_for (pos 44)) (pos 60) d).1 ≡ false)
    × ((acquire_distributed_lock R (call_at 1299) (seat_for (pos 44)) (pos 60) d).1 ≡ false)
    × ((release_lock R (call_at 1299) (seat_for (pos 44)) d).1 ≡ false)
    × ((book_seat_lua R (call_at 1299) (seat_for (pos 44)) d).1 ≡ false)
acquire_exclusive_example =
    acquire_exclusive R (call_at 1000) (seat_for (pos 42)) (pos 300) empty others (call_at 1299)
      (pos 44) (pos 60) (omega arith) (omega arith) acquired others-Other (λ p. ground arith)
      (omega arith) (omega arith)

booked : (book_seat_lua R (call_at 1000) (request R (pos 7) 12 (pos 42)) empty).1 ≡ true
unfolding book_seat_lua at_seat settle_at settle_script run_at pool_index crc16 decimal live
booked = refl

released : (release_lock R (call_at 1000) (request R (pos 7) 12 (pos 42)) empty).1 ≡ true
unfolding release_lock at_seat settle_at settle_script run_at pool_index crc16 decimal live
released = refl

abbrev sold : Cluster R
sold = (book_seat_lua R (call_at 1000) (request R (pos 7) 12 (pos 42)) empty).0

sold_pool : pool_for_seat R sold (pos 7) (pos 12) ≡ some 0
unfolding book_seat_lua at_seat settle_at settle_script run_at pool_index crc16 decimal live
    replicate_drop set_schedule_seat_bitmap_state_cluster on_all zrem_cluster
sold_pool = refl

book_seat_lua-Settled_example : SettledAt R (pos 7) 12 (pos 42) 2 sold
book_seat_lua-Settled_example =
    book_seat_lua-Settled R (pos 7) 12 (pos 42) (call_at 1000) empty (omega arith) booked

release_lock-Settled_example :
    SettledAt R
      (pos 7)
      12
      (pos 42)
      0
      (release_lock R (call_at 1000) (request R (pos 7) 12 (pos 42)) empty).0
release_lock-Settled_example =
    release_lock-Settled R (pos 7) 12 (pos 42) (call_at 1000) empty (omega arith) released

free : R.strings.get (empty.node 0).strings (seat_lock (pos 7) (pos 12)) 1000000 ≡ none
unfolding live
free = refl

-- The user acquires by SET, and the expiry worker puts an entry back into the queue.
abbrev pub by_set : List (Env × Writing R)
by_set =
    (call_at 1000, calls (acquires (seat_for (pos 42)) (pos 300)))
    ∷ (call_at 1000, adds processing_queue (entry (pos 12) (pos 7) (pos 42)) (pos 1300))
    ∷ []

pub by_set-Leaves : All (Leaves R) by_set
by_set-Leaves = (tt, ((λ s a v p. cc p), tt))

pub empty-NoContext : Every R (NoContext R) empty
unfolding live
empty-NoContext = record { at = λ i. record { absent = λ s a v t. refl } }
