-- ===== src/Examples/LockServer.antt =====
-- The lock server: two instances, and the lock of user 42 on seat 12 of schedule 7 that has run out.
use bookit.Common.{
  ℕ, ◌≡◌, ◌≢◌, refl, true, false, none, ◌+◌, List, [], ◌∷◌, pos, ◌⊎◌, All, arith, String,
  same_text_iff,
}
use bookit.Redis.Keys.{processing_queue, Member, entry, raw}
use bookit.SeatLock.Cluster.{answered}
use bookit.LockServer.Requests.{SeatLockMessage, Server, process_lock_request}
use bookit.LockServer.Election.{
  Attempt, Command, sets, prolongs, leader_ttl_ms, acquire_updater_leader_lock, create_leader,
  keep_leader, commands, first,
}
use bookit.LockServer.Leader.{since, InTime, last_ms, During, leader_exclusive}
use bookit.LockServer.Sweep.{Counts, sweep}
use bookit.LockServer.Swept.{sweep_removes}
use bookit.LockServer.Answer.{Succeeds, Fails, process_lock_request_answer}
use bookit.Examples.SeatLock.{R, empty, call_at}
use bookit.Examples.Payment.{requested}

-- An attempt whose commands run within two milliseconds, with nothing in between.
abbrev attempt : ℕ → Attempt
attempt t = record {
  connects = true;
  on_set = answered;
  set_ms = t;
  before_get = [];
  on_get = answered;
  get_ms = t + 1;
  before_pexpire = [];
  on_pexpire = answered;
  pexpire_ms = t + 2;
}

leads : (acquire_updater_leader_lock R.strings (attempt 5000) "a" (empty.node 0).strings).1 ≡ true
unfolding acquire_updater_leader_lock create_leader keep_leader bookit.Redis.Reference.live
leads = refl

created : (first R.strings (attempt 5000) "a" (empty.node 0).strings).1 ≡ true
unfolding create_leader bookit.Redis.Reference.live
created = refl

b_a : (◌≢◌ {A = String} "b" "a")
b_a e = let h : false ≡ true = (same_text_iff "b" "a").1 e in absurd (cc h)

-- Another instance tries in between, and the leader prolongs its key.
abbrev between : List Command
between = sets answered "c" 5500 ∷ prolongs answered 6000 ∷ []

between-InTime :
    InTime R.strings
      (since R.strings (attempt 5000) "a" (empty.node 0).strings)
      (since R.strings (attempt 5000) "a" (empty.node 0).strings + leader_ttl_ms)
      between
unfolding InTime
between-InTime = rw created (omega arith, (omega arith, (omega arith, (omega arith, tt))))

attempt-During :
    During R.strings
      (last_ms R.strings (since R.strings (attempt 5000) "a" (empty.node 0).strings) between)
      (since R.strings (attempt 5000) "a" (empty.node 0).strings + leader_ttl_ms)
      (attempt 6900)
unfolding InTime last_ms
attempt-During = rw created (omega arith, (omega arith, (tt, (omega arith, omega arith))))

leader_exclusive_example :
    (acquire_updater_leader_lock R.strings (attempt 6900) "b" (
      commands R.strings between
        (acquire_updater_leader_lock R.strings (attempt 5000) "a" (empty.node 0).strings).0)).1
    ≡ false
leader_exclusive_example =
    leader_exclusive R.strings (attempt 5000) "a" (empty.node 0).strings between (attempt 6900) "b"
      leads (λ e. absurd (cc (created, e))) b_a between-InTime attempt-During

abbrev due : List Member
due = entry (pos 12) (pos 7) (pos 42) ∷ raw "x" ∷ []

abbrev server : Server R
server = record { cluster = empty; events = [] }

abbrev counted : Counts
counted = record { connects = true; seats = true; tickets = true }

sweep_removes_example :
    All
      (λ m.
        R.zsets.score
          ((sweep R
              (λ n. call_at 2000)
              (λ n. counted)
              (λ n. true)
              0
              requested
              due
              server).cluster.node
            0).zsets
          processing_queue
          m
        ≡ none)
      due
sweep_removes_example =
    sweep_removes R (λ n. call_at 2000) (λ n. counted) (λ n. true) 0 requested due server 0
      (omega arith) (λ k i. refl) (λ k command. refl)

abbrev lock_message : SeatLockMessage
lock_message = record {
  action = "lock";
  user_id = pos 42;
  showtime_id = pos 7;
  seat_ids = pos 12 ∷ [];
}

abbrev reached : Server R
reached = process_lock_request R (λ n. call_at 2000) (λ n. true) lock_message server

process_lock_request_answer_example :
    ((k : ℕ) × Succeeds R (λ n. call_at 2000) lock_message k server reached)
    ⊎ Fails R (λ n. call_at 2000) lock_message server reached
process_lock_request_answer_example =
    process_lock_request_answer R (λ n. call_at 2000) lock_message (λ n. true) server refl
      (λ k. refl)
