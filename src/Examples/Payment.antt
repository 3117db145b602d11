-- ===== src/Examples/Payment.antt =====
-- Payments: user 42 buys seat 12 of schedule 7 by payment request 5, as order 9.
use bookit.Common.{
  List, ℕ, ◌≡◌, ◌≢◌, ◌↔◌, refl, true, false, Option, none, some, [], ◌∷◌, ℤ, pos, arith,
}
use bookit.Redis.Keys.{Key, seat_lock, seat_user_context, Val, num}
use bookit.Redis.Reference.{live}
use bookit.SeatLock.Cluster.{Cluster, run_at, answered}
use bookit.SeatLock.Route.{pool_index, crc16, decimal}
use bookit.SeatLock.Single.{at_seat, get_lock_owner, user_holds_lock, exists_context}
use bookit.Payment.Tables.{Seat, locked, PaymentRow, pending, Database, count_where, find_where}
use bookit.Payment.Intent.{
  same_payment_intent, same_payment_intent_iff, occurrences, parse_seat_ids, SeatPayload, i32s_of,
  as_i32,
}
use bookit.Payment.Commit.{
  CheckoutCommit, CancellationCommit, commit_checkout, commit_cancellation, checked_out,
  cancelled_order, allows_order, order_exists,
}
use bookit.Payment.Checkouts.{Meets}
use bookit.Payment.Request.{PaymentRequest, Shop, request_payment}
use bookit.Payment.Orders.{cancel_order, read_order}
use bookit.Payment.Processor.{
  Payload, Surroundings, World, ack, process_message, checkout, checkout_seats, after_locks,
  after_checkout, lock_failure,
}
use bookit.Payment.Ledger.{IsLedger, Steps, done}
use bookit.Payment.Ledger.Runs.{Steps-IsLedger}
use bookit.Payment.Ledger.Handlers.{cancel_order-Steps, request_payment-Steps}
use bookit.Payment.Locks.{Locked, process_message-Locked}
use bookit.Payment.Redelivery.{process_message-redelivered, commit_cancellation-Rebooked, Rebooked}
use bookit.Examples.SeatLock.{R, empty, call_at, held, by_set}
use bookit.SeatLock.Context.{write_all}

same_payment_intent_iff_example :
    (same_payment_intent (pos 7) (pos 12 ∷ pos 3 ∷ []) (pos 7) (pos 3 ∷ pos 12 ∷ []) ≡ true) ↔ (
      (pos 7 ≡ pos 7)
      × ((v : ℤ) → occurrences v (pos 12 ∷ pos 3 ∷ []) ≡ occurrences v (pos 3 ∷ pos 12 ∷ [])))
same_payment_intent_iff_example =
    same_payment_intent_iff (pos 7) (pos 7) (pos 12 ∷ pos 3 ∷ []) (pos 3 ∷ pos 12 ∷ [])

abbrev seats_only : List (Option ℤ) → SeatPayload
seats_only seats = record { seat_ids = some seats; seat_id = none }

-- 2^32 + 12 comes back as 12.
wrapped : parse_seat_ids (seats_only (some (pos 4294967308) ∷ [])) ≡ pos 12 ∷ []
unfolding parse_seat_ids i32s_of as_i32
wrapped = refl

abbrev seat_12 : Seat
seat_12 = record { id = pos 12; schedule_id = pos 7; price = 25000; status = locked }

abbrev row_5 : PaymentRow
row_5 = record {
  id = 5;
  idempotency_key = "k";
  user_id = pos 42;
  schedule_id = pos 7;
  seat_ids = pos 12 ∷ [];
  status = pending;
}

abbrev no_rows : Database
no_rows = record {
  schedule_seats = seat_12 ∷ [];
  orders = [];
  payment_requests = [];
  tickets = [];
  user_audits = [];
  outbox_events = [];
}

abbrev pub requested : Database
requested = record no_rows { payment_requests = row_5 ∷ [] }

abbrev order_9 : CheckoutCommit
order_9 = record {
  order_id = 9;
  payment_request_id = 5;
  user_id = pos 42;
  schedule_id = pos 7;
  seat_ids = pos 12 ∷ [];
  total_amount = 2950000;
  razorpay_payment_id = none;
}

abbrev old_4 : CancellationCommit
old_4 = record {
  order_id = 4;
  user_id = pos 43;
  schedule_id = pos 7;
  seat_ids = pos 12 ∷ [];
  amount = 2950000;
}

no_rows-IsLedger : IsLedger no_rows
unfolding count_where
no_rows-IsLedger = record {
  one_order = λ i. omega arith;
  one_per_request = λ p. omega arith;
  one_row = λ p. omega arith;
  one_per_key = λ u k. omega arith;
  requested = λ p. refl;
  completed = λ i. refl;
  audited = λ i. refl;
  cancelled = λ i. omega arith;
  paid = tt;
}

-- What a request meets when all goes well, at 1000 seconds.
abbrev fair : Meets
fair = record {
  connects = true;
  selects = true;
  loads = true;
  accepts = true;
  selects_again = true;
  new_id = 5;
  lock_env = λ n. call_at 1001;
  redis_connects = true;
  delivery = λ n. answered;
  deletes = λ a. true;
}

abbrev request_k : PaymentRequest
request_k = record {
  schedule_id = pos 7;
  seat_ids = pos 12 ∷ [];
  idempotency_key = "k";
  razorpay_order_id = none;
  razorpay_payment_id = none;
  razorpay_signature = none;
}

abbrev shop : Shop
shop = record { database = no_rows; checkouts = λ s a. none }

abbrev asked : Database
asked = (request_payment R (λ a b. "") fair (pos 42) request_k held shop).0.database

asked-Steps : Steps no_rows asked
asked-Steps = request_payment-Steps R (λ a b. "") fair (pos 42) request_k held shop

Steps-IsLedger_example : IsLedger asked
Steps-IsLedger_example = Steps-IsLedger no_rows asked asked-Steps no_rows-IsLedger

cancel_order-Steps_example :
    Steps
      (checked_out requested order_9)
      (cancel_order false true true
        (pos 42)
        (read_order (checked_out requested order_9) 9)
        (checked_out requested order_9)).0
cancel_order-Steps_example =
    cancel_order-Steps false true true (pos 42) (read_order (checked_out requested order_9) 9)
      (checked_out requested order_9)

abbrev payload_5 : Payload
payload_5 = record {
  is_cancellation = false;
  order_id = none;
  payment_request_id = some 5;
  user_id = some (pos 42);
  schedule_id = some (pos 7);
  showtime_id = none;
  seats = seats_only (some (pos 12) ∷ []);
  amount = 2950000;
  razorpay_payment_id = none;
}

abbrev calm : Surroundings
calm = record {
  answers = true;
  accepts = true;
  updates = true;
  refunds = true;
  adjusts = true;
  broadcasts = true;
  deletes = λ a. true;
  new_id = 9;
  lock_env = λ n. call_at 1001;
  release_env = λ n. call_at 1001;
  bitmap_env = λ n. call_at 1001;
}

-- A server with both keys of every seat, for user 42.
abbrev both_keys : Key → Option (Val × Option ℕ)
both_keys (seat_lock s a) = some (num (pos 42), some 1300000)
both_keys (seat_user_context s a v) = some (num (pos 1), some 1300000)
both_keys _ = none

abbrev pub locked_cluster : Cluster R
locked_cluster = record {
  size = 1;
  node = λ i. record { strings = both_keys; zsets = λ k m. none; bits = λ k o. 0 };
}

abbrev world : World R
world = record {
  database = requested;
  cluster = locked_cluster;
  checkouts = λ s a. none;
  available = λ s. some (pos 100);
  rooms = [];
}

paid : (process_message R calm (some payload_5) world).1 ≡ ack
unfolding process_message checkout checkout_seats after_locks after_checkout lock_failure
    order_exists commit_checkout checked_out allows_order find_where parse_seat_ids i32s_of as_i32
    get_lock_owner user_holds_lock exists_context at_seat run_at pool_index crc16 decimal live
paid = refl

one_order : (process_message R calm (some payload_5) world).0.database.orders ≢ []
unfolding process_message checkout checkout_seats after_locks after_checkout lock_failure
    order_exists commit_checkout checked_out allows_order find_where parse_seat_ids i32s_of as_i32
    get_lock_owner user_holds_lock exists_context at_seat run_at pool_index crc16 decimal live
one_order = λ e. absurd (cc e)

abbrev paid_world : World R
paid_world = (process_message R calm (some payload_5) world).0

process_message-Locked_example : Locked R calm payload_5 world
process_message-Locked_example = process_message-Locked R calm payload_5 world refl one_order

process_message-redelivered_example :
    process_message R calm (some payload_5) paid_world ≡ (paid_world, ack)
process_message-redelivered_example =
    process_message-redelivered R calm calm payload_5 5 world paid_world refl refl paid
      (done paid_world.database) refl

-- The user has the lock by SET, as the gateway takes it.
abbrev set_world : World R
set_world = record world { cluster = write_all R by_set empty }

booked_12 : commit_checkout true requested order_9 ≡ some (checked_out requested order_9)
unfolding commit_checkout allows_order find_where
booked_12 = refl

freed_12 :
    commit_cancellation true (checked_out requested order_9) old_4
    ≡ some (cancelled_order (checked_out requested order_9) old_4)
unfolding commit_cancellation
freed_12 = refl

commit_cancellation-Rebooked_example :
    Rebooked order_9 old_4 (cancelled_order (checked_out requested order_9) old_4)
commit_cancellation-Rebooked_example =
    commit_cancellation-Rebooked requested (checked_out requested order_9)
      (cancelled_order (checked_out requested order_9) old_4) order_9 old_4 booked_12 freed_12
      (λ e. absurd (omega (arith, e)))
