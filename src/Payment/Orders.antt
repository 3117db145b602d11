-- ===== src/Payment/Orders.antt =====
-- `cancel_order` of apps/http-server/src/api/user/payments.rs.
use bookit.Common.{
  ℕ, Bool, true, false, ◌&&◌, Option, none, some, ◌∷◌, ℤ, ◌==◌, ◌==ℤ◌, if◌then◌else◌,
}
use bookit.Payment.Tables.{
  Order, OrderStatus, completed, cancelling, cancelled, refunded, other_status, Event,
  cancellation_requested, Database, update_where, count_where, find_where, is_completed,
}
use bookit.Payment.Commit.{has_order_id}

-- The answers, and in parentheses the text of an error.
pub data CancelAnswer : Type 0 where
  -- "order not found", "order does not belong to this user", "only completed orders can be cancelled"
  order_not_found foreign_order not_completed : CancelAnswer
  -- "Cancellation is already in progress or completed."
  already_cancelling : CancelAnswer
  -- "Cancellation request submitted successfully."
  submitted : CancelAnswer
  -- "failed to enqueue cancellation"
  enqueue_failed : CancelAnswer
  -- "idempotency_key is required", "database unavailable"
  key_required no_database : CancelAnswer

abbrev pub open_order : ℕ → Order → Bool
open_order i o = has_order_id i o && is_completed o.status

abbrev pub set_cancelling : Order → Order
set_cancelling o = record o { status = cancelling }

-- The payload's order id, user, schedule, seats and amount; the payment id goes with them.
abbrev pub cancellation_event : ℤ → Order → Event
cancellation_event user_id o = record {
  aggregate_id = o.id;
  event_type = cancellation_requested;
  user_id = user_id;
  schedule_id = o.schedule_id;
  seat_ids = o.seat_ids;
  amount = o.total_amount;
}

-- The transaction: the event is written only by the statement that changed the order.
unfoldable pub enqueue_cancellation : ℤ → Order → Database → Database
enqueue_cancellation user_id o db =
    let updated = count_where (open_order o.id) db.orders in
    record db {
      orders = update_where (open_order o.id) set_cancelling db.orders;
      outbox_events =
          if updated == 1
          then cancellation_event user_id o ∷ db.outbox_events
          else db.outbox_events;
    }

abbrev pub submit : Bool → ℤ → Order → Database → Database × CancelAnswer
submit true user_id o db = (enqueue_cancellation user_id o db, submitted)
submit false user_id o db = (db, enqueue_failed)

unfoldable pub cancel_by_status :
    Bool → ℤ → Order → OrderStatus → Database → Database × CancelAnswer
cancel_by_status accepts user_id o cancelling db = (db, already_cancelling)
cancel_by_status accepts user_id o cancelled db = (db, already_cancelling)
cancel_by_status accepts user_id o refunded db = (db, already_cancelling)
cancel_by_status accepts user_id o other_status db = (db, not_completed)
cancel_by_status accepts user_id o completed db = submit accepts user_id o db

unfoldable pub cancel_found : Bool → ℤ → Option Order → Database → Database × CancelAnswer
cancel_found accepts user_id none db = (db, order_not_found)
cancel_found accepts user_id (some o) db =
    if o.user_id ==ℤ user_id
    then cancel_by_status accepts user_id o o.status db
    else (db, foreign_order)

-- The order that was read may be older than the tables that the transaction runs on: other requests
-- and the payment processor write in between.
unfoldable pub cancel_order :
    Bool → Bool → Bool → ℤ → Option Order → Database → Database × CancelAnswer
cancel_order blank_key connects accepts user_id order db =
    if blank_key
    then (db, key_required)
    else if connects
    then cancel_found accepts user_id order db
    else (db, no_database)

abbrev pub read_order : Database → ℕ → Option Order
read_order db i = find_where (has_order_id i) db.orders
