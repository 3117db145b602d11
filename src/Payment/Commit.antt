-- ===== src/Payment/Commit.antt =====
-- The transactions of apps/payment-processor/src/repository.rs. A transaction is done whole or not at
-- all: `accepts` says whether the database takes it, given that its rows break no constraint. The
-- constraints are those of packages/db/migrations: the keys of orders and of their payment requests
-- are unique, and an order's payment request exists.
use bookit.Common.{
  ℕ, Bool, ◌&&◌, not, Option, none, some, List, ◌∷◌, ℤ, ◌==◌, if◌then◌else◌, String,
}
use bookit.Payment.Tables.{
  Seat, available, booked, Order, completed, refunded, PaymentRow, succeeded, Ticket,
  ticket_cancelled, order_completed, ticket_was_cancelled, order_was_completed, order_was_cancelled,
  Database, update_where, find_where, is_found, among,
}

pub record CheckoutCommit : Type 0 where
  pub order_id : ℕ
  pub payment_request_id : ℕ
  pub user_id : ℤ
  pub schedule_id : ℤ
  pub seat_ids : List ℤ
  pub total_amount : ℕ
  pub razorpay_payment_id : Option String

pub record CancellationCommit : Type 0 where
  pub order_id : ℕ
  pub user_id : ℤ
  pub schedule_id : ℤ
  pub seat_ids : List ℤ
  pub amount : ℕ

abbrev pub has_request : ℕ → Order → Bool
has_request p o = o.payment_request_id == p

abbrev pub has_order_id : ℕ → Order → Bool
has_order_id i o = o.id == i

abbrev pub has_row_id : ℕ → PaymentRow → Bool
has_row_id p r = r.id == p

abbrev pub ticket_of : ℕ → Ticket → Bool
ticket_of i t = t.order_id == i

-- Without a connection, and on an error, the answer is false.
unfoldable pub order_exists : Bool → Database → ℕ → Bool
order_exists answers db payment_request_id =
    answers && is_found (find_where (has_request payment_request_id) db.orders)

abbrev pub new_order : CheckoutCommit → Order
new_order c = record {
  id = c.order_id;
  payment_request_id = c.payment_request_id;
  user_id = c.user_id;
  schedule_id = c.schedule_id;
  seat_ids = c.seat_ids;
  total_amount = c.total_amount;
  razorpay_payment_id = c.razorpay_payment_id;
  status = completed;
}

abbrev pub succeed : PaymentRow → PaymentRow
succeed r = record r { status = succeeded }

abbrev pub book_seat : Seat → Seat
book_seat s = record s { status = booked }

abbrev pub free_seat : Seat → Seat
free_seat s = record s { status = available }

abbrev pub refund_order : Order → Order
refund_order o = record o { status = refunded }

abbrev pub cancel_ticket : Ticket → Ticket
cancel_ticket t = record t { status = ticket_cancelled }

-- The five statements of a checkout.
unfoldable pub checked_out : Database → CheckoutCommit → Database
checked_out db c = record {
  schedule_seats = update_where (among c.seat_ids) book_seat db.schedule_seats;
  orders = new_order c ∷ db.orders;
  payment_requests = update_where (has_row_id c.payment_request_id) succeed db.payment_requests;
  tickets = db.tickets;
  user_audits =
      record { user_id = c.user_id; action = order_completed; order_id = c.order_id }
      ∷ db.user_audits;
  outbox_events =
      record {
        aggregate_id = c.order_id;
        event_type = order_was_completed;
        user_id = c.user_id;
        schedule_id = c.schedule_id;
        seat_ids = c.seat_ids;
        amount = c.total_amount;
      }
      ∷ db.outbox_events;
}

-- What the primary key, the unique index and the foreign key of `orders` ask of a new row.
unfoldable pub allows_order : Database → CheckoutCommit → Bool
allows_order db c =
    not (is_found (find_where (has_order_id c.order_id) db.orders))
    && (not (is_found (find_where (has_request c.payment_request_id) db.orders))
        && is_found (find_where (has_row_id c.payment_request_id) db.payment_requests))

unfoldable pub commit_checkout : Bool → Database → CheckoutCommit → Option Database
commit_checkout accepts db c =
    if accepts && allows_order db c then some (checked_out db c) else none

-- The five statements of a cancellation.
unfoldable pub cancelled_order : Database → CancellationCommit → Database
cancelled_order db c = record {
  schedule_seats = update_where (among c.seat_ids) free_seat db.schedule_seats;
  orders = update_where (has_order_id c.order_id) refund_order db.orders;
  payment_requests = db.payment_requests;
  tickets = update_where (ticket_of c.order_id) cancel_ticket db.tickets;
  user_audits =
      record { user_id = c.user_id; action = ticket_was_cancelled; order_id = c.order_id }
      ∷ db.user_audits;
  outbox_events =
      record {
        aggregate_id = c.order_id;
        event_type = order_was_cancelled;
        user_id = c.user_id;
        schedule_id = c.schedule_id;
        seat_ids = c.seat_ids;
        amount = c.amount;
      }
      ∷ db.outbox_events;
}

unfoldable pub commit_cancellation : Bool → Database → CancellationCommit → Option Database
commit_cancellation accepts db c = if accepts then some (cancelled_order db c) else none
