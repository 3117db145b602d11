-- ===== src/Payment/Ledger.antt =====
-- The agreement of the tables of payments, and the transactions that write them.
use bookit.Common.{
  ℕ, ◌+◌, ◌≤◌, ◌≡◌, refl, sym, ap, ◌∙◌, inl, inr, Bool, true, false, ◌&&◌, not, Option, none, some,
  List, [], ◌∷◌, ◌==◌, ==_iff, ℤ, ◌==ℤ◌, if◌then◌else◌, String, same_text, same_text_iff, ==ℤ_iff,
  subst, arith, Bool-cases, All, All-map,
}
use bookit.Payment.Tables.{
  Order, PaymentRow, pending, Audit, Action, order_completed, ticket_was_cancelled, ticket_created,
  booking_email_sent, Event, EventType, payment_requested, cancellation_requested,
  order_was_completed, order_was_cancelled, Database, update_where, count_where, find_where,
  is_found, is_completed, is_succeeded,
}
use bookit.Payment.Commit.{
  CheckoutCommit, CancellationCommit, has_request, has_order_id, has_row_id, checked_out,
  allows_order, commit_checkout, cancelled_order, commit_cancellation, refund_order, succeed,
}
use bookit.Payment.Request.{of_key, existing_row, insert_request, request_event}
use bookit.Payment.Orders.{open_order, set_cancelling, enqueue_cancellation}
use bookit.Payment.Processor.{open_row, fail_row, fail_payment}
use bookit.Payment.Counts.{
  tally, count_where-find_where, count_where-find_where_some, count_where-update_where,
  count_where-update_where_le, count_where-update_where_ge, count_where-update_where_self,
  count_where-update_where_into, count_where-if, All-update_where,
}
pub mod Rows
mod Checkout
mod Cancellation
pub mod Insert
pub mod Runs
pub mod Handlers

abbrev type_code : EventType → ℕ
type_code payment_requested = 0
type_code cancellation_requested = 1
type_code order_was_completed = 2
type_code order_was_cancelled = 3

abbrev pub is_event : EventType → ℕ → Event → Bool
is_event t i e = (type_code e.event_type == type_code t) && (e.aggregate_id == i)

abbrev action_code : Action → ℕ
action_code order_completed = 0
action_code ticket_was_cancelled = 1
action_code ticket_created = 2
action_code booking_email_sent = 3

abbrev pub is_audit : Action → ℕ → Audit → Bool
is_audit t i a = (action_code a.action == action_code t) && (a.order_id == i)

abbrev pub paid_row : ℕ → PaymentRow → Bool
paid_row p r = has_row_id p r && is_succeeded r.status

abbrev pub IsPaid : List PaymentRow → Order → Type 0
IsPaid rows o = 1 ≤ count_where (paid_row o.payment_request_id) rows

pub record IsLedger (db : Database) : Type 0 where
  pub one_order : (i : ℕ) → count_where (has_order_id i) db.orders ≤ 1
  pub one_per_request : (p : ℕ) → count_where (has_request p) db.orders ≤ 1
  pub one_row : (p : ℕ) → count_where (has_row_id p) db.payment_requests ≤ 1
  pub one_per_key :
      (user : ℤ) (key : String) → count_where (of_key user key) db.payment_requests ≤ 1
  -- Events and audit entries are written with the rows that they tell of.
  pub requested :
      (p : ℕ)
      → count_where (is_event payment_requested p) db.outbox_events
        ≡ count_where (has_row_id p) db.payment_requests
  pub completed :
      (i : ℕ)
      → count_where (is_event order_was_completed i) db.outbox_events
        ≡ count_where (has_order_id i) db.orders
  pub audited :
      (i : ℕ)
      → count_where (is_audit order_completed i) db.user_audits
        ≡ count_where (has_order_id i) db.orders
  -- A cancellation is requested once, and an order that is still completed has none.
  pub cancelled :
      (i : ℕ)
      → count_where (is_event cancellation_requested i) db.outbox_events
          + count_where (open_order i) db.orders
        ≤ count_where (has_order_id i) db.orders
  pub paid : All (IsPaid db.payment_requests) db.orders

-- One transaction of a server or of the payment processor. A cancellation is asked for an order as
-- some earlier SELECT gave it.
pub data Step : Database → Database → Type 0 where
  inserts :
      (accepts inserted : Bool) (amount : ℕ) (r : PaymentRow) (db db' : Database)
      → insert_request accepts amount r db ≡ some (db', inserted)
      → Step db db'
  fails : (p : ℕ) (db : Database) → Step db (fail_payment p db)
  checks_out :
      (accepts : Bool) (c : CheckoutCommit) (db db' : Database)
      → commit_checkout accepts db c ≡ some db'
      → Step db db'
  enqueues : (user_id : ℤ) (o : Order) (db : Database) → Step db (enqueue_cancellation user_id o db)
  cancels :
      (accepts : Bool) (c : CancellationCommit) (db db' : Database)
      → commit_cancellation accepts db c ≡ some db'
      → Step db db'

pub data Steps : Database → Database → Type 0 where
  done : (db : Database) → Steps db db
  follows : (db db' db'' : Database) → Step db db' → Steps db' db'' → Steps db db''
