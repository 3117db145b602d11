-- ===== src/Payment/Tables.antt =====
-- The tables that a payment touches (packages/db/migrations), as lists of rows; a UUID is a number. An
-- amount is an exact decimal, in units of 1/10000, as the product of a price and of the tax has it. A
-- column that no statement of the modelled code reads is left out.
use bookit.Common.{
  ℕ, ◌+◌, Bool, true, false, ◌||◌, Option, none, some, List, [], ◌∷◌, ℤ, ◌==ℤ◌, if◌then◌else◌,
  String,
}

pub data SeatStatus : Type 0 where
  available locked booked : SeatStatus

-- `schedule_seats`; the price in units of 1/100, as NUMERIC(10,2) has it
pub record Seat : Type 0 where
  pub id : ℤ
  pub schedule_id : ℤ
  pub price : ℕ
  pub status : SeatStatus

-- `orders.status` is a text; these are the ones that the code writes.
pub data OrderStatus : Type 0 where
  completed cancelling cancelled refunded other_status : OrderStatus

pub record Order : Type 0 where
  pub id : ℕ
  pub payment_request_id : ℕ
  pub user_id : ℤ
  pub schedule_id : ℤ
  pub seat_ids : List ℤ
  pub total_amount : ℕ
  pub razorpay_payment_id : Option String
  pub status : OrderStatus

pub data PaymentStatus : Type 0 where
  pending processing succeeded failed : PaymentStatus

pub record PaymentRow : Type 0 where
  pub id : ℕ
  pub idempotency_key : String
  pub user_id : ℤ
  pub schedule_id : ℤ
  pub seat_ids : List ℤ
  pub status : PaymentStatus

pub data TicketStatus : Type 0 where
  active ticket_cancelled : TicketStatus

pub record Ticket : Type 0 where
  pub order_id : ℕ
  pub schedule_id : ℤ
  pub status : TicketStatus
  pub pdf_url : String

pub data Action : Type 0 where
  order_completed ticket_was_cancelled ticket_created booking_email_sent : Action

pub record Audit : Type 0 where
  pub user_id : ℤ
  pub action : Action
  pub order_id : ℕ

-- The type of an event is its text; these are the four that the code writes.
pub data EventType : Type 0 where
  payment_requested cancellation_requested order_was_completed order_was_cancelled : EventType

-- A new row of `outbox_events`, which the outbox server takes up.
pub record Event : Type 0 where
  pub aggregate_id : ℕ
  pub event_type : EventType
  pub user_id : ℤ
  pub schedule_id : ℤ
  pub seat_ids : List ℤ
  pub amount : ℕ

pub record Database : Type 0 where
  pub schedule_seats : List Seat
  pub orders : List Order
  pub payment_requests : List PaymentRow
  pub tickets : List Ticket
  pub user_audits : List Audit
  pub outbox_events : List Event

-- UPDATE … WHERE
unfoldable pub update_where {ℓ} : {A : Type ℓ} → (A → Bool) → (A → A) → List A → List A
update_where p f [] = []
update_where p f (x ∷ xs) = (if p x then f x else x) ∷ update_where p f xs

-- COUNT(*) … WHERE
unfoldable pub count_where {ℓ} : {A : Type ℓ} → (A → Bool) → List A → ℕ
count_where p [] = 0
count_where p (x ∷ xs) = (if p x then 1 else 0) + count_where p xs

-- The first row of a SELECT … WHERE, in the order of the table.
unfoldable pub find_where {ℓ} : {A : Type ℓ} → (A → Bool) → List A → Option A
find_where p [] = none
find_where p (x ∷ xs) = if p x then some x else find_where p xs

abbrev pub is_found {ℓ} : {A : Type ℓ} → Option A → Bool
is_found none = false
is_found (some x) = true

abbrev pub mem_ℤ : ℤ → List ℤ → Bool
mem_ℤ x [] = false
mem_ℤ x (y ∷ ys) = (y ==ℤ x) || mem_ℤ x ys

abbrev pub is_completed : OrderStatus → Bool
is_completed completed = true
is_completed _ = false

abbrev pub is_succeeded : PaymentStatus → Bool
is_succeeded succeeded = true
is_succeeded _ = false

abbrev pub is_booked : SeatStatus → Bool
is_booked booked = true
is_booked _ = false

-- `id = ANY(seat_ids)`
abbrev pub among : List ℤ → Seat → Bool
among seat_ids s = mem_ℤ s.id seat_ids
