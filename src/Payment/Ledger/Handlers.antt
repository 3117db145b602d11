-- ===== src/Payment/Ledger/Handlers.antt =====
-- The handlers as transactions: what request_payment, cancel_order and process_message do to the
-- tables is one of the steps of `Payment.Ledger`, or nothing.
use bookit.Common.{
  ℕ, ◌≡◌, refl, inl, inr, Bool, true, false, ◌&&◌, Option, none, some, List, [], ◌∷◌, ℤ, ◌==ℤ◌,
  if◌then◌else◌, String, Bool-cases,
}
use bookit.Redis.Interface.{Redis}
use bookit.SeatLock.Cluster.{Cluster}
use bookit.Payment.Tables.{
  Seat, Order, OrderStatus, completed, cancelling, cancelled, refunded, other_status, PaymentRow,
  Database,
}
use bookit.Payment.Commit.{
  CheckoutCommit, CancellationCommit, order_exists, commit_checkout, commit_cancellation,
}
use bookit.Payment.Checkouts.{Meets, Checkouts, Claim, claimed, in_progress, lost}
use bookit.Payment.Request.{
  PaymentRequest, PaymentAnswer, Shop, request_payment, after_checks, after_select, after_load,
  after_claim, finish, insert_request, lacks_fields, total_amount, new_row,
}
use bookit.Payment.Orders.{cancel_order, cancel_found, cancel_by_status}
use bookit.Payment.Processor.{
  Payload, Surroundings, LockFailure, World, Settlement, process_message, checkout, checkout_seats,
  after_locks, after_checkout, cancellation, after_cancellation, commit_of, cancellation_of,
  refunded_or_free,
}
use bookit.Payment.Ledger.{
  Step, inserts, fails, checks_out, enqueues, cancels, Steps, done, follows,
}

once : (db db' : Database) → Step db db' → Steps db db'
once db db' s = follows db db' db' s (done db')

if-Steps :
    {A : Type 0} (tables : A → Database) (db : Database) (b : Bool) (x y : A)
    → Steps db (tables x)
    → Steps db (tables y)
    → Steps db (tables (if b then x else y))
if-Steps tables db true x y s t = s
if-Steps tables db false x y s t = t

abbrev shop_tables : Shop × PaymentAnswer → Database
shop_tables x = x.0.database

cancel_by_status-Steps :
    (accepts : Bool) (user_id : ℤ) (o : Order) (status : OrderStatus) (db : Database)
    → Steps db (cancel_by_status accepts user_id o status db).0
unfolding cancel_by_status
cancel_by_status-Steps true user_id o completed db = once db _ (enqueues user_id o db)
cancel_by_status-Steps false user_id o completed db = done db
cancel_by_status-Steps accepts user_id o cancelling db = done db
cancel_by_status-Steps accepts user_id o cancelled db = done db
cancel_by_status-Steps accepts user_id o refunded db = done db
cancel_by_status-Steps accepts user_id o other_status db = done db

cancel_found-Steps :
    (accepts : Bool) (user_id : ℤ) (order : Option Order) (db : Database)
    → Steps db (cancel_found accepts user_id order db).0
unfolding cancel_found
cancel_found-Steps accepts user_id none db = done db
cancel_found-Steps accepts user_id (some o) db = elim (Bool-cases (o.user_id ==ℤ user_id)) [
  | inl e ↦ rw e (cancel_by_status-Steps accepts user_id o o.status db)
  | inr e ↦ rw e (done db)
]

-- A request to cancel an order, as any earlier SELECT gave it, does one transaction or nothing.
pub cancel_order-Steps :
    (blank connects accepts : Bool) (user_id : ℤ) (order : Option Order) (db : Database)
    → Steps db (cancel_order blank connects accepts user_id order db).0
unfolding cancel_order
cancel_order-Steps true connects accepts user_id order db = done db
cancel_order-Steps false false accepts user_id order db = done db
cancel_order-Steps false true accepts user_id order db = cancel_found-Steps accepts user_id order db

finish-Steps :
    (w : Meets) (user_id : ℤ) (q : PaymentRequest) (created : List ℤ) (amount : ℕ) (r : PaymentRow)
    (s : Shop) (result : Option (Database × Bool))
    → insert_request w.accepts amount r s.database ≡ result
    → Steps s.database (finish w user_id q created result s).0.database
unfolding finish
finish-Steps w user_id q created amount r s none e = done s.database
finish-Steps w user_id q created amount r s (some (db, true)) e =
    once s.database db (inserts w.accepts true amount r s.database db e)
finish-Steps w user_id q created amount r s (some (db, false)) e =
    once s.database db (inserts w.accepts false amount r s.database db e)

after_claim-Steps :
    (w : Meets) (user_id : ℤ) (q : PaymentRequest) (seats : List Seat) (s : Shop)
    (x : Checkouts × Claim)
    → Steps s.database (after_claim w user_id q seats s x).0.database
unfolding after_claim
after_claim-Steps w user_id q seats s (m, lost) = done s.database
after_claim-Steps w user_id q seats s (m, in_progress) = done s.database
after_claim-Steps w user_id q seats s (m, claimed created) =
    finish-Steps w user_id q created (total_amount seats) (new_row w.new_id user_id q)
      (record s { checkouts = m }) _ refl

after_load-Steps :
    (w : Meets) (user_id : ℤ) (q : PaymentRequest) (seats : List Seat) (s : Shop)
    → Steps s.database (after_load w user_id q seats s).0.database
unfolding after_load
after_load-Steps w user_id q seats s =
    if-Steps shop_tables s.database _ _ _
      (if-Steps shop_tables s.database _ _ _ (done s.database) (
        if-Steps shop_tables s.database _ _ _ (after_claim-Steps w user_id q seats s _)
          (done s.database)))
      (done s.database)

module _ (R : Redis) where
  after_select-Steps :
      (w : Meets) (user_id : ℤ) (q : PaymentRequest) (row : Option PaymentRow) (c : Cluster R)
      (s : Shop)
      → Steps s.database (after_select R w user_id q row c s).0.database
  unfolding after_select
  after_select-Steps w user_id q (some r) c s = done s.database
  after_select-Steps w user_id q none c s =
      if-Steps shop_tables s.database _ _ _
        (if-Steps shop_tables s.database _ _ _ (after_load-Steps w user_id q _ s) (done s.database))
        (done s.database)

  after_checks-Steps :
      (w : Meets) (user_id : ℤ) (q : PaymentRequest) (refused : Option PaymentAnswer)
      (c : Cluster R) (s : Shop)
      → Steps s.database (after_checks R w user_id q refused c s).0.database
  unfolding after_checks
  after_checks-Steps w user_id q (some a) c s = done s.database
  after_checks-Steps w user_id q none c s = elim (Bool-cases (w.connects && w.selects)) [
    | inl e ↦ rw e (after_select-Steps w user_id q _ c s)
    | inr e ↦ rw e (done s.database)
  ]

  -- A request for a payment does one transaction or nothing.
  pub request_payment-Steps :
      (signature : String → String → String) (w : Meets) (user_id : ℤ) (q : PaymentRequest)
      (c : Cluster R) (s : Shop)
      → Steps s.database (request_payment R signature w user_id q c s).0.database
  unfolding request_payment
  request_payment-Steps signature w user_id q c s = elim (Bool-cases (lacks_fields q)) [
    | inl e ↦ rw e (done s.database)
    | inr e ↦ rw e (after_checks-Steps w user_id q _ c s)
  ]

  after_checkout-Steps :
      (l : Surroundings) (schedule user_id : ℤ) (seats : List ℤ) (c : CheckoutCommit) (w : World R)
      (result : Option Database)
      → commit_checkout l.accepts w.database c ≡ result
      → Steps w.database (after_checkout R l schedule user_id seats result w).0.database
  unfolding after_checkout
  after_checkout-Steps l schedule user_id seats c w none e = done w.database
  after_checkout-Steps l schedule user_id seats c w (some db) e =
      once w.database db (checks_out l.accepts c w.database db e)

  after_locks-Steps :
      (l : Surroundings) (p : Payload) (schedule user_id : ℤ) (seats : List ℤ) (id : ℕ)
      (failure : Option LockFailure) (w : World R)
      → Steps w.database (after_locks R l p schedule user_id seats id failure w).0.database
  unfolding after_locks
  after_locks-Steps l p schedule user_id seats id (some reason) w = elim (Bool-cases l.updates) [
    | inl e ↦ rw e (once w.database _ (fails id w.database))
    | inr e ↦ rw e (done w.database)
  ]
  after_locks-Steps l p schedule user_id seats id none w =
      after_checkout-Steps l schedule user_id seats (commit_of R l p schedule user_id seats id) w _
        refl

  checkout_seats-Steps :
      (l : Surroundings) (p : Payload) (schedule user_id : ℤ) (seats : List ℤ) (id : ℕ)
      (w : World R)
      → Steps w.database (checkout_seats R l p schedule user_id seats id w).0.database
  unfolding checkout_seats
  checkout_seats-Steps l p schedule user_id [] id w = done w.database
  checkout_seats-Steps l p schedule user_id (a ∷ rest) id w =
      after_locks-Steps l p schedule user_id (a ∷ rest) id _ w

  checkout-Steps :
      (l : Surroundings) (p : Payload) (id : Option ℕ) (w : World R)
      → Steps w.database (checkout R l p id w).0.database
  unfolding checkout
  checkout-Steps l p none w = done w.database
  checkout-Steps l p (some id) w = elim (Bool-cases (order_exists l.answers w.database id)) [
    | inl e ↦ rw e (done w.database)
    | inr e ↦ rw e (checkout_seats-Steps l p _ _ _ id w)
  ]

  after_cancellation-Steps :
      (l : Surroundings) (c : CancellationCommit) (w : World R) (result : Option Database)
      → commit_cancellation l.accepts w.database c ≡ result
      → Steps w.database (after_cancellation R l c result w).0.database
  unfolding after_cancellation
  after_cancellation-Steps l c w none e = done w.database
  after_cancellation-Steps l c w (some db) e =
      once w.database db (cancels l.accepts c w.database db e)

  cancellation-Steps :
      (l : Surroundings) (p : Payload) (id : Option ℕ) (w : World R)
      → Steps w.database (cancellation R l p id w).0.database
  unfolding cancellation
  cancellation-Steps l p none w = done w.database
  cancellation-Steps l p (some id) w =
      elim (Bool-cases (refunded_or_free R l p.razorpay_payment_id)) [
        | inl e ↦ rw e (after_cancellation-Steps l (cancellation_of R p id) w _ refl)
        | inr e ↦ rw e (done w.database)
      ]

  -- A delivery to the payment processor, whatever it holds and whatever fails on the way, changes the
  -- tables by nothing but the transactions.
  pub process_message-Steps :
      (l : Surroundings) (message : Option Payload) (w : World R)
      → Steps w.database (process_message R l message w).0.database
  unfolding process_message
  process_message-Steps l none w = done w.database
  process_message-Steps l (some p) w =
      if-Steps (λ (x : World R × Settlement). x.0.database) w.database _ _ _
        (cancellation-Steps l p p.order_id w) (checkout-Steps l p p.payment_request_id w)
