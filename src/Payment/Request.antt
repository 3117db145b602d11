-- ===== src/Payment/Request.antt =====
-- `request_payment` of apps/http-server/src/api/user/payments.rs. The bearer token has been checked,
-- and `signature` is the HMAC of an order id and a payment id under the secret of the server.
use bookit.Common.{
  ℕ, suc, ◌+◌, ◌*◌, Bool, true, false, ◌&&◌, ◌||◌, Option, none, some, List, [], ◌∷◌, ℤ, ◌==◌,
  ◌==ℤ◌, ltb, if◌then◌else◌, String, same_text, len, is_blank, starts_with, length,
}
use bookit.Redis.Interface.{Redis}
use bookit.SeatLock.Cluster.{Env, Cluster}
use bookit.SeatLock.Single.{user_holds_lock}
use bookit.Payment.Tables.{
  Seat, PaymentRow, PaymentStatus, pending, Event, payment_requested, Database, find_where,
  is_found, is_booked, among,
}
use bookit.Payment.Intent.{same_payment_intent}
use bookit.Payment.Commit.{has_row_id}
use bookit.Payment.Checkouts.{
  Checkouts, Meets, delete_keys, Claim, claimed, in_progress, lost, claim_keys,
}

pub record PaymentRequest : Type 0 where
  pub schedule_id : ℤ
  pub seat_ids : List ℤ
  pub idempotency_key : String
  pub razorpay_order_id : Option String
  pub razorpay_payment_id : Option String
  pub razorpay_signature : Option String

pub data PaymentAnswer : Type 0 where
  -- 202 with the id and the status of the payment request
  accepted : ℕ → PaymentStatus → PaymentAnswer
  -- 400, with what the text says
  fields_required missing_payment_id missing_signature invalid_signature : PaymentAnswer
  key_reused seats_not_locked foreign_seats seat_booked checkout_in_progress : PaymentAnswer
  -- 500
  internal : PaymentAnswer

abbrev pub of_key : ℤ → String → PaymentRow → Bool
of_key user_id key r = (r.user_id ==ℤ user_id) && same_text r.idempotency_key key

abbrev pub existing_row : Database → ℤ → String → Option PaymentRow
existing_row db user_id key = find_where (of_key user_id key) db.payment_requests

abbrev pub lacks_fields : PaymentRequest → Bool
lacks_fields q =
    (length q.seat_ids == 0) || (is_blank q.idempotency_key || ltb 128 (len q.idempotency_key))

abbrev pub check_given :
    (String → String → String) → String → Option String → Option String → Option PaymentAnswer
check_given signature order_id none given = some missing_payment_id
check_given signature order_id (some payment_id) none = some missing_signature
check_given signature order_id (some payment_id) (some given) =
    if same_text (signature order_id payment_id) given then none else some invalid_signature

-- The answer that the test of the signature ends with, if it does not pass. A request without an
-- order id, and one with an id that starts with "order_mock_", is not tested.
unfoldable pub signature_error : (String → String → String) → PaymentRequest → Option PaymentAnswer
signature_error signature q = elim q.razorpay_order_id [
  | none ↦ none
  | some order_id ↦
      if starts_with order_id "order_mock_"
      then none
      else check_given signature order_id q.razorpay_payment_id q.razorpay_signature
]

-- The answer of the branches that find a row with the key.
unfoldable pub answer_existing : PaymentRequest → PaymentRow → PaymentStatus → PaymentAnswer
answer_existing q r status =
    if same_payment_intent r.schedule_id r.seat_ids q.schedule_id q.seat_ids
    then accepted r.id status
    else key_reused

abbrev pub of_schedule : ℤ → Seat → Bool
of_schedule schedule_id s = s.schedule_id ==ℤ schedule_id

unfoldable pub load_seats : ℤ → List ℤ → List Seat → List Seat
load_seats schedule_id seat_ids [] = []
load_seats schedule_id seat_ids (s ∷ rest) =
    if among seat_ids s && of_schedule schedule_id s
    then s ∷ load_seats schedule_id seat_ids rest
    else load_seats schedule_id seat_ids rest

abbrev pub any_booked : List Seat → Bool
any_booked [] = false
any_booked (s ∷ rest) = is_booked s.status || any_booked rest

abbrev pub sub_total : List Seat → ℕ
sub_total [] = 0
sub_total (s ∷ rest) = s.price + sub_total rest

-- The prices with the tax of 0.18, in units of 1/10000.
unfoldable pub total_amount : List Seat → ℕ
total_amount seats = sub_total seats * 100 + sub_total seats * 18

-- The row and the event of the transaction.
abbrev pub new_row : ℕ → ℤ → PaymentRequest → PaymentRow
new_row id user_id q = record {
  id = id;
  idempotency_key = q.idempotency_key;
  user_id = user_id;
  schedule_id = q.schedule_id;
  seat_ids = q.seat_ids;
  status = pending;
}

abbrev pub request_event : ℕ → PaymentRow → Event
request_event amount r = record {
  aggregate_id = r.id;
  event_type = payment_requested;
  user_id = r.user_id;
  schedule_id = r.schedule_id;
  seat_ids = r.seat_ids;
  amount = amount;
}

-- INSERT … ON CONFLICT (user_id, idempotency_key) DO NOTHING, and the event where a row was inserted:
-- whether one was. An id that is there already is an error.
unfoldable pub insert_request : Bool → ℕ → PaymentRow → Database → Option (Database × Bool)
insert_request accepts amount r db =
    if accepts
    then if is_found (existing_row db r.user_id r.idempotency_key)
      then some (db, false)
      else if is_found (find_where (has_row_id r.id) db.payment_requests)
      then none
      else some (
        record db {
          payment_requests = r ∷ db.payment_requests;
          outbox_events = request_event amount r ∷ db.outbox_events;
        },
        true,
      )
    else none

-- What a request works on, the servers of the seat lock apart.
pub record Shop : Type 0 where
  pub database : Database
  pub checkouts : Checkouts

abbrev pub answer_again : Meets → PaymentRequest → Option PaymentRow → PaymentAnswer
answer_again w q none = internal
answer_again w q (some r) = if w.selects_again then answer_existing q r pending else internal

unfoldable pub finish :
    Meets → ℤ → PaymentRequest → List ℤ → Option (Database × Bool) → Shop → Shop × PaymentAnswer
finish w user_id q created none s =
    (record s { checkouts = delete_keys w.deletes q.schedule_id created s.checkouts }, internal)
finish w user_id q created (some (db, true)) s =
    (record s { database = db }, accepted w.new_id pending)
finish w user_id q created (some (db, false)) s =
    (record s { database = db }, answer_again w q (existing_row db user_id q.idempotency_key))

unfoldable pub after_claim :
    Meets → ℤ → PaymentRequest → List Seat → Shop → Checkouts × Claim → Shop × PaymentAnswer
after_claim w user_id q seats s (m, lost) = (record s { checkouts = m }, internal)
after_claim w user_id q seats s (m, in_progress) =
    (record s { checkouts = m }, checkout_in_progress)
after_claim w user_id q seats s (m, claimed created) =
    finish w user_id q created
      (insert_request w.accepts (total_amount seats) (new_row w.new_id user_id q) s.database)
      (record s { checkouts = m })

unfoldable pub after_load : Meets → ℤ → PaymentRequest → List Seat → Shop → Shop × PaymentAnswer
after_load w user_id q seats s =
    if length seats == length q.seat_ids
    then if any_booked seats
      then (s, seat_booked)
      else if w.redis_connects
      then after_claim w user_id q seats s (
          claim_keys w (record { user_id = user_id; key = q.idempotency_key }) q.schedule_id 0 []
            q.seat_ids s.checkouts)
      else (s, internal)
    else (s, foreign_seats)

module _ (R : Redis) where
  -- Whether every seat's context key is there; a call for each, in order.
  unfoldable pub holds_all : (ℕ → Env) → Cluster R → ℕ → ℤ → ℤ → List ℤ → Bool
  holds_all env c n schedule user_id [] = true
  holds_all env c n schedule user_id (a ∷ rest) =
      user_holds_lock R (env n) (record { showtime_id = schedule; seat_id = a; user_id = user_id })
        c
      && holds_all env c (suc n) schedule user_id rest

  unfoldable pub after_select :
      Meets → ℤ → PaymentRequest → Option PaymentRow → Cluster R → Shop → Shop × PaymentAnswer
  after_select w user_id q (some r) c s = (s, answer_existing q r r.status)
  after_select w user_id q none c s =
      if holds_all w.lock_env c 0 q.schedule_id user_id q.seat_ids
      then if w.loads
        then after_load w user_id q (load_seats q.schedule_id q.seat_ids s.database.schedule_seats)
            s
        else (s, internal)
      else (s, seats_not_locked)

  unfoldable pub after_checks :
      Meets → ℤ → PaymentRequest → Option PaymentAnswer → Cluster R → Shop → Shop × PaymentAnswer
  after_checks w user_id q (some refused) c s = (s, refused)
  after_checks w user_id q none c s =
      if w.connects && w.selects
      then after_select w user_id q (existing_row s.database user_id q.idempotency_key) c s
      else (s, internal)

  unfoldable pub request_payment :
      (String → String → String)
      → Meets
      → ℤ
      → PaymentRequest
      → Cluster R
      → Shop
      → Shop × PaymentAnswer
  request_payment signature w user_id q c s =
      if lacks_fields q
      then (s, fields_required)
      else after_checks w user_id q (signature_error signature q) c s
