-- ===== src/Outbox/Store.antt =====
-- apps/outbox-server/src/store.rs: the statements on the tables `outbox_events` and
-- `payment_requests`. Times are in microseconds; a UUID is a number; a JSON value is its text.
use bookit.Common.{
  ℕ, suc, ◌+◌, ◌*◌, Bool, true, false, ◌&&◌, not, Option, none, some, List, [], ◌∷◌, leb, ltb, ◌==◌,
  if◌then◌else◌, String, same_text, pos,
}
use bookit.Outbox.Policy.{retry_delay_seconds, should_dead_letter}

-- A row of `outbox_events`.
pub record Row : Type 0 where
  pub id : ℕ
  pub aggregate_id : ℕ
  pub event_type : String
  pub payload : String
  pub created_at : ℕ
  pub next_attempt_at : ℕ
  pub attempts : ℕ
  pub processing_at : Option ℕ
  pub published_at : Option ℕ
  pub dead_lettered_at : Option ℕ
  pub last_error : Option String

pub data PaymentStatus : Type 0 where
  pending processing succeeded failed : PaymentStatus

-- A row of `payment_requests`.
pub record PaymentRequest : Type 0 where
  pub id : ℕ
  pub status : PaymentStatus
  pub failure_reason : Option String
  pub updated_at : ℕ

pub record Database : Type 0 where
  pub outbox_events : List Row
  pub payment_requests : List PaymentRequest

pub record ClaimedEvent : Type 0 where
  pub id : ℕ
  pub aggregate_id : ℕ
  pub event_type : String
  pub payload : String
  pub attempts : ℕ

abbrev pub is_null {ℓ} : {A : Type ℓ} → Option A → Bool
is_null none = true
is_null (some x) = false

-- INTERVAL '5 minutes' and '1 second'
abbrev pub second : ℕ
second = 1000000

abbrev pub lease : ℕ
lease = 300 * second

abbrev pub lease_over : ℕ → Option ℕ → Bool
lease_over now none = true
lease_over now (some t) = ltb (t + lease) now

-- The WHERE of the candidate.
unfoldable pub is_due : ℕ → Row → Bool
is_due now r =
    is_null r.published_at
    && is_null r.dead_lettered_at
    && leb r.next_attempt_at now
    && lease_over now r.processing_at

abbrev pub earlier : Row → Option Row → Row
earlier r none = r
earlier r (some q) = if leb r.created_at q.created_at then r else q

-- ORDER BY created_at LIMIT 1, over the rows that pass a test.
unfoldable pub first_by_age : (Row → Bool) → List Row → Option Row
first_by_age ok [] = none
first_by_age ok (r ∷ rs) =
    let rest = first_by_age ok rs in if ok r then some (earlier r rest) else rest

-- UPDATE of the rows with an id.
unfoldable pub update_row : ℕ → (Row → Row) → List Row → List Row
update_row x f [] = []
update_row x f (r ∷ rs) = (if r.id == x then f r else r) ∷ update_row x f rs

unfoldable pub update_request :
    ℕ → (PaymentRequest → PaymentRequest) → List PaymentRequest → List PaymentRequest
update_request x f [] = []
update_request x f (p ∷ ps) = (if p.id == x then f p else p) ∷ update_request x f ps

abbrev pub claim_row : ℕ → Row → Row
claim_row now r = record r { processing_at = some now; attempts = suc r.attempts }

abbrev pub claimed_event : Row → ClaimedEvent
claimed_event r = record {
  id = r.id;
  aggregate_id = r.aggregate_id;
  event_type = r.event_type;
  payload = r.payload;
  attempts = suc r.attempts;
}

abbrev pub claim_candidate : ℕ → Option Row → Database → Database × Option ClaimedEvent
claim_candidate now none db = (db, none)
claim_candidate now (some r) db = (
  record db { outbox_events = update_row r.id (claim_row now) db.outbox_events },
  some (claimed_event r),
)

-- The statement passes over the rows that another transaction has locked (SKIP LOCKED).
unfoldable pub claim_next : (ℕ → Bool) → ℕ → Database → Database × Option ClaimedEvent
claim_next locked now db =
    claim_candidate now (first_by_age (λ r. is_due now r && not (locked r.id)) db.outbox_events) db

abbrev pub is_pending : PaymentStatus → Bool
is_pending pending = true
is_pending _ = false

abbrev pub is_succeeded : PaymentStatus → Bool
is_succeeded succeeded = true
is_succeeded _ = false

abbrev pub start_request : ℕ → PaymentRequest → PaymentRequest
start_request now p =
    if is_pending p.status then record p { status = processing; updated_at = now } else p

abbrev pub fail_request : ℕ → String → PaymentRequest → PaymentRequest
fail_request now message p =
    if is_succeeded p.status
    then p
    else record p { status = failed; failure_reason = some message; updated_at = now }

-- Both statements are one transaction.
unfoldable pub mark_published : ℕ → ClaimedEvent → Database → Database
mark_published now event db = record {
  outbox_events =
      update_row event.id
        (λ r. record r { published_at = some now; processing_at = none; last_error = none })
        db.outbox_events;
  payment_requests =
      if same_text event.event_type "payment.requested"
      then update_request event.aggregate_id (start_request now) db.payment_requests
      else db.payment_requests;
}

abbrev pub dead_letter : ℕ → String → Row → Row
dead_letter now message r = record r {
  dead_lettered_at = some now;
  processing_at = none;
  last_error = some message;
}

abbrev pub put_back : ℕ → ℕ → String → Row → Row
put_back now delay message r = record r {
  processing_at = none;
  next_attempt_at = now + delay * second;
  last_error = some message;
}

unfoldable pub mark_failed : ℕ → ClaimedEvent → String → Bool → Database → Database
mark_failed now event message permanent_failure db =
    if should_dead_letter (pos event.attempts) permanent_failure
    then record {
      outbox_events = update_row event.id (dead_letter now message) db.outbox_events;
      payment_requests =
          if same_text event.event_type "payment.requested"
          then update_request event.aggregate_id (fail_request now message) db.payment_requests
          else db.payment_requests;
    }
    else record db {
      outbox_events =
          update_row event.id (put_back now (retry_delay_seconds (pos event.attempts)) message)
            db.outbox_events;
    }
