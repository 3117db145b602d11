-- ===== src/Outbox/Server.antt =====
-- The publication of an event (apps/outbox-server/src/publisher.rs) and the loop of
-- apps/outbox-server/src/lib.rs. The broker's answer and the variable with the time to live are
-- arguments.
use bookit.Common.{
  ℕ, Bool, not, Option, none, some, List, [], ◌∷◌, if◌then◌else◌, String, same_text,
}
use bookit.Outbox.Policy.{Route, route_for, parse_payment_message_ttl}
use bookit.Outbox.Store.{Database, ClaimedEvent, is_null, claim_next, mark_published, mark_failed}

-- The broker's answer to a publication; `unreachable` is an error of the client library.
pub data Confirmation : Type 0 where
  ack ack_returned nack not_requested unreachable : Confirmation

-- The text of an event, as its JSON or with the event type written into it.
pub data Body : Type 0 where
  plain : String → Body
  wrapped : String → String → Body

pub record Message : Type 0 where
  pub route : Route
  pub mandatory : Bool
  pub body : Body
  pub message_id : ℕ
  pub message_type : String
  pub expiration : Option ℕ

unfoldable pub message_for : Option ℕ → ClaimedEvent → Route → Message
message_for ttl event route =
    let is_fanout = same_text route.exchange "booking_events_exchange" in
    record {
      route = route;
      mandatory = not is_fanout;
      body = if is_fanout then wrapped event.payload event.event_type else plain event.payload;
      message_id = event.id;
      message_type = event.event_type;
      expiration =
          if same_text route.routing_key "payment_processing"
          then some (parse_payment_message_ttl ttl)
          else none;
    }

pub data Outcome : Type 0 where
  sent : Outcome
  error : String → Outcome

abbrev pub outcome_of : Confirmation → Outcome
outcome_of ack = sent
outcome_of ack_returned = error "broker returned unroutable event"
outcome_of nack = error "broker negatively acknowledged event"
outcome_of not_requested = error "publisher confirm was not requested"
outcome_of unreachable = error "unreachable"

-- The message that went to the broker, if one did, and the outcome.
unfoldable pub publish : Option ℕ → Confirmation → ClaimedEvent → Option Message × Outcome
publish ttl confirmation event = elim (route_for event.event_type) [
  | none ↦ (none, error "unsupported outbox event type")
  | some route ↦ (some (message_for ttl event route), outcome_of confirmation)
]

-- What one round of the loop ends in.
pub data Next : Type 0 where
  sleeps continues stops : Next

-- What a round meets: the rows locked by others, the clock at the claim and at the update, the
-- broker's answer and the variable PAYMENT_MESSAGE_TTL_MS.
pub record Env : Type 0 where
  pub locked : ℕ → Bool
  pub claimed_at : ℕ
  pub marked_at : ℕ
  pub confirmation : Confirmation
  pub ttl : Option ℕ

unfoldable pub settle : Env → ClaimedEvent → Outcome → Database → Database × Next
settle e event sent db = (mark_published e.marked_at event db, continues)
settle e event (error message) db =
    (mark_failed e.marked_at event message (is_null (route_for event.event_type)) db, stops)

unfoldable pub work : Env → Option ClaimedEvent → Database → Database × Option Message × Next
work e none db = (db, none, sleeps)
work e (some event) db =
    let (message, outcome) = publish e.ttl e.confirmation event in
    let (db', next) = settle e event outcome db in (db', message, next)

-- One round of `run`, with the message that it sent.
unfoldable pub round : Env → Database → Database × Option Message × Next
round e db = let (db', claimed) = claim_next e.locked e.claimed_at db in work e claimed db'

abbrev pub add_message : Option Message → List Message → List Message
add_message none messages = messages
add_message (some m) messages = m ∷ messages

abbrev pub unless_stopped {ℓ} : {A : Type ℓ} → Next → A → A → A
unless_stopped stops a b = a
unless_stopped sleeps a b = b
unless_stopped continues a b = b

-- `run`, over the rounds that come; a round that fails ends it.
unfoldable pub run : List Env → Database → Database × List Message
run [] db = (db, [])
run (e ∷ rest) db =
    let (db1, message, next) = round e db in
    let (db2, messages) = run rest db1 in
    unless_stopped next (db1, add_message message []) (db2, add_message message messages)
