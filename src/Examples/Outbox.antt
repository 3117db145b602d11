-- ===== src/Examples/Outbox.antt =====
-- The outbox (apps/outbox-server/src) on a table with two events.
use bookit.Common.{
  ℕ, ◌+◌, ◌*◌, ◌≡◌, refl, Bool, false, none, some, [], ◌∷◌, String, All, pos, leb, if◌then◌else◌,
}
use bookit.Outbox.Policy.{retry_delay_seconds, route_for}
use bookit.Outbox.Store.{Row, Database, ClaimedEvent, claim_next, first_by_age, is_due, second}
use bookit.Outbox.Server.{
  Env, Message, continues, ack, error, round, run, work, publish, message_for, settle,
}
use bookit.Outbox.Once.{round_once, Unsent}
use bookit.Outbox.Retry.{settle_failed-is_due, gives_up}

abbrev event_row : ℕ → String → ℕ → Row
event_row x event_type t = record {
  id = x;
  aggregate_id = 70;
  event_type = event_type;
  payload = "{}";
  created_at = t;
  next_attempt_at = t;
  attempts = 0;
  processing_at = none;
  published_at = none;
  dead_lettered_at = none;
  last_error = none;
}

abbrev table : Database
table = record {
  outbox_events = event_row 1 "OrderCompleted" 20 ∷ event_row 2 "payment.requested" 10 ∷ [];
  payment_requests = [];
}

abbrev event : ℕ → String → ClaimedEvent
event x event_type = record {
  id = x;
  aggregate_id = 70;
  event_type = event_type;
  payload = "{}";
  attempts = 1;
}

abbrev unlocked : ℕ → Bool
unlocked x = false

abbrev good_round : Env
good_round = record {
  locked = unlocked;
  claimed_at = 100;
  marked_at = 150;
  confirmation = ack;
  ttl = none;
}

abbrev payment_message : Message
payment_message =
    message_for none (event 2 "payment.requested")
      (record { exchange = ""; routing_key = "payment_processing" })

sent_message : (round good_round table).1 ≡ some payment_message
unfolding round work claim_next first_by_age is_due publish message_for route_for
sent_message = refl

goes_on : (round good_round table).2 ≡ continues
unfolding round work claim_next first_by_age is_due publish settle route_for
goes_on = refl

round_once_example :
    (ack ≡ ack)
    × Unsent payment_message.message_id
        (run
          (record good_round { claimed_at = 500000000; marked_at = 500000001 } ∷ [])
          (round good_round table).0).1
round_once_example =
    round_once good_round table payment_message
      (record good_round { claimed_at = 500000000; marked_at = 500000001 } ∷ []) sent_message
      goes_on

settle_failed-is_due_example :
    All
      (λ r.
        r.id ≡ 2
        → is_due 3000000 r ≡ (
            if gives_up (event 2 "payment.requested")
            then false
            else leb (150 + retry_delay_seconds (pos 1) * second) 3000000))
      (settle good_round (event 2 "payment.requested") (error "nack") table).0.outbox_events
settle_failed-is_due_example =
    settle_failed-is_due good_round (event 2 "payment.requested") "nack" table 3000000
      ((λ h. (refl, refl)), ((λ h. (refl, refl)), tt))
