-- ===== src/Outbox/Policy.antt =====
-- The rules of apps/outbox-server/src/lib.rs and apps/outbox-server/src/routing.rs: when to try again,
-- when to give up, and where an event goes.
use native.Mathlib.Nat.{pow-le-pow_right}
use bookit.Common.{
  ℕ, ◌^◌, ◌≤◌, ◌≡◌, Bool, false, ◌&&◌, ◌||◌, Option, none, some, ℤ, pos, negsuc, leb, ltb,
  if◌then◌else◌, String, same_text, arith,
}

abbrev pub max_attempts : ℕ
max_attempts = 10

-- `attempts.clamp(1, 8)` of an `i32`
abbrev pub clamp_attempts : ℤ → ℕ
clamp_attempts (pos n) = if ltb n 1 then 1 else if ltb 8 n then 8 else n
clamp_attempts (negsuc n) = 1

unfoldable pub retry_delay_seconds : ℤ → ℕ
retry_delay_seconds attempts = let d = 2 ^ clamp_attempts attempts in if leb d 300 then d else 300

abbrev pub at_least : ℤ → ℕ → Bool
at_least (pos n) m = leb m n
at_least (negsuc n) m = false

unfoldable pub should_dead_letter : ℤ → Bool → Bool
should_dead_letter attempts permanent_failure = permanent_failure && at_least attempts max_attempts

-- The text of the variable, parsed as a `u64` where it parses.
unfoldable pub parse_payment_message_ttl : Option ℕ → ℕ
parse_payment_message_ttl none = 300000
parse_payment_message_ttl (some value) = if leb 1000 value then value else 300000

pub record Route : Type 0 where
  pub exchange : String
  pub routing_key : String

unfoldable pub route_for : String → Option Route
route_for event_type =
    if same_text event_type "payment.requested"
      || same_text event_type "payment.cancellation_requested"
    then some (record { exchange = ""; routing_key = "payment_processing" })
    else if same_text event_type "OrderCompleted" || same_text event_type "TicketCancelled"
    then some (record { exchange = "booking_events_exchange"; routing_key = "" })
    else none

clamp_attempts-bounds : (x : ℤ) → (1 ≤ clamp_attempts x) × (clamp_attempts x ≤ 8)
clamp_attempts-bounds (pos n) = ground arith
clamp_attempts-bounds (negsuc n) = ground arith

two_power-le : (m n : ℕ) → m ≤ n → 2 ^ m ≤ 2 ^ n
two_power-le m n h = pow-le-pow_right (omega arith) h

clamp_attempts-le : (m n : ℕ) → m ≤ n → clamp_attempts (pos m) ≤ clamp_attempts (pos n)
clamp_attempts-le m n h = ground arith

retry_delay_power : (x : ℤ) → retry_delay_seconds x ≡ 2 ^ clamp_attempts x
unfolding retry_delay_seconds
retry_delay_power x =
    let b = clamp_attempts-bounds x in ground (arith, two_power-le (clamp_attempts x) 8 b.1)

-- The delay before a retry is between 2 and 256 seconds for every `i32`, so that the cap of 300
-- seconds is never reached; it does not shrink as the attempts grow.
pub retry_delay_seconds-bounds :
    (x : ℤ) (m n : ℕ)
    → m ≤ n
    → (2 ≤ retry_delay_seconds x)
      × (retry_delay_seconds x ≤ 256)
      × (retry_delay_seconds (pos m) ≤ retry_delay_seconds (pos n))
retry_delay_seconds-bounds x m n h =
    let b = clamp_attempts-bounds x in
    rw (retry_delay_power x, retry_delay_power (pos m), retry_delay_power (pos n))
      (
        two_power-le 1 (clamp_attempts x) b.0,
        two_power-le (clamp_attempts x) 8 b.1,
        two_power-le (clamp_attempts (pos m)) (clamp_attempts (pos n)) (clamp_attempts-le m n h),
      )
