-- ===== src/Gateway/Breaker.antt =====
-- apps/gateway-keeper/src/circuit_breaker.rs: the circuit breaker of a service, which keeps its state
-- under three keys of one Redis server. Seconds are natural numbers: the gateway makes the breaker
-- with a positive time, and the clock is after 1970.
use bookit.Common.{
  ℕ, suc, ◌+◌, ◌^◌, Bool, true, false, ◌||◌, not, Option, none, some, ltb, leb, if◌then◌else◌,
}
use bookit.SeatLock.Cluster.{Delivery, answered, unanswered, dropped, executed}

-- The text under the state key; a text that the program never writes is `unknown`.
pub data Circuit : Type 0 where
  closed opened half_open unknown : Circuit

-- `failures` is the number under the key that INCR counts up, 0 where there is none.
pub record Breaker : Type 0 where
  pub state : Option Circuit
  pub failures : ℕ
  pub open_until : Option ℕ

pub record Config : Type 0 where
  pub failure_threshold : ℕ
  pub open_ttl_secs : ℕ

-- What a call meets: whether the pool gives a connection, the delivery of its commands by number, and
-- the clock in seconds.
pub record Meets : Type 0 where
  pub connected : Bool
  pub delivery : ℕ → Delivery
  pub now : ℕ

-- An answer that is lost counts as an absent key.
abbrev pub read {ℓ} : {A : Type ℓ} → Delivery → Option A → Option A
read answered x = x
read unanswered x = none
read dropped x = none

abbrev pub write {ℓ} : {A : Type ℓ} → Delivery → A → A → A
write d x old = if executed d then x else old

-- `current_state.as_deref().unwrap_or("CLOSED")`
abbrev pub state_or_closed : Option Circuit → Circuit
state_or_closed none = closed
state_or_closed (some s) = s

abbrev pub until_or_zero : Option ℕ → ℕ
until_or_zero none = 0
until_or_zero (some t) = t

abbrev pub is_opened : Circuit → Bool
is_opened opened = true
is_opened _ = false

abbrev pub is_half_open : Circuit → Bool
is_half_open half_open = true
is_half_open _ = false

-- Without a connection every request is allowed.
unfoldable pub allow_request : Meets → Breaker → Breaker × Bool
allow_request m b =
    if not m.connected
    then (b, true)
    else if is_opened (state_or_closed (read (m.delivery 0) b.state))
    then if ltb m.now (until_or_zero (read (m.delivery 1) b.open_until))
      then (b, false)
      else (record b { state = write (m.delivery 2) (some half_open) b.state }, true)
    else (b, true)

-- The GET of the state only feeds a log line.
unfoldable pub record_success : Meets → Breaker → Breaker
record_success m b =
    if m.connected
    then record b {
      failures = write (m.delivery 1) 0 b.failures;
      state = write (m.delivery 2) (some closed) b.state;
    }
    else b

-- The answer to INCR as a `u32`, 1 where it is lost or does not fit.
abbrev pub counted : Delivery → ℕ → ℕ
counted answered n = if ltb n (2 ^ 32) then n else 1
counted unanswered n = 1
counted dropped n = 1

unfoldable pub trips : Config → Meets → Breaker → Bool
trips c m b =
    leb c.failure_threshold (counted (m.delivery 1) (suc b.failures))
    || is_half_open (state_or_closed (read (m.delivery 0) b.state))

unfoldable pub record_failure : Config → Meets → Breaker → Breaker
record_failure c m b =
    if not m.connected
    then b
    else if trips c m b
    then record {
      state = write (m.delivery 2) (some opened) b.state;
      failures = write (m.delivery 1) (suc b.failures) b.failures;
      open_until = write (m.delivery 3) (some (m.now + c.open_ttl_secs)) b.open_until;
    }
    else record b { failures = write (m.delivery 1) (suc b.failures) b.failures }
