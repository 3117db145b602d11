-- ===== src/Examples/Breaker.antt =====
-- The circuit breaker (apps/gateway-keeper/src/circuit_breaker.rs) with a threshold of 2 and an open
-- period of 60 seconds.
use bookit.Common.{ℕ, ◌≡◌, refl, true, false, none, some, List, [], ◌∷◌, arith}
use bookit.SeatLock.Cluster.{answered}
use bookit.Gateway.Breaker.{Breaker, Config, Meets, opened, allow_request, record_failure, trips}
use bookit.Gateway.Trips.{Attempt, request, failure, attempts, Answered, trip_refuses}

abbrev config : Config
config = record { failure_threshold = 2; open_ttl_secs = 60 }

abbrev at_time : ℕ → Meets
at_time t = record { connected = true; delivery = λ i. answered; now = t }

at_time-Answered : (t : ℕ) → Answered (at_time t)
at_time-Answered t = (refl, λ i. refl)

abbrev one_failure : Breaker
one_failure = record { state = none; failures = 1; open_until = none }

tripped : trips config (at_time 100) one_failure ≡ true
unfolding trips
tripped = refl

abbrev busy : List Attempt
busy = request (at_time 110) ∷ failure (at_time 120) ∷ []

trip_refuses_example :
    (allow_request
      (at_time 159)
      (attempts config busy (record_failure config (at_time 100) one_failure))).1
    ≡ false
trip_refuses_example =
    trip_refuses config (at_time 100) (at_time 159) one_failure busy (at_time-Answered 100) tripped
      ((at_time-Answered 110, omega arith), (omega arith, tt)) (at_time-Answered 159) (omega arith)

abbrev expired : Breaker
expired = record { state = some opened; failures = 2; open_until = some 160 }

abbrev wave : List Meets
wave = at_time 161 ∷ at_time 161 ∷ at_time 162 ∷ []
