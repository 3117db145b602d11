-- ===== src/Gateway/Trips.antt =====
-- What the circuit breaker promises over several calls (apps/gateway-keeper/src/circuit_breaker.rs).
use bookit.Common.{
  ℕ, zero, suc, ◌+◌, ◌^◌, ◌≤◌, ◌<◌, ◌≡◌, refl, sym, ap, subst, Bool, true, false, some, List, [],
  ◌∷◌, ltb, leb, if◌then◌else◌, arith, All,
}
use bookit.SeatLock.Cluster.{answered}
use bookit.Gateway.Breaker.{
  closed, opened, half_open, Breaker, Config, Meets, trips, until_or_zero, allow_request,
  record_success, record_failure,
}

-- A call on a breaker that is not a success.
pub data Attempt : Type 0 where
  request failure : Meets → Attempt

unfoldable pub attempt : Config → Attempt → Breaker → Breaker
attempt c (request m) b = (allow_request m b).0
attempt c (failure m) b = record_failure c m b

unfoldable pub attempts : Config → List Attempt → Breaker → Breaker
attempts c [] b = b
attempts c (x ∷ xs) b = attempts c xs (attempt c x b)

-- Every command of the call is answered.
abbrev pub Answered : Meets → Type 0
Answered m = (m.connected ≡ true) × ((i : ℕ) → m.delivery i ≡ answered)

-- The breaker is open until a time, at least.
abbrev pub OpenUntil : ℕ → Breaker → Type 0
OpenUntil t b = (b.state ≡ some opened) × (t ≤ until_or_zero b.open_until)

module _ (c : Config) (t : ℕ) where
  -- A request before the time whose commands are answered, a failure that leaves the time as it is
  -- or moves it on.
  abbrev pub Within : Attempt → Type 0
  Within (request m) = Answered m × (m.now < t)
  Within (failure m) = t ≤ m.now + c.open_ttl_secs

  allow_request-refused :
      (m : Meets) (b : Breaker)
      → Answered m
      → m.now < t
      → OpenUntil t b
      → allow_request m b ≡ (b, false)
  unfolding allow_request
  allow_request-refused m b (up, ans) early (state, until) =
      let lt : ltb m.now (until_or_zero b.open_until) ≡ true = ground arith in
      rw (up, ans 0, ans 1, state, lt) refl

  record_failure-OpenUntil :
      (m : Meets) (b : Breaker)
      → t ≤ m.now + c.open_ttl_secs
      → OpenUntil t b
      → OpenUntil t (record_failure c m b)
  unfolding record_failure
  record_failure-OpenUntil m b h o = ground (arith, o.0, o.1)

  attempt-OpenUntil :
      (x : Attempt) (b : Breaker) → Within x → OpenUntil t b → OpenUntil t (attempt c x b)
  unfolding attempt
  attempt-OpenUntil (request m) b h o =
      subst (OpenUntil t) (sym (ap (λ p. p.0) (allow_request-refused m b h.0 h.1 o))) o
  attempt-OpenUntil (failure m) b h o = record_failure-OpenUntil m b h o

  attempts-OpenUntil :
      (xs : List Attempt) (b : Breaker)
      → All Within xs
      → OpenUntil t b
      → OpenUntil t (attempts c xs b)
  unfolding attempts
  attempts-OpenUntil [] b h o = o
  attempts-OpenUntil (x ∷ xs) b h o = attempts-OpenUntil xs _ h.1 (attempt-OpenUntil x b h.0 o)

record_failure_trip :
    (c : Config) (m : Meets) (b : Breaker)
    → Answered m
    → trips c m b ≡ true
    → OpenUntil (m.now + c.open_ttl_secs) (record_failure c m b)
unfolding record_failure
record_failure_trip c m b (up, ans) h = rw (h, up, ans 2, ans 3) (refl, omega arith)

-- A failure that trips the breaker closes the service off: after it, and after any requests and
-- further failures at later times (the requests answered and before the end of the open period), a
-- request before the end of that period, whose commands are answered, is refused.
pub trip_refuses :
    (c : Config) (m m' : Meets) (b : Breaker) (xs : List Attempt)
    → Answered m
    → trips c m b ≡ true
    → All (Within c (m.now + c.open_ttl_secs)) xs
    → Answered m'
    → m'.now < m.now + c.open_ttl_secs
    → (allow_request m' (attempts c xs (record_failure c m b))).1 ≡ false
trip_refuses c m m' b xs ans h within ans' early =
    let until = m.now + c.open_ttl_secs in
    ap (λ p. p.1)
      (allow_request-refused c until m' (attempts c xs (record_failure c m b)) ans' early (
        attempts-OpenUntil c until xs (record_failure c m b) within
          (record_failure_trip c m b ans h)))

unfoldable pub fail : Config → ℕ → Meets → Breaker → Breaker
fail c zero m b = b
fail c (suc n) m b = record_failure c m (fail c n m b)

module _ (c : Config) (m s : Meets) (b : Breaker) (ans : Answered m) (ans' : Answered s) where
  reset : ((record_success s b).state ≡ some closed) × ((record_success s b).failures ≡ 0)
  unfolding record_success
  reset = rw (ans'.0, ans'.1 1, ans'.1 2) (refl, refl)

  record_failure_next :
      (d : Breaker) (n : ℕ)
      → 0 < c.failure_threshold
      → suc n < 2 ^ 32
      → d.failures ≡ n
      → d.state ≡ some (if leb c.failure_threshold n then opened else closed)
      → ((record_failure c m d).failures ≡ suc n)
        × ((record_failure c m d).state
            ≡ some (if leb c.failure_threshold (suc n) then opened else closed))
  unfolding record_failure trips
  record_failure_next d n h k count state =
      ground (arith, ans.0, ans.1 0, ans.1 1, ans.1 2, ans.1 3, count, state)

  -- A success that the server answers, and then a number of failures in a row that it answers: the
  -- counter is that number, and the breaker is open exactly if the threshold (of at least 1) is among
  -- the failures, closed otherwise.
  pub fail_count :
      (n : ℕ)
      → 0 < c.failure_threshold
      → n < 2 ^ 32
      → ((fail c n m (record_success s b)).failures ≡ n)
        × ((fail c n m (record_success s b)).state
            ≡ some (if leb c.failure_threshold n then opened else closed))
  unfolding fail
  fail_count zero h k = (reset.1, rw reset.0 (ground arith))
  fail_count (suc n) h k =
      let (count, state) = fail_count n h (omega arith) in
      record_failure_next (fail c n m (record_success s b)) n h k count state

-- The answers to requests in a row.
unfoldable pub answers : List Meets → Breaker → List Bool
answers [] b = []
answers (m ∷ ms) b = let (b', ok) = allow_request m b in ok ∷ answers ms b'

-- A request that goes through and leaves the breaker half open.
abbrev Passes : Meets → Breaker → Type 0
Passes m b = ((allow_request m b).1 ≡ true) × ((allow_request m b).0.state ≡ some half_open)

half_open-Passes : (m : Meets) (b : Breaker) → b.state ≡ some half_open → Answered m → Passes m b
unfolding allow_request
half_open-Passes m b h ans = ground (arith, ans.0, ans.1 0)

over-Passes :
    (m : Meets) (b : Breaker)
    → b.state ≡ some opened
    → until_or_zero b.open_until ≤ m.now
    → Answered m
    → Passes m b
unfolding allow_request
over-Passes m b h over ans = ground (arith, ans.0, ans.1 0, ans.1 1, ans.1 2)

half_open_answers :
    (ms : List Meets) (b : Breaker)
    → b.state ≡ some half_open
    → All Answered ms
    → All (λ ok. ok ≡ true) (answers ms b)
unfolding answers
half_open_answers [] b h ans = tt
half_open_answers (m ∷ ms) b h ans =
    let (ok, state) = half_open-Passes m b h ans.0 in
    (ok, half_open_answers ms (allow_request m b).0 state ans.1)

-- Once the open period is over, every one of the requests that come before the next outcome is let
-- through, where the server answers, however many they are.
pub probes_allowed :
    (m : Meets) (ms : List Meets) (b : Breaker)
    → b.state ≡ some opened
    → until_or_zero b.open_until ≤ m.now
    → Answered m
    → All Answered ms
    → All (λ ok. ok ≡ true) (answers (m ∷ ms) b)
unfolding answers
probes_allowed m ms b h over ans later =
    let (ok, state) = over-Passes m b h over ans in
    (ok, half_open_answers ms (allow_request m b).0 state later)
