-- ===== src/SeatMap/Cache.antt =====
-- The cached reads and writes of apps/http-server/src/services/cache.rs: `get_async_cached`,
-- `set_async_cached` and `invalidate_async`, which try a command up to four times.
use bookit.Common.{ℕ, zero, suc, ◌+◌, ◌*◌, ◌≤◌, ◌≡◌, ◌↔◌, refl, Option, none, some, String, arith}

-- What the n-th attempt at a command meets.
pub data Attempt (A : Type 0) : Type 0 where
  answered : A → Attempt A
  failed : Attempt A

-- The answer, where one came, and what it took: the attempts and the time slept, in milliseconds.
pub record Tries (A : Type 0) : Type 0 where
  pub answer : Option A
  pub attempts : ℕ
  pub slept : ℕ

abbrev pub slept_before : {A : Type 0} → ℕ → Tries A → Tries A
slept_before delay t = record t { attempts = suc t.attempts; slept = delay + t.slept }

abbrev pub one_attempt : {A : Type 0} → Option A → Tries A
one_attempt o = record { answer = o; attempts = 1; slept = 0 }

-- What an attempt decides, with what would follow where it fails.
abbrev pub or_later : {A : Type 0} → Attempt A → Tries A → Tries A
or_later (answered a) later = one_attempt (some a)
or_later failed later = later

-- The loop with `retries` left, the attempts counted from `i`.
unfoldable pub try_from : {A : Type 0} → (ℕ → Attempt A) → ℕ → ℕ → ℕ → Tries A
try_from attempt zero i delay = or_later (attempt i) (one_attempt none)
try_from attempt (suc retries) i delay =
    or_later (attempt i) (slept_before delay (try_from attempt retries (suc i) (delay * 2)))

abbrev pub with_retries : {A : Type 0} → (ℕ → Attempt A) → Tries A
with_retries attempt = try_from attempt 3 0 50

abbrev pub decoded : {A : Type 0} → (String → Option A) → Option (Option String) → Option A
decoded from_str (some (some raw)) = from_str raw
decoded from_str (some none) = none
decoded from_str none = none

-- GET: a value that is not there or does not parse counts as a miss.
unfoldable pub get_async_cached :
    {A : Type 0} → (String → Option A) → (ℕ → Attempt (Option String)) → Option A
get_async_cached from_str attempt = decoded from_str (with_retries attempt).answer

-- SETEX and DEL: the command's effect, where an attempt is answered.
abbrev pub applied : {S : Type 0} → (S → S) → Option (Unit {0}) → S → S
applied f none s = s
applied f (some t) s = f s

unfoldable pub set_async_cached :
    {S A : Type 0} → (A → Option String) → (String → S → S) → (ℕ → Attempt (Unit {0})) → A → S → S
set_async_cached to_string setex attempt value s = elim (to_string value) [
  | none ↦ s
  | some raw ↦ applied (setex raw) (with_retries attempt).answer s
]

unfoldable pub invalidate_async : {S : Type 0} → (S → S) → (ℕ → Attempt (Unit {0})) → S → S
invalidate_async del attempt s = applied del (with_retries attempt).answer s

-- The attempts from the `i`-th on fail, `n` further ones included.
abbrev pub AllFail : {A : Type 0} → (ℕ → Attempt A) → ℕ → ℕ → Type 0
AllFail attempt zero i = attempt i ≡ failed
AllFail attempt (suc n) i = (attempt i ≡ failed) × AllFail attempt n (suc i)

abbrev wait : ℕ → ℕ → ℕ
wait zero delay = 0
wait (suc n) delay = delay + wait n (delay * 2)

try_zero :
    {A : Type 0} (x : Attempt A)
    → ((or_later x (one_attempt none)).attempts ≤ 1)
      × (((or_later x (one_attempt none)).slept ≤ 0)
          × (((or_later x (one_attempt none)).answer ≡ none) ↔ (x ≡ failed)))
try_zero (answered a) = (omega arith, (omega arith, (λ e. cc e, λ e. cc e)))
try_zero failed = (omega arith, (omega arith, (λ e. refl, λ e. refl)))

-- What holds of the attempts that follow, with the one in front.
try_more :
    {A : Type 0} (F : Type 0) (x : Attempt A) (delay n k : ℕ) (later : Tries A)
    → (later.attempts ≤ n) × ((later.slept ≤ k) × ((later.answer ≡ none) ↔ F))
    → ((or_later x (slept_before delay later)).attempts ≤ suc n)
      × (((or_later x (slept_before delay later)).slept ≤ delay + k)
          × (((or_later x (slept_before delay later)).answer ≡ none) ↔ ((x ≡ failed) × F)))
try_more F (answered a) delay n k later h = (omega arith, (omega arith, (λ e. cc e, λ p. cc (p.0))))
try_more F failed delay n k later h =
    (omega (arith, h.0), (omega (arith, h.1.0), (λ e. (refl, h.1.1.0 e), λ p. h.1.1.1 p.1)))

try_from_lem :
    {A : Type 0} (attempt : ℕ → Attempt A) (n i delay : ℕ)
    → ((try_from attempt n i delay).attempts ≤ suc n)
      × (((try_from attempt n i delay).slept ≤ wait n delay)
          × (((try_from attempt n i delay).answer ≡ none) ↔ AllFail attempt n i))
unfolding try_from
try_from_lem attempt zero i delay = try_zero (attempt i)
try_from_lem attempt (suc n) i delay =
    try_more (AllFail attempt n (suc i)) (attempt i) delay (suc n) (wait n (delay * 2))
      (try_from attempt n (suc i) (delay * 2)) (try_from_lem attempt n (suc i) (delay * 2))

-- A cached command ends after at most four attempts and 350 milliseconds of sleep, and without an answer
-- exactly where all four attempts fail.
pub with_retries_lem :
    {A : Type 0} (attempt : ℕ → Attempt A)
    → ((with_retries attempt).attempts ≤ 4)
      × (((with_retries attempt).slept ≤ 350)
          × (((with_retries attempt).answer ≡ none) ↔ AllFail attempt 3 0))
with_retries_lem attempt = try_from_lem attempt 3 0 50
