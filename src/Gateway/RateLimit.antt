-- ===== src/Gateway/RateLimit.antt =====
-- The sliding window of apps/gateway-keeper/src/rate_limit_sliding.rs: its script on the sorted set of
-- one key, whose members are texts of a time and a random number, and whose scores are the times.
use bookit.SeatLock.Cluster.{Delivery, answered, unanswered, dropped}
use bookit.Common.{
  ℕ, suc, ◌+◌, ◌*◌, ◌≤◌, ◌<◌, ◌≡◌, refl, inl, inr, Bool, true, false, ◌&&◌, ◌||◌, List, [], ◌∷◌,
  ◌==◌, ltb, leb, if◌then◌else◌, length, Bool-cases, arith, All, All-map, ltb→lt,
}
pub mod Limit

-- "{now}:{random}", with the time as its score
pub record Entry : Type 0 where
  pub time : ℕ
  pub random : ℕ

-- The sorted set and the time at which its key expires.
pub record Window : Type 0 where
  pub entries : List Entry
  pub expires : ℕ

abbrev pub no_entries : Window
no_entries = record { entries = []; expires = 0 }

-- ZREMRANGEBYSCORE key -inf (now - window)
unfoldable pub remove_old : ℕ → ℕ → List Entry → List Entry
remove_old window now [] = []
remove_old window now (e ∷ rest) =
    if leb (e.time + window) now then remove_old window now rest else e ∷ remove_old window now rest

abbrev pub has_entry : Entry → List Entry → Bool
has_entry x [] = false
has_entry x (e ∷ rest) = ((e.time == x.time) && (e.random == x.random)) || has_entry x rest

-- ZADD: a member that is there keeps its place.
abbrev pub zadd : Entry → List Entry → List Entry
zadd x es = if has_entry x es then es else x ∷ es

-- What the script finds of a key that may have expired.
unfoldable pub kept : ℕ → Entry → Window → List Entry
kept window x w = if leb w.expires x.time then [] else remove_old window x.time w.entries

abbrev pub limited : ℕ → ℕ → Entry → List Entry → Window → Window × (Bool × ℕ)
limited limit window x es w =
    if ltb (length es) limit
    then (record { entries = zadd x es; expires = x.time + window * 2 }, (true, length es + 1))
    else (record w { entries = es }, (false, length es))

-- Whether a request is allowed, and the count that is told; an error is told as (false, 0).
unfoldable pub check_sliding_window : ℕ → ℕ → Delivery → Entry → Window → Window × (Bool × ℕ)
check_sliding_window limit window answered x w = limited limit window x (kept window x w) w
check_sliding_window limit window unanswered x w =
    ((limited limit window x (kept window x w) w).0, (false, 0))
check_sliding_window limit window dropped x w = (w, (false, 0))

-- Requests of one key, and the ones that are allowed, the last one first.
unfoldable pub run_requests : ℕ → ℕ → List (Delivery × Entry) → Window → List Entry → List Entry
run_requests limit window [] w allowed = allowed
run_requests limit window ((d, x) ∷ rest) w allowed =
    let (w1, (ok, count)) = check_sliding_window limit window d x w in
    run_requests limit window rest w1 (if ok then x ∷ allowed else allowed)

-- The clock of the requests does not run back.
abbrev pub Ordered : ℕ → List (Delivery × Entry) → Type 0
Ordered last [] = Unit
Ordered last ((d, x) ∷ rest) = (last ≤ x.time) × Ordered x.time rest

-- No request draws the time and the random number of a member that is in the set.
abbrev pub Fresh : ℕ → ℕ → List (Delivery × Entry) → Window → Type 0
Fresh limit window [] w = Unit
Fresh limit window ((d, x) ∷ rest) w =
    (has_entry x (kept window x w) ≡ false)
    × Fresh limit window rest (check_sliding_window limit window d x w).0

-- The members whose window has not ended at a time.
abbrev pub in_window : ℕ → ℕ → List Entry → ℕ
in_window window t [] = 0
in_window window t (e ∷ rest) = (if ltb t (e.time + window) then 1 else 0) + in_window window t rest
