-- ===== src/SeatMap/Counts.antt =====
-- The counts of seats that lists of schedules show: the grouped queries of `list_schedules`
-- (apps/http-server/src/api/admin/schedules_v2.rs) and `load_schedule_seat_counts` with its cache
-- (apps/http-server/src/api/user/schedules_v2.rs).
use bookit.Common.{
  ℕ, suc, ◌+◌, ◌≡◌, refl, ap, ◌∙◌, inl, inr, Bool, true, false, ◌&&◌, Option, none, some, List, [],
  ◌∷◌, ◌++◌, ℤ, pos, ◌==ℤ◌, ==ℤ_iff, if◌then◌else◌, arith, Bool-cases,
}
use bookit.Payment.Tables.{SeatStatus, available, locked, booked, count_where, mem_ℤ}
use bookit.Schedules.Tables.{ScheduleSeat, of_schedule, select_where}
use bookit.Schedules.Create.{unwrap_or}

-- SELECT schedule_id, count(*) … GROUP BY schedule_id, as the pairs of the answer
abbrev pub bump : ℤ → List (ℤ × ℕ) → List (ℤ × ℕ)
bump s [] = (s, 1) ∷ []
bump s ((t, n) ∷ groups) =
    let rest = bump s groups in if t ==ℤ s then (t, suc n) ∷ groups else (t, n) ∷ rest

unfoldable pub group_counts : List ScheduleSeat → List (ℤ × ℕ)
group_counts [] = []
group_counts (r ∷ rows) = bump r.schedule_id (group_counts rows)

-- `HashMap::get`; an insertion puts its pair in front.
unfoldable pub get_count {ℓ} : {A : Type ℓ} → ℤ → List (ℤ × A) → Option A
get_count s [] = none
get_count s ((t, n) ∷ groups) = if t ==ℤ s then some n else get_count s groups

abbrev pub available_status : SeatStatus → Bool
available_status available = true
available_status locked = false
available_status booked = false

abbrev pub is_available : ScheduleSeat → Bool
is_available r = available_status r.status

-- `schedule_id = ANY(ids)`
abbrev pub of_any : List ℤ → ScheduleSeat → Bool
of_any ids r = mem_ℤ r.schedule_id ids

-- The two grouped queries, as functions of a schedule, 0 where its group is missing.
unfoldable pub total_in : List ℤ → List ScheduleSeat → ℤ → ℕ
total_in ids rows s = unwrap_or 0 (get_count s (group_counts (select_where (of_any ids) rows)))

unfoldable pub available_in : List ℤ → List ScheduleSeat → ℤ → ℕ
available_in ids rows s =
    unwrap_or 0
      (get_count s (group_counts (select_where is_available (select_where (of_any ids) rows))))

get_count-bump :
    (s t : ℤ) (groups : List (ℤ × ℕ))
    → unwrap_or 0 (get_count s (bump t groups))
      ≡ (if t ==ℤ s then 1 else 0) + unwrap_or 0 (get_count s groups)
unfolding get_count
get_count-bump s t [] = ground arith
get_count-bump s t ((u, n) ∷ groups) =
    ground (arith, get_count-bump s t groups, ==ℤ_iff u t, ==ℤ_iff t s, ==ℤ_iff u s)

get_count-group_counts :
    (s : ℤ) (rows : List ScheduleSeat)
    → unwrap_or 0 (get_count s (group_counts rows)) ≡ count_where (of_schedule s) rows
unfolding group_counts count_where get_count
get_count-group_counts s [] = refl
get_count-group_counts s (r ∷ rows) =
    get_count-bump s r.schedule_id (group_counts rows)
    ∙ ap (λ n. (if r.schedule_id ==ℤ s then 1 else 0) + n) (get_count-group_counts s rows)

count_where-select_where :
    (p q : ScheduleSeat → Bool) (rows : List ScheduleSeat)
    → ((r : ScheduleSeat) → q r ≡ true → p r ≡ true)
    → count_where q (select_where p rows) ≡ count_where q rows
unfolding count_where select_where
count_where-select_where p q [] h = refl
count_where-select_where p q (r ∷ rows) h =
    let ih = count_where-select_where p q rows h in
    elim (Bool-cases (p r)) [
      | inl e ↦ simp e (ap (λ n. (if q r then 1 else 0) + n) ih)
      | inr e ↦ ground (arith, e, h r, ih)
    ]

count_where_both :
    (p q : ScheduleSeat → Bool) (rows : List ScheduleSeat)
    → count_where q (select_where p rows) ≡ count_where (λ r. p r && q r) rows
unfolding count_where select_where
count_where_both p q [] = refl
count_where_both p q (r ∷ rows) = ground (arith, count_where_both p q rows)

-- An available seat of the schedule.
abbrev pub is_free_in : ℤ → ScheduleSeat → Bool
is_free_in s r = is_available r && of_schedule s r

in_any :
    (s : ℤ) (ids : List ℤ) (r : ScheduleSeat)
    → mem_ℤ s ids ≡ true
    → of_schedule s r ≡ true
    → of_any ids r ≡ true
in_any s ids r m e = ap (λ t. mem_ℤ t ids) ((==ℤ_iff r.schedule_id s).0 e) ∙ m

and_right : (a b : Bool) → (a && b) ≡ true → b ≡ true
and_right true b h = h
and_right false b h = cc h

-- The grouped queries count, for a schedule that was asked for, what one query for it alone would.
pub total_in_lem :
    (s : ℤ) (ids : List ℤ) (rows : List ScheduleSeat)
    → mem_ℤ s ids ≡ true
    → total_in ids rows s ≡ count_where (of_schedule s) rows
unfolding total_in
total_in_lem s ids rows m =
    get_count-group_counts s (select_where (of_any ids) rows)
    ∙ count_where-select_where (of_any ids) (of_schedule s) rows (λ r e. in_any s ids r m e)

pub available_in_lem :
    (s : ℤ) (ids : List ℤ) (rows : List ScheduleSeat)
    → mem_ℤ s ids ≡ true
    → available_in ids rows s ≡ count_where (is_free_in s) rows
unfolding available_in
available_in_lem s ids rows m =
    get_count-group_counts s (select_where is_available (select_where (of_any ids) rows))
    ∙ count_where_both is_available (of_schedule s) (select_where (of_any ids) rows)
    ∙ count_where-select_where (of_any ids) (is_free_in s) rows
        (λ r e. in_any s ids r m (and_right (is_available r) (of_schedule s r) e))

-- The two maps, and the schedules that the cache does not know.
pub record SeatCounts : Type 0 where
  pub totals : List (ℤ × ℤ)
  pub available : List (ℤ × ℤ)
  pub missing_schedule_ids : List ℤ

-- What the two cached values of one schedule add.
abbrev pub note : ℤ → Option ℤ → Option ℤ → SeatCounts → SeatCounts
note s (some total) (some free) c = record c {
  totals = (s, total) ∷ c.totals;
  available = (s, free) ∷ c.available;
}
note s (some total) none c = record c { missing_schedule_ids = c.missing_schedule_ids ++ (s ∷ []) }
note s none free c = record c { missing_schedule_ids = c.missing_schedule_ids ++ (s ∷ []) }

unfoldable pub read_cached : (ℤ → Option ℤ) → (ℤ → Option ℤ) → List ℤ → SeatCounts → SeatCounts
read_cached cached_total cached_available [] c = c
read_cached cached_total cached_available (s ∷ ids) c =
    read_cached cached_total cached_available ids (note s (cached_total s) (cached_available s) c)

-- What the answers of PostgreSQL add for the schedules that were missing.
unfoldable pub fill : (ℤ → ℕ) → List ℤ → List (ℤ × ℤ) → List (ℤ × ℤ)
fill count [] m = m
fill count (s ∷ ids) m = fill count ids ((s, pos (count s)) ∷ m)

abbrev pub no_counts : SeatCounts
no_counts = record { totals = []; available = []; missing_schedule_ids = [] }

abbrev pub is_nil {ℓ} : {A : Type ℓ} → List A → Bool
is_nil [] = true
is_nil (x ∷ xs) = false

-- With the counts of the rows, where some schedule is missing; none is a query that fails. The two grouped
-- queries are taken to see the same rows.
unfoldable pub complete : Option (List ScheduleSeat) → SeatCounts → Option SeatCounts
complete none c = if is_nil c.missing_schedule_ids then some c else none
complete (some rows) c = some (record c {
  totals = fill (total_in c.missing_schedule_ids rows) c.missing_schedule_ids c.totals;
  available = fill (available_in c.missing_schedule_ids rows) c.missing_schedule_ids c.available;
})

-- The counts, and so what is written back to the cache, for the schedules in `missing_schedule_ids`.
unfoldable pub load_schedule_seat_counts :
    (ℤ → Option ℤ) → (ℤ → Option ℤ) → Option (List ScheduleSeat) → List ℤ → Option SeatCounts
load_schedule_seat_counts cached_total cached_available rows ids =
    complete rows (read_cached cached_total cached_available ids no_counts)
