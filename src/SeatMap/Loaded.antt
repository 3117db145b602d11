-- ===== src/SeatMap/Loaded.antt =====
-- What `load_schedule_seat_counts` answers for a schedule that was asked for.
use bookit.Common.{
  ℕ, ◌≡◌, refl, ap, ◌∙◌, inl, inr, Bool, true, false, ◌&&◌, ◌||◌, not, Option, none, some, List, [],
  ◌∷◌, ◌++◌, ℤ, pos, ◌==ℤ◌, ==ℤ_iff, if◌then◌else◌, arith, Bool-cases,
}
use bookit.Payment.Tables.{mem_ℤ, count_where, is_found}
use bookit.Schedules.Tables.{ScheduleSeat, of_schedule}
use bookit.SeatMap.Counts.{
  get_count, SeatCounts, note, read_cached, fill, complete, no_counts, load_schedule_seat_counts,
  total_in, available_in, total_in_lem, available_in_lem, is_free_in,
}

-- Both values of a schedule are in the cache.
abbrev pub both_cached : Option ℤ → Option ℤ → Bool
both_cached t a = is_found t && is_found a

-- The value of the cache where both are there, else the count of the rows.
abbrev pub expected : Bool → Option ℤ → ℕ → Option ℤ
expected true cached n = cached
expected false cached n = some (pos n)

mem_ℤ-snoc : (s u : ℤ) (ids : List ℤ) → mem_ℤ s (ids ++ (u ∷ [])) ≡ ((u ==ℤ s) || mem_ℤ s ids)
mem_ℤ-snoc s u [] = refl
mem_ℤ-snoc s u (t ∷ ids) = ground (arith, mem_ℤ-snoc s u ids)

get_count-note :
    (s u : ℤ) (t a : Option ℤ) (c : SeatCounts)
    → (get_count s (note u t a c).totals
        ≡ (if (u ==ℤ s) && both_cached t a then t else get_count s c.totals))
      × ((get_count s (note u t a c).available
            ≡ (if (u ==ℤ s) && both_cached t a then a else get_count s c.available))
          × (mem_ℤ s (note u t a c).missing_schedule_ids
              ≡ (((u ==ℤ s) && not (both_cached t a)) || mem_ℤ s c.missing_schedule_ids)))
unfolding get_count
get_count-note s u (some t) (some a) c = (ground arith, (ground arith, ground arith))
get_count-note s u (some t) none c =
    (ground arith, (ground arith, ground (arith, mem_ℤ-snoc s u c.missing_schedule_ids)))
get_count-note s u none a c =
    (ground arith, (ground arith, ground (arith, mem_ℤ-snoc s u c.missing_schedule_ids)))

module _ (cached_total cached_available : ℤ → Option ℤ) (s : ℤ) where
  abbrev hit : Bool
  hit = both_cached (cached_total s) (cached_available s)

  read_cached_lem :
      (ids : List ℤ) (c : SeatCounts)
      → (get_count s (read_cached cached_total cached_available ids c).totals
          ≡ (if mem_ℤ s ids && hit then cached_total s else get_count s c.totals))
        × ((get_count s (read_cached cached_total cached_available ids c).available
              ≡ (if mem_ℤ s ids && hit then cached_available s else get_count s c.available))
            × (mem_ℤ s (read_cached cached_total cached_available ids c).missing_schedule_ids
                ≡ ((mem_ℤ s ids && not hit) || mem_ℤ s c.missing_schedule_ids)))
  unfolding read_cached
  read_cached_lem [] c = (refl, (refl, refl))
  read_cached_lem (u ∷ ids) c =
      let ih = read_cached_lem ids (note u (cached_total u) (cached_available u) c) in
      let one = get_count-note s u (cached_total u) (cached_available u) c in
      elim (Bool-cases (u ==ℤ s)) [
        | inl e ↦
            let same : u ≡ s = (==ℤ_iff u s).0 e in
            let t : cached_total u ≡ cached_total s = ap cached_total same in
            let a : cached_available u ≡ cached_available s = ap cached_available same in
            (
              ground (arith, e, ih.0, one.0, t, a),
              (ground (arith, e, ih.1.0, one.1.0, t, a), ground (arith, e, ih.1.1, one.1.1, t, a)),
            )
        | inr e ↦ (
          ground (arith, e, ih.0, one.0),
          (ground (arith, e, ih.1.0, one.1.0), ground (arith, e, ih.1.1, one.1.1)),
        )
      ]

get_count-fill :
    (count : ℤ → ℕ) (s : ℤ) (ids : List ℤ) (m : List (ℤ × ℤ))
    → get_count s (fill count ids m) ≡ (if mem_ℤ s ids then some (pos (count s)) else get_count s m)
unfolding fill get_count
get_count-fill count s [] m = refl
get_count-fill count s (u ∷ ids) m =
    get_count-fill count s ids ((u, pos (count u)) ∷ m) ∙ elim (Bool-cases (u ==ℤ s)) [
      | inl e ↦
          let same : count u ≡ count s = ap count ((==ℤ_iff u s).0 e) in ground (arith, e, same)
      | inr e ↦ ground (arith, e)
    ]

filled_value :
    (hit mem : Bool) (count : ℕ) (n : ℕ) (cached value : Option ℤ)
    → mem ≡ not hit
    → (mem ≡ true → count ≡ n)
    → value ≡ (if hit then cached else none)
    → (if mem then some (pos count) else value) ≡ expected hit cached n
filled_value true mem count n cached value e f v = ground (arith, e, v)
filled_value false true count n cached value e f v = ap (λ k. some (pos k)) (f refl)
filled_value false false count n cached value e f v = cc e

-- With rows that PostgreSQL answers there is an answer, and for a schedule that was asked for it has
-- the two values of the cache where both are there, and else the numbers of its rows and of its
-- available rows.
pub load_schedule_seat_counts_lem :
    (cached_total cached_available : ℤ → Option ℤ) (rows : List ScheduleSeat) (ids : List ℤ) (s : ℤ)
    → mem_ℤ s ids ≡ true
    → (c : SeatCounts) × ((load_schedule_seat_counts cached_total cached_available (some rows) ids
          ≡ some c)
        × ((get_count s c.totals
              ≡ expected
                  (both_cached (cached_total s) (cached_available s))
                  (cached_total s)
                  (count_where (of_schedule s) rows))
            × (get_count s c.available
                ≡ expected
                    (both_cached (cached_total s) (cached_available s))
                    (cached_available s)
                    (count_where (is_free_in s) rows))))
unfolding load_schedule_seat_counts complete get_count
load_schedule_seat_counts_lem cached_total cached_available rows ids s m =
    let r = read_cached cached_total cached_available ids no_counts in
    let h : Bool = both_cached (cached_total s) (cached_available s) in
    let lem = read_cached_lem cached_total cached_available s ids no_counts in
    let missing : mem_ℤ s r.missing_schedule_ids ≡ not h = ground (arith, m, lem.1.1) in
    let total : get_count s r.totals ≡ (if h then cached_total s else none) =
      lem.0 ∙ ap (λ b. if b && h then cached_total s else none) m in
    let free : get_count s r.available ≡ (if h then cached_available s else none) =
      lem.1.0 ∙ ap (λ b. if b && h then cached_available s else none) m in
    (
      _,
      (
        refl,
        (
          get_count-fill (total_in r.missing_schedule_ids rows) s r.missing_schedule_ids r.totals
              ∙ filled_value h _ _ _ _ _ missing (total_in_lem s r.missing_schedule_ids rows) total,
          get_count-fill (available_in r.missing_schedule_ids rows) s r.missing_schedule_ids
                r.available
              ∙ filled_value h _ _ _ _ _ missing (available_in_lem s r.missing_schedule_ids rows)
                  free,
        ),
      ),
    )
