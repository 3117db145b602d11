-- ===== src/Schedules/Numbered.antt =====
-- The numbering of a schedule's seats: indices that count up from 1 and places of the hall that differ.
use bookit.Common.{
  ℕ, suc, ◌+◌, ◌≤◌, ◌≡◌, refl, sym, ap, subst, ◌∙◌, inl, inr, Bool, false, ◌||◌, List, [], ◌∷◌,
  ◌++◌, ℤ, ◌==◌, ◌==ℤ◌, ==ℤ_iff, ==ℤ_refl, length, map, append-nil, append_assoc, some, All, arith,
  Bool-cases,
}
use bookit.Schedules.Tables.{
  ScheduleSeat, NewScheduleSeat, seats_of, select_where, row_of, conflicts, insert_unless_conflict,
  insert_on_conflict_do_nothing, insert_all, Key, same_key, mem_key,
}

-- The index and the place of a seat.
abbrev pub Place : Type 0
Place = ℕ × Key

abbrev pub place : ScheduleSeat → Place
place r = (r.seat_index, (r.row_letter, r.seat_number))

abbrev pub new_place : NewScheduleSeat → Place
new_place x = (x.seat_index, (x.row_letter, x.seat_number))

-- Each index is one more than that before it, the first being `i`, and each place is new.
unfoldable pub Counts : ℕ → List Key → List Place → Type 0
Counts i seen [] = Unit
Counts i seen ((n, k) ∷ ps) = (n ≡ i) × ((mem_key k seen ≡ false) × Counts (suc i) (k ∷ seen) ps)

unfoldable pub keys_after : List Key → List Place → List Key
keys_after seen [] = seen
keys_after seen ((n, k) ∷ ps) = keys_after (k ∷ seen) ps

-- The seats of the schedule `s` are numbered from 1 without a gap, and no two have the same place.
unfoldable pub Numbered : ℤ → List ScheduleSeat → Type 0
Numbered s rows = Counts 1 [] (map place (seats_of s rows))

pub Counts-append :
    (i : ℕ) (seen : List Key) (ps qs : List Place)
    → Counts i seen ps
    → Counts (i + length ps) (keys_after seen ps) qs
    → Counts i seen (ps ++ qs)
unfolding Counts keys_after
Counts-append i seen [] qs c d =
    let e : i + 0 ≡ i = omega arith in subst (λ j. Counts j seen qs) (e) d
Counts-append i seen ((n, k) ∷ ps) qs c d =
    let e : i + suc (length ps) ≡ suc i + length ps = omega arith in
    (
      c.0,
      (
        c.1.0,
        Counts-append (suc i) (k ∷ seen) ps qs c.1.1
            (subst (λ j. Counts j (keys_after (k ∷ seen) ps) qs) (e) d),
      ),
    )

pub keys_after-append :
    (seen : List Key) (ps qs : List Place)
    → keys_after seen (ps ++ qs) ≡ keys_after (keys_after seen ps) qs
unfolding keys_after
keys_after-append seen [] qs = refl
keys_after-append seen ((n, k) ∷ ps) qs = keys_after-append (k ∷ seen) ps qs

-- The place that comes next is new, and its index above those before.
above :
    (i : ℕ) (seen : List Key) (ps qs : List Place) (n : ℕ) (k : Key)
    → Counts i seen (ps ++ ((n, k) ∷ qs))
    → (i ≤ n) × (mem_key k seen ≡ false)
unfolding Counts mem_key
above i seen [] qs n k c = (omega (arith, c.0), c.1.0)
above i seen ((m, j) ∷ ps) qs n k c =
    let rest = above (suc i) (j ∷ seen) ps qs n k c.1.1 in
    (omega (arith, rest.0), ground (arith, rest.1))

-- Whether a place or its index is taken.
unfoldable pub taken : Place → List Place → Bool
taken p [] = false
taken (n, k) ((m, j) ∷ ps) = ((m == n) || same_key j k) || taken (n, k) ps

not_taken :
    (i : ℕ) (seen : List Key) (ps qs : List Place) (n : ℕ) (k : Key)
    → Counts i seen (ps ++ ((n, k) ∷ qs))
    → taken (n, k) ps ≡ false
unfolding Counts taken mem_key
not_taken i seen [] qs n k c = refl
not_taken i seen ((m, j) ∷ ps) qs n k c =
    let later = above (suc i) (j ∷ seen) ps qs n k c.1.1 in
    ground (arith, c.0, later.0, later.1, not_taken (suc i) (j ∷ seen) ps qs n k c.1.1)

pub map-append :
    {A B : Type 0} (f : A → B) (xs ys : List A) → map f (xs ++ ys) ≡ map f xs ++ map f ys
map-append f [] ys = refl
map-append f (x ∷ xs) ys = ap (λ l. f x ∷ l) (map-append f xs ys)

pub seats_of-append :
    (s : ℤ) (rows more : List ScheduleSeat)
    → seats_of s (rows ++ more) ≡ seats_of s rows ++ seats_of s more
unfolding seats_of select_where
seats_of-append s [] more = refl
seats_of-append s (r ∷ rows) more = ground (arith, seats_of-append s rows more)

-- The places of the seats of `s`.
abbrev pub places : ℤ → List ScheduleSeat → List Place
places s rows = map place (seats_of s rows)

pub places-append :
    (s : ℤ) (rows more : List ScheduleSeat)
    → places s (rows ++ more) ≡ places s rows ++ places s more
places-append s rows more =
    ap (map place) (seats_of-append s rows more)
    ∙ map-append place (seats_of s rows) (seats_of s more)

conflicts-taken :
    (x : NewScheduleSeat) (rows : List ScheduleSeat)
    → conflicts x rows ≡ taken (new_place x) (places x.schedule_id rows)
unfolding conflicts taken seats_of select_where
conflicts-taken x [] = refl
conflicts-taken x (r ∷ rows) = ground (arith, conflicts-taken x rows)

places_own :
    (n : ℕ) (x : NewScheduleSeat) → places x.schedule_id (row_of n x ∷ []) ≡ new_place x ∷ []
unfolding seats_of select_where
places_own n x = simp (==ℤ_refl x.schedule_id) refl

places-snoc :
    (s : ℤ) (n : ℕ) (x : NewScheduleSeat) (qs : List Place) (rows : List ScheduleSeat)
    → x.schedule_id ≡ s
    → places s (rows ++ (row_of n x ∷ [])) ++ qs ≡ places s rows ++ (new_place x ∷ qs)
places-snoc s n x qs rows e =
    let own : places s (row_of n x ∷ []) ≡ new_place x ∷ [] =
      subst (λ t. places t (row_of n x ∷ []) ≡ new_place x ∷ []) (e) (places_own n x) in
    ap (λ l. l ++ qs) (places-append s rows (row_of n x ∷ []) ∙ ap (λ l. places s rows ++ l) own)
    ∙ append_assoc (places s rows) (new_place x ∷ []) qs

places_other :
    (s : ℤ) (n : ℕ) (x : NewScheduleSeat)
    → (x.schedule_id ==ℤ s) ≡ false
    → places s (row_of n x ∷ []) ≡ []
unfolding seats_of select_where
places_other s n x h = simp h refl

-- The rows of new seats, whose ids count up.
unfoldable pub rows_from : ℕ → List NewScheduleSeat → List ScheduleSeat
rows_from n [] = []
rows_from n (x ∷ xs) = row_of n x ∷ rows_from (n + 1) xs

-- All the new seats are of one schedule.
abbrev pub OfSchedule : ℤ → List NewScheduleSeat → Type 0
OfSchedule s = All (λ x. x.schedule_id ≡ s)

no_conflict :
    (s : ℤ) (x : NewScheduleSeat) (qs : List Place) (rows : List ScheduleSeat)
    → x.schedule_id ≡ s
    → Counts 1 [] (places s rows ++ (new_place x ∷ qs))
    → conflicts x rows ≡ false
no_conflict s x qs rows e c =
    conflicts-taken x rows
    ∙ not_taken 1 [] (places x.schedule_id rows) qs x.seat_index (x.row_letter, x.seat_number)
        (subst (λ t. Counts 1 [] (places t rows ++ (new_place x ∷ qs))) (sym e) c)

continued :
    (s : ℤ) (n : ℕ) (x : NewScheduleSeat) (qs : List Place) (rows : List ScheduleSeat)
    → x.schedule_id ≡ s
    → Counts 1 [] (places s rows ++ (new_place x ∷ qs))
    → Counts 1 [] (places s (rows ++ (row_of n x ∷ [])) ++ qs)
continued s n x qs rows e c = subst (Counts 1 []) (sym (places-snoc s n x qs rows e)) c

-- Seats that continue the numbering conflict with no row: each of them is inserted.
pub inserts_each :
    (s : ℤ) (n : ℕ) (xs : List NewScheduleSeat) (rows : List ScheduleSeat)
    → OfSchedule s xs
    → Counts 1 [] (places s rows ++ map new_place xs)
    → (insert_on_conflict_do_nothing n xs rows ≡ rows ++ rows_from n xs)
      × (insert_all n xs rows ≡ some (rows ++ rows_from n xs))
unfolding insert_on_conflict_do_nothing insert_all insert_unless_conflict rows_from
inserts_each s n [] rows own c = (sym (append-nil rows), ap some (sym (append-nil rows)))
inserts_each s n (x ∷ xs) rows own c =
    let no = no_conflict s x (map new_place xs) rows own.0 c in
    let ih =
      inserts_each s (n + 1) xs (rows ++ (row_of n x ∷ [])) own.1
        (continued s n x (map new_place xs) rows own.0 c) in
    let shift = append_assoc rows (row_of n x ∷ []) (rows_from (n + 1) xs) in
    (simp no (ih.0 ∙ shift), simp no (ih.1 ∙ ap some shift))

pub places-rows_from :
    (s : ℤ) (n : ℕ) (xs : List NewScheduleSeat)
    → OfSchedule s xs
    → places s (rows_from n xs) ≡ map new_place xs
unfolding rows_from seats_of select_where
places-rows_from s n [] own = refl
places-rows_from s n (x ∷ xs) own =
    let ih = places-rows_from s (n + 1) xs own.1 in
    simp (own.0, ==ℤ_refl s) (ap (λ l. new_place x ∷ l) ih)

pub seats_of-rows_from :
    (s t : ℤ) (n : ℕ) (xs : List NewScheduleSeat)
    → OfSchedule s xs
    → (s ==ℤ t) ≡ false
    → seats_of t (rows_from n xs) ≡ []
unfolding seats_of select_where rows_from
seats_of-rows_from s t n [] own h = refl
seats_of-rows_from s t n (x ∷ xs) own h =
    let ih = seats_of-rows_from s t (n + 1) xs own.1 h in simp (own.0, h) ih

-- What the insertion of seats that continue the numbering of `s` does to every schedule.
pub rows_from-Numbered :
    (s t : ℤ) (n : ℕ) (xs : List NewScheduleSeat) (rows : List ScheduleSeat)
    → OfSchedule s xs
    → Counts 1 [] (places s rows ++ map new_place xs)
    → Numbered t rows
    → Numbered t (rows ++ rows_from n xs)
unfolding Numbered
rows_from-Numbered s t n xs rows own c old = elim (Bool-cases (s ==ℤ t)) [
  | inl e ↦
      let same : s ≡ t = (==ℤ_iff s t).0 e in
      subst (λ u. Counts 1 [] (places u (rows ++ rows_from n xs))) (same)
        (subst (Counts 1 [])
          (sym (
            places-append s rows (rows_from n xs)
            ∙ ap (λ l. places s rows ++ l) (places-rows_from s n xs own)))
          c)
  | inr e ↦
      subst (Counts 1 [])
        (sym (
          places-append t rows (rows_from n xs)
          ∙ ap (λ l. places t rows ++ map place l) (seats_of-rows_from s t n xs own e)
          ∙ append-nil (places t rows)))
        old
]
