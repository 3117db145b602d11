-- ===== src/Payment/Intent.antt =====
-- `same_payment_intent` of apps/http-server/src/api/user/payments.rs, and `parse_seat_ids` of
-- apps/payment-processor/src/consumer.rs.
use bookit.Common.{
  ℕ, ◌+◌, ◌-◌, ◌^◌, ◌%◌, ◌≡◌, ◌↔◌, refl, sym, ap, ◌∙◌, inl, inr, Bool, true, false, ◌&&◌, Option,
  none, some, List, [], ◌∷◌, ℤ, pos, negsuc, ◌==ℤ◌, ==ℤ_iff, ==ℤ_refl, leb_ℤ, as_u64, ltb,
  if◌then◌else◌, All, arith, Bool-cases,
}

-- `sort_unstable` of equal numbers has one result; the standard library does not promise how it gets it.
unfoldable pub insert_sorted : ℤ → List ℤ → List ℤ
insert_sorted x [] = x ∷ []
insert_sorted x (y ∷ ys) = if leb_ℤ x y then x ∷ y ∷ ys else y ∷ insert_sorted x ys

unfoldable pub sort_unstable : List ℤ → List ℤ
sort_unstable [] = []
sort_unstable (x ∷ xs) = insert_sorted x (sort_unstable xs)

abbrev pub same_list : List ℤ → List ℤ → Bool
same_list [] [] = true
same_list (x ∷ xs) (y ∷ ys) = (x ==ℤ y) && same_list xs ys
same_list [] (y ∷ ys) = false
same_list (x ∷ xs) [] = false

unfoldable pub same_payment_intent : ℤ → List ℤ → ℤ → List ℤ → Bool
same_payment_intent existing_schedule_id existing_seats requested_schedule_id requested_seats =
    if existing_schedule_id ==ℤ requested_schedule_id
    then same_list (sort_unstable existing_seats) (sort_unstable requested_seats)
    else false

abbrev pub occurrences : ℤ → List ℤ → ℕ
occurrences x [] = 0
occurrences x (y ∷ ys) = (if y ==ℤ x then 1 else 0) + occurrences x ys

same_list_iff : (xs ys : List ℤ) → (same_list xs ys ≡ true) ↔ (xs ≡ ys)
same_list_iff [] [] = ground arith
same_list_iff [] (y ∷ ys) = ground arith
same_list_iff (x ∷ xs) [] = ground arith
same_list_iff (x ∷ xs) (y ∷ ys) = ground (arith, ==ℤ_iff x y, same_list_iff xs ys)

occurrences-insert_sorted :
    (v x : ℤ) (xs : List ℤ) → occurrences v (insert_sorted x xs) ≡ occurrences v (x ∷ xs)
unfolding insert_sorted
occurrences-insert_sorted v x [] = refl
occurrences-insert_sorted v x (y ∷ ys) = ground (arith, occurrences-insert_sorted v x ys)

occurrences-sort_unstable :
    (v : ℤ) (xs : List ℤ) → occurrences v (sort_unstable xs) ≡ occurrences v xs
unfolding sort_unstable
occurrences-sort_unstable v [] = refl
occurrences-sort_unstable v (x ∷ xs) =
    omega (arith, occurrences-insert_sorted v x (sort_unstable xs), occurrences-sort_unstable v xs)

-- Every element is at least a bound.
abbrev Above : ℤ → List ℤ → Type 0
Above a = All (λ x. leb_ℤ a x ≡ true)

abbrev Sorted : List ℤ → Type 0
Sorted [] = Unit
Sorted (x ∷ xs) = Above x xs × Sorted xs

leb_ℤ-trans : (a b c : ℤ) → leb_ℤ a b ≡ true → leb_ℤ b c ≡ true → leb_ℤ a c ≡ true
leb_ℤ-trans a b c h k = ground arith

leb_ℤ-refl : (a : ℤ) → leb_ℤ a a ≡ true
leb_ℤ-refl a = ground arith

leb_ℤ-antisym : (a b : ℤ) → leb_ℤ a b ≡ true → leb_ℤ b a ≡ true → a ≡ b
leb_ℤ-antisym (pos m) (pos n) h k = ground arith
leb_ℤ-antisym (pos m) (negsuc n) h k = absurd (ground arith)
leb_ℤ-antisym (negsuc m) (pos n) h k = absurd (ground arith)
leb_ℤ-antisym (negsuc m) (negsuc n) h k = ground arith

leb_ℤ-total : (a b : ℤ) → leb_ℤ a b ≡ false → leb_ℤ b a ≡ true
leb_ℤ-total a b h = ground arith

Above-weaken : (a b : ℤ) (xs : List ℤ) → leb_ℤ a b ≡ true → Above b xs → Above a xs
Above-weaken a b [] h k = tt
Above-weaken a b (x ∷ xs) h k = (leb_ℤ-trans a b x h k.0, Above-weaken a b xs h k.1)

Above-insert_sorted :
    (a x : ℤ) (xs : List ℤ) → leb_ℤ a x ≡ true → Above a xs → Above a (insert_sorted x xs)
unfolding insert_sorted
Above-insert_sorted a x [] h k = (h, tt)
Above-insert_sorted a x (y ∷ ys) h k = elim (Bool-cases (leb_ℤ x y)) [
  | inl e ↦ rw e (h, (k.0, k.1))
  | inr e ↦ rw e (k.0, Above-insert_sorted a x ys h k.1)
]

insert_sorted-Sorted : (x : ℤ) (xs : List ℤ) → Sorted xs → Sorted (insert_sorted x xs)
unfolding insert_sorted
insert_sorted-Sorted x [] s = (tt, tt)
insert_sorted-Sorted x (y ∷ ys) s = elim (Bool-cases (leb_ℤ x y)) [
  | inl e ↦ rw e ((e, Above-weaken x y ys e s.0), (s.0, s.1))
  | inr e ↦ rw e (Above-insert_sorted y x ys (leb_ℤ-total x y e) s.0, insert_sorted-Sorted x ys s.1)
]

sort_unstable-Sorted : (xs : List ℤ) → Sorted (sort_unstable xs)
unfolding sort_unstable
sort_unstable-Sorted [] = tt
sort_unstable-Sorted (x ∷ xs) = insert_sorted-Sorted x (sort_unstable xs) (sort_unstable-Sorted xs)

occurrences-below : (a x : ℤ) (xs : List ℤ) → Above a xs → leb_ℤ a x ≡ false → occurrences x xs ≡ 0
occurrences-below a x [] h k = refl
occurrences-below a x (y ∷ ys) h k = elim (Bool-cases (y ==ℤ x)) [
  | inl e ↦ let same : y ≡ x = (==ℤ_iff y x).0 e in absurd (ground (arith, same, h.0, k))
  | inr e ↦ rw e (omega (arith, occurrences-below a x ys h.1 k))
]

head-Sorted :
    (x y : ℤ) (xs ys : List ℤ)
    → Above y ys
    → ((v : ℤ) → occurrences v (x ∷ xs) ≡ occurrences v (y ∷ ys))
    → leb_ℤ y x ≡ true
head-Sorted x y xs ys h same = elim (Bool-cases (leb_ℤ y x)) [
  | inl e ↦ e
  | inr e ↦ absurd (
      ground (
        arith,
        same x,
        ==ℤ_refl x,
        ==ℤ_iff y x,
        occurrences-below y x (y ∷ ys) (leb_ℤ-refl y, h) e,
      ))
]

Sorted-unique :
    (xs ys : List ℤ)
    → Sorted xs
    → Sorted ys
    → ((v : ℤ) → occurrences v xs ≡ occurrences v ys)
    → xs ≡ ys
Sorted-unique [] [] s t same = refl
Sorted-unique [] (y ∷ ys) s t same = absurd (ground (arith, same y, ==ℤ_refl y))
Sorted-unique (x ∷ xs) [] s t same = absurd (ground (arith, same x, ==ℤ_refl x))
Sorted-unique (x ∷ xs) (y ∷ ys) s t same =
    let e : x ≡ y =
      leb_ℤ-antisym x y (head-Sorted y x ys xs s.0 (λ v. sym (same v)))
        (head-Sorted x y xs ys t.0 same) in
    let rest : xs ≡ ys = Sorted-unique xs ys s.1 t.1 (λ v. ground (arith, same v, e)) in
    cc (e, rest)

sort_unstable_iff :
    (xs ys : List ℤ)
    → (sort_unstable xs ≡ sort_unstable ys) ↔ ((v : ℤ) → occurrences v xs ≡ occurrences v ys)
sort_unstable_iff xs ys = (
  λ e v.
      sym (occurrences-sort_unstable v xs) ∙ ap (occurrences v) e ∙ occurrences-sort_unstable v ys,
  λ same.
      Sorted-unique (sort_unstable xs) (sort_unstable ys) (sort_unstable-Sorted xs)
        (sort_unstable-Sorted ys)
        (λ v. occurrences-sort_unstable v xs ∙ same v ∙ sym (occurrences-sort_unstable v ys)),
)

-- Two payment requests count as the same intent exactly if they name the same schedule and, in any
-- order, the same seats with the same multiplicities.
pub same_payment_intent_iff :
    (s t : ℤ) (xs ys : List ℤ)
    → (same_payment_intent s xs t ys ≡ true)
      ↔ ((s ≡ t) × ((v : ℤ) → occurrences v xs ≡ occurrences v ys))
unfolding same_payment_intent
same_payment_intent_iff s t xs ys = elim (Bool-cases (s ==ℤ t)) [
  | inl e ↦ rw e (
    λ h. ((==ℤ_iff s t).0 e, (sort_unstable_iff xs ys).0 ((same_list_iff _ _).0 h)),
    λ h. (same_list_iff _ _).1 ((sort_unstable_iff xs ys).1 h.1),
  )
  | inr e ↦ rw e (λ h. absurd (cc h), λ h. absurd (cc (e, (==ℤ_iff s t).1 h.0)))
]

-- The members of a message that `parse_seat_ids` reads: `seat_ids` where it is an array, each element
-- as the i64 that it is, and `seat_id` where it is an i64.
pub record SeatPayload : Type 0 where
  pub seat_ids : Option (List (Option ℤ))
  pub seat_id : Option ℤ

-- `x as i32`
unfoldable pub as_i32 : ℤ → ℤ
as_i32 x = let u = as_u64 x % 2 ^ 32 in if ltb u (2 ^ 31) then pos u else negsuc (2 ^ 32 - 1 - u)

-- `filter_map(|v| v.as_i64().map(|x| x as i32))`
unfoldable pub i32s_of : List (Option ℤ) → List ℤ
i32s_of [] = []
i32s_of (none ∷ vs) = i32s_of vs
i32s_of (some x ∷ vs) = as_i32 x ∷ i32s_of vs

unfoldable pub parse_seat_ids : SeatPayload → List ℤ
parse_seat_ids p = elim p.seat_ids [
  | some arr ↦ i32s_of arr
  | none ↦ elim p.seat_id [ some id ↦ as_i32 id ∷ [] | none ↦ [] ]
]
