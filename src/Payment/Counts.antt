-- ===== src/Payment/Counts.antt =====
-- Lemmas on the statements over rows: what an UPDATE does to a COUNT, and what a SELECT that finds
-- nothing says of it.
use bookit.Common.{
  ℕ, ◌+◌, ◌≤◌, ◌≡◌, refl, inl, inr, Bool, true, false, ◌&&◌, List, [], ◌∷◌, if◌then◌else◌, arith,
  Bool-cases, All,
}
use bookit.Payment.Tables.{update_where, count_where, find_where, is_found}

-- 1 or 0
abbrev pub tally : Bool → ℕ
tally b = if b then 1 else 0

module _ {ℓ} {A : Type ℓ} where
  pub count_where-find_where :
      (p : A → Bool) (xs : List A) → is_found (find_where p xs) ≡ false → count_where p xs ≡ 0
  unfolding count_where find_where
  count_where-find_where p [] h = refl
  count_where-find_where p (x ∷ xs) h = elim (Bool-cases (p x)) [
    | inl e ↦ absurd (cc (rw e at h))
    | inr e ↦ rw e (omega (arith, count_where-find_where p xs (rw e at h)))
  ]

  pub count_where-find_where_some :
      (p : A → Bool) (xs : List A) → is_found (find_where p xs) ≡ true → 1 ≤ count_where p xs
  unfolding count_where find_where
  count_where-find_where_some p [] h = absurd (cc h)
  count_where-find_where_some p (x ∷ xs) h = elim (Bool-cases (p x)) [
    | inl e ↦ rw e (omega arith)
    | inr e ↦ rw e (omega (arith, count_where-find_where_some p xs (rw e at h)))
  ]

  -- An update that a test does not see.
  pub count_where-update_where :
      (q p : A → Bool) (f : A → A) (xs : List A)
      → ((x : A) → p x ≡ true → q (f x) ≡ q x)
      → count_where q (update_where p f xs) ≡ count_where q xs
  unfolding count_where update_where
  count_where-update_where q p f [] h = refl
  count_where-update_where q p f (x ∷ xs) h = elim (Bool-cases (p x)) [
    | inl e ↦ rw e (rw (h x e) (omega (arith, count_where-update_where q p f xs h)))
    | inr e ↦ rw e (omega (arith, count_where-update_where q p f xs h))
  ]

  pub count_where-update_where_le :
      (q p : A → Bool) (f : A → A) (xs : List A)
      → ((x : A) → tally (q (f x)) ≤ tally (q x))
      → count_where q (update_where p f xs) ≤ count_where q xs
  unfolding count_where update_where
  count_where-update_where_le q p f [] h = omega arith
  count_where-update_where_le q p f (x ∷ xs) h = elim (Bool-cases (p x)) [
    | inl e ↦ rw e (omega (arith, h x, count_where-update_where_le q p f xs h))
    | inr e ↦ rw e (omega (arith, count_where-update_where_le q p f xs h))
  ]

  pub count_where-update_where_ge :
      (q p : A → Bool) (f : A → A) (xs : List A)
      → ((x : A) → tally (q x) ≤ tally (q (f x)))
      → count_where q xs ≤ count_where q (update_where p f xs)
  unfolding count_where update_where
  count_where-update_where_ge q p f [] h = omega arith
  count_where-update_where_ge q p f (x ∷ xs) h = elim (Bool-cases (p x)) [
    | inl e ↦ rw e (omega (arith, h x, count_where-update_where_ge q p f xs h))
    | inr e ↦ rw e (omega (arith, count_where-update_where_ge q p f xs h))
  ]

  -- An update that takes every row that it touches out of a test.
  pub count_where-update_where_self :
      (p : A → Bool) (f : A → A) (xs : List A)
      → ((x : A) → p (f x) ≡ false)
      → count_where p (update_where p f xs) ≡ 0
  unfolding count_where update_where
  count_where-update_where_self p f [] h = refl
  count_where-update_where_self p f (x ∷ xs) h = elim (Bool-cases (p x)) [
    | inl e ↦ rw e (rw (h x) (omega (arith, count_where-update_where_self p f xs h)))
    | inr e ↦ rw e (rw e (omega (arith, count_where-update_where_self p f xs h)))
  ]

  -- An update that puts the rows that it touches, and only those, under a test.
  pub count_where-update_where_into :
      (q p : A → Bool) (f : A → A) (xs : List A)
      → ((x : A) → q (if p x then f x else x) ≡ p x)
      → count_where q (update_where p f xs) ≡ count_where p xs
  unfolding count_where update_where
  count_where-update_where_into q p f [] h = refl
  count_where-update_where_into q p f (x ∷ xs) h =
      rw (h x) (omega (arith, count_where-update_where_into q p f xs h))

  pub count_where-if :
      (q : A → Bool) (b : Bool) (x : A) (xs : List A)
      → count_where q (if b then x ∷ xs else xs) ≡ tally (b && q x) + count_where q xs
  unfolding count_where
  count_where-if q true x xs = refl
  count_where-if q false x xs = omega arith

  pub All-update_where {κ} :
      (P : A → Type κ) (p : A → Bool) (f : A → A) (xs : List A)
      → ((x : A) → P x → P (f x))
      → All P xs
      → All P (update_where p f xs)
  unfolding update_where
  All-update_where P p f [] h k = tt
  All-update_where P p f (x ∷ xs) h k = (
    elim (Bool-cases (p x)) [ inl e ↦ rw e (h x k.0) | inr e ↦ rw e k.0 ],
    All-update_where P p f xs h k.1,
  )
