-- ===== src/Gateway/Admission.antt =====
-- The operations on a show's slots in any order (apps/gateway-keeper/src/state_active.rs): each of
-- these steps is one atomic operation on a slot, done by whichever request comes next.
use bookit.Common.{
  ℕ, ◌+◌, ◌≤◌, ◌≡◌, inl, inr, Bool, false, Option, none, some, List, [], ◌∷◌, ℤ, ◌==◌,
  if◌then◌else◌, arith, Option-cases,
}
use bookit.Gateway.Actor.{Actor, state_available, register_seat, try_admit, clear_seat}
use bookit.Gateway.Registry.{
  IsConsistent, register_seat_outcome, register_seat-IsConsistent, try_admit-IsConsistent,
  clear_seat-IsConsistent,
}

pub data Step : Type 0 where
  register : ℤ → ℤ → Step
  admit : ℕ → Step
  clear : ℤ → Step

unfoldable pub step : Step → Actor → Actor
step (register s x) a = (register_seat s x a).0
step (admit i) a = (try_admit i a).0
step (clear s) a = clear_seat s a

unfoldable pub run : List Step → Actor → Actor
run [] a = a
run (x ∷ xs) a = run xs (step x a)

-- 1 where the slot admits the next request
unfoldable pub room : ℕ → Actor → ℕ
room i a = if (a.seat_states i).state == state_available then 1 else 0

abbrev pub one_if : Bool → ℕ
one_if b = if b then 1 else 0

abbrev pub is_slot : ℕ → Option ℕ → Bool
is_slot i none = false
is_slot i (some j) = j == i

-- The requests that a step admits to the slot, 1 or 0, and the times it clears the slot.
unfoldable pub admits : ℕ → Step → Actor → ℕ
admits i (register s x) a = 0
admits i (admit j) a = if j == i then one_if (try_admit j a).1 else 0
admits i (clear s) a = 0

unfoldable pub clears : ℕ → Step → Actor → ℕ
clears i (register s x) a = 0
clears i (admit j) a = 0
clears i (clear s) a = one_if (is_slot i (a.seat_indices s))

unfoldable pub total : (Step → Actor → ℕ) → List Step → Actor → ℕ
total f [] a = 0
total f (x ∷ xs) a = f x a + total f xs (step x a)

module _ (i : ℕ) where
  clear_seat-room :
      (s : ℤ) (a : Actor)
      → room i (clear_seat s a) ≤ one_if (is_slot i (a.seat_indices s)) + room i a
  unfolding clear_seat room
  clear_seat-room s a = elim (Option-cases (a.seat_indices s)) [
    | inl m ↦ rw m ground arith
    | inr (j, m) ↦ rw m ground arith
  ]

  room-same :
      (b a : Actor) → (b.seat_states i).state ≡ (a.seat_states i).state → room i b ≤ room i a
  unfolding room
  room-same b a h = ground (arith, h)

  step-room :
      (x : Step) (a : Actor)
      → IsConsistent a
      → admits i x a + room i (step x a) ≤ clears i x a + room i a
  unfolding step admits clears room try_admit
  step-room (register s x) a c =
      omega (arith, room-same (register_seat s x a).0 a ((register_seat_outcome s x a c).2 i))
  step-room (admit j) a c = ground arith
  step-room (clear s) a c = omega (arith, clear_seat-room s a)

  step-IsConsistent : (x : Step) (a : Actor) → IsConsistent a → IsConsistent (step x a)
  unfolding step
  step-IsConsistent (register s x) a c = register_seat-IsConsistent s x a c
  step-IsConsistent (admit j) a c = try_admit-IsConsistent a c j
  step-IsConsistent (clear s) a c = clear_seat-IsConsistent a c s

  -- In every sequence of registrations, admissions and clears from a consistent actor, a slot admits
  -- at most one request more than it is cleared, and no more than it is cleared where the sequence
  -- starts with the slot taken; what is left of the difference is that the slot ends free.
  pub run-admits :
      (xs : List Step) (a : Actor)
      → IsConsistent a
      → total (admits i) xs a + room i (run xs a) ≤ total (clears i) xs a + room i a
  unfolding total run
  run-admits [] a c = omega arith
  run-admits (x ∷ xs) a c =
      let here = step-room x a c in
      let rest = run-admits xs (step x a) (step-IsConsistent x a c) in omega (arith, here, rest)
