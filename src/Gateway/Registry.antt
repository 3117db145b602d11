-- ===== src/Gateway/Registry.antt =====
-- The map of seats to slots (`register_seat`, apps/gateway-keeper/src/state_active.rs).
use bookit.Common.{
  ℕ, zero, suc, ◌<◌, ◌≡◌, ◌≢◌, refl, inl, inr, true, none, some, ℤ, pos, negsuc, ==ℤ_iff, ==ℤ_refl,
  ◌==◌, arith, Option-cases, Bool-cases,
}
use bookit.Gateway.Actor.{
  Actor, Result, ok, err, Error, new, set_index, claim_slot, map_seat, register_at, register_seat,
  is_positive, slot_index, try_admit, clear_seat,
}

-- The map of indices and the slots agree: a mapped seat is positive and stands in its slot, a slot
-- that is not free is mapped to.
pub record IsConsistent (a : Actor) : Type 0 where
  pub mapped :
      (s : ℤ) (i : ℕ)
      → a.seat_indices s ≡ some i
      → (i < a.seat_count) × ((a.seat_states i).seat_id ≡ s) × (s ≢ pos 0)
  pub claimed :
      (i : ℕ)
      → (a.seat_states i).seat_id ≢ pos 0
      → a.seat_indices (a.seat_states i).seat_id ≡ some i

pub new-IsConsistent : (seat_count now : ℕ) → IsConsistent (new seat_count now)
unfolding new
new-IsConsistent seat_count now = record { mapped = λ s i h. cc; claimed = λ i h. absurd (h refl) }

module _ (s : ℤ) (i : ℕ) (a : Actor) (nz : s ≢ pos 0) (lt : i < a.seat_count)
    (c : IsConsistent a) where
  -- A seat that is not mapped yet is mapped and claims its slot, or is taken off the map again.
  fresh-IsConsistent :
      a.seat_indices s ≡ none → IsConsistent (claim_slot s i (set_index a s (some i))).0
  unfolding claim_slot
  fresh-IsConsistent m = record {
    mapped = λ t j h. ground (
      arith,
      c.mapped t j,
      c.claimed i,
      ==ℤ_iff s t,
      ==ℤ_iff (a.seat_states i).seat_id (pos 0),
      ==ℤ_iff (a.seat_states i).seat_id s,
    );
    claimed = λ j h. ground (
      arith,
      c.claimed j,
      c.claimed i,
      ==ℤ_refl s,
      ==ℤ_iff s (a.seat_states j).seat_id,
      ==ℤ_iff (a.seat_states i).seat_id (pos 0),
      ==ℤ_iff (a.seat_states i).seat_id s,
    );
  }

  -- A seat that is mapped to its slot stands there already.
  again : a.seat_indices s ≡ some i → claim_slot s i a ≡ (a, ok i)
  unfolding claim_slot
  again m = ground (
    arith,
    c.mapped s i m,
    ==ℤ_iff (a.seat_states i).seat_id (pos 0),
    ==ℤ_iff (a.seat_states i).seat_id s,
  )

  map_seat-IsConsistent : IsConsistent (map_seat s i (a.seat_indices s) a).0
  unfolding map_seat
  map_seat-IsConsistent = elim (Option-cases (a.seat_indices s)) [
    | inl m ↦ rw (m, map_seat) (fresh-IsConsistent m)
    | inr (j, m) ↦ elim (Bool-cases (j == i)) [
      | inl e ↦
          let same : a.seat_indices s ≡ some i = ground (arith, m) in
          rw (m, map_seat) (rw e (rw (again same) c))
      | inr e ↦ rw (m, map_seat) (rw e c)
    ]
  ]

-- The outcome of a registration that got past the tests of its two arguments.
pub record Outcome (s : ℤ) (i : ℕ) (a b : Actor) (r : Result ℕ) : Type 0 where
  -- A success is about the index asked for, and the actor has the seat there.
  pub on_ok :
      (j : ℕ) → r ≡ ok j → (j ≡ i) × (b.seat_indices s ≡ some i) × ((b.seat_states i).seat_id ≡ s)
  -- A failure changes neither the map nor the slots.
  pub on_err :
      (x : Error)
      → r ≡ err x
      → ((t : ℤ) → b.seat_indices t ≡ a.seat_indices t)
        × ((j : ℕ) → b.seat_states j ≡ a.seat_states j)
  -- States of seats are left alone.
  pub states : (j : ℕ) → (b.seat_states j).state ≡ (a.seat_states j).state

fresh-Outcome :
    (s : ℤ) (i : ℕ) (a : Actor)
    → a.seat_indices s ≡ none
    → Outcome s i a
        (claim_slot s i (set_index a s (some i))).0
        (claim_slot s i (set_index a s (some i))).1
unfolding claim_slot
fresh-Outcome s i a m = record {
  on_ok = λ j h. ground (arith, ==ℤ_refl s, ==ℤ_iff (a.seat_states i).seat_id s);
  on_err = λ x h. (λ t. ground (arith, ==ℤ_iff s t), λ j. ground arith);
  states = λ j. ground arith;
}

map_seat-Outcome :
    (s : ℤ) (i : ℕ) (a : Actor)
    → s ≢ pos 0
    → i < a.seat_count
    → IsConsistent a
    → Outcome s i a (map_seat s i (a.seat_indices s) a).0 (map_seat s i (a.seat_indices s) a).1
unfolding map_seat
map_seat-Outcome s i a nz lt c = elim (Option-cases (a.seat_indices s)) [
  | inl m ↦ rw (m, map_seat) (fresh-Outcome s i a m)
  | inr (j, m) ↦ elim (Bool-cases (j == i)) [
    | inl e ↦
        let same : a.seat_indices s ≡ some i = ground (arith, m) in
        rw (m, map_seat)
          (rw e (
            rw (again s i a nz lt c same) (record {
              on_ok = λ k h. (ground arith, same, (c.mapped s i same).1);
              on_err = λ x h. cc;
              states = λ k. refl;
            })))
    | inr e ↦
        rw (m, map_seat)
          (rw e (record {
            on_ok = λ k h. cc;
            on_err = λ x h. (λ t. refl, λ k. refl);
            states = λ k. refl;
          }))
  ]
]

is_positive-ne : (s : ℤ) → is_positive s ≡ true → s ≢ pos 0
is_positive-ne (pos zero) h e = cc
is_positive-ne (pos (suc n)) h e = ground arith
is_positive-ne (negsuc n) h e = cc

slot_index-lt :
    (x : ℤ) (count i : ℕ) → slot_index x count ≡ some i → (i < count) × (x ≡ pos (suc i))
slot_index-lt (pos zero) count i h = absurd (ground arith)
slot_index-lt (pos (suc n)) count i h = ground arith
slot_index-lt (negsuc n) count i h = absurd (ground arith)

module _ (s x : ℤ) (a : Actor) (c : IsConsistent a) where
  -- A registration keeps the map of indices and the slots in agreement, on every branch.
  pub register_seat-IsConsistent : IsConsistent (register_seat s x a).0
  unfolding register_seat register_at
  register_seat-IsConsistent = elim (Bool-cases (is_positive s)) [
    | inl p ↦ elim (Option-cases (slot_index x a.seat_count)) [
      | inl out ↦ rw p (rw (out, register_at) c)
      | inr (i, at) ↦ rw p (
          rw (at, register_at)
            (map_seat-IsConsistent s i a (is_positive-ne s p) (slot_index-lt x a.seat_count i at).0
              c))
    ]
    | inr p ↦ rw p c
  ]

  -- A registration succeeds only at the slot before its one-based index, inside the seat count, and
  -- then the actor maps the seat to that slot and the slot holds the seat; a registration that fails
  -- leaves the whole map and all the slots as they were; neither touches the state of any slot.
  pub register_seat_outcome :
      ((j : ℕ)
        → (register_seat s x a).1 ≡ ok j
        → (x ≡ pos (suc j))
          × (j < a.seat_count)
          × ((register_seat s x a).0.seat_indices s ≡ some j)
          × (((register_seat s x a).0.seat_states j).seat_id ≡ s))
      × ((e : Error)
          → (register_seat s x a).1 ≡ err e
          → ((t : ℤ) → (register_seat s x a).0.seat_indices t ≡ a.seat_indices t)
            × ((j : ℕ) → (register_seat s x a).0.seat_states j ≡ a.seat_states j))
      × ((j : ℕ) → ((register_seat s x a).0.seat_states j).state ≡ (a.seat_states j).state)
  unfolding register_seat register_at
  register_seat_outcome = elim (Bool-cases (is_positive s)) [
    | inl p ↦ elim (Option-cases (slot_index x a.seat_count)) [
      | inl out ↦ rw p (rw (out, register_at) (λ j h. cc, λ e h. (λ t. refl, λ j. refl), λ j. refl))
      | inr (i, at) ↦
          let l = slot_index-lt x a.seat_count i at in
          let o = map_seat-Outcome s i a (is_positive-ne s p) l.0 c in
          rw p (
            rw (at, register_at)
              (
                λ j h. (
                  cc (l.1, (o.on_ok j h).0),
                  ground (arith, l.0, (o.on_ok j h).0),
                  cc ((o.on_ok j h).0, (o.on_ok j h).1),
                  cc ((o.on_ok j h).0, (o.on_ok j h).2),
                ),
                o.on_err,
                o.states,
              ))
    ]
    | inr p ↦ rw p (λ j h. cc, λ e h. (λ t. refl, λ j. refl), λ j. refl)
  ]

module _ (a : Actor) (c : IsConsistent a) where
  pub try_admit-IsConsistent : (i : ℕ) → IsConsistent (try_admit i a).0
  unfolding try_admit
  try_admit-IsConsistent i = record {
    mapped = λ t j h. ground (arith, c.mapped t j);
    claimed = λ j h. ground (arith, c.claimed j);
  }

  pub clear_seat-IsConsistent : (t : ℤ) → IsConsistent (clear_seat t a)
  unfolding clear_seat
  clear_seat-IsConsistent t = elim (Option-cases (a.seat_indices t)) [
    | inl m ↦ rw m c
    | inr (i, m) ↦ rw m (record {
      mapped = λ u j h. ground (arith, c.mapped u j);
      claimed = λ j h. ground (arith, c.claimed j);
    })
  ]
