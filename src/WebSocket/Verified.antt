-- ===== src/WebSocket/Verified.antt =====
-- What a request that `verified_seat_metadata` accepts says of the tables, however long its metadata
-- has been cached.
use bookit.Common.{
  ℕ, ◌≡◌, inl, inr, Bool, true, false, ◌&&◌, ◌||◌, none, List, [], ◌∷◌, ℤ, pos, ◌==ℤ◌, arith,
  Bool-cases,
}
use bookit.Schedules.Tables.{ScheduleSeat}
use bookit.SeatMap.Counts.{get_count}
use bookit.WebSocket.Metadata.{collect_indices, same_index, check_pairs}

-- A row with this id and this index.
abbrev pub has_pair : ℤ → ℤ → List ScheduleSeat → Bool
has_pair s x [] = false
has_pair s x (r ∷ rows) = ((r.id ==ℤ s) && (pos r.seat_index ==ℤ x)) || has_pair s x rows

-- Each pair of the request is a row.
abbrev pub PairsAmong : List ScheduleSeat → List ℤ → List ℤ → Type 0
PairsAmong rows (s ∷ ss) (x ∷ xs) = (has_pair s x rows ≡ true) × PairsAmong rows ss xs
PairsAmong rows [] xs = Unit
PairsAmong rows (s ∷ ss) [] = Unit

same_index-collect_indices :
    (s x : ℤ) (m : List (ℤ × ℕ)) (rows : List ScheduleSeat)
    → same_index (get_count s (collect_indices m rows)) x ≡ true
    → (same_index (get_count s m) x || has_pair s x rows) ≡ true
unfolding collect_indices get_count
same_index-collect_indices s x m [] h = ground (arith, h)
same_index-collect_indices s x m (r ∷ rows) h =
    let ih = same_index-collect_indices s x ((r.id, r.seat_index) ∷ m) rows h in
    elim (Bool-cases (r.id ==ℤ s)) [ inl e ↦ ground (arith, e, ih) | inr e ↦ ground (arith, e, ih) ]

pub check_pairs-PairsAmong :
    (rows : List ScheduleSeat) (ss xs : List ℤ)
    → check_pairs (collect_indices [] rows) ss xs ≡ none
    → PairsAmong rows ss xs
unfolding check_pairs get_count
check_pairs-PairsAmong rows [] xs h = tt
check_pairs-PairsAmong rows (s ∷ ss) [] h = tt
check_pairs-PairsAmong rows (s ∷ ss) (x ∷ xs) h =
    elim (Bool-cases (same_index (get_count s (collect_indices [] rows)) x)) [
      | inl e ↦ (
        same_index-collect_indices s x [] rows e,
        check_pairs-PairsAmong rows ss xs (simp e at h),
      )
      | inr e ↦ cc (simp e at h)
    ]
