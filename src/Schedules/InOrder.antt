-- ===== src/Schedules/InOrder.antt =====
-- The loop of `create_schedule` (apps/http-server/src/api/admin/schedules_v2.rs) that copies the seats of a
-- layout, and the numbers it gives them.
use bookit.Common.{
  ℕ, suc, ◌+◌, ◌≡◌, refl, sym, ap, subst, ◌∙◌, false, Option, none, some, List, [], ◌∷◌, ◌++◌, ℤ,
  String, leb, length, map, arith, length-append, append_assoc, Gives, if_lem,
}
use bookit.Schedules.Tables.{LayoutSeat, NewScheduleSeat, mem_key}
use bookit.Schedules.Create.{max_i32, Copied, copy_of, copy_seat, copy_seats, and_then}
use bookit.Schedules.Numbered.{
  Place, new_place, Counts, keys_after, Counts-append, keys_after-append, OfSchedule, map-append,
}

-- The loop's new seats are of the schedule, numbered from 1, and `seen` are their places.
unfoldable pub InOrder : ℤ → Copied → Type 0
InOrder s c =
    OfSchedule s c.new_seats
    × (Counts 1 [] (map new_place c.new_seats)
        × (c.seen ≡ keys_after [] (map new_place c.new_seats)))

pub length-map {ℓ κ} :
    {A : Type ℓ} {B : Type κ} (f : A → B) (xs : List A) → length (map f xs) ≡ length xs
length-map f [] = refl
length-map f (x ∷ xs) = ap suc (length-map f xs)

pub OfSchedule-snoc :
    (s : ℤ) (xs : List NewScheduleSeat) (x : NewScheduleSeat)
    → OfSchedule s xs
    → x.schedule_id ≡ s
    → OfSchedule s (xs ++ (x ∷ []))
OfSchedule-snoc s [] x own e = (e, tt)
OfSchedule-snoc s (y ∷ ys) x own e = (own.0, OfSchedule-snoc s ys x own.1 e)

-- A further seat with the next index and a new place continues the numbering.
pub Counts-snoc :
    (qs : List Place) (xs : List NewScheduleSeat) (x : NewScheduleSeat)
    → Counts 1 [] (qs ++ map new_place xs)
    → x.seat_index ≡ suc (length qs + length xs)
    → mem_key (x.row_letter, x.seat_number) (keys_after [] (qs ++ map new_place xs)) ≡ false
    → Counts 1 [] (qs ++ map new_place (xs ++ (x ∷ [])))
unfolding Counts
Counts-snoc qs xs x c e new =
    let one : Place = new_place x in
    let after : x.seat_index ≡ 1 + length (qs ++ map new_place xs) =
      omega (arith, e, length-append qs (map new_place xs), length-map new_place xs) in
    let split : qs ++ map new_place (xs ++ (x ∷ [])) ≡ (qs ++ map new_place xs) ++ (one ∷ []) =
      ap (λ l. qs ++ l) (map-append new_place xs (x ∷ []))
      ∙ sym (append_assoc qs (map new_place xs) (one ∷ [])) in
    subst (Counts 1 []) (sym split)
      (Counts-append 1 [] (qs ++ map new_place xs) (one ∷ []) c (after, (new, tt)))

pub keys_after-snoc :
    (qs : List Place) (xs : List NewScheduleSeat) (x : NewScheduleSeat)
    → keys_after [] (qs ++ map new_place (xs ++ (x ∷ [])))
      ≡ (x.row_letter, x.seat_number) ∷ keys_after [] (qs ++ map new_place xs)
unfolding keys_after
keys_after-snoc qs xs x =
    ap (keys_after []) (
      ap (λ l. qs ++ l) (map-append new_place xs (x ∷ []))
      ∙ sym (append_assoc qs (map new_place xs) (new_place x ∷ [])))
    ∙ keys_after-append [] (qs ++ map new_place xs) (new_place x ∷ [])

pub copy_seat-InOrder :
    (parse_price : String → Option ℕ) (prices : List (String × String)) (s : ℤ) (x : LayoutSeat)
    (c : Copied)
    → InOrder s c
    → Gives (InOrder s) (copy_seat parse_price prices s x c)
unfolding InOrder copy_seat
copy_seat-InOrder parse_price prices s x c inv =
    let y = copy_of parse_price prices s (suc (length c.new_seats)) x in
    if_lem (Gives (InOrder s)) (mem_key (x.row_letter, x.seat_number) c.seen) _ _ (λ h. inv)
      (λ h.
        if_lem (Gives (InOrder s)) (leb (suc (length c.new_seats)) max_i32) _ _
          (λ k. (
            OfSchedule-snoc s c.new_seats y inv.0 refl,
            (
              Counts-snoc [] c.new_seats y inv.1.0 (omega arith)
                  (ap (mem_key (y.row_letter, y.seat_number)) (sym inv.1.1) ∙ h),
              ap (λ l. (y.row_letter, y.seat_number) ∷ l) inv.1.1
                  ∙ sym (keys_after-snoc [] c.new_seats y),
            ),
          ))
          (λ k. tt))

pub and_then-Gives {ℓ κ} :
    {A B : Type ℓ} (P : A → Type κ) (Q : B → Type κ) (o : Option A) (f : A → Option B)
    → Gives P o
    → ((a : A) → P a → Gives Q (f a))
    → Gives Q (and_then o f)
and_then-Gives P Q none f p q = tt
and_then-Gives P Q (some a) f p q = q a p

pub copy_seats-InOrder :
    (parse_price : String → Option ℕ) (prices : List (String × String)) (s : ℤ)
    (xs : List LayoutSeat) (c : Copied)
    → InOrder s c
    → Gives (InOrder s) (copy_seats parse_price prices s xs c)
unfolding copy_seats
copy_seats-InOrder parse_price prices s [] c inv = inv
copy_seats-InOrder parse_price prices s (x ∷ xs) c inv =
    and_then-Gives (InOrder s) (InOrder s) (copy_seat parse_price prices s x c)
      (copy_seats parse_price prices s xs) (copy_seat-InOrder parse_price prices s x c inv)
      (copy_seats-InOrder parse_price prices s xs)
