-- ===== src/Schedules/Extended.antt =====
-- The loop of `add_extra_seats` (apps/http-server/src/api/admin/schedules_v2.rs): the keys and the next index that it
-- reads off the table, and each seat that it adds.
use bookit.Common.{
  ℕ, suc, ◌+◌, ◌-◌, ◌≡◌, refl, sym, ap, subst, ◌∙◌, false, Option, none, some, List, [], ◌∷◌, ◌++◌,
  ℤ, String, ◌==◌, if◌then◌else◌, length, map, append-nil, arith, if_lem, length-append,
}
use bookit.Schedules.Tables.{ScheduleSeat, Result, ok, err, seats_of, Key, mem_key}
use bookit.Schedules.Extra.{
  ExtraSeatInput, insert_key, collect_keys, max_index, checked_succ, Adding, extra_of, advance,
  push_seat, add_seat, add_seats, and_then_add, start_adding,
}
use bookit.Schedules.Numbered.{
  Place, place, new_place, Counts, keys_after, Numbered, places, OfSchedule,
}
use bookit.Schedules.InOrder.{OfSchedule-snoc, Counts-snoc, keys_after-snoc, length-map}

pub collect_keys_lem :
    (i : ℕ) (keys : List Key) (rows : List ScheduleSeat)
    → Counts i keys (map place rows)
    → collect_keys keys rows ≡ keys_after keys (map place rows)
unfolding collect_keys keys_after insert_key Counts
collect_keys_lem i keys [] c = refl
collect_keys_lem i keys (r ∷ rows) c =
    simp c.1.0 (collect_keys_lem (suc i) ((r.row_letter, r.seat_number) ∷ keys) rows c.1.1)

-- The greatest index of seats that are numbered from `i`.
pub max_index_lem :
    (i : ℕ) (keys : List Key) (rows : List ScheduleSeat)
    → Counts i keys (map place rows)
    → max_index rows ≡ (if length rows == 0 then 0 else i + length rows - 1)
unfolding max_index Counts
max_index_lem i keys [] c = refl
max_index_lem i keys (r ∷ rows) c =
    ground (arith, c.0, max_index_lem (suc i) ((r.row_letter, r.seat_number) ∷ keys) rows c.1.1)

-- What the loop holds continues the seats `qs` of the schedule.
unfoldable pub Extends : ℤ → List Place → Adding → Type 0
Extends s qs st =
    OfSchedule s st.new_seats
    × (Counts 1 [] (qs ++ map new_place st.new_seats)
        × ((st.existing_seat_keys ≡ keys_after [] (qs ++ map new_place st.new_seats))
            × (st.next_seat_index ≡ suc (length qs + length st.new_seats))))

-- What holds of an answer that is no error.
abbrev pub Answers {κ} : (Adding → Type κ) → Result Adding → Type κ
Answers P (ok st) = P st
Answers P (err e) = Unit

pub checked_succ_lem :
    (n : ℕ) (P : Option ℕ → Type 0) → P none → P (some (suc n)) → P (checked_succ n)
checked_succ_lem n P p q = if_lem P _ _ _ (λ h. q) (λ h. p)

pub push_seat-Extends :
    (s : ℤ) (qs : List Place) (x : ExtraSeatInput) (o : Option ℕ) (st : Adding)
    → Extends s qs st
    → mem_key (x.row_letter, x.seat_number) st.existing_seat_keys ≡ false
    → Answers (Extends s qs) (push_seat s x o st)
unfolding Extends push_seat insert_key
push_seat-Extends s qs x none st inv new = tt
push_seat-Extends s qs x (some price) st inv new =
    let y = extra_of s st.next_seat_index x price in
    checked_succ_lem st.next_seat_index
      (λ o. Answers (Extends s qs) (
        advance
          (record {
            request_seat_keys = insert_key (x.row_letter, x.seat_number) st.request_seat_keys;
            existing_seat_keys = insert_key (x.row_letter, x.seat_number) st.existing_seat_keys;
            next_seat_index = st.next_seat_index;
            new_seats = st.new_seats ++ (y ∷ []);
          })
          o))
      tt
      (
        OfSchedule-snoc s st.new_seats y inv.0 refl,
        (
          Counts-snoc qs st.new_seats y inv.1.0 inv.1.1.1
              (ap (mem_key (x.row_letter, x.seat_number)) (sym inv.1.1.0) ∙ new),
          (
            simp new (
                ap (λ l. (x.row_letter, x.seat_number) ∷ l) inv.1.1.0
                ∙ sym (keys_after-snoc qs st.new_seats y)),
            omega (arith, inv.1.1.1, length-append st.new_seats (y ∷ [])),
          ),
        ),
      )

pub add_seat-Extends :
    (parse_price : String → Option ℕ) (s : ℤ) (qs : List Place) (x : ExtraSeatInput) (st : Adding)
    → Extends s qs st
    → Answers (Extends s qs) (add_seat parse_price s x st)
unfolding add_seat Extends
add_seat-Extends parse_price s qs x st inv =
    if_lem (Answers (Extends s qs)) (mem_key (x.row_letter, x.seat_number) st.request_seat_keys) _ _
      (λ h. inv)
      (λ h.
        if_lem (Answers (Extends s qs))
          (mem_key (x.row_letter, x.seat_number) st.existing_seat_keys) _ _ (λ k. inv)
          (λ k. push_seat-Extends s qs x (parse_price x.price) st inv k))

pub and_then_add-Answers :
    (P Q : Adding → Type 0) (r : Result Adding) (f : Adding → Result Adding)
    → Answers P r
    → ((st : Adding) → P st → Answers Q (f st))
    → Answers Q (and_then_add r f)
and_then_add-Answers P Q (ok st) f p q = q st p
and_then_add-Answers P Q (err e) f p q = tt

pub add_seats-Extends :
    (parse_price : String → Option ℕ) (s : ℤ) (qs : List Place) (xs : List ExtraSeatInput)
    (st : Adding)
    → Extends s qs st
    → Answers (Extends s qs) (add_seats parse_price s xs st)
unfolding add_seats
add_seats-Extends parse_price s qs [] st inv = inv
add_seats-Extends parse_price s qs (x ∷ xs) st inv =
    and_then_add-Answers (Extends s qs) (Extends s qs) (add_seat parse_price s x st)
      (add_seats parse_price s xs) (add_seat-Extends parse_price s qs x st inv)
      (add_seats-Extends parse_price s qs xs)

pub start_adding-Extends :
    (s : ℤ) (rows : List ScheduleSeat) (n : ℕ)
    → Numbered s rows
    → suc (max_index (seats_of s rows)) ≡ n
    → Extends s (places s rows) (start_adding (seats_of s rows) n)
unfolding Extends Numbered
start_adding-Extends s rows n c e =
    let none_yet = append-nil (places s rows) in
    (
      tt,
      (
        subst (Counts 1 []) (sym none_yet) c,
        (
          collect_keys_lem 1 [] (seats_of s rows) c ∙ ap (keys_after []) (sym none_yet),
          ground (
            arith,
            e,
            max_index_lem 1 [] (seats_of s rows) c,
            length-map place (seats_of s rows),
          ),
        ),
      ),
    )
