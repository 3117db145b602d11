-- ===== src/Schedules/Copied.antt =====
-- The seats that `create_schedule` makes, against the seats of the layout.
use bookit.Common.{
  ℕ, suc, ◌≡◌, refl, sym, ap, subst, ◌∙◌, Bool, true, false, ◌||◌, Option, none, some, List, [],
  ◌∷◌, ◌++◌, ℤ, pos, String, leb, if◌then◌else◌, length, map, All, arith, Gives, if_lem,
  same_text_iff, ==ℤ_iff, All-map,
}
use bookit.Schedules.Tables.{
  LayoutSeat, NewSchedule, ScheduleSeat, NewScheduleSeat, Database, Result, ok, err, seats_of, Key,
  mem_key, same_key, select_where,
}
use bookit.Schedules.Create.{
  max_i32, Copied, copy_seat, copy_seats, compare_seats, is_after, insert_by, sort_by,
  insert_copied, store_schedule, create_schedule, store_valid, validate, Parsers, CreateEnv,
  CreateScheduleRequest, insert_schedule, of_layout,
}
use bookit.Schedules.Numbered.{
  Place, place, new_place, Counts, keys_after, places, OfSchedule, rows_from, places-append,
  places-rows_from,
}
use bookit.Schedules.Created.{insert_copied_lem, nothing_copied}
use bookit.Schedules.InOrder.{InOrder, copy_seats-InOrder, length-map, and_then-Gives}
use bookit.Schedules.WellFormed.{WellFormed}

abbrev pub seat_key : LayoutSeat → Key
seat_key x = (x.row_letter, x.seat_number)

abbrev pub row_key : ScheduleSeat → Key
row_key r = (r.row_letter, r.seat_number)

-- Each seat of the list has its place among the keys.
abbrev pub HavePlaces : List LayoutSeat → List Key → Type 0
HavePlaces xs keys = All (λ x. mem_key (seat_key x) keys ≡ true) xs

-- No key is lost.
abbrev Grows : List Key → List Key → Type 0
Grows keys more = (k : Key) → mem_key k keys ≡ true → mem_key k more ≡ true

same_key_refl : (k : Key) → same_key k k ≡ true
same_key_refl (r, n) = ground (arith, same_text_iff r r, ==ℤ_iff n n)

copy_seat-HavePlaces :
    (parse_price : String → Option ℕ) (prices : List (String × String)) (s : ℤ) (x : LayoutSeat)
    (c : Copied)
    → Gives
        (λ d. Grows c.seen d.seen × (mem_key (seat_key x) d.seen ≡ true))
        (copy_seat parse_price prices s x c)
unfolding copy_seat mem_key
copy_seat-HavePlaces parse_price prices s x c =
    let P : Copied → Type 0 = λ d. Grows c.seen d.seen × (mem_key (seat_key x) d.seen ≡ true) in
    if_lem (Gives P) (mem_key (x.row_letter, x.seat_number) c.seen) _ _ (λ h. (λ k m. m, h))
      (λ h.
        if_lem (Gives P) (leb (suc (length c.new_seats)) max_i32) _ _
          (λ l. (λ k m. ground (arith, m), ground (arith, same_key_refl (seat_key x)))) (λ l. tt))

Gives-map :
    (P Q : Copied → Type 0) (o : Option Copied) → ((c : Copied) → P c → Q c) → Gives P o → Gives Q o
Gives-map P Q none f h = tt
Gives-map P Q (some c) f h = f c h

copy_seats-HavePlaces :
    (parse_price : String → Option ℕ) (prices : List (String × String)) (s : ℤ)
    (xs : List LayoutSeat) (c : Copied)
    → Gives (λ d. Grows c.seen d.seen × HavePlaces xs d.seen) (copy_seats parse_price prices s xs c)
unfolding copy_seats
copy_seats-HavePlaces parse_price prices s [] c = (λ k m. m, tt)
copy_seats-HavePlaces parse_price prices s (x ∷ xs) c =
    and_then-Gives (λ d. Grows c.seen d.seen × (mem_key (seat_key x) d.seen ≡ true))
      (λ d. Grows c.seen d.seen × HavePlaces (x ∷ xs) d.seen) (copy_seat parse_price prices s x c)
      (copy_seats parse_price prices s xs) (copy_seat-HavePlaces parse_price prices s x c)
      (λ d h.
        Gives-map (λ e. Grows d.seen e.seen × HavePlaces xs e.seen)
          (λ e. Grows c.seen e.seen × HavePlaces (x ∷ xs) e.seen)
          (copy_seats parse_price prices s xs d)
          (λ e g. (λ k m. g.0 k (h.0 k m), (g.0 (seat_key x) h.1, g.1)))
          (copy_seats-HavePlaces parse_price prices s xs d))

split_insert :
    (P : LayoutSeat → Type 0) (b : Bool) (x y : LayoutSeat) (ys rest : List LayoutSeat)
    → (All P rest → P x × All P ys)
    → All P (if b then y ∷ rest else x ∷ y ∷ ys)
    → P x × All P (y ∷ ys)
split_insert P true x y ys rest ih h = let both = ih h.1 in (both.0, (h.0, both.1))
split_insert P false x y ys rest ih h = h

insert_by-All :
    (P : LayoutSeat → Type 0) (x : LayoutSeat) (ys : List LayoutSeat)
    → All P (insert_by x ys)
    → P x × All P ys
unfolding insert_by
insert_by-All P x [] h = h
insert_by-All P x (y ∷ ys) h =
    split_insert P (is_after (compare_seats x y)) x y ys (insert_by x ys) (insert_by-All P x ys) h

sort_by-All : (P : LayoutSeat → Type 0) (xs : List LayoutSeat) → All P (sort_by xs) → All P xs
unfolding sort_by
sort_by-All P [] h = tt
sort_by-All P (x ∷ xs) h =
    let both = insert_by-All P x (sort_by xs) h in (both.0, sort_by-All P xs both.1)

keys_after_lem :
    (k : Key) (seen : List Key) (ps : List Place)
    → mem_key k (keys_after seen ps) ≡ (mem_key k seen || mem_key k (map (λ p. p.1) ps))
unfolding keys_after mem_key
keys_after_lem k seen [] = ground arith
keys_after_lem k seen ((n, j) ∷ ps) = ground (arith, keys_after_lem k (j ∷ seen) ps)

-- The schedule `s` has `n` seats, and each seat of the layout has its place among them.
abbrev pub Copies : ℤ → List LayoutSeat → ℕ → Database → Type 0
Copies s xs n db =
    (length (seats_of s db.schedule_seats) ≡ n)
    × HavePlaces xs (map row_key (seats_of s db.schedule_seats))

keys_of_places : (rows : List ScheduleSeat) → map (λ p. p.1) (map place rows) ≡ map row_key rows
keys_of_places [] = refl
keys_of_places (r ∷ rows) = ap (λ l. row_key r ∷ l) (keys_of_places rows)

module _ (db : Database) (w : WellFormed db) (xs : List LayoutSeat) where
  abbrev next_id : ℤ
  next_id = pos db.next_schedule

  copied_places :
      (cs : List NewScheduleSeat)
      → OfSchedule next_id cs
      → places next_id (db.schedule_seats ++ rows_from db.next_seat cs) ≡ map new_place cs
  copied_places cs own =
      places-append next_id db.schedule_seats (rows_from db.next_seat cs)
      ∙ ap (λ l. map place l ++ places next_id (rows_from db.next_seat cs))
          (w.unborn db.next_schedule (omega arith))
      ∙ places-rows_from next_id db.next_seat cs own

  copied_Copies :
      (c : Copied) (rows : List ScheduleSeat)
      → InOrder next_id c
      → HavePlaces xs c.seen
      → rows ≡ db.schedule_seats ++ rows_from db.next_seat c.new_seats
      → (length (seats_of next_id rows) ≡ length c.new_seats)
        × HavePlaces xs (map row_key (seats_of next_id rows))
  unfolding InOrder mem_key
  copied_Copies c rows inv cover e =
      let at_places : map place (seats_of next_id rows) ≡ map new_place c.new_seats =
        subst (λ l. map place (seats_of next_id l) ≡ map new_place c.new_seats) (sym e)
          (copied_places c.new_seats inv.0) in
      let keys : map (λ p. p.1) (map new_place c.new_seats) ≡ map row_key (seats_of next_id rows) =
        ap (map (λ p. p.1)) (sym at_places) ∙ keys_of_places (seats_of next_id rows) in
      (
        sym (length-map place (seats_of next_id rows))
            ∙ ap length at_places
            ∙ length-map new_place c.new_seats,
        All-map (λ x. mem_key (seat_key x) c.seen ≡ true)
            (λ x. mem_key (seat_key x) (map row_key (seats_of next_id rows)) ≡ true) xs
            (λ x m.
              ap (mem_key (seat_key x)) (sym keys)
              ∙ sym (keys_after_lem (seat_key x) [] (map new_place c.new_seats))
              ∙ ap (mem_key (seat_key x)) (sym inv.1.1)
              ∙ m)
            cover,
      )

  insert_copied-Copies :
      (inserts : Bool) (new : NewSchedule) (o : Option Copied) (n : ℕ)
      → Gives (InOrder next_id) o
      → Gives (λ c. HavePlaces xs c.seen) o
      → (insert_copied inserts o (insert_schedule new db)).1 ≡ ok n
      → Copies next_id xs n (insert_copied inserts o (insert_schedule new db)).0
  unfolding insert_copied InOrder
  insert_copied-Copies inserts new none n inv cover e = cc e
  insert_copied-Copies false new (some c) n inv cover e = cc e
  insert_copied-Copies true new (some c) n inv cover e =
      let same : length c.new_seats ≡ n = cc e in
      let both =
        copied_Copies c _ inv cover (insert_copied_lem db new c.new_seats w inv.0 inv.1.0) in
      (both.0 ∙ same, both.1)

store_schedule-Copies :
    (p : Parsers) (env : CreateEnv) (body : CreateScheduleRequest) (new : NewSchedule)
    (xs : List LayoutSeat) (db : Database) (n : ℕ)
    → WellFormed db
    → (store_schedule p env body new xs db).1 ≡ ok n
    → Copies (pos db.next_schedule) xs n (store_schedule p env body new xs db).0
unfolding store_schedule InOrder keys_after Counts
store_schedule-Copies p env body new [] db n w = λ e. cc e
store_schedule-Copies p env body new (x ∷ xs) db n w =
    let s : ℤ = pos db.next_schedule in
    let sorted = sort_by (x ∷ xs) in
    if_lem (λ (r : Database × Result ℕ). r.1 ≡ ok n → Copies s (x ∷ xs) n r.0) env.inserts_schedule
      _ _
      (λ h.
        insert_copied-Copies db w (x ∷ xs) env.inserts_seats new
          (copy_seats p.parse_price body.prices s sorted nothing_copied) n
          (copy_seats-InOrder p.parse_price body.prices s sorted nothing_copied (tt, (tt, refl)))
          (Gives-map (λ c. Grows [] c.seen × HavePlaces sorted c.seen)
            (λ c. HavePlaces (x ∷ xs) c.seen) _
            (λ c g. sort_by-All (λ y. mem_key (seat_key y) c.seen ≡ true) (x ∷ xs) g.1)
            (copy_seats-HavePlaces p.parse_price body.prices s sorted nothing_copied)))
      (λ h e. cc e)

store_valid-Copies :
    (p : Parsers) (env : CreateEnv) (body : CreateScheduleRequest) (r : Result NewSchedule)
    (db : Database) (n : ℕ)
    → WellFormed db
    → (store_valid p env body r db).1 ≡ ok n
    → Copies
        (pos db.next_schedule)
        (select_where (of_layout body.layout_id) db.seat_layout_seats)
        n
        (store_valid p env body r db).0
store_valid-Copies p env body (ok new) db n w e = store_schedule-Copies p env body new _ db n w e
store_valid-Copies p env body (err x) db n w e = cc e

-- Where `create_schedule` answers with a number of seats, the new schedule has that number of seats, and
-- each seat of the layout has its place among them.
pub create_schedule-Copies :
    (p : Parsers) (env : CreateEnv) (body : CreateScheduleRequest) (db : Database) (n : ℕ)
    → WellFormed db
    → (create_schedule p env body db).1 ≡ ok n
    → Copies
        (pos db.next_schedule)
        (select_where (of_layout body.layout_id) db.seat_layout_seats)
        n
        (create_schedule p env body db).0
unfolding create_schedule
create_schedule-Copies p env body db n w e =
    store_valid-Copies p env body (validate p env body) db n w e
