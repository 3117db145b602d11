-- ===== src/Schedules/Added.antt =====
-- What `add_extra_seats` (apps/http-server/src/api/admin/schedules_v2.rs) leaves in the tables.
use bookit.Common.{
  ℕ, ◌+◌, ◌≤◌, ◌≡◌, refl, sym, ap, subst, ◌∙◌, inl, inr, false, Option, none, some, List, [], ◌∷◌,
  ◌++◌, ℤ, pos, String, ◌==ℤ◌, length, map, All, ==ℤ_iff, arith, Bool-cases,
}
use bookit.Schedules.Tables.{
  Schedule, NewScheduleSeat, Database, Result, ok, err, seats_of, LifecycleState, scheduled, opened,
  closed,
}
use bookit.Schedules.Extra.{
  ExtraSeatInput, max_index, checked_succ, Adding, inserted, insert_extra, add_numbered,
  add_by_state, add_found, add_extra_seats, live, find_live,
}
use bookit.Schedules.Numbered.{
  new_place, Counts, places, OfSchedule, rows_from, inserts_each, rows_from-Numbered,
  seats_of-append, seats_of-rows_from,
}
use bookit.Schedules.WellFormed.{Given, WellFormed}
use bookit.Payment.Tables.{find_where}
use bookit.Schedules.Extended.{
  Extends, Answers, checked_succ_lem, add_seats-Extends, start_adding-Extends,
}

extended-WellFormed :
    (s : ℤ) (xs : List NewScheduleSeat) (db : Database) (next : ℕ)
    → WellFormed db
    → ((n : ℕ) → db.next_schedule ≤ n → (s ==ℤ pos n) ≡ false)
    → OfSchedule s xs
    → Counts 1 [] (places s db.schedule_seats ++ map new_place xs)
    → WellFormed (record db {
      next_seat = next;
      schedule_seats = db.schedule_seats ++ rows_from db.next_seat xs;
    })
extended-WellFormed s xs db next w old own c = record {
  unique = w.unique;
  given = w.given;
  numbered = λ t. rows_from-Numbered s t db.next_seat xs db.schedule_seats own c (w.numbered t);
  unborn = λ n h.
      seats_of-append (pos n) db.schedule_seats (rows_from db.next_seat xs)
      ∙ ap (λ l. l ++ seats_of (pos n) (rows_from db.next_seat xs)) (w.unborn n h)
      ∙ seats_of-rows_from s (pos n) db.next_seat xs own (old n h);
}

-- The row that is found has the id.
pub find_live-Given :
    (s : ℤ) (n : ℕ) (rows : List Schedule) (r : Schedule)
    → All (Given n) rows
    → find_where (live s) rows ≡ some r
    → (m : ℕ) → n ≤ m
    → (s ==ℤ pos m) ≡ false
unfolding find_where
find_live-Given s n [] r g e m h = cc e
find_live-Given s n (x ∷ rows) r g e m h = elim (Bool-cases (live s x)) [
  | inl t ↦ ground (arith, t, g.0 m h, ==ℤ_iff x.id s)
  | inr f ↦ find_live-Given s n rows r g.1 (simp f at e) m h
]

-- The database with further seats.
abbrev pub grown : List NewScheduleSeat → ℕ → Database → Database
grown xs next db = record db {
  next_seat = next;
  schedule_seats = db.schedule_seats ++ rows_from db.next_seat xs;
}

-- What `add_extra_seats` may leave behind has `P`: the tables as they were, and further seats of a
-- schedule that is found and not started, which continue its numbering.
pub record Grown (P : Database → Type 0) (s : ℤ) (db : Database) : Type 0 where
  pub refused : P db
  pub added :
      (r : Schedule) (xs : List NewScheduleSeat) (next : ℕ)
      → find_live s db ≡ some r
      → r.lifecycle_state ≡ scheduled
      → OfSchedule s xs
      → Counts 1 [] (places s db.schedule_seats ++ map new_place xs)
      → P (grown xs next db)

module _ (P : Database → Type 0) (s : ℤ) (db : Database) (w : WellFormed db) (o : Grown P s db)
    (parse_price : String → Option ℕ) where
  insert_extra-Grown :
      (r : Schedule) (a : Result Adding)
      → find_live s db ≡ some r
      → r.lifecycle_state ≡ scheduled
      → Answers (Extends s (places s db.schedule_seats)) a
      → P (insert_extra a db).0
  unfolding insert_extra Extends
  insert_extra-Grown r (err e) f st inv = o.refused
  insert_extra-Grown r (ok a) f st inv =
      subst (λ rows. P (inserted (length a.new_seats) db rows).0)
        (sym (inserts_each s db.next_seat a.new_seats db.schedule_seats inv.0 inv.1.0).1)
        (o.added r a.new_seats (db.next_seat + length a.new_seats) f st inv.0 inv.1.0)

  add_numbered-Grown :
      (r : Schedule) (xs : List ExtraSeatInput)
      → find_live s db ≡ some r
      → r.lifecycle_state ≡ scheduled
      → P
          (add_numbered parse_price s xs
            (checked_succ (max_index (seats_of s db.schedule_seats)))
            db).0
  unfolding add_numbered
  add_numbered-Grown r xs f st =
      checked_succ_lem (max_index (seats_of s db.schedule_seats))
        (λ n. P (add_numbered parse_price s xs n db).0) o.refused
        (insert_extra-Grown r _ f st (
          add_seats-Extends parse_price s (places s db.schedule_seats) xs _
            (start_adding-Extends s db.schedule_seats _ (w.numbered s) refl)))

  add_by_state-Grown :
      (r : Schedule) (xs : List ExtraSeatInput) (st : LifecycleState)
      → find_live s db ≡ some r
      → r.lifecycle_state ≡ st
      → P (add_by_state parse_price s xs st db).0
  unfolding add_by_state
  add_by_state-Grown r xs scheduled f e = add_numbered-Grown r xs f e
  add_by_state-Grown r xs opened f e = o.refused
  add_by_state-Grown r xs closed f e = o.refused

  add_found-Grown :
      (xs : List ExtraSeatInput) (found : Option Schedule)
      → find_live s db ≡ found
      → P (add_found parse_price s xs found db).0
  add_found-Grown xs none f = o.refused
  add_found-Grown xs (some r) f = add_by_state-Grown r xs r.lifecycle_state f refl

  pub add_extra_seats-Grown : (xs : List ExtraSeatInput) → P (add_extra_seats parse_price s xs db).0
  unfolding add_extra_seats
  add_extra_seats-Grown [] = o.refused
  add_extra_seats-Grown (x ∷ xs) = add_found-Grown (x ∷ xs) (find_live s db) refl

-- Whatever it answers, `add_extra_seats` keeps the numbering of every schedule's seats.
pub add_extra_seats-WellFormed :
    (parse_price : String → Option ℕ) (s : ℤ) (xs : List ExtraSeatInput) (db : Database)
    → WellFormed db
    → WellFormed (add_extra_seats parse_price s xs db).0
add_extra_seats-WellFormed parse_price s xs db w =
    add_extra_seats-Grown WellFormed s db w
      (record {
        refused = w;
        added = λ r ys next f st own c.
            extended-WellFormed s ys db next w
              (find_live-Given s db.next_schedule db.schedules r w.given f) own c;
      })
      parse_price xs
