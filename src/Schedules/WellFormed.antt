-- ===== src/Schedules/WellFormed.antt =====
-- Well-formed tables of schedules and seats (apps/http-server/src/api/admin/schedules_v2.rs), and further rows of
-- one schedule.
use bookit.Common.{
  ℕ, suc, ◌≤◌, ◌≡◌, refl, sym, ap, subst, ◌∙◌, false, List, [], ◌∷◌, ◌++◌, ℤ, pos, ◌==ℤ◌, ==ℤ_iff,
  map, All, arith,
}
use bookit.Schedules.Tables.{
  NewSchedule, schedule_row, Schedule, NewScheduleSeat, Database, seats_of,
}
use bookit.Schedules.Create.{insert_schedule}
use bookit.Schedules.Numbered.{
  place, new_place, Counts, Numbered, places, OfSchedule, rows_from, rows_from-Numbered,
  seats_of-append, seats_of-rows_from,
}

-- The sequence is still to give the ids from `n` on.
abbrev pub Given : ℕ → Schedule → Type 0
Given n r = (m : ℕ) → n ≤ m → (r.id ==ℤ pos m) ≡ false

-- The primary key of the schedules: no id is given twice.
unfoldable pub Unique : List Schedule → Type 0
Unique [] = Unit
Unique (r ∷ rows) = All (λ q. (q.id ==ℤ r.id) ≡ false) rows × Unique rows

-- Every schedule's seats are numbered, no two schedules have one id; an id that the sequence is still to give has no schedule and no
-- seats.
pub record WellFormed (db : Database) : Type 0 where
  pub unique : Unique db.schedules
  pub given : All (Given db.next_schedule) db.schedules
  pub numbered : (s : ℤ) → Numbered s db.schedule_seats
  pub unborn : (n : ℕ) → db.next_schedule ≤ n → seats_of (pos n) db.schedule_seats ≡ []

pub Given-later : (rows : List Schedule) (n : ℕ) → All (Given n) rows → All (Given (suc n)) rows
Given-later [] n g = tt
Given-later (r ∷ rows) n g = (λ m h. g.0 m (omega (arith, h)), Given-later rows n g.1)

pub All-snoc {ℓ κ} :
    {A : Type ℓ} (P : A → Type κ) (xs : List A) (x : A) → All P xs → P x → All P (xs ++ (x ∷ []))
All-snoc P [] x h p = (p, tt)
All-snoc P (y ∷ ys) x h p = (h.0, All-snoc P ys x h.1 p)

pub other_id :
    (r new : Schedule) (n : ℕ)
    → new.id ≡ pos n
    → (r.id ==ℤ pos n) ≡ false
    → (new.id ==ℤ r.id) ≡ false
other_id r new n e h = ground (arith, e, h, ==ℤ_iff new.id r.id, ==ℤ_iff r.id (pos n))

pub Unique-snoc :
    (rows : List Schedule) (n : ℕ) (new : Schedule)
    → new.id ≡ pos n
    → All (Given n) rows
    → Unique rows
    → Unique (rows ++ (new ∷ []))
unfolding Unique
Unique-snoc [] n new e g u = (tt, tt)
Unique-snoc (r ∷ rows) n new e g u = (
  All-snoc (λ q. (q.id ==ℤ r.id) ≡ false) rows new u.0 (other_id r new n e (g.0 n (omega arith))),
  Unique-snoc rows n new e g.1 u.1,
)

pub Unique-more :
    (db : Database) (new : NewSchedule)
    → All (Given db.next_schedule) db.schedules
    → Unique db.schedules
    → Unique (insert_schedule new db).schedules
Unique-more db new g u =
    Unique-snoc db.schedules db.next_schedule (schedule_row db.next_schedule new) refl g u

pub Given-more :
    (db : Database) (new : NewSchedule)
    → All (Given db.next_schedule) db.schedules
    → All (Given (suc db.next_schedule)) (insert_schedule new db).schedules
Given-more db new g =
    All-snoc (Given (suc db.next_schedule)) db.schedules (schedule_row db.next_schedule new)
      (Given-later db.schedules db.next_schedule g) (λ m h. ground (arith, h))

-- The seats after `insert_copied`, whichever way they are inserted.
pub appended-WellFormed :
    (db : Database) (new : NewSchedule) (xs : List NewScheduleSeat) (next : ℕ)
    → WellFormed db
    → OfSchedule (pos db.next_schedule) xs
    → Counts 1 [] (map new_place xs)
    → WellFormed (record (insert_schedule new db) {
      next_seat = next;
      schedule_seats = db.schedule_seats ++ rows_from db.next_seat xs;
    })
appended-WellFormed db new xs next w own c =
    let s : ℤ = pos db.next_schedule in
    let none_yet : places s db.schedule_seats ≡ [] =
      ap (map place) (w.unborn db.next_schedule (omega arith)) in
    record {
      unique = Unique-more db new w.given w.unique;
      given = Given-more db new w.given;
      numbered = λ t.
          rows_from-Numbered s t db.next_seat xs db.schedule_seats own
            (subst (λ l. Counts 1 [] (l ++ map new_place xs)) (sym none_yet) c) (w.numbered t);
      unborn = λ n h.
          seats_of-append (pos n) db.schedule_seats (rows_from db.next_seat xs)
          ∙ ap (λ l. l ++ seats_of (pos n) (rows_from db.next_seat xs))
              (w.unborn n (omega (arith, h)))
          ∙ seats_of-rows_from s (pos n) db.next_seat xs own (ground (arith, h));
    }
