-- ===== src/Schedules/Created.antt =====
-- What `create_schedule` (apps/http-server/src/api/admin/schedules_v2.rs) leaves in the tables.
use bookit.Common.{
  ℕ, suc, ◌+◌, ◌≡◌, refl, sym, ap, subst, Bool, true, false, Option, none, some, List, [], ◌∷◌,
  ◌++◌, pos, length, map, arith, Gives, if_lem,
}
use bookit.Schedules.Tables.{
  LayoutSeat, NewSchedule, NewScheduleSeat, Database, Result, ok, err,
  insert_on_conflict_do_nothing,
}
use bookit.Schedules.Create.{
  Copied, sort_by, insert_copied, store_schedule, create_schedule, store_valid, Parsers, CreateEnv,
  CreateScheduleRequest, insert_schedule,
}
use bookit.Schedules.Numbered.{
  place, new_place, Counts, keys_after, places, OfSchedule, rows_from, inserts_each,
}
use bookit.Schedules.WellFormed.{
  WellFormed, Given-later, Unique-more, Given-more, appended-WellFormed,
}
use bookit.Schedules.InOrder.{InOrder, copy_seats-InOrder}

pub insert_copied_lem :
    (db : Database) (new : NewSchedule) (xs : List NewScheduleSeat)
    → WellFormed db
    → OfSchedule (pos db.next_schedule) xs
    → Counts 1 [] (map new_place xs)
    → insert_on_conflict_do_nothing db.next_seat xs db.schedule_seats
      ≡ db.schedule_seats ++ rows_from db.next_seat xs
insert_copied_lem db new xs w own c =
    let none_yet : places (pos db.next_schedule) db.schedule_seats ≡ [] =
      ap (map place) (w.unborn db.next_schedule (omega arith)) in
    (inserts_each (pos db.next_schedule) db.next_seat xs db.schedule_seats own
      (subst (λ l. Counts 1 [] (l ++ map new_place xs)) (sym none_yet) c)).0

abbrev pub nothing_copied : Copied
nothing_copied = record { seen = []; new_seats = [] }

insert_schedule-WellFormed :
    (new : NewSchedule) (db : Database) → WellFormed db → WellFormed (insert_schedule new db)
insert_schedule-WellFormed new db w = record {
  unique = Unique-more db new w.given w.unique;
  given = Given-more db new w.given;
  numbered = w.numbered;
  unborn = λ n h. w.unborn n (omega (arith, h));
}

-- The database with the new schedule and its seats.
abbrev pub filled : NewSchedule → List NewScheduleSeat → ℕ → Database → Database
filled new xs next db = record (insert_schedule new db) {
  next_seat = next;
  schedule_seats = db.schedule_seats ++ rows_from db.next_seat xs;
}

-- What `create_schedule` may leave behind has `P`: the tables as they were, an id that was used up, a
-- schedule without seats, and a schedule with seats that are numbered.
pub record Created (P : Database → Type 0) (db : Database) : Type 0 where
  pub refused : P db
  pub not_inserted : P (record db { next_schedule = suc db.next_schedule })
  pub seatless : (new : NewSchedule) → P (insert_schedule new db)
  pub seated :
      (new : NewSchedule) (xs : List NewScheduleSeat) (next : ℕ)
      → OfSchedule (pos db.next_schedule) xs
      → Counts 1 [] (map new_place xs)
      → P (filled new xs next db)

module _ (P : Database → Type 0) (db : Database) (w : WellFormed db) (o : Created P db) where
  insert_copied-Created :
      (inserts : Bool) (new : NewSchedule) (c : Option Copied)
      → Gives (InOrder (pos db.next_schedule)) c
      → P (insert_copied inserts c (insert_schedule new db)).0
  unfolding insert_copied InOrder
  insert_copied-Created inserts new none inv = o.seatless new
  insert_copied-Created false new (some c) inv = o.seatless new
  insert_copied-Created true new (some c) inv =
      let n : ℕ = db.next_seat + length c.new_seats in
      subst (λ rows. P (record (insert_schedule new db) { next_seat = n; schedule_seats = rows }))
        (sym (insert_copied_lem db new c.new_seats w inv.0 inv.1.0))
        (o.seated new c.new_seats n inv.0 inv.1.0)

  store_schedule-Created :
      (p : Parsers) (env : CreateEnv) (body : CreateScheduleRequest) (new : NewSchedule)
      (xs : List LayoutSeat)
      → P (store_schedule p env body new xs db).0
  unfolding store_schedule InOrder keys_after Counts
  store_schedule-Created p env body new [] = o.refused
  store_schedule-Created p env body new (x ∷ xs) =
      if_lem (λ (r : Database × Result ℕ). P r.0) env.inserts_schedule _ _
        (λ h. insert_copied-Created env.inserts_seats new _ (
          copy_seats-InOrder p.parse_price body.prices (pos db.next_schedule) (sort_by (x ∷ xs))
            nothing_copied (tt, (tt, refl))))
        (λ h. o.not_inserted)

  store_valid-Created :
      (p : Parsers) (env : CreateEnv) (body : CreateScheduleRequest) (r : Result NewSchedule)
      → P (store_valid p env body r db).0
  store_valid-Created p env body (ok new) = store_schedule-Created p env body new _
  store_valid-Created p env body (err e) = o.refused

  pub create_schedule-Created :
      (p : Parsers) (env : CreateEnv) (body : CreateScheduleRequest)
      → P (create_schedule p env body db).0
  unfolding create_schedule
  create_schedule-Created p env body = store_valid-Created p env body _

-- Whatever it answers, `create_schedule` keeps the numbering of every schedule's seats.
pub create_schedule-WellFormed :
    (p : Parsers) (env : CreateEnv) (body : CreateScheduleRequest) (db : Database)
    → WellFormed db
    → WellFormed (create_schedule p env body db).0
create_schedule-WellFormed p env body db w =
    create_schedule-Created WellFormed db w
      (record {
        refused = w;
        not_inserted = record {
          unique = w.unique;
          given = Given-later db.schedules db.next_schedule w.given;
          numbered = w.numbered;
          unborn = λ n h. w.unborn n (omega (arith, h));
        };
        seatless = λ new. insert_schedule-WellFormed new db w;
        seated = λ new xs next own c. appended-WellFormed db new xs next w own c;
      })
      p env body
