-- ===== src/Schedules/Update.antt =====
-- `update_schedule` and `update_schedule_seats` of apps/http-server/src/api/admin/schedules_v2.rs.
use bookit.Common.{
  ℕ, Bool, false, ◌&&◌, ◌||◌, Option, none, some, List, [], ◌∷◌, ℤ, ◌==ℤ◌, if◌then◌else◌, String,
  is_blank, trim,
}
use bookit.Payment.Tables.{SeatStatus, find_where, update_where, is_found}
use bookit.Schedules.Tables.{
  TimeSlot, Schedule, ScheduleSeat, Database, AppError, bad_request, internal, Result, ok, err,
}
use bookit.Schedules.Create.{Parsers, ◌>>=◌, unwrap_or}
use bookit.Schedules.Extra.{find_live}
use bookit.Schedules.Lifecycle.{has_id, not_there}

pub record UpdateScheduleRequest : Type 0 where
  pub date : Option String
  pub slot : Option TimeSlot
  pub start_time : Option String
  pub end_time : Option String
  pub booking_open_at : Option String
  pub venue_name : Option String
  pub venue_address : Option String
  pub venue_city : Option String
  pub venue_state : Option String

-- The name, the address and the state of the venue are not in the rows of this model: `other` says
-- whether one of them is given.
pub record ScheduleChangeset : Type 0 where
  pub date : Option ℕ
  pub slot : Option TimeSlot
  pub start_time : Option ℤ
  pub end_time : Option ℤ
  pub booking_open_at : Option ℤ
  pub venue_city : Option String
  pub other : Bool

abbrev pub blank_city : Option String → Bool
blank_city none = false
blank_city (some c) = is_blank c

abbrev pub parsed {ℓ} : {A : Type ℓ} → AppError → Option A → Result (Option A)
parsed e none = err e
parsed e (some a) = ok (some a)

abbrev pub parse_given {ℓ} :
    {A : Type ℓ} → (String → Option A) → AppError → Option String → Result (Option A)
parse_given p e none = ok none
parse_given p e (some t) = parsed e (p t)

abbrev pub trimmed : Option String → Option String
trimmed none = none
trimmed (some c) = some (trim c)

unfoldable pub changeset : Parsers → UpdateScheduleRequest → Result ScheduleChangeset
changeset p body = do
  start_time ←
      parse_given p.parse_rfc3339 (bad_request "Invalid start_time — use ISO-8601") body.start_time
  end_time ←
      parse_given p.parse_rfc3339 (bad_request "Invalid end_time — use ISO-8601") body.end_time
  booking_open_at ←
      parse_given p.parse_rfc3339 (bad_request "Invalid booking_open_at — use ISO-8601")
        body.booking_open_at
  date ← parse_given p.parse_date (bad_request "Invalid date format, expected YYYY-MM-DD") body.date
  ok (record {
    date = date;
    slot = body.slot;
    start_time = start_time;
    end_time = end_time;
    booking_open_at = booking_open_at;
    venue_city = trimmed body.venue_city;
    other = is_found body.venue_name || (is_found body.venue_address || is_found body.venue_state);
  })

abbrev pub has_changes : ScheduleChangeset → Bool
has_changes c =
    is_found c.date
    || (is_found c.slot
        || (is_found c.start_time
            || (is_found c.end_time
                || (is_found c.booking_open_at || (is_found c.venue_city || c.other)))))

abbrev pub changed : ScheduleChangeset → Schedule → Schedule
changed c r = record r {
  date = unwrap_or r.date c.date;
  slot = unwrap_or r.slot c.slot;
  start_time = unwrap_or r.start_time c.start_time;
  end_time = unwrap_or r.end_time c.end_time;
  booking_open_at = unwrap_or r.booking_open_at c.booking_open_at;
  venue_city = unwrap_or r.venue_city c.venue_city;
}

-- Diesel refuses an UPDATE that sets no column.
abbrev pub apply_changes : ℤ → Result ScheduleChangeset → Database → Database × Result (Unit {0})
apply_changes s (err e) db = (db, err e)
apply_changes s (ok c) db =
    if has_changes c
    then (record db { schedules = update_where (has_id s) (changed c) db.schedules }, ok tt)
    else (db, err (internal "There are no changes to save"))

unfoldable pub update_schedule :
    Parsers → ℤ → UpdateScheduleRequest → Database → Database × Result (Unit {0})
update_schedule p s body db =
    if blank_city body.venue_city
    then (db, err (bad_request "venue_city must not be empty"))
    else if is_found (find_live s db)
    then apply_changes s (changeset p body) db
    else (db, err not_there)

pub record UpdateSeatInput : Type 0 where
  pub id : ℤ
  pub price : Option String
  pub status : Option SeatStatus

abbrev pub listed_seat : ℤ → ℤ → ScheduleSeat → Bool
listed_seat s i r = (r.id ==ℤ i) && (r.schedule_id ==ℤ s)

abbrev pub then_parse {ℓ} : {A : Type ℓ} → (String → Option A) → Option String → Option A
then_parse p none = none
then_parse p (some t) = p t

-- A price that does not parse is left out without an error.
unfoldable pub set_price : ℤ → ℤ → Option ℕ → List ScheduleSeat → List ScheduleSeat
set_price s i none rows = rows
set_price s i (some price) rows =
    update_where (listed_seat s i) (λ r. record r { price = price }) rows

unfoldable pub set_status : ℤ → ℤ → Option SeatStatus → List ScheduleSeat → List ScheduleSeat
set_status s i none rows = rows
set_status s i (some status) rows =
    update_where (listed_seat s i) (λ r. record r { status = status }) rows

unfoldable pub update_seats :
    (String → Option ℕ) → ℤ → List UpdateSeatInput → List ScheduleSeat → List ScheduleSeat
update_seats parse_price s [] rows = rows
update_seats parse_price s (x ∷ xs) rows =
    update_seats parse_price s xs
      (set_status s x.id x.status (set_price s x.id (then_parse parse_price x.price) rows))

-- A schedule that is deleted is found too.
unfoldable pub update_schedule_seats :
    (String → Option ℕ) → ℤ → List UpdateSeatInput → Database → Database × Result (Unit {0})
update_schedule_seats parse_price s [] db = (db, err (bad_request "seats array must not be empty"))
update_schedule_seats parse_price s (x ∷ xs) db =
    if is_found (find_where (has_id s) db.schedules)
    then (
      record db { schedule_seats = update_seats parse_price s (x ∷ xs) db.schedule_seats },
      ok tt,
    )
    else (db, err not_there)
