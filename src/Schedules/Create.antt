-- ===== src/Schedules/Create.antt =====
-- `create_schedule` of apps/http-server/src/api/admin/schedules_v2.rs. The parsers of chrono, bson and
-- bigdecimal and the collection of shows in MongoDB are parameters.
use bookit.Common.{
  ℕ, suc, ◌+◌, ◌-◌, ◌^◌, Ordering, Bool, true, false, not, Option, none, some, List, [], ◌∷◌, ◌++◌,
  String, ℤ, pos, ◌==ℤ◌, leb, leb_ℤ, compare_ℤ, if◌then◌else◌, same_text, is_blank, trim, then_with,
  compare_text, length,
}
use bookit.Schedules.Tables.{
  ShowType, movie, concert, event, game_event, TimeSlot, morning, afternoon, evening, night,
  SeatClass, standard, premium, vip, ga, base, LayoutSeat, NewSchedule, schedule_row,
  NewScheduleSeat, Database, AppError, bad_request, not_found, internal, Result, ok, err,
  select_where, insert_on_conflict_do_nothing, Key, mem_key,
}

abbrev pub max_i32 : ℕ
max_i32 = 2 ^ 31 - 1

pub record CreateScheduleRequest : Type 0 where
  pub mongo_show_id : String
  pub show_type : ShowType
  pub layout_id : ℤ
  pub date : String
  pub slot : TimeSlot
  pub start_time : Option String
  pub end_time : String
  pub booking_open_at : String
  pub prices : List (String × String)
  pub venue_city : String

abbrev pub show_types_match : ShowType → ShowType → Bool
show_types_match movie movie = true
show_types_match concert concert = true
show_types_match event event = true
show_types_match game_event game_event = true
show_types_match _ _ = false

abbrev pub hour_of : TimeSlot → ℕ
hour_of morning = 10
hour_of afternoon = 14
hour_of evening = 18
hour_of night = 22

abbrev pub class_key : SeatClass → String
class_key standard = "Standard"
class_key premium = "Premium"
class_key vip = "VIP"
class_key ga = "GA"

-- `HashMap::get`; the keys of a map differ.
unfoldable pub get_price : String → List (String × String) → Option String
get_price k [] = none
get_price k ((j, v) ∷ prices) = if same_text j k then some v else get_price k prices

abbrev pub or_else : Option String → Option String → Option String
or_else (some v) w = some v
or_else none w = w

abbrev pub unwrap_or {ℓ} : {A : Type ℓ} → A → Option A → A
unwrap_or a none = a
unwrap_or a (some b) = b

-- The text of a class's price: that of the class, else that of the standard class, else "0".
unfoldable pub price_str : SeatClass → List (String × String) → String
price_str c prices =
    unwrap_or "0" (or_else (get_price (class_key c) prices) (get_price "Standard" prices))

-- The order of the row's letter, the number and the id.
abbrev pub compare_seats : LayoutSeat → LayoutSeat → Ordering
compare_seats a b =
    then_with (compare_text a.row_letter b.row_letter)
      (then_with (compare_ℤ a.seat_number b.seat_number) (compare_ℤ a.id b.id))

abbrev pub is_after : Ordering → Bool
is_after Ordering.gt = true
is_after _ = false

-- `sort_by` is stable.
unfoldable pub insert_by : LayoutSeat → List LayoutSeat → List LayoutSeat
insert_by x [] = x ∷ []
insert_by x (y ∷ ys) =
    let rest = insert_by x ys in if is_after (compare_seats x y) then y ∷ rest else x ∷ y ∷ ys

unfoldable pub sort_by : List LayoutSeat → List LayoutSeat
sort_by [] = []
sort_by (x ∷ xs) = insert_by x (sort_by xs)

-- What the loop over the layout's seats holds: `seen_seat_keys` and `new_seats`.
pub record Copied : Type 0 where
  pub seen : List Key
  pub new_seats : List NewScheduleSeat

abbrev pub copy_of :
    (String → Option ℕ) → List (String × String) → ℤ → ℕ → LayoutSeat → NewScheduleSeat
copy_of parse_price prices s n x = record {
  schedule_id = s;
  seat_index = n;
  layout_seat_id = some x.id;
  source = base;
  row_letter = x.row_letter;
  seat_number = x.seat_number;
  seat_class = x.seat_class;
  price = unwrap_or 0 (parse_price (price_str x.seat_class prices));
}

abbrev pub too_many_seats : AppError
too_many_seats = bad_request "Seat layout contains too many seats"

-- One round; the answer none is `i32::try_from` that fails.
unfoldable pub copy_seat :
    (String → Option ℕ) → List (String × String) → ℤ → LayoutSeat → Copied → Option Copied
copy_seat parse_price prices s x st =
    let n = suc (length st.new_seats) in
    if mem_key (x.row_letter, x.seat_number) st.seen
    then some st
    else if leb n max_i32
    then some (record {
      seen = (x.row_letter, x.seat_number) ∷ st.seen;
      new_seats = st.new_seats ++ (copy_of parse_price prices s n x ∷ []);
    })
    else none

abbrev pub and_then {ℓ} : {A B : Type ℓ} → Option A → (A → Option B) → Option B
and_then none f = none
and_then (some a) f = f a

unfoldable pub copy_seats :
    (String → Option ℕ) → List (String × String) → ℤ → List LayoutSeat → Copied → Option Copied
copy_seats parse_price prices s [] st = some st
copy_seats parse_price prices s (x ∷ xs) st =
    and_then (copy_seat parse_price prices s x st) (copy_seats parse_price prices s xs)

abbrev pub of_layout : ℤ → LayoutSeat → Bool
of_layout l x = x.layout_id ==ℤ l

-- What the parameters make of the request: the answer of MongoDB (none where it fails, some none where
-- there is no such show), the day, and the instants.
pub data FoundShow : Type 0 where
  mongo_fails no_show : FoundShow
  found : ShowType → FoundShow

pub record Parsers : Type 0 where
  pub is_object_id : String → Bool
  pub parse_date : String → Option ℕ
  pub parse_rfc3339 : String → Option ℤ
  -- `and_hms_opt(hour, 0, 0)`
  pub at_hour : ℕ → ℕ → Option ℤ
  pub parse_price : String → Option ℕ

-- The answers of MongoDB, and whether PostgreSQL carries out the two insertions.
pub record CreateEnv : Type 0 where
  pub find_show : String → FoundShow
  pub inserts_schedule : Bool
  pub inserts_seats : Bool

abbrev pub check_show : ShowType → FoundShow → Result (Unit {0})
check_show t mongo_fails = err (internal "find_one")
check_show t no_show = err (not_found "Show not found or has been deleted")
check_show t (found u) =
    if show_types_match t u
    then ok tt
    else err (bad_request "show_type does not match the referenced MongoDB show")

infixl 20 ◌>>=◌
abbrev pub ◌>>=◌ {ℓ} : {A B : Type ℓ} → Result A → (A → Result B) → Result B
ok a >>= f = f a
err e >>= f = err e

abbrev pub ok_or {ℓ} : {A : Type ℓ} → AppError → Option A → Result A
ok_or e none = err e
ok_or e (some a) = ok a

abbrev pub ensure : Bool → AppError → Result (Unit {0})
ensure true e = ok tt
ensure false e = err e

abbrev pub start_of : Parsers → ℕ → TimeSlot → Option String → Result ℤ
start_of p date slot (some t) =
    ok_or (bad_request "Invalid start_time — use ISO-8601") (p.parse_rfc3339 t)
start_of p date slot none =
    ok_or (internal "Unable to derive start_time from date and slot")
      (p.at_hour date (hour_of slot))

abbrev pub lt_ℤ : ℤ → ℤ → Bool
lt_ℤ a b = not (leb_ℤ b a)

-- The checks before the database is asked, and the schedule to insert.
unfoldable pub validate : Parsers → CreateEnv → CreateScheduleRequest → Result NewSchedule
validate p env body = do
  u1 ← ensure (not (is_blank body.venue_city)) (bad_request "venue_city is required")
  u2 ←
      ensure (p.is_object_id (trim body.mongo_show_id))
        (bad_request "mongo_show_id must be a valid MongoDB ObjectId")
  u3 ← check_show body.show_type (env.find_show (trim body.mongo_show_id))
  date ← ok_or (bad_request "Invalid date format, expected YYYY-MM-DD") (p.parse_date body.date)
  start_time ← start_of p date body.slot body.start_time
  end_time ← ok_or (bad_request "Invalid end_time — use ISO-8601") (p.parse_rfc3339 body.end_time)
  booking_open_at ←
      ok_or (bad_request "Invalid booking_open_at — use ISO-8601")
        (p.parse_rfc3339 body.booking_open_at)
  u4 ←
      ensure (lt_ℤ booking_open_at start_time)
        (bad_request "booking_open_at must be before start_time")
  ok (record {
    mongo_show_id = trim body.mongo_show_id;
    show_type = body.show_type;
    layout_id = body.layout_id;
    start_time = start_time;
    end_time = end_time;
    booking_open_at = booking_open_at;
    date = date;
    slot = body.slot;
    venue_city = trim body.venue_city;
  })

-- The insertion of the seats, which is a statement of its own; the answer counts `new_seats`.
unfoldable pub insert_copied : Bool → Option Copied → Database → Database × Result ℕ
insert_copied inserts none db = (db, err too_many_seats)
insert_copied false (some c) db = (db, err (internal "insert"))
insert_copied true (some c) db = (
  record db {
    next_seat = db.next_seat + length c.new_seats;
    schedule_seats = insert_on_conflict_do_nothing db.next_seat c.new_seats db.schedule_seats;
  },
  ok (length c.new_seats),
)

abbrev pub insert_schedule : NewSchedule → Database → Database
insert_schedule new db = record db {
  next_schedule = suc db.next_schedule;
  schedules = db.schedules ++ (schedule_row db.next_schedule new ∷ []);
}

unfoldable pub store_schedule :
    Parsers
    → CreateEnv
    → CreateScheduleRequest
    → NewSchedule
    → List LayoutSeat
    → Database
    → Database × Result ℕ
store_schedule p env body new [] db =
    (db, err (bad_request "Seat layout has no seats — add seats to the layout first"))
store_schedule p env body new (x ∷ xs) db =
    if env.inserts_schedule
    then insert_copied env.inserts_seats
        (copy_seats p.parse_price body.prices (pos db.next_schedule) (sort_by (x ∷ xs))
          (record { seen = []; new_seats = [] }))
        (insert_schedule new db)
    else (record db { next_schedule = suc db.next_schedule }, err (internal "insert"))

abbrev pub store_valid :
    Parsers
    → CreateEnv
    → CreateScheduleRequest
    → Result NewSchedule
    → Database
    → Database × Result ℕ
store_valid p env body (err e) db = (db, err e)
store_valid p env body (ok new) db =
    store_schedule p env body new (select_where (of_layout body.layout_id) db.seat_layout_seats) db

-- The answer is the number of seats that the schedule got.
unfoldable pub create_schedule :
    Parsers → CreateEnv → CreateScheduleRequest → Database → Database × Result ℕ
create_schedule p env body db = store_valid p env body (validate p env body) db
