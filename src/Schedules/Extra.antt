-- ===== src/Schedules/Extra.antt =====
-- `add_extra_seats` of apps/http-server/src/api/admin/schedules_v2.rs. It runs in one transaction that
-- locks the schedule's row, so that an error leaves the tables as they were.
use bookit.Common.{
  ℕ, suc, ◌+◌, Bool, false, Option, none, some, List, [], ◌∷◌, ◌++◌, String, ℤ, ◌==ℤ◌, leb, ltb,
  if◌then◌else◌, length,
}
use bookit.Payment.Tables.{find_where}
use bookit.Schedules.Tables.{
  SeatClass, extra, LifecycleState, scheduled, opened, closed, Schedule, ScheduleSeat,
  NewScheduleSeat, Database, AppError, bad_request, not_found, internal, Result, ok, err, seats_of,
  insert_all, Key, mem_key,
}
use bookit.Schedules.Create.{max_i32}

pub record ExtraSeatInput : Type 0 where
  pub row_letter : String
  pub seat_number : ℤ
  pub seat_class : SeatClass
  pub price : String

abbrev pub live : ℤ → Schedule → Bool
live s r = if r.is_deleted then false else (r.id ==ℤ s)

-- The row of a schedule that is not deleted.
abbrev pub find_live : ℤ → Database → Option Schedule
find_live s db = find_where (live s) db.schedules

-- `HashSet::insert`, of a set that is listed
unfoldable pub insert_key : Key → List Key → List Key
insert_key k keys = if mem_key k keys then keys else k ∷ keys

unfoldable pub collect_keys : List Key → List ScheduleSeat → List Key
collect_keys keys [] = keys
collect_keys keys (r ∷ rows) = collect_keys (insert_key (r.row_letter, r.seat_number) keys) rows

-- The first index of the rows in falling order, or 0.
unfoldable pub max_index : List ScheduleSeat → ℕ
max_index [] = 0
max_index (r ∷ rows) =
    let rest = max_index rows in if leb r.seat_index rest then rest else r.seat_index

-- `checked_add(1)` of an i32
abbrev pub checked_succ : ℕ → Option ℕ
checked_succ n = if ltb n max_i32 then some (suc n) else none

abbrev pub too_many : AppError
too_many = bad_request "Schedule contains too many seats"

-- What the loop over the request's seats holds.
pub record Adding : Type 0 where
  pub request_seat_keys : List Key
  pub existing_seat_keys : List Key
  pub next_seat_index : ℕ
  pub new_seats : List NewScheduleSeat

abbrev pub extra_of : ℤ → ℕ → ExtraSeatInput → ℕ → NewScheduleSeat
extra_of s n x price = record {
  schedule_id = s;
  seat_index = n;
  layout_seat_id = none;
  source = extra;
  row_letter = x.row_letter;
  seat_number = x.seat_number;
  seat_class = x.seat_class;
  price = price;
}

-- `next_seat_index` after the push
abbrev pub advance : Adding → Option ℕ → Result Adding
advance st none = err too_many
advance st (some n) = ok (record st { next_seat_index = n })

abbrev pub with_keys : Key → Adding → Adding
with_keys k st = record st {
  request_seat_keys = insert_key k st.request_seat_keys;
  existing_seat_keys = insert_key k st.existing_seat_keys;
}

unfoldable pub push_seat : ℤ → ExtraSeatInput → Option ℕ → Adding → Result Adding
push_seat s x none st = err (bad_request "Invalid price")
push_seat s x (some price) st =
    advance
      (record (with_keys (x.row_letter, x.seat_number) st) {
        new_seats = st.new_seats ++ (extra_of s st.next_seat_index x price ∷ []);
      })
      (checked_succ st.next_seat_index)

unfoldable pub add_seat : (String → Option ℕ) → ℤ → ExtraSeatInput → Adding → Result Adding
add_seat parse_price s x st =
    let k : Key = (x.row_letter, x.seat_number) in
    if mem_key k st.request_seat_keys
    then ok st
    else if mem_key k st.existing_seat_keys
    then ok (record st { request_seat_keys = insert_key k st.request_seat_keys })
    else push_seat s x (parse_price x.price) st

abbrev pub and_then_add : Result Adding → (Adding → Result Adding) → Result Adding
and_then_add (ok st) f = f st
and_then_add (err e) f = err e

unfoldable pub add_seats : (String → Option ℕ) → ℤ → List ExtraSeatInput → Adding → Result Adding
add_seats parse_price s [] st = ok st
add_seats parse_price s (x ∷ xs) st =
    and_then_add (add_seat parse_price s x st) (add_seats parse_price s xs)

abbrev pub start_adding : List ScheduleSeat → ℕ → Adding
start_adding rows n = record {
  request_seat_keys = [];
  existing_seat_keys = collect_keys [] rows;
  next_seat_index = n;
  new_seats = [];
}

-- The insertion and its answer, the number of seats that were added.
abbrev pub inserted : ℕ → Database → Option (List ScheduleSeat) → Database × Result ℕ
inserted n db none = (db, err (internal "insert"))
inserted n db (some rows) =
    (record db { next_seat = db.next_seat + n; schedule_seats = rows }, ok n)

unfoldable pub insert_extra : Result Adding → Database → Database × Result ℕ
insert_extra (err e) db = (db, err e)
insert_extra (ok st) db =
    inserted (length st.new_seats) db (insert_all db.next_seat st.new_seats db.schedule_seats)

unfoldable pub add_numbered :
    (String → Option ℕ) → ℤ → List ExtraSeatInput → Option ℕ → Database → Database × Result ℕ
add_numbered parse_price s xs none db = (db, err too_many)
add_numbered parse_price s xs (some n) db =
    insert_extra (add_seats parse_price s xs (start_adding (seats_of s db.schedule_seats) n)) db

-- The rest of the transaction, by the state of the schedule.
unfoldable pub add_by_state :
    (String → Option ℕ) → ℤ → List ExtraSeatInput → LifecycleState → Database → Database × Result ℕ
add_by_state parse_price s xs scheduled db =
    add_numbered parse_price s xs (checked_succ (max_index (seats_of s db.schedule_seats))) db
add_by_state parse_price s xs opened db =
    (db, err (bad_request "Cannot add seats after the schedule has started"))
add_by_state parse_price s xs closed db =
    (db, err (bad_request "Cannot add seats after the schedule has started"))

abbrev pub add_found :
    (String → Option ℕ) → ℤ → List ExtraSeatInput → Option Schedule → Database → Database × Result ℕ
add_found parse_price s xs none db = (db, err (not_found "Schedule not found"))
add_found parse_price s xs (some r) db = add_by_state parse_price s xs r.lifecycle_state db

unfoldable pub add_extra_seats :
    (String → Option ℕ) → ℤ → List ExtraSeatInput → Database → Database × Result ℕ
add_extra_seats parse_price s [] db = (db, err (bad_request "seats must not be empty"))
add_extra_seats parse_price s (x ∷ xs) db = add_found parse_price s (x ∷ xs) (find_live s db) db
