-- ===== src/Schedules/Tables.antt =====
-- The tables `schedules`, `seat_layout_seats` and `schedule_seats` (packages/db/src/models.rs and its
-- migrations) as lists of rows, and the statements on them that the admin's handlers make. An
-- instant is a signed number, a date whatever chrono makes of its text; a price is in units of 1/100.
use bookit.Common.{
  ℕ, ◌+◌, Bool, true, false, ◌&&◌, ◌||◌, Option, none, some, List, [], ◌∷◌, ◌++◌, String, ℤ, pos,
  ◌==ℤ◌, ◌==◌, if◌then◌else◌, same_text,
}
use bookit.Payment.Tables.{SeatStatus, available}

pub data ShowType : Type 0 where
  movie concert event game_event : ShowType

pub data TimeSlot : Type 0 where
  morning afternoon evening night : TimeSlot

pub data LifecycleState : Type 0 where
  scheduled opened closed : LifecycleState

pub data SeatClass : Type 0 where
  standard premium vip ga : SeatClass

pub data SeatSource : Type 0 where
  base extra : SeatSource

-- A row of `seat_layout_seats`, without what only the drawing of the layout reads.
pub record LayoutSeat : Type 0 where
  pub id : ℤ
  pub layout_id : ℤ
  pub row_letter : String
  pub seat_number : ℤ
  pub seat_class : SeatClass

pub record Schedule : Type 0 where
  pub id : ℤ
  pub mongo_show_id : String
  pub show_type : ShowType
  pub layout_id : ℤ
  pub start_time : ℤ
  pub end_time : ℤ
  pub booking_open_at : ℤ
  pub date : ℕ
  pub slot : TimeSlot
  pub venue_city : String
  pub lifecycle_state : LifecycleState
  pub is_deleted : Bool

pub record NewSchedule : Type 0 where
  pub mongo_show_id : String
  pub show_type : ShowType
  pub layout_id : ℤ
  pub start_time : ℤ
  pub end_time : ℤ
  pub booking_open_at : ℤ
  pub date : ℕ
  pub slot : TimeSlot
  pub venue_city : String

-- The row that a new schedule becomes; its state has the default of the column.
abbrev pub schedule_row : ℕ → NewSchedule → Schedule
schedule_row n x = record {
  id = pos n;
  mongo_show_id = x.mongo_show_id;
  show_type = x.show_type;
  layout_id = x.layout_id;
  start_time = x.start_time;
  end_time = x.end_time;
  booking_open_at = x.booking_open_at;
  date = x.date;
  slot = x.slot;
  venue_city = x.venue_city;
  lifecycle_state = scheduled;
  is_deleted = false;
}

-- A row of `schedule_seats`; a constraint of the table keeps `seat_index` at 1 or more.
pub record ScheduleSeat : Type 0 where
  pub id : ℤ
  pub schedule_id : ℤ
  pub seat_index : ℕ
  pub layout_seat_id : Option ℤ
  pub source : SeatSource
  pub row_letter : String
  pub seat_number : ℤ
  pub seat_class : SeatClass
  pub price : ℕ
  pub status : SeatStatus

pub record NewScheduleSeat : Type 0 where
  pub schedule_id : ℤ
  pub seat_index : ℕ
  pub layout_seat_id : Option ℤ
  pub source : SeatSource
  pub row_letter : String
  pub seat_number : ℤ
  pub seat_class : SeatClass
  pub price : ℕ

-- The sequences give the ids of the next rows.
pub record Database : Type 0 where
  pub next_schedule : ℕ
  pub next_seat : ℕ
  pub schedules : List Schedule
  pub seat_layout_seats : List LayoutSeat
  pub schedule_seats : List ScheduleSeat

pub data AppError : Type 0 where
  bad_request not_found internal : String → AppError

pub data Result {ℓ} (A : Type ℓ) : Type ℓ where
  ok : A → Result A
  err : AppError → Result A

abbrev pub same_state : LifecycleState → LifecycleState → Bool
same_state scheduled scheduled = true
same_state opened opened = true
same_state closed closed = true
same_state _ _ = false

-- SELECT … WHERE
unfoldable pub select_where {ℓ} : {A : Type ℓ} → (A → Bool) → List A → List A
select_where p [] = []
select_where p (x ∷ xs) = if p x then x ∷ select_where p xs else select_where p xs

abbrev pub of_schedule : ℤ → ScheduleSeat → Bool
of_schedule s r = r.schedule_id ==ℤ s

unfoldable pub seats_of : ℤ → List ScheduleSeat → List ScheduleSeat
seats_of s rows = select_where (of_schedule s) rows

-- The row that a new seat becomes; its status has the default of the column.
abbrev pub row_of : ℕ → NewScheduleSeat → ScheduleSeat
row_of n x = record {
  id = pos n;
  schedule_id = x.schedule_id;
  seat_index = x.seat_index;
  layout_seat_id = x.layout_seat_id;
  source = x.source;
  row_letter = x.row_letter;
  seat_number = x.seat_number;
  seat_class = x.seat_class;
  price = x.price;
  status = available;
}

-- UNIQUE (schedule_id, row_letter, seat_number) and UNIQUE (schedule_id, seat_index)
abbrev pub clashes : NewScheduleSeat → ScheduleSeat → Bool
clashes x r =
    (r.schedule_id ==ℤ x.schedule_id)
    && ((r.seat_index == x.seat_index)
        || (same_text r.row_letter x.row_letter && (r.seat_number ==ℤ x.seat_number)))

unfoldable pub conflicts : NewScheduleSeat → List ScheduleSeat → Bool
conflicts x [] = false
conflicts x (r ∷ rows) = clashes x r || conflicts x rows

-- INSERT … ON CONFLICT DO NOTHING, of one row and of several; a row that is left out has used up its id.
unfoldable pub insert_unless_conflict : ℕ → NewScheduleSeat → List ScheduleSeat → List ScheduleSeat
insert_unless_conflict n x rows = if conflicts x rows then rows else rows ++ (row_of n x ∷ [])

unfoldable pub insert_on_conflict_do_nothing :
    ℕ → List NewScheduleSeat → List ScheduleSeat → List ScheduleSeat
insert_on_conflict_do_nothing n [] rows = rows
insert_on_conflict_do_nothing n (x ∷ xs) rows =
    insert_on_conflict_do_nothing (n + 1) xs (insert_unless_conflict n x rows)

-- INSERT, of all the rows or, where one of them conflicts, of none
unfoldable pub insert_all :
    ℕ → List NewScheduleSeat → List ScheduleSeat → Option (List ScheduleSeat)
insert_all n [] rows = some rows
insert_all n (x ∷ xs) rows =
    let inserted = insert_all (n + 1) xs (rows ++ (row_of n x ∷ [])) in
    if conflicts x rows then none else inserted

-- A seat's place in the hall: the row's letter and the number.
abbrev pub Key : Type 0
Key = String × ℤ

abbrev pub same_key : Key → Key → Bool
same_key (r, n) (q, m) = same_text r q && (n ==ℤ m)

-- `HashSet::contains`, of a set that is listed
unfoldable pub mem_key : Key → List Key → Bool
mem_key k [] = false
mem_key k (j ∷ keys) = same_key j k || mem_key k keys
