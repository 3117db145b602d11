-- ===== src/SeatMap/View.antt =====
-- The answers to users about schedules (apps/http-server/src/api/user/schedules_v2.rs): `get_schedule_seats`,
-- `list_active_schedules`, `get_schedules_for_show` and `get_schedule_details`, without the show's document
-- from MongoDB; and `list_schedules` of the admins (apps/http-server/src/api/admin/schedules_v2.rs).
use bookit.Common.{
  ℕ, ◌*◌, ◌≡◌, refl, ap, ◌∙◌, Bool, true, false, ◌&&◌, not, Option, none, some, List, [], ◌∷◌, map,
  ℤ, pos, leb, leb_ℤ, ltb, if◌then◌else◌, String, same_text, trim, is_blank, same_ignoring_case,
  sub_ℕ,
}
use bookit.Payment.Tables.{SeatStatus, find_where}
use bookit.Schedules.Tables.{
  LifecycleState, opened, closed, same_state, Schedule, ScheduleSeat, Database, seats_of,
  select_where,
}
use bookit.Schedules.Create.{unwrap_or}
use bookit.Schedules.Lifecycle.{has_id}
use bookit.SeatMap.Bitmap.{SeatState, available, locked, booked, bitmap_seat_status, from_bitmap}
use bookit.SeatMap.Counts.{get_count, SeatCounts, load_schedule_seat_counts, total_in, available_in}
use bookit.SeatMap.Decoded.{encode, Fields, bitmap_seat_status-encode}

abbrev pub database_status : SeatStatus → SeatState
database_status SeatStatus.available = available
database_status SeatStatus.locked = locked
database_status SeatStatus.booked = booked

pub record SeatView : Type 0 where
  pub id : ℤ
  pub seat_index : ℕ
  pub price : ℕ
  pub status : SeatState
  pub locked_by_user_id : Option ℤ

abbrev pub snapshot_status : Option (List ℕ) → ℤ → Option SeatState
snapshot_status none seat_id = none
snapshot_status (some bitmap) seat_id = bitmap_seat_status bitmap seat_id

abbrev pub owner_if_locked : SeatState → Option ℤ → Option ℤ
owner_if_locked locked owner = owner
owner_if_locked available owner = none
owner_if_locked booked owner = none

-- `owner` is what GET on the lock key of a seat answers, none where it is not answered.
unfoldable pub seat_view : Option (List ℕ) → (ℤ → Option ℤ) → ScheduleSeat → SeatView
seat_view bitmap owner r =
    let status : SeatState = unwrap_or (database_status r.status) (snapshot_status bitmap r.id) in
    record {
      id = r.id;
      seat_index = r.seat_index;
      price = r.price;
      status = status;
      locked_by_user_id = owner_if_locked status (owner r.id);
    }

unfoldable pub insert_by_index : ScheduleSeat → List ScheduleSeat → List ScheduleSeat
insert_by_index r [] = r ∷ []
insert_by_index r (q ∷ rows) =
    let rest = insert_by_index r rows in
    if leb r.seat_index q.seat_index then r ∷ q ∷ rows else q ∷ rest

-- ORDER BY seat_index
unfoldable pub order_by_index : List ScheduleSeat → List ScheduleSeat
order_by_index [] = []
order_by_index (r ∷ rows) = insert_by_index r (order_by_index rows)

pub record SeatsAnswer : Type 0 where
  pub lifecycle_state : LifecycleState
  pub booking_open : Bool
  pub seats : List SeatView

abbrev pub seats_answer :
    Option (List ℕ) → (ℤ → Option ℤ) → List ScheduleSeat → Option Schedule → Option SeatsAnswer
seats_answer bitmap owner rows none = none
seats_answer bitmap owner rows (some r) = some (record {
  lifecycle_state = r.lifecycle_state;
  booking_open = same_state r.lifecycle_state opened;
  seats = map (seat_view bitmap owner) (order_by_index rows);
})

-- The answer none is 404.
unfoldable pub get_schedule_seats :
    Option (List ℕ) → (ℤ → Option ℤ) → ℤ → Database → Option SeatsAnswer
get_schedule_seats bitmap owner s db =
    seats_answer bitmap owner (seats_of s db.schedule_seats) (find_where (has_id s) db.schedules)

abbrev pub lt_time : ℤ → ℤ → Bool
lt_time a b = not (leb_ℤ b a)

-- A schedule that is not deleted, not closed and still to come.
abbrev pub is_upcoming : ℤ → Schedule → Bool
is_upcoming now r =
    not r.is_deleted && (not (same_state r.lifecycle_state closed) && lt_time now r.start_time)

unfoldable pub insert_by_start : Schedule → List Schedule → List Schedule
insert_by_start r [] = r ∷ []
insert_by_start r (q ∷ rows) =
    let rest = insert_by_start r rows in
    if leb_ℤ r.start_time q.start_time then r ∷ q ∷ rows else q ∷ rest

-- ORDER BY start_time
unfoldable pub order_by_start : List Schedule → List Schedule
order_by_start [] = []
order_by_start (r ∷ rows) = insert_by_start r (order_by_start rows)

abbrev pub keep_city : String → Option String
keep_city c = if is_blank c then none else if same_ignoring_case c "All" then none else some c

abbrev pub selected_city : Option String → Option String
selected_city none = none
selected_city (some c) = keep_city (trim c)

abbrev pub in_city : Option String → Schedule → Bool
in_city none r = true
in_city (some c) r = same_text r.venue_city c

pub record ScheduleView : Type 0 where
  pub id : ℤ
  pub booking_open : Bool
  pub total_seats : ℤ
  pub available_seats : ℤ

abbrev pub schedule_view : SeatCounts → Schedule → ScheduleView
schedule_view c r = record {
  id = r.id;
  booking_open = same_state r.lifecycle_state opened;
  total_seats = unwrap_or (pos 0) (get_count r.id c.totals);
  available_seats = unwrap_or (pos 0) (get_count r.id c.available);
}

abbrev pub view_all : List Schedule → Option SeatCounts → Option (List ScheduleView)
view_all rows none = none
view_all rows (some c) = some (map (schedule_view c) rows)

-- The caches that the lists are read from: the rows of a list, and the counts of a schedule.
pub record Cached : Type 0 where
  pub rows : Option (List Schedule)
  pub total : ℤ → Option ℤ
  pub available : ℤ → Option ℤ

-- The rows of the cache are filtered again, since time has passed.
abbrev pub shown :
    Cached → ℤ → Option (List ScheduleSeat) → List Schedule → Option (List ScheduleView)
shown cached now seats loaded =
    let rows : List Schedule = select_where (is_upcoming now) (unwrap_or loaded cached.rows) in
    view_all rows
      (load_schedule_seat_counts cached.total cached.available seats (map (λ r. r.id) rows))

-- `seats` is none where the query of the counts fails.
unfoldable pub list_active_schedules :
    Cached → ℤ → Option (List ScheduleSeat) → Database → Option (List ScheduleView)
list_active_schedules cached now seats db =
    shown cached now seats (order_by_start (select_where (is_upcoming now) db.schedules))

abbrev pub of_show : ℤ → Option String → String → Schedule → Bool
of_show now city show_id r =
    same_text r.mongo_show_id show_id && (is_upcoming now r && in_city city r)

unfoldable pub get_schedules_for_show :
    Cached
    → ℤ
    → Option String
    → String
    → Option (List ScheduleSeat)
    → Database
    → Option (List ScheduleView)
get_schedules_for_show cached now city show_id seats db =
    shown cached now seats
      (order_by_start (select_where (of_show now (selected_city city) show_id) db.schedules))

abbrev pub unless_deleted : Option Schedule → Option Schedule
unless_deleted none = none
unless_deleted (some r) = if r.is_deleted then none else some r

abbrev pub or_loaded : Option Schedule → Option Schedule → Option Schedule
or_loaded none loaded = loaded
or_loaded (some r) loaded = some r

-- The answer none is 404.
unfoldable pub get_schedule_details : Option Schedule → ℤ → Database → Option Schedule
get_schedule_details cached s db =
    unless_deleted (or_loaded cached (find_where (has_id s) db.schedules))

pub record AdminView : Type 0 where
  pub id : ℤ
  pub booking_open : Bool
  pub total_seats : ℕ
  pub available_seats : ℕ
  pub booked_seats : ℤ

abbrev pub admin_view : List ℤ → List ScheduleSeat → Schedule → AdminView
admin_view ids rows r =
    let total = total_in ids rows r.id in
    let free = available_in ids rows r.id in
    record {
      id = r.id;
      booking_open = same_state r.lifecycle_state opened;
      total_seats = total;
      available_seats = free;
      booked_seats = sub_ℕ total free;
    }

abbrev pub not_deleted : Schedule → Bool
not_deleted r = not r.is_deleted

unfoldable pub list_schedules : Database → List AdminView
list_schedules db =
    let rows = order_by_start (select_where not_deleted db.schedules) in
    map (admin_view (map (λ r. r.id) rows) db.schedule_seats) rows

status_if :
    (b : Bool) (st fallback : SeatState)
    → unwrap_or fallback (if b then some st else none) ≡ (if b then st else fallback)
status_if true st fallback = refl
status_if false st fallback = refl

-- A seat is shown with the state that Redis has for it, as far as the value of the bitmap reaches, and
-- with that of the table beyond it.
pub seat_view-encode :
    (field : ℕ → ℕ) (k n : ℕ) (owner : ℤ → Option ℤ) (r : ScheduleSeat)
    → Fields field
    → r.id ≡ pos n
    → (seat_view (some (encode field 0 k)) owner r).status
      ≡ (if ltb n (4 * k) then from_bitmap (field n) else database_status r.status)
unfolding seat_view
seat_view-encode field k n owner r h e =
    ap (λ i. unwrap_or (database_status r.status) (bitmap_seat_status (encode field 0 k) i)) e
    ∙ ap (unwrap_or (database_status r.status)) (bitmap_seat_status-encode field k n h)
    ∙ status_if (ltb n (4 * k)) (from_bitmap (field n)) (database_status r.status)
