-- ===== src/WebSocket/Metadata.antt =====
-- `verified_seat_metadata`, `on_lock_request` and `on_unlock_request` of apps/ws-server/src/hooks.rs.
-- Requests of one schedule wait for one load of its metadata, so that the loads happen one at a time; a
-- query that fails leaves the cell empty.
use bookit.Common.{
  ℕ, Bool, true, false, Option, none, some, List, [], ◌∷◌, ℤ, pos, ◌==ℤ◌, ltb, ◌==◌, if◌then◌else◌,
  length,
}
use bookit.Schedules.Tables.{
  LifecycleState, scheduled, opened, closed, Schedule, ScheduleSeat, Database, seats_of,
}
use bookit.Schedules.Create.{max_i32}
use bookit.Schedules.Extra.{find_live}
use bookit.SeatMap.Counts.{get_count}

pub data HookError : Type 0 where
  not_aligned no_schedule not_open too_many_seats no_seats wrong_total : HookError
  invalid_index : ℤ → HookError

pub data Result {ℓ} (A : Type ℓ) : Type ℓ where
  ok : A → Result A
  err : HookError → Result A

pub record ScheduleSeatMetadata : Type 0 where
  pub total_seat_count : ℕ
  pub seat_indices : List (ℤ × ℕ)

-- `rows.into_iter().collect()` into a map: an insertion puts its pair in front.
unfoldable pub collect_indices : List (ℤ × ℕ) → List ScheduleSeat → List (ℤ × ℕ)
collect_indices m [] = m
collect_indices m (r ∷ rows) = collect_indices ((r.id, r.seat_index) ∷ m) rows

abbrev pub metadata_of : List ScheduleSeat → ScheduleSeatMetadata
metadata_of rows = record { total_seat_count = length rows; seat_indices = collect_indices [] rows }

abbrev pub with_rows : List ScheduleSeat → Result ScheduleSeatMetadata
with_rows rows =
    if ltb max_i32 (length rows)
    then err too_many_seats
    else if length rows == 0
    then err no_seats
    else ok (metadata_of rows)

abbrev pub load_by_state : LifecycleState → List ScheduleSeat → Result ScheduleSeatMetadata
load_by_state opened rows = with_rows rows
load_by_state scheduled rows = err not_open
load_by_state closed rows = err not_open

abbrev pub load_found : Option Schedule → List ScheduleSeat → Result ScheduleSeatMetadata
load_found none rows = err no_schedule
load_found (some r) rows = load_by_state r.lifecycle_state rows

unfoldable pub load_metadata : Database → ℤ → Result ScheduleSeatMetadata
load_metadata db s = load_found (find_live s db) (seats_of s db.schedule_seats)

-- The cells that are filled.
abbrev pub Cells : Type 0
Cells = List (ℤ × ScheduleSeatMetadata)

abbrev pub store : ℤ → Result ScheduleSeatMetadata → Cells → Cells × Result ScheduleSeatMetadata
store s (ok m) cells = ((s, m) ∷ cells, ok m)
store s (err e) cells = (cells, err e)

abbrev pub get_or_load :
    Database → ℤ → Option ScheduleSeatMetadata → Cells → Cells × Result ScheduleSeatMetadata
get_or_load db s (some m) cells = (cells, ok m)
get_or_load db s none cells = store s (load_metadata db s) cells

abbrev pub same_index : Option ℕ → ℤ → Bool
same_index none x = false
same_index (some n) x = pos n ==ℤ x

-- The loop over the pairs of the request, to the first that the metadata does not have.
unfoldable pub check_pairs : List (ℤ × ℕ) → List ℤ → List ℤ → Option HookError
check_pairs m (s ∷ ss) (x ∷ xs) =
    let rest = check_pairs m ss xs in
    if same_index (get_count s m) x then rest else some (invalid_index s)
check_pairs m [] xs = none
check_pairs m (s ∷ ss) [] = none

abbrev pub unless_error : Option HookError → List ℤ → ℕ → Result (List ℤ × ℕ)
unless_error none xs n = ok (xs, n)
unless_error (some e) xs n = err e

abbrev pub check_metadata : List ℤ → List ℤ → ℤ → Result ScheduleSeatMetadata → Result (List ℤ × ℕ)
check_metadata ss xs total (err e) = err e
check_metadata ss xs total (ok m) =
    if pos m.total_seat_count ==ℤ total
    then unless_error (check_pairs m.seat_indices ss xs) xs m.total_seat_count
    else err wrong_total

abbrev pub checked :
    List ℤ → List ℤ → ℤ → Cells × Result ScheduleSeatMetadata → Cells × Result (List ℤ × ℕ)
checked ss xs total (cells, m) = (cells, check_metadata ss xs total m)

abbrev pub is_aligned : List ℤ → List ℤ → Bool
is_aligned [] xs = false
is_aligned (s ∷ ss) xs = length (s ∷ ss) == length xs

unfoldable pub verified_seat_metadata :
    Database → ℤ → List ℤ → List ℤ → ℤ → Cells → Cells × Result (List ℤ × ℕ)
verified_seat_metadata db s ss xs total cells =
    if is_aligned ss xs
    then checked ss xs total (get_or_load db s (get_count s cells) cells)
    else (cells, err not_aligned)

-- What a hook sends to the user's sockets.
pub data Response : Type 0 where
  lock_slots_response : Bool → List ℤ → List ℤ → Response
  unlock_slots_response : Bool → List ℤ → Response

-- What the gateway is asked, with the user, and what it answers over gRPC: whether it takes the request
-- to lock, and for one to unlock its result.
pub record SlotRequest : Type 0 where
  pub schedule_id : ℤ
  pub seat_ids : List ℤ
  pub seat_indices : List ℤ
  pub total_seat_count : ℕ
  pub user_id : ℤ

abbrev pub lock_answer : Bool → List ℤ → Option Response
lock_answer true ss = none
lock_answer false ss = some (lock_slots_response false [] ss)

abbrev pub ask_lock :
    (SlotRequest → Bool) → ℤ → ℤ → List ℤ → Cells × Result (List ℤ × ℕ) → Cells × Option Response
ask_lock lock_slot u s ss (cells, err e) = (cells, some (lock_slots_response false [] ss))
ask_lock lock_slot u s ss (cells, ok (xs, n)) = (
  cells,
  lock_answer
      (lock_slot (record {
        schedule_id = s;
        seat_ids = ss;
        seat_indices = xs;
        total_seat_count = n;
        user_id = u;
      }))
      ss,
)

unfoldable pub on_lock_request :
    (SlotRequest → Bool) → Database → ℤ → ℤ → List ℤ → List ℤ → ℤ → Cells → Cells × Option Response
on_lock_request lock_slot db u s ss xs total cells =
    ask_lock lock_slot u s ss (verified_seat_metadata db s ss xs total cells)

abbrev pub unlock_answer : Option (Bool × List ℤ) → Response
unlock_answer none = unlock_slots_response false []
unlock_answer (some (success, unlocked)) = unlock_slots_response success unlocked

abbrev pub ask_unlock :
    (SlotRequest → Option (Bool × List ℤ))
    → ℤ
    → ℤ
    → List ℤ
    → Cells × Result (List ℤ × ℕ)
    → Cells × Response
ask_unlock unlock_slot u s ss (cells, err e) = (cells, unlock_slots_response false [])
ask_unlock unlock_slot u s ss (cells, ok (xs, n)) = (
  cells,
  unlock_answer (
      unlock_slot (record {
        schedule_id = s;
        seat_ids = ss;
        seat_indices = xs;
        total_seat_count = n;
        user_id = u;
      })),
)

unfoldable pub on_unlock_request :
    (SlotRequest → Option (Bool × List ℤ))
    → Database
    → ℤ
    → ℤ
    → List ℤ
    → List ℤ
    → ℤ
    → Cells
    → Cells × Response
on_unlock_request unlock_slot db u s ss xs total cells =
    ask_unlock unlock_slot u s ss (verified_seat_metadata db s ss xs total cells)
