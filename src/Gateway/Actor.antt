-- ===== src/Gateway/Actor.antt =====
-- `CachePaddedShowActor` of apps/gateway-keeper/src/state_active.rs: the seat slots of a show and the
-- operations on them. `DashMap` and the boxed slice are functions; each operation here runs on its
-- own, and Gateway/Admission.antt and Gateway/Eviction.antt have the interleavings.
use bookit.Common.{
  ℕ, zero, suc, ◌-◌, ◌*◌, Bool, true, false, Option, none, some, ℤ, pos, negsuc, ◌==ℤ◌, ltb, ◌==◌,
  if◌then◌else◌,
}

abbrev pub state_available : ℕ
state_available = 0

abbrev pub state_processing : ℕ
state_processing = 1

abbrev pub actor_idle_ttl_secs : ℕ
actor_idle_ttl_secs = 2 * 60 * 60

-- The errors of the gateway, one for each message.
pub data Error : Type 0 where
  actor_closing count_mismatch seat_not_positive index_outside maps_to_different_index
        maps_to_different_seat lengths_differ schedule_closed count_outside no_memory in_checkout
        unavailable :
      Error

pub data Result {ℓ} (A : Type ℓ) : Type ℓ where
  ok : A → Result A
  err : Error → Result A

pub record SeatState : Type 0 where
  pub seat_id : ℤ
  pub state : ℕ

pub record Actor : Type 0 where
  pub seat_count : ℕ
  pub seat_states : ℕ → SeatState
  pub seat_indices : ℤ → Option ℕ
  pub last_access : ℕ
  pub in_flight : ℕ
  pub closing : Bool

unfoldable pub new : ℕ → ℕ → Actor
new seat_count unix_now = record {
  seat_count = seat_count;
  seat_states = λ i. record { seat_id = pos 0; state = state_available };
  seat_indices = λ s. none;
  last_access = unix_now;
  in_flight = 0;
  closing = false;
}

abbrev pub set_slot : Actor → ℕ → SeatState → Actor
set_slot a i x = record a { seat_states = λ j. if i == j then x else a.seat_states j }

abbrev pub set_index : Actor → ℤ → Option ℕ → Actor
set_index a s x = record a { seat_indices = λ t. if s ==ℤ t then x else a.seat_indices t }

-- Both loads of `closing` see one value where nothing runs in between.
unfoldable pub begin_request : ℕ → Actor → Actor × Result (Unit {0})
begin_request now a =
    if a.closing
    then (a, err actor_closing)
    else (record a { in_flight = suc a.in_flight; last_access = now }, ok tt)

-- `Drop` of `ActorRequestLease`
unfoldable pub drop_lease : ℕ → Actor → Actor
drop_lease now a = record a { last_access = now; in_flight = a.in_flight - 1 }

unfoldable pub try_begin_idle_eviction : ℕ → Actor → Actor × Bool
try_begin_idle_eviction now a =
    if ltb (now - a.last_access) actor_idle_ttl_secs
    then (a, false)
    else if a.closing
    then (a, false)
    else if a.in_flight == 0
    then (record a { closing = true }, true)
    else (a, false)

unfoldable pub validate_seat_count : ℕ → Actor → Result (Unit {0})
validate_seat_count seat_count a = if a.seat_count == seat_count then ok tt else err count_mismatch

abbrev pub is_positive : ℤ → Bool
is_positive (pos zero) = false
is_positive (pos (suc n)) = true
is_positive (negsuc n) = false

-- `one_based_index.checked_sub(1)`, converted to `usize` and held below the seat count
abbrev pub slot_index : ℤ → ℕ → Option ℕ
slot_index (pos zero) count = none
slot_index (pos (suc n)) count = if ltb n count then some n else none
slot_index (negsuc n) count = none

abbrev pub unless_index : ℕ → Option ℕ → Option ℕ
unless_index i none = none
unless_index i (some j) = if j == i then none else some j

-- `remove_if`: the seat goes off the map where the map has it at this index.
abbrev pub remove_at : Actor → ℤ → ℕ → Actor
remove_at a s i = set_index a s (unless_index i (a.seat_indices s))

-- The compare-exchange of the slot's seat id from 0.
unfoldable pub claim_slot : ℤ → ℕ → Actor → Actor × Result ℕ
claim_slot s i a =
    let slot = a.seat_states i in
    if slot.seat_id ==ℤ pos 0
    then (set_slot a i (record slot { seat_id = s }), ok i)
    else if slot.seat_id ==ℤ s
    then (a, ok i)
    else (remove_at a s i, err maps_to_different_seat)

-- What the map of indices says of the seat: another index, this one, or nothing yet.
unfoldable pub map_seat : ℤ → ℕ → Option ℕ → Actor → Actor × Result ℕ
map_seat s i none a = claim_slot s i (set_index a s (some i))
map_seat s i (some j) a = if j == i then claim_slot s i a else (a, err maps_to_different_index)

unfoldable pub register_at : ℤ → Option ℕ → Actor → Actor × Result ℕ
register_at s none a = (a, err index_outside)
register_at s (some i) a = map_seat s i (a.seat_indices s) a

unfoldable pub register_seat : ℤ → ℤ → Actor → Actor × Result ℕ
register_seat s one_based_index a =
    if is_positive s
    then register_at s (slot_index one_based_index a.seat_count) a
    else (a, err seat_not_positive)

unfoldable pub try_admit : ℕ → Actor → Actor × Bool
try_admit i a =
    let slot = a.seat_states i in
    if slot.state == state_available
    then (set_slot a i (record slot { state = state_processing }), true)
    else (a, false)

abbrev pub clear_at : Option ℕ → Actor → Actor
clear_at none a = a
clear_at (some i) a = set_slot a i (record (a.seat_states i) { state = state_available })

unfoldable pub clear_seat : ℤ → Actor → Actor
clear_seat s a = clear_at (a.seat_indices s) a
