-- ===== src/SeatMap/Bitmap.antt =====
-- The two decoders of a schedule's bitmap: `bitmap_seat_status` of
-- apps/http-server/src/api/user/schedules_v2.rs and `bitmap_snapshots` of
-- apps/ws-server/src/locking.rs. A byte is a number below 256.
use bookit.Common.{
  ℕ, suc, ◌+◌, ◌-◌, ◌*◌, ◌/◌, ◌%◌, ◌^◌, Option, none, some, List, [], ◌∷◌, ℤ, pos, negsuc, ltb,
  ◌==◌, if◌then◌else◌, get_elem?,
}
use bookit.SeatLock.Single.{seat_offset}

pub data SeatState : Type 0 where
  available locked booked : SeatState

-- `SeatState::from_bitmap` of the WebSocket server
abbrev pub from_bitmap : ℕ → SeatState
from_bitmap v = if v == 1 then locked else if v == 2 then booked else available

-- The last `match` of `bitmap_seat_status` of the HTTP server
abbrev pub status_of : ℕ → SeatState
status_of v = if v == 1 then locked else if v == 2 then booked else available

-- `(byte >> shift) & 0b11`
abbrev pub two_bits : ℕ → ℕ → ℕ
two_bits byte shift = byte / 2 ^ shift % 4

abbrev pub state_at : ℕ → Option ℕ → Option SeatState
state_at bit_offset none = none
state_at bit_offset (some byte) = some (status_of (two_bits byte (6 - bit_offset % 8)))

abbrev pub status_at : List ℕ → Option ℕ → Option SeatState
status_at bitmap none = none
status_at bitmap (some bit_offset) = state_at bit_offset (get_elem? bitmap (bit_offset / 8))

unfoldable pub bitmap_seat_status : List ℕ → ℤ → Option SeatState
bitmap_seat_status bitmap seat_id = status_at bitmap (seat_offset seat_id)

-- `n as i32`
abbrev pub as_i32 : ℕ → ℤ
as_i32 n = let m = n % 2 ^ 32 in if ltb m (2 ^ 31) then pos m else negsuc (2 ^ 32 - 1 - m)

abbrev pub unless_available : ℤ → SeatState → List (ℤ × SeatState) → List (ℤ × SeatState)
unless_available seat_id available rest = rest
unless_available seat_id locked rest = (seat_id, locked) ∷ rest
unless_available seat_id booked rest = (seat_id, booked) ∷ rest

abbrev pub slot_snapshot : ℕ → ℕ → ℕ → List (ℤ × SeatState) → List (ℤ × SeatState)
slot_snapshot byte_index byte slot rest =
    unless_available (as_i32 (byte_index * 4 + slot)) (from_bitmap (two_bits byte (6 - slot * 2)))
      rest

-- The four slots of a byte, in front of what follows.
unfoldable pub byte_snapshots : ℕ → ℕ → List (ℤ × SeatState) → List (ℤ × SeatState)
byte_snapshots i byte rest =
    slot_snapshot i byte 0
      (slot_snapshot i byte 1 (slot_snapshot i byte 2 (slot_snapshot i byte 3 rest)))

unfoldable pub snapshots_from : ℕ → List ℕ → List (ℤ × SeatState)
snapshots_from byte_index [] = []
snapshots_from byte_index (byte ∷ bytes) =
    byte_snapshots byte_index byte (snapshots_from (suc byte_index) bytes)

unfoldable pub bitmap_snapshots : List ℕ → List (ℤ × SeatState)
bitmap_snapshots bitmap = snapshots_from 0 bitmap
