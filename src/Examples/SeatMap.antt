-- ===== src/Examples/SeatMap.antt =====
-- The bitmap of a schedule, the counts and the cache at concrete values.
use bookit.Common.{
  ℕ, ◌≤◌, ◌*◌, ◌≡◌, ◌↔◌, refl, Option, none, some, [], ◌∷◌, ℤ, pos, ◌==◌, ltb, if◌then◌else◌, arith,
  String,
}
use bookit.Payment.Tables.{count_where}
use bookit.Schedules.Tables.{of_schedule}
use bookit.SeatMap.Bitmap.{
  locked, booked, from_bitmap, bitmap_seat_status, bitmap_snapshots, snapshots_from, byte_snapshots,
}
use bookit.SeatMap.Decoded.{encode, Fields, bitmap_seat_status-encode}
use bookit.SeatMap.Counts.{SeatCounts, get_count, load_schedule_seat_counts, is_free_in}
use bookit.SeatMap.Loaded.{both_cached, expected, load_schedule_seat_counts_lem}
use bookit.SeatMap.Cache.{Attempt, answered, failed, AllFail, with_retries, with_retries_lem}
use bookit.Examples.Schedules.{open_db}

-- The seats 1 and 2 of the repository's tests: locked and booked.
abbrev field : ℕ → ℕ
field n = if n == 1 then 1 else if n == 2 then 2 else 0

field-Fields : Fields field
field-Fields n = ground arith

decodes_the_test :
    (bitmap_seat_status (24 ∷ []) (pos 1) ≡ some locked)
    × ((bitmap_seat_status (24 ∷ []) (pos 2) ≡ some booked)
        × ((bitmap_seat_status [] (pos 12) ≡ none)
            × (bitmap_snapshots (24 ∷ []) ≡ (pos 1, locked) ∷ (pos 2, booked) ∷ [])))
unfolding bitmap_seat_status bitmap_snapshots snapshots_from byte_snapshots
decodes_the_test = (refl, (refl, (refl, refl)))

bitmap_seat_status-encode_example :
    bitmap_seat_status (encode field 0 1) (pos 2)
    ≡ (if ltb 2 (4 * 1) then some (from_bitmap (field 2)) else none)
bitmap_seat_status-encode_example = bitmap_seat_status-encode field 1 2 field-Fields

-- The cache knows both values of the schedule 2, and one of the schedule 1.
abbrev cached_total : ℤ → Option ℤ
cached_total (pos n) = some (pos 40)
cached_total s = none

abbrev cached_available : ℤ → Option ℤ
cached_available (pos n) = if n == 2 then some (pos 7) else none
cached_available s = none

load_schedule_seat_counts_lem_example :
    (c : SeatCounts) × ((load_schedule_seat_counts cached_total cached_available
          (some open_db.schedule_seats)
          (pos 1 ∷ pos 2 ∷ [])
        ≡ some c)
      × ((get_count (pos 1) c.totals
            ≡ expected
                (both_cached (cached_total (pos 1)) (cached_available (pos 1)))
                (cached_total (pos 1))
                (count_where (of_schedule (pos 1)) open_db.schedule_seats))
          × (get_count (pos 1) c.available
              ≡ expected
                  (both_cached (cached_total (pos 1)) (cached_available (pos 1)))
                  (cached_available (pos 1))
                  (count_where (is_free_in (pos 1)) open_db.schedule_seats))))
load_schedule_seat_counts_lem_example =
    load_schedule_seat_counts_lem cached_total cached_available open_db.schedule_seats
      (pos 1 ∷ pos 2 ∷ []) (pos 1) refl

-- The first two attempts fail.
abbrev attempt : ℕ → Attempt String
attempt n = if ltb n 2 then failed else answered "12"

with_retries_lem_example :
    ((with_retries attempt).attempts ≤ 4)
    × (((with_retries attempt).slept ≤ 350)
        × (((with_retries attempt).answer ≡ none) ↔ AllFail attempt 3 0))
with_retries_lem_example = with_retries_lem attempt
