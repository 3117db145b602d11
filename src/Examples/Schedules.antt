-- ===== src/Examples/Schedules.antt =====
-- Schedules at concrete requests, and the instances of the properties of Schedules.
use bookit.Common.{
  ℕ, ◌+◌, ◌≡◌, refl, inl, inr, true, false, none, some, List, [], ◌∷◌, ◌++◌, ℤ, pos, ◌==ℤ◌, String,
  arith, Bool-cases, is_whitespace, trim_start, trim_end,
}
use bookit.Payment.Tables.{available, find_where, update_where}
use bookit.Gateway.Actor.{err as refused, schedule_closed as is_closed}
use bookit.Gateway.Cancel.{Show, get_or_create_show_actor}
use bookit.Schedules.Tables.{
  movie, evening, opened, standard, premium, base, LayoutSeat, Schedule, ScheduleSeat, Database, ok,
  seats_of, select_where, mem_key,
}
use bookit.Schedules.Create.{
  Parsers, CreateEnv, CreateScheduleRequest, found, create_schedule, of_layout, validate,
  store_schedule, sort_by, insert_by, copy_seats, copy_seat, insert_copied,
}
use bookit.Schedules.Extra.{find_live, add_extra_seats, add_by_state}
use bookit.Schedules.Lifecycle.{
  World, Reply, Redis, schedule_closed, close_schedule, close_commit, close_by_state, set_state,
  start_schedule, start_commit, start_by_state, then_publish, publish_schedule_lifecycle,
}
use bookit.Schedules.Update.{update_schedule_seats, update_seats, set_price, set_status}
use bookit.Schedules.Numbered.{Numbered, Counts}
use bookit.Schedules.WellFormed.{WellFormed, Unique}
use bookit.Schedules.Rows.{hall}
use bookit.Schedules.Requests.{
  Request, creates, adds_seats, updates_seats, starts, closes, handle, run, run-WellFormed,
}
use bookit.Schedules.Started.{started_seats}
use bookit.Schedules.Refused.{hear, closed_then_refused}
use bookit.Schedules.Copied.{Copies, create_schedule-Copies}

abbrev pub parsers : Parsers
parsers = record {
  is_object_id = λ s. true;
  parse_date = λ s. some 20000;
  parse_rfc3339 = λ s. some (pos 100);
  at_hour = λ d h. some (pos (200 + h));
  parse_price = λ s. some 15000;
}

abbrev env : CreateEnv
env = record { find_show = λ s. found movie; inserts_schedule = true; inserts_seats = true }

abbrev body : CreateScheduleRequest
body = record {
  mongo_show_id = "64b0";
  show_type = movie;
  layout_id = pos 5;
  date = "2026-10-01";
  slot = evening;
  start_time = none;
  end_time = "2026-10-01T21:00:00Z";
  booking_open_at = "2026-09-01T10:00:00Z";
  prices = ("Standard", "150.00") ∷ [];
  venue_city = "Pune";
}

abbrev layout_seat : ℕ → String → ℕ → LayoutSeat
layout_seat i r n = record {
  id = pos i;
  layout_id = pos 5;
  row_letter = r;
  seat_number = pos n;
  seat_class = standard;
}

-- Three seats of the layout, two of them at one place.
abbrev empty_db : Database
empty_db = record {
  next_schedule = 1;
  next_seat = 10;
  schedules = [];
  seat_layout_seats = layout_seat 1 "B" 1 ∷ layout_seat 2 "A" 1 ∷ layout_seat 3 "B" 1 ∷ [];
  schedule_seats = [];
}

empty_db-WellFormed : WellFormed empty_db
unfolding Unique Numbered Counts seats_of select_where
empty_db-WellFormed = record { unique = tt; given = tt; numbered = λ s. tt; unborn = λ n h. refl }

abbrev pub quiet : Redis
quiet = record { closed_key = λ s. false; published = [] }

abbrev pub fine : Reply
fine = record { writes = true; publishes = true }

abbrev empty_world : World
empty_world = record { db = empty_db; redis = quiet }

abbrev requests : List Request
requests =
    creates env body
    ∷ adds_seats (pos 1) (
        record { row_letter = "C"; seat_number = pos 1; seat_class = premium; price = "250.00" }
        ∷ [])
    ∷ starts fine (pos 1)
    ∷ closes fine (pos 1)
    ∷ []

run-WellFormed_example : WellFormed (run parsers requests empty_world).db
run-WellFormed_example = run-WellFormed parsers requests empty_world empty_db-WellFormed

abbrev pub row : ℕ → ℕ → String → ScheduleSeat
row i n r = record {
  id = pos i;
  schedule_id = pos 1;
  seat_index = n;
  layout_seat_id = none;
  source = base;
  row_letter = r;
  seat_number = pos 1;
  seat_class = standard;
  price = 15000;
  status = available;
}

abbrev pub schedule_1 : Schedule
schedule_1 = record {
  id = pos 1;
  mongo_show_id = "64b0";
  show_type = movie;
  layout_id = pos 5;
  start_time = pos 218;
  end_time = pos 100;
  booking_open_at = pos 100;
  date = 20000;
  slot = evening;
  venue_city = "Pune";
  lifecycle_state = opened;
  is_deleted = false;
}

abbrev pub open_db : Database
open_db = record {
  next_schedule = 2;
  next_seat = 12;
  schedules = schedule_1 ∷ [];
  seat_layout_seats = [];
  schedule_seats = row 10 1 "A" ∷ row 11 2 "B" ∷ [];
}

open_db-Numbered : (s : ℤ) → Numbered s open_db.schedule_seats
unfolding Numbered Counts seats_of select_where mem_key
open_db-Numbered s = elim (Bool-cases (pos 1 ==ℤ s)) [
  | inl e ↦ simp e (refl, (refl, (refl, (refl, tt))))
  | inr e ↦ simp e tt
]

pub open_db-WellFormed : WellFormed open_db
unfolding Unique seats_of select_where
open_db-WellFormed = record {
  unique = (tt, tt);
  given = (λ m h. ground (arith, h), tt);
  numbered = open_db-Numbered;
  unborn = λ n h. let e : (pos 1 ==ℤ pos n) ≡ false = ground (arith, h) in simp e refl;
}

abbrev pub open_world : World
open_world = record { db = open_db; redis = quiet }

abbrev late_requests : List Request
late_requests =
    adds_seats (pos 1) (
      record { row_letter = "C"; seat_number = pos 1; seat_class = premium; price = "250.00" } ∷ [])
    ∷ updates_seats (pos 1) (record { id = pos 10; price = some "99.00"; status = none } ∷ [])
    ∷ starts fine (pos 1)
    ∷ []

find_open : find_live (pos 1) open_db ≡ some schedule_1
unfolding find_where
find_open = refl

started_seats_example :
    hall (pos 1) (run parsers late_requests open_world).db.schedule_seats
    ≡ hall (pos 1) open_db.schedule_seats
started_seats_example =
    started_seats parsers late_requests (pos 1) schedule_1 open_world open_db-WellFormed find_open
      (λ e. cc e)

abbrev no_actor : Show
no_actor = record { closed = false; actor = none }

closes_ok : (close_schedule fine (pos 1) open_world).1 ≡ ok tt
unfolding close_schedule close_commit find_where close_by_state set_state then_publish
    publish_schedule_lifecycle
closes_ok = refl

-- After the closing a start is refused, and nothing more is published.
heard :
    (run parsers late_requests (close_schedule fine (pos 1) open_world).0).redis.published
    ≡ [] ++ (schedule_closed (pos 1) ∷ [])
unfolding run handle add_extra_seats add_by_state find_where update_where update_schedule_seats
    update_seats set_price set_status start_schedule start_commit start_by_state close_schedule
    close_commit close_by_state set_state then_publish publish_schedule_lifecycle
heard = refl

closed_then_refused_example :
    ((run parsers late_requests (close_schedule fine (pos 1) open_world).0).redis.closed_key (pos 1)
      ≡ true)
    × ((get_or_create_show_actor false true 5
          (pos 2)
          (hear (pos 1) (schedule_closed (pos 1) ∷ []) no_actor)).1
        ≡ refused is_closed)
closed_then_refused_example =
    closed_then_refused parsers fine (pos 1) late_requests open_world (schedule_closed (pos 1) ∷ [])
      false true 5 (pos 2) no_actor open_db-WellFormed closes_ok heard

creates_ok : (create_schedule parsers env body empty_db).1 ≡ ok 2
unfolding create_schedule validate store_schedule select_where sort_by insert_by copy_seats
    copy_seat mem_key insert_copied trim_start trim_end is_whitespace
creates_ok = refl

create_schedule-Copies_example :
    Copies
      (pos 1)
      (select_where (of_layout (pos 5)) empty_db.seat_layout_seats)
      2
      (create_schedule parsers env body empty_db).0
create_schedule-Copies_example =
    create_schedule-Copies parsers env body empty_db 2 empty_db-WellFormed creates_ok
