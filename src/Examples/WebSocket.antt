-- ===== src/Examples/WebSocket.antt =====
-- A request to the WebSocket server for the two seats of an open schedule, before and after it is closed.
use bookit.Common.{◌≡◌, refl, List, [], ◌∷◌, pos, All}
use bookit.Payment.Tables.{find_where, update_where}
use bookit.Schedules.Tables.{seats_of, select_where}
use bookit.Schedules.Lifecycle.{
  close_schedule, close_commit, close_by_state, set_state, then_publish, publish_schedule_lifecycle,
}
use bookit.Schedules.Requests.{closes, handle}
use bookit.SeatMap.Counts.{get_count}
use bookit.WebSocket.Metadata.{
  ok, verified_seat_metadata, load_metadata, collect_indices, check_pairs,
}
use bookit.WebSocket.Accepted.{
  Matches, HasSlot, Step, admin, asks, Server, step, steps, accepted-Matches,
}
use bookit.Examples.Schedules.{parsers, fine, open_world, open_db-WellFormed}

-- A first request fills the cell of the schedule, which is closed then.
abbrev history : List Step
history = asks (pos 1) (pos 10 ∷ []) (pos 1 ∷ []) (pos 2) ∷ admin (closes fine (pos 1)) ∷ []

abbrev later : Server
later = steps parsers history (record { world = open_world; cells = [] })

-- The second request is still let through.
lets_through :
    (verified_seat_metadata later.world.db
      (pos 1)
      (pos 11 ∷ pos 10 ∷ [])
      (pos 2 ∷ pos 1 ∷ [])
      (pos 2)
      later.cells).1
    ≡ ok (pos 2 ∷ pos 1 ∷ [], 2)
unfolding steps step handle verified_seat_metadata load_metadata find_where seats_of select_where
    collect_indices check_pairs get_count close_schedule close_commit close_by_state set_state
    then_publish publish_schedule_lifecycle update_where
lets_through = refl

accepted-Matches_example :
    Matches
      (seats_of (pos 1) later.world.db.schedule_seats)
      (pos 11 ∷ pos 10 ∷ [])
      (pos 2 ∷ pos 1 ∷ [])
      (pos 2)
      (pos 2 ∷ pos 1 ∷ [], 2)
    × All (HasSlot 2) (pos 2 ∷ pos 1 ∷ [])
accepted-Matches_example =
    accepted-Matches parsers history open_world (pos 1) (pos 11 ∷ pos 10 ∷ []) (pos 2 ∷ pos 1 ∷ [])
      (pos 2) (pos 2 ∷ pos 1 ∷ []) 2 open_db-WellFormed lets_through
