-- ===== src/Examples/Lifecycle.antt =====
-- A show (apps/gateway-keeper/src/state_active.rs) that is closed while it has an actor.
use bookit.Common.{◌≡◌, true, false, some, List, [], ◌∷◌, pos}
use bookit.Gateway.Actor.{err, schedule_closed, new}
use bookit.Gateway.Cancel.{Show, get_or_create_show_actor}
use bookit.Gateway.Lifecycle.{
  Change, evicts, reconciles, asks, changes, handle_schedule_lifecycle_message, schedule_is_closed,
  closed_refuses,
}

abbrev running : Show
running = record { closed = false; actor = some (new 3 1000) }

abbrev later : List Change
later = evicts 9000 ∷ reconciles (some true) ∷ asks false true 9001 (pos 3) ∷ []

closed_refuses_example :
    (get_or_create_show_actor false true 9002
      (pos 3)
      (changes later (handle_schedule_lifecycle_message schedule_is_closed running))).1
    ≡ err schedule_closed
closed_refuses_example = closed_refuses running later false true 9002 (pos 3)
