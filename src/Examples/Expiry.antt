-- ===== src/Examples/Expiry.antt =====
-- The expiry worker of the gateway, on servers where user 42 has every seat.
use bookit.Common.{◌≡◌, refl, inr, true, false, some, none, [], ℤ, pos}
use bookit.Redis.Keys.{entry}
use bookit.Redis.Reference.{live}
use bookit.SeatLock.Cluster.{run_at}
use bookit.SeatLock.Route.{pool_index, crc16, decimal}
use bookit.SeatLock.Single.{at_seat, get_lock_owner}
use bookit.Gateway.Cancel.{Show}
use bookit.Gateway.Expiry.{
  Round, Gate, InUse, Keeps, queue_request, release_member, release_member-Keeps, RoomMessage,
  handle_pubsub_message,
}
use bookit.Examples.SeatLock.{R, call_at}
use bookit.Examples.Payment.{locked_cluster}

abbrev round_at : Round
round_at = record {
  calls = λ n. call_at 1001;
  now = pos 1001;
  checkout = true;
  through = λ n. true;
}

abbrev no_show : Show
no_show = record { closed = false; actor = none }

abbrev gate : Gate R
gate = record { shows = λ s. no_show; cluster = locked_cluster; events = [] }

in_use :
    InUse R round_at
      (pos 43)
      (get_lock_owner R (round_at.calls 0) (queue_request R (pos 12) (pos 7) (pos 43)) gate.cluster)
unfolding get_lock_owner at_seat run_at pool_index crc16 decimal live
in_use = inr refl

release_member-Keeps_example :
    Keeps R gate (release_member R round_at (entry (pos 12) (pos 7) (pos 43)) gate)
release_member-Keeps_example = release_member-Keeps R round_at (pos 12) (pos 7) (pos 43) gate in_use

-- The event that the lock server publishes for a seat, as the gateway reads it.
abbrev from_lock_server : RoomMessage
from_lock_server = record { event = some "SeatUnlocked"; seat_ids = none }

ignored : (shows : ℤ → Show) → handle_pubsub_message from_lock_server (some (pos 7)) shows ≡ shows
unfolding handle_pubsub_message
ignored shows = refl
