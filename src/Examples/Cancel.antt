-- ===== src/Examples/Cancel.antt =====
-- The creation of a show's actor (apps/gateway-keeper/src/state_active.rs) for three seats.
use bookit.Common.{◌≡◌, refl, true, false, none, pos}
use bookit.Gateway.Actor.{Actor, ok, new, validate_seat_count}
use bookit.Gateway.Cancel.{Show, create, enter, get_or_create_show_actor}

abbrev unknown_show : Show
unknown_show = record { closed = false; actor = none }

abbrev fresh : Actor
fresh = new 3 1000

created : (get_or_create_show_actor false true 1000 (pos 3) unknown_show).1 ≡ ok fresh
unfolding get_or_create_show_actor create enter validate_seat_count new
created = refl
