-- ===== src/Gateway/Lifecycle.antt =====
-- Schedules that close and open and actors that are evicted (`handle_schedule_lifecycle_message`,
-- `mark_schedule_closed`, `reconcile_closed_actors` and `evict_idle_actors` of apps/gateway-keeper/src/state_active.rs), one at a
-- time, for one show.
use bookit.Common.{
  ℕ, ◌≡◌, refl, Bool, true, false, Option, none, some, List, [], ◌∷◌, ℤ, if◌then◌else◌,
}
use bookit.Gateway.Actor.{Actor, err, schedule_closed, try_begin_idle_eviction}
use bookit.Gateway.Cancel.{Show, get_or_create_show_actor}

abbrev pub close_actor : Option Actor → Option Actor
close_actor none = none
close_actor (some a) = some (record a { closing = true })

-- The show, and the actor that was taken off the map as the requests that hold it see it.
unfoldable pub mark_schedule_closed : Show → Show × Option Actor
mark_schedule_closed show = (record { closed = true; actor = none }, close_actor show.actor)

pub data Event : Type 0 where
  schedule_is_closed schedule_is_opened other_event invalid : Event

unfoldable pub handle_schedule_lifecycle_message : Event → Show → Show
handle_schedule_lifecycle_message schedule_is_closed show = (mark_schedule_closed show).0
handle_schedule_lifecycle_message schedule_is_opened show = record show { closed = false }
handle_schedule_lifecycle_message other_event show = show
handle_schedule_lifecycle_message invalid show = show

abbrev pub keep_unless : Actor × Bool → Option Actor
keep_unless (a, evicted) = if evicted then none else some a

abbrev pub evict : ℕ → Option Actor → Option Actor
evict now none = none
evict now (some a) = keep_unless (try_begin_idle_eviction now a)

unfoldable pub evict_idle_actors : ℕ → Show → Show
evict_idle_actors now show = record show { actor = evict now show.actor }

abbrev pub reconcile : Option Bool → Option Actor → Show → Show
reconcile (some true) (some a) show = (mark_schedule_closed show).0
reconcile (some true) none show = show
reconcile (some false) a show = show
reconcile none a show = show

-- EXISTS on the key that marks the schedule as closed, for each show that has an actor; none where
-- Redis does not answer.
unfoldable pub reconcile_closed_actors : Option Bool → Show → Show
reconcile_closed_actors answer show = reconcile answer show.actor show

-- What happens to a show after it was closed, as long as it is not opened again.
pub data Change : Type 0 where
  closes : Change
  evicts : ℕ → Change
  reconciles : Option Bool → Change
  asks : Bool → Bool → ℕ → ℤ → Change

unfoldable pub change : Change → Show → Show
change closes show = handle_schedule_lifecycle_message schedule_is_closed show
change (evicts now) show = evict_idle_actors now show
change (reconciles answer) show = reconcile_closed_actors answer show
change (asks marked memory now x) show = (get_or_create_show_actor marked memory now x show).0

unfoldable pub changes : List Change → Show → Show
changes [] show = show
changes (x ∷ xs) show = changes xs (change x show)

ask_refused :
    (marked memory : Bool) (now : ℕ) (x : ℤ) (show : Show)
    → show.closed ≡ true
    → ((get_or_create_show_actor marked memory now x show).1 ≡ err schedule_closed)
      × ((get_or_create_show_actor marked memory now x show).0.closed ≡ true)
unfolding get_or_create_show_actor
ask_refused marked memory now x show h = rw h (refl, refl)

reconcile_closed :
    (answer : Option Bool) (a : Option Actor) (show : Show)
    → show.closed ≡ true
    → (reconcile answer a show).closed ≡ true
unfolding mark_schedule_closed
reconcile_closed (some true) (some a) show h = refl
reconcile_closed (some true) none show h = h
reconcile_closed (some false) a show h = h
reconcile_closed none a show h = h

change_closed : (y : Change) (show : Show) → show.closed ≡ true → (change y show).closed ≡ true
unfolding change handle_schedule_lifecycle_message mark_schedule_closed evict_idle_actors
    reconcile_closed_actors
change_closed closes show h = refl
change_closed (evicts now) show h = h
change_closed (reconciles answer) show h = reconcile_closed answer show.actor show h
change_closed (asks marked memory now x) show h = (ask_refused marked memory now x show h).1

changes_closed :
    (ys : List Change) (show : Show) → show.closed ≡ true → (changes ys show).closed ≡ true
unfolding changes
changes_closed [] show h = h
changes_closed (y ∷ ys) show h = changes_closed ys (change y show) (change_closed y show h)

-- From the message that a schedule is closed on, and until it is opened again, no request is given an
-- actor of the show, whatever is evicted, reconciled with Redis or asked for in between.
pub closed_refuses :
    (show : Show) (ys : List Change) (marked memory : Bool) (now : ℕ) (x : ℤ)
    → (get_or_create_show_actor marked memory now x
        (changes ys (handle_schedule_lifecycle_message schedule_is_closed show))).1
      ≡ err schedule_closed
unfolding handle_schedule_lifecycle_message mark_schedule_closed
closed_refuses show ys marked memory now x =
    (ask_refused marked memory now x _
      (changes_closed ys (handle_schedule_lifecycle_message schedule_is_closed show) refl)).0
