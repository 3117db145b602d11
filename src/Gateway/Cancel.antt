-- ===== src/Gateway/Cancel.antt =====
-- The creation of a show's actor and a request to cancel seats (`get_or_create_show_actor`, `cancel`,
-- `cancel_committed` and `publish_to_locking_queue` of apps/gateway-keeper/src/state_active.rs), for
-- one request at a time.
use bookit.Common.{
  ℕ, ◌≤◌, ◌<◌, ◌≡◌, ap, inl, inr, Bool, true, false, ◌&&◌, ◌||◌, Option, none, some, List, [], ◌∷◌,
  ℤ, pos, negsuc, leb, ltb, ◌==◌, if◌then◌else◌, length, arith, Bool-cases,
}
use bookit.Gateway.Actor.{
  Actor, Result, ok, err, schedule_closed, count_outside, no_memory, in_checkout, unavailable,
  lengths_differ, new, begin_request, drop_lease, validate_seat_count,
}
use bookit.Gateway.Show.{register_all, clear_admission}

abbrev pub max_seats_per_show : ℕ
max_seats_per_show = 200000

-- What the gateway holds of one show.
pub record Show : Type 0 where
  pub closed : Bool
  pub actor : Option Actor

abbrev pub seat_count_of : ℤ → Option ℕ
seat_count_of (pos n) = if ltb 0 n && leb n max_seats_per_show then some n else none
seat_count_of (negsuc n) = none

abbrev pub is_none {ℓ} : {A : Type ℓ} → Option A → Bool
is_none none = true
is_none (some x) = false

-- The actor that is there, or a new one where its memory is granted.
abbrev pub init_actor : Bool → ℕ → ℕ → Option Actor → Option Actor
init_actor memory now count (some a) = some a
init_actor memory now count none = if memory then some (new count now) else none

abbrev pub validated : ℕ → Actor → Result (Unit {0}) → Result Actor
validated count a (ok t) = ok a
validated count a (err e) = err e

unfoldable pub enter : ℕ → Show → Option Actor → Show × Result Actor
enter count show none = (show, err no_memory)
enter count show (some a) =
    (record show { actor = some a }, validated count a (validate_seat_count count a))

unfoldable pub create : Bool → ℕ → Option ℕ → Show → Show × Result Actor
create memory now none show = (show, err count_outside)
create memory now (some count) show = enter count show (init_actor memory now count show.actor)

-- `marked_closed` is what Redis answers to EXISTS on the key of closed schedules, false where it does
-- not answer.
unfoldable pub get_or_create_show_actor : Bool → Bool → ℕ → ℤ → Show → Show × Result Actor
get_or_create_show_actor marked_closed memory now total_seat_count show =
    if show.closed
    then (show, err schedule_closed)
    else if is_none show.actor && marked_closed
    then (record show { closed = true }, err schedule_closed)
    else create memory now (seat_count_of total_seat_count) show

-- What a cancellation meets: the clock, the seats with a checkout key (EXISTS that is not answered
-- counts as none), whether the actor's queue takes the task and answers it, whether there is a channel
-- to the broker and whether the publication succeeds.
pub record Meets : Type 0 where
  pub begun_at : ℕ
  pub ended_at : ℕ
  pub has_checkout : ℤ → Bool
  pub sends : Bool
  pub replies : Bool
  pub has_channel : Bool
  pub publishes : Bool

unfoldable pub publish_to_locking_queue : Meets → Bool
publish_to_locking_queue m = m.has_channel && m.publishes

unfoldable pub cancel_committed : Meets → List ℤ → List ℤ
cancel_committed m seat_ids = if publish_to_locking_queue m then seat_ids else []

abbrev pub any_checkout : (ℤ → Bool) → List ℤ → Bool
any_checkout f [] = false
any_checkout f (s ∷ ss) = f s || any_checkout f ss

unfoldable pub cancel_registered :
    Meets → List ℤ → Actor → Result (List (ℤ × ℕ)) → Actor × Result (List ℤ)
cancel_registered m seat_ids a (err e) = (a, err e)
cancel_registered m seat_ids a (ok seats) =
    if any_checkout m.has_checkout seat_ids then (a, err in_checkout) else (
      clear_admission seat_ids a,
      if m.sends
          then ok (if m.replies then cancel_committed m seat_ids else [])
          else err unavailable,
    )

unfoldable pub cancel_begun :
    Meets → List ℤ → List ℤ → Actor → Result (Unit {0}) → Actor × Result (List ℤ)
cancel_begun m seat_ids seat_indices a (err e) = (a, err e)
cancel_begun m seat_ids seat_indices a (ok t) =
    let (a1, seats) = register_all seat_ids seat_indices a in
    let (a2, r) = cancel_registered m seat_ids a1 seats in (drop_lease m.ended_at a2, r)

unfoldable pub cancel : Meets → List ℤ → List ℤ → Actor → Actor × Result (List ℤ)
cancel m seat_ids seat_indices a =
    if length seat_ids == length seat_indices
    then (let (a1, lease) = begin_request m.begun_at a in
        cancel_begun m seat_ids seat_indices a1 lease)
    else (a, err lengths_differ)

seat_count_of-bounds :
    (x : ℤ) (n : ℕ) → seat_count_of x ≡ some n → (x ≡ pos n) × (0 < n) × (n ≤ max_seats_per_show)
seat_count_of-bounds (pos n) m h = ground (arith, h)
seat_count_of-bounds (negsuc n) m h = absurd (cc h)

enter-ok :
    (n : ℕ) (show : Show) (o : Option Actor) (b : Actor)
    → (enter n show o).1 ≡ ok b
    → b.seat_count ≡ n
unfolding enter validate_seat_count
enter-ok n show none b h = absurd (cc h)
enter-ok n show (some a) b h = elim (Bool-cases (a.seat_count == n)) [
  | inl e ↦
      let k : ok a ≡ ok b = rw e at h in
      let same : a ≡ b = cc k in ground (arith, e, ap (λ x. x.seat_count) same)
  | inr e ↦ absurd (cc (rw e at h))
]

create-ok :
    (memory : Bool) (now : ℕ) (o : Option ℕ) (show : Show) (b : Actor)
    → (create memory now o show).1 ≡ ok b
    → o ≡ some b.seat_count
unfolding create
create-ok memory now none show b h = absurd (cc h)
create-ok memory now (some n) show b h =
    let e = enter-ok n show (init_actor memory now n show.actor) b h in cc e

-- A request is given an actor only of a show that is not known to be closed, and then the actor has
-- exactly the seats that the request says the show has, between 1 and 200,000.
pub get_or_create_show_actor-ok :
    (marked_closed memory : Bool) (now : ℕ) (x : ℤ) (show : Show) (b : Actor)
    → (get_or_create_show_actor marked_closed memory now x show).1 ≡ ok b
    → (show.closed ≡ false)
      × (x ≡ pos b.seat_count)
      × (0 < b.seat_count)
      × (b.seat_count ≤ max_seats_per_show)
unfolding get_or_create_show_actor
get_or_create_show_actor-ok marked_closed memory now x show b h = elim (Bool-cases show.closed) [
  | inl e ↦ absurd (cc (rw e at h))
  | inr e ↦ elim (Bool-cases (is_none show.actor && marked_closed)) [
    | inl k ↦ absurd (cc (rw k at (rw e at h)))
    | inr k ↦
        let made = create-ok memory now (seat_count_of x) show b (ground (arith, h, e, k)) in
        let (same, least, most) = seat_count_of-bounds x b.seat_count made in (e, same, least, most)
  ]
]
