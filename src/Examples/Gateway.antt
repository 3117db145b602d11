-- ===== src/Examples/Gateway.antt =====
-- The gateway's actor (apps/gateway-keeper/src/state_active.rs) of a show with three seats.
use bookit.Common.{◌+◌, ◌≤◌, ◌≡◌, refl, true, List, [], ◌∷◌, ℤ, pos, arith}
use bookit.Gateway.Actor.{
  Actor, Error, ok, err, new, register_seat, register_at, map_seat, claim_slot,
}
use bookit.Gateway.Actor.{begin_request, try_admit}
use bookit.Common.{none}
use bookit.Gateway.Show.{
  LockResult, Meets, lock, lock_begun, register_all, collect, lock_registered, lock_admitted,
  admit_all, dispatch,
}
use bookit.Gateway.Requests.{count, lock_complete}
use bookit.Redis.Reference.{reference}
use bookit.SeatLock.Cluster.{answered, Cluster}
use bookit.Gateway.Registry.{IsConsistent, new-IsConsistent, register_seat-IsConsistent}
use bookit.Gateway.Admission.{
  Step, register, admit, clear, run, room, admits, clears, total, run-admits,
}
use bookit.Gateway.Eviction.{
  State, initial, seq_cst, acq_rel, Reachable, starts, steps, timed, claimed, evicted,
  evicted-no_lease, load, add, reload, start, time, claim, empty,
}

abbrev show : Actor
show = new 3 1000

abbrev taken : Actor
taken = (register_seat (pos 101) (pos 2) show).0

taken-IsConsistent : IsConsistent taken
taken-IsConsistent = register_seat-IsConsistent (pos 101) (pos 2) show (new-IsConsistent 3 1000)

-- A second seat for the same slot is refused.
clash : (register_seat (pos 102) (pos 2) taken).1 ≡ err Error.maps_to_different_seat
unfolding new register_seat register_at map_seat claim_slot
clash = refl

register_seat-IsConsistent_example : IsConsistent (register_seat (pos 102) (pos 2) taken).0
register_seat-IsConsistent_example =
    register_seat-IsConsistent (pos 102) (pos 2) taken taken-IsConsistent

-- Two requests for the slot, a clear, and a third request.
abbrev order : List Step
order = register (pos 101) (pos 2) ∷ admit 1 ∷ admit 1 ∷ clear (pos 101) ∷ admit 1 ∷ []

run-admits_example :
    total (admits 1) order show + room 1 (run order show)
    ≤ total (clears 1) order show + room 1 show
run-admits_example = run-admits 1 order show (new-IsConsistent 3 1000)

-- A request passes its first load, the worker evicts the actor, the request goes on and turns back.
abbrev loaded : State
loaded = record (initial 0) { checked = 1 }

abbrev aged : State
aged = record loaded { evictor = timed }

abbrev flagged : State
flagged = record aged { evictor = claimed; closing = true }

abbrev gone : State
gone = record flagged { evictor = evicted }

abbrev counted_late : State
counted_late = record gone { checked = 0; in_flight = 1; added = 1 }

counted_late-Reachable : Reachable seq_cst counted_late
unfolding initial
counted_late-Reachable =
    steps gone counted_late
      (steps flagged gone
        (steps aged flagged
          (steps loaded aged (steps (initial 0) loaded (starts 0) (load (initial 0) refl))
            (time loaded 7200 0 refl refl (omega arith)))
          (claim aged refl refl))
        (empty flagged refl refl))
      (add gone 0 refl)

evicted-no_lease_example :
    (counted_late.in_flight
      ≡ counted_late.added + counted_late.backing + counted_late.opened + counted_late.leased
        + counted_late.dropping)
    × ((counted_late.evictor ≡ evicted → counted_late.closing ≡ true)
        × (seq_cst ≡ seq_cst
            → counted_late.evictor ≡ evicted
            → (counted_late.opened ≡ 0) × (counted_late.leased ≡ 0) × (counted_late.dropping ≡ 0)))
evicted-no_lease_example = evicted-no_lease seq_cst counted_late counted_late-Reachable

-- With the source's orderings, the request may read the `closing` of before the eviction.
abbrev opened_late : State
opened_late = record counted_late { added = 0; opened = 1 }

abbrev leased_late : State
leased_late = record opened_late { opened = 0; last_access = 7200; leased = 1 }

abbrev added_first : State
added_first = record loaded { checked = 0; in_flight = 1; added = 1 }

abbrev aged_first : State
aged_first = record added_first { evictor = timed }

abbrev flagged_first : State
flagged_first = record aged_first { evictor = claimed; closing = true }

-- The worker reads the counter of before the increment, and the request the flag of before the eviction:
-- neither sees the other.
leased_late-Reachable : Reachable acq_rel leased_late
unfolding initial
leased_late-Reachable =
    steps opened_late leased_late
      (steps counted_late opened_late
        (steps flagged_first counted_late
          (steps aged_first flagged_first
            (steps added_first aged_first
              (steps loaded added_first (steps (initial 0) loaded (starts 0) (load (initial 0) tt))
                (add loaded 0 refl))
              (time added_first 7200 0 refl tt (omega arith)))
            (claim aged_first refl refl))
          (empty flagged_first refl tt))
        (reload counted_late 0 refl tt))
      (start opened_late 0 7200 refl)

-- A request for two seats that meets a full queue.
abbrev meets : Meets
meets = record {
  begun_at = 1001;
  ended_at = 1002;
  queue_full = true;
  panics_after = none;
  acquisition = λ n. record {
    connects = λ i. true;
    delivery = λ command i. answered;
    now = 1001;
    now_ms = 1001000;
  };
}

abbrev servers : Cluster reference
servers = record {
  size = 1;
  node = λ i. record { strings = λ k. none; zsets = λ k m. none; bits = λ k o. 0 };
}

abbrev two_seats : List ℤ
two_seats = pos 101 ∷ pos 102 ∷ []

abbrev two_places : List ℤ
two_places = pos 1 ∷ pos 2 ∷ []

abbrev refused_both : LockResult
refused_both = record { locked_seat_ids = []; failed_seat_ids = two_seats }

queue_was_full :
    (lock reference meets (pos 9) (pos 7) two_seats two_places show servers).2 ≡ ok refused_both
unfolding new lock lock_begun begin_request register_all collect register_seat register_at map_seat
    claim_slot lock_registered lock_admitted admit_all try_admit dispatch
queue_was_full = refl

lock_complete_example :
    count (pos 102) refused_both.locked_seat_ids + count (pos 102) refused_both.failed_seat_ids
    ≡ count (pos 102) two_seats
lock_complete_example =
    lock_complete reference meets (pos 9) (pos 7) two_seats two_places show servers refused_both
      (pos 102) queue_was_full
