-- ===== src/Gateway/Show.antt =====
-- A request to lock seats (`GatewayState::lock` and `acquire_and_publish` of
-- apps/gateway-keeper/src/state_active.rs), on the actor that the request was given, with no other
-- request in between. The actor stays in the map of the gateway while the request holds its lease.
use bookit.Common.{
  ℕ, suc, take, Bool, Option, none, some, List, [], ◌∷◌, ◌++◌, ℤ, pos, ◌==◌, if◌then◌else◌, length,
}
use bookit.Redis.Interface.{Redis}
use bookit.SeatLock.Cluster.{Env, Cluster}
use bookit.SeatLock.Single.{acquire_distributed_lock}
use bookit.Gateway.Actor.{
  Actor, Result, ok, err, lengths_differ, begin_request, drop_lease, register_seat, try_admit,
  clear_seat,
}

pub record LockResult : Type 0 where
  pub locked_seat_ids : List ℤ
  pub failed_seat_ids : List ℤ

-- What a request meets: the clock at its start and end, whether the actor's queue is full, the number
-- of seats after which the actor's task panics, if it does, and what each acquisition meets.
pub record Meets : Type 0 where
  pub begun_at : ℕ
  pub ended_at : ℕ
  pub queue_full : Bool
  pub panics_after : Option ℕ
  pub acquisition : ℕ → Env

-- `collect` stops at the first error; what was registered before it stays.
unfoldable pub collect :
    ℤ → Result ℕ → Actor → Actor × Result (List (ℤ × ℕ)) → Actor × Result (List (ℤ × ℕ))
collect s (err e) a rest = (a, err e)
collect s (ok i) a (a', err e) = (a', err e)
collect s (ok i) a (a', ok seats) = (a', ok ((s, i) ∷ seats))

unfoldable pub register_all : List ℤ → List ℤ → Actor → Actor × Result (List (ℤ × ℕ))
register_all (s ∷ ss) (x ∷ xs) a =
    let (a', here) = register_seat s x a in collect s here a' (register_all ss xs a')
register_all [] xs a = (a, ok [])
register_all (s ∷ ss) [] a = (a, ok [])

-- The seats admitted and those that were not, in order.
unfoldable pub admit_all : List (ℤ × ℕ) → Actor → Actor × List ℤ × List ℤ
admit_all [] a = (a, [], [])
admit_all ((s, i) ∷ rest) a =
    let (a1, admitted) = try_admit i a in
    let (a2, ins, outs) = admit_all rest a1 in
    if admitted then (a2, s ∷ ins, outs) else (a2, ins, s ∷ outs)

unfoldable pub clear_admission : List ℤ → Actor → Actor
clear_admission [] a = a
clear_admission (s ∷ ss) a = clear_admission ss (clear_seat s a)

abbrev pub or_all_failed : List ℤ → Option LockResult → LockResult
or_all_failed admitted none = record { locked_seat_ids = []; failed_seat_ids = admitted }
or_all_failed admitted (some r) = r

module _ (R : Redis) where
  -- `acquire_and_publish`; the outcome of the publication is only logged.
  unfoldable pub acquire_all : (ℕ → Env) → ℕ → ℤ → ℤ → List ℤ → Cluster R → Cluster R × LockResult
  acquire_all e n user_id showtime_id [] c =
      (c, record { locked_seat_ids = []; failed_seat_ids = [] })
  acquire_all e n user_id showtime_id (s ∷ ss) c =
      let (c1, won) =
        acquire_distributed_lock R (e n)
          (record { showtime_id = showtime_id; seat_id = s; user_id = user_id }) (pos 300) c in
      let (c2, rest) = acquire_all e (suc n) user_id showtime_id ss c1 in
      (
        c2,
        if won
            then record rest { locked_seat_ids = s ∷ rest.locked_seat_ids }
            else record rest { failed_seat_ids = s ∷ rest.failed_seat_ids },
      )

  -- The task of the actor: a panic clears the admissions, and the request gets no answer.
  unfoldable pub handle :
      Meets → ℤ → ℤ → List ℤ → Actor → Cluster R → Actor × Cluster R × Option LockResult
  handle m user_id showtime_id seat_ids a c = elim m.panics_after [
    | none ↦
        let (c', r) = acquire_all m.acquisition 0 user_id showtime_id seat_ids c in (a, c', some r)
    | some n ↦
        let c' = (acquire_all m.acquisition 0 user_id showtime_id (take n seat_ids) c).0 in
        (clear_admission seat_ids a, c', none)
  ]

  -- The request from the point where some seats were admitted.
  unfoldable pub dispatch :
      Meets → ℤ → ℤ → List ℤ → List ℤ → Actor → Cluster R → Actor × Cluster R × LockResult
  dispatch m user_id showtime_id admitted failed a c =
      if m.queue_full
      then (
        clear_admission admitted a,
        c,
        record { locked_seat_ids = []; failed_seat_ids = failed ++ admitted },
      )
      else (let (a1, c1, reply) = handle m user_id showtime_id admitted a c in
          let r = or_all_failed admitted reply in
          (
            clear_admission r.failed_seat_ids a1,
            c1,
            record r { failed_seat_ids = r.failed_seat_ids ++ failed },
          ))

  unfoldable pub lock_admitted :
      Meets → ℤ → ℤ → Actor × List ℤ × List ℤ → Cluster R → Actor × Cluster R × LockResult
  lock_admitted m user_id showtime_id (a, [], failed) c =
      (a, c, record { locked_seat_ids = []; failed_seat_ids = failed })
  lock_admitted m user_id showtime_id (a, s ∷ ss, failed) c =
      dispatch m user_id showtime_id (s ∷ ss) failed a c

  unfoldable pub lock_registered :
      Meets
      → ℤ
      → ℤ
      → Actor
      → Result (List (ℤ × ℕ))
      → Cluster R
      → Actor × Cluster R × Result LockResult
  lock_registered m user_id showtime_id a (err e) c = (a, c, err e)
  lock_registered m user_id showtime_id a (ok seats) c =
      let (a', c', r) = lock_admitted m user_id showtime_id (admit_all seats a) c in (a', c', ok r)

  unfoldable pub lock_begun :
      Meets
      → ℤ
      → ℤ
      → List ℤ
      → List ℤ
      → Actor
      → Result (Unit {0})
      → Cluster R
      → Actor × Cluster R × Result LockResult
  lock_begun m user_id showtime_id seat_ids seat_indices a (err e) c = (a, c, err e)
  lock_begun m user_id showtime_id seat_ids seat_indices a (ok done) c =
      let (a1, seats) = register_all seat_ids seat_indices a in
      let (a2, c', r) = lock_registered m user_id showtime_id a1 seats c in
      (drop_lease m.ended_at a2, c', r)

  unfoldable pub lock :
      Meets → ℤ → ℤ → List ℤ → List ℤ → Actor → Cluster R → Actor × Cluster R × Result LockResult
  lock m user_id showtime_id seat_ids seat_indices a c =
      if length seat_ids == length seat_indices
      then (let (a1, lease) = begin_request m.begun_at a in
          lock_begun m user_id showtime_id seat_ids seat_indices a1 lease c)
      else (a, c, err lengths_differ)
