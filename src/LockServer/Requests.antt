-- ===== src/LockServer/Requests.antt =====
-- `process_lock_request` of apps/lock-server/src/handlers_active.rs, and what an actor of
-- apps/lock-server/src/consumer_active.rs does with one task. The pauses between the attempts are left
-- out, and an event whose publication fails is lost.
use bookit.Common.{
  ℕ, zero, suc, Bool, true, false, List, [], ◌∷◌, ◌++◌, ℤ, pos, if◌then◌else◌, String, same_text,
  length,
}
use bookit.Redis.Interface.{Redis}
use bookit.SeatLock.Cluster.{Env, Cluster}
use bookit.SeatLock.Scripts.{Request}
use bookit.SeatLock.Single.{release_lock, update_seat_metadata_lua}

pub record SeatLockMessage : Type 0 where
  pub action : String
  pub user_id : ℤ
  pub showtime_id : ℤ
  pub seat_ids : List ℤ

-- The events that are published, each on the channel of its room, the last one on the global channel.
pub data PubSubEvent : Type 0 where
  -- user, showtime, seat
  seat_locked seat_unlocked : ℤ → ℤ → ℤ → PubSubEvent
  -- user, showtime, success, locked and failed seats
  lock_slots_response : ℤ → ℤ → Bool → List ℤ → List ℤ → PubSubEvent

abbrev pub lock_ttl_secs : ℤ
lock_ttl_secs = pos 300

-- Whether each event, by number, gets through to Redis.
abbrev pub publish : (ℕ → Bool) → ℕ → PubSubEvent → List PubSubEvent → List PubSubEvent
publish through n event events = if through n then events ++ (event ∷ []) else events

-- SeatLocked for each seat.
unfoldable pub publish_locked :
    (ℕ → Bool) → ℕ → SeatLockMessage → List ℤ → List PubSubEvent → List PubSubEvent
publish_locked through n m [] events = events
publish_locked through n m (a ∷ rest) events =
    publish_locked through (suc n) m rest
      (publish through n (seat_locked m.user_id m.showtime_id a) events)

abbrev pub response : SeatLockMessage → Bool → PubSubEvent
response m true = lock_slots_response m.user_id m.showtime_id true m.seat_ids []
response m false = lock_slots_response m.user_id m.showtime_id false [] m.seat_ids

unfoldable pub report : (ℕ → Bool) → SeatLockMessage → Bool → List PubSubEvent → List PubSubEvent
report through m true events =
    publish through (length m.seat_ids) (response m true)
      (publish_locked through 0 m m.seat_ids events)
report through m false events = publish through (length m.seat_ids) (response m false) events

module _ (R : Redis) where
  pub record Server : Type 0 where
    pub cluster : Cluster R
    pub events : List PubSubEvent

  abbrev pub message_request : SeatLockMessage → ℤ → Request
  message_request m a = record { showtime_id = m.showtime_id; seat_id = a; user_id = m.user_id }

  unfoldable pub unlock_seats :
      (ℕ → Env) → (ℕ → Bool) → ℕ → SeatLockMessage → List ℤ → Server → Server
  unlock_seats envs through n m [] s = s
  unlock_seats envs through n m (a ∷ rest) s =
      let (c, released) = release_lock R (envs n) (message_request m a) s.cluster in
      unlock_seats envs through (suc n) m rest (record {
        cluster = c;
        events =
            if released
            then publish through n (seat_unlocked m.user_id m.showtime_id a) s.events
            else s.events;
      })

  -- At most so many attempts; the first that succeeds ends them.
  unfoldable pub attempt_updates :
      ℕ → (ℕ → Env) → ℕ → SeatLockMessage → Cluster R → Cluster R × Bool
  attempt_updates zero envs n m c = (c, false)
  attempt_updates (suc k) envs n m c =
      let (c1, updated) =
        update_seat_metadata_lua R (envs n) m.showtime_id m.seat_ids m.user_id lock_ttl_secs c in
      let again = attempt_updates k envs (suc n) m c1 in if updated then (c1, true) else again

  unfoldable pub process_lock_request : (ℕ → Env) → (ℕ → Bool) → SeatLockMessage → Server → Server
  process_lock_request envs through m s =
      let (c, updated) = attempt_updates 3 envs 0 m s.cluster in
      if same_text m.action "unlock"
      then unlock_seats envs through 0 m m.seat_ids s
      else record { cluster = c; events = report through m updated s.events }
