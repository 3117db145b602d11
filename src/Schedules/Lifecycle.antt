-- ===== src/Schedules/Lifecycle.antt =====
-- The life of a schedule in apps/http-server/src/api/admin/schedules_v2.rs: `start_schedule`,
-- `close_schedule`, `delete_schedule` and `publish_schedule_lifecycle`. Each commits to the database
-- first and publishes then; the two halves are functions of their own, since another request may come
-- between them.
use bookit.Common.{
  Bool, true, false, Option, none, some, List, [], ◌∷◌, ◌++◌, ℤ, ◌==ℤ◌, if◌then◌else◌,
}
use bookit.Payment.Tables.{update_where}
use bookit.Schedules.Tables.{
  LifecycleState, scheduled, opened, closed, Schedule, Database, AppError, bad_request, not_found,
  internal, Result, ok, err,
}
use bookit.Schedules.Extra.{find_live}

pub data PubSubEvent : Type 0 where
  schedule_opened schedule_closed : ℤ → PubSubEvent
  other_event : PubSubEvent

-- Redis: the keys of closed schedules, and what was published on the channel of the schedules, the
-- first message first.
pub record Redis : Type 0 where
  pub closed_key : ℤ → Bool
  pub published : List PubSubEvent

-- Whether Redis carries out the two commands.
pub record Reply : Type 0 where
  pub writes : Bool
  pub publishes : Bool

abbrev pub mark : Bool → ℤ → (ℤ → Bool) → ℤ → Bool
mark b s keys t = if s ==ℤ t then b else keys t

abbrev pub publish : Bool → PubSubEvent → Redis → Redis × Result (Unit {0})
publish true e r = (record r { published = r.published ++ (e ∷ []) }, ok tt)
publish false e r = (r, err (internal "publish"))

abbrev pub write_and_publish : Reply → Bool → ℤ → PubSubEvent → Redis → Redis × Result (Unit {0})
write_and_publish reply b s e r =
    if reply.writes
    then publish reply.publishes e (record r { closed_key = mark b s r.closed_key })
    else (r, err (internal "set"))

unfoldable pub publish_schedule_lifecycle : Reply → PubSubEvent → Redis → Redis × Result (Unit {0})
publish_schedule_lifecycle reply (schedule_opened s) r =
    write_and_publish reply false s (schedule_opened s) r
publish_schedule_lifecycle reply (schedule_closed s) r =
    write_and_publish reply true s (schedule_closed s) r
publish_schedule_lifecycle reply other_event r =
    (r, err (internal "Invalid schedule lifecycle event"))

abbrev pub has_id : ℤ → Schedule → Bool
has_id s r = r.id ==ℤ s

abbrev pub with_state : LifecycleState → Schedule → Schedule
with_state st r = record r { lifecycle_state = st }

-- UPDATE schedules SET lifecycle_state
unfoldable pub set_state : LifecycleState → ℤ → Database → Database
set_state st s db = record db { schedules = update_where (has_id s) (with_state st) db.schedules }

abbrev pub not_there : AppError
not_there = not_found "Schedule not found"

-- The transaction of `start_schedule`, by the row that it has locked.
unfoldable pub start_by_state : LifecycleState → ℤ → Database → Database × Result (Unit {0})
start_by_state closed s db = (db, err (bad_request "A closed schedule cannot be restarted"))
start_by_state opened s db = (db, ok tt)
start_by_state scheduled s db = (set_state opened s db, ok tt)

unfoldable pub close_by_state : LifecycleState → ℤ → Database → Database × Result (Unit {0})
close_by_state closed s db = (db, ok tt)
close_by_state opened s db = (set_state closed s db, ok tt)
close_by_state scheduled s db = (set_state closed s db, ok tt)

abbrev pub start_found : Option Schedule → ℤ → Database → Database × Result (Unit {0})
start_found none s db = (db, err not_there)
start_found (some r) s db = start_by_state r.lifecycle_state s db

abbrev pub close_found : Option Schedule → ℤ → Database → Database × Result (Unit {0})
close_found none s db = (db, err not_there)
close_found (some r) s db = close_by_state r.lifecycle_state s db

unfoldable pub start_commit : ℤ → Database → Database × Result (Unit {0})
start_commit s db = start_found (find_live s db) s db

unfoldable pub close_commit : ℤ → Database → Database × Result (Unit {0})
close_commit s db = close_found (find_live s db) s db

abbrev pub deleted : Schedule → Schedule
deleted r = record r { lifecycle_state = closed; is_deleted = true }

abbrev pub delete_found : Option Schedule → ℤ → Database → Database × Result (Unit {0})
delete_found none s db = (db, err not_there)
delete_found (some r) s db =
    (record db { schedules = update_where (has_id s) deleted db.schedules }, ok tt)

-- No transaction: the row is read and then written, whatever came between.
unfoldable pub delete_commit : ℤ → Database → Database × Result (Unit {0})
delete_commit s db = delete_found (find_live s db) s db

-- The tables and Redis.
pub record World : Type 0 where
  pub db : Database
  pub redis : Redis

abbrev pub published_in : Database → Redis × Result (Unit {0}) → World × Result (Unit {0})
published_in db (r, a) = (record { db = db; redis = r }, a)

-- The second half of a handler: it is left out where the first answered with an error.
unfoldable pub then_publish :
    Reply → PubSubEvent → Redis → Database × Result (Unit {0}) → World × Result (Unit {0})
then_publish reply e r (db, ok t) = published_in db (publish_schedule_lifecycle reply e r)
then_publish reply e r (db, err x) = (record { db = db; redis = r }, err x)

unfoldable pub start_schedule : Reply → ℤ → World → World × Result (Unit {0})
start_schedule reply s w = then_publish reply (schedule_opened s) w.redis (start_commit s w.db)

unfoldable pub close_schedule : Reply → ℤ → World → World × Result (Unit {0})
close_schedule reply s w = then_publish reply (schedule_closed s) w.redis (close_commit s w.db)

unfoldable pub delete_schedule : Reply → ℤ → World → World × Result (Unit {0})
delete_schedule reply s w = then_publish reply (schedule_closed s) w.redis (delete_commit s w.db)
