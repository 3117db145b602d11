-- ===== src/Redis/Keys.antt =====
-- The Redis keys, values and sorted-set members of packages/redis-conn/src/keys.rs and of the
-- `format!` calls beside the commands, as data: one constructor for each format.
use bookit.Common.{ℤ, ℤ-discrete, String, String-discrete}

pub data Key : Type 0 where
  -- "{schedule}:{seat}"
  seat_lock : ℤ → ℤ → Key
  -- "seat_ctx:{{schedule}}:{seat}:{user}"
  seat_user_context : ℤ → ℤ → ℤ → Key
  -- "{{schedule}}:user:{user}" and "{{schedule}}:locks"
  user_zset : ℤ → ℤ → Key
  room_zset : ℤ → Key
  -- "cache:seat_processing:queue"
  processing_queue : Key
  -- "{{schedule}}:seats_bitmap"
  seats_bitmap : ℤ → Key
  -- "seat_checkout:{schedule}:{seat}"
  seat_checkout : ℤ → ℤ → Key
  -- "schedule:closed:{schedule}"
  schedule_closed : ℤ → Key
  -- "cache:schedule:{schedule}:seats:available"
  available_seats : ℤ → Key
  -- "lock_server:layout_updater_leader"
  updater_leader : Key
  -- "cb:{service}:state", "cb:{service}:open_until", "cb:{service}:failures"
  breaker_state breaker_open_until breaker_failures : String → Key

-- A string value: the decimal digits of an integer, or another text.
pub data Val : Type 0 where
  num : ℤ → Val
  text : String → Val

-- A member of a sorted set: "{seat}", "{seat}:{user}", the JSON object of a queue entry with its
-- seat_id, schedule_id and user_id, or another text.
pub data Member : Type 0 where
  seat : ℤ → Member
  seat_user : ℤ → ℤ → Member
  entry : ℤ → ℤ → ℤ → Member
  raw : String → Member

pub Key-discrete : Discrete Key
Key-discrete = hlevel (ℤ-discrete, String-discrete)

pub Member-discrete : Discrete Member
Member-discrete = hlevel (ℤ-discrete, String-discrete)
