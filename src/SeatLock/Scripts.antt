-- ===== src/SeatLock/Scripts.antt =====
-- The Lua scripts of packages/redis-conn/src/single_node_lock.rs. A script runs on one server with
-- nothing in between. KEYS are the lock key, the context key, the user's and the room's sorted sets,
-- the processing queue and the seat bitmap. Redis stops a script at an argument that it refuses (a time
-- to live of 0 or too long, a bit beyond 2^32); here the laws of the commands then say nothing.
use bookit.Common.{
  ℕ, Bool, true, false, not, Option, none, some, ℤ, pos, ◌==ℤ◌, if◌then◌else◌, ◌*◌, ◌%◌, ◌^◌,
  as_u64,
}
use bookit.Redis.Keys.{
  Key, seat_lock, seat_user_context, user_zset, room_zset, processing_queue, seats_bitmap, Val, num,
  text, Member, seat, seat_user,
}
use bookit.Redis.Interface.{Redis}
use bookit.SeatLock.Cluster.{Node}

-- The seat and the user that a call is about.
pub record Request : Type 0 where
  pub showtime_id : ℤ
  pub seat_id : ℤ
  pub user_id : ℤ

abbrev pub lock_key : Request → Key
lock_key q = seat_lock q.showtime_id q.seat_id

abbrev pub context_key : Request → Key
context_key q = seat_user_context q.showtime_id q.seat_id q.user_id

-- `current_owner and current_owner ~= ARGV[1]`
abbrev pub foreign : Option Val → ℤ → Bool
foreign none user = false
foreign (some (num v)) user = not (v ==ℤ user)
foreign (some (text s)) user = true

-- `seat_id as usize * 2`, on 64 bits
abbrev pub bit_offset : ℤ → ℕ
bit_offset seat_id = as_u64 seat_id * 2 % 2 ^ 64

module _ (R : Redis) where
  abbrev pub add_to_sets : Request → Member → ℤ → ℤ → R.zsets.Store → R.zsets.Store
  add_to_sets q member expiry processing_expiry z =
      R.zsets.zadd
        (R.zsets.zadd (R.zsets.zadd z (user_zset q.showtime_id q.user_id) expiry (seat q.seat_id))
          (room_zset q.showtime_id) expiry (seat_user q.seat_id q.user_id))
        processing_queue processing_expiry member

  abbrev pub remove_from_sets : Request → Member → R.zsets.Store → R.zsets.Store
  remove_from_sets q member z =
      R.zsets.zrem
        (R.zsets.zrem (R.zsets.zrem z (user_zset q.showtime_id q.user_id) (seat q.seat_id))
          (room_zset q.showtime_id) (seat_user q.seat_id q.user_id))
        processing_queue member

  abbrev pub set_bits : Request → ℕ → R.bits.Store → R.bits.Store
  set_bits q state b = R.bits.set_field b (seats_bitmap q.showtime_id) (bit_offset q.seat_id) state

  -- The DELs of the lock key and of the context key.
  abbrev pub delete_keys : Request → R.strings.Store → R.strings.Store
  delete_keys q s = R.strings.del (R.strings.del s (lock_key q)) (context_key q)

  -- The body that the releasing and the booking scripts share, up to the new state of the seat.
  abbrev pub drop_seat : Request → Member → ℕ → Node R → Node R
  drop_seat q member state n = record {
    strings = delete_keys q n.strings;
    zsets = remove_from_sets q member n.zsets;
    bits = set_bits q state n.bits;
  }

  abbrev pub owner_at : Request → ℕ → Node R → Option Val
  owner_at q now_ms n = R.strings.get n.strings (lock_key q) now_ms

  -- The script of `acquire_seat_lock_lua`.
  unfoldable pub acquire_script : Request → Member → ℕ → ℤ → ℤ → ℕ → Node R → Node R × ℕ
  acquire_script q member ttl_ms expiry processing_expiry now_ms n =
      if foreign (owner_at q now_ms n) q.user_id then (n, 0) else (
        record {
          strings =
              R.strings.set_px
                (R.strings.set_px n.strings (lock_key q) (num q.user_id) now_ms ttl_ms)
                (context_key q) (num (pos 1)) now_ms ttl_ms;
          zsets = add_to_sets q member expiry processing_expiry n.zsets;
          bits = set_bits q 1 n.bits;
        },
        1,
      )

  -- The script of `release_expired_lock_lua`.
  unfoldable pub release_expired_script : Request → Member → ℕ → Node R → Node R × ℕ
  release_expired_script q member now_ms n =
      if foreign (owner_at q now_ms n) q.user_id
      then (record n { zsets = R.zsets.zrem n.zsets processing_queue member }, 0)
      else (drop_seat q member 0 n, 1)

  -- The scripts of `release_lock` (state 0) and of `book_seat_lua` (state 2).
  unfoldable pub settle_script : ℕ → Request → Member → ℕ → Node R → Node R × ℕ
  settle_script state q member now_ms n =
      if foreign (owner_at q now_ms n) q.user_id then (n, 0) else (drop_seat q member state n, 1)

  -- The script of `force_book_seat_lua`.
  unfoldable pub force_book_script : Request → Member → ℕ → Node R → Node R × ℕ
  force_book_script q member now_ms n = (
    record {
      strings =
          if foreign (owner_at q now_ms n) q.user_id then n.strings else delete_keys q n.strings;
      zsets = remove_from_sets q member n.zsets;
      bits = set_bits q 2 n.bits;
    },
    1,
  )
