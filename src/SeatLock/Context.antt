-- ===== src/SeatLock/Context.antt =====
-- All writing calls of the trait (packages/redis-conn/src/seat_lock.rs), and what `user_holds_lock` answers
-- after them.
use bookit.Common.{ℕ, ◌≢◌, String, List, [], ◌∷◌, ℤ}
use bookit.Redis.Keys.{Key, seat_user_context, Member}
use bookit.Redis.Interface.{Redis}
use bookit.SeatLock.Cluster.{Delivery, Env, Node, Cluster, on_all, zadd_cluster, zrem_cluster}
use bookit.SeatLock.Single.{set_schedule_seat_bitmap_state_cluster}
use bookit.SeatLock.Owner.Safety.{Call, step}
use bookit.SeatLock.Every.{Every}
use bookit.SeatLock.NoContext.{NoContext, LeavesContext}

module _ (R : Redis) where
  -- The members that ZREMRANGEBYSCORE finds on a server, one after the other.
  abbrev pub zrem_each : R.zsets.Store → Key → List Member → R.zsets.Store
  zrem_each s k [] = s
  zrem_each s k (m ∷ ms) = zrem_each (R.zsets.zrem s k m) k ms

  -- `found`: the members of a server whose scores are within the bounds.
  unfoldable pub zrembyscore_cluster :
      (ℕ → Delivery) → Key → (Node R → List Member) → Cluster R → Cluster R
  zrembyscore_cluster d k found =
      on_all R d (λ n. record n { zsets = zrem_each n.zsets k (found n) })

  -- The writing calls of the trait: those of `Call`, and those that take a key or a channel.
  -- `publish_event` writes no key.
  pub data Writing : Type 0 where
    calls : Call → Writing
    adds : Key → Member → ℤ → Writing
    removes : Key → Member → Writing
    removes_by_score : Key → (Node R → List Member) → Writing
    sets_bitmap : ℤ → ℤ → ℕ → Writing
    publishes : String → String → Writing

  unfoldable pub write : Env → Writing → Cluster R → Cluster R
  write e (calls call) c = step R e call c
  write e (adds k m x) c = zadd_cluster R (e.delivery 0) k m x c
  write e (removes k m) c = zrem_cluster R (e.delivery 0) k m c
  write e (removes_by_score k found) c = zrembyscore_cluster (e.delivery 0) k found c
  write e (sets_bitmap showtime_id seat_id state) c =
      set_schedule_seat_bitmap_state_cluster R e 0 showtime_id seat_id state c
  write e (publishes channel payload) c = c

  unfoldable pub write_all : List (Env × Writing) → Cluster R → Cluster R
  write_all [] c = c
  write_all ((e, w) ∷ rest) c = write_all rest (write e w c)

  -- No acquisition by the script, and no ZADD under the name of a context key, which EXISTS would find.
  abbrev pub Leaves : Env × Writing → Type 0
  Leaves (e, calls call) = LeavesContext R call
  Leaves (e, adds k m x) = (s a v : ℤ) → k ≢ seat_user_context s a v
  Leaves (e, removes k m) = Unit
  Leaves (e, removes_by_score k found) = Unit
  Leaves (e, sets_bitmap showtime_id seat_id state) = Unit
  Leaves (e, publishes channel payload) = Unit
