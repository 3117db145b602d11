-- ===== src/SeatLock/Cluster.antt =====
-- The pools of `SingleNodeLock` (packages/redis-conn/src/single_node_lock.rs): a fixed list of Redis
-- servers, commands that may get lost on the way, and the commands that run on every server.
use bookit.Common.{ℕ, Bool, true, false, ◌&&◌, Option, none, some, ℤ, ltb, ◌==◌, if◌then◌else◌}
use bookit.Redis.Keys.{Key, Member}
use bookit.Redis.Interface.{Redis}

-- A command runs and is answered, runs and its answer is lost, or does not run. The last two are
-- errors to the caller, as is a connection that the pool does not give.
pub data Delivery : Type 0 where
  answered unanswered dropped : Delivery

abbrev pub executed : Delivery → Bool
executed dropped = false
executed _ = true

-- What a call of the lock meets: whether the pool of a server gives a connection, the delivery of
-- the call's commands (by number and server), the clock of the caller in seconds and that of the
-- servers in milliseconds.
pub record Env : Type 0 where
  pub connects : ℕ → Bool
  pub delivery : ℕ → ℕ → Delivery
  pub now : ℕ
  pub now_ms : ℕ

module _ (R : Redis) where
  pub record Node : Type 0 where
    pub strings : R.strings.Store
    pub zsets : R.zsets.Store
    pub bits : R.bits.Store

  pub record Cluster : Type 0 where
    pub size : ℕ
    pub node : ℕ → Node

  abbrev pub update : (ℕ → Node) → ℕ → Node → ℕ → Node
  update f i n j = if i == j then n else f j

  abbrev pub run {ℓ} : {A : Type ℓ} → Delivery → (Node → Node × A) → Node → Node × Option A
  run answered f n = let (m, a) = f n in (m, some a)
  run unanswered f n = ((f n).0, none)
  run dropped f n = (n, none)

  -- One command on one server.
  unfoldable pub run_at {ℓ} :
      {A : Type ℓ} → Delivery → ℕ → (Node → Node × A) → Cluster → Cluster × Option A
  run_at d i f c = let (m, a) = run d f (c.node i) in (record c { node = update c.node i m }, a)

  -- A command whose answer nobody reads, on every server; `join_all` waits for all of them.
  unfoldable pub on_all : (ℕ → Delivery) → (Node → Node) → Cluster → Cluster
  on_all d f c = record c {
    node = λ i. if ltb i c.size && executed (d i) then f (c.node i) else c.node i;
  }

  unfoldable pub zadd_cluster : (ℕ → Delivery) → Key → Member → ℤ → Cluster → Cluster
  zadd_cluster d k m x = on_all d (λ n. record n { zsets = R.zsets.zadd n.zsets k x m })

  unfoldable pub zrem_cluster : (ℕ → Delivery) → Key → Member → Cluster → Cluster
  zrem_cluster d k m = on_all d (λ n. record n { zsets = R.zsets.zrem n.zsets k m })
