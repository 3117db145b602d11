-- ===== src/LockServer/Election.antt =====
-- `acquire_updater_leader_lock` of apps/lock-server/src/handlers_active.rs, on the server that the
-- instances share: its three commands at times of their own, and what other instances write in between.
use bookit.Common.{
  ℕ, Bool, true, false, Option, none, some, List, [], ◌∷◌, if◌then◌else◌, String, same_text,
}
use bookit.Redis.Keys.{updater_leader, Val, num, text}
use bookit.Redis.Interface.{Strings}
use bookit.SeatLock.Cluster.{Delivery, answered, unanswered, dropped}

abbrev pub leader_ttl_ms : ℕ
leader_ttl_ms = 2000

-- A command on the key of the leader that writes: the SET of an instance and the PEXPIRE of any, with the
-- time of the server.
pub data Command : Type 0 where
  sets : Delivery → String → ℕ → Command
  prolongs : Delivery → ℕ → Command

-- What an attempt meets: a connection, the delivery of its three commands, the time of the server at each
-- of them, and what other instances write in between.
pub record Attempt : Type 0 where
  pub connects : Bool
  pub on_set : Delivery
  pub set_ms : ℕ
  pub before_get : List Command
  pub on_get : Delivery
  pub get_ms : ℕ
  pub before_pexpire : List Command
  pub on_pexpire : Delivery
  pub pexpire_ms : ℕ

abbrev pub is_self : String → Option Val → Bool
is_self id none = false
is_self id (some (num v)) = false
is_self id (some (text t)) = same_text t id

-- An error counts as no owner.
abbrev pub owner_read : Delivery → Option Val → Option Val
owner_read answered v = v
owner_read unanswered v = none
owner_read dropped v = none

module _ (S : Strings) where
  -- SET NX PX, and whether it was answered that the key was created.
  unfoldable pub create_leader : Delivery → String → ℕ → Option Val → S.Store → S.Store × Bool
  create_leader answered id now none s =
      (S.set_px s updater_leader (text id) now leader_ttl_ms, true)
  create_leader unanswered id now none s =
      (S.set_px s updater_leader (text id) now leader_ttl_ms, false)
  create_leader dropped id now none s = (s, false)
  create_leader d id now (some v) s = (s, false)

  abbrev pub prolong : Delivery → ℕ → S.Store → S.Store
  prolong dropped now s = s
  prolong answered now s = S.pexpire s updater_leader now leader_ttl_ms
  prolong unanswered now s = S.pexpire s updater_leader now leader_ttl_ms

  unfoldable pub command : Command → S.Store → S.Store
  command (sets d id now) s = (create_leader d id now (S.get s updater_leader now) s).0
  command (prolongs d now) s = prolong d now s

  unfoldable pub commands : List Command → S.Store → S.Store
  commands [] s = s
  commands (x ∷ xs) s = commands xs (command x s)

  unfoldable pub keep_leader : Attempt → String → S.Store × Bool → S.Store × Bool
  keep_leader a id (s, true) = (s, true)
  keep_leader a id (s, false) =
      let read = commands a.before_get s in
      if is_self id (owner_read a.on_get (S.get read updater_leader a.get_ms))
      then (prolong a.on_pexpire a.pexpire_ms (commands a.before_pexpire read), true)
      else (read, false)

  -- The SET of an attempt.
  abbrev pub first : Attempt → String → S.Store → S.Store × Bool
  first a id s = create_leader a.on_set id a.set_ms (S.get s updater_leader a.set_ms) s

  unfoldable pub acquire_updater_leader_lock : Attempt → String → S.Store → S.Store × Bool
  acquire_updater_leader_lock a id s =
      if a.connects then keep_leader a id (first a id s) else (s, false)
