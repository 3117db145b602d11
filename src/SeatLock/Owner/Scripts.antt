-- ===== src/SeatLock/Owner/Scripts.antt =====
-- The lock key of a seat under one command of another user: the scripts, SET NX and the extension
-- of packages/redis-conn/src/single_node_lock.rs.
use bookit.Common.{
  ℕ, ◌≡◌, ◌≢◌, ◌⊎◌, ◌∙◌, inl, inr, true, false, some, ℤ, pos, ◌==ℤ◌, ==ℤ_iff, arith,
}
use bookit.Redis.Keys.{Key, Key-discrete, seat_lock, num, Member}
use bookit.Redis.Interface.{Redis}
use bookit.SeatLock.Cluster.{Env, Node}
use bookit.SeatLock.Scripts.{
  Request, lock_key, context_key, foreign, owner_at, delete_keys, acquire_script,
  release_expired_script, settle_script, force_book_script,
}
use bookit.SeatLock.Single.{set_nx, pexpire}

pub ne-false : (u v : ℤ) → v ≢ u → (u ==ℤ v) ≡ false
ne-false u v h = ground (arith, ==ℤ_iff u v)

foreign-true : (u v : ℤ) → v ≢ u → foreign (some (num u)) v ≡ true
foreign-true u v h = ground (arith, ==ℤ_iff u v)

module _ (R : Redis) (s a u : ℤ) where
  abbrev pub key : Key
  key = seat_lock s a

  -- Where a request is about this seat, user `u` holds the lock on the server.
  abbrev pub Held : Request → ℕ → Node R → Type 0
  Held q now n = lock_key q ≡ key → R.strings.get n.strings key now ≡ some (num u)

  abbrev pub Keeps : Node R → Node R → Type 0
  Keeps n m = (t : ℕ) → R.strings.get m.strings key t ≡ R.strings.get n.strings key t

  module _ (q : Request) (other : q.user_id ≢ u) where
    -- The guard of the scripts refuses on this seat; elsewhere no key that they write is the lock's.
    guard :
        (now : ℕ) (n : Node R)
        → Held q now n
        → (lock_key q ≢ key) ⊎ (foreign (owner_at R q now n) q.user_id ≡ true)
    guard now n held = elim (Key-discrete (lock_key q) key) [
      | yes e ↦
          let o : owner_at R q now n ≡ some (num u) = cc (e, held e) in
          inr (rw o (foreign-true u q.user_id other))
      | no ne ↦ inl ne
    ]

    delete_keys-Keeps :
        (n : Node R) (t : ℕ)
        → lock_key q ≢ key
        → R.strings.get (delete_keys R q n.strings) key t ≡ R.strings.get n.strings key t
    delete_keys-Keeps n t ne =
        R.strings.get-del_ne _ (context_key q) key t (λ p. cc) ∙ R.strings.get-del_ne _ _ key t ne

    pub acquire_script-Keeps :
        (m : Member) (ttl_ms : ℕ) (x y : ℤ) (now : ℕ) (n : Node R)
        → Held q now n
        → Keeps n (acquire_script R q m ttl_ms x y now n).0
    unfolding acquire_script
    acquire_script-Keeps m ttl_ms x y now n held t = elim (guard now n held) [
      | inl ne ↦ ground (
        arith,
        R.strings.get-set_px_ne n.strings (lock_key q) key (num q.user_id) now ttl_ms t ne,
        R.strings.get-set_px_ne (R.strings.set_px n.strings (lock_key q) (num q.user_id) now ttl_ms)
            (context_key q) key (num (pos 1)) now ttl_ms t (λ p. cc),
      )
      | inr refused ↦ rw refused
    ]

    pub release_expired_script-Keeps :
        (m : Member) (now : ℕ) (n : Node R)
        → Held q now n
        → Keeps n (release_expired_script R q m now n).0
    unfolding release_expired_script
    release_expired_script-Keeps m now n held t = elim (guard now n held) [
      | inl ne ↦ ground (arith, delete_keys-Keeps n t ne)
      | inr refused ↦ rw refused
    ]

    pub settle_script-Keeps :
        (state : ℕ) (m : Member) (now : ℕ) (n : Node R)
        → Held q now n
        → Keeps n (settle_script R state q m now n).0
    unfolding settle_script
    settle_script-Keeps state m now n held t = elim (guard now n held) [
      | inl ne ↦ ground (arith, delete_keys-Keeps n t ne)
      | inr refused ↦ rw refused
    ]

    pub force_book_script-Keeps :
        (m : Member) (now : ℕ) (n : Node R)
        → Held q now n
        → Keeps n (force_book_script R q m now n).0
    unfolding force_book_script
    force_book_script-Keeps m now n held t = elim (guard now n held) [
      | inl ne ↦ ground (arith, delete_keys-Keeps n t ne)
      | inr refused ↦ rw refused
    ]

    pub set_nx-Keeps :
        (e : Env) (ttl_ms : ℕ) (n : Node R) → Held q e.now_ms n → Keeps n (set_nx R e q ttl_ms n).0
    unfolding set_nx
    set_nx-Keeps e ttl_ms n held t = elim (Key-discrete (lock_key q) key) [
      | yes same ↦
          let o : owner_at R q e.now_ms n ≡ some (num u) = cc (same, held same) in rw (o, set_nx)
      | no ne ↦ ground (
        arith,
        R.strings.get-set_px_ne n.strings (lock_key q) key (num q.user_id) e.now_ms ttl_ms t ne,
      )
    ]

    pub pexpire-Keeps :
        (e : Env) (ttl_ms : ℕ) (n : Node R) → lock_key q ≢ key → Keeps n (pexpire R e q ttl_ms n).0
    unfolding pexpire
    pexpire-Keeps e ttl_ms n ne t =
        R.strings.get-pexpire_ne n.strings (lock_key q) key e.now_ms ttl_ms t ne
