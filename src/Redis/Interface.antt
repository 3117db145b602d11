-- ===== src/Redis/Interface.antt =====
-- The Redis commands that the program sends, as operations of one server, with the documented
-- behaviour that the program relies on. Redis itself is not part of this repository. Keys of
-- different formats are different keys, so the string keys, the sorted sets and the bit fields of
-- a server are three stores of their own.
use bookit.Common.{ℕ, ◌+◌, ◌≤◌, ◌<◌, ◌^◌, ◌≡◌, ◌≢◌, ◌⊎◌, ℤ, Option, none, some, ltb, if◌then◌else◌}
use bookit.Redis.Keys.{Key, Val, Member}

-- GET k at a time; SET k v; SET k v PX ttl at a time; DEL k; PEXPIRE k ttl at a time; times in ms.
pub record Strings : Type 1 where
  pub Store : Type 0
  pub get : Store → Key → ℕ → Option Val
  pub set : Store → Key → Val → Store
  pub set_px : Store → Key → Val → ℕ → ℕ → Store
  pub del : Store → Key → Store
  pub pexpire : Store → Key → ℕ → ℕ → Store
  -- A command on one key leaves every other key alone.
  pub get-set_ne :
      (s : Store) (k j : Key) (v : Val) (t : ℕ) → k ≢ j → get (set s k v) j t ≡ get s j t
  pub get-set_px_ne :
      (s : Store) (k j : Key) (v : Val) (now ttl t : ℕ)
      → k ≢ j
      → get (set_px s k v now ttl) j t ≡ get s j t
  pub get-del_ne : (s : Store) (k j : Key) (t : ℕ) → k ≢ j → get (del s k) j t ≡ get s j t
  pub get-pexpire_ne :
      (s : Store) (k j : Key) (now ttl t : ℕ) → k ≢ j → get (pexpire s k now ttl) j t ≡ get s j t
  -- A plain SET holds for ever, one with PX for its time to live.
  pub get-set_self : (s : Store) (k : Key) (v : Val) (t : ℕ) → get (set s k v) k t ≡ some v
  pub get-set_px_self :
      (s : Store) (k : Key) (v : Val) (now ttl t : ℕ)
      → 0 < ttl
      → ttl < 2 ^ 63
      → now ≤ t
      → get (set_px s k v now ttl) k t ≡ (if ltb t (now + ttl) then some v else none)
  pub get-del_self : (s : Store) (k : Key) (t : ℕ) → get (del s k) k t ≡ none
  -- PEXPIRE keeps the value of a live key and sets the time that it has left.
  pub get-pexpire_self :
      (s : Store) (k : Key) (v : Val) (now ttl t : ℕ)
      → get s k now ≡ some v
      → 0 < ttl
      → ttl < 2 ^ 63
      → now ≤ t
      → get (pexpire s k now ttl) k t ≡ (if ltb t (now + ttl) then some v else none)
  -- A key that has expired stays away until it is written.
  pub get-later :
      (s : Store) (k : Key) (now t : ℕ) → get s k now ≡ none → now ≤ t → get s k t ≡ none

-- ZSCORE, ZADD with one member, ZREM of one member, ZRANGEBYSCORE -inf max.
pub record Zsets : Type 1 where
  pub Store : Type 0
  pub score : Store → Key → Member → Option ℤ
  pub zadd : Store → Key → ℤ → Member → Store
  pub zrem : Store → Key → Member → Store
  pub score-zadd_self :
      (s : Store) (k : Key) (x : ℤ) (m : Member) → score (zadd s k x m) k m ≡ some x
  pub score-zadd_ne :
      (s : Store) (k j : Key) (x : ℤ) (m n : Member)
      → (k ≢ j) ⊎ (m ≢ n)
      → score (zadd s k x m) j n ≡ score s j n
  pub score-zrem_self : (s : Store) (k : Key) (m : Member) → score (zrem s k m) k m ≡ none
  pub score-zrem_ne :
      (s : Store) (k j : Key) (m n : Member)
      → (k ≢ j) ⊎ (m ≢ n)
      → score (zrem s k m) j n ≡ score s j n

-- BITFIELD k SET u2 offset v, and the two bits at an offset.
pub record Bits : Type 1 where
  pub Store : Type 0
  pub field : Store → Key → ℕ → ℕ
  pub set_field : Store → Key → ℕ → ℕ → Store
  pub field-set_field_self :
      (s : Store) (k : Key) (o v : ℕ) → o + 2 ≤ 2 ^ 32 → v < 4 → field (set_field s k o v) k o ≡ v
  pub field-set_field_ne :
      (s : Store) (k j : Key) (o p v : ℕ)
      → (k ≢ j) ⊎ ((o + 2 ≤ p) ⊎ (p + 2 ≤ o))
      → field (set_field s k o v) j p ≡ field s j p

pub record Redis : Type 1 where
  pub strings : Strings
  pub zsets : Zsets
  pub bits : Bits
