-- ===== src/Redis/Reference.antt =====
-- A concrete server, which shows that the interface of Redis/Interface.antt can be met and on which
-- the examples run: functions from keys to values with deadlines, to members with scores, and to
-- single bits.
use bookit.Common.{
  ℕ, ◌+◌, ◌*◌, ◌/◌, ◌%◌, ◌^◌, ◌≤◌, ◌<◌, ◌≡◌, ◌≢◌, ◌⊎◌, inl, inr, refl, Option, none, some, ℤ, ltb,
  ◌==◌, if◌then◌else◌, arith,
}
use mathlib.Core.Logic.{ite, if_pos, if_neg}
use bookit.Redis.Keys.{Key, Key-discrete, Val, Member, Member-discrete}
use bookit.Redis.Interface.{Redis, Strings, Zsets, Bits}

abbrev pub StringStore : Type 0
StringStore = Key → Option (Val × Option ℕ)

unfoldable pub write : StringStore → Key → Option (Val × Option ℕ) → StringStore
write s k x j = ite (Key-discrete k j) x (s j)

unfoldable pub live : Option (Val × Option ℕ) → ℕ → Option Val
live none t = none
live (some (v, none)) t = some v
live (some (v, some d)) t = if ltb t d then some v else none

unfoldable pub extend : StringStore → Key → Option Val → ℕ → StringStore
extend s k none d = s
extend s k (some v) d = write s k (some (v, some d))

write_self : (s : StringStore) (k : Key) (x : Option (Val × Option ℕ)) → write s k x k ≡ x
unfolding write
write_self s k x = rw (if_pos (Key-discrete k k) refl)

pub write_ne :
    (s : StringStore) (k j : Key) (x : Option (Val × Option ℕ)) → k ≢ j → write s k x j ≡ s j
unfolding write
write_ne s k j x h = rw (if_neg (Key-discrete k j) h)

pub extend_ne :
    (s : StringStore) (k j : Key) (v : Option Val) (d : ℕ) → k ≢ j → extend s k v d j ≡ s j
unfolding extend
extend_ne s k j none d h = refl
extend_ne s k j (some v) d h = write_ne s k j _ h

pub live_later :
    (x : Option (Val × Option ℕ)) (now t : ℕ) → live x now ≡ none → now ≤ t → live x t ≡ none
unfolding live
live_later none now t h k = refl
live_later (some (v, none)) now t h k = absurd (ground arith)
live_later (some (v, some d)) now t h k = ground arith

live-write :
    (s : StringStore) (k : Key) (x : Option (Val × Option ℕ)) (t : ℕ)
    → live (write s k x k) t ≡ live x t
live-write s k x t = rw (write_self s k x)

pub live_plain :
    (s : StringStore) (k : Key) (v : Val) (t : ℕ) → live (write s k (some (v, none)) k) t ≡ some v
unfolding live
live_plain s k v t = live-write s k (some (v, none)) t

pub live_until :
    (s : StringStore) (k : Key) (v : Val) (d t : ℕ)
    → live (write s k (some (v, some d)) k) t ≡ (if ltb t d then some v else none)
unfolding live
live_until s k v d t = live-write s k (some (v, some d)) t

pub live-none : (s : StringStore) (k : Key) (t : ℕ) → live (write s k none k) t ≡ none
unfolding live
live-none s k t = live-write s k none t

pub live-extend :
    (s : StringStore) (k : Key) (v : Val) (now d t : ℕ)
    → live (s k) now ≡ some v
    → live (extend s k (live (s k) now) d k) t ≡ (if ltb t d then some v else none)
unfolding extend
live-extend s k v now d t e = rw e (live_until s k v d t)

abbrev pub strings : Strings
strings = record {
  Store = StringStore;
  get = λ s k t. live (s k) t;
  set = λ s k v. write s k (some (v, none));
  set_px = λ s k v now ttl. write s k (some (v, some (now + ttl)));
  del = λ s k. write s k none;
  pexpire = λ s k now ttl. extend s k (live (s k) now) (now + ttl);
  get-set_ne = λ s k j v t h. rw (write_ne s k j (some (v, none)) h);
  get-set_px_ne = λ s k j v now ttl t h. rw (write_ne s k j (some (v, some (now + ttl))) h);
  get-del_ne = λ s k j t h. rw (write_ne s k j none h);
  get-pexpire_ne = λ s k j now ttl t h. rw (extend_ne s k j (live (s k) now) (now + ttl) h);
  get-set_self = λ s k v t. live_plain s k v t;
  get-set_px_self = λ s k v now ttl t _ _ _. live_until s k v (now + ttl) t;
  get-del_self = λ s k t. live-none s k t;
  get-pexpire_self = λ s k v now ttl t e _ _ _. live-extend s k v now (now + ttl) t e;
  get-later = λ s k now t. live_later (s k) now t;
}

abbrev pub ScoreStore : Type 0
ScoreStore = Key → Member → Option ℤ

unfoldable pub write_score : ScoreStore → Key → Member → Option ℤ → ScoreStore
write_score z k m x j n = ite (Key-discrete k j) (ite (Member-discrete m n) x (z j n)) (z j n)

pub write_score_self :
    (z : ScoreStore) (k : Key) (m : Member) (x : Option ℤ) → write_score z k m x k m ≡ x
unfolding write_score
write_score_self z k m x =
    rw (if_pos (Key-discrete k k) refl) (rw (if_pos (Member-discrete m m) refl))

pub write_score_ne :
    (z : ScoreStore) (k j : Key) (m n : Member) (x : Option ℤ)
    → (k ≢ j) ⊎ (m ≢ n)
    → write_score z k m x j n ≡ z j n
unfolding write_score
write_score_ne z k j m n x (inl h) = rw (if_neg (Key-discrete k j) h)
write_score_ne z k j m n x (inr h) = elim (Key-discrete k j) [
  | yes e ↦ rw (if_pos (Key-discrete k j) e) (rw (if_neg (Member-discrete m n) h))
  | no e ↦ rw (if_neg (Key-discrete k j) e)
]

abbrev pub zsets : Zsets
zsets = record {
  Store = ScoreStore;
  score = λ z k m. z k m;
  zadd = λ z k x m. write_score z k m (some x);
  zrem = λ z k m. write_score z k m none;
  score-zadd_self = λ z k x m. write_score_self z k m (some x);
  score-zadd_ne = λ z k j x m n h. write_score_ne z k j m n (some x) h;
  score-zrem_self = λ z k m. write_score_self z k m none;
  score-zrem_ne = λ z k j m n h. write_score_ne z k j m n none h;
}

abbrev pub BitStore : Type 0
BitStore = Key → ℕ → ℕ

unfoldable pub write_bit : BitStore → Key → ℕ → ℕ → BitStore
write_bit b k o x j p = ite (Key-discrete k j) (if o == p then x else b j p) (b j p)

unfoldable pub write_field : BitStore → Key → ℕ → ℕ → BitStore
unfolding write_bit
write_field b k o v = write_bit (write_bit b k o (v / 2)) k (o + 1) (v % 2)

unfoldable pub read_field : BitStore → Key → ℕ → ℕ
read_field b k o = b k o * 2 + b k (o + 1)

pub read-write_field_self :
    (b : BitStore) (k : Key) (o v : ℕ)
    → o + 2 ≤ 2 ^ 32
    → v < 4
    → read_field (write_field b k o v) k o ≡ v
unfolding read_field write_field
read-write_field_self b k o v h w = ground arith

pub read-write_field_ne :
    (b : BitStore) (k j : Key) (o p v : ℕ)
    → (k ≢ j) ⊎ ((o + 2 ≤ p) ⊎ (p + 2 ≤ o))
    → read_field (write_field b k o v) j p ≡ read_field b j p
unfolding read_field write_field
read-write_field_ne b k j o p v h = ground arith

abbrev pub bits : Bits
bits = record {
  Store = BitStore;
  field = read_field;
  set_field = write_field;
  field-set_field_self = read-write_field_self;
  field-set_field_ne = read-write_field_ne;
}

abbrev pub reference : Redis
reference = record { strings = strings; zsets = zsets; bits = bits }
