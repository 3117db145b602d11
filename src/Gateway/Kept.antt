-- ===== src/Gateway/Kept.antt =====
-- The parts of a request to lock seats (apps/gateway-keeper/src/state_active.rs) and a predicate on the actor that
-- each operation on a slot keeps.
use bookit.Common.{ℕ, inl, inr, List, [], ◌∷◌, ℤ, Bool-cases, Option-cases}
use bookit.Redis.Interface.{Redis}
use bookit.SeatLock.Cluster.{Cluster}
use bookit.Gateway.Actor.{Actor, Result, ok, err, register_seat, try_admit, clear_seat}
use bookit.Gateway.Show.{
  Meets, register_all, collect, admit_all, clear_admission, handle, dispatch, lock_admitted,
  lock_registered,
}

-- What the operations on a slot keep, a request keeps.
module _ (P : Actor → Type 0) (register : (s x : ℤ) (a : Actor) → P a → P (register_seat s x a).0)
    (admit : (i : ℕ) (a : Actor) → P a → P (try_admit i a).0)
    (clear : (s : ℤ) (a : Actor) → P a → P (clear_seat s a)) where
  collect_keeps :
      (s : ℤ) (here : Result ℕ) (a : Actor) (rest : Actor × Result (List (ℤ × ℕ)))
      → P a
      → P rest.0
      → P (collect s here a rest).0
  unfolding collect
  collect_keeps s (err e) a rest p q = p
  collect_keeps s (ok i) a (a', err e) p q = q
  collect_keeps s (ok i) a (a', ok seats) p q = q

  pub register_all_keeps : (ss xs : List ℤ) (a : Actor) → P a → P (register_all ss xs a).0
  unfolding register_all
  register_all_keeps [] xs a p = p
  register_all_keeps (s ∷ ss) [] a p = p
  register_all_keeps (s ∷ ss) (x ∷ xs) a p =
      collect_keeps s (register_seat s x a).1 _ _ (register s x a p)
        (register_all_keeps ss xs _ (register s x a p))

  admit_all_keeps : (seats : List (ℤ × ℕ)) (a : Actor) → P a → P (admit_all seats a).0
  unfolding admit_all
  admit_all_keeps [] a p = p
  admit_all_keeps ((s, i) ∷ rest) a p =
      let q = admit_all_keeps rest (try_admit i a).0 (admit i a p) in
      elim (Bool-cases (try_admit i a).1) [ inl e ↦ rw e q | inr e ↦ rw e q ]

  clear_admission_keeps : (ss : List ℤ) (a : Actor) → P a → P (clear_admission ss a)
  unfolding clear_admission
  clear_admission_keeps [] a p = p
  clear_admission_keeps (s ∷ ss) a p = clear_admission_keeps ss _ (clear s a p)

  module _ (R : Redis) (m : Meets) (u h : ℤ) where
    handle_keeps : (ss : List ℤ) (a : Actor) (c : Cluster R) → P a → P (handle R m u h ss a c).0
    unfolding handle
    handle_keeps ss a c p = elim (Option-cases m.panics_after) [
      | inl e ↦ rw e p
      | inr (n, e) ↦ rw e (clear_admission_keeps ss a p)
    ]

    dispatch_keeps :
        (ss failed : List ℤ) (a : Actor) (c : Cluster R)
        → P a
        → P (dispatch R m u h ss failed a c).0
    unfolding dispatch handle
    dispatch_keeps ss failed a c p = elim (Bool-cases m.queue_full) [
      | inl e ↦ rw e (clear_admission_keeps ss a p)
      | inr e ↦ rw e (clear_admission_keeps _ _ (handle_keeps ss a c p))
    ]

    lock_admitted_keeps :
        (a : Actor) (ins outs : List ℤ) (c : Cluster R)
        → P a
        → P (lock_admitted R m u h (a, ins, outs) c).0
    unfolding lock_admitted
    lock_admitted_keeps a [] outs c p = p
    lock_admitted_keeps a (s ∷ ss) outs c p = dispatch_keeps (s ∷ ss) outs a c p

    pub lock_registered_keeps :
        (a : Actor) (seats : Result (List (ℤ × ℕ))) (c : Cluster R)
        → P a
        → P (lock_registered R m u h a seats c).0
    unfolding lock_registered
    lock_registered_keeps a (err e) c p = p
    lock_registered_keeps a (ok seats) c p = lock_admitted_keeps _ _ _ c (admit_all_keeps seats a p)
