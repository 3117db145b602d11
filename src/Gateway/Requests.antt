-- ===== src/Gateway/Requests.antt =====
-- What a request to lock seats answers and leaves behind (`GatewayState::lock` of
-- apps/gateway-keeper/src/state_active.rs).
use bookit.Common.{
  ℕ, suc, ◌+◌, ◌≡◌, refl, ap, inl, inr, Option, none, some, List, [], ◌∷◌, ◌++◌, ℤ, pos, ◌==ℤ◌,
  ◌==◌, if◌then◌else◌, length, arith, Bool-cases, Option-cases,
}
use bookit.Redis.Interface.{Redis}
use bookit.SeatLock.Cluster.{Env, Cluster}
use bookit.SeatLock.Scripts.{Request}
use bookit.SeatLock.Single.{acquire_distributed_lock}
use bookit.Gateway.Actor.{
  Actor, Result, Error, ok, err, begin_request, drop_lease, register_seat, try_admit, clear_seat,
  set_index, claim_slot, map_seat, register_at, is_positive, slot_index,
}
use bookit.Gateway.Show.{
  LockResult, Meets, register_all, collect, admit_all, acquire_all, handle, or_all_failed, dispatch,
  lock_admitted, lock_registered, lock_begun, lock,
}
use bookit.Gateway.Kept.{lock_registered_keeps, register_all_keeps}

abbrev pub count : ℤ → List ℤ → ℕ
count x [] = 0
count x (y ∷ ys) = (if y ==ℤ x then 1 else 0) + count x ys

module _ (x : ℤ) where
  count-append : (xs ys : List ℤ) → count x (xs ++ ys) ≡ count x xs + count x ys
  count-append [] ys = omega arith
  count-append (z ∷ xs) ys = omega (arith, count-append xs ys)

  count_first : List (ℤ × ℕ) → ℕ
  count_first [] = 0
  count_first ((s, i) ∷ rest) = (if s ==ℤ x then 1 else 0) + count_first rest

  admit_all-count :
      (seats : List (ℤ × ℕ)) (a : Actor)
      → count x (admit_all seats a).1 + count x (admit_all seats a).2 ≡ count_first seats
  unfolding admit_all count_first
  admit_all-count [] a = omega arith
  admit_all-count ((s, i) ∷ rest) a = elim (Bool-cases (try_admit i a).1) [
    | inl e ↦ rw e (omega (arith, admit_all-count rest (try_admit i a).0))
    | inr e ↦ rw e (omega (arith, admit_all-count rest (try_admit i a).0))
  ]

  acquire_all-count :
      (R : Redis) (e : ℕ → Env) (n : ℕ) (u h : ℤ) (ss : List ℤ) (c : Cluster R)
      → let r = (acquire_all R e n u h ss c).1 in
        count x r.locked_seat_ids + count x r.failed_seat_ids ≡ count x ss
  unfolding acquire_all
  acquire_all-count R e n u h [] c = omega arith
  acquire_all-count R e n u h (s ∷ ss) c =
      let q : Request = record { showtime_id = h; seat_id = s; user_id = u } in
      let call = acquire_distributed_lock R (e n) q (pos 300) c in
      let rest = acquire_all-count R e (suc n) u h ss call.0 in
      elim (Bool-cases call.1) [
        | inl w ↦ rw w (omega (arith, rest))
        | inr w ↦ rw w (omega (arith, rest))
      ]

  collect-count :
      (s : ℤ) (here : Result ℕ) (a : Actor) (rest : Actor × Result (List (ℤ × ℕ))) (n : ℕ)
      (seats : List (ℤ × ℕ))
      → ((tail : List (ℤ × ℕ)) → rest.1 ≡ ok tail → count_first tail ≡ n)
      → (collect s here a rest).1 ≡ ok seats
      → count_first seats ≡ (if s ==ℤ x then 1 else 0) + n
  unfolding collect count_first
  collect-count s (err e) a rest n seats k h = absurd (cc h)
  collect-count s (ok i) a (a', err e) n seats k h = absurd (cc h)
  collect-count s (ok i) a (a', ok tail) n seats k h =
      let e : (s, i) ∷ tail ≡ seats = cc h in omega (arith, ap count_first e, k tail refl)

  register_all-count :
      (ss xs : List ℤ) (a : Actor) (seats : List (ℤ × ℕ))
      → length ss ≡ length xs
      → (register_all ss xs a).1 ≡ ok seats
      → count_first seats ≡ count x ss
  unfolding register_all collect count_first
  register_all-count [] xs a seats n h = let e : seats ≡ [] = cc in omega (arith, ap count_first e)
  register_all-count (s ∷ ss) [] a seats n h = absurd (ground (arith, n))
  register_all-count (s ∷ ss) (y ∷ xs) a seats n h =
      collect-count s (register_seat s y a).1 (register_seat s y a).0
        (register_all ss xs (register_seat s y a).0) (count x ss) seats
        (λ rest. register_all-count ss xs (register_seat s y a).0 rest (omega (arith, n))) h

  module _ (R : Redis) (m : Meets) (u h : ℤ) where
    handle-count :
        (ss : List ℤ) (a : Actor) (c : Cluster R)
        → let r = or_all_failed ss (handle R m u h ss a c).2 in
          count x r.locked_seat_ids + count x r.failed_seat_ids ≡ count x ss
    unfolding handle
    handle-count ss a c = elim (Option-cases m.panics_after) [
      | inl e ↦ rw e (acquire_all-count R m.acquisition 0 u h ss c)
      | inr (n, e) ↦ rw e (omega arith)
    ]

    dispatch-count :
        (ss failed : List ℤ) (a : Actor) (c : Cluster R)
        → let r = (dispatch R m u h ss failed a c).2 in
          count x r.locked_seat_ids + count x r.failed_seat_ids ≡ count x ss + count x failed
    unfolding dispatch handle
    dispatch-count ss failed a c =
        let r = or_all_failed ss (handle R m u h ss a c).2 in
        elim (Bool-cases m.queue_full) [
          | inl e ↦ rw e (omega (arith, count-append failed ss))
          | inr e ↦ rw e (omega (arith, count-append r.failed_seat_ids failed, handle-count ss a c))
        ]

    lock_admitted-count :
        (a : Actor) (ins outs : List ℤ) (c : Cluster R)
        → let r = (lock_admitted R m u h (a, ins, outs) c).2 in
          count x r.locked_seat_ids + count x r.failed_seat_ids ≡ count x ins + count x outs
    unfolding lock_admitted
    lock_admitted-count a [] outs c = omega arith
    lock_admitted-count a (s ∷ ss) outs c = dispatch-count (s ∷ ss) outs a c

module _ (n : ℕ) where
  abbrev Flight : Actor → Type 0
  Flight a = a.in_flight ≡ n

  claim_slot-Flight : (s : ℤ) (i : ℕ) (a : Actor) → Flight a → Flight (claim_slot s i a).0
  unfolding claim_slot
  claim_slot-Flight s i a h = ground (arith, h)

  map_seat-Flight :
      (s : ℤ) (i : ℕ) (o : Option ℕ) (a : Actor) → Flight a → Flight (map_seat s i o a).0
  unfolding map_seat
  map_seat-Flight s i none a h = claim_slot-Flight s i (set_index a s (some i)) h
  map_seat-Flight s i (some j) a h = elim (Bool-cases (j == i)) [
    | inl e ↦ rw e (claim_slot-Flight s i a h)
    | inr e ↦ rw e h
  ]

  register_at-Flight : (s : ℤ) (o : Option ℕ) (a : Actor) → Flight a → Flight (register_at s o a).0
  unfolding register_at
  register_at-Flight s none a h = h
  register_at-Flight s (some i) a h = map_seat-Flight s i (a.seat_indices s) a h

  register_seat-Flight : (s x : ℤ) (a : Actor) → Flight a → Flight (register_seat s x a).0
  unfolding register_seat
  register_seat-Flight s x a h = elim (Bool-cases (is_positive s)) [
    | inl e ↦ rw e (register_at-Flight s (slot_index x a.seat_count) a h)
    | inr e ↦ rw e h
  ]

  try_admit-Flight : (i : ℕ) (a : Actor) → Flight a → Flight (try_admit i a).0
  unfolding try_admit
  try_admit-Flight i a h = ground (arith, h)

  clear_seat-Flight : (s : ℤ) (a : Actor) → Flight a → Flight (clear_seat s a)
  unfolding clear_seat
  clear_seat-Flight s a h = elim (Option-cases (a.seat_indices s)) [
    | inl e ↦ rw e h
    | inr (i, e) ↦ rw e h
  ]

module _ (R : Redis) (m : Meets) (u h : ℤ) (ss xs : List ℤ) (a : Actor) (c : Cluster R) where
  lock_registered-count :
      (x : ℤ) (b : Actor) (seats : Result (List (ℤ × ℕ))) (n : ℕ) (r : LockResult)
      → ((rest : List (ℤ × ℕ)) → seats ≡ ok rest → count_first x rest ≡ n)
      → (lock_registered R m u h b seats c).2 ≡ ok r
      → count x r.locked_seat_ids + count x r.failed_seat_ids ≡ n
  unfolding lock_registered
  lock_registered-count x b (err e) n r k done = absurd (cc done)
  lock_registered-count x b (ok seats) n r k done =
      let got = (lock_admitted R m u h (admit_all seats b) c).2 in
      let same : got ≡ r = cc done in
      let total =
        lock_admitted-count x R m u h (admit_all seats b).0 (admit_all seats b).1
          (admit_all seats b).2 c in
      omega (
        arith,
        ap (λ q. count x q.locked_seat_ids) same,
        ap (λ q. count x q.failed_seat_ids) same,
        total,
        admit_all-count x seats b,
        k seats refl,
      )

  lock_begun-count :
      (x : ℤ) (b : Actor) (lease : Result (Unit {0})) (r : LockResult)
      → length ss ≡ length xs
      → (lock_begun R m u h ss xs b lease c).2 ≡ ok r
      → count x r.locked_seat_ids + count x r.failed_seat_ids ≡ count x ss
  unfolding lock_begun
  lock_begun-count x b (err e) r n done = absurd (cc done)
  lock_begun-count x b (ok t) r n done =
      lock_registered-count x (register_all ss xs b).0 (register_all ss xs b).1 (count x ss) r
        (λ rest k. register_all-count x ss xs b rest n k) done

  -- A request that gets an answer gets one for every seat that it named: each seat id stands as often
  -- among the locked and the failed ones together as among those asked for, whether the queue of the
  -- actor was full, its task panicked or the acquisitions failed.
  pub lock_complete :
      (r : LockResult) (x : ℤ)
      → (lock R m u h ss xs a c).2 ≡ ok r
      → count x r.locked_seat_ids + count x r.failed_seat_ids ≡ count x ss
  unfolding lock
  lock_complete r x done = elim (Bool-cases (length ss == length xs)) [
    | inl e ↦
        lock_begun-count x (begin_request m.begun_at a).0 (begin_request m.begun_at a).1 r
          (ground (arith, e)) (rw e at done)
    | inr e ↦ absurd (cc (rw e at done))
  ]

  lock_begun-in_flight :
      (b : Actor) (lease : Result (Unit {0})) (n : ℕ)
      → ((e : Error) → lease ≡ err e → b.in_flight ≡ n)
      → ((t : Unit {0}) → lease ≡ ok t → b.in_flight ≡ suc n)
      → (lock_begun R m u h ss xs b lease c).0.in_flight ≡ n
  unfolding lock_begun drop_lease
  lock_begun-in_flight b (err e) n k l = k e refl
  lock_begun-in_flight b (ok t) n k l =
      let q =
        register_all_keeps (Flight (suc n)) (register_seat-Flight (suc n))
          (try_admit-Flight (suc n)) (clear_seat-Flight (suc n)) ss xs b (l t refl) in
      let p =
        lock_registered_keeps (Flight (suc n)) (register_seat-Flight (suc n))
          (try_admit-Flight (suc n)) (clear_seat-Flight (suc n)) R m u h (register_all ss xs b).0
          (register_all ss xs b).1 c q in
      omega (arith, p)

  -- A request leaves no lease behind: on every branch, errors included, the actor counts as many
  -- requests in flight after it as before it.
  pub lock_leases : (lock R m u h ss xs a c).0.in_flight ≡ a.in_flight
  unfolding lock begin_request
  lock_leases = elim (Bool-cases (length ss == length xs)) [
    | inl e ↦ rw e (
        lock_begun-in_flight (begin_request m.begun_at a).0 (begin_request m.begun_at a).1
          a.in_flight (λ x k. ground (arith, k)) (λ x k. ground (arith, k)))
    | inr e ↦ rw e refl
  ]
