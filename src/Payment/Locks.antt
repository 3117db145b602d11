-- ===== src/Payment/Locks.antt =====
-- The test of the seat locks before a checkout is committed.
use bookit.Common.{
  ℕ, suc, ◌≡◌, refl, inl, inr, ap, ◌≢◌, Bool, true, false, ◌⊎◌, Option, none, some, List, [], ◌∷◌,
  ℤ, ◌==ℤ◌, ==ℤ_iff, if◌then◌else◌, Bool-cases, Option-cases, All, ◌∙◌,
}
use bookit.Redis.Interface.{Redis}
use bookit.SeatLock.Cluster.{Env, Cluster}
use bookit.SeatLock.Single.{get_lock_owner, user_holds_lock}
use bookit.SeatLock.Every.{Every}
use bookit.SeatLock.NoContext.{NoContext}
use bookit.Payment.Intent.{as_i32, parse_seat_ids}
use bookit.Payment.Commit.{order_exists}
use bookit.Payment.Processor.{
  LockFailure, context_not_found, test_keys, Payload, Surroundings, World, request_of, lock_failure,
  after_locks, fail_payment, checkout_seats, checkout, cancellation, process_message, or_zero,
  or_else,
}

test_keys-none :
    (a user_id : ℤ) (owner : Option ℤ) (ctx_ok : Bool) (later : Option LockFailure)
    → test_keys a user_id owner ctx_ok later ≡ none
    → (owner ≡ some user_id) × ((ctx_ok ≡ true) × (later ≡ none))
test_keys-none a user_id none ctx_ok later h = absurd (cc h)
test_keys-none a user_id (some owner) ctx_ok later h = elim (Bool-cases (owner ==ℤ user_id)) [
  | inr k ↦ absurd (cc (rw k at h))
  | inl k ↦ (ap some ((==ℤ_iff owner user_id).0 k), passed ctx_ok (rw k at h))
]
  where
    passed :
        (b : Bool)
        → (if b then later else some (context_not_found a)) ≡ none
        → (b ≡ true) × (later ≡ none)
    passed true e = (refl, e)
    passed false e = absurd (cc e)

module _ (R : Redis) where
  -- Both keys of a seat were found, with the user as the owner, by one of the calls each.
  abbrev pub BothKeys : (ℕ → Env) → Cluster R → ℤ → ℤ → ℤ → Type 0
  BothKeys env c schedule user_id a =
      ((n : ℕ) × (get_lock_owner R (env n) (request_of R schedule user_id a) c ≡ some user_id))
      × ((n : ℕ) × (user_holds_lock R (env n) (request_of R schedule user_id a) c ≡ true))

  lock_failure-BothKeys :
      (env : ℕ → Env) (c : Cluster R) (n : ℕ) (schedule user_id : ℤ) (seats : List ℤ)
      → lock_failure R env c n schedule user_id seats ≡ none
      → All (BothKeys env c schedule user_id) seats
  unfolding lock_failure
  lock_failure-BothKeys env c n schedule user_id [] h = tt
  lock_failure-BothKeys env c n schedule user_id (a ∷ rest) h =
      let (owner, (ctx, later)) = test_keys-none a user_id _ _ _ h in
      (
        ((n, owner), (suc n, ctx)),
        lock_failure-BothKeys env c (suc (suc n)) schedule user_id rest later,
      )

  after_checkout-orders :
      (l : Surroundings) (schedule user_id : ℤ) (seats : List ℤ) (w : World R)
      (reason : LockFailure) (id : ℕ) (p : Payload)
      → (after_locks R l p schedule user_id seats id (some reason) w).0.database.orders
        ≡ w.database.orders
  unfolding after_locks fail_payment
  after_checkout-orders l schedule user_id seats w reason id p = elim (Bool-cases l.updates) [
    | inl e ↦ rw e refl
    | inr e ↦ rw e refl
  ]

  checkout_seats-orders :
      (l : Surroundings) (p : Payload) (schedule user_id : ℤ) (seats : List ℤ) (id : ℕ)
      (w : World R)
      → ((checkout_seats R l p schedule user_id seats id w).0.database.orders ≡ w.database.orders)
        ⊎ ((seats ≢ []) × All (BothKeys l.lock_env w.cluster schedule user_id) seats)
  unfolding checkout_seats
  checkout_seats-orders l p schedule user_id [] id w = inl refl
  checkout_seats-orders l p schedule user_id (a ∷ rest) id w =
      elim (Option-cases (lock_failure R l.lock_env w.cluster 0 schedule user_id (a ∷ rest))) [
        | inl e ↦ inr (
          (λ z. absurd (cc z)),
          lock_failure-BothKeys l.lock_env w.cluster 0 schedule user_id (a ∷ rest) e,
        )
        | inr (reason, e) ↦
            inl (rw e (after_checkout-orders l schedule user_id (a ∷ rest) w reason id p))
      ]

  abbrev pub schedule_of : Payload → ℤ
  schedule_of p = as_i32 (or_zero (or_else p.schedule_id p.showtime_id))

  abbrev pub user_of : Payload → ℤ
  user_of p = as_i32 (or_zero p.user_id)

  -- All that a checkout asks of the seat lock.
  abbrev pub Locked : Surroundings → Payload → World R → Type 0
  Locked l p w =
      (parse_seat_ids p.seats ≢ [])
      × All (BothKeys l.lock_env w.cluster (schedule_of p) (user_of p)) (parse_seat_ids p.seats)

  checkout-orders :
      (l : Surroundings) (p : Payload) (id : Option ℕ) (w : World R)
      → ((checkout R l p id w).0.database.orders ≡ w.database.orders) ⊎ Locked l p w
  unfolding checkout
  checkout-orders l p none w = inl refl
  checkout-orders l p (some id) w = elim (Bool-cases (order_exists l.answers w.database id)) [
    | inl e ↦ inl (rw e refl)
    | inr e ↦ rw e (checkout_seats-orders l p _ _ (parse_seat_ids p.seats) id w)
  ]

  pub process_message-checkout :
      (l : Surroundings) (p : Payload) (w : World R)
      → p.is_cancellation ≡ false
      → process_message R l (some p) w ≡ checkout R l p p.payment_request_id w
  unfolding process_message
  process_message-checkout l p w a =
      ap (λ b. if b then cancellation R l p p.order_id w else checkout R l p p.payment_request_id w)
        a

  -- A message that is no cancellation changes the orders only if it names at least one seat and, for
  -- each of its seats, the lock was found with the message's user as its owner and the user's context
  -- key was found.
  pub process_message-Locked :
      (l : Surroundings) (p : Payload) (w : World R)
      → p.is_cancellation ≡ false
      → (process_message R l (some p) w).0.database.orders ≢ w.database.orders
      → Locked l p w
  process_message-Locked l p w a h = elim (checkout-orders l p p.payment_request_id w) [
    | inl same ↦
        absurd (h (ap (λ x. x.0.database.orders) (process_message-checkout l p w a) ∙ same))
    | inr held ↦ held
  ]
