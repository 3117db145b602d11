-- ===== src/Payment/Redelivery.antt =====
-- A message that the payment processor gets again, and a request for a payment that is sent again.
use bookit.Common.{
  ℕ, ◌≤◌, ◌≡◌, ◌≢◌, refl, sym, ap, ◌∙◌, subst, inl, inr, Bool, true, false, Option, none, some,
  List, [], ◌∷◌, ℤ, Bool-cases, All, arith,
}
use bookit.Redis.Interface.{Redis}
use bookit.Payment.Tables.{
  Seat, available, Database, update_where, find_where, is_found, PaymentRow, count_where, among,
}
use bookit.Payment.Intent.{parse_seat_ids}
use bookit.Payment.Commit.{
  CheckoutCommit, CancellationCommit, has_request, order_exists, commit_checkout, checked_out,
  refund_order, has_row_id, allows_order, commit_cancellation, cancelled_order, free_seat,
}
use bookit.Payment.Request.{insert_request, existing_row}
use bookit.Payment.Orders.{open_order, enqueue_cancellation, set_cancelling}
use bookit.Payment.Counts.{
  count_where-find_where, count_where-find_where_some, count_where-update_where_ge,
}
use bookit.Payment.Ledger.{
  Step, inserts, fails, checks_out, enqueues, cancels, Steps, done, follows,
}
use bookit.Payment.Ledger.Insert.{inserted_row}
use bookit.Payment.Ledger.Rows.{&&-true}
use bookit.Payment.Locks.{process_message-checkout}
use bookit.Payment.Processor.{
  Payload, Surroundings, LockFailure, World, ack, process_message, checkout, checkout_seats,
  after_locks, after_checkout, lock_failure, fail_payment, commit_of,
}

count_where-find_where_iff :
    {A : Type 0} (p : A → Bool) (xs : List A)
    → 1 ≤ count_where p xs
    → is_found (find_where p xs) ≡ true
count_where-find_where_iff p xs h = elim (Bool-cases (is_found (find_where p xs))) [
  | inl e ↦ e
  | inr e ↦ absurd (omega (arith, h, count_where-find_where p xs e))
]

abbrev ordered : ℕ → Database → ℕ
ordered id db = count_where (has_request id) db.orders

ordered-checked_out :
    (db : Database) (c : CheckoutCommit) (id : ℕ) → ordered id db ≤ ordered id (checked_out db c)
unfolding checked_out count_where
ordered-checked_out db c id = omega arith

checked_out-ordered :
    (db : Database) (c : CheckoutCommit) → 1 ≤ ordered c.payment_request_id (checked_out db c)
unfolding checked_out count_where
checked_out-ordered db c = ground arith

commit_checkout-ordered :
    (accepts : Bool) (db db' : Database) (c : CheckoutCommit) (id : ℕ)
    → commit_checkout accepts db c ≡ some db'
    → (ordered id db ≤ ordered id db') × (1 ≤ ordered c.payment_request_id db')
unfolding commit_checkout
commit_checkout-ordered false db db' c id e = absurd (cc e)
commit_checkout-ordered true db db' c id e = elim (Bool-cases (allows_order db c)) [
  | inl k ↦
      let same : checked_out db c ≡ db' = cc (rw k at e) in
      subst (λ d. (ordered id db ≤ ordered id d) × (1 ≤ ordered c.payment_request_id d)) same
        (ordered-checked_out db c id, checked_out-ordered db c)
  | inr k ↦ absurd (cc (rw k at e))
]

insert_request-orders :
    (accepts inserted : Bool) (amount : ℕ) (r : PaymentRow) (db db' : Database)
    → insert_request accepts amount r db ≡ some (db', inserted)
    → db'.orders ≡ db.orders
unfolding insert_request
insert_request-orders false inserted amount r db db' e = absurd (cc e)
insert_request-orders true inserted amount r db db' e =
    elim (Bool-cases (is_found (existing_row db r.user_id r.idempotency_key))) [
      | inl k ↦ let same : db ≡ db' = cc (rw k at e) in ap (λ d. d.orders) (sym same)
      | inr k ↦ elim (Bool-cases (is_found (find_where (has_row_id r.id) db.payment_requests))) [
        | inl k' ↦ absurd (cc (rw k' at (rw k at e)))
        | inr k' ↦
            let same : inserted_row amount r db ≡ db' = cc (rw k' at (rw k at e)) in
            ap (λ d. d.orders) (sym same)
      ]
    ]

Step-ordered : (db db' : Database) (id : ℕ) → Step db db' → ordered id db ≤ ordered id db'
unfolding fail_payment enqueue_cancellation commit_cancellation cancelled_order
Step-ordered _ _ id (inserts accepts inserted amount r db db' e) =
    rw (insert_request-orders accepts inserted amount r db db' e) (omega arith)
Step-ordered _ _ id (fails p db) = omega arith
Step-ordered _ _ id (checks_out accepts c db db' e) =
    (commit_checkout-ordered accepts db db' c id e).0
Step-ordered _ _ id (enqueues user_id o db) =
    count_where-update_where_ge (has_request id) _ set_cancelling db.orders (λ x. omega arith)
Step-ordered _ _ id (cancels true c db db' e) =
    let same : cancelled_order db c ≡ db' = cc e in
    subst (λ d. ordered id db ≤ ordered id d) same
      (count_where-update_where_ge (has_request id) _ refund_order db.orders (λ x. omega arith))
Step-ordered _ _ id (cancels false c db db' e) = absurd (cc e)

Steps-ordered : (db db' : Database) (id : ℕ) → Steps db db' → ordered id db ≤ ordered id db'
Steps-ordered _ _ id (done db) = omega arith
Steps-ordered _ _ id (follows db db' db'' s rest) =
    omega (arith, Step-ordered db db' id s, Steps-ordered db' db'' id rest)

module _ (R : Redis) where
  after_checkout-ordered :
      (l : Surroundings) (schedule user_id : ℤ) (seats : List ℤ) (c : CheckoutCommit) (w : World R)
      (result : Option Database)
      → commit_checkout l.accepts w.database c ≡ result
      → (after_checkout R l schedule user_id seats result w).1 ≡ ack
      → 1
        ≤ ordered c.payment_request_id
            (after_checkout R l schedule user_id seats result w).0.database
  unfolding after_checkout
  after_checkout-ordered l schedule user_id seats c w none e h = absurd (cc h)
  after_checkout-ordered l schedule user_id seats c w (some db) e h =
      (commit_checkout-ordered l.accepts w.database db c 0 e).1

  checkout_seats-ordered :
      (l : Surroundings) (p : Payload) (schedule user_id : ℤ) (seats : List ℤ) (id : ℕ)
      (w : World R)
      → (checkout_seats R l p schedule user_id seats id w).1 ≡ ack
      → 1 ≤ ordered id (checkout_seats R l p schedule user_id seats id w).0.database
  unfolding checkout_seats after_checkout after_locks
  checkout_seats-ordered l p schedule user_id [] id w h = absurd (cc h)
  checkout_seats-ordered l p schedule user_id (a ∷ rest) id w h =
      after (lock_failure R l.lock_env w.cluster 0 schedule user_id (a ∷ rest)) h
    where
      after :
          (failure : Option LockFailure)
          → (after_locks R l p schedule user_id (a ∷ rest) id failure w).1 ≡ ack
          → 1 ≤ ordered id (after_locks R l p schedule user_id (a ∷ rest) id failure w).0.database
      after (some reason) h = absurd (cc h)
      after none h =
          after_checkout-ordered l schedule user_id (a ∷ rest)
            (commit_of R l p schedule user_id (a ∷ rest) id) w _ refl h

  checkout-ordered :
      (l : Surroundings) (p : Payload) (id : ℕ) (w : World R)
      → (checkout R l p (some id) w).1 ≡ ack
      → 1 ≤ ordered id (checkout R l p (some id) w).0.database
  unfolding checkout order_exists
  checkout-ordered l p id w = elim (Bool-cases (order_exists l.answers w.database id)) [
    | inl e ↦ rw e (λ h. found e)
    | inr e ↦ rw e (checkout_seats-ordered l p _ _ (parse_seat_ids p.seats) id w)
  ]
    where
      found : order_exists l.answers w.database id ≡ true → 1 ≤ ordered id w.database
      found e =
          count_where-find_where_some (has_request id) w.database.orders (&&-true l.answers _ e).1

  checkout-again :
      (l : Surroundings) (p : Payload) (id : ℕ) (w : World R)
      → l.answers ≡ true
      → 1 ≤ ordered id w.database
      → checkout R l p (some id) w ≡ (w, ack)
  unfolding checkout order_exists
  checkout-again l p id w answers h =
      let there : order_exists l.answers w.database id ≡ true =
        cc (answers, count_where-find_where_iff (has_request id) w.database.orders h) in
      rw there refl

  -- A checkout that was acknowledged is done for good: whatever transactions follow, the same message,
  -- delivered again to a worker whose look for the order is answered, is acknowledged and changes
  -- nothing, in the tables, the locks, the caches or the rooms.
  pub process_message-redelivered :
      (l l' : Surroundings) (p : Payload) (id : ℕ) (w w' : World R)
      → p.is_cancellation ≡ false
      → p.payment_request_id ≡ some id
      → (process_message R l (some p) w).1 ≡ ack
      → Steps (process_message R l (some p) w).0.database w'.database
      → l'.answers ≡ true
      → process_message R l' (some p) w' ≡ (w', ack)
  process_message-redelivered l l' p id w w' a b acked later answers =
      let first = process_message-checkout R l p w a ∙ ap (λ m. checkout R l p m w) b in
      let acked' : (checkout R l p (some id) w).1 ≡ ack = ap (λ x. x.1) (sym first) ∙ acked in
      let later' : Steps (checkout R l p (some id) w).0.database w'.database =
        subst (λ x. Steps x.0.database w'.database) first later in
      let there : 1 ≤ ordered id w'.database =
        omega (arith, checkout-ordered l p id w acked', Steps-ordered _ w'.database id later') in
      process_message-checkout R l' p w' a
      ∙ ap (λ m. checkout R l' p m w') b
      ∙ checkout-again l' p id w' answers there

freed :
    (ids : List ℤ) (seats : List Seat)
    → All
        (λ s. among ids s ≡ true → s.status ≡ available)
        (update_where (among ids) free_seat seats)
unfolding update_where
freed ids [] = tt
freed ids (s ∷ rest) = (
  elim (Bool-cases (among ids s)) [
    | inl e ↦ rw e (λ h. refl)
    | inr e ↦ rw e (λ h. absurd (cc (e, h)))
  ],
  freed ids rest,
)

-- The seats of a cancellation are free, and an order is completed.
abbrev pub Rebooked : CheckoutCommit → CancellationCommit → Database → Type 0
Rebooked c old db =
    All (λ s. among old.seat_ids s ≡ true → s.status ≡ available) db.schedule_seats
    × (1 ≤ count_where (open_order c.order_id) db.orders)

still :
    (db : Database) (c : CheckoutCommit) (old : CancellationCommit)
    → old.order_id ≢ c.order_id
    → Rebooked c old (cancelled_order (checked_out db c) old)
unfolding cancelled_order checked_out update_where count_where
still db c old ne = (freed old.seat_ids _, ground (arith, ne))

-- A cancellation that comes, or comes again, after another order was made frees the seats that it
-- names, also where that order has booked them, and leaves that order as completed as it was.
pub commit_cancellation-Rebooked :
    (db db' db'' : Database) (c : CheckoutCommit) (old : CancellationCommit)
    → commit_checkout true db c ≡ some db'
    → commit_cancellation true db' old ≡ some db''
    → old.order_id ≢ c.order_id
    → Rebooked c old db''
unfolding commit_cancellation commit_checkout
commit_cancellation-Rebooked db db' db'' c old e k ne = elim (Bool-cases (allows_order db c)) [
  | inr x ↦ absurd (cc (rw x at e))
  | inl x ↦
      let same : checked_out db c ≡ db' = cc (rw x at e) in
      let same' : cancelled_order db' old ≡ db'' = cc k in
      subst (Rebooked c old) same'
        (subst (λ d. Rebooked c old (cancelled_order d old)) same (still db c old ne))
]
