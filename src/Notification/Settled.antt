-- ===== src/Notification/Settled.antt =====
-- Orders that the worker has nothing more to send for, and that they stay so.
use bookit.Common.{
  ℕ, ◌≡◌, refl, subst, inl, inr, ◌⊎◌, Bool, true, false, some, List, [], ◌∷◌, ◌==◌, Bool-cases,
}
use bookit.Payment.Tables.{Ticket, PaymentRow, update_where, Database, find_where, is_found}
use bookit.Payment.Commit.{
  CheckoutCommit, CancellationCommit, ticket_of, cancel_ticket, has_row_id, commit_checkout,
  checked_out, allows_order, commit_cancellation, cancelled_order,
}
use bookit.Payment.Request.{insert_request, existing_row}
use bookit.Payment.Orders.{enqueue_cancellation}
use bookit.Payment.Ledger.{
  Step, inserts, fails, checks_out, enqueues, cancels, Steps, done, follows,
}
use bookit.Payment.Ledger.Insert.{inserted_row}
use bookit.Payment.Processor.{fail_payment}
use bookit.Notification.Worker.{emailed, is_inactive}

-- A booking whose mail is recorded, or whose ticket is no longer active.
abbrev pub Settled : ℕ → Database → Type 0
Settled i db =
    (is_found (find_where (emailed i) db.user_audits) ≡ true)
    ⊎ (is_inactive (find_where (ticket_of i) db.tickets) ≡ true)

found-cons :
    {A : Type 0} (p : A → Bool) (x : A) (xs : List A)
    → is_found (find_where p xs) ≡ true
    → is_found (find_where p (x ∷ xs)) ≡ true
unfolding find_where
found-cons p x xs h = elim (Bool-cases (p x)) [ inl e ↦ rw e refl | inr e ↦ rw e h ]

inactive-cancel_ticket :
    (i j : ℕ) (ts : List Ticket)
    → is_inactive (find_where (ticket_of i) ts) ≡ true
    → is_inactive (find_where (ticket_of i) (update_where (ticket_of j) cancel_ticket ts)) ≡ true
unfolding find_where update_where
inactive-cancel_ticket i j [] h = absurd (cc h)
inactive-cancel_ticket i j (t ∷ ts) h = elim (Bool-cases (t.order_id == j)) [
  | inl e ↦ elim (Bool-cases (t.order_id == i)) [
    | inl k ↦ rw e (rw k refl)
    | inr k ↦ rw e (rw k (inactive-cancel_ticket i j ts (rw k at h)))
  ]
  | inr e ↦ elim (Bool-cases (t.order_id == i)) [
    | inl k ↦ rw e (rw k (rw k at h))
    | inr k ↦ rw e (rw k (inactive-cancel_ticket i j ts (rw k at h)))
  ]
]

-- What only prepends to the audit and leaves the tickets alone.
Settled-cancelled_order :
    (i : ℕ) (db : Database) (c : CancellationCommit)
    → Settled i db
    → Settled i (cancelled_order db c)
unfolding cancelled_order
Settled-cancelled_order i db c (inl h) = inl (found-cons (emailed i) _ db.user_audits h)
Settled-cancelled_order i db c (inr h) = inr (inactive-cancel_ticket i c.order_id db.tickets h)

Settled-checked_out :
    (i : ℕ) (db : Database) (c : CheckoutCommit) → Settled i db → Settled i (checked_out db c)
unfolding checked_out
Settled-checked_out i db c (inl h) = inl (found-cons (emailed i) _ db.user_audits h)
Settled-checked_out i db c (inr h) = inr h

Settled-commit_checkout :
    (accepts : Bool) (i : ℕ) (db db' : Database) (c : CheckoutCommit)
    → commit_checkout accepts db c ≡ some db'
    → Settled i db
    → Settled i db'
unfolding commit_checkout
Settled-commit_checkout false i db db' c e h = absurd (cc e)
Settled-commit_checkout true i db db' c e h = elim (Bool-cases (allows_order db c)) [
  | inl k ↦
      let same : checked_out db c ≡ db' = cc (rw k at e) in
      subst (Settled i) same (Settled-checked_out i db c h)
  | inr k ↦ absurd (cc (rw k at e))
]

Settled-insert_request :
    (accepts inserted : Bool) (amount i : ℕ) (r : PaymentRow) (db db' : Database)
    → insert_request accepts amount r db ≡ some (db', inserted)
    → Settled i db
    → Settled i db'
unfolding insert_request
Settled-insert_request false inserted amount i r db db' e h = absurd (cc e)
Settled-insert_request true inserted amount i r db db' e h =
    elim (Bool-cases (is_found (existing_row db r.user_id r.idempotency_key))) [
      | inl k ↦ let same : db ≡ db' = cc (rw k at e) in subst (Settled i) same h
      | inr k ↦ elim (Bool-cases (is_found (find_where (has_row_id r.id) db.payment_requests))) [
        | inl k' ↦ absurd (cc (rw k' at (rw k at e)))
        | inr k' ↦
            let same : inserted_row amount r db ≡ db' = cc (rw k' at (rw k at e)) in
            subst (Settled i) same (kept h)
      ]
    ]
  where
    kept : Settled i db → Settled i (inserted_row amount r db)
    kept (inl x) = inl x
    kept (inr x) = inr x

Settled-Step : (i : ℕ) (db db' : Database) → Step db db' → Settled i db → Settled i db'
unfolding fail_payment enqueue_cancellation commit_cancellation
Settled-Step i _ _ (inserts accepts inserted amount r db db' e) h =
    Settled-insert_request accepts inserted amount i r db db' e h
Settled-Step i _ _ (fails p db) (inl h) = inl h
Settled-Step i _ _ (fails p db) (inr h) = inr h
Settled-Step i _ _ (checks_out accepts c db db' e) h =
    Settled-commit_checkout accepts i db db' c e h
Settled-Step i _ _ (enqueues user_id o db) (inl h) = inl h
Settled-Step i _ _ (enqueues user_id o db) (inr h) = inr h
Settled-Step i _ _ (cancels true c db db' e) h =
    let same : cancelled_order db c ≡ db' = cc e in
    subst (Settled i) same (Settled-cancelled_order i db c h)
Settled-Step i _ _ (cancels false c db db' e) h = absurd (cc e)

pub Settled-Steps : (i : ℕ) (db db' : Database) → Steps db db' → Settled i db → Settled i db'
Settled-Steps i _ _ (done db) h = h
Settled-Steps i _ _ (follows db db' db'' s rest) h =
    Settled-Steps i db' db'' rest (Settled-Step i db db' s h)
