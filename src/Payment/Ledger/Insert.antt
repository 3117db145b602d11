-- ===== src/Payment/Ledger/Insert.antt =====
-- The tables after the transaction of `request_payment`.
use bookit.Common.{
  ℕ, ◌≡◌, inl, inr, Bool, true, false, some, ◌∷◌, subst, arith, Bool-cases, All-map,
}
use bookit.Payment.Tables.{PaymentRow, Database, count_where, find_where, is_found}
use bookit.Payment.Commit.{has_row_id}
use bookit.Payment.Request.{of_key, existing_row, insert_request, request_event}
use bookit.Payment.Counts.{count_where-find_where}
use bookit.Payment.Ledger.{IsPaid, IsLedger}
use bookit.Payment.Ledger.Rows.{fresh_le, fresh_key_le}

abbrev pub inserted_row : ℕ → PaymentRow → Database → Database
inserted_row amount r db = record db {
  payment_requests = r ∷ db.payment_requests;
  outbox_events = request_event amount r ∷ db.outbox_events;
}

inserted_row-IsLedger :
    (amount : ℕ) (r : PaymentRow) (db : Database)
    → is_found (existing_row db r.user_id r.idempotency_key) ≡ false
    → is_found (find_where (has_row_id r.id) db.payment_requests) ≡ false
    → IsLedger db
    → IsLedger (inserted_row amount r db)
unfolding count_where
inserted_row-IsLedger amount r db new_key new_id h =
    let no_key =
      count_where-find_where (of_key r.user_id r.idempotency_key) db.payment_requests new_key in
    let no_id = count_where-find_where (has_row_id r.id) db.payment_requests new_id in
    record {
      one_order = h.one_order;
      one_per_request = h.one_per_request;
      one_row = λ q.
          fresh_le (λ j. count_where (has_row_id j) db.payment_requests) r.id q no_id (h.one_row q);
      one_per_key = λ u k. fresh_key_le r u k db.payment_requests no_key (h.one_per_key u k);
      requested = λ q. ground (arith, h.requested q);
      completed = λ i. ground (arith, h.completed i);
      audited = h.audited;
      cancelled = λ i. ground (arith, h.cancelled i);
      paid = All-map (IsPaid db.payment_requests) _ db.orders (λ o k. ground (arith, k)) h.paid;
    }

pub insert_request-IsLedger :
    (accepts inserted : Bool) (amount : ℕ) (r : PaymentRow) (db db' : Database)
    → insert_request accepts amount r db ≡ some (db', inserted)
    → IsLedger db
    → IsLedger db'
unfolding insert_request
insert_request-IsLedger false inserted amount r db db' e h = absurd (cc e)
insert_request-IsLedger true inserted amount r db db' e h =
    elim (Bool-cases (is_found (existing_row db r.user_id r.idempotency_key))) [
      | inl k ↦ subst IsLedger (cc (rw k at e)) h
      | inr k ↦ elim (Bool-cases (is_found (find_where (has_row_id r.id) db.payment_requests))) [
        | inl k' ↦ absurd (cc (rw k' at (rw k at e)))
        | inr k' ↦
            subst IsLedger (cc (rw k' at (rw k at e))) (inserted_row-IsLedger amount r db k k' h)
      ]
    ]
