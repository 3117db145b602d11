-- ===== src/Payment/Ledger/Checkout.antt =====
-- The tables after a checkout and after a payment that failed.
use bookit.Common.{
  ℕ, ◌≡◌, refl, sym, ◌∙◌, inl, inr, Bool, true, false, some, subst, arith, Bool-cases, All-map,
}
use bookit.Payment.Tables.{PaymentRow, Database, update_where, count_where, find_where, is_found}
use bookit.Payment.Commit.{
  CheckoutCommit, has_request, has_order_id, has_row_id, checked_out, allows_order, commit_checkout,
  succeed,
}
use bookit.Payment.Request.{of_key}
use bookit.Payment.Processor.{open_row, fail_row, fail_payment}
use bookit.Payment.Counts.{count_where-find_where, count_where-update_where}
use bookit.Payment.Ledger.{IsPaid, IsLedger}
use bookit.Payment.Ledger.Rows.{fresh_le, fail_payment-IsPaid, succeed-IsPaid, succeed-new}

pub fail_payment-IsLedger : (p : ℕ) (db : Database) → IsLedger db → IsLedger (fail_payment p db)
unfolding fail_payment
fail_payment-IsLedger p db h = record {
  one_order = h.one_order;
  one_per_request = h.one_per_request;
  one_row = λ q.
      rw
        (count_where-update_where (has_row_id q) (open_row p) fail_row db.payment_requests
          (λ r k. refl))
        (h.one_row q);
  one_per_key = λ u k.
      rw
        (count_where-update_where (of_key u k) (open_row p) fail_row db.payment_requests
          (λ r k'. refl))
        (h.one_per_key u k);
  requested = λ q.
      h.requested q
      ∙ sym (
          count_where-update_where (has_row_id q) (open_row p) fail_row db.payment_requests
            (λ r k. refl));
  completed = h.completed;
  audited = h.audited;
  cancelled = h.cancelled;
  paid =
      All-map (IsPaid db.payment_requests) _ db.orders (fail_payment-IsPaid p db.payment_requests)
        h.paid;
}

checked_out-IsLedger :
    (db : Database) (c : CheckoutCommit)
    → allows_order db c ≡ true
    → IsLedger db
    → IsLedger (checked_out db c)
unfolding checked_out allows_order count_where
checked_out-IsLedger db c a h =
    let (new_id, (new_request, row)) : (is_found (find_where (has_order_id c.order_id) db.orders)
          ≡ false)
        × ((is_found (find_where (has_request c.payment_request_id) db.orders) ≡ false)
            × (is_found (find_where (has_row_id c.payment_request_id) db.payment_requests)
                ≡ true)) =
      ground (arith, a) in
    let no_id = count_where-find_where (has_order_id c.order_id) db.orders new_id in
    let no_request =
      count_where-find_where (has_request c.payment_request_id) db.orders new_request in
    let rows : (q : PaymentRow → Bool)
        → ((r : PaymentRow) → q (succeed r) ≡ q r)
        → count_where q (update_where (has_row_id c.payment_request_id) succeed db.payment_requests)
          ≡ count_where q db.payment_requests =
      λ q k. count_where-update_where q _ succeed db.payment_requests (λ r k'. k r) in
    record {
      one_order = λ i.
          fresh_le (λ j. count_where (has_order_id j) db.orders) c.order_id i no_id (h.one_order i);
      one_per_request = λ i.
          fresh_le (λ j. count_where (has_request j) db.orders) c.payment_request_id i no_request
            (h.one_per_request i);
      one_row = λ q. rw (rows (has_row_id q) (λ r. refl)) (h.one_row q);
      one_per_key = λ u k. rw (rows (of_key u k) (λ r. refl)) (h.one_per_key u k);
      requested = λ q. ground (arith, h.requested q, rows (has_row_id q) (λ r. refl));
      completed = λ i. ground (arith, h.completed i);
      audited = λ i. ground (arith, h.audited i);
      cancelled = λ i. ground (arith, h.cancelled i);
      paid = (
        succeed-new c.payment_request_id db.payment_requests row,
        All-map (IsPaid db.payment_requests) _ db.orders
            (succeed-IsPaid c.payment_request_id db.payment_requests) h.paid,
      );
    }

pub commit_checkout-IsLedger :
    (accepts : Bool) (db db' : Database) (c : CheckoutCommit)
    → commit_checkout accepts db c ≡ some db'
    → IsLedger db
    → IsLedger db'
unfolding commit_checkout
commit_checkout-IsLedger false db db' c e h = absurd (cc e)
commit_checkout-IsLedger true db db' c e h = elim (Bool-cases (allows_order db c)) [
  | inl k ↦ subst IsLedger (cc (rw k at e)) (checked_out-IsLedger db c k h)
  | inr k ↦ absurd (cc (rw k at e))
]
