-- ===== src/Payment/Ledger/Rows.antt =====
-- Rows that are new, and payment requests that succeed or fail.
use bookit.Common.{
  ◌==ℤ◌, same_text, ℕ, ◌+◌, ◌≤◌, ◌≡◌, refl, ap, inl, inr, Bool, true, false, ◌&&◌, List, ◌∷◌, ◌==◌,
  ==_iff, ℤ, String, same_text_iff, ==ℤ_iff, arith, Bool-cases,
}
use bookit.Payment.Tables.{Order, PaymentRow, update_where, count_where, find_where, is_found}
use bookit.Payment.Commit.{has_row_id, succeed}
use bookit.Payment.Request.{of_key}
use bookit.Payment.Processor.{open_row, fail_row}
use bookit.Payment.Counts.{
  tally, count_where-find_where_some, count_where-update_where, count_where-update_where_ge,
  count_where-update_where_into,
}
use bookit.Payment.Ledger.{paid_row, IsPaid}

-- A row with a fresh key is the only one with it.
pub fresh_le : (count : ℕ → ℕ) (x i : ℕ) → count x ≡ 0 → count i ≤ 1 → tally (x == i) + count i ≤ 1
fresh_le count x i none_there h = elim (Bool-cases (x == i)) [
  | inl e ↦
      let same : count x ≡ count i = ap count ((==_iff x i).0 e) in
      rw e (omega (arith, same, none_there))
  | inr e ↦ rw e (omega (arith, h))
]

pub &&-true : (a b : Bool) → (a && b) ≡ true → (a ≡ true) × (b ≡ true)
&&-true true b h = (refl, h)
&&-true false b h = absurd (cc h)

pub fresh_key_le :
    (r : PaymentRow) (u : ℤ) (k : String) (rows : List PaymentRow)
    → count_where (of_key r.user_id r.idempotency_key) rows ≡ 0
    → count_where (of_key u k) rows ≤ 1
    → count_where (of_key u k) (r ∷ rows) ≤ 1
unfolding count_where
fresh_key_le r u k rows none_there h = elim (Bool-cases (of_key u k r)) [
  | inl e ↦
      let both = &&-true (r.user_id ==ℤ u) (same_text r.idempotency_key k) e in
      let same_user : r.user_id ≡ u = (==ℤ_iff r.user_id u).0 both.0 in
      let same_key : r.idempotency_key ≡ k = (same_text_iff r.idempotency_key k).0 both.1 in
      let same : count_where (of_key r.user_id r.idempotency_key) rows
          ≡ count_where (of_key u k) rows =
        cc (same_user, same_key) in
      rw e (omega (arith, none_there, same))
  | inr e ↦ rw e (omega (arith, h))
]

pub fail_payment-IsPaid :
    (p : ℕ) (rows : List PaymentRow) (o : Order)
    → IsPaid rows o
    → IsPaid (update_where (open_row p) fail_row rows) o
fail_payment-IsPaid p rows o h =
    rw
      (count_where-update_where (paid_row o.payment_request_id) (open_row p) fail_row rows
        (λ r k. ground (arith, k)))
      h

pub succeed-IsPaid :
    (p : ℕ) (rows : List PaymentRow) (o : Order)
    → IsPaid rows o
    → IsPaid (update_where (has_row_id p) succeed rows) o
succeed-IsPaid p rows o h = omega (
  arith,
  h,
  count_where-update_where_ge (paid_row o.payment_request_id) (has_row_id p) succeed rows
      (λ r. ground arith),
)

pub succeed-new :
    (p : ℕ) (rows : List PaymentRow)
    → is_found (find_where (has_row_id p) rows) ≡ true
    → 1 ≤ count_where (paid_row p) (update_where (has_row_id p) succeed rows)
succeed-new p rows h = omega (
  arith,
  count_where-find_where_some (has_row_id p) rows h,
  count_where-update_where_into (paid_row p) (has_row_id p) succeed rows (λ r. ground arith),
)
