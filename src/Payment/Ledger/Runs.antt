-- ===== src/Payment/Ledger/Runs.antt =====
-- What the transactions of payments keep, in any order and from any number of servers and workers.
use bookit.Common.{true, false, subst}
use bookit.Payment.Tables.{Database}
use bookit.Payment.Commit.{commit_cancellation}
use bookit.Payment.Ledger.{
  IsLedger, Step, inserts, fails, checks_out, enqueues, cancels, Steps, done, follows,
}
use bookit.Payment.Ledger.Checkout.{fail_payment-IsLedger, commit_checkout-IsLedger}
use bookit.Payment.Ledger.Cancellation.{enqueue_cancellation-IsLedger, cancelled_order-IsLedger}
use bookit.Payment.Ledger.Insert.{insert_request-IsLedger}

Step-IsLedger : (db db' : Database) → Step db db' → IsLedger db → IsLedger db'
unfolding commit_cancellation
Step-IsLedger _ _ (inserts accepts inserted amount r db db' e) h =
    insert_request-IsLedger accepts inserted amount r db db' e h
Step-IsLedger _ _ (fails p db) h = fail_payment-IsLedger p db h
Step-IsLedger _ _ (checks_out accepts c db db' e) h = commit_checkout-IsLedger accepts db db' c e h
Step-IsLedger _ _ (enqueues user_id o db) h = enqueue_cancellation-IsLedger user_id o db h
Step-IsLedger _ _ (cancels true c db db' e) h =
    subst IsLedger (cc e) (cancelled_order-IsLedger db c h)
Step-IsLedger _ _ (cancels false c db db' e) h = absurd (cc e)

-- From tables that agree, any transactions of request_payment, cancel_order and the payment processor,
-- in any order, leave tables that agree: ids and keys are unique, an order has exactly one OrderCompleted
-- event and one audit entry order_completed, a payment request has at most one order and exactly one
-- event payment.requested, an order has at most one event payment.cancellation_requested and none while
-- it is completed, and the payment request of every order has succeeded.
pub Steps-IsLedger : (db db' : Database) → Steps db db' → IsLedger db → IsLedger db'
Steps-IsLedger _ _ (done db) h = h
Steps-IsLedger _ _ (follows db db' db'' s rest) h =
    Steps-IsLedger db' db'' rest (Step-IsLedger db db' s h)
