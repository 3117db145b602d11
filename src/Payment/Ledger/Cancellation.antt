-- ===== src/Payment/Ledger/Cancellation.antt =====
-- The tables after a cancellation is asked for and after it is done.
use bookit.Common.{
  ℕ, ◌+◌, ◌≤◌, ◌≡◌, refl, inl, inr, Bool, ◌&&◌, ◌==◌, ==_iff, ℤ, subst, arith, Bool-cases,
}
use bookit.Payment.Tables.{
  Order, payment_requested, cancellation_requested, order_was_completed, Database, update_where,
  count_where,
}
use bookit.Payment.Commit.{
  CancellationCommit, has_request, has_order_id, cancelled_order, refund_order,
}
use bookit.Payment.Orders.{open_order, set_cancelling, enqueue_cancellation}
use bookit.Payment.Counts.{
  tally, count_where-update_where, count_where-update_where_le, count_where-update_where_self,
  count_where-if, All-update_where,
}
use bookit.Payment.Ledger.{is_event, IsPaid, IsLedger}

enqueue_cancellation-cancelled :
    (user_id : ℤ) (o : Order) (db : Database)
    → IsLedger db
    → (i : ℕ)
    → count_where
          (is_event cancellation_requested i)
          (enqueue_cancellation user_id o db).outbox_events
        + count_where (open_order i) (enqueue_cancellation user_id o db).orders
      ≤ count_where (has_order_id i) db.orders
unfolding enqueue_cancellation
enqueue_cancellation-cancelled user_id o db h i =
    rw (count_where-if (is_event cancellation_requested i) _ _ _) (elim (Bool-cases (o.id == i)) [
      | inl e ↦
          let same : o.id ≡ i = (==_iff o.id i).0 e in
          let none_open =
            count_where-update_where_self (open_order o.id) set_cancelling db.orders
              (λ r. ground arith) in
          subst
            (λ j.
              tally ((count_where (open_order o.id) db.orders == 1) && (o.id == j))
                + count_where (is_event cancellation_requested j) db.outbox_events
                + count_where (open_order j)
                    (update_where (open_order o.id) set_cancelling db.orders)
              ≤ count_where (has_order_id j) db.orders)
            same (ground (arith, none_open, h.cancelled o.id))
      | inr e ↦
          let others =
            count_where-update_where (open_order i) (open_order o.id) set_cancelling db.orders
              (λ r k. ground (arith, e, k)) in
          ground (arith, e, others, h.cancelled i)
    ])

pub enqueue_cancellation-IsLedger :
    (user_id : ℤ) (o : Order) (db : Database)
    → IsLedger db
    → IsLedger (enqueue_cancellation user_id o db)
unfolding enqueue_cancellation
enqueue_cancellation-IsLedger user_id o db h = record {
  one_order = λ i. rw (orders (has_order_id i) (λ r. refl)) (h.one_order i);
  one_per_request = λ i. rw (orders (has_request i) (λ r. refl)) (h.one_per_request i);
  one_row = h.one_row;
  one_per_key = h.one_per_key;
  requested =
      λ q. rw (count_where-if (is_event payment_requested q) _ _ _) (ground (arith, h.requested q));
  completed = λ i.
      rw
        (count_where-if (is_event order_was_completed i) _ _ _, orders (has_order_id i) (λ r. refl))
        (ground (arith, h.completed i));
  audited = λ i. rw (orders (has_order_id i) (λ r. refl)) (h.audited i);
  cancelled = λ i.
      rw (orders (has_order_id i) (λ r. refl)) (enqueue_cancellation-cancelled user_id o db h i);
  paid =
      All-update_where (IsPaid db.payment_requests) (open_order o.id) set_cancelling db.orders
        (λ r k. k) h.paid;
}
  where
    orders :
        (q : Order → Bool)
        → ((r : Order) → q (set_cancelling r) ≡ q r)
        → count_where q (update_where (open_order o.id) set_cancelling db.orders)
          ≡ count_where q db.orders
    orders q k = count_where-update_where q _ set_cancelling db.orders (λ r k'. k r)

pub cancelled_order-IsLedger :
    (db : Database) (c : CancellationCommit) → IsLedger db → IsLedger (cancelled_order db c)
unfolding cancelled_order count_where
cancelled_order-IsLedger db c h = record {
  one_order = λ i.
      rw
        (count_where-update_where (has_order_id i) (has_order_id c.order_id) refund_order db.orders
          (λ r k. refl))
        (h.one_order i);
  one_per_request = λ i.
      rw
        (count_where-update_where (has_request i) (has_order_id c.order_id) refund_order db.orders
          (λ r k. refl))
        (h.one_per_request i);
  one_row = h.one_row;
  one_per_key = h.one_per_key;
  requested = λ p. ground (arith, h.requested p);
  completed = λ i.
      rw
        (count_where-update_where (has_order_id i) (has_order_id c.order_id) refund_order db.orders
          (λ r k. refl))
        (ground (arith, h.completed i));
  audited = λ i.
      rw
        (count_where-update_where (has_order_id i) (has_order_id c.order_id) refund_order db.orders
          (λ r k. refl))
        (ground (arith, h.audited i));
  cancelled = λ i.
      rw
        (count_where-update_where (has_order_id i) (has_order_id c.order_id) refund_order db.orders
          (λ r k. refl))
        (ground (
          arith,
          h.cancelled i,
          count_where-update_where_le (open_order i) (has_order_id c.order_id) refund_order
              db.orders (λ r. ground arith),
        ));
  paid =
      All-update_where (IsPaid db.payment_requests) (has_order_id c.order_id) refund_order db.orders
        (λ r k. k) h.paid;
}
