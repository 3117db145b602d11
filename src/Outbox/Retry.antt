-- ===== src/Outbox/Retry.antt =====
-- When an event whose publication failed is tried again (apps/outbox-server/src/store.rs,
-- apps/outbox-server/src/lib.rs).
use bookit.Common.{
  ℕ, ◌+◌, ◌*◌, ◌≡◌, inl, inr, Bool, true, false, List, [], ◌∷◌, leb, ◌==◌, if◌then◌else◌, String,
  All, arith, Bool-cases, pos,
}
use bookit.Outbox.Policy.{route_for, should_dead_letter, retry_delay_seconds}
use bookit.Outbox.Store.{
  Row, Database, ClaimedEvent, is_null, second, is_due, update_row, dead_letter, put_back,
  mark_failed,
}
use bookit.Outbox.Server.{Env, error, settle}

update_row-All_at :
    (P Q : Row → Type 0) (x : ℕ) (f : Row → Row) (rs : List Row)
    → ((r : Row) → P r → Q (f r))
    → All (λ r. r.id ≡ x → P r) rs
    → All (λ r. r.id ≡ x → Q r) (update_row x f rs)
unfolding update_row
update_row-All_at P Q x f [] k p = tt
update_row-All_at P Q x f (r ∷ rs) k p = (
  elim (Bool-cases (r.id == x)) [
    | inl e ↦ rw e (λ h. k r (p.0 (ground arith)))
    | inr e ↦ rw e (λ h. absurd (ground arith))
  ],
  update_row-All_at P Q x f rs k p.1,
)

abbrev pub gives_up : ClaimedEvent → Bool
gives_up event = should_dead_letter (pos event.attempts) (is_null (route_for event.event_type))

-- Neither published nor given up.
abbrev pub Open : Row → Type 0
Open r = (is_null r.published_at ≡ true) × (is_null r.dead_lettered_at ≡ true)

-- After a failed publication of an event that was open, the event is due again at a time exactly if
-- the server did not give up on it (it has a route, or fewer than ten attempts) and the retry delay
-- of its attempts has passed since the failure.
pub settle_failed-is_due :
    (e : Env) (event : ClaimedEvent) (message : String) (db : Database) (t : ℕ)
    → All (λ r. r.id ≡ event.id → Open r) db.outbox_events
    → All
        (λ r.
          r.id ≡ event.id
          → is_due t r ≡ (
              if gives_up event
              then false
              else leb (e.marked_at + retry_delay_seconds (pos event.attempts) * second) t))
        (settle e event (error message) db).0.outbox_events
unfolding settle mark_failed is_due
settle_failed-is_due e event message db t open' = elim (Bool-cases (gives_up event)) [
  | inl g ↦ rw g (
      update_row-All_at Open (λ r. is_due t r ≡ false) event.id (dead_letter e.marked_at message)
        db.outbox_events (λ r h. ground arith) open')
  | inr g ↦
      let delay = retry_delay_seconds (pos event.attempts) in
      rw g (
        update_row-All_at Open (λ r. is_due t r ≡ leb (e.marked_at + delay * second) t) event.id
          (put_back e.marked_at delay message) db.outbox_events (λ r h. ground arith) open')
]
