-- ===== src/Outbox/Lease.antt =====
-- The lease of a claim: two claims of apps/outbox-server/src/store.rs after each other.
use bookit.Common.{
  ℕ, ◌+◌, ◌≤◌, ◌≡◌, ◌≢◌, inl, inr, Bool, false, some, List, [], ◌∷◌, ◌==◌, All, All-Memᴰ, arith,
  Bool-cases,
}
use bookit.Outbox.Store.{
  Row, Database, ClaimedEvent, lease, is_due, update_row, claim_row, claim_next,
}
use bookit.Outbox.Claims.{claim_next-Oldest}

module _ (P : Row → Type 0) (x : ℕ) (f : Row → Row) where
  pub update_row-All :
      (rs : List Row) → ((r : Row) → P r → P (f r)) → All P rs → All P (update_row x f rs)
  unfolding update_row
  update_row-All [] k p = tt
  update_row-All (r ∷ rs) k p = (
    elim (Bool-cases (r.id == x)) [ inl e ↦ rw e (k r p.0) | inr e ↦ rw e p.0 ],
    update_row-All rs k p.1,
  )

  -- After an update, the rows with the id have what the update gives.
  pub update_row-All_self :
      (rs : List Row)
      → ((r : Row) → P (f r))
      → ((r : Row) → (f r).id ≡ r.id)
      → All (λ r. r.id ≡ x → P r) (update_row x f rs)
  unfolding update_row
  update_row-All_self [] k same = tt
  update_row-All_self (r ∷ rs) k same = (
    elim (Bool-cases (r.id == x)) [
      | inl e ↦ rw e (λ h. k r)
      | inr e ↦ rw e (λ h. absurd (ground arith))
    ],
    update_row-All_self rs k same,
  )

-- No claim takes an event whose rows are not due.
pub claim_next-not_due :
    (locked : ℕ → Bool) (now x : ℕ) (db : Database) (e : ClaimedEvent)
    → All (λ r. r.id ≡ x → is_due now r ≡ false) db.outbox_events
    → (claim_next locked now db).1 ≡ some e
    → e.id ≢ x
claim_next-not_due locked now x db e h k same = elim (claim_next-Oldest locked now db) [
  | inl (nothing, rest, same_db) ↦ absurd (cc (nothing, k))
  | inr (r, taken, old, after) ↦
      let there = All-Memᴰ _ db.outbox_events r h old.member in
      let id : r.id ≡ x = ground (arith, taken, k, same) in ground (arith, there id, old.passes)
]

pub is_due-claim_row : (t now : ℕ) (r : Row) → now ≤ t + lease → is_due now (claim_row t r) ≡ false
unfolding is_due
is_due-claim_row t now r h = ground arith
