-- ===== src/Outbox/Claims.antt =====
-- Which event a claim takes, and which events no claim takes (apps/outbox-server/src/store.rs and the
-- loop of apps/outbox-server/src/lib.rs).
use mathlib.Core.List.{Memᴰ}
use bookit.Common.{
  ℕ, ◌≤◌, ◌≡◌, ◌⊎◌, refl, ap, inl, inr, Bool, true, false, ◌&&◌, not, none, some, List, [], ◌∷◌,
  leb, All, All-map, arith, Bool-cases, Option-cases,
}
use bookit.Outbox.Store.{
  Row, Database, is_due, earlier, first_by_age, update_row, claim_row, claimed_event, claim_next,
}

first_by_age-none :
    (ok : Row → Bool) (rs : List Row) → first_by_age ok rs ≡ none → All (λ q. ok q ≡ false) rs
unfolding first_by_age
first_by_age-none ok [] h = tt
first_by_age-none ok (q ∷ rs) h = elim (Bool-cases (ok q)) [
  | inl e ↦ absurd (ground arith)
  | inr e ↦ (e, first_by_age-none ok rs (ground (arith, e)))
]

-- The row stands in the table, passes, and no row that passes is older.
pub record Oldest (ok : Row → Bool) (rs : List Row) (r : Row) : Type 0 where
  pub member : Memᴰ r rs
  pub passes : ok r ≡ true
  pub oldest : All (λ q. ok q ≡ true → r.created_at ≤ q.created_at) rs

Oldest-cons :
    (ok : Row → Bool) (q p : Row) (rs : List Row)
    → ok q ≡ true
    → Oldest ok rs p
    → Oldest ok (q ∷ rs) (earlier q (some p))
Oldest-cons ok q p rs e o = elim (Bool-cases (leb q.created_at p.created_at)) [
  | inl le ↦ rw le record {
    member = Memᴰ.head refl;
    passes = e;
    oldest =
        ((λ h. omega arith), All-map _ _ rs (λ x k h. let young = k h in ground arith) o.oldest);
  }
  | inr gt ↦ rw gt record {
    member = Memᴰ.tail o.member;
    passes = o.passes;
    oldest = ((λ h. ground arith), o.oldest);
  }
]

first_by_age-Oldest :
    (ok : Row → Bool) (rs : List Row) (r : Row) → first_by_age ok rs ≡ some r → Oldest ok rs r
unfolding first_by_age
first_by_age-Oldest ok [] r h = absurd (ground arith)
first_by_age-Oldest ok (q ∷ rs) r h = elim (Bool-cases (ok q)) [
  | inr e ↦
      let rest = first_by_age-Oldest ok rs r (ground (arith, e)) in
      record {
        member = Memᴰ.tail rest.member;
        passes = rest.passes;
        oldest = ((λ p. cc), rest.oldest);
      }
  | inl e ↦ elim (Option-cases (first_by_age ok rs)) [
    | inl none_left ↦
        let same : r ≡ q = ground (arith, e, none_left) in
        record {
          member = Memᴰ.head same;
          passes = cc;
          oldest = (
            (λ p. omega (arith, ap (λ x. x.created_at) same)),
            All-map _ _ rs (λ x p t. absurd (cc (p, t))) (first_by_age-none ok rs none_left),
          );
        }
    | inr (p, found) ↦
        let same : r ≡ earlier q (some p) = ground (arith, e, found) in
        rw same (Oldest-cons ok q p rs e (first_by_age-Oldest ok rs p found))
  ]
]

abbrev pub free : (ℕ → Bool) → ℕ → Row → Bool
free locked now r = is_due now r && not (locked r.id)

-- A claim gives an event exactly if some row is due and not locked. It is then the oldest such row:
-- the row stood in the table, and the table has it with the time of the claim and one attempt more,
-- and every other row as it was. Where there is none, the table is left as it was.
pub claim_next-Oldest :
    (locked : ℕ → Bool) (now : ℕ) (db : Database)
    → (((claim_next locked now db).1 ≡ none)
        × All (λ q. free locked now q ≡ false) db.outbox_events
        × ((claim_next locked now db).0 ≡ db))
      ⊎ ((r : Row) × ((claim_next locked now db).1 ≡ some (claimed_event r))
          × Oldest (free locked now) db.outbox_events r
          × ((claim_next locked now db).0
              ≡ record db { outbox_events = update_row r.id (claim_row now) db.outbox_events }))
unfolding claim_next
claim_next-Oldest locked now db =
    elim (Option-cases (first_by_age (free locked now) db.outbox_events)) [
      | inl e ↦ inl (rw e refl, first_by_age-none (free locked now) db.outbox_events e, rw e refl)
      | inr (r, e) ↦
          inr (r, rw e refl, first_by_age-Oldest (free locked now) db.outbox_events r e, rw e refl)
    ]
