-- ===== src/Outbox/Once.antt =====
-- What keeps an event from being sent twice by one server: the mark of a publication
-- (apps/outbox-server/src/store.rs, apps/outbox-server/src/lib.rs).
use bookit.Common.{
  ℕ, ◌≡◌, ◌≢◌, refl, inl, inr, Bool, false, Option, none, some, List, [], ◌∷◌, String, All, All-map,
  arith, Bool-cases, Option-cases, pos,
}
use bookit.Outbox.Policy.{route_for, should_dead_letter}
use bookit.Outbox.Store.{
  Row, Database, ClaimedEvent, is_null, is_due, claim_row, claim_next, mark_published, mark_failed,
}
use bookit.Outbox.Server.{
  Env, Message, Next, sleeps, continues, stops, Outcome, sent, error, Confirmation, round, run,
  settle, publish, work, add_message, unless_stopped, ack, ack_returned, nack, not_requested,
  unreachable, outcome_of, message_for,
}
use bookit.Outbox.Claims.{claim_next-Oldest}
use bookit.Outbox.Lease.{update_row-All, update_row-All_self, claim_next-not_due}

-- Every row with the id is marked as published.
abbrev pub Published : ℕ → Database → Type 0
Published x db = All (λ r. r.id ≡ x → is_null r.published_at ≡ false) db.outbox_events

is_due-published : (now : ℕ) (r : Row) → is_null r.published_at ≡ false → is_due now r ≡ false
unfolding is_due
is_due-published now r h = ground arith

module _ (x : ℕ) where
  abbrev Marked : Row → Type 0
  Marked r = r.id ≡ x → is_null r.published_at ≡ false

  mark_published-Published :
      (now : ℕ) (event : ClaimedEvent) (db : Database)
      → Published x db
      → Published x (mark_published now event db)
  unfolding mark_published
  mark_published-Published now event db p =
      update_row-All Marked event.id _ db.outbox_events (λ r h e. refl) p

  mark_failed-Published :
      (now : ℕ) (event : ClaimedEvent) (message : String) (permanent : Bool) (db : Database)
      → Published x db
      → Published x (mark_failed now event message permanent db)
  unfolding mark_failed
  mark_failed-Published now event message permanent db p =
      elim (Bool-cases (should_dead_letter (pos event.attempts) permanent)) [
        | inl e ↦ rw e (update_row-All Marked event.id _ db.outbox_events (λ r h. h) p)
        | inr e ↦ rw e (update_row-All Marked event.id _ db.outbox_events (λ r h. h) p)
      ]

  claim_next-Published :
      (locked : ℕ → Bool) (now : ℕ) (db : Database)
      → Published x db
      → Published x (claim_next locked now db).0
  claim_next-Published locked now db p = elim (claim_next-Oldest locked now db) [
    | inl (nothing, none_free, same_db) ↦ rw same_db p
    | inr (r, taken, old, after) ↦
        rw after (update_row-All Marked r.id (claim_row now) db.outbox_events (λ q h. h) p)
  ]

  settle-Published :
      (e : Env) (event : ClaimedEvent) (o : Outcome) (db : Database)
      → Published x db
      → Published x (settle e event o db).0
  unfolding settle
  settle-Published e event sent db p = mark_published-Published e.marked_at event db p
  settle-Published e event (error message) db p =
      mark_failed-Published e.marked_at event message (is_null (route_for event.event_type)) db p

  claimed-other :
      (e : Env) (db : Database) (event : ClaimedEvent)
      → Published x db
      → (claim_next e.locked e.claimed_at db).1 ≡ some event
      → event.id ≢ x
  claimed-other e db event p =
      claim_next-not_due e.locked e.claimed_at x db event
        (All-map _ _ db.outbox_events (λ r h k. is_due-published e.claimed_at r (h k)) p)

  publish-id :
      (ttl : Option ℕ) (confirmation : Confirmation) (event : ClaimedEvent) (m : Message)
      → (publish ttl confirmation event).0 ≡ some m
      → m.message_id ≡ event.id
  unfolding publish message_for
  publish-id ttl confirmation event m h = elim (Option-cases (route_for event.event_type)) [
    | inl e ↦ absurd (ground (arith, e))
    | inr (route, e) ↦ ground (arith, e)
  ]

  work-Published :
      (e : Env) (claimed : Option ClaimedEvent) (db : Database)
      → Published x db
      → Published x (work e claimed db).0
  unfolding work
  work-Published e none db p = p
  work-Published e (some event) db p =
      settle-Published e event (publish e.ttl e.confirmation event).1 db p

  round-Published : (e : Env) (db : Database) → Published x db → Published x (round e db).0
  unfolding round
  round-Published e db p =
      work-Published e (claim_next e.locked e.claimed_at db).1 _
        (claim_next-Published e.locked e.claimed_at db p)

  work-id :
      (e : Env) (claimed : Option ClaimedEvent) (db : Database) (m : Message)
      → (work e claimed db).1 ≡ some m
      → (event : ClaimedEvent) × (claimed ≡ some event) × (m.message_id ≡ event.id)
  unfolding work
  work-id e none db m h = absurd (ground arith)
  work-id e (some event) db m h = (event, refl, publish-id e.ttl e.confirmation event m h)

  round-other :
      (e : Env) (db : Database) (m : Message)
      → Published x db
      → (round e db).1 ≡ some m
      → m.message_id ≢ x
  unfolding round
  round-other e db m p h =
      let (event, taken, id) = work-id e (claim_next e.locked e.claimed_at db).1 _ m h in
      rw id (claimed-other e db event p taken)

  abbrev pub Unsent : List Message → Type 0
  Unsent = All (λ m. m.message_id ≢ x)

  add_message-Unsent :
      (o : Option Message) (ms : List Message)
      → ((m : Message) → o ≡ some m → m.message_id ≢ x)
      → Unsent ms
      → Unsent (add_message o ms)
  add_message-Unsent none ms h k = k
  add_message-Unsent (some m) ms h k = (h m refl, k)

  unless_stopped-Unsent :
      (n : Next) (a b : Database × List Message)
      → Unsent a.1
      → Unsent b.1
      → Unsent (unless_stopped n a b).1
  unless_stopped-Unsent stops a b h k = h
  unless_stopped-Unsent sleeps a b h k = k
  unless_stopped-Unsent continues a b h k = k

  run-Unsent : (rounds : List Env) (db : Database) → Published x db → Unsent (run rounds db).1
  unfolding run
  run-Unsent [] db p = tt
  run-Unsent (e ∷ rest) db p =
      let h : (m : Message) → (round e db).1 ≡ some m → m.message_id ≢ x =
        λ m. round-other e db m p in
      let later = run-Unsent rest (round e db).0 (round-Published e db p) in
      unless_stopped-Unsent (round e db).2 _ _ (add_message-Unsent (round e db).1 [] h tt)
        (add_message-Unsent (round e db).1 _ h later)

outcome_of-sent : (c : Confirmation) → outcome_of c ≡ sent → c ≡ ack
outcome_of-sent ack h = refl
outcome_of-sent ack_returned h = absurd (ground arith)
outcome_of-sent nack h = absurd (ground arith)
outcome_of-sent not_requested h = absurd (ground arith)
outcome_of-sent unreachable h = absurd (ground arith)

publish-sent :
    (ttl : Option ℕ) (c : Confirmation) (event : ClaimedEvent)
    → (publish ttl c event).1 ≡ sent
    → c ≡ ack
unfolding publish
publish-sent ttl c event h = elim (Option-cases (route_for event.event_type)) [
  | inl e ↦ absurd (ground (arith, e))
  | inr (route, e) ↦ outcome_of-sent c (ground (arith, e))
]

settle_done :
    (e : Env) (event : ClaimedEvent) (o : Outcome) (db : Database)
    → (settle e event o db).1 ≡ continues
    → (o ≡ sent) × Published event.id (settle e event o db).0
unfolding settle mark_published
settle_done e event sent db h = (
  refl,
  update_row-All_self (λ r. is_null r.published_at ≡ false) event.id _ db.outbox_events (λ r. refl)
      (λ r. refl),
)
settle_done e event (error message) db h = absurd (ground arith)

work_done :
    (e : Env) (claimed : Option ClaimedEvent) (db : Database) (m : Message)
    → (work e claimed db).1 ≡ some m
    → (work e claimed db).2 ≡ continues
    → (e.confirmation ≡ ack) × Published m.message_id (work e claimed db).0
unfolding work
work_done e none db m h k = absurd (ground arith)
work_done e (some event) db m h k =
    let id = publish-id m.message_id e.ttl e.confirmation event m h in
    let (done, p) = settle_done e event (publish e.ttl e.confirmation event).1 db k in
    (publish-sent e.ttl e.confirmation event done, rw id p)

-- A round that sent a message and goes on has published the event of that message: the broker
-- acknowledged it, and no later round of the server sends a message with the id of that event.
pub round_once :
    (e : Env) (db : Database) (m : Message) (rounds : List Env)
    → (round e db).1 ≡ some m
    → (round e db).2 ≡ continues
    → (e.confirmation ≡ ack) × Unsent m.message_id (run rounds (round e db).0).1
unfolding round
round_once e db m rounds h k =
    let (acked, p) = work_done e (claim_next e.locked e.claimed_at db).1 _ m h k in
    (acked, run-Unsent m.message_id rounds (round e db).0 p)
