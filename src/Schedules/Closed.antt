-- ===== src/Schedules/Closed.antt =====
-- A schedule that has been closed, under the admin's later requests, and what the gateway hears of it.
use bookit.Common.{
  ◌≡◌, ◌≢◌, refl, ap, subst, ◌∙◌, inl, inr, Bool, true, false, Option, none, some, List, [], ◌∷◌,
  ◌++◌, ℤ, ◌==ℤ◌, ==ℤ_iff, append_assoc, All, Bool-cases, if_lem,
}
use bookit.Schedules.Tables.{
  LifecycleState, scheduled, opened, closed, Schedule, Database, Result, ok, err,
}
use bookit.Schedules.Create.{Parsers}
use bookit.Schedules.Extra.{live, find_live}
use bookit.Schedules.Lifecycle.{
  World, Reply, Redis, PubSubEvent, schedule_opened, schedule_closed, other_event, mark, publish,
  publish_schedule_lifecycle, start_by_state, start_found, start_commit, then_publish,
  start_schedule, close_schedule, delete_schedule,
}
use bookit.Schedules.Rows.{find_where-All}
use bookit.Schedules.Requests.{
  Request, creates, adds_seats, updates_seats, updates, starts, closes, deletes, handle,
}
use bookit.Schedules.Started.{AllLive, IsOld}

abbrev pub IsClosed : Schedule → Type 0
IsClosed r = r.lifecycle_state ≡ closed

-- The live rows of a schedule are closed, and its id was given.
abbrev pub ClosedRows : ℤ → Database → Type 0
ClosedRows s db = AllLive IsClosed s db.schedules × IsOld s db.next_schedule

-- A message that does not open the schedule.
unfoldable pub Calm : ℤ → PubSubEvent → Type 0
Calm s (schedule_opened t) = (t ==ℤ s) ≡ false
Calm s (schedule_closed t) = Unit
Calm s other_event = Unit

-- The schedule's key is there, and nothing that was published since `before` opens it.
abbrev pub Quiet : ℤ → List PubSubEvent → Redis → Type 0
Quiet s before r =
    (r.closed_key s ≡ true)
    × ((more : List PubSubEvent) × ((r.published ≡ before ++ more) × All (Calm s) more))

All-append :
    (P : PubSubEvent → Type 0) (xs ys : List PubSubEvent) → All P xs → All P ys → All P (xs ++ ys)
All-append P [] ys h k = k
All-append P (x ∷ xs) ys h k = (h.0, All-append P xs ys h.1 k)

publish-Quiet :
    (s : ℤ) (before : List PubSubEvent) (b : Bool) (e : PubSubEvent) (r : Redis)
    → Calm s e
    → Quiet s before r
    → Quiet s before (publish b e r).0
publish-Quiet s before false e r c h = h
publish-Quiet s before true e r c h = (
  h.0,
  (
    h.1.0 ++ (e ∷ []),
    (
      ap (λ l. l ++ (e ∷ [])) h.1.1.0 ∙ append_assoc before h.1.0 (e ∷ []),
      All-append (Calm s) h.1.0 (e ∷ []) h.1.1.1 (c, tt),
    ),
  ),
)

opened-Quiet :
    (s t : ℤ) (before : List PubSubEvent) (reply : Reply) (r : Redis)
    → (t ==ℤ s) ≡ false
    → Quiet s before r
    → Quiet s before (publish_schedule_lifecycle reply (schedule_opened t) r).0
unfolding publish_schedule_lifecycle Calm
opened-Quiet s t before reply r e h =
    if_lem (λ (x : Redis × Result (Unit {0})). Quiet s before x.0) reply.writes _ _
      (λ y.
        publish-Quiet s before reply.publishes (schedule_opened t)
          (record r { closed_key = mark false t r.closed_key }) e (simp e h.0, h.1))
      (λ y. h)

closed-Quiet :
    (s t : ℤ) (before : List PubSubEvent) (reply : Reply) (r : Redis)
    → Quiet s before r
    → Quiet s before (publish_schedule_lifecycle reply (schedule_closed t) r).0
unfolding publish_schedule_lifecycle Calm
closed-Quiet s t before reply r h =
    if_lem (λ (x : Redis × Result (Unit {0})). Quiet s before x.0) reply.writes _ _
      (λ y.
        publish-Quiet s before reply.publishes (schedule_closed t)
          (record r { closed_key = mark true t r.closed_key }) tt
          (if_lem (λ b. b ≡ true) (t ==ℤ s) true (r.closed_key s) (λ z. refl) (λ z. h.0), h.1))
      (λ y. h)

then_closed-Quiet :
    (s t : ℤ) (before : List PubSubEvent) (reply : Reply) (r : Redis)
    (x : Database × Result (Unit {0}))
    → Quiet s before r
    → Quiet s before (then_publish reply (schedule_closed t) r x).0.redis
unfolding then_publish
then_closed-Quiet s t before reply r (db, ok u) h = closed-Quiet s t before reply r h
then_closed-Quiet s t before reply r (db, err e) h = h

-- A live row that is not closed is another schedule's.
pub not_closed :
    (s t : ℤ) (db : Database) (r : Schedule)
    → AllLive IsClosed s db.schedules
    → find_live t db ≡ some r
    → r.lifecycle_state ≢ closed
    → (t ==ℤ s) ≡ false
not_closed s t db r h f st = elim (Bool-cases (t ==ℤ s)) [
  | inl e ↦
      let same : t ≡ s = (==ℤ_iff t s).0 e in
      let found : find_live s db ≡ some r = subst (λ u. find_live u db ≡ some r) (same) f in
      let both =
        find_where-All (λ x. live s x ≡ true → IsClosed x) (live s) db.schedules r h found in
      absurd (st (both.0 both.1))
  | inr e ↦ e
]

start_by_state-Quiet :
    (s t : ℤ) (before : List PubSubEvent) (reply : Reply) (r : Schedule) (st : LifecycleState)
    (w : World)
    → AllLive IsClosed s w.db.schedules
    → find_live t w.db ≡ some r
    → r.lifecycle_state ≡ st
    → Quiet s before w.redis
    → Quiet s before
        (then_publish reply (schedule_opened t) w.redis (start_by_state st t w.db)).0.redis
unfolding start_by_state then_publish
start_by_state-Quiet s t before reply r closed w c f e h = h
start_by_state-Quiet s t before reply r opened w c f e h =
    opened-Quiet s t before reply w.redis (not_closed s t w.db r c f (λ k. cc (e, k))) h
start_by_state-Quiet s t before reply r scheduled w c f e h =
    opened-Quiet s t before reply w.redis (not_closed s t w.db r c f (λ k. cc (e, k))) h

start_found-Quiet :
    (s t : ℤ) (before : List PubSubEvent) (reply : Reply) (found : Option Schedule) (w : World)
    → AllLive IsClosed s w.db.schedules
    → find_live t w.db ≡ found
    → Quiet s before w.redis
    → Quiet s before
        (then_publish reply (schedule_opened t) w.redis (start_found found t w.db)).0.redis
unfolding then_publish
start_found-Quiet s t before reply none w c f h = h
start_found-Quiet s t before reply (some r) w c f h =
    start_by_state-Quiet s t before reply r r.lifecycle_state w c f refl h

pub handle-Quiet :
    (s : ℤ) (before : List PubSubEvent) (p : Parsers) (q : Request) (w : World)
    → AllLive IsClosed s w.db.schedules
    → Quiet s before w.redis
    → Quiet s before (handle p q w).redis
unfolding handle start_schedule start_commit close_schedule delete_schedule
handle-Quiet s before p (creates env body) w c h = h
handle-Quiet s before p (adds_seats t xs) w c h = h
handle-Quiet s before p (updates_seats t xs) w c h = h
handle-Quiet s before p (updates t body) w c h = h
handle-Quiet s before p (starts reply t) w c h =
    start_found-Quiet s t before reply (find_live t w.db) w c refl h
handle-Quiet s before p (closes reply t) w c h = then_closed-Quiet s t before reply w.redis _ h
handle-Quiet s before p (deletes reply t) w c h = then_closed-Quiet s t before reply w.redis _ h
