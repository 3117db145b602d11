-- ===== src/Schedules/Refused.antt =====
-- From the answer of `close_schedule` to the gateway: the admin's later requests and the messages that
-- apps/gateway-keeper/src/state_active.rs hears.
use bookit.Common.{
  ℕ, ◌≡◌, refl, sym, subst, ◌∙◌, Bool, true, false, Option, none, some, List, [], ◌∷◌, ◌++◌, ℤ,
  ◌==ℤ◌, ==ℤ_iff, ==ℤ_refl, if◌then◌else◌, append_assoc, append-nil, All, arith, if_lem,
}
use bookit.Payment.Tables.{update_where}
use bookit.Gateway.Actor.{err as refused, schedule_closed as is_closed}
use bookit.Gateway.Cancel.{Show, get_or_create_show_actor}
use bookit.Gateway.Lifecycle.{
  Event, schedule_is_closed, schedule_is_opened, other_event as not_about,
  handle_schedule_lifecycle_message, mark_schedule_closed,
}
use bookit.Schedules.Tables.{LifecycleState, scheduled, opened, closed, Schedule, Database, ok}
use bookit.Schedules.Create.{Parsers}
use bookit.Schedules.Extra.{live, find_live}
use bookit.Schedules.Lifecycle.{
  World, Reply, Redis, PubSubEvent, schedule_opened, schedule_closed, other_event,
  publish_schedule_lifecycle, has_id, with_state, set_state, deleted, close_by_state, close_found,
  close_commit, then_publish, close_schedule,
}
use bookit.Schedules.Update.{changed}
use bookit.Schedules.Created.{create_schedule-Created}
use bookit.Schedules.WellFormed.{WellFormed}
use bookit.Schedules.Added.{find_live-Given, add_extra_seats-Grown}
use bookit.Schedules.Rows.{All-update_where, schedules-WellFormed}
use bookit.Schedules.Requests.{
  Request, creates, adds_seats, updates_seats, updates, starts, closes, deletes, handle, run,
  start_schedule-Moved, close_schedule-Moved, delete_schedule-keeps, update_schedule-keeps,
  update_schedule_seats-keeps, handle-WellFormed,
}
use bookit.Schedules.Started.{AllLive, found-AllLive, AllLive-snoc, IsOld-later}
use bookit.Schedules.Closed.{IsClosed, ClosedRows, Calm, Quiet, not_closed, handle-Quiet}

moved-ClosedRows :
    (s t : ℤ) (db : Database) (f : Schedule → Schedule)
    → ((r : Schedule)
        → (live s r ≡ true → IsClosed r)
        → has_id t r ≡ true
        → live s (f r) ≡ true
        → IsClosed (f r))
    → ClosedRows s db
    → ClosedRows s (record db { schedules = update_where (has_id t) f db.schedules })
moved-ClosedRows s t db f k h = (
  All-update_where (λ r. live s r ≡ true → IsClosed r) (has_id t) f db.schedules
      (λ r g e l. k r g e l) h.0,
  h.1,
)

not_both : (s t : ℤ) (r : Schedule) → (t ==ℤ s) ≡ false → has_id t r ≡ true → live s r ≡ true → ⊥
not_both s t r e h l = ground (arith, e, h, l, ==ℤ_iff r.id t, ==ℤ_iff r.id s, ==ℤ_iff t s)

handle-ClosedRows :
    (s : ℤ) (p : Parsers) (q : Request) (w : World)
    → WellFormed w.db
    → ClosedRows s w.db
    → ClosedRows s (handle p q w).db
unfolding handle set_state
handle-ClosedRows s p (creates env body) w wf h =
    create_schedule-Created (ClosedRows s) w.db wf
      (record {
        refused = h;
        not_inserted = (h.0, IsOld-later s w.db.next_schedule h.1);
        seatless =
            λ new. (AllLive-snoc IsClosed s w.db new h.1 h.0, IsOld-later s w.db.next_schedule h.1);
        seated = λ new xs next own c.
            (AllLive-snoc IsClosed s w.db new h.1 h.0, IsOld-later s w.db.next_schedule h.1);
      })
      p env body
handle-ClosedRows s p (adds_seats t xs) w wf h =
    add_extra_seats-Grown (ClosedRows s) t w.db wf
      (record { refused = h; added = λ r ys next f st own c. h }) p.parse_price xs
handle-ClosedRows s p (updates_seats t xs) w wf h =
    update_schedule_seats-keeps (ClosedRows s) p.parse_price t xs w.db h h
handle-ClosedRows s p (updates t body) w wf h =
    update_schedule-keeps (ClosedRows s) p t body w.db h
      (λ c. moved-ClosedRows s t w.db (changed c) (λ r g e l. g l) h)
handle-ClosedRows s p (starts reply t) w wf h =
    start_schedule-Moved (ClosedRows s) reply t w (record {
      same = h;
      to_opened = λ r f st.
          moved-ClosedRows s t w.db (with_state opened)
            (λ x g e l. absurd (not_both s t x (not_closed s t w.db r h.0 f (λ k. cc (st, k))) e l))
            h;
      to_closed = moved-ClosedRows s t w.db (with_state closed) (λ x g e l. refl) h;
    })
handle-ClosedRows s p (closes reply t) w wf h =
    close_schedule-Moved (ClosedRows s) reply t w (record {
      same = h;
      to_opened = λ r f st.
          moved-ClosedRows s t w.db (with_state opened)
            (λ x g e l. absurd (not_both s t x (not_closed s t w.db r h.0 f (λ k. cc (st, k))) e l))
            h;
      to_closed = moved-ClosedRows s t w.db (with_state closed) (λ x g e l. refl) h;
    })
handle-ClosedRows s p (deletes reply t) w wf h =
    delete_schedule-keeps (ClosedRows s) reply t w h
      (moved-ClosedRows s t w.db deleted (λ x g e l. refl) h)

-- The state of a schedule that has been closed.
record Shut (s : ℤ) (before : List PubSubEvent) (w : World) : Type 0 where
  well_formed : WellFormed w.db
  rows : ClosedRows s w.db
  quiet : Quiet s before w.redis

run-Shut :
    (s : ℤ) (before : List PubSubEvent) (p : Parsers) (qs : List Request) (w : World)
    → Shut s before w
    → Shut s before (run p qs w)
unfolding run
run-Shut s before p [] w h = h
run-Shut s before p (q ∷ qs) w h = run-Shut s before p qs (handle p q w) (record {
  well_formed = handle-WellFormed p q w h.well_formed;
  rows = handle-ClosedRows s p q w h.well_formed h.rows;
  quiet = handle-Quiet s before p q w h.rows.0 h.quiet;
})

all_closed :
    (s : ℤ) (rows : List Schedule)
    → AllLive IsClosed s (update_where (has_id s) (with_state closed) rows)
unfolding update_where
all_closed s [] = tt
all_closed s (r ∷ rows) = (
  if_lem (λ x. live s x ≡ true → IsClosed x) (has_id s r) (with_state closed r) r (λ e l. refl)
      (λ e l. absurd (ground (arith, e, l))),
  all_closed s rows,
)

-- A publication that is answered has written the key and sent the message.
published_ok :
    (writes publishes : Bool) (s : ℤ) (r : Redis)
    → (publish_schedule_lifecycle
        (record { writes = writes; publishes = publishes })
        (schedule_closed s)
        r).1
      ≡ ok tt
    → Quiet s
        (r.published ++ (schedule_closed s ∷ []))
        (publish_schedule_lifecycle
          (record { writes = writes; publishes = publishes })
          (schedule_closed s)
          r).0
unfolding publish_schedule_lifecycle Calm
published_ok false publishes s r e = cc e
published_ok true false s r e = cc e
published_ok true true s r e = (simp (==ℤ_refl s) refl, ([], (sym (append-nil _), tt)))

closed_ok :
    (reply : Reply) (s : ℤ) (r : Schedule) (st : LifecycleState) (w : World)
    → WellFormed w.db
    → find_live s w.db ≡ some r
    → r.lifecycle_state ≡ st
    → (then_publish reply (schedule_closed s) w.redis (close_by_state st s w.db)).1 ≡ ok tt
    → Shut s
        (w.redis.published ++ (schedule_closed s ∷ []))
        (then_publish reply (schedule_closed s) w.redis (close_by_state st s w.db)).0
unfolding close_by_state then_publish set_state
closed_ok reply s r closed w wf f st e = record {
  well_formed = wf;
  rows = (
    found-AllLive IsClosed s w.db.schedules r wf.unique f st,
    find_live-Given s w.db.next_schedule w.db.schedules r wf.given f,
  );
  quiet = published_ok reply.writes reply.publishes s w.redis e;
}
closed_ok reply s r opened w wf f st e = record {
  well_formed = schedules-WellFormed (has_id s) (with_state closed) w.db (λ x. refl) wf;
  rows = (
    all_closed s w.db.schedules,
    find_live-Given s w.db.next_schedule w.db.schedules r wf.given f,
  );
  quiet = published_ok reply.writes reply.publishes s w.redis e;
}
closed_ok reply s r scheduled w wf f st e = record {
  well_formed = schedules-WellFormed (has_id s) (with_state closed) w.db (λ x. refl) wf;
  rows = (
    all_closed s w.db.schedules,
    find_live-Given s w.db.next_schedule w.db.schedules r wf.given f,
  );
  quiet = published_ok reply.writes reply.publishes s w.redis e;
}

close_found_ok :
    (reply : Reply) (s : ℤ) (found : Option Schedule) (w : World)
    → WellFormed w.db
    → find_live s w.db ≡ found
    → (then_publish reply (schedule_closed s) w.redis (close_found found s w.db)).1 ≡ ok tt
    → Shut s
        (w.redis.published ++ (schedule_closed s ∷ []))
        (then_publish reply (schedule_closed s) w.redis (close_found found s w.db)).0
unfolding then_publish
close_found_ok reply s none w wf f e = cc e
close_found_ok reply s (some r) w wf f e = closed_ok reply s r r.lifecycle_state w wf f refl e

-- The message as the gateway takes it for the show of `s`.
abbrev pub as_heard : ℤ → PubSubEvent → Event
as_heard s (schedule_opened t) = if t ==ℤ s then schedule_is_opened else not_about
as_heard s (schedule_closed t) = if t ==ℤ s then schedule_is_closed else not_about
as_heard s other_event = not_about

unfoldable pub hear : ℤ → List PubSubEvent → Show → Show
hear s [] show = show
hear s (e ∷ es) show = hear s es (handle_schedule_lifecycle_message (as_heard s e) show)

hear-Calm :
    (s : ℤ) (es : List PubSubEvent) (show : Show)
    → All (Calm s) es
    → show.closed ≡ true
    → (hear s es show).closed ≡ true
unfolding hear Calm handle_schedule_lifecycle_message mark_schedule_closed
hear-Calm s [] show c h = h
hear-Calm s (schedule_opened t ∷ es) show c h = simp c.0 (hear-Calm s es show c.1 h)
hear-Calm s (schedule_closed t ∷ es) show c h = hear-Calm s es _ c.1 (
    if_lem (λ e. (handle_schedule_lifecycle_message e show).closed ≡ true) (t ==ℤ s)
      schedule_is_closed not_about (λ y. refl) (λ y. h))
hear-Calm s (other_event ∷ es) show c h = hear-Calm s es show c.1 h

hear_closed :
    (s : ℤ) (es : List PubSubEvent) (show : Show)
    → All (Calm s) es
    → (hear s (schedule_closed s ∷ es) show).closed ≡ true
unfolding hear handle_schedule_lifecycle_message mark_schedule_closed
hear_closed s es show c = simp (==ℤ_refl s) (hear-Calm s es _ c refl)

append-cancel : (xs ys zs : List PubSubEvent) → xs ++ ys ≡ xs ++ zs → ys ≡ zs
append-cancel [] ys zs e = e
append-cancel (x ∷ xs) ys zs e = append-cancel xs ys zs (cc e)

-- A request of a show that is closed, or that has no actor and whose key is there, is refused.
asks_closed :
    (marked memory : Bool) (now : ℕ) (x : ℤ) (show : Show)
    → show.closed ≡ true
    → (get_or_create_show_actor marked memory now x show).1 ≡ refused is_closed
unfolding get_or_create_show_actor
asks_closed marked memory now x show h = simp h refl

-- After an answer of `close_schedule` that is no error, whatever requests the admins make then and
-- however these are answered: the key that marks the schedule as closed is there, and a gateway that
-- has heard what was published since before the closing gives no request an actor of the show.
pub closed_then_refused :
    (p : Parsers) (reply : Reply) (s : ℤ) (qs : List Request) (w : World) (news : List PubSubEvent)
    (marked memory : Bool) (now : ℕ) (x : ℤ) (show : Show)
    → WellFormed w.db
    → (close_schedule reply s w).1 ≡ ok tt
    → (run p qs (close_schedule reply s w).0).redis.published ≡ w.redis.published ++ news
    → ((run p qs (close_schedule reply s w).0).redis.closed_key s ≡ true)
      × ((get_or_create_show_actor marked memory now x (hear s news show)).1 ≡ refused is_closed)
unfolding close_schedule close_commit
closed_then_refused p reply s qs w news marked memory now x show wf e heard =
    let shut =
      run-Shut s (w.redis.published ++ (schedule_closed s ∷ [])) p qs _
        (close_found_ok reply s (find_live s w.db) w wf refl e) in
    let same : news ≡ schedule_closed s ∷ shut.quiet.1.0 =
      append-cancel w.redis.published _ _ (
        sym heard ∙ shut.quiet.1.1.0 ∙ append_assoc w.redis.published (schedule_closed s ∷ []) _) in
    (
      shut.quiet.0,
      subst
          (λ es.
            (get_or_create_show_actor marked memory now x (hear s es show)).1 ≡ refused is_closed)
          (sym same)
          (asks_closed marked memory now x _ (hear_closed s shut.quiet.1.0 show shut.quiet.1.1.1)),
    )
