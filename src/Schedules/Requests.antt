-- ===== src/Schedules/Requests.antt =====
-- The admin's requests of apps/http-server/src/api/admin/schedules_v2.rs one after the other, and what
-- every one of them keeps.
use bookit.Common.{ℕ, ◌≡◌, refl, sym, subst, Option, none, some, List, [], ◌∷◌, ℤ, String, if_lem}
use bookit.Payment.Tables.{find_where, update_where, is_found}
use bookit.Schedules.Tables.{
  LifecycleState, scheduled, opened, closed, Schedule, Database, Result, ok, err,
}
use bookit.Schedules.Create.{Parsers, CreateEnv, CreateScheduleRequest, create_schedule}
use bookit.Schedules.Extra.{ExtraSeatInput, add_extra_seats, find_live}
use bookit.Schedules.Lifecycle.{
  Reply, PubSubEvent, schedule_opened, schedule_closed, Redis, World, has_id, with_state, set_state,
  start_by_state, close_by_state, start_found, close_found, start_commit, close_commit, deleted,
  delete_found, delete_commit, then_publish, start_schedule, close_schedule, delete_schedule,
}
use bookit.Schedules.Update.{
  UpdateScheduleRequest, UpdateSeatInput, ScheduleChangeset, apply_changes, changed, changeset,
  update_schedule, update_seats, update_schedule_seats, blank_city, has_changes,
}
use bookit.Schedules.Created.{create_schedule-WellFormed}
use bookit.Schedules.WellFormed.{WellFormed}
use bookit.Schedules.Added.{add_extra_seats-WellFormed}
use bookit.Schedules.Rows.{schedules-WellFormed, seats-WellFormed, hall-update_seats}

pub data Request : Type 0 where
  creates : CreateEnv → CreateScheduleRequest → Request
  adds_seats : ℤ → List ExtraSeatInput → Request
  updates_seats : ℤ → List UpdateSeatInput → Request
  updates : ℤ → UpdateScheduleRequest → Request
  starts closes deletes : Reply → ℤ → Request

abbrev pub with_db : World → Database → World
with_db w db = record w { db = db }

-- The state after a request; its answer is left out.
unfoldable pub handle : Parsers → Request → World → World
handle p (creates env body) w = with_db w (create_schedule p env body w.db).0
handle p (adds_seats s xs) w = with_db w (add_extra_seats p.parse_price s xs w.db).0
handle p (updates_seats s xs) w = with_db w (update_schedule_seats p.parse_price s xs w.db).0
handle p (updates s body) w = with_db w (update_schedule p s body w.db).0
handle p (starts reply s) w = (start_schedule reply s w).0
handle p (closes reply s) w = (close_schedule reply s w).0
handle p (deletes reply s) w = (delete_schedule reply s w).0

unfoldable pub run : Parsers → List Request → World → World
run p [] w = w
run p (q ∷ qs) w = run p qs (handle p q w)

pub then_publish_db :
    (reply : Reply) (e : PubSubEvent) (r : Redis) (x : Database × Result (Unit {0}))
    → (then_publish reply e r x).0.db ≡ x.0
unfolding then_publish
then_publish_db reply e r (db, ok t) = refl
then_publish_db reply e r (db, err x) = refl

-- What the database halves of the handlers may leave behind has `P`: the tables as they were, and an
-- UPDATE of the schedule's row.
pub record Moved (P : Database → Type 0) (s : ℤ) (db : Database) : Type 0 where
  pub same : P db
  pub to_opened :
      (r : Schedule)
      → find_live s db ≡ some r
      → r.lifecycle_state ≡ scheduled
      → P (set_state opened s db)
  pub to_closed : P (set_state closed s db)

module _ (P : Database → Type 0) (s : ℤ) (db : Database) (o : Moved P s db) where
  start_by_state-Moved :
      (r : Schedule) (st : LifecycleState)
      → find_live s db ≡ some r
      → r.lifecycle_state ≡ st
      → P (start_by_state st s db).0
  unfolding start_by_state
  start_by_state-Moved r scheduled f e = o.to_opened r f e
  start_by_state-Moved r opened f e = o.same
  start_by_state-Moved r closed f e = o.same

  start_found-Moved :
      (found : Option Schedule) → find_live s db ≡ found → P (start_found found s db).0
  start_found-Moved none f = o.same
  start_found-Moved (some r) f = start_by_state-Moved r r.lifecycle_state f refl

  pub start_commit-Moved : P (start_commit s db).0
  unfolding start_commit
  start_commit-Moved = start_found-Moved (find_live s db) refl

  close_by_state-Moved : (st : LifecycleState) → P (close_by_state st s db).0
  unfolding close_by_state
  close_by_state-Moved scheduled = o.to_closed
  close_by_state-Moved opened = o.to_closed
  close_by_state-Moved closed = o.same

  close_found-Moved : (found : Option Schedule) → P (close_found found s db).0
  close_found-Moved none = o.same
  close_found-Moved (some r) = close_by_state-Moved r.lifecycle_state

  pub close_commit-Moved : P (close_commit s db).0
  unfolding close_commit
  close_commit-Moved = close_found-Moved (find_live s db)

pub start_schedule-Moved :
    (P : Database → Type 0) (reply : Reply) (s : ℤ) (w : World)
    → Moved P s w.db
    → P (start_schedule reply s w).0.db
unfolding start_schedule
start_schedule-Moved P reply s w o =
    subst P (sym (then_publish_db reply (schedule_opened s) w.redis _))
      (start_commit-Moved P s w.db o)

pub close_schedule-Moved :
    (P : Database → Type 0) (reply : Reply) (s : ℤ) (w : World)
    → Moved P s w.db
    → P (close_schedule reply s w).0.db
unfolding close_schedule
close_schedule-Moved P reply s w o =
    subst P (sym (then_publish_db reply (schedule_closed s) w.redis _))
      (close_commit-Moved P s w.db o)

delete_found-keeps :
    (P : Database → Type 0) (s : ℤ) (db : Database) (found : Option Schedule)
    → P db
    → P (record db { schedules = update_where (has_id s) deleted db.schedules })
    → P (delete_found found s db).0
delete_found-keeps P s db none h k = h
delete_found-keeps P s db (some r) h k = k

pub delete_schedule-keeps :
    (P : Database → Type 0) (reply : Reply) (s : ℤ) (w : World)
    → P w.db
    → P (record w.db { schedules = update_where (has_id s) deleted w.db.schedules })
    → P (delete_schedule reply s w).0.db
unfolding delete_schedule delete_commit
delete_schedule-keeps P reply s w h k =
    subst P (sym (then_publish_db reply (schedule_closed s) w.redis _))
      (delete_found-keeps P s w.db (find_live s w.db) h k)

apply_changes-keeps :
    (P : Database → Type 0) (s : ℤ) (r : Result ScheduleChangeset) (db : Database)
    → P db
    → ((c : ScheduleChangeset)
        → P (record db { schedules = update_where (has_id s) (changed c) db.schedules }))
    → P (apply_changes s r db).0
apply_changes-keeps P s (err e) db h k = h
apply_changes-keeps P s (ok c) db h k =
    if_lem (λ (x : Database × Result (Unit {0})). P x.0) (has_changes c) _ _ (λ t. k c) (λ t. h)

pub update_schedule-keeps :
    (P : Database → Type 0) (p : Parsers) (s : ℤ) (body : UpdateScheduleRequest) (db : Database)
    → P db
    → ((c : ScheduleChangeset)
        → P (record db { schedules = update_where (has_id s) (changed c) db.schedules }))
    → P (update_schedule p s body db).0
unfolding update_schedule
update_schedule-keeps P p s body db h k =
    let Q : Database × Result (Unit {0}) → Type 0 = λ x. P x.0 in
    if_lem Q (blank_city body.venue_city) _ _ (λ t. h)
      (λ t.
        if_lem Q (is_found (find_live s db)) _ _
          (λ u. apply_changes-keeps P s (changeset p body) db h k) (λ u. h))

pub update_schedule_seats-keeps :
    (P : Database → Type 0) (parse_price : String → Option ℕ) (s : ℤ) (xs : List UpdateSeatInput)
    (db : Database)
    → P db
    → P (record db { schedule_seats = update_seats parse_price s xs db.schedule_seats })
    → P (update_schedule_seats parse_price s xs db).0
unfolding update_schedule_seats
update_schedule_seats-keeps P parse_price s [] db h k = h
update_schedule_seats-keeps P parse_price s (x ∷ xs) db h k =
    if_lem (λ (y : Database × Result (Unit {0})). P y.0)
      (is_found (find_where (has_id s) db.schedules)) _ _ (λ t. k) (λ t. h)

pub handle-WellFormed :
    (p : Parsers) (q : Request) (w : World) → WellFormed w.db → WellFormed (handle p q w).db
unfolding handle set_state
handle-WellFormed p (creates env body) w h = create_schedule-WellFormed p env body w.db h
handle-WellFormed p (adds_seats s xs) w h = add_extra_seats-WellFormed p.parse_price s xs w.db h
handle-WellFormed p (updates_seats s xs) w h =
    update_schedule_seats-keeps WellFormed p.parse_price s xs w.db h
      (seats-WellFormed w.db _ (λ t. hall-update_seats p.parse_price t s xs w.db.schedule_seats) h)
handle-WellFormed p (updates s body) w h =
    update_schedule-keeps WellFormed p s body w.db h
      (λ c. schedules-WellFormed (has_id s) (changed c) w.db (λ r. refl) h)
handle-WellFormed p (starts reply s) w h = start_schedule-Moved WellFormed reply s w (record {
  same = h;
  to_opened = λ r f e. schedules-WellFormed (has_id s) (with_state opened) w.db (λ r. refl) h;
  to_closed = schedules-WellFormed (has_id s) (with_state closed) w.db (λ r. refl) h;
})
handle-WellFormed p (closes reply s) w h = close_schedule-Moved WellFormed reply s w (record {
  same = h;
  to_opened = λ r f e. schedules-WellFormed (has_id s) (with_state opened) w.db (λ r. refl) h;
  to_closed = schedules-WellFormed (has_id s) (with_state closed) w.db (λ r. refl) h;
})
handle-WellFormed p (deletes reply s) w h =
    delete_schedule-keeps WellFormed reply s w h
      (schedules-WellFormed (has_id s) deleted w.db (λ r. refl) h)

-- However the admin's requests follow each other and whatever each of them answers, the seats of every
-- schedule stay numbered from 1 without a gap, with no place of the hall twice, and the ids of the
-- schedules differ.
pub run-WellFormed :
    (p : Parsers) (qs : List Request) (w : World) → WellFormed w.db → WellFormed (run p qs w).db
unfolding run
run-WellFormed p [] w h = h
run-WellFormed p (q ∷ qs) w h = run-WellFormed p qs (handle p q w) (handle-WellFormed p q w h)
