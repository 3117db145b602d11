-- ===== src/Schedules/Started.antt =====
-- The seats of a schedule that has been started, under the admin's later requests.
use bookit.Common.{
  ℕ, suc, ◌≤◌, ◌≡◌, ◌≢◌, refl, ap, subst, ◌∙◌, inl, inr, true, false, some, List, [], ◌∷◌, ◌++◌, ℤ,
  pos, ◌==ℤ◌, ==ℤ_iff, map, append-nil, All, arith, Bool-cases,
}
use bookit.Payment.Tables.{find_where, update_where}
use bookit.Schedules.Tables.{
  scheduled, opened, closed, Schedule, NewSchedule, schedule_row, ScheduleSeat, NewScheduleSeat,
  Database, seats_of,
}
use bookit.Schedules.Create.{Parsers, insert_schedule}
use bookit.Schedules.Extra.{live, find_live}
use bookit.Schedules.Lifecycle.{World, has_id, with_state, set_state, deleted}
use bookit.Schedules.Update.{changed}
use bookit.Schedules.Numbered.{OfSchedule, rows_from, seats_of-append, seats_of-rows_from}
use bookit.Schedules.Created.{create_schedule-Created}
use bookit.Schedules.WellFormed.{WellFormed, Unique, All-snoc}
use bookit.Schedules.Added.{find_live-Given, add_extra_seats-Grown}
use bookit.Schedules.Rows.{All-update_where, find_where-All, hall, bare, hall-update_seats}
use bookit.Schedules.Requests.{
  Request, creates, adds_seats, updates_seats, updates, starts, closes, deletes, handle, run,
  start_schedule-Moved, close_schedule-Moved, delete_schedule-keeps, update_schedule-keeps,
  update_schedule_seats-keeps, handle-WellFormed,
}

-- The live rows of a schedule have `P`.
abbrev pub AllLive : (Schedule → Type 0) → ℤ → List Schedule → Type 0
AllLive P s = All (λ r. live s r ≡ true → P r)

-- An id that the sequence has given.
abbrev pub IsOld : ℤ → ℕ → Type 0
IsOld s next = (n : ℕ) → next ≤ n → (s ==ℤ pos n) ≡ false

live_id : (s : ℤ) (r : Schedule) → live s r ≡ true → (r.id ==ℤ s) ≡ true
live_id s r h = ground (arith, h)

others_not_live :
    (P : Schedule → Type 0) (s : ℤ) (r : Schedule) (rows : List Schedule)
    → live s r ≡ true
    → All (λ q. (q.id ==ℤ r.id) ≡ false) rows
    → AllLive P s rows
others_not_live P s r [] h u = tt
others_not_live P s r (q ∷ rows) h u = (
  λ k. absurd (ground (arith, h, k, u.0, ==ℤ_iff r.id s, ==ℤ_iff q.id s, ==ℤ_iff q.id r.id)),
  others_not_live P s r rows h u.1,
)

-- What the row that is found has, each live row of the schedule has.
pub found-AllLive :
    (P : Schedule → Type 0) (s : ℤ) (rows : List Schedule) (r : Schedule)
    → Unique rows
    → find_where (live s) rows ≡ some r
    → P r
    → AllLive P s rows
unfolding find_where Unique
found-AllLive P s [] r u e h = tt
found-AllLive P s (x ∷ rows) r u e h = elim (Bool-cases (live s x)) [
  | inl t ↦
      let same : r ≡ x = cc (simp t at e) in
      (λ k. subst P (same) h, others_not_live P s x rows t u.0)
  | inr f ↦ (λ k. cc (f, k), found-AllLive P s rows r u.1 (simp f at e) h)
]

pub AllLive-snoc :
    (P : Schedule → Type 0) (s : ℤ) (db : Database) (new : NewSchedule)
    → IsOld s db.next_schedule
    → AllLive P s db.schedules
    → AllLive P s (insert_schedule new db).schedules
AllLive-snoc P s db new old h =
    All-snoc (λ r. live s r ≡ true → P r) db.schedules (schedule_row db.next_schedule new) h
      (λ k. absurd (
        ground (
          arith,
          k,
          old db.next_schedule (omega arith),
          ==ℤ_iff (pos db.next_schedule) s,
          ==ℤ_iff s (pos db.next_schedule),
        )))

not_own : (s : ℤ) (n : ℕ) → (s ==ℤ pos n) ≡ false → (pos n ==ℤ s) ≡ false
not_own s n h = ground (arith, h, ==ℤ_iff (pos n) s, ==ℤ_iff s (pos n))

hall-append :
    (s t : ℤ) (n : ℕ) (xs : List NewScheduleSeat) (rows : List ScheduleSeat)
    → OfSchedule s xs
    → (s ==ℤ t) ≡ false
    → hall t (rows ++ rows_from n xs) ≡ hall t rows
hall-append s t n xs rows own e = ap (map bare) (
    seats_of-append t rows (rows_from n xs)
    ∙ ap (λ l. seats_of t rows ++ l) (seats_of-rows_from s t n xs own e)
    ∙ append-nil (seats_of t rows))

-- A schedule that is not in its first state and whose seats, but for prices and statuses, are `seats`.
abbrev pub StartedRows : ℤ → List ScheduleSeat → Database → Type 0
StartedRows s seats db =
    AllLive (λ r. r.lifecycle_state ≢ scheduled) s db.schedules
    × (IsOld s db.next_schedule × (hall s db.schedule_seats ≡ seats))

pub IsOld-later : (s : ℤ) (n : ℕ) → IsOld s n → IsOld s (suc n)
IsOld-later s n old m h = old m (omega (arith, h))

-- A schedule that is still in its first state is another one.
not_started :
    (s t : ℤ) (db : Database) (r : Schedule)
    → AllLive (λ x. x.lifecycle_state ≢ scheduled) s db.schedules
    → find_live t db ≡ some r
    → r.lifecycle_state ≡ scheduled
    → (t ==ℤ s) ≡ false
not_started s t db r h f st = elim (Bool-cases (t ==ℤ s)) [
  | inl e ↦
      let same : t ≡ s = (==ℤ_iff t s).0 e in
      let found : find_live s db ≡ some r = subst (λ u. find_live u db ≡ some r) (same) f in
      let both =
        find_where-All (λ x. live s x ≡ true → x.lifecycle_state ≢ scheduled) (live s) db.schedules
          r h found in
      absurd (both.0 both.1 st)
  | inr e ↦ e
]

module _ (s : ℤ) (seats : List ScheduleSeat) where
  updated :
      (db : Database) (t : ℤ) (f : Schedule → Schedule)
      → ((r : Schedule) → live s (f r) ≡ true → live s r ≡ true)
      → ((r : Schedule)
          → (live s r ≡ true → r.lifecycle_state ≢ scheduled)
          → live s r ≡ true
          → (f r).lifecycle_state ≢ scheduled)
      → StartedRows s seats db
      → StartedRows s seats (record db { schedules = update_where (has_id t) f db.schedules })
  updated db t f k g h = (
    All-update_where (λ r. live s r ≡ true → r.lifecycle_state ≢ scheduled) (has_id t) f
        db.schedules (λ r old e l. g r old (k r l)) h.0,
    (h.1.0, h.1.1),
  )

  pub handle-StartedRows :
      (p : Parsers) (q : Request) (w : World)
      → WellFormed w.db
      → StartedRows s seats w.db
      → StartedRows s seats (handle p q w).db
  unfolding handle set_state
  handle-StartedRows p (creates env body) w wf h =
      create_schedule-Created (StartedRows s seats) w.db wf
        (record {
          refused = h;
          not_inserted = (h.0, (IsOld-later s w.db.next_schedule h.1.0, h.1.1));
          seatless = λ new. (
            AllLive-snoc (λ r. r.lifecycle_state ≢ scheduled) s w.db new h.1.0 h.0,
            (IsOld-later s w.db.next_schedule h.1.0, h.1.1),
          );
          seated = λ new xs next own c. (
            AllLive-snoc (λ r. r.lifecycle_state ≢ scheduled) s w.db new h.1.0 h.0,
            (
              IsOld-later s w.db.next_schedule h.1.0,
              hall-append (pos w.db.next_schedule) s w.db.next_seat xs w.db.schedule_seats own
                    (not_own s w.db.next_schedule (h.1.0 w.db.next_schedule (omega arith)))
                  ∙ h.1.1,
            ),
          );
        })
        p env body
  handle-StartedRows p (adds_seats t xs) w wf h =
      add_extra_seats-Grown (StartedRows s seats) t w.db wf
        (record {
          refused = h;
          added = λ r ys next f st own c. (
            h.0,
            (
              h.1.0,
              hall-append t s w.db.next_seat ys w.db.schedule_seats own
                    (not_started s t w.db r h.0 f st)
                  ∙ h.1.1,
            ),
          );
        })
        p.parse_price xs
  handle-StartedRows p (updates_seats t xs) w wf h =
      update_schedule_seats-keeps (StartedRows s seats) p.parse_price t xs w.db h
        (h.0, (h.1.0, hall-update_seats p.parse_price s t xs w.db.schedule_seats ∙ h.1.1))
  handle-StartedRows p (updates t body) w wf h =
      update_schedule-keeps (StartedRows s seats) p t body w.db h
        (λ c. updated w.db t (changed c) (λ r l. l) (λ r g l. g l) h)
  handle-StartedRows p (starts reply t) w wf h =
      start_schedule-Moved (StartedRows s seats) reply t w (record {
        same = h;
        to_opened = λ r f e. updated w.db t (with_state opened) (λ x l. l) (λ x g l y. cc y) h;
        to_closed = updated w.db t (with_state closed) (λ x l. l) (λ x g l y. cc y) h;
      })
  handle-StartedRows p (closes reply t) w wf h =
      close_schedule-Moved (StartedRows s seats) reply t w (record {
        same = h;
        to_opened = λ r f e. updated w.db t (with_state opened) (λ x l. l) (λ x g l y. cc y) h;
        to_closed = updated w.db t (with_state closed) (λ x l. l) (λ x g l y. cc y) h;
      })
  handle-StartedRows p (deletes reply t) w wf h =
      delete_schedule-keeps (StartedRows s seats) reply t w h
        (updated w.db t deleted (λ x l. cc l) (λ x g l y. cc y) h)

  run-Started :
      (p : Parsers) (qs : List Request) (w : World)
      → WellFormed w.db
      → StartedRows s seats w.db
      → StartedRows s seats (run p qs w).db
  unfolding run
  run-Started p [] w wf h = h
  run-Started p (q ∷ qs) w wf h =
      run-Started p qs (handle p q w) (handle-WellFormed p q w wf) (handle-StartedRows p q w wf h)

-- Once a schedule is not in its first state, none of the admin's requests adds, removes or renumbers a
-- seat of it: the rows of its seats stay the same but for their prices and statuses.
pub started_seats :
    (p : Parsers) (qs : List Request) (s : ℤ) (r : Schedule) (w : World)
    → WellFormed w.db
    → find_live s w.db ≡ some r
    → r.lifecycle_state ≢ scheduled
    → hall s (run p qs w).db.schedule_seats ≡ hall s w.db.schedule_seats
started_seats p qs s r w wf f st =
    (run-Started s (hall s w.db.schedule_seats) p qs w wf (
      found-AllLive (λ x. x.lifecycle_state ≢ scheduled) s w.db.schedules r wf.unique f st,
      (find_live-Given s w.db.next_schedule w.db.schedules r wf.given f, refl),
    )).1.1
