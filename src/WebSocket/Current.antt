-- ===== src/WebSocket/Current.antt =====
-- The cached metadata under the admin's requests and further requests of users, in any order.
use bookit.Common.{
  ℕ, ◌≡◌, ◌≢◌, refl, sym, subst, ◌∙◌, inl, inr, Option, none, some, List, [], ◌∷◌, map, ℤ, ◌==ℤ◌,
  ==ℤ_iff, ltb, ◌==◌, length, All, Bool-cases, if_lem,
}
use bookit.Schedules.Tables.{
  LifecycleState, scheduled, opened, closed, Schedule, ScheduleSeat, Database, seats_of,
}
use bookit.Schedules.Create.{max_i32}
use bookit.Schedules.Extra.{find_live}
use bookit.Schedules.InOrder.{length-map}
use bookit.Schedules.WellFormed.{WellFormed}
use bookit.Schedules.Added.{find_live-Given}
use bookit.Schedules.Rows.{hall, bare}
use bookit.Schedules.Started.{StartedRows, found-AllLive}
use bookit.SeatMap.Counts.{get_count}
use bookit.WebSocket.Metadata.{
  Result, ok, err, ScheduleSeatMetadata, collect_indices, metadata_of, with_rows, load_by_state,
  load_found, load_metadata, Cells, store, get_or_load,
}

-- The metadata is that of the schedule's seats, which do not change any more.
abbrev pub IsCurrent : Database → ℤ × ScheduleSeatMetadata → Type 0
IsCurrent db (s, m) =
    (seats : List ScheduleSeat) × (StartedRows s seats db × (m ≡ metadata_of seats))

collect_indices-bare :
    (m : List (ℤ × ℕ)) (rows : List ScheduleSeat)
    → collect_indices m (map bare rows) ≡ collect_indices m rows
unfolding collect_indices
collect_indices-bare m [] = refl
collect_indices-bare m (r ∷ rows) = collect_indices-bare ((r.id, r.seat_index) ∷ m) rows

pub metadata_of-bare : (rows : List ScheduleSeat) → metadata_of (map bare rows) ≡ metadata_of rows
metadata_of-bare rows = λ i. record {
  total_seat_count = length-map bare rows i;
  seat_indices = collect_indices-bare [] rows i;
}

-- What an answer of `verified_seat_metadata` or of the load has, where it is no error.
abbrev pub Says {ℓ κ} : {A : Type ℓ} → (A → Type κ) → Result A → Type κ
Says P (ok a) = P a
Says P (err e) = Unit

IsOpen : Database → ℤ → ScheduleSeatMetadata → Type 0
IsOpen db s m =
    (r : Schedule) × ((find_live s db ≡ some r)
      × ((r.lifecycle_state ≡ opened) × (m ≡ metadata_of (seats_of s db.schedule_seats))))

with_rows-Says :
    (P : ScheduleSeatMetadata → Type 0) (rows : List ScheduleSeat)
    → P (metadata_of rows)
    → Says P (with_rows rows)
with_rows-Says P rows h =
    if_lem (Says P) (ltb max_i32 (length rows)) _ _ (λ e. tt)
      (λ e. if_lem (Says P) (length rows == 0) _ _ (λ f. tt) (λ f. h))

load_by_state-IsOpen :
    (db : Database) (s : ℤ) (r : Schedule) (st : LifecycleState)
    → find_live s db ≡ some r
    → r.lifecycle_state ≡ st
    → Says (IsOpen db s) (load_by_state st (seats_of s db.schedule_seats))
unfolding IsOpen
load_by_state-IsOpen db s r scheduled f e = tt
load_by_state-IsOpen db s r closed f e = tt
load_by_state-IsOpen db s r opened f e =
    with_rows-Says (IsOpen db s) (seats_of s db.schedule_seats) (r, (f, (e, refl)))

load_found-IsOpen :
    (db : Database) (s : ℤ) (found : Option Schedule)
    → find_live s db ≡ found
    → Says (IsOpen db s) (load_found found (seats_of s db.schedule_seats))
load_found-IsOpen db s none f = tt
load_found-IsOpen db s (some r) f = load_by_state-IsOpen db s r r.lifecycle_state f refl

open-IsCurrent :
    (db : Database) (s : ℤ) (m : ScheduleSeatMetadata)
    → WellFormed db
    → IsOpen db s m
    → IsCurrent db (s, m)
unfolding IsOpen
open-IsCurrent db s m w (r, (f, (st, e))) =
    let started : r.lifecycle_state ≢ scheduled = λ k. cc (st, k) in
    (
      hall s db.schedule_seats,
      (
        (
          found-AllLive (λ x. x.lifecycle_state ≢ scheduled) s db.schedules r w.unique f started,
          (find_live-Given s db.next_schedule db.schedules r w.given f, refl),
        ),
        e ∙ sym (metadata_of-bare (seats_of s db.schedule_seats)),
      ),
    )

Says-map :
    (P Q : ScheduleSeatMetadata → Type 0) (r : Result ScheduleSeatMetadata)
    → ((m : ScheduleSeatMetadata) → P m → Q m)
    → Says P r
    → Says Q r
Says-map P Q (ok m) f h = f m h
Says-map P Q (err e) f h = tt

load_metadata-IsCurrent :
    (db : Database) (s : ℤ) → WellFormed db → Says (λ m. IsCurrent db (s, m)) (load_metadata db s)
unfolding load_metadata
load_metadata-IsCurrent db s w =
    Says-map (IsOpen db s) (λ m. IsCurrent db (s, m)) _ (λ m h. open-IsCurrent db s m w h)
      (load_found-IsOpen db s (find_live s db) refl)

-- Every cell is current.
abbrev pub AllCurrent : Database → Cells → Type 0
AllCurrent db = All (IsCurrent db)

get_count-IsCurrent :
    (db : Database) (s : ℤ) (m : ScheduleSeatMetadata) (cells : Cells)
    → AllCurrent db cells
    → get_count s cells ≡ some m
    → IsCurrent db (s, m)
unfolding get_count
get_count-IsCurrent db s m [] h e = cc e
get_count-IsCurrent db s m ((t, n) ∷ cells) h e = elim (Bool-cases (t ==ℤ s)) [
  | inl y ↦
      let here : t ≡ s = (==ℤ_iff t s).0 y in
      let same : n ≡ m = cc (simp y at e) in
      subst (λ k. IsCurrent db (s, k)) (same) (subst (λ u. IsCurrent db (u, n)) (here) h.0)
  | inr y ↦ get_count-IsCurrent db s m cells h.1 (simp y at e)
]

store-IsCurrent :
    (db : Database) (s : ℤ) (r : Result ScheduleSeatMetadata) (cells : Cells)
    → Says (λ m. IsCurrent db (s, m)) r
    → AllCurrent db cells
    → AllCurrent db (store s r cells).0 × Says (λ m. IsCurrent db (s, m)) (store s r cells).1
store-IsCurrent db s (ok m) cells h c = ((h, c), h)
store-IsCurrent db s (err e) cells h c = (c, tt)

pub get_or_load-IsCurrent :
    (db : Database) (s : ℤ) (o : Option ScheduleSeatMetadata) (cells : Cells)
    → WellFormed db
    → get_count s cells ≡ o
    → AllCurrent db cells
    → AllCurrent db (get_or_load db s o cells).0
      × Says (λ m. IsCurrent db (s, m)) (get_or_load db s o cells).1
get_or_load-IsCurrent db s none cells w e c =
    store-IsCurrent db s (load_metadata db s) cells (load_metadata-IsCurrent db s w) c
get_or_load-IsCurrent db s (some m) cells w e c = (c, get_count-IsCurrent db s m cells c e)
