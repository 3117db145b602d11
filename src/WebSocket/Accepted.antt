-- ===== src/WebSocket/Accepted.antt =====
-- A request that the WebSocket server lets through to the gateway, after any number of the admin's
-- requests and of users' requests since the server started.
use bookit.Common.{
  ℕ, suc, ◌+◌, ◌≤◌, ◌<◌, ◌≡◌, refl, sym, ap, subst, ◌∙◌, inl, inr, true, Option, none, some, List,
  [], ◌∷◌, map, ℤ, pos, ◌==ℤ◌, ==ℤ_iff, ltb, ==_iff, length, All, All-map, arith, Bool-cases,
  if_lem,
}
use bookit.Gateway.Actor.{slot_index}
use bookit.Schedules.Tables.{ScheduleSeat, Database, seats_of, Key}
use bookit.Schedules.Create.{Parsers}
use bookit.Schedules.Lifecycle.{World}
use bookit.Schedules.Numbered.{place, Counts, Numbered}
use bookit.Schedules.WellFormed.{WellFormed}
use bookit.Schedules.Requests.{Request, handle, handle-WellFormed}
use bookit.Schedules.Started.{handle-StartedRows}
use bookit.SeatMap.Counts.{get_count}
use bookit.WebSocket.Metadata.{
  Result, ok, err, HookError, ScheduleSeatMetadata, metadata_of, Cells, check_pairs, unless_error,
  check_metadata, checked, is_aligned, verified_seat_metadata,
}
use bookit.WebSocket.Verified.{has_pair, PairsAmong, check_pairs-PairsAmong}
use bookit.WebSocket.Current.{IsCurrent, AllCurrent, Says, metadata_of-bare, get_or_load-IsCurrent}

-- The indices are those of the rows of the schedule, and the total is their number.
abbrev pub Matches : List ScheduleSeat → List ℤ → List ℤ → ℤ → List ℤ × ℕ → Type 0
Matches rows ss xs total (ys, n) =
    (ys ≡ xs)
    × ((length ss ≡ length xs) × ((n ≡ length rows) × ((pos n ≡ total) × PairsAmong rows ss xs)))

is_aligned_lem : (ss xs : List ℤ) → is_aligned ss xs ≡ true → length ss ≡ length xs
is_aligned_lem [] xs h = cc h
is_aligned_lem (s ∷ ss) xs h = (==_iff (length (s ∷ ss)) (length xs)).0 h

unless_error-Says :
    (P : List ℤ × ℕ → Type 0) (o : Option HookError) (xs : List ℤ) (n : ℕ)
    → (o ≡ none → P (xs, n))
    → Says P (unless_error o xs n)
unless_error-Says P none xs n f = f refl
unless_error-Says P (some e) xs n f = tt

check_metadata-Matches :
    (rows : List ScheduleSeat) (ss xs : List ℤ) (total : ℤ) (m : ScheduleSeatMetadata)
    → m ≡ metadata_of rows
    → length ss ≡ length xs
    → Says (Matches rows ss xs total) (check_metadata ss xs total (ok m))
check_metadata-Matches rows ss xs total m e l =
    subst (λ k. Says (Matches rows ss xs total) (check_metadata ss xs total (ok k))) (sym e)
      (if_lem (Says (Matches rows ss xs total)) (pos (length rows) ==ℤ total) _ _
        (λ t.
          unless_error-Says (Matches rows ss xs total)
            (check_pairs (metadata_of rows).seat_indices ss xs) xs (length rows)
            (λ f. (
              refl,
              (
                l,
                (
                  refl,
                  ((==ℤ_iff (pos (length rows)) total).0 t, check_pairs-PairsAmong rows ss xs f),
                ),
              ),
            )))
        (λ t. tt))

current_rows :
    (db : Database) (s : ℤ) (m : ScheduleSeatMetadata)
    → IsCurrent db (s, m)
    → m ≡ metadata_of (seats_of s db.schedule_seats)
current_rows db s m (seats, (started, e)) =
    e ∙ ap metadata_of (sym started.1.1) ∙ metadata_of-bare (seats_of s db.schedule_seats)

checked-Matches :
    (db : Database) (s : ℤ) (ss xs : List ℤ) (total : ℤ) (r : Cells × Result ScheduleSeatMetadata)
    → length ss ≡ length xs
    → AllCurrent db r.0 × Says (λ m. IsCurrent db (s, m)) r.1
    → AllCurrent db (checked ss xs total r).0
      × Says (Matches (seats_of s db.schedule_seats) ss xs total) (checked ss xs total r).1
checked-Matches db s ss xs total (cells, ok m) l c = (
  c.0,
  check_metadata-Matches (seats_of s db.schedule_seats) ss xs total m (current_rows db s m c.1) l,
)
checked-Matches db s ss xs total (cells, err e) l c = (c.0, tt)

verified-Matches :
    (db : Database) (s : ℤ) (ss xs : List ℤ) (total : ℤ) (cells : Cells)
    → WellFormed db
    → AllCurrent db cells
    → AllCurrent db (verified_seat_metadata db s ss xs total cells).0
      × Says
          (Matches (seats_of s db.schedule_seats) ss xs total)
          (verified_seat_metadata db s ss xs total cells).1
unfolding verified_seat_metadata
verified-Matches db s ss xs total cells w c =
    if_lem
      (λ (r : Cells × Result (List ℤ × ℕ)).
        AllCurrent db r.0 × Says (Matches (seats_of s db.schedule_seats) ss xs total) r.1)
      (is_aligned ss xs) _ _
      (λ t.
        checked-Matches db s ss xs total _ (is_aligned_lem ss xs t)
          (get_or_load-IsCurrent db s (get_count s cells) cells w refl c))
      (λ t. (c, tt))

-- A request of an admin to the HTTP server, or one of a user to the WebSocket server.
pub data Step : Type 0 where
  admin : Request → Step
  asks : ℤ → List ℤ → List ℤ → ℤ → Step

pub record Server : Type 0 where
  pub world : World
  pub cells : Cells

unfoldable pub step : Parsers → Step → Server → Server
step p (admin q) v = record v { world = handle p q v.world }
step p (asks s ss xs total) v = record v {
  cells = (verified_seat_metadata v.world.db s ss xs total v.cells).0;
}

unfoldable pub steps : Parsers → List Step → Server → Server
steps p [] v = v
steps p (x ∷ xs) v = steps p xs (step p x v)

record Sound (v : Server) : Type 0 where
  well_formed : WellFormed v.world.db
  current : AllCurrent v.world.db v.cells

still-IsCurrent :
    (p : Parsers) (q : Request) (w : World) (c : ℤ × ScheduleSeatMetadata)
    → WellFormed w.db
    → IsCurrent w.db c
    → IsCurrent (handle p q w).db c
still-IsCurrent p q w (s, m) wf (seats, (started, e)) =
    (seats, (handle-StartedRows s seats p q w wf started, e))

step-Sound : (p : Parsers) (x : Step) (v : Server) → Sound v → Sound (step p x v)
unfolding step
step-Sound p (admin q) v h = record {
  well_formed = handle-WellFormed p q v.world h.well_formed;
  current =
      All-map (IsCurrent v.world.db) (IsCurrent (handle p q v.world).db) v.cells
        (λ c k. still-IsCurrent p q v.world c h.well_formed k) h.current;
}
step-Sound p (asks s ss xs total) v h = record {
  well_formed = h.well_formed;
  current = (verified-Matches v.world.db s ss xs total v.cells h.well_formed h.current).0;
}

steps-Sound : (p : Parsers) (xs : List Step) (v : Server) → Sound v → Sound (steps p xs v)
unfolding steps
steps-Sound p [] v h = h
steps-Sound p (x ∷ xs) v h = steps-Sound p xs (step p x v) (step-Sound p x v h)

-- An index that the gateway's actor of `n` seats has a slot for.
abbrev pub HasSlot : ℕ → ℤ → Type 0
HasSlot n x = (i : ℕ) × (slot_index x n ≡ some i)

slot_of : (i k : ℕ) → suc i ≡ k → (x : ℤ) (n : ℕ) → x ≡ pos k → i < n → HasSlot n x
slot_of i k e x n f h =
    let t : ltb i n ≡ true = ground (arith, h) in
    subst (HasSlot n) (sym (f ∙ ap pos (sym e))) (i, simp t refl)

pair-HasSlot :
    (i n : ℕ) (seen : List Key) (s x : ℤ) (rows : List ScheduleSeat)
    → Counts (suc i) seen (map place rows)
    → i + length rows ≤ n
    → has_pair s x rows ≡ true
    → HasSlot n x
unfolding Counts
pair-HasSlot i n seen s x [] c h e = cc e
pair-HasSlot i n seen s x (r ∷ rows) c h e = elim (Bool-cases (pos r.seat_index ==ℤ x)) [
  | inl t ↦
      slot_of i r.seat_index (sym c.0) x n (sym ((==ℤ_iff (pos r.seat_index) x).0 t))
        (omega (arith, h))
  | inr t ↦ pair-HasSlot (suc i) n _ s x rows c.1.1 (omega (arith, h)) (ground (arith, e, t))
]

pairs-HasSlot :
    (s : ℤ) (rows : List ScheduleSeat) (ss xs : List ℤ)
    → Counts 1 [] (map place rows)
    → length ss ≡ length xs
    → PairsAmong rows ss xs
    → All (HasSlot (length rows)) xs
pairs-HasSlot s rows [] [] c l h = tt
pairs-HasSlot s rows [] (x ∷ xs) c l h = absurd (omega (arith, l))
pairs-HasSlot s rows (t ∷ ss) [] c l h = tt
pairs-HasSlot s rows (t ∷ ss) (x ∷ xs) c l h = (
  pair-HasSlot 0 (length rows) [] t x rows c (omega arith) h.0,
  pairs-HasSlot s rows ss xs c (omega (arith, l)) h.1,
)

Says-ok :
    (P : List ℤ × ℕ → Type 0) (r : Result (List ℤ × ℕ)) (a : List ℤ × ℕ) → Says P r → r ≡ ok a → P a
Says-ok P (ok b) a h e = subst P (cc e) h
Says-ok P (err x) a h e = cc e

-- Whatever admins and users have asked since the WebSocket server started with empty cells: where it
-- lets a request of a user through, each seat of the request is a row of the schedule as the table has
-- it now, with the index that the request gives; the total is the number of the schedule's rows; and the
-- gateway's actor of so many seats has a slot for each index.
pub accepted-Matches :
    (p : Parsers) (xs : List Step) (w : World) (s : ℤ) (ss is : List ℤ) (total : ℤ) (ys : List ℤ)
    (n : ℕ)
    → WellFormed w.db
    → (verified_seat_metadata
        (steps p xs (record { world = w; cells = [] })).world.db
        s
        ss
        is
        total
        (steps p xs (record { world = w; cells = [] })).cells).1
      ≡ ok (ys, n)
    → Matches
        (seats_of s (steps p xs (record { world = w; cells = [] })).world.db.schedule_seats)
        ss
        is
        total
        (ys, n)
      × All (HasSlot n) is
unfolding Numbered
accepted-Matches p xs w s ss is total ys n wf e =
    let v = steps p xs (record { world = w; cells = [] }) in
    let h =
      steps-Sound p xs (record { world = w; cells = [] })
        (record { well_formed = wf; current = tt }) in
    let rows = seats_of s v.world.db.schedule_seats in
    let m =
      Says-ok (Matches rows ss is total) _ (ys, n)
        (verified-Matches v.world.db s ss is total v.cells h.well_formed h.current).1 e in
    (
      m,
      subst (λ k. All (HasSlot k) is) (sym m.1.1.0)
          (pairs-HasSlot s rows ss is (h.well_formed.numbered s) m.1.0 m.1.1.1.1),
    )
