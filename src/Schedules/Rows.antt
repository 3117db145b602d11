-- ===== src/Schedules/Rows.antt =====
-- What an UPDATE of schedules or of seats leaves as it was.
use bookit.Common.{
  ℕ, ◌≡◌, refl, sym, ap, subst, ◌∙◌, inl, inr, Bool, true, false, Option, none, some, List, [], ◌∷◌,
  ℤ, pos, ◌==ℤ◌, if◌then◌else◌, map, All, Bool-cases, if_lem,
}
use bookit.Payment.Tables.{SeatStatus, available, find_where, update_where}
use bookit.Schedules.Tables.{Schedule, ScheduleSeat, Database, seats_of, select_where}
use bookit.Schedules.Numbered.{Numbered, Counts, place}
use bookit.Schedules.WellFormed.{WellFormed, Given, Unique}
use bookit.Schedules.Update.{
  UpdateSeatInput, set_price, set_status, update_seats, then_parse, listed_seat,
}
use bookit.Common.{String}

pub All-update_where {ℓ κ} :
    {A : Type ℓ} (P : A → Type κ) (p : A → Bool) (f : A → A) (xs : List A)
    → ((x : A) → P x → p x ≡ true → P (f x))
    → All P xs
    → All P (update_where p f xs)
unfolding update_where
All-update_where P p f [] g h = tt
All-update_where P p f (x ∷ xs) g h =
    (if_lem P (p x) (f x) x (g x h.0) (λ e. h.0), All-update_where P p f xs g h.1)

-- A row that is found has what all rows have, and is one that was asked for.
pub find_where-All {ℓ κ} :
    {A : Type ℓ} (P : A → Type κ) (p : A → Bool) (xs : List A) (a : A)
    → All P xs
    → find_where p xs ≡ some a
    → P a × (p a ≡ true)
unfolding find_where
find_where-All P p [] a h e = cc e
find_where-All P p (x ∷ xs) a h e = elim (Bool-cases (p x)) [
  | inl t ↦ let same : x ≡ a = cc (simp t at e) in subst (λ b. P b × (p b ≡ true)) (same) (h.0, t)
  | inr f ↦ find_where-All P p xs a h.1 (simp f at e)
]

-- A column's update leaves the ids.
abbrev pub KeepsId : (Schedule → Schedule) → Type 0
KeepsId f = (r : Schedule) → (f r).id ≡ r.id

other_ids-update_where :
    (i : ℤ) (p : Schedule → Bool) (f : Schedule → Schedule) (rows : List Schedule)
    → KeepsId f
    → All (λ q. (q.id ==ℤ i) ≡ false) rows
    → All (λ q. (q.id ==ℤ i) ≡ false) (update_where p f rows)
other_ids-update_where i p f rows k h =
    All-update_where (λ q. (q.id ==ℤ i) ≡ false) p f rows (λ x e t. ap (λ j. j ==ℤ i) (k x) ∙ e) h

Unique-update_where :
    (p : Schedule → Bool) (f : Schedule → Schedule) (rows : List Schedule)
    → KeepsId f
    → Unique rows
    → Unique (update_where p f rows)
unfolding Unique update_where
Unique-update_where p f [] k u = tt
Unique-update_where p f (r ∷ rows) k u = (
  if_lem (λ x. All (λ q. (q.id ==ℤ x.id) ≡ false) (update_where p f rows)) (p r) (f r) r
      (λ t.
        other_ids-update_where (f r).id p f rows k
          (subst (λ i. All (λ q. (q.id ==ℤ i) ≡ false) rows) (sym (k r)) u.0))
      (λ e. other_ids-update_where r.id p f rows k u.0),
  Unique-update_where p f rows k u.1,
)

pub schedules-WellFormed :
    (p : Schedule → Bool) (f : Schedule → Schedule) (db : Database)
    → KeepsId f
    → WellFormed db
    → WellFormed (record db { schedules = update_where p f db.schedules })
schedules-WellFormed p f db k w = record {
  unique = Unique-update_where p f db.schedules k w.unique;
  given =
      All-update_where (Given db.next_schedule) p f db.schedules
        (λ x g t m h. ap (λ j. j ==ℤ pos m) (k x) ∙ g m h) w.given;
  numbered = w.numbered;
  unborn = w.unborn;
}

-- A seat but for its price and its status.
abbrev pub bare : ScheduleSeat → ScheduleSeat
bare r = record r { price = 0; status = available }

-- The seats of a schedule, but for their prices and statuses.
abbrev pub hall : ℤ → List ScheduleSeat → List ScheduleSeat
hall s rows = map bare (seats_of s rows)

hall-update_where :
    (s : ℤ) (p : ScheduleSeat → Bool) (f : ScheduleSeat → ScheduleSeat) (rows : List ScheduleSeat)
    → ((r : ScheduleSeat) → bare (f r) ≡ bare r)
    → hall s (update_where p f rows) ≡ hall s rows
unfolding update_where seats_of select_where
hall-update_where s p f [] k = refl
hall-update_where s p f (r ∷ rows) k =
    let ih = hall-update_where s p f rows k in
    let own : bare (if p r then f r else r) ≡ bare r =
      if_lem (λ x. bare x ≡ bare r) (p r) (f r) r (λ t. k r) (λ e. refl) in
    let same : ((if p r then f r else r).schedule_id ==ℤ s) ≡ (r.schedule_id ==ℤ s) =
      ap (λ x. x.schedule_id ==ℤ s) own in
    elim (Bool-cases (r.schedule_id ==ℤ s)) [
      | inl e ↦ simp (same, e) (λ i. own i ∷ ih i)
      | inr e ↦ simp (same, e) ih
    ]

hall-set_price :
    (s t i : ℤ) (o : Option ℕ) (rows : List ScheduleSeat)
    → hall s (set_price t i o rows) ≡ hall s rows
unfolding set_price
hall-set_price s t i none rows = refl
hall-set_price s t i (some price) rows = hall-update_where s (listed_seat t i) _ rows (λ r. refl)

hall-set_status :
    (s t i : ℤ) (o : Option SeatStatus) (rows : List ScheduleSeat)
    → hall s (set_status t i o rows) ≡ hall s rows
unfolding set_status
hall-set_status s t i none rows = refl
hall-set_status s t i (some status) rows = hall-update_where s (listed_seat t i) _ rows (λ r. refl)

pub hall-update_seats :
    (parse_price : String → Option ℕ) (s t : ℤ) (xs : List UpdateSeatInput)
    (rows : List ScheduleSeat)
    → hall s (update_seats parse_price t xs rows) ≡ hall s rows
unfolding update_seats
hall-update_seats parse_price s t [] rows = refl
hall-update_seats parse_price s t (x ∷ xs) rows =
    hall-update_seats parse_price s t xs _
    ∙ hall-set_status s t x.id x.status _
    ∙ hall-set_price s t x.id (then_parse parse_price x.price) rows

places_hall : (rows : List ScheduleSeat) → map place (map bare rows) ≡ map place rows
places_hall [] = refl
places_hall (r ∷ rows) = ap (λ l. place r ∷ l) (places_hall rows)

pub same_hall-Numbered :
    (s : ℤ) (rows more : List ScheduleSeat)
    → hall s more ≡ hall s rows
    → Numbered s rows
    → Numbered s more
unfolding Numbered
same_hall-Numbered s rows more e c =
    subst (Counts 1 [])
      (sym (places_hall (seats_of s rows)) ∙ ap (map place) (sym e) ∙ places_hall (seats_of s more))
      c

hall_none : (rows : List ScheduleSeat) → map bare rows ≡ [] → rows ≡ []
hall_none [] e = refl
hall_none (r ∷ rows) e = cc e

pub seats-WellFormed :
    (db : Database) (more : List ScheduleSeat)
    → ((s : ℤ) → hall s more ≡ hall s db.schedule_seats)
    → WellFormed db
    → WellFormed (record db { schedule_seats = more })
seats-WellFormed db more e w = record {
  unique = w.unique;
  given = w.given;
  numbered = λ s. same_hall-Numbered s db.schedule_seats more (e s) (w.numbered s);
  unborn = λ n h. hall_none _ (e (pos n) ∙ ap (map bare) (w.unborn n h));
}
