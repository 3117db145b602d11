-- ===== src/Notification/Again.antt =====
-- A delivery to the notification worker that comes again.
use bookit.Common.{
  ℕ, ◌≡◌, refl, ap, ◌∙◌, inl, inr, ◌⊎◌, Bool, true, false, ◌&&◌, Option, none, some, ℤ, String,
  Bool-cases, arith,
}
use bookit.Payment.Tables.{Ticket, Database, find_where, is_found}
use bookit.Payment.Commit.{ticket_of}
use bookit.Payment.Ledger.{Steps}
use bookit.Payment.Processor.{ack}
use bookit.Notification.Worker.{
  Post, Office, emailed, is_inactive, after_lookups, booking, make_ticket, send_booking,
  mail_booking, audit_email,
}
use bookit.Notification.Settled.{Settled, Settled-Steps}

audit_email-Settled : (i : ℕ) (user : ℤ) (db : Database) → Settled i (audit_email i user db)
unfolding find_where
audit_email-Settled i user db = inl (ground arith)

mail_booking-Settled :
    (mails records : Bool) (i : ℕ) (user : ℤ) (url : String) (db : Database) (w : Office)
    → (mail_booking mails records i user url db w).1 ≡ ack
    → Settled i (mail_booking mails records i user url db w).0.database
unfolding mail_booking
mail_booking-Settled true true i user url db w h = audit_email-Settled i user db
mail_booking-Settled true false i user url db w h = absurd (cc h)
mail_booking-Settled false records i user url db w h = absurd (cc h)

send_booking-Settled :
    (p : Post) (i : ℕ) (user : ℤ) (url : String) (saved : Option Database) (w : Office)
    → (send_booking p i user url saved w).1 ≡ ack
    → Settled i (send_booking p i user url saved w).0.database
unfolding send_booking
send_booking-Settled p i user url none w h = absurd (cc h)
send_booking-Settled p i user url (some db) w h =
    mail_booking-Settled p.mails p.records i user url db w h

make_ticket-Settled :
    (p : Post) (i : ℕ) (user schedule : ℤ) (existing : Option Ticket) (url : Option String)
    (w : Office)
    → (make_ticket p i user schedule existing url w).1 ≡ ack
    → Settled i (make_ticket p i user schedule existing url w).0.database
unfolding make_ticket
make_ticket-Settled p i user schedule existing none w h = absurd (cc h)
make_ticket-Settled p i user schedule existing (some url) w h =
    send_booking-Settled p i user url _ w h

-- What the two SELECTs gave is what stands in the tables.
after_lookups-Settled :
    (valid : String → Bool) (p : Post) (i : ℕ) (user schedule : ℤ) (existing : Option Ticket)
    (sent : Bool) (w : Office)
    → find_where (ticket_of i) w.database.tickets ≡ existing
    → is_found (find_where (emailed i) w.database.user_audits) ≡ sent
    → (after_lookups valid p i user schedule existing sent w).1 ≡ ack
    → Settled i (after_lookups valid p i user schedule existing sent w).0.database
unfolding after_lookups
after_lookups-Settled valid p i user schedule existing true w e k = λ h. inl k
after_lookups-Settled valid p i user schedule existing false w e k =
    elim (Bool-cases (is_inactive existing)) [
      | inl x ↦ simp x (λ h. inr (ap is_inactive e ∙ x))
      | inr x ↦ simp x (make_ticket-Settled p i user schedule existing _ w)
    ]

booking-Settled :
    (valid : String → Bool) (p : Post) (i : ℕ) (user schedule : ℤ) (w : Office)
    → (booking valid p user schedule (some i) w).1 ≡ ack
    → Settled i (booking valid p user schedule (some i) w).0.database
unfolding booking
booking-Settled valid p i user schedule w =
    elim (Bool-cases (p.connects && (p.finds_ticket && p.finds_audit))) [
      | inl x ↦ simp x (after_lookups-Settled valid p i user schedule _ _ w refl refl)
      | inr x ↦ simp x (λ h. absurd (cc h))
    ]

after_lookups_unchanged :
    (valid : String → Bool) (p : Post) (i : ℕ) (user schedule : ℤ) (existing : Option Ticket)
    (sent : Bool) (w : Office)
    → (sent ≡ true) ⊎ (is_inactive existing ≡ true)
    → (after_lookups valid p i user schedule existing sent w).0 ≡ w
unfolding after_lookups
after_lookups_unchanged valid p i user schedule existing true w h = refl
after_lookups_unchanged valid p i user schedule existing false w (inl h) = absurd (cc h)
after_lookups_unchanged valid p i user schedule existing false w (inr h) = simp h refl

booking_unchanged :
    (valid : String → Bool) (p : Post) (i : ℕ) (user schedule : ℤ) (w : Office)
    → Settled i w.database
    → (booking valid p user schedule (some i) w).0 ≡ w
unfolding booking
booking_unchanged valid p i user schedule w h =
    elim (Bool-cases (p.connects && (p.finds_ticket && p.finds_audit))) [
      | inl x ↦ simp x (after_lookups_unchanged valid p i user schedule _ _ w h)
      | inr x ↦ simp x refl
    ]

-- A booking that was acknowledged is not done again: after any transactions of payments, the event of
-- the same order, delivered once more and whatever it meets then, changes no table and sends no mail.
pub booking_again :
    (valid : String → Bool) (p p' : Post) (i : ℕ) (user user' schedule schedule' : ℤ)
    (w w' : Office)
    → (booking valid p user schedule (some i) w).1 ≡ ack
    → Steps (booking valid p user schedule (some i) w).0.database w'.database
    → (booking valid p' user' schedule' (some i) w').0 ≡ w'
booking_again valid p p' i user user' schedule schedule' w w' h later =
    booking_unchanged valid p' i user' schedule' w'
      (Settled-Steps i _ w'.database later (booking-Settled valid p i user schedule w h))
