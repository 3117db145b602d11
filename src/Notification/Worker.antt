-- ===== src/Notification/Worker.antt =====
-- `process_messages` of apps/notification-worker/src/consumer.rs: what becomes of one delivery. What
-- only goes into the text of a PDF or of a mail (amount, venue, time, seat labels) is left out.
use bookit.Common.{
  ℕ, Bool, true, false, ◌&&◌, Option, none, some, List, ◌∷◌, ℤ, ◌==◌, if◌then◌else◌, String,
}
use bookit.Payment.Tables.{
  Ticket, active, ticket_cancelled, Audit, Action, ticket_created, booking_email_sent,
  order_completed, ticket_was_cancelled, Database, update_where, find_where, is_found,
}
use bookit.Payment.Intent.{as_i32}
use bookit.Payment.Commit.{ticket_of}
use bookit.Payment.Processor.{or_zero, or_else, Settlement, ack, nack}

-- The text of `event_type`; the two first are treated alike.
pub data NoticeType : Type 0 where
  order_completed_notice booking_success ticket_cancelled_notice other_notice : NoticeType

pub record Notice : Type 0 where
  pub event_type : NoticeType
  -- none where the text is no UUID
  pub order_id : Option ℕ
  pub user_id : Option ℤ
  pub schedule_id : Option ℤ
  pub showtime_id : Option ℤ

pub data Mail : Type 0 where
  -- to the address of a user, with the URL of the ticket
  booking_mail : ℕ → ℤ → String → Mail
  cancellation_mail : Option ℕ → ℤ → Mail

-- What a delivery meets: a connection to the database, the answers to the two SELECTs, the PDF that is
-- generated and uploaded, whether the transaction is accepted, the mail is sent, and the last INSERT
-- is done.
pub record Post : Type 0 where
  pub connects : Bool
  pub finds_ticket : Bool
  pub finds_audit : Bool
  pub pdf : Option String
  pub accepts : Bool
  pub mails : Bool
  pub records : Bool

pub record Office : Type 0 where
  pub database : Database
  pub mails : List Mail

abbrev pub is_email_sent : Action → Bool
is_email_sent booking_email_sent = true
is_email_sent order_completed = false
is_email_sent ticket_was_cancelled = false
is_email_sent ticket_created = false

abbrev pub emailed : ℕ → Audit → Bool
emailed i a = (a.order_id == i) && is_email_sent a.action

abbrev pub is_inactive : Option Ticket → Bool
is_inactive none = false
is_inactive (some t) = elim t.status [ active ↦ false | ticket_cancelled ↦ true ]

-- `valid` is valid_pdf_url, which asks a library for the parts of a URL.
abbrev pub existing_pdf : (String → Bool) → Option Ticket → Option String
existing_pdf valid none = none
existing_pdf valid (some t) = if valid t.pdf_url then some t.pdf_url else none

abbrev pub pdf_for : Option String → Option String → Option String
pdf_for (some url) generated = some url
pdf_for none generated = generated

abbrev pub put_url : String → Ticket → Ticket
put_url url t = record t { pdf_url = url }

abbrev pub new_ticket : ℕ → ℤ → String → Ticket
new_ticket i schedule url = record {
  order_id = i;
  schedule_id = schedule;
  status = active;
  pdf_url = url;
}

-- The transaction: the URL of the ticket that was found, or a new ticket with its audit entry; a
-- ticket of the order that has come in meanwhile is an error.
unfoldable pub save_ticket : Bool → ℕ → ℤ → ℤ → String → Option Ticket → Database → Option Database
save_ticket false i user schedule url existing db = none
save_ticket true i user schedule url (some t) db =
    some (record db { tickets = update_where (ticket_of i) (put_url url) db.tickets })
save_ticket true i user schedule url none db =
    if is_found (find_where (ticket_of i) db.tickets)
    then none
    else some (record db {
      tickets = new_ticket i schedule url ∷ db.tickets;
      user_audits =
          record { user_id = user; action = ticket_created; order_id = i } ∷ db.user_audits;
    })

abbrev pub audit_email : ℕ → ℤ → Database → Database
audit_email i user db = record db {
  user_audits =
      record { user_id = user; action = booking_email_sent; order_id = i } ∷ db.user_audits;
}

-- After the transaction: whether the mail is sent, and whether its sending is recorded.
unfoldable pub mail_booking : Bool → Bool → ℕ → ℤ → String → Database → Office → Office × Settlement
mail_booking false records i user url db w = (record w { database = db }, nack)
mail_booking true true i user url db w =
    (record { database = audit_email i user db; mails = booking_mail i user url ∷ w.mails }, ack)
mail_booking true false i user url db w =
    (record { database = db; mails = booking_mail i user url ∷ w.mails }, nack)

unfoldable pub send_booking : Post → ℕ → ℤ → String → Option Database → Office → Office × Settlement
send_booking p i user url none w = (w, nack)
send_booking p i user url (some db) w = mail_booking p.mails p.records i user url db w

unfoldable pub make_ticket :
    Post → ℕ → ℤ → ℤ → Option Ticket → Option String → Office → Office × Settlement
make_ticket p i user schedule existing none w = (w, nack)
make_ticket p i user schedule existing (some url) w =
    send_booking p i user url (save_ticket p.accepts i user schedule url existing w.database) w

-- After the two SELECTs: a mail that is recorded and a ticket that is not active end the delivery.
unfoldable pub after_lookups :
    (String → Bool) → Post → ℕ → ℤ → ℤ → Option Ticket → Bool → Office → Office × Settlement
after_lookups valid p i user schedule existing true w = (w, ack)
after_lookups valid p i user schedule existing false w =
    if is_inactive existing
    then (w, ack)
    else make_ticket p i user schedule existing (pdf_for (existing_pdf valid existing) p.pdf) w

unfoldable pub booking : (String → Bool) → Post → ℤ → ℤ → Option ℕ → Office → Office × Settlement
booking valid p user schedule none w = (w, ack)
booking valid p user schedule (some i) w =
    if p.connects && (p.finds_ticket && p.finds_audit)
    then after_lookups valid p i user schedule (find_where (ticket_of i) w.database.tickets)
        (is_found (find_where (emailed i) w.database.user_audits)) w
    else (w, nack)

unfoldable pub cancellation_notice : Post → ℤ → Option ℕ → Office → Office × Settlement
cancellation_notice p user order w =
    if p.connects && p.mails
    then (record w { mails = cancellation_mail order user ∷ w.mails }, ack)
    else (w, nack)

unfoldable pub by_type :
    (String → Bool) → Post → NoticeType → ℤ → ℤ → Option ℕ → Office → Office × Settlement
by_type valid p order_completed_notice user schedule order w = booking valid p user schedule order w
by_type valid p booking_success user schedule order w = booking valid p user schedule order w
by_type valid p ticket_cancelled_notice user schedule order w = cancellation_notice p user order w
by_type valid p other_notice user schedule order w = (w, ack)

unfoldable pub deliver : (String → Bool) → Post → Option Notice → Office → Office × Settlement
deliver valid p none w = (w, nack)
deliver valid p (some n) w =
    by_type valid p n.event_type (as_i32 (or_zero n.user_id))
      (as_i32 (or_zero (or_else n.schedule_id n.showtime_id))) n.order_id w
