-- ===== src/Examples/Notification.antt =====
-- The notification worker: the mail for order 9, of user 42.
use bookit.Common.{◌≡◌, refl, true, some, [], pos}
use bookit.Payment.Tables.{find_where}
use bookit.Payment.Processor.{ack}
use bookit.Payment.Ledger.{done}
use bookit.Notification.Worker.{
  Post, Office, booking, after_lookups, make_ticket, save_ticket, send_booking, mail_booking,
}
use bookit.Notification.Again.{booking_again}
use bookit.Examples.Payment.{requested}

abbrev smooth : Post
smooth = record {
  connects = true;
  finds_ticket = true;
  finds_audit = true;
  pdf = some "https://tickets/9.pdf";
  accepts = true;
  mails = true;
  records = true;
}

abbrev office : Office
office = record { database = requested; mails = [] }

abbrev mailed : Office
mailed = (booking (λ url. true) smooth (pos 42) (pos 7) (some 9) office).0

acked : (booking (λ url. true) smooth (pos 42) (pos 7) (some 9) office).1 ≡ ack
unfolding booking after_lookups make_ticket save_ticket send_booking mail_booking find_where
acked = refl

booking_again_example : (booking (λ url. true) smooth (pos 42) (pos 7) (some 9) mailed).0 ≡ mailed
booking_again_example =
    booking_again (λ url. true) smooth smooth 9 (pos 42) (pos 42) (pos 7) (pos 7) office mailed
      acked (done mailed.database)
