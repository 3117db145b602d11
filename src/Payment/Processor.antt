-- ===== src/Payment/Processor.antt =====
-- `process_messages` of apps/payment-processor/src/consumer.rs: what becomes of one delivery. The
-- broadcasts of a room go to nobody in particular and are listed in the order in which they are sent.
use bookit.Common.{
  ℕ, zero, suc, Bool, true, ◌&&◌, not, Option, none, some, List, [], ◌∷◌, ℤ, pos, negsuc, ◌+ℤ◌,
  ◌==ℤ◌, if◌then◌else◌, String, length,
}
use bookit.Redis.Interface.{Redis}
use bookit.SeatLock.Cluster.{Env, Cluster}
use bookit.SeatLock.Scripts.{Request}
use bookit.SeatLock.Single.{
  get_lock_owner, user_holds_lock, release_lock, set_schedule_seat_bitmap_state_cluster,
}
use bookit.Payment.Tables.{PaymentRow, failed, Database, update_where, is_succeeded}
use bookit.Payment.Intent.{SeatPayload, as_i32, parse_seat_ids}
use bookit.Payment.Commit.{
  CheckoutCommit, CancellationCommit, order_exists, commit_checkout, commit_cancellation,
  has_row_id,
}
use bookit.Payment.Checkouts.{Checkouts, delete_keys}

-- The members of a message that are read: a text that is no UUID, and a number that is none, count as
-- absent; an absent amount, and one that is no decimal, is 0.
pub record Payload : Type 0 where
  pub is_cancellation : Bool
  pub order_id : Option ℕ
  pub payment_request_id : Option ℕ
  pub user_id : Option ℤ
  pub schedule_id : Option ℤ
  pub showtime_id : Option ℤ
  pub seats : SeatPayload
  pub amount : ℕ
  pub razorpay_payment_id : Option String

pub data Broadcast : Type 0 where
  -- channel "room:{schedule}", event "seat_booked" or "seat_unlocked", its seats and its user
  seats_booked seats_unlocked : ℤ → List ℤ → ℤ → Broadcast

-- Why a lock fails a checkout: there is none, another user has it, or its context key is missing.
pub data LockFailure : Type 0 where
  lock_not_found : ℤ → LockFailure
  locked_by : ℤ → ℤ → LockFailure
  context_not_found : ℤ → LockFailure

pub data Settlement : Type 0 where
  ack nack : Settlement

-- What a delivery meets: whether order_exists gets an answer, the transaction is accepted, the UPDATE
-- of a failed payment runs, the refund succeeds; each use of a connection to Redis; the new id; the
-- calls of the seat lock, by number.
pub record Surroundings : Type 0 where
  pub answers : Bool
  pub accepts : Bool
  pub updates : Bool
  pub refunds : Bool
  pub adjusts : Bool
  pub broadcasts : Bool
  pub deletes : ℤ → Bool
  pub new_id : ℕ
  pub lock_env : ℕ → Env
  pub release_env : ℕ → Env
  pub bitmap_env : ℕ → Env

abbrev pub or_zero : Option ℤ → ℤ
or_zero none = pos 0
or_zero (some x) = x

abbrev pub or_else : Option ℤ → Option ℤ → Option ℤ
or_else none y = y
or_else (some x) y = some x

-- The cached number of available seats of a schedule, where there is one.
abbrev pub Counters : Type 0
Counters = ℤ → Option ℤ

abbrev pub added : ℤ → Option ℤ → Option ℤ
added delta none = none
added delta (some n) = some (n +ℤ delta)

unfoldable pub adjust_cached_available_seats : Bool → ℤ → ℤ → Counters → Counters
adjust_cached_available_seats runs schedule delta m s =
    if runs && (schedule ==ℤ s) then added delta (m s) else m s

abbrev pub negated : ℕ → ℤ
negated zero = pos 0
negated (suc n) = negsuc n

abbrev pub fail_row : PaymentRow → PaymentRow
fail_row r = record r { status = failed }

abbrev pub open_row : ℕ → PaymentRow → Bool
open_row p r = has_row_id p r && not (is_succeeded r.status)

unfoldable pub fail_payment : ℕ → Database → Database
fail_payment p db = record db {
  payment_requests = update_where (open_row p) fail_row db.payment_requests;
}

-- What the two keys of a seat say, and then what the seats that follow say.
abbrev pub test_keys : ℤ → ℤ → Option ℤ → Bool → Option LockFailure → Option LockFailure
test_keys a user_id none ctx_ok later = some (lock_not_found a)
test_keys a user_id (some owner) ctx_ok later =
    if owner ==ℤ user_id
    then if ctx_ok then later else some (context_not_found a)
    else some (locked_by a owner)

module _ (R : Redis) where
  pub record World : Type 0 where
    pub database : Database
    pub cluster : Cluster R
    pub checkouts : Checkouts
    pub available : Counters
    pub rooms : List Broadcast

  abbrev pub request_of : ℤ → ℤ → ℤ → Request
  request_of schedule user_id a = record { showtime_id = schedule; seat_id = a; user_id = user_id }

  -- The test of both keys of each seat, in order; the first failure counts.
  unfoldable pub lock_failure : (ℕ → Env) → Cluster R → ℕ → ℤ → ℤ → List ℤ → Option LockFailure
  lock_failure env c n schedule user_id [] = none
  lock_failure env c n schedule user_id (a ∷ rest) =
      test_keys a user_id (get_lock_owner R (env n) (request_of schedule user_id a) c)
        (user_holds_lock R (env (suc n)) (request_of schedule user_id a) c)
        (lock_failure env c (suc (suc n)) schedule user_id rest)

  -- Each seat's lock is released and the seat marked as booked.
  unfoldable pub settle_seats : (ℕ → Env) → (ℕ → Env) → ℕ → ℤ → ℤ → List ℤ → Cluster R → Cluster R
  settle_seats releases bitmaps n schedule user_id [] c = c
  settle_seats releases bitmaps n schedule user_id (a ∷ rest) c =
      settle_seats releases bitmaps (suc n) schedule user_id rest (
        set_schedule_seat_bitmap_state_cluster R (bitmaps n) 0 schedule a 2
          (release_lock R (releases n) (request_of schedule user_id a) c).0)

  abbrev pub say : Bool → Broadcast → List Broadcast → List Broadcast
  say runs b rooms = if runs then b ∷ rooms else rooms

  -- After the transaction: none where it was not accepted. The checkout keys go in both cases.
  unfoldable pub after_checkout :
      Surroundings → ℤ → ℤ → List ℤ → Option Database → World → World × Settlement
  after_checkout l schedule user_id seats none w =
      (record w { checkouts = delete_keys l.deletes schedule seats w.checkouts }, nack)
  after_checkout l schedule user_id seats (some db) w = (
    record {
      database = db;
      cluster = settle_seats l.release_env l.bitmap_env 0 schedule user_id seats w.cluster;
      checkouts = delete_keys l.deletes schedule seats w.checkouts;
      available =
          adjust_cached_available_seats l.adjusts schedule (negated (length seats)) w.available;
      rooms = say l.broadcasts (seats_booked schedule seats user_id) w.rooms;
    },
    ack,
  )

  abbrev pub commit_of : Surroundings → Payload → ℤ → ℤ → List ℤ → ℕ → CheckoutCommit
  commit_of l p schedule user_id seats payment_request_id = record {
    order_id = l.new_id;
    payment_request_id = payment_request_id;
    user_id = user_id;
    schedule_id = schedule;
    seat_ids = seats;
    total_amount = p.amount;
    razorpay_payment_id = p.razorpay_payment_id;
  }

  unfoldable pub after_locks :
      Surroundings → Payload → ℤ → ℤ → List ℤ → ℕ → Option LockFailure → World → World × Settlement
  after_locks l p schedule user_id seats id (some reason) w = (
    record w {
      database = if l.updates then fail_payment id w.database else w.database;
      checkouts = delete_keys l.deletes schedule seats w.checkouts;
    },
    nack,
  )
  after_locks l p schedule user_id seats id none w =
      after_checkout l schedule user_id seats
        (commit_checkout l.accepts w.database (commit_of l p schedule user_id seats id)) w

  unfoldable pub checkout_seats :
      Surroundings → Payload → ℤ → ℤ → List ℤ → ℕ → World → World × Settlement
  checkout_seats l p schedule user_id [] id w = (w, nack)
  checkout_seats l p schedule user_id (a ∷ rest) id w =
      after_locks l p schedule user_id (a ∷ rest) id
        (lock_failure l.lock_env w.cluster 0 schedule user_id (a ∷ rest)) w

  unfoldable pub checkout : Surroundings → Payload → Option ℕ → World → World × Settlement
  checkout l p none w = (w, nack)
  checkout l p (some id) w =
      if order_exists l.answers w.database id
      then (w, ack)
      else checkout_seats l p (as_i32 (or_zero (or_else p.schedule_id p.showtime_id)))
          (as_i32 (or_zero p.user_id)) (parse_seat_ids p.seats) id w

  abbrev pub cancellation_of : Payload → ℕ → CancellationCommit
  cancellation_of p order_id = record {
    order_id = order_id;
    user_id = as_i32 (or_zero p.user_id);
    schedule_id = as_i32 (or_zero p.schedule_id);
    seat_ids = parse_seat_ids p.seats;
    amount = p.amount;
  }

  unfoldable pub after_cancellation :
      Surroundings → CancellationCommit → Option Database → World → World × Settlement
  after_cancellation l c none w = (w, nack)
  after_cancellation l c (some db) w = (
    record w {
      database = db;
      available =
          adjust_cached_available_seats l.adjusts c.schedule_id (pos (length c.seat_ids))
            w.available;
      rooms = say l.broadcasts (seats_unlocked c.schedule_id c.seat_ids c.user_id) w.rooms;
    },
    ack,
  )

  -- Nothing is to be refunded without a payment id.
  abbrev pub refunded_or_free : Surroundings → Option String → Bool
  refunded_or_free l none = true
  refunded_or_free l (some payment_id) = l.refunds

  unfoldable pub cancellation : Surroundings → Payload → Option ℕ → World → World × Settlement
  cancellation l p none w = (w, nack)
  cancellation l p (some order_id) w =
      if refunded_or_free l p.razorpay_payment_id
      then after_cancellation l (cancellation_of p order_id)
          (commit_cancellation l.accepts w.database (cancellation_of p order_id)) w
      else (w, nack)

  -- A delivery whose data is no JSON is refused.
  unfoldable pub process_message : Surroundings → Option Payload → World → World × Settlement
  process_message l none w = (w, nack)
  process_message l (some p) w =
      if p.is_cancellation
      then cancellation l p p.order_id w
      else checkout l p p.payment_request_id w
