-- ===== src/LockServer/Sweep.antt =====
-- `run_seat_layout_updater` of apps/lock-server/src/handlers_active.rs: what the leading instance does
-- with the entries of the queue that are due.
use bookit.Common.{ℕ, suc, Bool, true, false, ◌&&◌, ◌||◌, List, [], ◌∷◌, ℤ, ◌==ℤ◌, ltb}
use bookit.Redis.Keys.{processing_queue, Member, seat, seat_user, entry, raw}
use bookit.Redis.Interface.{Redis}
use bookit.SeatLock.Cluster.{Env, zrem_cluster}
use bookit.SeatLock.Scripts.{Request}
use bookit.SeatLock.Single.{release_expired_lock_lua, force_book_seat_lua}
use bookit.Payment.Tables.{
  Seat, Ticket, TicketStatus, active, ticket_cancelled, Database, count_where, is_booked,
}
use bookit.LockServer.Requests.{seat_unlocked, publish, Server}

-- Whether the pool gives a connection to the database, and each of the two counts is answered.
pub record Counts : Type 0 where
  pub connects : Bool
  pub seats : Bool
  pub tickets : Bool

abbrev pub booked_seat : ℤ → ℤ → Seat → Bool
booked_seat schedule_id seat_id s =
    (s.schedule_id ==ℤ schedule_id) && ((s.id ==ℤ seat_id) && is_booked s.status)

abbrev pub is_active : TicketStatus → Bool
is_active active = true
is_active ticket_cancelled = false

abbrev pub active_ticket : ℤ → Ticket → Bool
active_ticket schedule_id t = (t.schedule_id ==ℤ schedule_id) && is_active t.status

-- A count that is not answered is 0.
unfoldable pub is_seat_booked_in_db : Counts → Database → ℤ → ℤ → Bool
is_seat_booked_in_db a db schedule_id seat_id =
    a.connects
    && ((a.seats && ltb 0 (count_where (booked_seat schedule_id seat_id) db.schedule_seats))
        || (a.tickets && ltb 0 (count_where (active_ticket schedule_id) db.tickets)))

module _ (R : Redis) where
  abbrev pub entry_request : ℤ → ℤ → ℤ → Request
  entry_request a s v = record { showtime_id = s; seat_id = a; user_id = v }

  unfoldable pub settle_due : Env → (ℕ → Bool) → ℕ → Bool → ℤ → ℤ → ℤ → Server R → Server R
  settle_due e through n true a s v w = record w {
    cluster = force_book_seat_lua R e (entry_request a s v) (entry a s v) w.cluster;
  }
  settle_due e through n false a s v w = record {
    cluster = (release_expired_lock_lua R e (entry_request a s v) (entry a s v) w.cluster).0;
    events = publish through n (seat_unlocked v s a) w.events;
  }

  abbrev pub drop_entry : Env → Member → Server R → Server R
  drop_entry e m w = record w {
    cluster = zrem_cluster R (e.delivery 0) processing_queue m w.cluster;
  }

  -- One member of the queue: an entry is settled, anything else is dropped.
  unfoldable pub settle_member :
      Env → Counts → (ℕ → Bool) → ℕ → Database → Member → Server R → Server R
  settle_member e a through n db (entry x s v) w =
      settle_due e through n (is_seat_booked_in_db a db s x) x s v w
  settle_member e a through n db (seat x) w = drop_entry e (seat x) w
  settle_member e a through n db (seat_user x v) w = drop_entry e (seat_user x v) w
  settle_member e a through n db (raw t) w = drop_entry e (raw t) w

  -- The members that ZRANGEBYSCORE gave, in their order.
  unfoldable pub sweep :
      (ℕ → Env) → (ℕ → Counts) → (ℕ → Bool) → ℕ → Database → List Member → Server R → Server R
  sweep envs answers through n db [] w = w
  sweep envs answers through n db (m ∷ rest) w =
      sweep envs answers through (suc n) db rest
        (settle_member (envs n) (answers n) through n db m w)
