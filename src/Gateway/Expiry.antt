-- ===== src/Gateway/Expiry.antt =====
-- `release_expired_locks` and `handle_pubsub_message` of apps/gateway-keeper/src/state_active.rs: the
-- two other ways in which a seat of a show becomes free at the gateway.
use bookit.Common.{
  ℕ, suc, ◌≡◌, ◌≢◌, ◌⊎◌, ==ℤ_iff, ltb, refl, sym, subst, inl, inr, Bool, true, false, ◌||◌, ◌&&◌,
  Option, none, some, List, [], ◌∷◌, ℤ, pos, ◌+ℤ◌, ◌==ℤ◌, if◌then◌else◌, String, same_text,
  Bool-cases,
}
use bookit.Redis.Keys.{processing_queue, Member, seat, seat_user, entry, raw}
use bookit.Redis.Interface.{Redis}
use bookit.SeatLock.Cluster.{Delivery, executed, Env, Cluster, on_all, zadd_cluster, zrem_cluster}
use bookit.SeatLock.Scripts.{Request}
use bookit.SeatLock.Single.{get_lock_owner, release_lock, set_schedule_seat_bitmap_state_cluster}
use bookit.Payment.Intent.{i32s_of}
use bookit.LockServer.Requests.{PubSubEvent, seat_unlocked, publish}
use bookit.Gateway.Actor.{Actor}
use bookit.Gateway.Show.{clear_admission}
use bookit.Gateway.Cancel.{Show}

abbrev pub clear_actor : List ℤ → Option Actor → Option Actor
clear_actor seats none = none
clear_actor seats (some a) = some (clear_admission seats a)

-- The shows of the gateway, with the clearing of seats of the one that the map has.
abbrev pub clear_show : ℤ → List ℤ → (ℤ → Show) → ℤ → Show
clear_show key seats shows s =
    if key ==ℤ s then record (shows s) { actor = clear_actor seats (shows s).actor } else shows s

-- A message of a room: its member `event`, and `seat_ids` where it is an array.
pub record RoomMessage : Type 0 where
  pub event : Option String
  pub seat_ids : Option (List (Option ℤ))

abbrev pub clear_listed : ℤ → Option (List (Option ℤ)) → (ℤ → Show) → ℤ → Show
clear_listed key none shows = shows
clear_listed key (some values) shows = clear_show key (i32s_of values) shows

abbrev pub frees_seats : Option String → Bool
frees_seats none = false
frees_seats (some event) = same_text event "seat_unlocked" || same_text event "seat_booked"

-- The show is the number in the name of the channel; none where there is no number.
unfoldable pub handle_pubsub_message : RoomMessage → Option ℤ → (ℤ → Show) → ℤ → Show
handle_pubsub_message m none shows = shows
handle_pubsub_message m (some key) shows =
    if frees_seats m.event then clear_listed key m.seat_ids shows else shows

-- What one entry of the queue meets: its five calls of the seat lock, the time of the round, whether the
-- seat's checkout key is found, and which publications get through.
pub record Round : Type 0 where
  pub calls : ℕ → Env
  pub now : ℤ
  pub checkout : Bool
  pub through : ℕ → Bool

module _ (R : Redis) where
  pub record Gate : Type 0 where
    pub shows : ℤ → Show
    pub cluster : Cluster R
    pub events : List PubSubEvent

  abbrev pub drop_member : Round → Member → Cluster R → Cluster R
  drop_member r m c = zrem_cluster R ((r.calls 1).delivery 0) processing_queue m c

  unfoldable pub free_entry : Round → Request → Member → Gate → Gate
  free_entry r q m g = record {
    shows = clear_show q.showtime_id (q.seat_id ∷ []) g.shows;
    cluster =
        set_schedule_seat_bitmap_state_cluster R (r.calls 2) 0 q.showtime_id q.seat_id 0
          (drop_member r m g.cluster);
    events = publish r.through 0 (seat_unlocked q.user_id q.showtime_id q.seat_id) g.events;
  }

  -- The user's own lock, with and without a checkout in progress.
  unfoldable pub release_own : Round → Request → Member → Bool → Gate → Gate
  release_own r q m true g = record g {
    cluster =
        zadd_cluster R ((r.calls 3).delivery 0) processing_queue m (r.now +ℤ pos 300) g.cluster;
  }
  release_own r q m false g =
      free_entry r q m (record g { cluster = (release_lock R (r.calls 4) q g.cluster).0 })

  unfoldable pub release_by_owner : Round → Request → Member → Option ℤ → Gate → Gate
  release_by_owner r q m none g = free_entry r q m g
  release_by_owner r q m (some owner) g =
      if owner ==ℤ q.user_id
      then release_own r q m r.checkout g
      else record g { cluster = drop_member r m g.cluster }

  abbrev pub queue_request : ℤ → ℤ → ℤ → Request
  queue_request a s v = record { showtime_id = s; seat_id = a; user_id = v }

  -- One member of the queue; what is no entry is dropped.
  unfoldable pub release_member : Round → Member → Gate → Gate
  release_member r (entry a s v) g =
      release_by_owner r (queue_request a s v) (entry a s v)
        (get_lock_owner R (r.calls 0) (queue_request a s v) g.cluster) g
  release_member r (seat a) g = record g { cluster = drop_member r (seat a) g.cluster }
  release_member r (seat_user a v) g = record g {
    cluster = drop_member r (seat_user a v) g.cluster;
  }
  release_member r (raw t) g = record g { cluster = drop_member r (raw t) g.cluster }

  -- The members that were due, in the order in which Redis gave them.
  unfoldable pub release_expired_locks : (ℕ → Round) → ℕ → List Member → Gate → Gate
  release_expired_locks rounds n [] g = g
  release_expired_locks rounds n (m ∷ rest) g =
      release_expired_locks rounds (suc n) rest (release_member (rounds n) m g)

  -- A lock that is in use: another user's, or the user's own with a checkout in progress.
  abbrev pub InUse : Round → ℤ → Option ℤ → Type 0
  InUse r user none = ⊥
  InUse r user (some owner) = (owner ≢ user) ⊎ (r.checkout ≡ true)

  on_all-strings :
      (d : ℕ → Delivery) (f : R.zsets.Store → R.zsets.Store) (c : Cluster R) (j : ℕ)
      → ((on_all R d (λ n. record n { zsets = f n.zsets }) c).node j).strings ≡ (c.node j).strings
  unfolding on_all
  on_all-strings d f c j = elim (Bool-cases (ltb j c.size && executed (d j))) [
    | inl e ↦ rw e refl
    | inr e ↦ rw e refl
  ]

  -- The lock keys of every server and the slots of every show are as before.
  pub record Keeps (g g' : Gate) : Type 0 where
    pub strings : (j : ℕ) → (g'.cluster.node j).strings ≡ (g.cluster.node j).strings
    pub shows : g'.shows ≡ g.shows

  if-Keeps :
      (g : Gate) (b : Bool) (x y : Gate)
      → (b ≡ true → Keeps g x)
      → (b ≡ false → Keeps g y)
      → Keeps g (if b then x else y)
  if-Keeps g true x y h k = h refl
  if-Keeps g false x y h k = k refl

  drop_member-Keeps :
      (r : Round) (m : Member) (g : Gate)
      → Keeps g (record g { cluster = drop_member r m g.cluster })
  unfolding zrem_cluster
  drop_member-Keeps r m g = record {
    strings = λ j. on_all-strings _ (λ z. R.zsets.zrem z processing_queue m) g.cluster j;
    shows = refl;
  }

  release_own-Keeps :
      (r : Round) (q : Request) (m : Member) (g : Gate) → Keeps g (release_own r q m true g)
  unfolding release_own zadd_cluster
  release_own-Keeps r q m g = record {
    strings = λ j.
        on_all-strings _ (λ z. R.zsets.zadd z processing_queue (r.now +ℤ pos 300) m) g.cluster j;
    shows = refl;
  }

  release_by_owner-Keeps :
      (r : Round) (q : Request) (m : Member) (owner : Option ℤ) (g : Gate)
      → InUse r q.user_id owner
      → Keeps g (release_by_owner r q m owner g)
  unfolding release_by_owner
  release_by_owner-Keeps r q m none g h = absurd h
  release_by_owner-Keeps r q m (some owner) g (inl ne) =
      if-Keeps g (owner ==ℤ q.user_id) _ _ (λ e. absurd (ne ((==ℤ_iff owner q.user_id).0 e)))
        (λ e. drop_member-Keeps r m g)
  release_by_owner-Keeps r q m (some owner) g (inr busy) =
      if-Keeps g (owner ==ℤ q.user_id) _ _
        (λ e. subst (λ b. Keeps g (release_own r q m b g)) (sym busy) (release_own-Keeps r q m g))
        (λ e. drop_member-Keeps r m g)

  -- The expiry worker of the gateway does not touch a lock that is in use: for an entry of the queue
  -- whose seat is found locked by another user, or by its own user with a checkout in progress, the
  -- lock keys of every server and the slots of every show stay as they are.
  pub release_member-Keeps :
      (r : Round) (a s v : ℤ) (g : Gate)
      → InUse r v (get_lock_owner R (r.calls 0) (queue_request a s v) g.cluster)
      → Keeps g (release_member r (entry a s v) g)
  unfolding release_member
  release_member-Keeps r a s v g h =
      release_by_owner-Keeps r (queue_request a s v) (entry a s v) _ g h
