-- ===== src/LockServer/Answer.antt =====
-- What `process_lock_request` of apps/lock-server/src/handlers_active.rs publishes for a request to lock.
use bookit.Common.{
  append-nil, append_assoc, ℕ, zero, suc, ◌<◌, ◌≡◌, refl, sym, ap, ◌∙◌, inl, inr, ◌⊎◌, Bool, true,
  false, List, [], ◌∷◌, ◌++◌, map, ℤ, pos, if◌then◌else◌, same_text, length, Bool-cases, arith,
}
use bookit.Redis.Interface.{Redis}
use bookit.SeatLock.Cluster.{Env, Cluster}
use bookit.SeatLock.Single.{update_seat_metadata_lua}
use bookit.LockServer.Requests.{
  SeatLockMessage, PubSubEvent, seat_locked, lock_slots_response, publish_locked, Server,
  attempt_updates, response, report, process_lock_request,
}

-- The events of a successful update: one for each seat.
abbrev pub locked_events : SeatLockMessage → List ℤ → List PubSubEvent
locked_events m seats = map (seat_locked m.user_id m.showtime_id) seats

publish_locked-map :
    (through : ℕ → Bool) (n : ℕ) (m : SeatLockMessage) (seats : List ℤ) (events : List PubSubEvent)
    → ((k : ℕ) → through k ≡ true)
    → publish_locked through n m seats events ≡ events ++ locked_events m seats
unfolding publish_locked
publish_locked-map through n m [] events all = sym (append-nil events)
publish_locked-map through n m (a ∷ rest) events all =
    ap
      (λ b.
        publish_locked through (suc n) m rest
          (if b then events ++ (seat_locked m.user_id m.showtime_id a ∷ []) else events))
      (all n)
    ∙ publish_locked-map through (suc n) m rest _ all
    ∙ append_assoc events _ (locked_events m rest)

-- The events of a request to lock seats that was done, or was not.
abbrev pub answer_events : SeatLockMessage → Bool → List PubSubEvent
answer_events m true = locked_events m m.seat_ids ++ (response m true ∷ [])
answer_events m false = response m false ∷ []

report-answer :
    (through : ℕ → Bool) (m : SeatLockMessage) (updated : Bool) (events : List PubSubEvent)
    → ((k : ℕ) → through k ≡ true)
    → report through m updated events ≡ events ++ answer_events m updated
unfolding report
report-answer through m true events all =
    rw (all (length m.seat_ids), publish_locked-map through 0 m m.seat_ids events all)
      (append_assoc events _ _)
report-answer through m false events all = rw (all (length m.seat_ids)) refl

module _ (R : Redis) (envs : ℕ → Env) (m : SeatLockMessage) where
  -- The attempt of a number, on what the attempts before it left.
  abbrev pub update : ℕ → Cluster R → Cluster R × Bool
  update k c = update_seat_metadata_lua R (envs k) m.showtime_id m.seat_ids m.user_id (pos 300) c

  abbrev pub attempted : ℕ → Cluster R → Cluster R
  attempted zero c = c
  attempted (suc k) c = (update k (attempted k c)).0

  -- The first attempts, so many of them, failed.
  abbrev pub Failed : ℕ → Cluster R → Type 0
  Failed zero c = Unit
  Failed (suc k) c = Failed k c × ((update k (attempted k c)).1 ≡ false)

  abbrev pub Succeeds : ℕ → Server R → Server R → Type 0
  Succeeds k w x =
      (k < 3)
      × (Failed k w.cluster
          × (((update k (attempted k w.cluster)).1 ≡ true)
              × (x ≡ record {
                cluster = attempted (suc k) w.cluster;
                events =
                    w.events
                    ++ (map (λ a. seat_locked m.user_id m.showtime_id a) m.seat_ids
                        ++ (lock_slots_response m.user_id m.showtime_id true m.seat_ids [] ∷ []));
              })))

  abbrev pub Fails : Server R → Server R → Type 0
  Fails w x =
      Failed 3 w.cluster
      × (x ≡ record {
        cluster = attempted 3 w.cluster;
        events = w.events ++ (lock_slots_response m.user_id m.showtime_id false [] m.seat_ids ∷ []);
      })

  attempt_updates-cases :
      (c : Cluster R)
      → ((k : ℕ) × ((k < 3)
            × (Failed k c
                × (((update k (attempted k c)).1 ≡ true)
                    × (attempt_updates R 3 envs 0 m c ≡ (attempted (suc k) c, true))))))
        ⊎ (Failed 3 c × (attempt_updates R 3 envs 0 m c ≡ (attempted 3 c, false)))
  unfolding attempt_updates
  attempt_updates-cases c = elim (Bool-cases (update 0 c).1) [
    | inl e ↦ inl (0, (omega arith, (tt, (e, simp e refl))))
    | inr e ↦ elim (Bool-cases (update 1 (attempted 1 c)).1) [
      | inl g ↦ inl (1, (omega arith, ((tt, e), (g, simp (e, g) refl))))
      | inr g ↦ elim (Bool-cases (update 2 (attempted 2 c)).1) [
        | inl h ↦ inl (2, (omega arith, (((tt, e), g), (h, simp (e, g, h) refl))))
        | inr h ↦ inr ((((tt, e), g), h), simp (e, g, h) refl)
      ]
    ]
  ]

  answered_with :
      (through : ℕ → Bool) (w : Server R) (c : Cluster R) (b : Bool)
      → same_text m.action "unlock" ≡ false
      → ((k : ℕ) → through k ≡ true)
      → attempt_updates R 3 envs 0 m w.cluster ≡ (c, b)
      → process_lock_request R envs through m w
        ≡ record { cluster = c; events = w.events ++ answer_events m b }
  unfolding process_lock_request
  answered_with through w c b h all e =
      rw (h, e)
        (ap (λ events. record { cluster = c; events = events })
          (report-answer through m b w.events all))

  -- A request to lock seats whose events all get through makes its attempts until one succeeds, at most
  -- three of them, each on what the failed ones left; with the first that succeeds it publishes, after what
  -- was published before, a SeatLocked for each of its seats in their order and a response that names them
  -- as locked, and where all three fail only a response that names them as failed.
  pub process_lock_request_answer :
      (through : ℕ → Bool) (w : Server R)
      → same_text m.action "unlock" ≡ false
      → ((k : ℕ) → through k ≡ true)
      → ((k : ℕ) × Succeeds k w (process_lock_request R envs through m w))
        ⊎ Fails w (process_lock_request R envs through m w)
  process_lock_request_answer through w h all = elim (attempt_updates-cases w.cluster) [
    | inl (k, (few, (failed, (done, e)))) ↦ inl (
      k,
      (few, (failed, (done, answered_with through w (attempted (suc k) w.cluster) true h all e))),
    )
    | inr (failed, e) ↦ inr (failed, answered_with through w (attempted 3 w.cluster) false h all e)
  ]
