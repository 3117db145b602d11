-- ===== src/LockServer/Leader.antt =====
-- How long an instance of the lock server leads alone (`acquire_updater_leader_lock` of
-- apps/lock-server/src/handlers_active.rs).
use bookit.Common.{
  ℕ, ◌+◌, ◌≤◌, ◌<◌, ◌≡◌, ◌≢◌, refl, sym, ap, ◌∙◌, inl, inr, Bool, true, false, Option, none, some,
  List, [], ◌∷◌, if◌then◌else◌, String, same_text, same_text_iff, Bool-cases, arith, lt→ltb,
}
use bookit.Redis.Keys.{updater_leader, Val, num, text}
use bookit.Redis.Interface.{Strings}
use bookit.SeatLock.Cluster.{Delivery, answered, unanswered, dropped}
use bookit.LockServer.Election.{
  leader_ttl_ms, Command, sets, prolongs, Attempt, is_self, owner_read, create_leader, prolong,
  command, commands, keep_leader, first, acquire_updater_leader_lock,
}

module _ (S : Strings) where
  -- An instance is the leader at every time of a window.
  abbrev pub Leads : S.Store → String → ℕ → ℕ → Type 0
  Leads s id from until = (t : ℕ) → from ≤ t → t < until → S.get s updater_leader t ≡ some (text id)

  -- Where the attempt goes on to PEXPIRE, the key is still the instance's then, and the command runs.
  abbrev pub StillHeld : Attempt → String → S.Store → Type 0
  StillHeld a id s =
      (first S a id s).1 ≡ false
      → (a.on_pexpire ≢ dropped)
        × (S.get (commands S a.before_pexpire (commands S a.before_get (first S a id s).0))
              updater_leader a.pexpire_ms
            ≡ some (text id))

  -- When the time of the leader begins: at the command that made the key or prolonged it.
  abbrev pub since : Attempt → String → S.Store → ℕ
  since a id s = if (first S a id s).1 then a.set_ms else a.pexpire_ms

  is_self-text : (id : String) (v : Option Val) → is_self id v ≡ true → v ≡ some (text id)
  is_self-text id none h = absurd (cc h)
  is_self-text id (some (num v)) h = absurd (cc h)
  is_self-text id (some (text t)) h = let same : t ≡ id = (same_text_iff t id).0 h in cc same

  set-Leads :
      (s : S.Store) (id : String) (now : ℕ)
      → Leads (S.set_px s updater_leader (text id) now leader_ttl_ms) id now (now + leader_ttl_ms)
  set-Leads s id now t after before =
      S.get-set_px_self s updater_leader (text id) now leader_ttl_ms t (omega arith) (omega arith)
        after
      ∙ rw (lt→ltb t (now + leader_ttl_ms) before) refl

  pexpire-Leads :
      (s : S.Store) (id : String) (now : ℕ)
      → S.get s updater_leader now ≡ some (text id)
      → Leads (S.pexpire s updater_leader now leader_ttl_ms) id now (now + leader_ttl_ms)
  pexpire-Leads s id now h t after before =
      S.get-pexpire_self s updater_leader (text id) now leader_ttl_ms t h (omega arith)
        (omega arith) after
      ∙ rw (lt→ltb t (now + leader_ttl_ms) before) refl

  prolong-Leads :
      (d : Delivery) (s : S.Store) (id : String) (now : ℕ)
      → d ≢ dropped
      → S.get s updater_leader now ≡ some (text id)
      → Leads (prolong S d now s) id now (now + leader_ttl_ms)
  prolong-Leads answered s id now ne h = pexpire-Leads s id now h
  prolong-Leads unanswered s id now ne h = pexpire-Leads s id now h
  prolong-Leads dropped s id now ne h = absurd (ne refl)

  owner_read_self :
      (id : String) (d : Delivery) (v : Option Val)
      → is_self id (owner_read d v) ≡ true
      → v ≡ some (text id)
  owner_read_self id answered v h = is_self-text id v h
  owner_read_self id unanswered v h = absurd (cc h)
  owner_read_self id dropped v h = absurd (cc h)

  create_leader-Leads :
      (d : Delivery) (id : String) (now : ℕ) (v : Option Val) (s : S.Store)
      → (create_leader S d id now v s).1 ≡ true
      → Leads (create_leader S d id now v s).0 id now (now + leader_ttl_ms)
  unfolding create_leader
  create_leader-Leads answered id now none s h = set-Leads s id now
  create_leader-Leads unanswered id now none s h = absurd (cc h)
  create_leader-Leads dropped id now none s h = absurd (cc h)
  create_leader-Leads answered id now (some v) s h = absurd (cc h)
  create_leader-Leads unanswered id now (some v) s h = absurd (cc h)
  create_leader-Leads dropped id now (some v) s h = absurd (cc h)

  acquired-Leads :
      (a : Attempt) (id : String) (s : S.Store)
      → (acquire_updater_leader_lock S a id s).1 ≡ true
      → StillHeld a id s
      → Leads
          (acquire_updater_leader_lock S a id s).0
          id
          (since a id s)
          (since a id s + leader_ttl_ms)
  unfolding acquire_updater_leader_lock keep_leader
  acquired-Leads a id s = elim (Bool-cases a.connects) [
    | inl e ↦ simp e (kept (first S a id s) (create_leader-Leads a.on_set id a.set_ms _ s))
    | inr e ↦ simp e (λ h held. absurd (cc h))
  ]
    where
      kept :
          (x : S.Store × Bool)
          → (x.1 ≡ true → Leads x.0 id a.set_ms (a.set_ms + leader_ttl_ms))
          → (keep_leader S a id x).1 ≡ true
          → (x.1 ≡ false
              → (a.on_pexpire ≢ dropped)
                × (S.get
                      (commands S a.before_pexpire (commands S a.before_get x.0))
                      updater_leader
                      a.pexpire_ms
                    ≡ some (text id)))
          → Leads
              (keep_leader S a id x).0
              id
              (if x.1 then a.set_ms else a.pexpire_ms)
              ((if x.1 then a.set_ms else a.pexpire_ms) + leader_ttl_ms)
      kept (r, true) made = λ told held. made refl
      kept (r, false) made =
          elim (Bool-cases (
            is_self id
              (owner_read a.on_get (S.get (commands S a.before_get r) updater_leader a.get_ms)))) [
                | inl e ↦ simp e (λ told held.
                    prolong-Leads a.on_pexpire _ id a.pexpire_ms (held refl).0 (held refl).1)
                | inr e ↦ simp e (λ told held. absurd (cc told))
              ]

  -- While another instance leads, an attempt fails and leaves the server as it was.
  create_leader-taken :
      (d : Delivery) (id : String) (now : ℕ) (v : Val) (s : S.Store)
      → create_leader S d id now (some v) s ≡ (s, false)
  unfolding create_leader
  create_leader-taken answered id now v s = refl
  create_leader-taken unanswered id now v s = refl
  create_leader-taken dropped id now v s = refl

  owner_read-other :
      (id other : String) (d : Delivery)
      → other ≢ id
      → is_self other (owner_read d (some (text id))) ≡ false
  owner_read-other id other answered ne = elim (Bool-cases (same_text id other)) [
    | inl e ↦ absurd (ne (sym ((same_text_iff id other).0 e)))
    | inr e ↦ e
  ]
  owner_read-other id other unanswered ne = refl
  owner_read-other id other dropped ne = refl

  abbrev pub time_of : Command → ℕ
  time_of (sets d id now) = now
  time_of (prolongs d now) = now

  -- The commands run one after the other from a time on, and before another time.
  unfoldable pub InTime : ℕ → ℕ → List Command → Type 0
  InTime from until [] = Unit
  InTime from until (x ∷ xs) =
      (from ≤ time_of x) × ((time_of x < until) × InTime (time_of x) until xs)

  unfoldable pub last_ms : ℕ → List Command → ℕ
  last_ms from [] = from
  last_ms from (x ∷ xs) = last_ms (time_of x) xs

  command-Leads :
      (id : String) (from until : ℕ) (x : Command) (s : S.Store)
      → until ≤ from + leader_ttl_ms
      → from ≤ time_of x
      → time_of x < until
      → Leads s id from until
      → Leads (command S x s) id (time_of x) until
  unfolding command
  command-Leads id from until (sets d other now) s short l u h t after before =
      let same : create_leader S d other now (S.get s updater_leader now) s ≡ (s, false) =
        ap (λ v. create_leader S d other now v s) (h now l u)
        ∙ create_leader-taken d other now (text id) s in
      ap (λ r. S.get r.0 updater_leader t) same ∙ h t (omega (arith, l, after)) before
  command-Leads id from until (prolongs dropped now) s short l u h t after before =
      h t (omega (arith, l, after)) before
  command-Leads id from until (prolongs answered now) s short l u h t after before =
      pexpire-Leads s id now (h now l u) t after (omega (arith, short, l, before))
  command-Leads id from until (prolongs unanswered now) s short l u h t after before =
      pexpire-Leads s id now (h now l u) t after (omega (arith, short, l, before))

  commands-Leads :
      (id : String) (from until : ℕ) (xs : List Command) (s : S.Store)
      → until ≤ from + leader_ttl_ms
      → InTime from until xs
      → Leads s id from until
      → Leads (commands S xs s) id (last_ms from xs) until
  unfolding commands InTime last_ms
  commands-Leads id from until [] s short i h = h
  commands-Leads id from until (x ∷ xs) s short i h =
      commands-Leads id (time_of x) until xs (command S x s) (omega (arith, short, i.0)) i.1.1
        (command-Leads id from until x s short i.0 i.1.0 h)

  last_ms-InTime :
      (from until : ℕ) (xs : List Command) → InTime from until xs → from ≤ last_ms from xs
  unfolding InTime last_ms
  last_ms-InTime from until [] i = omega arith
  last_ms-InTime from until (x ∷ xs) i =
      omega (arith, i.0, last_ms-InTime (time_of x) until xs i.1.1)

  -- The SET and the GET of an attempt, and what others write in between, come after `from`.
  abbrev pub During : ℕ → ℕ → Attempt → Type 0
  During from until b =
      (from ≤ b.set_ms)
      × ((b.set_ms < until)
          × (InTime b.set_ms until b.before_get
              × ((last_ms b.set_ms b.before_get ≤ b.get_ms) × (b.get_ms < until))))

  refused :
      (b : Attempt) (id other : String) (from until : ℕ) (s : S.Store)
      → other ≢ id
      → until ≤ from + leader_ttl_ms
      → During from until b
      → Leads s id from until
      → (acquire_updater_leader_lock S b other s).1 ≡ false
  unfolding acquire_updater_leader_lock keep_leader
  refused b id other from until s ne short (after, (before, (i, (later, end)))) h =
      let taken : first S b other s ≡ (s, false) =
        ap (λ v. create_leader S b.on_set other b.set_ms v s) (h b.set_ms after before)
        ∙ create_leader-taken b.on_set other b.set_ms (text id) s in
      let window : Leads s id b.set_ms until = λ t l u. h t (omega (arith, after, l)) u in
      let read =
        commands-Leads id b.set_ms until b.before_get s (omega (arith, short, after)) i window
          b.get_ms later end in
      let no : is_self other
            (owner_read b.on_get (S.get (commands S b.before_get s) updater_leader b.get_ms))
          ≡ false =
        ap (λ v. is_self other (owner_read b.on_get v)) read
        ∙ owner_read-other id other b.on_get ne in
      elim (Bool-cases b.connects) [ inr e ↦ simp e refl | inl e ↦ simp (e, taken, no) refl ]

  -- An instance that is told that it leads is the only one for 2000 ms from the command that made its key,
  -- or from its PEXPIRE, where that runs and the key is still its own then: whatever SETs and PEXPIREs any
  -- instances send after it, an attempt of another instance whose SET and GET fall into this time, with more
  -- of them in between, is told that it does not lead.
  pub leader_exclusive :
      (a : Attempt) (id : String) (s : S.Store) (after : List Command) (b : Attempt)
      (other : String)
      → (acquire_updater_leader_lock S a id s).1 ≡ true
      → StillHeld a id s
      → other ≢ id
      → InTime (since a id s) (since a id s + leader_ttl_ms) after
      → During (last_ms (since a id s) after) (since a id s + leader_ttl_ms) b
      → (acquire_updater_leader_lock S b other
          (commands S after (acquire_updater_leader_lock S a id s).0)).1
        ≡ false
  leader_exclusive a id s after b other told held ne i d =
      let from = since a id s in
      refused b id other (last_ms from after) (from + leader_ttl_ms) _ ne
        (omega (arith, last_ms-InTime from (from + leader_ttl_ms) after i)) d
        (commands-Leads id from (from + leader_ttl_ms) after _ (omega arith) i
          (acquired-Leads a id s told held))
