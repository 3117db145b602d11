-- ===== src/Gateway/RateLimit/Limit.antt =====
-- The number of requests that the sliding window allows.
use bookit.SeatLock.Cluster.{Delivery, answered, unanswered, dropped}
use bookit.Common.{
  ℕ, ◌+◌, ◌*◌, ◌≤◌, ◌<◌, ◌≡◌, refl, inl, inr, Bool, false, List, [], ◌∷◌, ltb, leb, if◌then◌else◌,
  length, Bool-cases, arith, All, All-map, ltb→lt,
}
use bookit.Gateway.RateLimit.{
  Entry, Window, no_entries, remove_old, has_entry, kept, limited, check_sliding_window,
  run_requests, Ordered, Fresh, in_window,
}

in_window-length : (window t : ℕ) (es : List Entry) → in_window window t es ≤ length es
in_window-length window t [] = omega arith
in_window-length window t (e ∷ rest) = ground (arith, in_window-length window t rest)

in_window-remove_old :
    (window now t : ℕ) (es : List Entry)
    → now ≤ t
    → in_window window t (remove_old window now es) ≡ in_window window t es
unfolding remove_old
in_window-remove_old window now t [] h = refl
in_window-remove_old window now t (e ∷ rest) h =
    ground (arith, h, in_window-remove_old window now t rest h)

length-remove_old :
    (window now : ℕ) (es : List Entry) → length (remove_old window now es) ≤ length es
unfolding remove_old
length-remove_old window now [] = omega arith
length-remove_old window now (e ∷ rest) = ground (arith, length-remove_old window now rest)

-- A member is not later than a time, and its key lasts twice the window from it.
abbrev Bound : ℕ → ℕ → ℕ → Entry → Type 0
Bound window last expires e = (e.time ≤ last) × (e.time + window * 2 ≤ expires)

remove_old-Bound :
    (window now last expires : ℕ) (es : List Entry)
    → All (Bound window last expires) es
    → All (Bound window last expires) (remove_old window now es)
unfolding remove_old
remove_old-Bound window now last expires [] h = tt
remove_old-Bound window now last expires (e ∷ rest) h =
    elim (Bool-cases (leb (e.time + window) now)) [
      | inl k ↦ rw k (remove_old-Bound window now last expires rest h.1)
      | inr k ↦ rw k (h.0, remove_old-Bound window now last expires rest h.1)
    ]

in_window-expired :
    (window last expires t : ℕ) (es : List Entry)
    → All (Bound window last expires) es
    → expires ≤ t
    → in_window window t es ≡ 0
in_window-expired window last expires t [] h k = refl
in_window-expired window last expires t (e ∷ rest) h k =
    ground (arith, h.0.1, k, in_window-expired window last expires t rest h.1 k)

record Invariant (limit window last : ℕ) (w : Window) (allowed : List Entry) : Type 0 where
  counted : (t : ℕ) → last ≤ t → in_window window t allowed ≤ in_window window t w.entries
  few : length w.entries ≤ limit
  bound : All (Bound window last w.expires) w.entries

-- What is left of the set when a request comes.
record Left (limit window : ℕ) (x : Entry) (expires : ℕ) (es allowed : List Entry) : Type 0 where
  counted : (t : ℕ) → x.time ≤ t → in_window window t allowed ≤ in_window window t es
  few : length es ≤ limit
  bound : All (Bound window x.time expires) es

kept-Left :
    (limit window last : ℕ) (x : Entry) (w : Window) (allowed : List Entry)
    → last ≤ x.time
    → Invariant limit window last w allowed
    → Left limit window x w.expires (kept window x w) allowed
unfolding kept
kept-Left limit window last x w allowed h v = elim (Bool-cases (leb w.expires x.time)) [
  | inl e ↦ rw e (record {
    counted = λ t k.
        let gone =
          in_window-expired window last w.expires t w.entries v.bound (ground (arith, e, k)) in
        let before = v.counted t (omega (arith, h, k)) in omega (arith, before, gone);
    few = omega arith;
    bound = tt;
  })
  | inr e ↦ rw e (record {
    counted = λ t k.
        rw (in_window-remove_old window x.time t w.entries k) (v.counted t (omega (arith, h, k)));
    few = omega (arith, length-remove_old window x.time w.entries, v.few);
    bound =
        All-map (Bound window last w.expires) _ _ (λ b g. (omega (arith, g.0, h), g.1))
          (remove_old-Bound window x.time last w.expires w.entries v.bound);
  })
]

added-Invariant :
    (limit window : ℕ) (x : Entry) (expires : ℕ) (es allowed : List Entry)
    → length es < limit
    → Left limit window x expires es allowed
    → Invariant limit window x.time
        (record { entries = x ∷ es; expires = x.time + window * 2 })
        (x ∷ allowed)
added-Invariant limit window x expires es allowed room v = record {
  counted = λ t k. omega (arith, v.counted t k);
  few = omega (arith, room);
  bound = (
    (omega arith, omega arith),
    All-map (Bound window x.time expires) _ es (λ b g. (g.0, omega (arith, g.0))) v.bound,
  );
}

-- An entry more in the set, or a request less that counts as allowed, does no harm.
untold-Invariant :
    (limit window : ℕ) (x : Entry) (w : Window) (allowed : List Entry)
    → Invariant limit window x.time w (x ∷ allowed)
    → Invariant limit window x.time w allowed
untold-Invariant limit window x w allowed v = record {
  counted = λ t k. omega (arith, v.counted t k);
  few = v.few;
  bound = v.bound;
}

abbrev told : Bool → Entry → List Entry → List Entry
told ok x allowed = if ok then x ∷ allowed else allowed

limited-Invariant :
    (limit window : ℕ) (x : Entry) (es allowed : List Entry) (w : Window)
    → has_entry x es ≡ false
    → Left limit window x w.expires es allowed
    → Invariant limit window x.time
        (limited limit window x es w).0
        (told (limited limit window x es w).1.0 x allowed)
      × Invariant limit window x.time (limited limit window x es w).0 allowed
limited-Invariant limit window x es allowed w fresh v = elim (Bool-cases (ltb (length es) limit)) [
  | inl e ↦
      let added =
        added-Invariant limit window x w.expires es allowed (ltb→lt (length es) limit e) v in
      rw (e, fresh) (added, untold-Invariant limit window x _ allowed added)
  | inr e ↦
      let same : Invariant limit window x.time (record w { entries = es }) allowed = record {
        counted = v.counted;
        few = v.few;
        bound = v.bound;
      } in
      rw e (same, same)
]

later-Invariant :
    (limit window last now : ℕ) (w : Window) (allowed : List Entry)
    → last ≤ now
    → Invariant limit window last w allowed
    → Invariant limit window now w allowed
later-Invariant limit window last now w allowed h v = record {
  counted = λ t k. v.counted t (omega (arith, h, k));
  few = v.few;
  bound =
      All-map (Bound window last w.expires) _ w.entries (λ b g. (omega (arith, g.0, h), g.1))
        v.bound;
}

check-Invariant :
    (limit window last : ℕ) (d : Delivery) (x : Entry) (w : Window) (allowed : List Entry)
    → last ≤ x.time
    → has_entry x (kept window x w) ≡ false
    → Invariant limit window last w allowed
    → Invariant limit window x.time
        (check_sliding_window limit window d x w).0
        (told (check_sliding_window limit window d x w).1.0 x allowed)
unfolding check_sliding_window
check-Invariant limit window last answered x w allowed h fresh v =
    (limited-Invariant limit window x (kept window x w) allowed w fresh
      (kept-Left limit window last x w allowed h v)).0
check-Invariant limit window last unanswered x w allowed h fresh v =
    (limited-Invariant limit window x (kept window x w) allowed w fresh
      (kept-Left limit window last x w allowed h v)).1
check-Invariant limit window last dropped x w allowed h fresh v =
    later-Invariant limit window last x.time w allowed h v

run_requests-in_window :
    (limit window last t : ℕ) (calls : List (Delivery × Entry)) (w : Window) (allowed : List Entry)
    → Invariant limit window last w allowed
    → Ordered last calls
    → Fresh limit window calls w
    → last ≤ t
    → All (λ c. c.1.time ≤ t) calls
    → in_window window t (run_requests limit window calls w allowed) ≤ limit
unfolding run_requests
run_requests-in_window limit window last t [] w allowed v o f k all =
    omega (arith, v.counted t k, v.few, in_window-length window t w.entries)
run_requests-in_window limit window last t ((d, x) ∷ rest) w allowed v o f k all =
    run_requests-in_window limit window x.time t rest _ _
      (check-Invariant limit window last d x w allowed o.0 f.0 v) o.1 f.1 all.0 all.1

-- However many requests of a key come, in the order of their times and whatever gets lost, at most
-- `limit` of those that were told that they are allowed have their window open at the time of the last
-- one or later, given that no request draws the member of another one that is still in the set.
pub window_limit :
    (limit window t : ℕ) (calls : List (Delivery × Entry))
    → Ordered 0 calls
    → Fresh limit window calls no_entries
    → All (λ c. c.1.time ≤ t) calls
    → in_window window t (run_requests limit window calls no_entries []) ≤ limit
window_limit limit window t calls o f all =
    run_requests-in_window limit window 0 t calls no_entries []
      (record { counted = λ t k. omega arith; few = omega arith; bound = tt }) o f (omega arith) all
