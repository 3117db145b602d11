-- ===== src/LockServer/Shrink.antt =====
-- Steps on the servers that add nothing to the queue, and commands that take a member out of it.
use bookit.Common.{
  ℕ, ◌≡◌, refl, sym, subst, ==_iff, ◌∙◌, inl, inr, true, ◌&&◌, none, ltb, Bool-cases, ◌<◌, lt→ltb,
  ◌==◌,
}
use bookit.Redis.Keys.{Key, Key-discrete, processing_queue, Member, Member-discrete}
use bookit.Redis.Interface.{Redis}
use bookit.SeatLock.Cluster.{
  Delivery, answered, unanswered, dropped, executed, Node, Cluster, run_at, on_all, zrem_cluster,
}

module _ (R : Redis) where
  -- The queue of a node does not have a member.
  abbrev pub Gone : Member → Node R → Type 0
  Gone m n = R.zsets.score n.zsets processing_queue m ≡ none

  pub zrem-gone :
      (z : R.zsets.Store) (k : Key) (m x : Member)
      → R.zsets.score z processing_queue m ≡ none
      → R.zsets.score (R.zsets.zrem z k x) processing_queue m ≡ none
  zrem-gone z k m x h = elim (Key-discrete k processing_queue) [
    | no ne ↦ R.zsets.score-zrem_ne z k processing_queue x m (inl ne) ∙ h
    | yes p ↦ elim (Member-discrete x m) [
      | no ne ↦ R.zsets.score-zrem_ne z k processing_queue x m (inr ne) ∙ h
      | yes q ↦ rw (p, q) (R.zsets.score-zrem_self z processing_queue m)
    ]
  ]

  -- A step that adds no member to a queue.
  pub record Below (c c' : Cluster R) : Type 0 where
    pub same : c'.size ≡ c.size
    pub gone : (m : Member) (j : ℕ) → Gone m (c.node j) → Gone m (c'.node j)

  pub Below-refl : (c : Cluster R) → Below c c
  Below-refl c = record { same = refl; gone = λ m j h. h }

  pub Below-trans : (c d e : Cluster R) → Below c d → Below d e → Below c e
  Below-trans c d e h k = record {
    same = k.same ∙ h.same;
    gone = λ m j g. k.gone m j (h.gone m j g);
  }

  abbrev pub Shrinks : (Node R → Node R) → Type 0
  Shrinks f = (m : Member) (n : Node R) → Gone m n → Gone m (f n)

  pub run_at-Below :
      {A : Type 0} (d : Delivery) (i : ℕ) (f : Node R → Node R × A) (c : Cluster R)
      → Shrinks (λ n. (f n).0)
      → Below c (run_at R d i f c).0
  unfolding run_at
  run_at-Below answered i f c k = record {
    same = refl;
    gone = λ m j h. elim (Bool-cases (i == j)) [
      | inl e ↦ rw e (k m _ (subst (λ x. Gone m (c.node x)) (sym ((==_iff i j).0 e)) h))
      | inr e ↦ rw e h
    ];
  }
  run_at-Below unanswered i f c k = record {
    same = refl;
    gone = λ m j h. elim (Bool-cases (i == j)) [
      | inl e ↦ rw e (k m _ (subst (λ x. Gone m (c.node x)) (sym ((==_iff i j).0 e)) h))
      | inr e ↦ rw e h
    ];
  }
  run_at-Below dropped i f c k = record {
    same = refl;
    gone = λ m j h. elim (Bool-cases (i == j)) [
      | inl e ↦ rw e (subst (λ x. Gone m (c.node x)) (sym ((==_iff i j).0 e)) h)
      | inr e ↦ rw e h
    ];
  }

  pub on_all-Below :
      (d : ℕ → Delivery) (f : Node R → Node R) (c : Cluster R)
      → Shrinks f
      → Below c (on_all R d f c)
  unfolding on_all
  on_all-Below d f c k = record {
    same = refl;
    gone = λ m j h. elim (Bool-cases (ltb j c.size && executed (d j))) [
      | inl e ↦ rw e (k m _ h)
      | inr e ↦ rw e h
    ];
  }

  -- A server of the list that a command on all servers reaches.
  pub on_all-Gone :
      (d : ℕ → Delivery) (m : Member) (c : Cluster R) (j : ℕ)
      → j < c.size
      → executed (d j) ≡ true
      → Gone m ((zrem_cluster R d processing_queue m c).node j)
  unfolding on_all zrem_cluster
  on_all-Gone d m c j h e =
      rw (lt→ltb j c.size h, e) (R.zsets.score-zrem_self (c.node j).zsets processing_queue m)

  pub zrem_cluster-Below :
      (d : ℕ → Delivery) (k : Key) (m : Member) (c : Cluster R) → Below c (zrem_cluster R d k m c)
  unfolding zrem_cluster
  zrem_cluster-Below d k m c = on_all-Below d _ c (λ x n h. zrem-gone n.zsets k x m h)
