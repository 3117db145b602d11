-- ===== src/SeatLock/Every.antt =====
-- Properties of one server that hold on every server (packages/redis-conn/src/single_node_lock.rs).
use bookit.Common.{
  ℕ, inl, inr, Bool, true, false, ◌&&◌, ltb, ◌==◌, Bool-cases, Option-cases, if◌then◌else◌,
}
use bookit.Redis.Interface.{Redis}
use bookit.SeatLock.Cluster.{
  Delivery, answered, unanswered, dropped, Env, Node, Cluster, run_at, on_all, executed,
}
use bookit.SeatLock.Route.{pool_for_seat}
use bookit.SeatLock.Scripts.{Request}
use bookit.SeatLock.Single.{at_seat}

-- What one step of a node keeps, a call keeps on every server.
module _ (R : Redis) (P : Node R → Type 0) where
  pub record Every (c : Cluster R) : Type 0 where
    pub at : (j : ℕ) → P (c.node j)

  pub run_at-Every :
      {A : Type 0} (d : Delivery) (i : ℕ) (f : Node R → Node R × A) (c : Cluster R)
      → ((n : Node R) → P n → P (f n).0)
      → Every c
      → Every (run_at R d i f c).0
  unfolding run_at
  run_at-Every answered i f c k h = record {
    at = λ j. elim (Bool-cases (i == j)) [ inl e ↦ rw e (k _ (h.at i)) | inr e ↦ rw e (h.at j) ];
  }
  run_at-Every unanswered i f c k h = record {
    at = λ j. elim (Bool-cases (i == j)) [ inl e ↦ rw e (k _ (h.at i)) | inr e ↦ rw e (h.at j) ];
  }
  run_at-Every dropped i f c k h = record {
    at = λ j. elim (Bool-cases (i == j)) [ inl e ↦ rw e (h.at i) | inr e ↦ rw e (h.at j) ];
  }

  pub on_all-Every :
      (d : ℕ → Delivery) (f : Node R → Node R) (c : Cluster R)
      → ((n : Node R) → P n → P (f n))
      → Every c
      → Every (on_all R d f c)
  unfolding on_all
  on_all-Every d f c k h = record {
    at = λ j. elim (Bool-cases (ltb j c.size && executed (d j))) [
      | inl e ↦ rw e (k _ (h.at j))
      | inr e ↦ rw e (h.at j)
    ];
  }

  pub at_seat-Every :
      {A : Type 0} (e : Env) (refused : A) (f : ℕ → Cluster R → Cluster R × A) (q : Request)
      (c : Cluster R)
      → ((i : ℕ) → Every (f i c).0)
      → Every c
      → Every (at_seat R e refused f q c).0
  unfolding at_seat
  at_seat-Every e refused f q c k h =
      elim (Option-cases (pool_for_seat R c q.showtime_id q.seat_id)) [
        | inl p ↦ rw (p, at_seat) h
        | inr (i, p) ↦ elim (Bool-cases (e.connects i)) [
          | inl up ↦ rw (p, at_seat) (rw up (k i))
          | inr down ↦ rw (p, at_seat) (rw down h)
        ]
      ]

  pub if-Every :
      (b : Bool) (x y : Cluster R × Bool) → Every x.0 → Every y.0 → Every (if b then x else y).0
  if-Every true x y h k = h
  if-Every false x y h k = k
