-- ===== src/Gateway/Eviction.antt =====
-- The life of a show's actor (apps/gateway-keeper/src/state_active.rs): requests that begin and end,
-- the cleanup worker's eviction, and the others that set `closing`, interleaved at each atomic operation.
-- The counter is the number that the atomic holds; the other counts say how many requests stand at which
-- point of `begin_request`, and are no part of the program's state. A load may read an older value where
-- the source's Acquire, Release and AcqRel are all that orders the operations.
use bookit.Common.{ℕ, suc, ◌+◌, ◌-◌, ◌≤◌, ◌≡◌, refl, Bool, true, false, arith}
use bookit.Gateway.Actor.{actor_idle_ttl_secs}

-- Where the cleanup worker stands in `try_begin_idle_eviction`.
pub data Evictor : Type 0 where
  idle  -- before it, or after an attempt that failed
        timed  -- it found the actor idle for long enough
        claimed  -- it set `closing`
        counted  -- it read a count other than 0, and is about to reset `closing`
        evicted :
      Evictor  -- it returned true

pub record State : Type 0 where
  pub in_flight : ℕ
  pub closing : Bool
  pub last_access : ℕ
  pub evictor : Evictor
  pub checked : ℕ  -- requests past the first load of `closing`
  pub added : ℕ  -- requests past the increment
  pub backing : ℕ  -- requests that read `closing` after the increment, and will decrement
  pub opened : ℕ  -- requests past the second load, about to write `last_access`
  pub leased : ℕ  -- requests that hold a lease
  pub dropping : ℕ  -- leases past the write of `last_access` of `Drop`

unfoldable pub initial : ℕ → State
initial now = record {
  in_flight = 0;
  closing = false;
  last_access = now;
  evictor = idle;
  checked = 0;
  added = 0;
  backing = 0;
  opened = 0;
  leased = 0;
  dropping = 0;
}

-- How the atomic operations are ordered: all of them in one order, or as the source has it.
pub data Ordering : Type 0 where
  seq_cst acq_rel : Ordering

-- What a load may read where the last value written is `current`; under `acq_rel` any value, which is more
-- than the memory model allows. Operations that read and write work on the last value.
abbrev pub Reads : Ordering → {A : Type 0} → A → A → Type 0
Reads seq_cst current value = value ≡ current
Reads acq_rel current value = Unit

-- One atomic operation of one task. A compare_exchange that fails is a load.
pub data Step (o : Ordering) : State → State → Type 0 where
  load : (s : State) → Reads o s.closing false → Step o s (record s { checked = suc s.checked })
  add :
      (s : State) (n : ℕ)
      → s.checked ≡ suc n
      → Step o s (record s { checked = n; in_flight = suc s.in_flight; added = suc s.added })
  reload :
      (s : State) (n : ℕ)
      → s.added ≡ suc n
      → Reads o s.closing false
      → Step o s (record s { added = n; opened = suc s.opened })
  back :
      (s : State) (n : ℕ)
      → s.added ≡ suc n
      → Reads o s.closing true
      → Step o s (record s { added = n; backing = suc s.backing })
  sub :
      (s : State) (n : ℕ)
      → s.backing ≡ suc n
      → Step o s (record s { backing = n; in_flight = s.in_flight - 1 })
  start :
      (s : State) (n now : ℕ)
      → s.opened ≡ suc n
      → Step o s (record s { opened = n; last_access = now; leased = suc s.leased })
  touch :
      (s : State) (n now : ℕ)
      → s.leased ≡ suc n
      → Step o s (record s { leased = n; last_access = now; dropping = suc s.dropping })
  drop :
      (s : State) (n : ℕ)
      → s.dropping ≡ suc n
      → Step o s (record s { dropping = n; in_flight = s.in_flight - 1 })
  time :
      (s : State) (now read : ℕ)
      → s.evictor ≡ idle
      → Reads o s.last_access read
      → actor_idle_ttl_secs ≤ now - read
      → Step o s (record s { evictor = timed })
  claim :
      (s : State)
      → s.evictor ≡ timed
      → s.closing ≡ false
      → Step o s (record s { evictor = claimed; closing = true })
  refuse :
      (s : State)
      → s.evictor ≡ timed
      → Reads o s.closing true
      → Step o s (record s { evictor = idle })
  empty :
      (s : State)
      → s.evictor ≡ claimed
      → Reads o s.in_flight 0
      → Step o s (record s { evictor = evicted })
  busy :
      (s : State) (n : ℕ)
      → s.evictor ≡ claimed
      → Reads o s.in_flight (suc n)
      → Step o s (record s { evictor = counted })
  reset :
      (s : State) → s.evictor ≡ counted → Step o s (record s { evictor = idle; closing = false })
  -- The show is closed, or its actor is dropped.
  shut : (s : State) → Step o s (record s { closing = true })

pub data Reachable (o : Ordering) : State → Type 0 where
  starts : (now : ℕ) → Reachable o (initial now)
  steps : (s t : State) → Reachable o s → Step o s t → Reachable o t

-- The points where the worker has set `closing` and not reset it.
abbrev pub has_flag : Evictor → Bool
has_flag idle = false
has_flag timed = false
has_flag claimed = true
has_flag counted = true
has_flag evicted = true

-- Every request past its increment is counted, the flag is set while the worker has the actor, and, where
-- loads read the last value, only requests that will turn back are counted once it has evicted the actor.
abbrev pub Invariant : Ordering → State → Type 0
Invariant o s =
    (s.in_flight ≡ s.added + s.backing + s.opened + s.leased + s.dropping)
    × (has_flag s.evictor ≡ true → s.closing ≡ true)
    × (o ≡ seq_cst → s.evictor ≡ evicted → s.opened + s.leased + s.dropping ≡ 0)

initial-Invariant : (o : Ordering) (now : ℕ) → Invariant o (initial now)
unfolding initial
initial-Invariant o now = (omega arith, λ h. cc, λ q h. cc)

latest :
    (o : Ordering) {A : Type 0} (current value : A)
    → Reads o current value
    → o ≡ seq_cst
    → value ≡ current
latest seq_cst current value h q = h
latest acq_rel current value h q = cc q

step-Invariant : (o : Ordering) (s t : State) → Step o s t → Invariant o s → Invariant o t
step-Invariant o _ _ (load s c) (x, y, z) = (x, y, z)
step-Invariant o _ _ (add s n h) (x, y, z) = (omega arith, y, z)
step-Invariant o _ _ (reload s n h c) (x, y, z) = (
  omega arith,
  λ h. y h,
  λ q e.
      let read : false ≡ s.closing = latest o s.closing false c q in
      let flag : s.closing ≡ true = y (rw e refl) in absurd (cc (read, flag)),
)
step-Invariant o _ _ (back s n h c) (x, y, z) = (omega arith, y, z)
step-Invariant o _ _ (sub s n h) (x, y, z) = (omega arith, y, z)
step-Invariant o _ _ (start s n now h) (x, y, z) = (omega arith, y, λ q e. omega (arith, z q e))
step-Invariant o _ _ (touch s n now h) (x, y, z) = (omega arith, y, λ q e. omega (arith, z q e))
step-Invariant o _ _ (drop s n h) (x, y, z) = (omega arith, y, λ q e. omega (arith, z q e))
step-Invariant o _ _ (time s now read h r l) (x, y, z) = (x, λ e. cc, λ q e. cc)
step-Invariant o _ _ (claim s h c) (x, y, z) = (x, λ e. refl, λ q e. cc)
step-Invariant o _ _ (refuse s h c) (x, y, z) = (x, λ e. cc, λ q e. cc)
step-Invariant o _ _ (empty s h c) (x, y, z) = (
  x,
  λ e. y (rw h refl),
  λ q e. let read : 0 ≡ s.in_flight = latest o s.in_flight 0 c q in omega (arith, read),
)
step-Invariant o _ _ (busy s n h c) (x, y, z) = (x, λ e. y (rw h refl), λ q e. cc)
step-Invariant o _ _ (reset s h) (x, y, z) = (x, λ e. cc, λ q e. cc)
step-Invariant o _ _ (shut s) (x, y, z) = (x, λ e. refl, z)

Reachable-Invariant : (o : Ordering) (s : State) → Reachable o s → Invariant o s
Reachable-Invariant o _ (starts now) = initial-Invariant o now
Reachable-Invariant o _ (steps s t r h) = step-Invariant o s t h (Reachable-Invariant o s r)

-- In every state that the requests, the cleanup worker and the others that set `closing` reach, in any
-- order of their atomic operations: whatever older values the loads read, the counter is the number of
-- requests that incremented it and have yet to decrement it, and `closing` is set from the moment the worker
-- has evicted the actor; and if the operations are sequentially consistent, which the source's Acquire,
-- Release and AcqRel do not promise, no request holds a lease then or is about to get one.
pub evicted-no_lease :
    (o : Ordering) (s : State)
    → Reachable o s
    → (s.in_flight ≡ s.added + s.backing + s.opened + s.leased + s.dropping)
      × ((s.evictor ≡ evicted → s.closing ≡ true)
          × (o ≡ seq_cst
              → s.evictor ≡ evicted
              → (s.opened ≡ 0) × (s.leased ≡ 0) × (s.dropping ≡ 0)))
evicted-no_lease o s r =
    let (x, y, z) = Reachable-Invariant o s r in
    (
      x,
      (
        λ e. y (rw e refl),
        λ q e. (omega (arith, z q e), omega (arith, z q e), omega (arith, z q e)),
      ),
    )
