-- ===== src/Queues/Events.antt =====
-- The event queue: its invariant, the search for an event, and a new event.
pub mod Remove
use ssm_runtime.Base.{
  ℕ, suc, ◌+◌, ◌/◌, ◌≤◌, ◌<◌, ◌^◌, ◌≡◌, ◌≢◌, ◌↔◌, refl, sym, ◌∙◌, Bool, true, false, ◌||◌, Result,
  ok, throw, Error, arith, ltb, leb, ◌==◌, if◌then◌else◌, inl, inr, update, one_if, Bool-cases,
}
use ssm_runtime.Heap.{percolate_up, percolate_down, reposition}
use ssm_runtime.Heap.Count.{
  count, count_end, count_once, count_place, count_none, count-percolate_up,
}
use ssm_runtime.Heap.Search.{find_counted, find_place}
use ssm_runtime.Heap.Order.{
  IsHeap, IsHeap-keys, IsHeap-HoleAt_end, percolate_up-IsHeap, IsHeap-keys, root_least,
}
use mathlib.Core.Path.{subst, sym}
use ssm_runtime.State.{State, Sv, never, event_queue_size, later_time_in}
use ssm_runtime.Queues.{
  event_queue_percolate_up, event_queue_percolate_down, event_queue_reposition, find_queued_event,
  next_event_time,
}

-- a variable has a pending event
abbrev pub pending : State → ℕ → Bool
pending s p = if later_time_in s p == never then false else true

-- The queue is a heap by time that holds the variables whose `later_time` is set, each once.
pub record EventInv (s : State) : Type 0 where
  pub heap : IsHeap (later_time_in s) s.event_queue s.event_queue_len
  pub counted : (p : ℕ) → count s.event_queue s.event_queue_len p ≡ (if pending s p then 1 else 0)
  pub bounded : s.event_queue_len ≤ event_queue_size

-- only the queue and the variables changed
abbrev pub EventsOnly : State → State → Type 0
EventsOnly s s' =
    s' ≡ record s { event_queue = s'.event_queue; event_queue_len = s'.event_queue_len; sv = s'.sv }

-- a variable that stands in the queue is found, if its time is set
pub find_queued_event-counted :
    (var : ℕ) (s : State)
    → 1 ≤ count s.event_queue s.event_queue_len var
    → pending s var ≡ true
    → (hole : ℕ) × (find_queued_event var s ≡ ok hole)
      × (1 ≤ hole)
      × (hole ≤ s.event_queue_len)
      × (s.event_queue hole ≡ var)
unfolding find_queued_event
find_queued_event-counted var s once due =
    let (hole, found) = find_counted s.event_queue s.event_queue_len var once in
    let (a, b, c) = find_place s.event_queue s.event_queue_len var hole found in
    (hole, rw found (ground arith), a, b, c)

-- a pending variable is found where it stands
pub find_queued_event-place :
    (var : ℕ) (s : State)
    → EventInv s
    → pending s var ≡ true
    → (hole : ℕ) × (find_queued_event var s ≡ ok hole)
      × (1 ≤ hole)
      × (hole ≤ s.event_queue_len)
      × (s.event_queue hole ≡ var)
find_queued_event-place var s inv due =
    find_queued_event-counted var s (ground (arith, inv.counted var)) due

-- the places of other variables
pub other_place :
    (var : ℕ) (s : State) (i hole : ℕ)
    → EventInv s
    → 1 ≤ hole
    → hole ≤ s.event_queue_len
    → s.event_queue hole ≡ var
    → 1 ≤ i
    → i ≤ s.event_queue_len
    → i ≢ hole
    → s.event_queue i ≢ var
other_place var s i hole inv a b c d e f =
    count_once s.event_queue s.event_queue_len hole i var (ground (arith, inv.counted var)) a b d e
      c f

-- repositioning passes its assertion at a place inside the queue
pub event_queue_reposition-ok :
    (hole time var : ℕ) (s : State)
    → 1 ≤ hole
    → hole ≤ s.event_queue_len
    → later_time_in s var ≡ time
    → event_queue_reposition hole time var s
      ≡ ok (record s {
        event_queue = reposition (later_time_in s) s.event_queue s.event_queue_len hole var;
      })
unfolding event_queue_reposition event_queue_percolate_up event_queue_percolate_down reposition
event_queue_reposition-ok hole time var s a b e = ground arith

-- the invariant looks at the queue and at the times alone
pub EventInv-same :
    (s t : State)
    → t.event_queue ≡ s.event_queue
    → t.event_queue_len ≡ s.event_queue_len
    → ((p : ℕ) → later_time_in t p ≡ later_time_in s p)
    → EventInv s
    → EventInv t
EventInv-same s t eq el ek inv = record {
  heap =
      subst (λ q. IsHeap (later_time_in t) q t.event_queue_len) (sym eq)
        (subst (λ n. IsHeap (later_time_in t) s.event_queue n) (sym el)
          (IsHeap-keys (later_time_in s) (later_time_in t) s.event_queue s.event_queue_len ek
            inv.heap));
  counted = λ p. simp (eq, el) (ground (arith, inv.counted p, ek p));
  bounded = simp el inv.bounded;
}

-- a queue with a root has a pending variable there
pub root_pending :
    (s : State) → EventInv s → 1 ≤ s.event_queue_len → pending s (s.event_queue 1) ≡ true
root_pending s inv a = ground (
  arith,
  inv.counted (s.event_queue 1),
  count_place s.event_queue s.event_queue_len 1 (s.event_queue 1),
)

pub pending_occupied : (s : State) (p : ℕ) → EventInv s → pending s p ≡ true → 1 ≤ s.event_queue_len
pending_occupied s p inv on =
    ground (arith, inv.counted p, count_none s.event_queue s.event_queue_len p)

pub next_event_time-le :
    (s : State) (p : ℕ) → EventInv s → pending s p ≡ true → next_event_time s ≤ later_time_in s p
unfolding next_event_time
next_event_time-le s p inv due =
    let (hole, e, a, b, c) = find_queued_event-place p s inv due in
    let least =
      root_least (later_time_in s) (suc hole) s.event_queue s.event_queue_len hole (omega arith)
        inv.heap a b in
    ground (arith, least)

next_event_time-never :
    (s : State) (p : ℕ) → EventInv s → next_event_time s ≡ never → pending s p ≡ false
unfolding next_event_time
next_event_time-never s p inv e =
    ground (arith, root_pending s inv, inv.counted p, count_none s.event_queue s.event_queue_len p)

-- The next event time is the earliest of the pending variables' times, and one of them; it is
-- SSM_NEVER exactly when no variable is pending.
pub next_event_time-earliest :
    (s : State)
    → EventInv s
    → ((p : ℕ) → pending s p ≡ true → next_event_time s ≤ later_time_in s p)
      × (next_event_time s ≢ never
          → (p : ℕ) × (pending s p ≡ true) × (later_time_in s p ≡ next_event_time s))
      × (next_event_time s ≡ never ↔ ((p : ℕ) → pending s p ≡ false))
unfolding next_event_time
next_event_time-earliest s inv = (
  λ p. next_event_time-le s p inv,
  λ e. (s.event_queue 1, ground (arith, root_pending s inv), ground arith),
  (
    λ e p. next_event_time-never s p inv e,
    λ idle. ground (arith, root_pending s inv, idle (s.event_queue 1)),
  ),
)
