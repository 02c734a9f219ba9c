-- ===== src/Queues/Events/Remove.antt =====
-- Removal of a variable's event.
use ssm_runtime.Base.{
  ℕ, suc, ◌+◌, ◌-◌, ◌/◌, ◌≤◌, ◌≡◌, ◌≢◌, refl, sym, ap, ◌∙◌, true, false, ok, arith, ◌==◌,
  if◌then◌else◌, inl, inr, Bool-cases, ℕ_discrete,
}
use ssm_runtime.Heap.{reposition}
use ssm_runtime.Heap.Count.{count_end}
use ssm_runtime.Heap.Order.{IsHeap-HoleAt, root_least}
use ssm_runtime.Heap.Root.{reposition_root}
use ssm_runtime.Heap.Reposition.{reposition-IsHeap, count-reposition}
use ssm_runtime.State.{State, never, later_time_in, put_sv}
use ssm_runtime.Queues.{decr16, unschedule}
use ssm_runtime.Queues.Events.{
  EventInv, EventsOnly, pending, find_queued_event-place, other_place, event_queue_reposition-ok,
}

-- The variable is no longer pending, and nothing else changed but the order of the queue.
pub record Unscheduled (var : ℕ) (s s' : State) : Type 0 where
  pub inv : EventInv s'
  pub only : EventsOnly s s'
  pub vars :
      (p : ℕ) → s'.sv p ≡ (if var == p then record (s.sv var) { later_time = never } else s.sv p)
  pub root : s.event_queue 1 ≢ var → s'.event_queue 1 ≡ s.event_queue 1
  pub shorter : s'.event_queue_len + (if pending s var then 1 else 0) ≡ s.event_queue_len

module _ (var : ℕ) (s : State) (inv : EventInv s) (due : pending s var ≡ true) where
  -- the state between the removal of the last place and the refill of the hole
  abbrev emptied : ℕ → State
  emptied n = record (put_sv var (record (s.sv var) { later_time = never }) s) {
    event_queue_len = n;
  }

  module _ (n hole : ℕ) (size : s.event_queue_len ≡ suc n) (a : 1 ≤ hole) (b : hole ≤ suc n)
      (c : s.event_queue hole ≡ var) where
    same_key :
        (i : ℕ)
        → 1 ≤ i
        → i ≤ suc n
        → i ≢ hole
        → later_time_in (emptied n) (s.event_queue i) ≡ later_time_in s (s.event_queue i)
    same_key i d e f = ground (arith, other_place var s i hole inv)

    refilled :
        hole ≤ n
        → EventInv (record (emptied n) {
          event_queue =
              reposition (later_time_in (emptied n)) s.event_queue n hole (s.event_queue (suc n));
        })
    refilled d = record {
      heap =
          reposition-IsHeap (later_time_in (emptied n)) s.event_queue n hole (s.event_queue (suc n))
            a d (omega (arith, inv.bounded))
            (IsHeap-HoleAt (later_time_in (emptied n)) (later_time_in s) s.event_queue n hole a d
              (λ i e f. inv.heap i e (omega arith)) (λ i e f g. same_key i e (omega arith) g));
      counted = λ p. ground (
        arith,
        inv.counted p,
        count_end s.event_queue n p,
        count-reposition (later_time_in (emptied n)) s.event_queue n hole (s.event_queue (suc n)) a
            d (omega (arith, inv.bounded)) p,
      );
      bounded = omega (arith, inv.bounded);
    }

    -- the refill displaces no other variable from the root
    refilled_root :
        hole ≤ n
        → s.event_queue 1 ≢ var
        → reposition (later_time_in (emptied n)) s.event_queue n hole (s.event_queue (suc n)) 1
          ≡ s.event_queue 1
    refilled_root d other =
        let below : hole ≢ 1 = λ e. other (ap s.event_queue (sym e) ∙ c) in
        reposition_root (later_time_in (emptied n)) s.event_queue n hole (s.event_queue (suc n))
          (omega arith) d (omega (arith, inv.bounded))
          (ground (
            arith,
            same_key 1,
            same_key (suc n),
            root_least (later_time_in s) (n + 2) s.event_queue s.event_queue_len (suc n)
                (omega arith) inv.heap,
          ))

    cut : hole ≡ suc n → EventInv (emptied n)
    cut d = record {
      heap = λ i e f. ground (arith, inv.heap i, same_key i, same_key (i / 2));
      counted = λ p. ground (arith, inv.counted p, count_end s.event_queue n p);
      bounded = omega (arith, inv.bounded);
    }

  unschedule_due : (s' : State) × (unschedule var s ≡ ok s') × Unscheduled var s s'
  unfolding unschedule
  unschedule_due =
      let (hole, found, a, b, c) = find_queued_event-place var s inv due in
      let n = s.event_queue_len - 1 in
      let size : s.event_queue_len ≡ suc n = omega arith in
      let last : decr16 s.event_queue_len ≡ n = omega (arith, inv.bounded) in
      let moved : s.event_queue s.event_queue_len ≡ s.event_queue (suc n) = ap s.event_queue size in
      elim (ℕ_discrete hole (suc n)) [
        | yes e ↦ (
          emptied n,
          rw (found, last) (ground arith),
          record {
            inv = cut n hole size a (omega arith) c e;
            only = refl;
            vars = λ p. refl;
            root = λ other. refl;
            shorter = ground arith;
          },
        )
        | no e ↦ (
          record (emptied n) {
            event_queue =
                reposition (later_time_in (emptied n)) s.event_queue n hole (s.event_queue (suc n));
          },
          rw (found, last, moved)
              (ground (
                arith,
                event_queue_reposition-ok hole (later_time_in (emptied n) (s.event_queue (suc n)))
                    (s.event_queue (suc n)) (emptied n),
              )),
          record {
            inv = refilled n hole size a (omega arith) c (omega arith);
            only = refl;
            vars = λ p. refl;
            root = refilled_root n hole size a (omega arith) c (omega arith);
            shorter = ground arith;
          },
        )
      ]

-- a call on a variable with no event does nothing
pub unschedule_idle : (var : ℕ) (s : State) → pending s var ≡ false → unschedule var s ≡ ok s
unfolding unschedule
unschedule_idle var s idle = ground arith

-- On a well-formed event queue `ssm_unschedule` returns for every variable. The variable has no
-- event after it, the queue is well formed and shorter by the event that the variable had, nothing
-- else has changed but the order of the queue, and a root other than the variable stays at the
-- root.
pub unschedule-Unscheduled :
    (var : ℕ) (s : State)
    → EventInv s
    → (s' : State) × (unschedule var s ≡ ok s') × Unscheduled var s s'
unschedule-Unscheduled var s inv = elim (Bool-cases (pending s var)) [
  | inl due ↦ unschedule_due var s inv due
  | inr idle ↦ (
    s,
    unschedule_idle var s idle,
    record {
      inv = inv;
      only = refl;
      vars = λ p. ground arith;
      root = λ other. refl;
      shorter = ground arith;
    },
  )
]
