-- ===== src/Scheduler/Pop.antt =====
-- The two removals of the tick, from queues whose root is already marked as gone.
use ssm_runtime.Base.{
  ℕ, suc, ◌+◌, ◌-◌, ◌≤◌, ◌<◌, ◌^◌, ◌≡◌, refl, ap, ok, arith, if◌then◌else◌, one_if,
}
use ssm_runtime.Heap.Count.{count}
use ssm_runtime.Heap.Pop.{IsHeapBelow, pop_root, pop_root-IsHeap, count-pop_root}
use ssm_runtime.State.{State, event_queue_size, act_queue_size, later_time_in, priority_in}
use ssm_runtime.Queues.{decr16, event_queue_percolate_down, act_queue_percolate_down}
use ssm_runtime.Queues.Events.{EventInv, pending}
use ssm_runtime.Queues.Acts.{ActInv}
use ssm_runtime.Scheduler.{event_queue_pop, act_queue_pop}

-- The event queue is well formed but for its root, whose variable is no longer pending.
pub record EventRootGone (s : State) : Type 0 where
  pub below : IsHeapBelow (later_time_in s) s.event_queue s.event_queue_len
  pub counted :
      (p : ℕ)
      → count s.event_queue s.event_queue_len p
        ≡ (if pending s p then 1 else 0) + one_if (s.event_queue 1) p
  pub occupied : 1 ≤ s.event_queue_len
  pub bounded : s.event_queue_len ≤ event_queue_size

-- Where the event queue is well formed but for its root, whose variable is no longer pending, the
-- removal of the root by the tick returns, and leaves a well-formed queue one shorter and nothing
-- else changed.
pub event_queue_pop-EventInv :
    (s : State)
    → EventRootGone s
    → (s' : State) × (event_queue_pop s ≡ ok s')
      × EventInv s'
      × (s' ≡ record s { event_queue = s'.event_queue; event_queue_len = s.event_queue_len - 1 })
unfolding event_queue_pop event_queue_percolate_down pop_root
event_queue_pop-EventInv s gone =
    let n = s.event_queue_len - 1 in
    let size : s.event_queue_len ≡ suc n = omega (arith, gone.occupied) in
    let last : decr16 s.event_queue_len ≡ n = omega (arith, gone.bounded, gone.occupied) in
    let q = pop_root (later_time_in s) s.event_queue n in
    (
      record s { event_queue = q; event_queue_len = n },
      rw last (ground (arith, ap s.event_queue size)),
      record {
        heap =
            pop_root-IsHeap (later_time_in s) s.event_queue n (omega (arith, gone.bounded))
              (λ i a b c. gone.below i a (omega arith) c);
        counted = λ p. ground (
          arith,
          gone.counted p,
          count-pop_root (later_time_in s) s.event_queue n (omega (arith, gone.bounded)) p,
        );
        bounded = omega (arith, gone.bounded);
      },
      refl,
    )

-- The activation queue is well formed but for its root, whose routine is marked idle.
pub record ActRootGone (s : State) : Type 0 where
  pub below : IsHeapBelow (priority_in s) s.act_queue s.act_queue_len
  pub counted :
      (a : ℕ)
      → count s.act_queue s.act_queue_len a
        ≡ (if (s.act a).scheduled then 1 else 0) + one_if (s.act_queue 1) a
  pub occupied : 1 ≤ s.act_queue_len
  pub bounded : s.act_queue_len ≤ act_queue_size

pub act_queue_pop-ActInv :
    (s : State)
    → ActRootGone s
    → (s' : State) × (act_queue_pop s ≡ ok s')
      × ActInv s'
      × (s' ≡ record s { act_queue = s'.act_queue; act_queue_len = s.act_queue_len - 1 })
unfolding act_queue_pop act_queue_percolate_down pop_root
act_queue_pop-ActInv s gone =
    let n = s.act_queue_len - 1 in
    let size : s.act_queue_len ≡ suc n = omega (arith, gone.occupied) in
    let last : decr16 s.act_queue_len ≡ n = omega (arith, gone.bounded, gone.occupied) in
    let small : n < 2 ^ 15 = omega (arith, gone.bounded) in
    let q = pop_root (priority_in s) s.act_queue n in
    (
      record s { act_queue = q; act_queue_len = n },
      rw last (ground (arith, ap s.act_queue size)),
      record {
        heap =
            pop_root-IsHeap (priority_in s) s.act_queue n small
              (λ i a b c. gone.below i a (omega arith) c);
        counted = λ a.
            ground (arith, gone.counted a, count-pop_root (priority_in s) s.act_queue n small a);
        bounded = omega (arith, gone.bounded);
      },
      refl,
    )
