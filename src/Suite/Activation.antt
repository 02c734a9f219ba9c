-- ===== src/Suite/Activation.antt =====
-- `act_queue_sort_string` of test/test-scheduler.c: the routines on the activation queue, which its loop
-- takes off without a change of their marks.
use ssm_runtime.Base.{
  ℕ, suc, ◌-◌, ◌/◌, ◌^◌, ◌≤◌, ◌<◌, ◌≡◌, ◌≢◌, ap, Bool, true, false, ok, ◌>>=◌, arith, ◌==◌,
  if◌then◌else◌, inr, ℕ_discrete,
}
use ssm_runtime.Heap.{percolate_up}
use ssm_runtime.Heap.Count.{count, count_place, count_end, count-percolate_up}
use ssm_runtime.Heap.Order.{IsHeap, IsHeap-keys, IsHeap-HoleAt_end, percolate_up-IsHeap}
use ssm_runtime.Heap.Pop.{pop_root, pop_root-IsHeap, count-pop_root}
use ssm_runtime.State.{State, null, act_queue_size, priority_in, put_act}
use ssm_runtime.Queues.{activate, act_queue_percolate_up, act_queue_percolate_down, decr16}
use ssm_runtime.Queues.Checks.{act_queue_consistency_check-Passes}
use ssm_runtime.Scheduler.{act_queue_pop}
use ssm_runtime.Suite.{acts_checked}

-- The queue is a heap of the routines that `on` tells, each once, and they are marked.
pub record Holds (on : ℕ → Bool) (s : State) : Type 0 where
  pub heap : IsHeap (priority_in s) s.act_queue s.act_queue_len
  pub counted : (a : ℕ) → count s.act_queue s.act_queue_len a ≡ (if on a then 1 else 0)
  pub bounded : s.act_queue_len ≤ act_queue_size
  pub real : (a : ℕ) → on a ≡ true → a ≢ null
  pub marked : (a : ℕ) → on a ≡ true → (s.act a).scheduled ≡ true

pub place_on :
    (on : ℕ → Bool) (s : State) (i : ℕ)
    → Holds on s
    → 1 ≤ i
    → i ≤ s.act_queue_len
    → on (s.act_queue i) ≡ true
place_on on s i h a b =
    ground
      (arith, h.counted (s.act_queue i), count_place s.act_queue s.act_queue_len i (s.act_queue i))

-- the check passes
pub acts_checked_run : (on : ℕ → Bool) (s : State) → Holds on s → acts_checked s ≡ ok s
acts_checked_run on s h =
    let pass = (act_queue_consistency_check-Passes s).1 (
      inr (
        h.bounded,
        h.heap,
        λ i a b.
            let here = place_on on s i h a b in
            (h.real (s.act_queue i) here, h.marked (s.act_queue i) here),
      )) in
    ap (λ r. r >>= λ u. ok s) pass

-- a routine more, and one less
abbrev pub with_act : (act : ℕ) → (ℕ → Bool) → ℕ → Bool
with_act act on a = if a == act then true else on a

abbrev pub without_act : (act : ℕ) → (ℕ → Bool) → ℕ → Bool
without_act act on a = if a == act then false else on a

pub act_queue_pop_run :
    (s : State)
    → 1 ≤ s.act_queue_len
    → s.act_queue_len ≤ act_queue_size
    → act_queue_pop s
      ≡ ok (record s {
        act_queue = pop_root (priority_in s) s.act_queue (s.act_queue_len - 1);
        act_queue_len = s.act_queue_len - 1;
      })
unfolding act_queue_pop act_queue_percolate_down pop_root
act_queue_pop_run s occupied small =
    let n = s.act_queue_len - 1 in
    let size : s.act_queue_len ≡ suc n = omega (arith, occupied) in
    let last : decr16 s.act_queue_len ≡ n = omega (arith, small, occupied) in
    rw last (ground (arith, ap s.act_queue size))

pub popped-Holds :
    (on : ℕ → Bool) (s : State)
    → Holds on s
    → 1 ≤ s.act_queue_len
    → Holds (without_act (s.act_queue 1) on) (record s {
      act_queue = pop_root (priority_in s) s.act_queue (s.act_queue_len - 1);
      act_queue_len = s.act_queue_len - 1;
    })
popped-Holds on s h occupied =
    let n = s.act_queue_len - 1 in
    let size : suc n ≡ s.act_queue_len = omega (arith, occupied) in
    let small : n < 2 ^ 15 = omega (arith, h.bounded) in
    record {
      heap =
          pop_root-IsHeap (priority_in s) s.act_queue n small
            (λ i a b c. h.heap i a (omega (arith, b, size)));
      counted = λ a. ground (
        arith,
        h.counted a,
        ap (λ m. count s.act_queue m a) size,
        count-pop_root (priority_in s) s.act_queue n small a,
        place_on on s 1 h (omega arith) occupied,
      );
      bounded = omega (arith, h.bounded);
      real = λ a in_queue. h.real a (ground (arith, in_queue));
      marked = λ a in_queue. h.marked a (ground (arith, in_queue));
    }

-- a routine gets a priority, and then its place on the queue
abbrev pub given : (act c : ℕ) → State → State
given act c s = put_act act (record (s.act act) { scheduled = false; priority = c }) s

abbrev pub scheduled_with : (act c : ℕ) → State → State
scheduled_with act c s =
    let s1 = given act c s in
    put_act act (record (s1.act act) { scheduled = true })
      (record s1 {
        act_queue = percolate_up (priority_in s1) s.act_queue (suc s.act_queue_len) act;
        act_queue_len = suc s.act_queue_len;
      })

pub activate_run :
    (act c : ℕ) (s : State)
    → s.act_queue_len < act_queue_size
    → activate act (given act c s) ≡ ok (scheduled_with act c s)
unfolding activate act_queue_percolate_up
activate_run act c s room = ground (arith, room)

pub scheduled-Holds :
    (on : ℕ → Bool) (act c : ℕ) (s : State)
    → Holds on s
    → on act ≡ false
    → act ≢ null
    → s.act_queue_len < act_queue_size
    → Holds (with_act act on) (scheduled_with act c s)
scheduled-Holds on act c s h off real room =
    let n = s.act_queue_len in
    let s1 = given act c s in
    let s2 = scheduled_with act c s in
    let before : IsHeap (priority_in s1) s.act_queue n = λ i a b. ground (
      arith,
      h.heap i,
      h.counted act,
      count_place s.act_queue n i act,
      count_place s.act_queue n (i / 2) act,
      off,
    ) in
    record {
      heap =
          IsHeap-keys (priority_in s1) (priority_in s2) s2.act_queue (suc n) (λ p. ground arith)
            (percolate_up-IsHeap (priority_in s1) s.act_queue (suc n) (suc n) act (omega arith)
              (omega arith) (IsHeap-HoleAt_end (priority_in s1) s.act_queue n before)
              (λ i a b c. absurd (omega arith)));
      counted = λ p. ground (
        arith,
        h.counted p,
        count_end s.act_queue n p,
        count-percolate_up (priority_in s1) s.act_queue (suc n) act (suc n) p,
        off,
      );
      bounded = omega arith;
      real = λ a in_queue. elim (ℕ_discrete a act) [
        | yes e ↦ rw e real
        | no f ↦ h.real a (ground (arith, in_queue))
      ];
      marked = λ a in_queue. ground (arith, in_queue, h.marked a);
    }
