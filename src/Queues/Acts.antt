-- ===== src/Queues/Acts.antt =====
-- The activation queue: its invariant, and activation of a routine.
use ssm_runtime.Base.{
  ℕ, suc, ◌+◌, ◌≤◌, ◌<◌, ◌≡◌, refl, ap, ◌∙◌, true, false, ◌||◌, ok, arith, ◌==◌, if◌then◌else◌, inl,
  inr, update, Bool-cases,
}
use ssm_runtime.Heap.{percolate_up}
use ssm_runtime.Heap.Count.{count, count_end, count-percolate_up}
use ssm_runtime.Heap.Order.{IsHeap, IsHeap-keys, IsHeap-HoleAt_end, percolate_up-IsHeap}
use ssm_runtime.State.{State, act_queue_size, priority_in}
use ssm_runtime.Queues.{act_queue_percolate_up, activate}

-- The queue is a heap by priority that holds the routines marked `scheduled`, each once.
pub record ActInv (s : State) : Type 0 where
  pub heap : IsHeap (priority_in s) s.act_queue s.act_queue_len
  pub counted :
      (a : ℕ) → count s.act_queue s.act_queue_len a ≡ (if (s.act a).scheduled then 1 else 0)
  pub bounded : s.act_queue_len ≤ act_queue_size

-- Only the queue changed, and which routines are scheduled.
pub record ActsOnly (s s' : State) : Type 0 where
  pub frame :
      s' ≡ record s { act_queue = s'.act_queue; act_queue_len = s'.act_queue_len; act = s'.act }
  pub acts : (a : ℕ) → s'.act a ≡ record (s.act a) { scheduled = (s'.act a).scheduled }

pub record Activated (act : ℕ) (s s' : State) : Type 0 where
  pub inv : ActInv s'
  pub only : ActsOnly s s'
  pub marked : (a : ℕ) → (s'.act a).scheduled ≡ ((s.act a).scheduled || act == a)
  pub grown : s'.act_queue_len ≤ s.act_queue_len + 1

pub ActsOnly-self : (s : State) → ActsOnly s s
ActsOnly-self s = record { frame = refl; acts = λ a. refl }

pub ActsOnly-trans : (s s1 s2 : State) → ActsOnly s s1 → ActsOnly s1 s2 → ActsOnly s s2
ActsOnly-trans s s1 s2 d e = record {
  frame =
      e.frame
      ∙ ap
          (λ (t : State). record t {
            act_queue = s2.act_queue;
            act_queue_len = s2.act_queue_len;
            act = s2.act;
          })
          d.frame;
  acts = λ a. ground (arith, d.acts a, e.acts a);
}

-- Activation returns on a well-formed queue, if a routine that is not yet scheduled finds room. It
-- adds exactly that routine, changes no other part of the state, and keeps the queue well formed.
pub activate-Activated :
    (act : ℕ) (s : State)
    → ActInv s
    → ((s.act act).scheduled ≡ false → s.act_queue_len < act_queue_size)
    → (s' : State) × (activate act s ≡ ok s') × Activated act s s'
unfolding activate act_queue_percolate_up
activate-Activated act s inv room = elim (Bool-cases (s.act act).scheduled) [
  | inl again ↦ (
    s,
    rw again,
    record { inv = inv; only = ActsOnly-self s; marked = λ a. ground arith; grown = omega arith },
  )
  | inr fresh ↦
      let space : s.act_queue_len < act_queue_size = room fresh in
      let q = percolate_up (priority_in s) s.act_queue (suc s.act_queue_len) act in
      let s' = record s {
        act_queue = q;
        act_queue_len = suc s.act_queue_len;
        act = update s.act act (record (s.act act) { scheduled = true });
      } in
      (
        s',
        rw fresh (ground arith),
        record {
          inv = record {
            heap =
                IsHeap-keys (priority_in s) (priority_in s') q (suc s.act_queue_len)
                  (λ p. ground arith)
                  (percolate_up-IsHeap (priority_in s) s.act_queue (suc s.act_queue_len)
                    (suc s.act_queue_len) act (omega arith) (omega arith)
                    (IsHeap-HoleAt_end (priority_in s) s.act_queue s.act_queue_len inv.heap)
                    (λ i c d e. absurd (omega arith)));
            counted = λ a. ground (
              arith,
              inv.counted a,
              count_end s.act_queue s.act_queue_len a,
              count-percolate_up (priority_in s) s.act_queue (suc s.act_queue_len) act
                  (suc s.act_queue_len) a,
            );
            bounded = omega arith;
          };
          only = record { frame = refl; acts = λ a. ground arith };
          marked = λ a. ground arith;
          grown = omega arith;
        },
      )
]
