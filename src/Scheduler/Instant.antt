-- ===== src/Scheduler/Instant.antt =====
-- The loop of the tick that runs the scheduled routines. What a step function does is the program's
-- own; the contract below is what the runtime asks of it.
pub mod Order
use ssm_runtime.Base.{
  ℕ, zero, suc, ◌+◌, ◌-◌, ◌/◌, ◌≤◌, ◌<◌, ◌≡◌, ◌≢◌, ◌⊎◌, refl, sym, ap, ◌∙◌, inl, inr, Bool, true,
  false, ◌&&◌, ◌||◌, List, [], ◌∷◌, Result, ok, ◌>>=◌, arith, ltb, ◌==◌, if◌then◌else◌, one_if,
  Bool-cases, length, update,
}
use mathlib.Core.Path.{subst}
use ssm_runtime.Heap.Count.{count, count_place}
use ssm_runtime.Heap.Search.{find_counted, find_place}
use ssm_runtime.Heap.Order.{root_least}
use ssm_runtime.State.{State, priority_in, put_act}
use ssm_runtime.Queues.Acts.{ActInv, ActsOnly}
use ssm_runtime.Queues.Roster.{occurs, Roster}
use ssm_runtime.Scheduler.{Steps, run_step, act_queue_pop, act_step, tick_acts}
use ssm_runtime.Scheduler.Pop.{ActRootGone, act_queue_pop-ActInv}

-- What a call of a step function for the routine `r` may do: it returns, keeps the queue well formed
-- and the priorities as they are, and schedules no other routine than ones of a later priority.
pub record Stepped (P : State → Type 0) (u : List ℕ) (r : ℕ) (s s' : State) : Type 0 where
  pub keeps : P s'
  pub acts : ActInv s'
  pub roster : Roster u s'
  pub clock : s'.now ≡ s.now
  pub priorities : (a : ℕ) → priority_in s' a ≡ priority_in s a
  pub later :
      (a : ℕ)
      → (s'.act a).scheduled ≡ true
      → ((s.act a).scheduled ≡ true) ⊎ (priority_in s r < priority_in s a)

-- The contract, for an invariant `P` of the program.
abbrev pub Contract : (State → Type 0) → List ℕ → Steps → Type 0
Contract P u steps =
    (r : ℕ) (s : State)
    → P s
    → ActInv s
    → Roster u s
    → (s' : State) × (run_step steps r s ≡ ok s') × Stepped P u r s s'

-- A program's invariant that asks no more of the activation queue than that it is well formed.
abbrev pub Stable : (State → Type 0) → List ℕ → Type 0
Stable P u = (s s' : State) → ActsOnly s s' → ActInv s' → Roster u s' → P s → P s'

-- the routines that run, in order, until none is scheduled
pub data Runs (steps : Steps) : State → List ℕ → State → Type 0 where
  done : {s : State} → s.act_queue_len ≡ 0 → Runs steps s [] s
  next :
      {s s1 s2 : State} {r : ℕ} {rs : List ℕ}
      → s.act_queue 1 ≡ r
      → act_step steps s ≡ ok s1
      → Runs steps s1 rs s2
      → Runs steps s (r ∷ rs) s2

-- the root is scheduled, and no scheduled routine has a lower priority number
root_first :
    (s : State)
    → ActInv s
    → 1 ≤ s.act_queue_len
    → ((s.act (s.act_queue 1)).scheduled ≡ true)
      × ((a : ℕ) → (s.act a).scheduled ≡ true → priority_in s (s.act_queue 1) ≤ priority_in s a)
root_first s inv occupied = (
  ground (
    arith,
    inv.counted (s.act_queue 1),
    count_place s.act_queue s.act_queue_len 1 (s.act_queue 1),
  ),
  λ a on.
      let (hole, found) =
        find_counted s.act_queue s.act_queue_len a (ground (arith, inv.counted a)) in
      let (h, k, at) = find_place s.act_queue s.act_queue_len a hole found in
      ground (
        arith,
        at,
        root_least (priority_in s) (suc hole) s.act_queue s.act_queue_len hole (omega arith)
            inv.heap h k,
      ),
)

-- a routine once idle is not counted among the places below the root
idle-ActRootGone :
    (s : State)
    → ActInv s
    → 1 ≤ s.act_queue_len
    → ActRootGone (put_act (s.act_queue 1) (record (s.act (s.act_queue 1)) { scheduled = false }) s)
idle-ActRootGone s inv occupied = record {
  below = λ i a b c. ground (arith, inv.heap i);
  counted = λ a. ground (arith, inv.counted a, (root_first s inv occupied).0);
  occupied = occupied;
  bounded = inv.bounded;
}

-- the routine at the root runs
module _ (P : State → Type 0) (u : List ℕ) (steps : Steps) (contract : Contract P u steps)
    (stable : Stable P u) where
  pub step_root :
      (s : State)
      → P s
      → ActInv s
      → Roster u s
      → 1 ≤ s.act_queue_len
      → (s' : State) × (act_step steps s ≡ ok s')
        × P s'
        × ActInv s'
        × Roster u s'
        × (s'.now ≡ s.now)
        × ((a : ℕ) → priority_in s' a ≡ priority_in s a)
        × ((a : ℕ)
            → (s'.act a).scheduled ≡ true
            → ((s.act a).scheduled ≡ true) × (a ≢ s.act_queue 1)
              ⊎ (priority_in s (s.act_queue 1) < priority_in s a))
  unfolding act_step
  step_root s keeps inv roster occupied =
      let r = s.act_queue 1 in
      let s1 = put_act r (record (s.act r) { scheduled = false }) s in
      let (s2, run2, inv2, frame) = act_queue_pop-ActInv s1 (idle-ActRootGone s inv occupied) in
      let roster1 : Roster u s1 = record {
        small = roster.small;
        listed = λ a on. ground (arith, roster.listed a);
      } in
      let roster2 : Roster u s2 =
        subst (Roster u) (sym frame) (record { small = roster1.small; listed = roster1.listed }) in
      let len = ap (λ (t : State). t.act_queue_len) frame in
      let only : ActsOnly s s2 = record {
        frame = simp (len, ap (λ (t : State). t.act) frame) frame;
        acts = λ a. ground (arith, ap (λ (t : State). t.act a) frame);
      } in
      let (s3, run3, d) = contract r s2 (stable s s2 only inv2 roster2 keeps) inv2 roster2 in
      (
        s3,
        rw run2 run3,
        d.keeps,
        d.acts,
        d.roster,
        d.clock ∙ ap (λ (t : State). t.now) frame,
        λ a. ground (arith, d.priorities a, ap (λ (t : State). t.act a) frame),
        λ a on. ground (
          arith,
          d.later a on,
          ap (λ (t : State). t.act a) frame,
          ap (λ (t : State). t.act r) frame,
        ),
      )
