-- ===== src/Scheduler/Instant/Order.antt =====
-- The order in which the scheduled routines run, and that the loop ends.
use ssm_runtime.Base.{
  ℕ, zero, suc, ◌+◌, ◌≤◌, ◌<◌, ◌≡◌, ◌≢◌, ◌⊎◌, refl, ◌∙◌, inl, inr, true, false, ◌||◌, List, [], ◌∷◌,
  ok, arith, ltb, if◌then◌else◌, length, Bool-cases,
}
use ssm_runtime.Heap.Count.{count_none}
use ssm_runtime.State.{State, priority_in}
use ssm_runtime.Queues.Acts.{ActInv}
use ssm_runtime.Queues.Roster.{occurs, Roster}
use ssm_runtime.Scheduler.{Steps, act_step, tick_acts}
use ssm_runtime.Scheduler.Instant.{Contract, Stable, Runs, done, next, root_first, step_root}

-- priorities never fall along the list, and start at `p` or above
abbrev pub Ascending : (ℕ → ℕ) → ℕ → List ℕ → Type 0
Ascending prio p [] = Unit {0}
Ascending prio p (r ∷ rs) = (p ≤ prio r) × Ascending prio (prio r) rs

Ascending-same :
    (prio prio' : ℕ → ℕ) (p p' : ℕ) (rs : List ℕ)
    → p' ≡ p
    → ((a : ℕ) → prio' a ≡ prio a)
    → Ascending prio' p' rs
    → Ascending prio p rs
Ascending-same prio prio' p p' [] e same h = tt
Ascending-same prio prio' p p' (r ∷ rs) e same h =
    (ground (arith, h.0, same r), Ascending-same prio prio' (prio r) (prio' r) rs (same r) same h.1)

-- how many routines are scheduled, or may be from now on
pub todo : State → (p : ℕ) → List ℕ → ℕ
todo s p [] = 0
todo s p (a ∷ u) = (if (s.act a).scheduled || ltb p (priority_in s a) then 1 else 0) + todo s p u

pub todo-le : (s : State) (p : ℕ) (u : List ℕ) → todo s p u ≤ length u
unfolding todo
todo-le s p [] = omega arith
todo-le s p (a ∷ u) = ground (arith, todo-le s p u)

-- what one step of the loop says of the two states, for the routine `r` at the root
record Passed (r : ℕ) (s s1 : State) : Type 0 where
  now : s1.now ≡ s.now
  ran : (s.act r).scheduled ≡ true
  priorities : (a : ℕ) → priority_in s1 a ≡ priority_in s a
  later :
      (a : ℕ)
      → (s1.act a).scheduled ≡ true
      → ((s.act a).scheduled ≡ true) × (a ≢ r) ⊎ (priority_in s r < priority_in s a)

todo_falls :
    (r p : ℕ) (s s1 : State) (u : List ℕ)
    → Passed r s s1
    → p ≤ priority_in s r
    → todo s1 (priority_in s r) u + occurs r u ≤ todo s p u
unfolding todo
todo_falls r p s s1 [] d h = omega arith
todo_falls r p s s1 (a ∷ u) d h =
    ground (arith, d.ran, d.priorities a, d.later a, todo_falls r p s s1 u d h)

-- The loop ran the routines `rs`, none of them twice, in the order of their priorities.
pub record Ran (P : State → Type 0) (steps : Steps) (p : ℕ) (rs : List ℕ) (s s' : State)
    : Type 0 where
  pub runs : Runs steps s rs s'
  pub keeps : P s'
  pub acts : ActInv s'
  pub now : s'.now ≡ s.now
  pub idle : (a : ℕ) → (s'.act a).scheduled ≡ false
  pub ascending : Ascending (priority_in s) p rs
  pub once : (a : ℕ) → occurs a rs ≤ 1
  pub absent : (a : ℕ) → (s.act a).scheduled ≡ false → priority_in s a ≤ p → occurs a rs ≡ 0

Ran-next :
    (P : State → Type 0) (steps : Steps) (p r : ℕ) (rs : List ℕ) (s s1 s2 : State)
    → s.act_queue 1 ≡ r
    → act_step steps s ≡ ok s1
    → Passed r s s1
    → p ≤ priority_in s r
    → Ran P steps (priority_in s r) rs s1 s2
    → Ran P steps p (r ∷ rs) s s2
Ran-next P steps p r rs s s1 s2 at run d h rest = record {
  runs = next at run rest.runs;
  keeps = rest.keeps;
  acts = rest.acts;
  now = rest.now ∙ d.now;
  idle = rest.idle;
  ascending = (
    h,
    Ascending-same (priority_in s) (priority_in s1) (priority_in s r) (priority_in s r) rs refl
        d.priorities rest.ascending,
  );
  once = λ a. ground (arith, rest.once a, rest.absent a, d.later a, d.priorities a);
  absent = λ a e f. ground (arith, d.ran, d.later a, d.priorities a, rest.absent a);
}

module _ (P : State → Type 0) (u : List ℕ) (steps : Steps) (contract : Contract P u steps)
    (stable : Stable P u) where
  tick_acts-Ran_from :
      (fuel p : ℕ) (s : State)
      → todo s p u < fuel
      → P s
      → ActInv s
      → Roster u s
      → ((a : ℕ) → (s.act a).scheduled ≡ true → p ≤ priority_in s a)
      → (s' : State) × (rs : List ℕ) × (tick_acts fuel steps s ≡ ok s') × Ran P steps p rs s s'
  unfolding tick_acts
  tick_acts-Ran_from zero p s enough keeps inv roster above = absurd (omega arith)
  tick_acts-Ran_from (suc fuel) p s enough keeps inv roster above =
      elim (Bool-cases (ltb 0 s.act_queue_len)) [
        | inr empty ↦ (
          s,
          [],
          rw empty refl,
          record {
            runs = done (ground arith);
            keeps = keeps;
            acts = inv;
            now = refl;
            idle = λ a. ground (arith, inv.counted a, count_none s.act_queue s.act_queue_len a);
            ascending = tt;
            once = λ a. omega arith;
            absent = λ a e f. refl;
          },
        )
        | inl more ↦
            let r = s.act_queue 1 in
            let (s1, run1, keeps1, inv1, roster1, clock, same, later) =
              step_root P u steps contract stable s keeps inv roster (ground arith) in
            let first = root_first s inv (ground arith) in
            let d : Passed r s s1 = record {
              now = clock;
              ran = first.0;
              priorities = same;
              later = later;
            } in
            let h : p ≤ priority_in s r = above r first.0 in
            let (s2, rs, run2, rest) =
              tick_acts-Ran_from fuel (priority_in s r) s1
                (omega (arith, todo_falls r p s s1 u d h, roster.listed r first.0)) keeps1 inv1
                roster1 (λ a on. ground (arith, later a on, first.1 a, same a)) in
            (
              s2,
              r ∷ rs,
              rw more (ground (arith, run1, run2)),
              Ran-next P steps p r rs s s1 s2 refl run1 d h rest,
            )
      ]

  -- With more rounds than routines, and step functions that keep their contract for an invariant
  -- that looks at no more of the activation queue than that it is well formed, the loop over the
  -- routines returns with no routine scheduled, the clock and the invariant kept. The routines run
  -- in ascending order of priority, and each of them at most once.
  pub tick_acts-Ran :
      (fuel : ℕ) (s : State)
      → length u < fuel
      → P s
      → ActInv s
      → Roster u s
      → (s' : State) × (rs : List ℕ) × (tick_acts fuel steps s ≡ ok s') × Ran P steps 0 rs s s'
  tick_acts-Ran fuel s enough keeps inv roster =
      tick_acts-Ran_from fuel 0 s (omega (arith, todo-le s 0 u)) keeps inv roster
        (λ a on. omega arith)
