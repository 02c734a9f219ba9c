-- ===== src/Scheduler/Join.antt =====
-- `ssm_enter` and `ssm_leave` of src/ssm-scheduler.c: a parent waits for its children.
use ssm_runtime.Base.{
  ℕ, ◌+◌, ◌^◌, ◌≤◌, ◌<◌, ◌≡◌, ◌≢◌, refl, ◌∙◌, false, List, [], ◌∷◌, Result, ok, throw, out_of_fuel,
  ◌>>=◌, arith, length,
}
use ssm_runtime.Memory.{Handlers, Memory, mem_alloc, mem_free, incr64, decr64}
use ssm_runtime.State.{State, put_act}
use ssm_runtime.Queues.{incr16, decr16}
use ssm_runtime.Objects.{alloc}
use ssm_runtime.Scheduler.{Steps, run_step, enter, leave}

abbrev pub All : (ℕ → Type 0) → List ℕ → Type 0
All P [] = Unit {0}
All P (x ∷ xs) = P x × All P xs

-- `children` routines of `parent` run, each with its record apart from the parent's.
pub record Parent (parent : ℕ) (children : List ℕ) (s : State) : Type 0 where
  pub counted : (s.act parent).children ≡ length children
  pub few : length children < 2 ^ 16
  pub running : length children ≤ s.num_processes
  pub many : s.num_processes < 2 ^ 64
  pub apart : All (λ a. a ≢ parent) children
  pub callers : All (λ a. (s.act a).caller ≡ parent) children

-- what `ssm_leave` does before it looks at the number of children
abbrev left : (size : ℕ → ℕ) → (act : ℕ) → State → State
left size act s =
    let parent = (s.act act).caller in
    put_act parent (record (s.act parent) { children = decr16 (s.act parent).children })
      (record s {
        num_processes = decr64 s.num_processes;
        memory = mem_free act (size act) s.memory;
      })

abbrev pub all_left : (size : ℕ → ℕ) → List ℕ → State → State
all_left size [] s = s
all_left size (a ∷ acts) s = all_left size acts (left size a s)

-- The routines leave one after the other.
abbrev pub leave_all : Steps → (size : ℕ → ℕ) → List ℕ → State → Result State
leave_all steps size [] s = ok s
leave_all steps size (a ∷ acts) s = leave steps a (size a) s >>= leave_all steps size acts

bind-ok {ℓ} : {A : Type ℓ} (r : Result A) → (r >>= ok) ≡ r
bind-ok (ok a) = refl
bind-ok (throw e) = refl
bind-ok out_of_fuel = refl

callers-left :
    (parent a : ℕ) (size : ℕ → ℕ) (children : List ℕ) (s : State)
    → All (λ x. (s.act x).caller ≡ parent) children
    → All (λ x. ((left size a s).act x).caller ≡ parent) children
callers-left parent a size [] s h = tt
callers-left parent a size (x ∷ xs) s h = (ground (arith, h.0), callers-left parent a size xs s h.1)

Parent-left :
    (parent a : ℕ) (size : ℕ → ℕ) (children : List ℕ) (s : State)
    → Parent parent (a ∷ children) s
    → Parent parent children (left size a s)
Parent-left parent a size children s d = record {
  counted = ground (arith, d.counted, d.few, d.callers.0);
  few = omega (arith, d.few);
  running = omega (arith, d.running, d.many);
  many = omega (arith, d.many);
  apart = d.apart.1;
  callers = callers-left parent a size children s d.callers.1;
}

module _ (steps : Steps) (size : ℕ → ℕ) (parent : ℕ) where
  -- while others run
  leave_more :
      (a b : ℕ) (children : List ℕ) (s : State)
      → Parent parent (a ∷ b ∷ children) s
      → leave steps a (size a) s ≡ ok (left size a s)
  unfolding leave
  leave_more a b children s d = ground (arith, d.counted, d.few, d.callers.0)

  -- Where the children of a routine leave, in any order, the last of them runs the parent, after all have given
  -- back their memory, and no other does. No child is counted then, and the
  -- number of processes is less by theirs.
  pub leave_all-Parent :
      (a : ℕ) (children : List ℕ) (s : State)
      → Parent parent (a ∷ children) s
      → (leave_all steps size (a ∷ children) s
          ≡ run_step steps parent (all_left size (a ∷ children) s))
        × Parent parent [] (all_left size (a ∷ children) s)
        × ((all_left size (a ∷ children) s).num_processes + length (a ∷ children) ≡ s.num_processes)
  unfolding leave
  leave_all-Parent a [] s d = (
    bind-ok (leave steps a (size a) s) ∙ ground (arith, d.counted, d.callers.0),
    Parent-left parent a size [] s d,
    omega (arith, d.running, d.many),
  )
  leave_all-Parent a (b ∷ children) s d =
      let (run, end, count) =
        leave_all-Parent b children (left size a s)
          (Parent-left parent a size (b ∷ children) s d) in
      (rw (leave_more a b children s d) run, end, omega (arith, count, d.running, d.many))

callers-kept :
    (parent : ℕ) (children : List ℕ) (s s' : State)
    → ((a : ℕ) → (s.act a).caller ≡ parent → (s'.act a).caller ≡ parent)
    → All (λ a. (s.act a).caller ≡ parent) children
    → All (λ a. (s'.act a).caller ≡ parent) children
callers-kept parent [] s s' h c = tt
callers-kept parent (a ∷ xs) s s' h c = (h a c.0, callers-kept parent xs s s' h c.1)

module _ (h : Handlers) (size step parent priority depth : ℕ) (children : List ℕ) (s : State)
    (d : Parent parent children s) (act : ℕ) (m : Memory) where
  abbrev entered : State
  entered =
      let s1 : State =
        put_act act
          (record {
            step = step;
            caller = parent;
            pc = 0;
            children = 0;
            priority = priority;
            depth = depth;
            scheduled = false;
          })
          (record s { memory = m }) in
      record (put_act parent (record (s1.act parent) { children = incr16 (s1.act parent).children })
        s1) { num_processes = incr64 s.num_processes }

  -- A new routine in memory apart from its parent's is one more child of the parent, idle and at its
  -- start, where the counts of children and of processes do not overflow.
  pub enter-Parent :
      mem_alloc h size s.memory ≡ ok (act, m)
      → act ≢ parent
      → length children + 1 < 2 ^ 16
      → s.num_processes + 1 < 2 ^ 64
      → (s' : State) × (enter h size step parent priority depth s ≡ ok (act, s'))
        × Parent parent (act ∷ children) s'
        × (s'.act act ≡ record {
          step = step;
          caller = parent;
          pc = 0;
          children = 0;
          priority = priority;
          depth = depth;
          scheduled = false;
        })
        × ((a : ℕ) → a ≢ act → a ≢ parent → s'.act a ≡ s.act a)
  unfolding enter alloc
  enter-Parent run apart few many = (
    entered,
    rw run refl,
    record {
      counted = ground (arith, d.counted);
      few = omega arith;
      running = omega (arith, d.running);
      many = omega arith;
      apart = (apart, d.apart);
      callers =
          (ground arith, callers-kept parent children s entered (λ a e. ground arith) d.callers);
    },
    ground arith,
    λ a other grown. ground arith,
  )
