-- ===== src/Tests/Calls.antt =====
-- The properties of closures and of routines that enter and leave at concrete states.
use ssm_runtime.Base.{
  ℕ, ◌+◌, ◌^◌, ◌<◌, ◌≡◌, refl, true, none, some, List, [], ◌∷◌, ok, arith, ◌==◌, if◌then◌else◌,
  update,
}
use ssm_runtime.Memory.{Handlers, Memory, mem_alloc, mem_free, find_pool_size}
use ssm_runtime.State.{State, closure_k, pair_info}
use ssm_runtime.Heap.Count.{count}
use ssm_runtime.Queues.Acts.{ActInv}
use ssm_runtime.Objects.{is_shared, dup, dups, closure_size}
use ssm_runtime.Closures.{EnterFunctions, closure_push, set_arg, set_arg_count, closure_apply}
use ssm_runtime.Closures.Apply.{IsClosure, Cloned}
use ssm_runtime.Closures.Partial.{applied, closure_apply-partial, closure_apply-full}
use ssm_runtime.Closures.Each.{pushes, Pushed, apply_each, apply_each-full}
use ssm_runtime.Scheduler.{run_step, later}
use ssm_runtime.Scheduler.Join.{Parent, all_left, leave_all, leave_all-Parent}
use ssm_runtime.Scheduler.Instant.{Stepped}
use ssm_runtime.Scheduler.Tick.Quiet.{Quiet}
use ssm_runtime.Scheduler.Later.Keeps.{later-Stepped-Quiet}
use ssm_runtime.Tests.{world, routines, limits}
use ssm_runtime.Tests.Ticks.{world-Quiet, assigning}

-- Handlers that give the same memory each time.
abbrev handlers : Handlers
handlers = record { alloc_page = λ k. ok 4096; alloc_mem = λ k size. ok 60 }

-- The object 40 is a closure of the function 7 with one argument of `cap`.
abbrev with_closure : (cap : ℕ) → State
with_closure cap = record (world 3) {
  mm = λ p.
      if p == 40
      then record { ref_count = 1; kind = closure_k; info = pair_info 1 cap }
      else (world 3).mm p;
  func = λ p. 7;
  payload = λ p i. 43;
}

with_closure-IsClosure : (cap : ℕ) → cap < 2 ^ 8 → IsClosure 7 1 cap (λ i. 43) 40 (with_closure cap)
with_closure-IsClosure cap small = record {
  function = refl;
  counted = omega arith;
  capacity = omega arith;
  arguments = λ i h. refl;
}

-- The routine 8 is what the function enters.
abbrev enters : EnterFunctions
enters f parent prio depth argv ret s = ok (8, s)

abbrev large : Memory
large = record (world 3).memory { objects_allocated = 1; live_objects = 1; mem_calls = 1 }

large_run : mem_alloc handlers (closure_size 200) (world 3).memory ≡ ok (60, large)
unfolding mem_alloc find_pool_size
large_run = refl

closure_apply-partial_example :
    (s' : State) × (closure_apply handlers enters 40 45 0 0 4 0 (with_closure 200)
      ≡ ok (some 60, s'))
    × IsClosure 7 2 200 (update (λ i. 43) 1 45) 60 s'
    × IsClosure 7 1 200 (λ i. 43) 40 s'
    × Cloned 1 40 60 (with_closure 200) s'
closure_apply-partial_example =
    closure_apply-partial handlers enters 7 1 200 (λ i. 43) 40 (with_closure 200)
      (with_closure-IsClosure 200 (omega arith)) (omega arith) 45 0 0 4 0 60 large large_run
      (omega arith) (λ i h. omega arith) (omega arith)

abbrev entry : State
entry =
    applied handlers enters 7 1 2 (λ i. 43) 40 (with_closure 2)
      (with_closure-IsClosure 2 (omega arith)) (omega arith) 45 0 0 4 0

entry-ActInv : ActInv entry
unfolding closure_push set_arg set_arg_count dups dup count
entry-ActInv = record {
  heap = λ i a b. absurd (omega arith);
  counted = λ a. refl;
  bounded = omega arith;
}

closure_apply-full_example :
    (s' : State) × (closure_apply handlers enters 40 45 0 0 4 0 (with_closure 2) ≡ ok (none, s'))
    × IsClosure 7 2 2 (update (λ i. 43) 1 45) 40 entry
    × IsClosure 7 1 2 (λ i. 43) 40 s'
    × ((s'.act 8).scheduled ≡ true)
unfolding closure_push set_arg set_arg_count dups dup
closure_apply-full_example =
    closure_apply-full handlers enters 7 1 2 (λ i. 43) 40 (with_closure 2)
      (with_closure-IsClosure 2 (omega arith)) (omega arith) 45 0 0 4 0 8 entry refl refl refl refl
      refl entry-ActInv (λ h. omega arith)

-- The closure takes two more arguments.
abbrev last_entry : State
last_entry = pushes 40 (45 ∷ 47 ∷ []) (with_closure 3)

last_entry-ActInv : ActInv last_entry
unfolding closure_push set_arg set_arg_count count
last_entry-ActInv = record {
  heap = λ i a b. absurd (omega arith);
  counted = λ a. refl;
  bounded = omega arith;
}

apply_each-full_example :
    IsClosure 7 3 3 (update (update (λ i. 43) 1 45) 2 47) 40 last_entry
    × Pushed 40 (with_closure 3) last_entry
    × (s' : State) × (apply_each handlers enters 0 0 4 0 40 (45 ∷ 47 ∷ []) (with_closure 3)
        ≡ ok (none, s'))
    × (s'.memory ≡ mem_free 40 (closure_size 3) last_entry.memory)
    × ((s'.act 8).scheduled ≡ true)
unfolding is_shared closure_push set_arg set_arg_count
apply_each-full_example =
    apply_each-full handlers enters 0 0 4 0 7 1 3 (λ i. 43) 40 45 (47 ∷ []) (with_closure 3) 8
      last_entry (with_closure-IsClosure 3 (omega arith)) (omega arith) refl refl refl refl
      last_entry-ActInv (λ h. omega arith)

-- The routines 6 and 8 are the children of the routine 50.
abbrev family : State
family = record (world 3) {
  act = λ a. record ((world 3).act a) { caller = 50; children = if a == 50 then 2 else 0 };
}

abbrev children : List ℕ
children = 6 ∷ 8 ∷ []

family-Parent : Parent 50 children family
family-Parent = record {
  counted = refl;
  few = omega arith;
  running = omega arith;
  many = omega arith;
  apart = omega arith;
  callers = (refl, (refl, tt));
}

leave_all-Parent_example :
    (leave_all assigning (λ a. 32) children family
      ≡ run_step assigning 50 (all_left (λ a. 32) children family))
    × Parent 50 [] (all_left (λ a. 32) children family)
    × ((all_left (λ a. 32) children family).num_processes + 2 ≡ 2)
leave_all-Parent_example = leave_all-Parent assigning (λ a. 32) 50 6 (8 ∷ []) family family-Parent

later-Stepped-Quiet_example :
    (s' : State) × (later limits 2 9 21 (world 3) ≡ ok s')
    × Stepped (Quiet limits routines) routines 6 (world 3) s'
    × (s'.sv 2 ≡ record ((world 3).sv 2) { later_time = 9; later_value = 21 })
later-Stepped-Quiet_example =
    later-Stepped-Quiet limits routines 6 2 9 21 (world 3) world-Quiet (omega arith) (omega arith)
      (omega arith) (omega arith) refl (λ on. refl)
