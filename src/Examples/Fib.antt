-- ===== src/Examples/Fib.antt =====
-- examples/simulation/fib.c: Fibonacci numbers by routines that run in parallel.
use ssm_runtime.Base.{
  ℕ, suc, zero, ◌+◌, ◌-◌, Result, ok, out_of_fuel, ◌>>=◌, ◌==◌, ltb, if◌then◌else◌,
}
use ssm_runtime.Memory.{Handlers}
use ssm_runtime.State.{State, Value, root_priority, root_depth, marshal, unmarshal}
use ssm_runtime.Queues.{activate}
use ssm_runtime.Objects.{dup, drop, new_sv}
use ssm_runtime.Scheduler.{Limits, Steps, later, sensitize, desensitize, enter, leave, top_return}
use ssm_runtime.Scheduler.Contract.Resume.{resumed}
use ssm_runtime.Simulation.{second}
use ssm_runtime.Examples.{
  sizeof_routine, field, cell, put_cell, own_trigger, deeper, priority_at, after,
}

-- act_mywait_t: the variable, then the trigger
abbrev pub sizeof_act_mywait : ℕ
sizeof_act_mywait = sizeof_routine 4

abbrev pub trigger1_of : (act : ℕ) → ℕ
trigger1_of act = field act 1

-- act_sum_t: r1, r2 and r; act_fib_t: n, r, r1 and r2
abbrev pub sizeof_act_sum : ℕ
sizeof_act_sum = sizeof_routine 3

abbrev pub sizeof_act_fib : ℕ
sizeof_act_fib = sizeof_routine 4

-- The pointers of the step functions.
abbrev pub mywait : ℕ
mywait = 1

abbrev pub sum : ℕ
sum = 2

abbrev pub fib : ℕ
fib = 3

module _ (h : Handlers) where
  unfoldable pub enter_mywait :
      (parent priority depth : ℕ) → (r : Value) → State → Result (ℕ × State)
  enter_mywait parent priority depth r s =
      enter h sizeof_act_mywait mywait parent priority depth s >>= λ (act, s1).
      ok (act, put_cell (field act 0) r s1)

  unfoldable pub enter_sum :
      (parent priority depth : ℕ) → (r1 r2 r : Value) → State → Result (ℕ × State)
  enter_sum parent priority depth r1 r2 r s =
      enter h sizeof_act_sum sum parent priority depth s >>= λ (act, s1).
      ok (act, put_cell (field act 2) r (put_cell (field act 1) r2 (put_cell (field act 0) r1 s1)))

  unfoldable pub enter_fib :
      (parent priority depth : ℕ) → (n r : Value) → State → Result (ℕ × State)
  enter_fib parent priority depth n r s =
      enter h sizeof_act_fib fib parent priority depth s >>= λ (act, s1).
      ok (act, put_cell (field act 1) r (put_cell (field act 0) n s1))

module _ (l : Limits) (steps : Steps) where
  unfoldable pub step_mywait : (act : ℕ) → State → Result State
  step_mywait act s =
      let pc = (s.act act).pc in
      let s1 = own_trigger act (trigger1_of act) s in
      let finish : State → Result State =
        λ t. drop l.depth (cell (field act 0) t) t >>= leave steps act sizeof_act_mywait in
      if pc == 0
      then ok (resumed act 1 (sensitize (cell (field act 0) s1) (trigger1_of act) s1))
      else if pc == 1
      then finish (desensitize (trigger1_of act) s)
      else finish s

  -- the start of the children of `sum`, at pc 0
  unfoldable pub fork_sum : Handlers → (act : ℕ) → State → Result State
  fork_sum h act s =
      let new_depth = deeper 1 (s.act act).depth in
      let new_priority = (s.act act).priority in
      let s1 = dup (cell (field act 0) s) s in
      let s2 = dup (cell (field act 1) s1) s1 in
      enter_mywait h act new_priority new_depth (cell (field act 0) s2) s2 >>= λ (first, s3).
      activate first s3 >>= λ s4.
      enter_mywait h act (priority_at new_priority 1 new_depth) new_depth (cell (field act 1) s4) s4
      >>= λ (other, s5). activate other s5

  unfoldable pub step_sum : Handlers → (act : ℕ) → State → Result State
  step_sum h act s =
      let pc = (s.act act).pc in
      let r1 = (s.sv (cell (field act 0) s)).value in
      let r2 = (s.sv (cell (field act 1) s)).value in
      let finish : State → Result State = λ t. drop l.depth (cell (field act 2) t) t >>= λ t1.
      drop l.depth (cell (field act 1) t1) t1 >>= λ t2.
      drop l.depth (cell (field act 0) t2) t2 >>= leave steps act sizeof_act_sum in
      if pc == 0
      then (fork_sum h act s >>= λ s1. ok (resumed act 1 s1))
      else if pc == 1
      then (later l (cell (field act 2) s) (after second s) (marshal (unmarshal r1 + unmarshal r2))
            s
          >>= finish)
      else finish s

  -- the start of the children of `fib`, at pc 0
  unfoldable pub fork_fib : Handlers → (act : ℕ) → State → Result State
  fork_fib h act s = new_sv h (marshal 0) s >>= λ (var1, s1).
      let s2 = put_cell (field act 2) var1 s1 in
      new_sv h (marshal 0) s2 >>= λ (var2, s3).
      let s4 = put_cell (field act 3) var2 s3 in
      let s5 = dup (cell (field act 2) s4) s4 in
      let s6 = dup (cell (field act 3) s5) s5 in
      let s7 = dup (cell (field act 1) s6) s6 in
      let new_depth = deeper 2 (s7.act act).depth in
      let new_priority = (s7.act act).priority in
      enter_fib h act new_priority new_depth (marshal (unmarshal (cell (field act 0) s7) - 1))
        (cell (field act 2) s7) s7
      >>= λ (first, s8). activate first s8 >>= λ s9.
          enter_fib h act (priority_at new_priority 1 new_depth) new_depth
            (marshal (unmarshal (cell (field act 0) s9) - 2)) (cell (field act 3) s9) s9
          >>= λ (other, s10). activate other s10 >>= λ s11.
              enter_sum h act (priority_at new_priority 2 new_depth) new_depth
                (cell (field act 2) s11) (cell (field act 3) s11) (cell (field act 1) s11) s11
              >>= λ (adder, s12). activate adder s12

  unfoldable pub step_fib : Handlers → (act : ℕ) → State → Result State
  step_fib h act s =
      let pc = (s.act act).pc in
      let finish : State → Result State =
        λ t. drop l.depth (cell (field act 1) t) t >>= leave steps act sizeof_act_fib in
      let base = later l (cell (field act 1) s) (after second s) (marshal 1) s >>= finish in
      let forked = fork_fib h act s >>= λ s1. ok (resumed act 1 s1) in
      if pc == 0
      then (if ltb (unmarshal (cell (field act 0) s)) 2 then base else forked)
      else finish s

module _ (h : Handlers) (l : Limits) where
  -- The step function at a pointer. A routine that leaves runs its parent, so calls take fuel.
  unfoldable pub program : (fuel : ℕ) → Steps
  program zero step act s = out_of_fuel
  program (suc fuel) step act s =
      let steps = program fuel in
      if step == mywait
      then step_mywait l steps act s
      else if step == sum
      then step_sum l steps h act s
      else if step == fib
      then step_fib l steps h act s
      else top_return act s

-- `result` is the address of the variable of that name, and `n` what the arguments ask for.
unfoldable pub program_init : Handlers → (top_parent result n : ℕ) → State → Result State
program_init h top_parent result n s = new_sv h (marshal 0xdeadbeef) s >>= λ (var, s1).
    let s2 = put_cell result var s1 in
    let s3 = dup (cell result s2) s2 in
    enter_fib h top_parent root_priority root_depth (marshal n) (cell result s3) s3 >>= λ (act, s4).
    activate act s4

-- What is printed, and the state after it.
unfoldable pub program_exit : Limits → (result : ℕ) → State → Result (ℕ × State)
program_exit l result s =
    drop l.depth (cell result s) s >>= λ s1. ok (unmarshal (s.sv (cell result s)).value, s1)
