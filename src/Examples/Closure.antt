-- ===== src/Examples/Closure.antt =====
-- examples/simulation/closures.c: applications of a function of three arguments, as the optimized
-- build makes them.
pub mod Unoptimized
use ssm_runtime.Base.{ℕ, suc, zero, ◌+◌, Result, ok, out_of_fuel, ◌>>=◌, ◌==◌, if◌then◌else◌}
use ssm_runtime.Memory.{Handlers}
use ssm_runtime.State.{State, Value, root_priority, root_depth, marshal, unmarshal}
use ssm_runtime.Queues.{activate}
use ssm_runtime.Objects.{dups, drop, new_closure}
use ssm_runtime.Closures.{
  EnterFunctions, closure_arg_count, closure_push, closure_pop, closure_free, closure_activate,
  closure_apply, closure_apply_final,
}
use ssm_runtime.Scheduler.{Limits, Steps, enter, leave, top_return}
use ssm_runtime.Scheduler.Contract.Resume.{resumed}
use ssm_runtime.Examples.{sizeof_routine, field, cell, put_cell, has_children, returned}

-- act_foo_t: x, y, z and __ret; act_main_t: f, g, h, a, b, c and __ret
abbrev pub sizeof_act_foo : ℕ
sizeof_act_foo = sizeof_routine 4

abbrev pub sizeof_act_main : ℕ
sizeof_act_main = sizeof_routine 7

-- The pointers of the step functions, and of `enter_foo`.
abbrev pub foo : ℕ
foo = 1

abbrev pub main : ℕ
main = 2

abbrev pub enter_foo_at : ℕ
enter_foo_at = 3

module _ (h : Handlers) where
  unfoldable pub enter_foo :
      (parent priority depth : ℕ) → (argv : ℕ → Value) → (ret : ℕ) → State → Result (ℕ × State)
  enter_foo parent priority depth argv ret s =
      enter h sizeof_act_foo foo parent priority depth s >>= λ (act, s1).
      let s2 = put_cell (field act 1) (argv 1) (put_cell (field act 0) (argv 0) s1) in
      ok (act, put_cell (field act 3) ret (put_cell (field act 2) (argv 2) s2))

  -- the only function whose closures the program makes
  unfoldable pub enter_functions : EnterFunctions
  enter_functions f parent prio depth argv ret s =
      enter_foo parent prio depth (s.payload argv) ret s

  unfoldable pub enter_main : (parent priority depth : ℕ) → (ret : ℕ) → State → Result (ℕ × State)
  enter_main parent priority depth ret s =
      enter h sizeof_act_main main parent priority depth s >>= λ (act, s1).
      ok (act, put_cell (field act 6) ret s1)

-- foo_argv
abbrev pub foo_argv : ℕ → Value
foo_argv i = marshal (i + 3)

module _ (h : Handlers) (l : Limits) (steps : Steps) where
  unfoldable pub step_foo : (act : ℕ) → State → Result State
  step_foo act s =
      let x = cell (field act 0) s in
      let y = cell (field act 1) s in
      let z = cell (field act 2) s in
      let s1 =
        put_cell (cell (field act 3) s) (marshal (unmarshal x + unmarshal y + unmarshal z)) s in
      drop l.depth (cell (field act 0) s1) s1 >>= λ s2.
      drop l.depth (cell (field act 1) s2) s2 >>= λ s3.
      drop l.depth (cell (field act 2) s3) s3 >>= leave steps act sizeof_act_foo

  -- from `case 8` on: h is applied for the last time
  unfoldable pub main_from_8 : (act : ℕ) → State → Result State
  main_from_8 act s =
      let arg = marshal (
        unmarshal (cell (field act 3) s)
        + unmarshal (cell (field act 4) s)
        + unmarshal (cell (field act 5) s)) in
      let s1 = closure_push (cell (field act 2) s) arg s in
      closure_activate h (enter_functions h) (cell (field act 2) s1) act (s1.act act).priority
        (s1.act act).depth (cell (field act 6) s1) s1
      >>= λ s2. ok (resumed act 9 (closure_free (cell (field act 2) s2) s2))

  -- from `case 7` on: g is applied for the last time
  unfoldable pub main_from_7 : (act : ℕ) → State → Result State
  main_from_7 act s =
      closure_apply_final h (enter_functions h) (cell (field act 1) s) (cell (field act 4) s) act
        (s.act act).priority (s.act act).depth (field act 5) s
      >>= λ r.
          let s1 = returned (field act 5) r in
          let rest = main_from_8 act s1 in
          if has_children act s1 then ok (resumed act 8 s1) else rest

  -- from `case 6` on: g is applied, and is used later
  unfoldable pub main_from_6 : (act : ℕ) → State → Result State
  main_from_6 act s =
      let g = cell (field act 1) s in
      let s1 = dups (closure_arg_count g s) 0 (s.payload g) s in
      let s2 = closure_push (cell (field act 1) s1) (cell (field act 3) s1) s1 in
      closure_activate h (enter_functions h) (cell (field act 1) s2) act (s2.act act).priority
        (s2.act act).depth (field act 4) s2
      >>= λ s3. ok (resumed act 7 (closure_pop (cell (field act 1) s3) s3))

  -- from `case 3` on: f is applied for the last time
  unfoldable pub main_from_3 : (act : ℕ) → State → Result State
  main_from_3 act s =
      closure_apply_final h (enter_functions h) (cell (field act 0) s) (cell (field act 3) s) act
        (s.act act).priority (s.act act).depth (field act 2) s
      >>= λ r.
          let s1 = returned (field act 2) r in
          let rest = main_from_6 act s1 in
          if has_children act s1 then ok (resumed act 6 s1) else rest

  -- from `case 2` on: foo is applied to three arguments
  unfoldable pub main_from_2 : (act : ℕ) → State → Result State
  main_from_2 act s =
      enter_foo h act (s.act act).priority (s.act act).depth foo_argv (field act 3) s
      >>= λ (child, s1). activate child s1 >>= λ s2. ok (resumed act 3 s2)

  -- `case 0`: f is made, and g from it
  unfoldable pub main_start : (act : ℕ) → State → Result State
  main_start act s = new_closure h enter_foo_at 3 s >>= λ (f, s1).
      let s2 = put_cell (field act 0) f s1 in
      let s3 = closure_push (cell (field act 0) s2) (marshal 1) s2 in
      closure_apply h (enter_functions h) (cell (field act 0) s3) (marshal 2) act
        (s3.act act).priority (s3.act act).depth (field act 1) s3
      >>= λ r.
          let s4 = returned (field act 1) r in
          let rest = main_from_2 act s4 in
          if has_children act s4 then ok (resumed act 2 s4) else rest

  unfoldable pub step_main : (act : ℕ) → State → Result State
  step_main act s =
      let pc = (s.act act).pc in
      if pc == 0
      then main_start act s
      else if pc == 2
      then main_from_2 act s
      else if pc == 3
      then main_from_3 act s
      else if pc == 6
      then main_from_6 act s
      else if pc == 7
      then main_from_7 act s
      else if pc == 8
      then main_from_8 act s
      else leave steps act sizeof_act_main s

module _ (h : Handlers) (l : Limits) where
  -- The step function at a pointer. A routine that leaves runs its parent, so calls take fuel.
  unfoldable pub program : (fuel : ℕ) → Steps
  program zero step act s = out_of_fuel
  program (suc fuel) step act s =
      let steps = program fuel in
      if step == foo
      then step_foo h l steps act s
      else if step == main
      then step_main h l steps act s
      else top_return act s

-- `ret` is the address of the variable of that name.
unfoldable pub program_init : Handlers → (ret top_parent : ℕ) → State → Result State
program_init h ret top_parent s =
    enter_main h top_parent root_priority root_depth ret s >>= λ (act, s1). activate act s1

-- What is printed, and the state after it.
unfoldable pub program_exit : Limits → (ret : ℕ) → State → Result (ℕ × State)
program_exit l ret s = drop l.depth (cell ret s) s >>= λ s1. ok (unmarshal (cell ret s), s1)
