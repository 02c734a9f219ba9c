-- ===== src/Examples/Closure/Unoptimized.antt =====
-- examples/simulation/closures.c with CLOSURES_UNOPTIMIZED: every application is one of a closure.
use ssm_runtime.Base.{ℕ, suc, zero, ◌+◌, Result, ok, out_of_fuel, ◌>>=◌, ◌==◌, if◌then◌else◌}
use ssm_runtime.Memory.{Handlers}
use ssm_runtime.State.{State, Value, root_priority, root_depth, marshal, unmarshal}
use ssm_runtime.Queues.{activate}
use ssm_runtime.Objects.{drop, new_closure}
use ssm_runtime.Closures.{closure_apply_auto}
use ssm_runtime.Scheduler.{Limits, Steps, enter, leave, top_return}
use ssm_runtime.Scheduler.Contract.Resume.{resumed}
use ssm_runtime.Examples.{sizeof_routine, field, cell, put_cell, has_children, returned}
use ssm_runtime.Examples.Closure.{foo, main, enter_foo_at, enter_functions, step_foo}

-- act_main_t: foo, f, g, h, a2, a1, a, b, c and __ret
abbrev pub sizeof_act_main : ℕ
sizeof_act_main = sizeof_routine 10

unfoldable pub enter_main :
    Handlers → (parent priority depth : ℕ) → (ret : ℕ) → State → Result (ℕ × State)
enter_main h parent priority depth ret s =
    enter h sizeof_act_main main parent priority depth s >>= λ (act, s1).
    ok (act, put_cell (field act 9) ret s1)

module _ (h : Handlers) (l : Limits) (steps : Steps) where
  -- An application of `closure` to `arg` for `ret`: the routine returns at `pc` if that has started a child,
  -- and goes on with `rest` otherwise.
  unfoldable pub apply_then :
      (pc : ℕ)
      → (rest : ℕ → State → Result State) → (closure arg : Value) → (ret act : ℕ) → State
      → Result State
  apply_then pc rest closure arg ret act s =
      closure_apply_auto h (enter_functions h) closure arg act (s.act act).priority
        (s.act act).depth ret s
      >>= λ r.
          let s1 = returned ret r in
          let goes_on = rest act s1 in
          if has_children act s1 then ok (resumed act pc s1) else goes_on

  -- the drop of the value of a field
  unfoldable pub drop_field : (i act : ℕ) → State → Result State
  drop_field i act s = drop l.depth (cell (field act i) s) s

  -- from `case 9` on: c, b, b, a, a1, a2, h, g, f and foo are dropped
  unfoldable pub main_from_9 : (act : ℕ) → State → Result State
  main_from_9 act s =
      drop_field 8 act s
      >>= drop_field 7 act
      >>= drop_field 7 act
      >>= drop_field 6 act
      >>= drop_field 5 act
      >>= drop_field 4 act
      >>= drop_field 3 act
      >>= drop_field 2 act
      >>= drop_field 1 act
      >>= drop_field 0 act
      >>= leave steps act sizeof_act_main

  unfoldable pub main_from_8 : (act : ℕ) → State → Result State
  main_from_8 act s =
      let h_arg = marshal (
        unmarshal (cell (field act 6) s)
        + unmarshal (cell (field act 7) s)
        + unmarshal (cell (field act 8) s)) in
      apply_then 9 main_from_9 (cell (field act 3) s) h_arg (cell (field act 9) s) act s

  unfoldable pub main_from_7 : (act : ℕ) → State → Result State
  main_from_7 act s =
      apply_then 8 main_from_8 (cell (field act 2) s) (cell (field act 7) s) (field act 8) act s

  unfoldable pub main_from_6 : (act : ℕ) → State → Result State
  main_from_6 act s =
      apply_then 7 main_from_7 (cell (field act 2) s) (cell (field act 6) s) (field act 7) act s

  unfoldable pub main_from_5 : (act : ℕ) → State → Result State
  main_from_5 act s =
      apply_then 6 main_from_6 (cell (field act 1) s) (cell (field act 6) s) (field act 3) act s

  unfoldable pub main_from_4 : (act : ℕ) → State → Result State
  main_from_4 act s =
      apply_then 5 main_from_5 (cell (field act 5) s) (marshal 5) (field act 6) act s

  unfoldable pub main_from_3 : (act : ℕ) → State → Result State
  main_from_3 act s =
      apply_then 4 main_from_4 (cell (field act 4) s) (marshal 4) (field act 5) act s

  unfoldable pub main_from_2 : (act : ℕ) → State → Result State
  main_from_2 act s =
      apply_then 3 main_from_3 (cell (field act 0) s) (marshal 3) (field act 4) act s

  unfoldable pub main_from_1 : (act : ℕ) → State → Result State
  main_from_1 act s =
      apply_then 2 main_from_2 (cell (field act 1) s) (marshal 2) (field act 2) act s

  unfoldable pub main_start : (act : ℕ) → State → Result State
  main_start act s = new_closure h enter_foo_at 3 s >>= λ (closure, s1).
      let s2 = put_cell (field act 0) closure s1 in
      apply_then 1 main_from_1 (cell (field act 0) s2) (marshal 1) (field act 1) act s2

  unfoldable pub step_main : (act : ℕ) → State → Result State
  step_main act s =
      let pc = (s.act act).pc in
      if pc == 0
      then main_start act s
      else if pc == 1
      then main_from_1 act s
      else if pc == 2
      then main_from_2 act s
      else if pc == 3
      then main_from_3 act s
      else if pc == 4
      then main_from_4 act s
      else if pc == 5
      then main_from_5 act s
      else if pc == 6
      then main_from_6 act s
      else if pc == 7
      then main_from_7 act s
      else if pc == 8
      then main_from_8 act s
      else if pc == 9
      then main_from_9 act s
      else leave steps act sizeof_act_main s

module _ (h : Handlers) (l : Limits) where
  -- The step function at a pointer. A routine that leaves runs its parent, so calls take fuel.
  unfoldable pub program : (fuel : ℕ) → Steps
  program zero step act s = out_of_fuel
  program (suc fuel) step act s =
      let steps = program fuel in
      if step == foo
      then step_foo h l steps act s
      else if step == main
      then step_main h l steps act s
      else top_return act s

-- `ret` is the address of the variable of that name.
unfoldable pub program_init : Handlers → (ret top_parent : ℕ) → State → Result State
program_init h ret top_parent s =
    enter_main h top_parent root_priority root_depth ret s >>= λ (act, s1). activate act s1
