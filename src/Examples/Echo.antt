-- ===== src/Examples/Echo.antt =====
-- examples/posix/echo.c: each character of the standard input is written in upper case half a second
-- later, and then a new line. `char` is unsigned.
use ssm_runtime.Base.{
  ℕ, suc, zero, ◌+◌, ◌-◌, ◌%◌, ◌/◌, ◌^◌, Result, ok, out_of_fuel, ◌>>=◌, ◌==◌, ◌&&◌, leb,
  if◌then◌else◌,
}
use ssm_runtime.Memory.{Handlers}
use ssm_runtime.State.{State, Value, marshal, unmarshal}
use ssm_runtime.Scheduler.{Limits, Steps, later, sensitize, desensitize, enter, leave, top_return}
use ssm_runtime.Scheduler.Contract.Resume.{resumed}
use ssm_runtime.Posix.{nanos}
use ssm_runtime.Posix.Main.{step_stdout_handler}
use ssm_runtime.Examples.{sizeof_routine, field, cell, put_cell, own_trigger, after}

-- main_act_t: two variables, then the trigger
abbrev pub stdin_of : (act : ℕ) → State → Value
stdin_of act s = cell (field act 0) s

abbrev pub stdout_of : (act : ℕ) → State → Value
stdout_of act s = cell (field act 1) s

abbrev pub trigger1_of : (act : ℕ) → ℕ
trigger1_of act = field act 2

abbrev pub sizeof_main_act : ℕ
sizeof_main_act = sizeof_routine 5

-- The pointers of the step functions, with the one of the handler of the output.
abbrev pub main : ℕ
main = 1

abbrev pub stdout_handler : ℕ
stdout_handler = 2

unfoldable pub enter_main :
    Handlers → (parent priority depth : ℕ) → (argv : ℕ → Value) → State → Result (ℕ × State)
enter_main h parent priority depth argv s =
    enter h sizeof_main_act main parent priority depth s >>= λ (act, s1). ok (
      act,
      own_trigger act (trigger1_of act)
          (put_cell (field act 1) (argv 1) (put_cell (field act 0) (argv 0) s1)),
    )

-- 'a' is 97, 'z' is 122 and 'A' is 65
unfoldable pub upper : (c : ℕ) → ℕ
upper c = if leb 97 c && leb c 122 then c + 65 - 97 else c

module _ (l : Limits) (steps : Steps) where
  -- the beginning of the loop, up to its first return
  unfoldable pub listen : (act : ℕ) → State → State
  listen act s = resumed act 1 (sensitize (stdin_of act s) (trigger1_of act) s)

  unfoldable pub step_main : (act : ℕ) → State → Result State
  step_main act s =
      let pc = (s.act act).pc in
      let s1 = desensitize (trigger1_of act) s in
      let c = unmarshal (s1.sv (stdin_of act s1)).value % 2 ^ 8 in
      if pc == 0
      then ok (listen act s)
      else if pc == 1
      then (later l (stdout_of act s1) (after (nanos / 2) s1) (marshal (upper c)) s1 >>= λ s2.
          ok (resumed act 2 (sensitize (stdout_of act s2) (trigger1_of act) s2)))
      else if pc == 2
      then (later l (stdout_of act s) (after (nanos / 1000) s) (marshal 10) s >>= λ s2.
          ok (resumed act 3 s2))
      else if pc == 3
      then ok (listen act s1)
      else leave steps act sizeof_main_act s

module _ (l : Limits) where
  -- The step function at a pointer. A routine that leaves runs its parent, so calls take fuel.
  unfoldable pub program : (fuel : ℕ) → Steps
  program zero step act s = out_of_fuel
  program (suc fuel) step act s =
      let steps = program fuel in
      if step == main
      then step_main l steps act s
      else if step == stdout_handler
      then step_stdout_handler l steps act s
      else top_return act s
