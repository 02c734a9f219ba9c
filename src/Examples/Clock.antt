-- ===== src/Examples/Clock.antt =====
-- examples/simulation/clock.c: a clock that ticks each second, and a routine that counts the ticks.
pub mod Beat
pub mod Turns
pub mod Rounds
pub mod Stages
pub mod Ticks
pub mod Run
pub mod Command
use ssm_runtime.Base.{ℕ, suc, zero, ◌+◌, Result, ok, out_of_fuel, ◌>>=◌, ◌==◌, if◌then◌else◌}
use ssm_runtime.Memory.{Handlers}
use ssm_runtime.State.{State, Value, root_priority, root_depth, marshal, unmarshal}
use ssm_runtime.Queues.{activate}
use ssm_runtime.Objects.{dup, drop, new_sv}
use ssm_runtime.Scheduler.{
  Limits, Steps, assign, later, sensitize, desensitize, enter, leave, top_return,
}
use ssm_runtime.Scheduler.Contract.Resume.{resumed}
use ssm_runtime.Simulation.{second}
use ssm_runtime.Examples.{
  sizeof_routine, field, cell, put_cell, own_trigger, deeper, priority_at, after, event_value,
}

-- act_second_clock_t and act_report_seconds_t: two variables, then the trigger
abbrev pub second_event_of : (act : ℕ) → State → Value
second_event_of act s = cell (field act 0) s

abbrev pub timer_of : (act : ℕ) → State → Value
timer_of act s = cell (field act 1) s

abbrev pub seconds_of : (act : ℕ) → State → Value
seconds_of act s = cell (field act 1) s

abbrev pub trigger1_of : (act : ℕ) → ℕ
trigger1_of act = field act 2

abbrev pub sizeof_act_second_clock : ℕ
sizeof_act_second_clock = sizeof_routine 5

abbrev pub sizeof_act_main : ℕ
sizeof_act_main = sizeof_routine 1

-- The pointers of the step functions.
abbrev pub second_clock : ℕ
second_clock = 1

abbrev pub report_seconds : ℕ
report_seconds = 2

abbrev pub main : ℕ
main = 3

module _ (h : Handlers) where
  unfoldable pub enter_second_clock :
      (parent priority depth : ℕ) → (second_event : Value) → State → Result (ℕ × State)
  enter_second_clock parent priority depth second_event s =
      enter h sizeof_act_second_clock second_clock parent priority depth s >>= λ (act, s1).
      ok (act, put_cell (field act 0) second_event s1)

  unfoldable pub enter_report_seconds :
      (parent priority depth : ℕ) → (second_event : Value) → State → Result (ℕ × State)
  enter_report_seconds parent priority depth second_event s =
      enter h sizeof_act_second_clock report_seconds parent priority depth s >>= λ (act, s1).
      ok (act, put_cell (field act 0) second_event s1)

  unfoldable pub enter_main : (parent priority depth : ℕ) → State → Result (ℕ × State)
  enter_main parent priority depth s = enter h sizeof_act_main main parent priority depth s

module _ (l : Limits) (steps : Steps) where
  -- the body of the loop of `step_second_clock`, up to its return
  unfoldable pub beat : (act : ℕ) → State → Result State
  beat act s = assign l (second_event_of act s) (s.act act).priority event_value s >>= λ s1.
      later l (timer_of act s1) (after second s1) event_value s1 >>= λ s2.
      let s3 = own_trigger act (trigger1_of act) s2 in
      ok (resumed act 1 (sensitize (timer_of act s3) (trigger1_of act) s3))

  unfoldable pub step_second_clock : Handlers → (act : ℕ) → State → Result State
  step_second_clock h act s =
      let pc = (s.act act).pc in
      let start =
        new_sv h event_value s >>= λ (timer, s1). beat act (put_cell (field act 1) timer s1) in
      let again = beat act (desensitize (trigger1_of act) s) in
      if pc == 0
      then start
      else if pc == 1
      then again
      else (drop l.depth (timer_of act s) s >>= λ s1.
          drop l.depth (second_event_of act s1) s1 >>= leave steps act sizeof_act_second_clock)

  -- the beginning of the body of the loop of `step_report_seconds`, up to its return
  unfoldable pub listen : (act : ℕ) → State → State
  listen act s =
      let s1 = own_trigger act (trigger1_of act) s in
      resumed act 1 (sensitize (second_event_of act s1) (trigger1_of act) s1)

  unfoldable pub step_report_seconds : Handlers → (act : ℕ) → State → Result State
  step_report_seconds h act s =
      let pc = (s.act act).pc in
      let s1 = desensitize (trigger1_of act) s in
      let seconds = seconds_of act s1 in
      if pc == 0
      then (new_sv h (marshal 0) s >>= λ (var, s2). ok (listen act (put_cell (field act 1) var s2)))
      else if pc == 1
      then (assign l seconds (s1.act act).priority (marshal (unmarshal (s1.sv seconds).value + 1))
            s1
          >>= λ s2. ok (listen act s2))
      else (drop l.depth (seconds_of act s) s >>= λ s2.
          drop l.depth (second_event_of act s2) s2 >>= leave steps act sizeof_act_second_clock)

  -- the start of the children, at pc 0; the second one takes the reference over
  unfoldable pub fork_main : Handlers → (act : ℕ) → State → Result State
  fork_main h act s = new_sv h event_value s >>= λ (var, s1).
      let s2 = put_cell (field act 0) var s1 in
      let new_depth = deeper 1 (s2.act act).depth in
      let new_priority = (s2.act act).priority in
      let second = cell (field act 0) s2 in
      enter_second_clock h act new_priority new_depth second (dup second s2) >>= λ (clock_act, s3).
      activate clock_act s3 >>= λ s4.
      enter_report_seconds h act (priority_at new_priority 1 new_depth) new_depth
        (cell (field act 0) s4) s4
      >>= λ (report_act, s5). activate report_act s5

  unfoldable pub step_main : Handlers → (act : ℕ) → State → Result State
  step_main h act s =
      if (s.act act).pc == 0
      then (fork_main h act s >>= λ s1. ok (resumed act 1 s1))
      else leave steps act sizeof_act_main s

module _ (h : Handlers) (l : Limits) where
  -- The step function at a pointer. A routine that leaves runs its parent, so calls take fuel.
  unfoldable pub program : (fuel : ℕ) → Steps
  program zero step act s = out_of_fuel
  program (suc fuel) step act s =
      let steps = program fuel in
      if step == second_clock
      then step_second_clock l steps h act s
      else if step == report_seconds
      then step_report_seconds l steps h act s
      else if step == main
      then step_main l steps h act s
      else top_return act s

unfoldable pub program_init : Handlers → (top_parent : ℕ) → State → Result State
program_init h top_parent s =
    enter_main h top_parent root_priority root_depth s >>= λ (act, s1). activate act s1
