-- ===== src/Examples/Counter.antt =====
-- examples/simulation/counter.c: a synchronous circuit of two flip-flops, an incrementer and an adder.
use ssm_runtime.Base.{ℕ, suc, zero, ◌+◌, ◌*◌, Result, ok, out_of_fuel, ◌>>=◌, ◌==◌, if◌then◌else◌}
use ssm_runtime.Memory.{Handlers}
use ssm_runtime.State.{State, Value, root_priority, root_depth, marshal, unmarshal}
use ssm_runtime.Queues.{activate}
use ssm_runtime.Objects.{new_sv}
use ssm_runtime.Scheduler.{
  Limits, Steps, assign, later, sensitize, desensitize, enter, leave, top_return,
}
use ssm_runtime.Scheduler.Contract.Resume.{resumed}
use ssm_runtime.Simulation.{second}
use ssm_runtime.Examples.{
  sizeof_routine, field, cell, put_cell, own_trigger, deeper, priority_at, after,
}

-- `ssm_deref` of the variable in the field that `i` words precede
abbrev pub deref_field : (act i : ℕ) → State → Value
deref_field act i s = (s.sv (cell (field act i) s)).value

-- act_main_t: clk, d1, q1, d2 and q2; act_clock_t: clk and the trigger
abbrev pub sizeof_act_main : ℕ
sizeof_act_main = sizeof_routine 5

abbrev pub sizeof_act_clock : ℕ
sizeof_act_clock = sizeof_routine 4

-- act_dff1_t and act_dff2_t: clk, d, q and the trigger; act_incr_t: d2, q2 and the trigger
abbrev pub sizeof_act_dff : ℕ
sizeof_act_dff = sizeof_routine 6

abbrev pub sizeof_act_incr : ℕ
sizeof_act_incr = sizeof_routine 5

-- act_adder_t: d1, q1, d2, q2 and two triggers
abbrev pub sizeof_act_adder : ℕ
sizeof_act_adder = sizeof_routine 10

-- The pointers of the step functions.
abbrev pub clock : ℕ
clock = 1

abbrev pub dff1 : ℕ
dff1 = 2

abbrev pub dff2 : ℕ
dff2 = 3

abbrev pub incr : ℕ
incr = 4

abbrev pub adder : ℕ
adder = 5

abbrev pub main : ℕ
main = 6

module _ (h : Handlers) where
  unfoldable pub enter_clock :
      (parent priority depth : ℕ) → (clk : Value) → State → Result (ℕ × State)
  enter_clock parent priority depth clk s =
      enter h sizeof_act_clock clock parent priority depth s >>= λ (act, s1).
      ok (act, own_trigger act (field act 1) (put_cell (field act 0) clk s1))

  unfoldable pub enter_dff1 :
      (parent priority depth : ℕ) → (clk q1 d1 : Value) → State → Result (ℕ × State)
  enter_dff1 parent priority depth clk q1 d1 s =
      enter h sizeof_act_dff dff1 parent priority depth s >>= λ (act, s1). ok (
        act,
        own_trigger act (field act 3)
            (put_cell (field act 1) d1 (put_cell (field act 2) q1 (put_cell (field act 0) clk s1))),
      )

  unfoldable pub enter_dff2 :
      (parent priority depth : ℕ) → (clk q2 d2 : Value) → State → Result (ℕ × State)
  enter_dff2 parent priority depth clk q2 d2 s =
      enter h sizeof_act_dff dff2 parent priority depth s >>= λ (act, s1). ok (
        act,
        own_trigger act (field act 3)
            (put_cell (field act 1) d2 (put_cell (field act 2) q2 (put_cell (field act 0) clk s1))),
      )

  unfoldable pub enter_incr :
      (parent priority depth : ℕ) → (q2 d2 : Value) → State → Result (ℕ × State)
  enter_incr parent priority depth q2 d2 s =
      enter h sizeof_act_incr incr parent priority depth s >>= λ (act, s1). ok (
        act,
        own_trigger act (field act 2) (put_cell (field act 1) q2 (put_cell (field act 0) d2 s1)),
      )

  unfoldable pub enter_adder :
      (parent priority depth : ℕ) → (d1 q1 d2 q2 : Value) → State → Result (ℕ × State)
  enter_adder parent priority depth d1 q1 d2 q2 s =
      enter h sizeof_act_adder adder parent priority depth s >>= λ (act, s1).
      let s2 = put_cell (field act 1) q1 (put_cell (field act 0) d1 s1) in
      let s3 = put_cell (field act 3) q2 (put_cell (field act 2) d2 s2) in
      ok (act, own_trigger act (field act 4) (own_trigger act (field act 7) s3))

  unfoldable pub enter_main : (parent priority depth : ℕ) → State → Result (ℕ × State)
  enter_main parent priority depth s = enter h sizeof_act_main main parent priority depth s

module _ (l : Limits) (steps : Steps) where
  -- a half of the loop of `step_clock`: the clock is to be `level` in two seconds
  unfoldable pub half_period : (level next act : ℕ) → State → Result State
  half_period level next act s =
      later l (cell (field act 0) s) (after (2 * second) s) (marshal level) s >>= λ s1.
      ok (resumed act next (sensitize (cell (field act 0) s1) (field act 1) s1))

  unfoldable pub step_clock : (act : ℕ) → State → Result State
  step_clock act s =
      let pc = (s.act act).pc in
      let woken = desensitize (field act 1) s in
      if pc == 0
      then half_period 1 1 act s
      else if pc == 1
      then half_period 0 2 act woken
      else if pc == 2
      then half_period 1 1 act woken
      else leave steps act sizeof_act_clock s

  -- the body of the loop of `step_dff1` and of `step_dff2`, up to its return
  unfoldable pub latch : (act : ℕ) → State → Result State
  latch act s =
      let stored = assign l (cell (field act 2) s) (s.act act).priority (deref_field act 1 s) s in
      (if unmarshal (deref_field act 0 s) == 0 then ok s else stored) >>= λ s1.
      ok (resumed act 1 (sensitize (cell (field act 0) s1) (field act 3) s1))

  unfoldable pub step_dff1 : (act : ℕ) → State → Result State
  step_dff1 act s =
      let pc = (s.act act).pc in
      if pc == 0
      then latch act s
      else if pc == 1
      then latch act (desensitize (field act 3) s)
      else leave steps act sizeof_act_dff s

  unfoldable pub step_dff2 : (act : ℕ) → State → Result State
  step_dff2 act s =
      let pc = (s.act act).pc in
      if pc == 0
      then latch act s
      else if pc == 1
      then latch act (desensitize (field act 3) s)
      else leave steps act sizeof_act_dff s

  -- the body of the loop of `step_incr`, up to its return
  unfoldable pub increment : (act : ℕ) → State → Result State
  increment act s =
      assign l (cell (field act 0) s) (s.act act).priority
        (marshal (unmarshal (deref_field act 1 s) + 1)) s
      >>= λ s1. ok (resumed act 1 (sensitize (cell (field act 1) s1) (field act 2) s1))

  unfoldable pub step_incr : (act : ℕ) → State → Result State
  step_incr act s =
      let pc = (s.act act).pc in
      if pc == 0
      then increment act s
      else if pc == 1
      then increment act (desensitize (field act 2) s)
      else leave steps act sizeof_act_incr s

  -- the body of the loop of `step_adder`, up to its return
  unfoldable pub add : (act : ℕ) → State → Result State
  add act s =
      assign l (cell (field act 0) s) (s.act act).priority
        (marshal (unmarshal (deref_field act 1 s) + unmarshal (deref_field act 2 s))) s
      >>= λ s1.
          let s2 = sensitize (cell (field act 3) s1) (field act 4) s1 in
          ok (resumed act 1 (sensitize (cell (field act 2) s2) (field act 7) s2))

  unfoldable pub step_adder : (act : ℕ) → State → Result State
  step_adder act s =
      let pc = (s.act act).pc in
      if pc == 0
      then add act s
      else if pc == 1
      then add act (desensitize (field act 4) (desensitize (field act 7) s))
      else leave steps act sizeof_act_adder s

  -- `cont->x = ssm_new_sv(ssm_marshal(0))` for the field that `i` words precede
  abbrev new_field : Handlers → (act i : ℕ) → State → Result State
  new_field h act i s = new_sv h (marshal 0) s >>= λ (var, s1). ok (put_cell (field act i) var s1)

  unfoldable pub new_variables : Handlers → (act : ℕ) → State → Result State
  new_variables h act s =
      new_field h act 0 s
      >>= new_field h act 2
      >>= new_field h act 4
      >>= new_field h act 1
      >>= new_field h act 3

  -- the start of the children, at pc 0
  unfoldable pub fork_main : Handlers → (act : ℕ) → State → Result State
  fork_main h act s =
      let new_depth : State → ℕ = λ t. deeper 3 (t.act act).depth in
      let priority : ℕ → State → ℕ = λ k t. priority_at (t.act act).priority k (new_depth t) in
      let var : ℕ → State → Value = λ i t. cell (field act i) t in
      new_variables h act s >>= λ s1.
      enter_clock h act (priority 0 s1) (new_depth s1) (var 0 s1) s1 >>= λ (clock_act, s2).
      activate clock_act s2 >>= λ s3.
      enter_dff1 h act (priority 1 s3) (new_depth s3) (var 0 s3) (var 2 s3) (var 1 s3) s3
      >>= λ (dff1_act, s4). activate dff1_act s4 >>= λ s5.
          enter_dff2 h act (priority 2 s5) (new_depth s5) (var 0 s5) (var 4 s5) (var 3 s5) s5
          >>= λ (dff2_act, s6). activate dff2_act s6 >>= λ s7.
              enter_incr h act (priority 3 s7) (new_depth s7) (var 4 s7) (var 3 s7) s7
              >>= λ (incr_act, s8). activate incr_act s8 >>= λ s9.
                  enter_adder h act (priority 4 s9) (new_depth s9) (var 1 s9) (var 3 s9) (var 2 s9)
                    (var 4 s9) s9
                  >>= λ (adder_act, s10). activate adder_act s10

  unfoldable pub step_main : Handlers → (act : ℕ) → State → Result State
  step_main h act s =
      if (s.act act).pc == 0
      then (fork_main h act s >>= λ s1. ok (resumed act 1 s1))
      else leave steps act sizeof_act_main s

module _ (h : Handlers) (l : Limits) where
  -- The step function at a pointer. A routine that leaves runs its parent, so calls take fuel.
  unfoldable pub program : (fuel : ℕ) → Steps
  program zero step act s = out_of_fuel
  program (suc fuel) step act s =
      let steps = program fuel in
      if step == clock
      then step_clock l steps act s
      else if step == dff1
      then step_dff1 l steps act s
      else if step == dff2
      then step_dff2 l steps act s
      else if step == incr
      then step_incr l steps act s
      else if step == adder
      then step_adder l steps act s
      else if step == main
      then step_main l steps h act s
      else top_return act s

unfoldable pub program_init : Handlers → (top_parent : ℕ) → State → Result State
program_init h top_parent s =
    enter_main h top_parent root_priority root_depth s >>= λ (act, s1). activate act s1
