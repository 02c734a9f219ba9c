-- ===== src/Examples/OneTwo.antt =====
-- examples/simulation/onetwo.c: two routines that wait for the same variable.
use ssm_runtime.Base.{ℕ, suc, zero, ◌+◌, ◌*◌, Result, ok, out_of_fuel, ◌>>=◌, ◌==◌, if◌then◌else◌}
use ssm_runtime.Memory.{Handlers}
use ssm_runtime.State.{State, Value, root_priority, root_depth, marshal, unmarshal}
use ssm_runtime.Queues.{activate}
use ssm_runtime.Objects.{dup, drop, new_sv}
use ssm_runtime.Scheduler.{
  Limits, Steps, assign, later, sensitize, desensitize, enter, leave, top_return,
}
use ssm_runtime.Scheduler.Contract.Resume.{resumed}
use ssm_runtime.Examples.{
  sizeof_routine, field, cell, put_cell, own_trigger, deeper, priority_at, after,
}

-- act_one_t and act_two_t: the variable, then the trigger
abbrev pub a_of : (act : ℕ) → State → Value
a_of act s = cell (field act 0) s

abbrev pub trigger1_of : (act : ℕ) → ℕ
trigger1_of act = field act 1

abbrev pub sizeof_act_one : ℕ
sizeof_act_one = sizeof_routine 4

abbrev pub sizeof_act_main : ℕ
sizeof_act_main = sizeof_routine 1

-- The pointers of the step functions.
abbrev pub one : ℕ
one = 1

abbrev pub two : ℕ
two = 2

abbrev pub main : ℕ
main = 3

module _ (h : Handlers) where
  unfoldable pub enter_one : (parent priority depth : ℕ) → (a : Value) → State → Result (ℕ × State)
  enter_one parent priority depth a s =
      enter h sizeof_act_one one parent priority depth s >>= λ (act, s1).
      ok (act, put_cell (field act 0) a (own_trigger act (trigger1_of act) s1))

  unfoldable pub enter_two : (parent priority depth : ℕ) → (a : Value) → State → Result (ℕ × State)
  enter_two parent priority depth a s =
      enter h sizeof_act_one two parent priority depth s >>= λ (act, s1).
      ok (act, put_cell (field act 0) a (own_trigger act (trigger1_of act) s1))

  unfoldable pub enter_main : (parent priority depth : ℕ) → State → Result (ℕ × State)
  enter_main parent priority depth s = enter h sizeof_act_main main parent priority depth s

module _ (l : Limits) (steps : Steps) where
  unfoldable pub step_one : (act : ℕ) → State → Result State
  step_one act s =
      let pc = (s.act act).pc in
      let s1 = desensitize (trigger1_of act) s in
      let a = a_of act s1 in
      let finish : State → Result State =
        λ t. drop l.depth (a_of act t) t >>= leave steps act sizeof_act_one in
      if pc == 0
      then ok (resumed act 1 (sensitize (a_of act s) (trigger1_of act) s))
      else if pc == 1
      then (assign l a (s1.act act).priority (marshal (unmarshal (s1.sv a).value + 1)) s1
          >>= finish)
      else finish s

  unfoldable pub step_two : (act : ℕ) → State → Result State
  step_two act s =
      let pc = (s.act act).pc in
      let s1 = desensitize (trigger1_of act) s in
      let a = a_of act s1 in
      let finish : State → Result State =
        λ t. drop l.depth (a_of act t) t >>= leave steps act sizeof_act_one in
      if pc == 0
      then ok (resumed act 1 (sensitize (a_of act s) (trigger1_of act) s))
      else if pc == 1
      then (assign l a (s1.act act).priority (marshal (unmarshal (s1.sv a).value * 2)) s1
          >>= finish)
      else finish s

  -- the start of the children, at pc 0
  unfoldable pub fork_main : Handlers → (act : ℕ) → State → Result State
  fork_main h act s = new_sv h (marshal 0) s >>= λ (var, s1).
      let s2 = put_cell (field act 0) var s1 in
      later l (a_of act s2) (after 100 s2) (marshal 10) s2 >>= λ s3.
      let new_depth = deeper 1 (s3.act act).depth in
      let new_priority = (s3.act act).priority in
      enter_one h act new_priority new_depth (a_of act s3) (dup (a_of act s3) s3)
      >>= λ (one_act, s4). activate one_act s4 >>= λ s5.
          enter_two h act (priority_at new_priority 1 new_depth) new_depth (a_of act s5)
            (dup (a_of act s5) s5)
          >>= λ (two_act, s6). activate two_act s6

  unfoldable pub step_main : Handlers → (act : ℕ) → State → Result State
  step_main h act s =
      if (s.act act).pc == 0
      then (fork_main h act s >>= λ s1. ok (resumed act 1 s1))
      else (drop l.depth (a_of act s) s >>= leave steps act sizeof_act_main)

module _ (h : Handlers) (l : Limits) where
  -- The step function at a pointer. A routine that leaves runs its parent, so calls take fuel.
  unfoldable pub program : (fuel : ℕ) → Steps
  program zero step act s = out_of_fuel
  program (suc fuel) step act s =
      let steps = program fuel in
      if step == one
      then step_one l steps act s
      else if step == two
      then step_two l steps act s
      else if step == main
      then step_main l steps h act s
      else top_return act s

unfoldable pub program_init : Handlers → (top_parent : ℕ) → State → Result State
program_init h top_parent s =
    enter_main h top_parent root_priority root_depth s >>= λ (act, s1). activate act s1
