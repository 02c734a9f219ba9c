-- ===== src/Examples/Hello.antt =====
-- examples/simulation/hello.c: a text that is written a character at a time.
use ssm_runtime.Base.{
  ℕ, suc, zero, ◌+◌, ◌%◌, ◌^◌, List, [], ◌∷◌, Result, ok, out_of_fuel, ◌>>=◌, ◌==◌, ltb,
  if◌then◌else◌,
}
use ssm_runtime.Memory.{Handlers}
use ssm_runtime.State.{State, Value, root_priority, root_depth, marshal, unmarshal}
use ssm_runtime.Queues.{activate}
use ssm_runtime.Objects.{dup, drop, new_sv}
use ssm_runtime.Scheduler.{Limits, Steps, later, sensitize, desensitize, enter, leave, top_return}
use ssm_runtime.Scheduler.Contract.Resume.{resumed}
use ssm_runtime.Examples.{
  sizeof_routine, field, cell, put_cell, own_trigger, deeper, priority_at, after,
}

-- hello_act_t and print_act_t: the variable, then the trigger
abbrev pub stdout_of : (act : ℕ) → State → Value
stdout_of act s = cell (field act 0) s

abbrev pub trigger1_of : (act : ℕ) → ℕ
trigger1_of act = field act 1

abbrev pub sizeof_hello_act : ℕ
sizeof_hello_act = sizeof_routine 4

abbrev pub sizeof_main_act : ℕ
sizeof_main_act = sizeof_routine 1

-- The pointers of the step functions.
abbrev pub hello : ℕ
hello = 1

abbrev pub print : ℕ
print = 2

abbrev pub main : ℕ
main = 3

-- "Hello world!\r\n" with the 0 behind it, a character for each use of `print_yield`
abbrev pub text : List ℕ
text = 72 ∷ 101 ∷ 108 ∷ 108 ∷ 111 ∷ 32 ∷ 119 ∷ 111 ∷ 114 ∷ 108 ∷ 100 ∷ 33 ∷ 13 ∷ 10 ∷ 0 ∷ []

abbrev pub char_at : List ℕ → (i : ℕ) → ℕ
char_at [] i = 0
char_at (c ∷ cs) zero = c
char_at (c ∷ cs) (suc i) = char_at cs i

module _ (h : Handlers) where
  unfoldable pub enter_hello :
      (parent priority depth : ℕ) → (stdout : Value) → State → Result (ℕ × State)
  enter_hello parent priority depth stdout s =
      enter h sizeof_hello_act hello parent priority depth s >>= λ (act, s1).
      ok (act, put_cell (field act 0) stdout (own_trigger act (trigger1_of act) s1))

  unfoldable pub enter_print :
      (parent priority depth : ℕ) → (stdout : Value) → State → Result (ℕ × State)
  enter_print parent priority depth stdout s =
      enter h sizeof_hello_act print parent priority depth s >>= λ (act, s1).
      ok (act, own_trigger act (trigger1_of act) (put_cell (field act 0) stdout s1))

  unfoldable pub enter_main : (parent priority depth : ℕ) → State → Result (ℕ × State)
  enter_main parent priority depth s = enter h sizeof_main_act main parent priority depth s

module _ (l : Limits) (steps : Steps) where
  -- `print_yield(p, c)` up to its return
  unfoldable pub print_yield : (p c act : ℕ) → State → Result State
  print_yield p c act s = later l (stdout_of act s) (after 10 s) (marshal c) s >>= λ s1.
      ok (resumed act p (sensitize (stdout_of act s1) (trigger1_of act) s1))

  unfoldable pub step_hello : (act : ℕ) → State → Result State
  step_hello act s =
      let pc = (s.act act).pc in
      let woken = desensitize (trigger1_of act) s in
      let finish : State → Result State =
        λ t. drop l.depth (stdout_of act t) t >>= leave steps act sizeof_hello_act in
      let next = print_yield (pc + 1) (char_at text pc) act woken in
      if pc == 0
      then print_yield 1 (char_at text 0) act s
      else if ltb pc 15
      then next
      else if pc == 15
      then finish woken
      else finish s

  -- the character that is written, 0 for none, and the state
  unfoldable pub step_print : (act : ℕ) → State → Result (ℕ × State)
  step_print act s =
      let pc = (s.act act).pc in
      let listen : State → State =
        λ t. resumed act 1 (sensitize (stdout_of act t) (trigger1_of act) t) in
      let finish : State → Result (ℕ × State) = λ t.
        drop l.depth (stdout_of act t) t >>= leave steps act sizeof_hello_act >>= λ t1.
        ok (0, t1) in
      let s1 = desensitize (trigger1_of act) s in
      let c = unmarshal (s1.sv (stdout_of act s1)).value % 2 ^ 8 in
      if pc == 0
      then ok (0, listen s)
      else if pc == 1
      then (if c == 0 then finish s1 else ok (c, listen s1))
      else finish s

  -- the start of the children, at pc 0
  unfoldable pub fork_main : Handlers → (act : ℕ) → State → Result State
  fork_main h act s = new_sv h (marshal 0) s >>= λ (var, s1).
      let s2 = put_cell (field act 0) var s1 in
      let new_depth = deeper 1 (s2.act act).depth in
      let new_priority = (s2.act act).priority in
      enter_hello h act new_priority new_depth (stdout_of act s2) (dup (stdout_of act s2) s2)
      >>= λ (hello_act, s3). activate hello_act s3 >>= λ s4.
          enter_print h act (priority_at new_priority 1 new_depth) new_depth (stdout_of act s4)
            (dup (stdout_of act s4) s4)
          >>= λ (print_act, s5). activate print_act s5

  unfoldable pub step_main : Handlers → (act : ℕ) → State → Result State
  step_main h act s =
      if (s.act act).pc == 0
      then (fork_main h act s >>= λ s1. ok (resumed act 1 s1))
      else leave steps act sizeof_main_act s

module _ (h : Handlers) (l : Limits) where
  -- The step function at a pointer. A routine that leaves runs its parent, so calls take fuel.
  unfoldable pub program : (fuel : ℕ) → Steps
  program zero step act s = out_of_fuel
  program (suc fuel) step act s =
      let steps = program fuel in
      if step == hello
      then step_hello l steps act s
      else if step == print
      then (step_print l steps act s >>= λ (c, s1). ok s1)
      else if step == main
      then step_main l steps h act s
      else top_return act s

unfoldable pub program_init : Handlers → (top_parent : ℕ) → State → Result State
program_init h top_parent s =
    enter_main h top_parent root_priority root_depth s >>= λ (act, s1). activate act s1
