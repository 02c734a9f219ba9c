-- ===== src/Examples/MapClosure.antt =====
-- examples/simulation/map-closure.c: a list to whose items a closure is applied.
use ssm_runtime.Base.{
  ℕ, suc, zero, ◌+◌, Result, ok, throw, out_of_fuel, Error, ◌>>=◌, ◌==◌, if◌then◌else◌,
}
use ssm_runtime.Memory.{Handlers}
use ssm_runtime.State.{State, Value, null, root_priority, root_depth, marshal, unmarshal}
use ssm_runtime.Queues.{activate}
use ssm_runtime.Objects.{tag, dup, drop, new_adt, new_closure}
use ssm_runtime.Closures.{EnterFunctions, closure_push, closure_apply_auto}
use ssm_runtime.Scheduler.{Limits, Steps, enter, leave, top_return}
use ssm_runtime.Scheduler.Contract.Resume.{resumed}
use ssm_runtime.Examples.{sizeof_routine, field, cell, put_cell, has_children, returned}
use ssm_runtime.Examples.Cons.{nil, cons, list_size, adt_field, set_adt_field, init_list}

-- act_inc_offset_t: __tmp1, offset, item and __ret; act_map_t: l, inc, i_, l_, __tmp0, __tmp1 and
-- __ret; act_print_list_t: l, __tmp0, __tmp1 and __ret; act_main_t: list, list_, inc_func and __ret
abbrev pub sizeof_act_inc_offset : ℕ
sizeof_act_inc_offset = sizeof_routine 4

abbrev pub sizeof_act_map : ℕ
sizeof_act_map = sizeof_routine 7

-- The pointers of the step functions, and of `enter_inc_offset`.
abbrev pub inc_offset : ℕ
inc_offset = 1

abbrev pub map : ℕ
map = 2

abbrev pub print_list : ℕ
print_list = 3

abbrev pub main : ℕ
main = 4

abbrev pub enter_inc_offset_at : ℕ
enter_inc_offset_at = 5

module _ (h : Handlers) where
  unfoldable pub enter_inc_offset :
      (parent priority depth : ℕ) → (argv : ℕ → Value) → (ret : ℕ) → State → Result (ℕ × State)
  enter_inc_offset parent priority depth argv ret s =
      enter h sizeof_act_inc_offset inc_offset parent priority depth s >>= λ (act, s1).
      let s2 = put_cell (field act 2) (argv 1) (put_cell (field act 1) (argv 0) s1) in
      ok (act, put_cell (field act 3) ret s2)

  -- the only function whose closures the program makes
  unfoldable pub enter_functions : EnterFunctions
  enter_functions f parent prio depth argv ret s =
      enter_inc_offset parent prio depth (s.payload argv) ret s

  unfoldable pub enter_map :
      (parent priority depth : ℕ) → (argv : ℕ → Value) → (ret : ℕ) → State → Result (ℕ × State)
  enter_map parent priority depth argv ret s =
      enter h sizeof_act_map map parent priority depth s >>= λ (act, s1).
      let s2 = put_cell (field act 1) (argv 1) (put_cell (field act 0) (argv 0) s1) in
      ok (act, put_cell (field act 6) ret s2)

  unfoldable pub enter_print_list :
      (parent priority depth : ℕ) → (argv : ℕ → Value) → (ret : ℕ) → State → Result (ℕ × State)
  enter_print_list parent priority depth argv ret s =
      enter h sizeof_act_inc_offset print_list parent priority depth s >>= λ (act, s1).
      ok (act, put_cell (field act 3) ret (put_cell (field act 0) (argv 0) s1))

  -- `list` is the address of the variable of that name
  unfoldable pub enter_main :
      (list parent priority depth : ℕ) → (ret : ℕ) → State → Result (ℕ × State)
  enter_main list parent priority depth ret s =
      enter h sizeof_act_inc_offset main parent priority depth s >>= λ (act, s1).
      ok (act, put_cell (field act 3) ret (put_cell (field act 0) (cell list s1) s1))

-- `if (cont->__ret) *cont->__ret = ssm_marshal(0)`
abbrev pub return_unit : (ret : ℕ) → State → State
return_unit ret s = if ret == null then s else put_cell ret (marshal 0) s

module _ (h : Handlers) (l : Limits) (steps : Steps) where
  unfoldable pub step_inc_offset : (act : ℕ) → State → Result State
  step_inc_offset act s =
      let sum = unmarshal (cell (field act 2) s) + unmarshal (cell (field act 1) s) in
      leave steps act sizeof_act_inc_offset (put_cell (cell (field act 3) s) (marshal sum) s)

  -- from `case 1` of `step_map` on: the rest of the list
  unfoldable pub map_tail : (act : ℕ) → State → Result State
  map_tail act s =
      let s1 = dup (cell (field act 3) s) s in
      let s2 = dup (cell (field act 1) s1) s1 in
      let argv : ℕ → Value = λ i. if i == 0 then cell (field act 3) s2 else cell (field act 1) s2 in
      enter_map h act (s2.act act).priority (s2.act act).depth argv (field act 5) s2
      >>= λ (child, s3). activate child s3 >>= λ s4. ok (resumed act 2 s4)

  -- `match_Cons_0` of `step_map`
  unfoldable pub map_cons : (act : ℕ) → State → Result State
  map_cons act s =
      let v = cell (field act 0) s in
      let s1 =
        put_cell (field act 3) (adt_field v 1 s) (put_cell (field act 2) (adt_field v 0 s) s) in
      let s2 = dup (cell (field act 2) s1) s1 in
      let s3 = dup (cell (field act 3) s2) s2 in
      closure_apply_auto h (enter_functions h) (cell (field act 1) s3) (cell (field act 2) s3) act
        (s3.act act).priority (s3.act act).depth (field act 4) s3
      >>= λ r.
          let s4 = returned (field act 4) r in
          let rest = map_tail act s4 in if has_children act s4 then ok (resumed act 1 s4) else rest

  -- `case 2` of `step_map`, up to the end of the switch
  unfoldable pub map_return : (act : ℕ) → State → Result State
  map_return act s = drop l.depth (cell (field act 2) s) s >>= λ s1.
      drop l.depth (cell (field act 3) s1) s1 >>= new_adt h (list_size cons) cons >>= λ (v, s2).
      let s3 = put_cell (cell (field act 6) s2) v s2 in
      let s4 = set_adt_field (cell (cell (field act 6) s3) s3) 0 (cell (field act 4) s3) s3 in
      ok (set_adt_field (cell (cell (field act 6) s4) s4) 1 (cell (field act 5) s4) s4)

  unfoldable pub step_map : (act : ℕ) → State → Result State
  step_map act s =
      let pc = (s.act act).pc in
      let t = tag (cell (field act 0) s) s in
      let finish : State → Result State = λ s1. drop l.depth (cell (field act 1) s1) s1 >>= λ s2.
      drop l.depth (cell (field act 0) s2) s2 >>= leave steps act sizeof_act_map in
      if pc == 0
      then (if t == nil
          then finish (put_cell (cell (field act 6) s) (marshal nil) s)
          else if t == cons
          then map_cons act s
          else throw Error.internal_error)
      else if pc == 1
      then map_tail act s
      else if pc == 2
      then (map_return act s >>= finish)
      else finish s

  -- `match_Cons_0` of `step_print_list`
  unfoldable pub print_cons : (act : ℕ) → State → Result State
  print_cons act s =
      let v = cell (field act 0) s in
      let tail = adt_field v 1 s in
      drop l.depth v (dup tail s) >>= λ s1.
      enter_print_list h act (s1.act act).priority (s1.act act).depth (λ i. tail) null s1
      >>= λ (child, s2). activate child s2 >>= λ s3. ok (resumed act 1 s3)

  unfoldable pub step_print_list : (act : ℕ) → State → Result State
  step_print_list act s =
      let pc = (s.act act).pc in
      let t = tag (cell (field act 0) s) s in
      let finish : State → Result State = leave steps act sizeof_act_inc_offset in
      if pc == 0
      then (if t == nil
          then finish s
          else if t == cons
          then print_cons act s
          else throw Error.internal_error)
      else if pc == 1
      then finish (return_unit (cell (field act 3) s) s)
      else finish s

  -- `case 1` of `step_main`
  unfoldable pub main_map : (act : ℕ) → State → Result State
  main_map act s = new_closure h enter_inc_offset_at 2 s >>= λ (inc, s1).
      let s2 = closure_push inc (marshal 69) s1 in
      let argv : ℕ → Value = λ i. if i == 0 then cell (field act 0) s2 else inc in
      enter_map h act (s2.act act).priority (s2.act act).depth argv (field act 1) s2
      >>= λ (child, s3). activate child s3 >>= λ s4. ok (resumed act 2 s4)

  unfoldable pub step_main : (act : ℕ) → State → Result State
  step_main act s =
      let pc = (s.act act).pc in
      let print : (n : ℕ) → Value → State → Result State = λ n v t.
        enter_print_list h act (t.act act).priority (t.act act).depth (λ i. v) null t
        >>= λ (child, t1). activate child t1 >>= λ t2. ok (resumed act n t2) in
      let finish : State → Result State = leave steps act sizeof_act_inc_offset in
      if pc == 0
      then print 1 (cell (field act 0) s) (dup (cell (field act 0) s) s)
      else if pc == 1
      then main_map act s
      else if pc == 2
      then print 3 (cell (field act 1) s) s
      else if pc == 3
      then finish (return_unit (cell (field act 3) s) s)
      else finish s

module _ (h : Handlers) (l : Limits) where
  -- The step function at a pointer. A routine that leaves runs its parent, so calls take fuel.
  unfoldable pub program : (fuel : ℕ) → Steps
  program zero step act s = out_of_fuel
  program (suc fuel) step act s =
      let steps = program fuel in
      if step == inc_offset
      then step_inc_offset h l steps act s
      else if step == map
      then step_map h l steps act s
      else if step == print_list
      then step_print_list h l steps act s
      else if step == main
      then step_main h l steps act s
      else top_return act s

-- `list` is the address of the variable of that name, and `n` what the arguments ask for.
unfoldable pub program_init : Handlers → (list top_parent n : ℕ) → State → Result State
program_init h list top_parent n s = init_list h list n (put_cell list (marshal nil) s) >>= λ s1.
    enter_main h list top_parent root_priority root_depth null (dup (cell list s1) s1)
    >>= λ (act, s2). activate act s2

unfoldable pub program_exit : Limits → (list : ℕ) → State → Result State
program_exit l list s = drop l.depth (cell list s) s
