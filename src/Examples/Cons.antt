-- ===== src/Examples/Cons.antt =====
-- examples/simulation/list.c: lists as heap objects, a routine that prints one, and a routine that
-- makes the list of its successors.
pub mod Lists
pub mod Call
pub mod Return
pub mod Next
pub mod Init
pub mod Resume
pub mod Map
use ssm_runtime.Base.{
  ℕ, suc, zero, ◌+◌, Result, ok, throw, out_of_fuel, Error, ◌>>=◌, ◌==◌, if◌then◌else◌, update,
}
use ssm_runtime.Memory.{Handlers}
use ssm_runtime.State.{State, Value, root_priority, root_depth, marshal, unmarshal}
use ssm_runtime.Queues.{activate}
use ssm_runtime.Objects.{tag, dup, drop, new_adt}
use ssm_runtime.Scheduler.{Limits, Steps, enter, leave, top_return}
use ssm_runtime.Scheduler.Contract.Resume.{resumed}
use ssm_runtime.Examples.{sizeof_routine, field, cell, put_cell}

-- enum List
abbrev pub nil : ℕ
nil = 0

abbrev pub cons : ℕ
cons = 1

-- List_size
abbrev pub list_size : ℕ → ℕ
list_size t = if t == cons then 2 else 0

-- `ssm_adt_field(v, i)`, and the assignment to it
abbrev pub adt_field : Value → (i : ℕ) → State → Value
adt_field v i s = s.payload v i

abbrev pub set_adt_field : Value → (i : ℕ) → Value → State → State
set_adt_field v i x s = record s { payload = update s.payload v (update (s.payload v) i x) }

-- act_map_inc_t: l, __tmp0, __tmp1 and __ret; act_print_list_t: l, __tmp0 and __tmp1;
-- act_main_t: list and list_
abbrev pub sizeof_act_map_inc : ℕ
sizeof_act_map_inc = sizeof_routine 4

abbrev pub sizeof_act_print_list : ℕ
sizeof_act_print_list = sizeof_routine 3

abbrev pub sizeof_act_main : ℕ
sizeof_act_main = sizeof_routine 2

-- The pointers of the step functions.
abbrev pub map_inc : ℕ
map_inc = 1

abbrev pub print_list : ℕ
print_list = 2

abbrev pub main : ℕ
main = 3

-- `ssm_adt_field(*cont->__ret, i)` is `cont->__tmp0` or `cont->__tmp1`
unfoldable pub return_field : (act i : ℕ) → State → State
return_field act i s =
    set_adt_field (cell (cell (field act 3) s) s) i (cell (field act (i + 1)) s) s

module _ (h : Handlers) where
  unfoldable pub enter_map_inc :
      (parent priority depth : ℕ) → (l : Value) → (ret : ℕ) → State → Result (ℕ × State)
  enter_map_inc parent priority depth l ret s =
      enter h sizeof_act_map_inc map_inc parent priority depth s >>= λ (act, s1).
      ok (act, put_cell (field act 3) ret (put_cell (field act 0) l s1))

  unfoldable pub enter_print_list :
      (parent priority depth : ℕ) → (l : Value) → State → Result (ℕ × State)
  enter_print_list parent priority depth l s =
      enter h sizeof_act_print_list print_list parent priority depth s >>= λ (act, s1).
      ok (act, put_cell (field act 0) l s1)

  -- `list` is the address of the variable of that name
  unfoldable pub enter_main : (list parent priority depth : ℕ) → State → Result (ℕ × State)
  enter_main list parent priority depth s =
      enter h sizeof_act_main main parent priority depth s >>= λ (act, s1).
      ok (act, put_cell (field act 0) (cell list s1) s1)

  -- a new Cons object with the two fields
  unfoldable pub new_cons : (head tail : Value) → State → Result (Value × State)
  new_cons head tail s = new_adt h (list_size cons) cons s >>= λ (v, s1).
      ok (v, set_adt_field v 1 tail (set_adt_field v 0 head s1))

  module _ (l : Limits) (steps : Steps) where
    -- `match_Cons_0` of `step_map_inc`
    unfoldable pub map_cons : (act : ℕ) → State → Result State
    map_cons act s =
        let v = cell (field act 0) s in
        let i = adt_field v 0 s in
        let tail = adt_field v 1 s in
        drop l.depth v (dup tail s) >>= λ s1.
        let s2 = put_cell (field act 1) (marshal (unmarshal i + 1)) s1 in
        enter_map_inc act (s2.act act).priority (s2.act act).depth tail (field act 2) s2
        >>= λ (child, s3). activate child s3 >>= λ s4. ok (resumed act 1 s4)

    -- pc 1 of `step_map_inc`
    unfoldable pub map_return : (act : ℕ) → State → Result State
    map_return act s = new_adt h (list_size cons) cons s >>= λ (v, s1).
        ok (return_field act 1 (return_field act 0 (put_cell (cell (field act 3) s1) v s1)))

    unfoldable pub step_map_inc : (act : ℕ) → State → Result State
    step_map_inc act s =
        let pc = (s.act act).pc in
        let t = tag (cell (field act 0) s) s in
        let finish : State → Result State = leave steps act sizeof_act_map_inc in
        if pc == 0
        then (if t == nil
            then finish (put_cell (cell (field act 3) s) (marshal nil) s)
            else if t == cons
            then map_cons act s
            else throw Error.internal_error)
        else if pc == 1
        then (map_return act s >>= finish)
        else finish s

    -- `match_Cons_0` of `step_print_list`
    unfoldable pub print_cons : (act : ℕ) → State → Result State
    print_cons act s =
        let v = cell (field act 0) s in
        let tail = adt_field v 1 s in
        drop l.depth v (dup tail s) >>= λ s1.
        enter_print_list act (s1.act act).priority (s1.act act).depth tail s1 >>= λ (child, s2).
        activate child s2 >>= λ s3. ok (resumed act 1 s3)

    unfoldable pub step_print_list : (act : ℕ) → State → Result State
    step_print_list act s =
        let pc = (s.act act).pc in
        let t = tag (cell (field act 0) s) s in
        let finish : State → Result State = leave steps act sizeof_act_print_list in
        if pc == 0
        then (if t == nil
            then finish s
            else if t == cons
            then print_cons act s
            else throw Error.internal_error)
        else finish s

    unfoldable pub step_main : (act : ℕ) → State → Result State
    step_main act s =
        let pc = (s.act act).pc in
        let priority = (s.act act).priority in
        let depth = (s.act act).depth in
        let list = cell (field act 0) s in
        let start : ℕ → Result (ℕ × State) → Result State = λ n entered.
          entered >>= λ (child, s1). activate child s1 >>= λ s2. ok (resumed act n s2) in
        if pc == 0
        then start 1 (enter_print_list act priority depth list (dup list s))
        else if pc == 1
        then start 2 (enter_map_inc act priority depth list (field act 1) s)
        else if pc == 2
        then start 3 (enter_print_list act priority depth (cell (field act 1) s) s)
        else leave steps act sizeof_act_main s

module _ (h : Handlers) (l : Limits) where
  -- The step function at a pointer. A routine that leaves runs its parent, so calls take fuel.
  unfoldable pub program : (fuel : ℕ) → Steps
  program zero step act s = out_of_fuel
  program (suc fuel) step act s =
      let steps = program fuel in
      if step == map_inc
      then step_map_inc h l steps act s
      else if step == print_list
      then step_print_list h l steps act s
      else if step == main
      then step_main h l steps act s
      else top_return act s

module _ (h : Handlers) (list : ℕ) where
  -- the loop of `ssm_program_init`, from `i` down to 1
  unfoldable pub init_list : (i : ℕ) → State → Result State
  init_list zero s = ok s
  init_list (suc i) s =
      new_cons h (marshal (suc i)) (cell list s) s >>= λ (v, s1). init_list i (put_cell list v s1)

  -- `n` is what the arguments ask for.
  unfoldable pub program_init : (top_parent n : ℕ) → State → Result State
  program_init top_parent n s = init_list n (put_cell list (marshal nil) s) >>= λ s1.
      enter_main h list top_parent root_priority root_depth (dup (cell list s1) s1) >>= λ (act, s2).
      activate act s2

unfoldable pub program_exit : Limits → (list : ℕ) → State → Result State
program_exit l list s = drop l.depth (cell list s) s
