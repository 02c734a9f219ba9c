-- ===== src/Closures.antt =====
-- Closures: src/ssm-closure.c, with the macros of include/ssm.h. What an enter function does is the
-- program's own; `enter_functions` gives it, by the pointer that stands in the closure. The argument
-- array of a closure is named by the address of the closure.
pub mod Clone
pub mod Apply
pub mod Partial
pub mod Final
pub mod Each
use ssm_runtime.Base.{
  ℕ, zero, suc, ◌+◌, not, Option, none, some, Result, ok, ◌>>=◌, assert, ◌==◌, if◌then◌else◌,
  update,
}
use ssm_runtime.Memory.{Handlers}
use ssm_runtime.State.{State, Value, info_count, info_cap, pair_info, put_mm}
use ssm_runtime.Queues.{activate}
use ssm_runtime.Objects.{is_shared, incr8, decr8, dup, dups, closure_size, free_object, new_closure}

-- ssm_closure_arg_count and ssm_closure_arg_cap
abbrev pub closure_arg_count : Value → State → ℕ
closure_arg_count v s = info_count (s.mm v)

abbrev pub closure_arg_cap : Value → State → ℕ
closure_arg_cap v s = info_cap (s.mm v)

-- `ssm_closure_arg_count(v) = count`
unfoldable pub set_arg_count : Value → (count : ℕ) → State → State
set_arg_count v count s =
    put_mm v (record (s.mm v) { info = pair_info count (info_cap (s.mm v)) }) s

-- `ssm_closure_arg(v, i) = arg`
unfoldable pub set_arg : Value → (i : ℕ) → (arg : Value) → State → State
set_arg v i arg s = record s { payload = update s.payload v (update (s.payload v) i arg) }

unfoldable pub closure_push : (closure arg : Value) → State → State
closure_push closure arg s =
    let count = closure_arg_count closure s in
    set_arg closure count arg (set_arg_count closure (incr8 count) s)

unfoldable pub closure_pop : (closure : Value) → State → State
closure_pop closure s = set_arg_count closure (decr8 (closure_arg_count closure s)) s

unfoldable pub closure_free : (closure : Value) → State → State
closure_free closure s = free_object closure (closure_size (closure_arg_cap closure s)) s

-- The loop of `ssm_closure_clone`, from index `i` on. It does not change the count that bounds it.
unfoldable pub clone_args : (rounds i : ℕ) → (closure new_closure : Value) → State → State
clone_args zero i closure new_closure s = s
clone_args (suc rounds) i closure new_closure s =
    let s1 = dup (s.payload closure i) s in
    clone_args rounds (i + 1) closure new_closure (set_arg new_closure i (s1.payload closure i) s1)

-- What the enter functions do: they allocate the record of a routine and return it.
abbrev pub EnterFunctions : Type 0
EnterFunctions = (f parent prio depth : ℕ) → (argv : Value) → (ret : ℕ) → State → Result (ℕ × State)

module _ (h : Handlers) (enter_functions : EnterFunctions) where
  unfoldable pub closure_clone : (closure : Value) → State → Result (Value × State)
  closure_clone closure s =
      new_closure h (s.func closure) (closure_arg_cap closure s) s >>= λ (clone, s1).
      let s2 = set_arg_count clone (closure_arg_count closure s1) s1 in
      ok (clone, clone_args (closure_arg_count closure s2) 0 closure clone s2)

  unfoldable pub closure_activate :
      (closure : Value) → (parent prio depth ret : ℕ) → State → Result State
  closure_activate closure parent prio depth ret s =
      enter_functions (s.func closure) parent prio depth closure ret s >>= λ (act, s1).
      activate act s1

  -- What is written to `ret` at once, and the state after the call.
  unfoldable pub closure_apply :
      (closure arg : Value) → (parent prio depth ret : ℕ) → State → Result (Option Value × State)
  closure_apply closure arg parent prio depth ret s =
      let count = closure_arg_count closure s in
      if closure_arg_cap closure s == count + 1
      then (closure_activate closure parent prio depth ret
            (closure_push closure arg (dups count 0 (s.payload closure) s))
          >>= λ s1. ok (none, closure_pop closure s1))
      else (closure_clone closure s >>= λ (clone, s1). ok (some clone, closure_push clone arg s1))

  unfoldable pub closure_apply_final :
      (closure arg : Value) → (parent prio depth ret : ℕ) → State → Result (Option Value × State)
  closure_apply_final closure arg parent prio depth ret s = assert (not (is_shared closure s)) (
      if closure_arg_cap closure s == closure_arg_count closure s + 1
      then (closure_activate closure parent prio depth ret (closure_push closure arg s) >>= λ s1.
          ok (none, closure_free closure s1))
      else ok (some closure, closure_push closure arg s))

  -- ssm_closure_apply_auto and ssm_closure_apply_final_auto
  unfoldable pub closure_apply_auto :
      (closure arg : Value) → (parent prio depth ret : ℕ) → State → Result (Option Value × State)
  closure_apply_auto closure arg parent prio depth ret s =
      closure_apply closure arg parent prio depth ret (dup arg s)

  unfoldable pub closure_apply_final_auto :
      (closure arg : Value) → (parent prio depth ret : ℕ) → State → Result (Option Value × State)
  closure_apply_final_auto closure arg parent prio depth ret s =
      closure_apply_final closure arg parent prio depth ret (dup arg s)
