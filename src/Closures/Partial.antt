-- ===== src/Closures/Partial.antt =====
-- Application of a closure: a partial application is a new closure, a full one a routine.
use ssm_runtime.Base.{
  ℕ, ◌+◌, ◌^◌, ◌<◌, ◌≡◌, ◌≢◌, sym, ap, ◌∙◌, true, false, none, some, ok, arith, update,
}
use mathlib.Core.Path.{subst}
use ssm_runtime.Memory.{Handlers, Memory, mem_alloc}
use ssm_runtime.State.{State, Value, info_count, info_cap, act_queue_size}
use ssm_runtime.Queues.{activate}
use ssm_runtime.Queues.Acts.{ActInv, activate-Activated}
use ssm_runtime.Objects.{dups, closure_size}
use ssm_runtime.Closures.{
  set_arg_count, set_arg, closure_push, closure_pop, EnterFunctions, closure_clone,
  closure_activate, closure_apply,
}
use ssm_runtime.Closures.Clone.{dups-frame, dups-info}
use ssm_runtime.Closures.Apply.{
  IsClosure, Cloned, copied, closure_clone_run, copied-Cloned, copied-IsClosure,
  closure_push-IsClosure,
}

-- a push on another closure
push_other-IsClosure :
    (f count cap : ℕ) (args : ℕ → Value) (c other arg : Value) (s : State)
    → other ≢ c
    → IsClosure f count cap args c s
    → IsClosure f count cap args c (closure_push other arg s)
unfolding closure_push set_arg set_arg_count
push_other-IsClosure f count cap args c other arg s apart d = record {
  function = d.function;
  counted = ground (arith, d.counted);
  capacity = ground (arith, d.capacity);
  arguments = λ i h. ground (arith, d.arguments i);
}

push-Cloned :
    (count : ℕ) (c clone arg : Value) (s s' : State)
    → Cloned count c clone s s'
    → Cloned count c clone s (closure_push clone arg s')
unfolding closure_push set_arg set_arg_count
push-Cloned count c clone arg s s' d = record {
  fresh = ground (arith, d.fresh);
  values = λ p other. ground (arith, d.values p other);
  functions = d.functions;
  headers = λ p other. ground (arith, d.headers p other);
}

-- a pop takes the last argument off
closure_pop-IsClosure :
    (f count cap : ℕ) (args : ℕ → Value) (c : Value) (s : State)
    → IsClosure f (count + 1) cap args c s
    → count + 1 < 2 ^ 8
    → cap < 2 ^ 8
    → IsClosure f count cap args c (closure_pop c s)
unfolding closure_pop set_arg_count
closure_pop-IsClosure f count cap args c s d small fits = record {
  function = d.function;
  counted = ground (arith, d.counted, d.capacity);
  capacity = ground (arith, d.counted, d.capacity);
  arguments = λ i h. ground (arith, d.arguments i);
}

-- the argument after the last one does not count
fewer_arguments :
    (f count cap : ℕ) (args : ℕ → Value) (c arg : Value) (s : State)
    → IsClosure f count cap (update args count arg) c s
    → IsClosure f count cap args c s
fewer_arguments f count cap args c arg s d = record {
  function = d.function;
  counted = d.counted;
  capacity = d.capacity;
  arguments = λ i h. ground (arith, d.arguments i h);
}

dups-IsClosure :
    (f count cap : ℕ) (args : ℕ → Value) (c : Value) (s : State)
    → IsClosure f count cap args c s
    → IsClosure f count cap args c (dups count 0 (s.payload c) s)
dups-IsClosure f count cap args c s d =
    let frame = dups-frame count 0 (s.payload c) s in
    let info = dups-info count 0 (s.payload c) s c in
    record {
      function = ap (λ (x : State). x.func c) frame ∙ d.function;
      counted = ground (arith, info, d.counted);
      capacity = ground (arith, info, d.capacity);
      arguments = λ i h. ap (λ (x : State). x.payload c i) frame ∙ d.arguments i h;
    }

module _ (h : Handlers) (enter_functions : EnterFunctions) (f count cap : ℕ) (args : ℕ → Value)
    (c : Value) (s : State) (d : IsClosure f count cap args c s) (fits : cap < 2 ^ 8)
    (arg parent prio depth ret : ℕ) where
  apply_partial_run :
      (clone : Value) (s1 : State)
      → count + 1 < cap
      → closure_clone h enter_functions c s ≡ ok (clone, s1)
      → closure_apply h enter_functions c arg parent prio depth ret s
        ≡ ok (some clone, closure_push clone arg s1)
  unfolding closure_apply
  apply_partial_run clone s1 more run = ground (arith, d.counted, d.capacity)

  -- An application that leaves arguments open returns a new closure with the references of the old one's
  -- arguments, and the new argument, where the allocator gives memory other than the closure
  -- and its arguments. The old closure is as it was. Its arguments gain a reference each, and no other header changes, nor the function or the contents of another object.
  pub closure_apply-partial :
      (clone : Value) (m : Memory)
      → mem_alloc h (closure_size cap) s.memory ≡ ok (clone, m)
      → clone ≢ c
      → ((i : ℕ) → i < count → args i ≢ clone)
      → count + 1 < cap
      → (s' : State) × (closure_apply h enter_functions c arg parent prio depth ret s
          ≡ ok (some clone, s'))
        × IsClosure f (count + 1) cap (update args count arg) clone s'
        × IsClosure f count cap args c s'
        × Cloned count c clone s s'
  closure_apply-partial clone m run apart foreign more =
      let small : count < 2 ^ 8 = omega arith in
      let s1 = copied h enter_functions f count cap args c s d clone m run apart in
      let (new, old) =
        copied-IsClosure h enter_functions f count cap args c s d clone m run apart small fits
          foreign in
      (
        closure_push clone arg s1,
        apply_partial_run clone s1 more
            (closure_clone_run h enter_functions f count cap args c s d clone m run apart),
        closure_push-IsClosure f count cap args clone arg s1 new (omega arith) fits,
        push_other-IsClosure f count cap args c clone arg s1 apart old,
        push-Cloned count c clone arg s s1 (
            copied-Cloned h enter_functions f count cap args c s d clone m run apart small fits
              foreign),
      )

  -- the state in which the enter function is called
  abbrev pub applied : State
  applied = closure_push c arg (dups count 0 (s.payload c) s)

  apply_full_run :
      (act : ℕ) (s1 s2 : State)
      → count + 1 ≡ cap
      → applied.func c ≡ f
      → enter_functions f parent prio depth c ret applied ≡ ok (act, s1)
      → activate act s1 ≡ ok s2
      → closure_apply h enter_functions c arg parent prio depth ret s ≡ ok (none, closure_pop c s2)
  unfolding closure_apply closure_activate
  apply_full_run act s1 s2 full same run1 run2 = ground (arith, d.counted, d.capacity, same)

  -- An application that gives the last argument enters the routine with all arguments in the closure, and
  -- schedules it, where the enter function leaves the closure and a well-formed activation queue with room for a
  -- routine. It returns no closure, and the closure is as it was.
  pub closure_apply-full :
      (act : ℕ) (s1 : State)
      → count + 1 ≡ cap
      → enter_functions f parent prio depth c ret applied ≡ ok (act, s1)
      → s1.func c ≡ applied.func c
      → s1.mm c ≡ applied.mm c
      → s1.payload c ≡ applied.payload c
      → ActInv s1
      → ((s1.act act).scheduled ≡ false → s1.act_queue_len < act_queue_size)
      → (s' : State) × (closure_apply h enter_functions c arg parent prio depth ret s
          ≡ ok (none, s'))
        × IsClosure f cap cap (update args count arg) c applied
        × IsClosure f count cap args c s'
        × ((s'.act act).scheduled ≡ true)
  unfolding closure_pop set_arg_count
  closure_apply-full act s1 full run functions headers values inv room =
      let (s2, activated, a) = activate-Activated act s1 inv room in
      let all : IsClosure f cap cap (update args count arg) c applied =
        subst (λ (n : ℕ). IsClosure f n cap (update args count arg) c applied) full
          (closure_push-IsClosure f count cap args c arg (dups count 0 (s.payload c) s)
            (dups-IsClosure f count cap args c s d) (omega arith) fits) in
      let frame = a.only.frame in
      let after : IsClosure f cap cap (update args count arg) c s2 =
        subst (IsClosure f cap cap (update args count arg) c) (sym frame) (record {
          function = functions ∙ all.function;
          counted = ap info_count headers ∙ all.counted;
          capacity = ap info_cap headers ∙ all.capacity;
          arguments = λ i a. ap (λ (g : ℕ → Value). g i) values ∙ all.arguments i a;
        }) in
      (
        closure_pop c s2,
        apply_full_run act s1 s2 full all.function run activated,
        all,
        fewer_arguments f count cap args c arg (closure_pop c s2) (
            closure_pop-IsClosure f count cap (update args count arg) c s2
              (subst (λ (n : ℕ). IsClosure f n cap (update args count arg) c s2) (sym full) after)
              (omega arith) fits),
        ground (arith, a.marked act),
      )
