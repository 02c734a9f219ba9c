-- ===== src/Closures/Final.antt =====
-- `ssm_closure_apply_final`: the application of a closure that nothing else refers to.
use ssm_runtime.Base.{ℕ, ◌+◌, ◌^◌, ◌<◌, ◌≡◌, ap, ◌∙◌, true, false, none, some, ok, arith, update}
use mathlib.Core.Path.{subst}
use ssm_runtime.Memory.{Handlers, mem_free}
use ssm_runtime.State.{State, Value, info_cap, act_queue_size}
use ssm_runtime.Queues.{activate}
use ssm_runtime.Queues.Acts.{ActInv, activate-Activated}
use ssm_runtime.Objects.{is_shared, closure_size}
use ssm_runtime.Closures.{
  closure_arg_cap, closure_push, closure_free, EnterFunctions, closure_activate,
  closure_apply_final,
}
use ssm_runtime.Closures.Apply.{IsClosure, closure_push-IsClosure}

module _ (h : Handlers) (enter_functions : EnterFunctions) (f count cap : ℕ) (args : ℕ → Value)
    (c : Value) (s : State) (d : IsClosure f count cap args c s) (fits : cap < 2 ^ 8)
    (arg parent prio depth ret : ℕ) where
  -- An application that leaves arguments open adds the argument to the closure itself.
  pub in_place_run :
      is_shared c s ≡ false
      → count + 1 < cap
      → closure_apply_final h enter_functions c arg parent prio depth ret s
        ≡ ok (some c, closure_push c arg s)
  unfolding closure_apply_final
  in_place_run own more = ground (arith, own, d.counted, d.capacity)

  final_run :
      (act : ℕ) (s1 s2 : State)
      → is_shared c s ≡ false
      → count + 1 ≡ cap
      → (closure_push c arg s).func c ≡ f
      → enter_functions f parent prio depth c ret (closure_push c arg s) ≡ ok (act, s1)
      → activate act s1 ≡ ok s2
      → closure_apply_final h enter_functions c arg parent prio depth ret s
        ≡ ok (none, closure_free c s2)
  unfolding closure_apply_final closure_activate
  final_run act s1 s2 own full same run1 run2 = ground (arith, own, d.counted, d.capacity, same)

  -- An application of such a closure that gives the last argument enters the routine with all arguments in
  -- the closure and schedules it, where the enter function leaves a well-formed activation queue with room. It returns no
  -- closure, and the closure goes back to the allocator, with the size of its capacity.
  pub closure_apply_final-full :
      (act : ℕ) (s1 : State)
      → is_shared c s ≡ false
      → count + 1 ≡ cap
      → enter_functions f parent prio depth c ret (closure_push c arg s) ≡ ok (act, s1)
      → s1.mm c ≡ (closure_push c arg s).mm c
      → ActInv s1
      → ((s1.act act).scheduled ≡ false → s1.act_queue_len < act_queue_size)
      → (s' : State) × (closure_apply_final h enter_functions c arg parent prio depth ret s
          ≡ ok (none, s'))
        × IsClosure f cap cap (update args count arg) c (closure_push c arg s)
        × (s'.memory ≡ mem_free c (closure_size cap) s1.memory)
        × ((s'.act act).scheduled ≡ true)
  unfolding closure_free
  closure_apply_final-full act s1 own full run headers inv room =
      let (s2, activated, a) = activate-Activated act s1 inv room in
      let all : IsClosure f cap cap (update args count arg) c (closure_push c arg s) =
        subst (λ (n : ℕ). IsClosure f n cap (update args count arg) c (closure_push c arg s)) full
          (closure_push-IsClosure f count cap args c arg s d (omega arith) fits) in
      let same : closure_arg_cap c s2 ≡ cap =
        ap (λ (x : State). info_cap (x.mm c)) a.only.frame ∙ ap info_cap headers ∙ all.capacity in
      (
        closure_free c s2,
        final_run act s1 s2 own full all.function run activated,
        all,
        rw same (ap (λ (x : State). mem_free c (closure_size cap) x.memory) a.only.frame),
        ground (arith, a.marked act),
      )
