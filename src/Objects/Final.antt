-- ===== src/Objects/Final.antt =====
-- What becomes of the later value of a variable that is freed while it is pending.
use ssm_runtime.Base.{ℕ, zero, suc, ◌≡◌, ap, ◌∙◌, true, false, ok, arith}
use ssm_runtime.State.{State, Value, never, sv_k, on_heap}
use ssm_runtime.Queues.{unschedule}
use ssm_runtime.Queues.Events.{EventInv, pending}
use ssm_runtime.Queues.Events.Remove.{unschedule-Unscheduled}
use ssm_runtime.Objects.{drop, drop_final, drop_final_with, free_object, sizeof_sv}

drop_int : (fuel : ℕ) (v : Value) (s : State) → on_heap v ≡ false → drop fuel v s ≡ ok s
unfolding drop
drop_int zero v s e = ground arith
drop_int (suc fuel) v s e = ground arith

final_run :
    (fuel : ℕ) (v : Value) (s s1 : State)
    → (s.mm v).kind ≡ sv_k
    → unschedule v s ≡ ok s1
    → drop fuel (s1.sv v).value s1 ≡ ok s1
    → (s1.sv v).later_time ≡ never
    → drop_final fuel v s ≡ ok (free_object v sizeof_sv s1)
unfolding drop_final drop_final_with
final_run fuel v s s1 kind run dropped gone = ground arith

-- Finalizing a variable whose value is an integer returns and changes no reference count, whatever its
-- later value is: the reference that a pending event holds to an object is not dropped.
pub drop_final-pending :
    (fuel : ℕ) (v : Value) (s : State)
    → EventInv s
    → (s.mm v).kind ≡ sv_k
    → pending s v ≡ true
    → on_heap (s.sv v).value ≡ false
    → (s' : State) × (drop_final fuel v s ≡ ok s') × (s'.mm ≡ s.mm) × (pending s' v ≡ false)
drop_final-pending fuel v s inv kind due packed =
    let (s1, run, d) = unschedule-Unscheduled v s inv in
    let value : (s1.sv v).value ≡ (s.sv v).value = ground (arith, d.vars v) in
    let gone : (s1.sv v).later_time ≡ never = ground (arith, d.vars v) in
    (
      free_object v sizeof_sv s1,
      final_run fuel v s s1 kind run (drop_int fuel (s1.sv v).value s1 (ap on_heap value ∙ packed))
          gone,
      ap (λ (t : State). t.mm) d.only,
      ground (arith, gone),
    )
