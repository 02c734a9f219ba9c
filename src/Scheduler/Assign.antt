-- ===== src/Scheduler/Assign.antt =====
-- Instantaneous assignment.
use ssm_runtime.Base.{
  ℕ, ◌<◌, ◌≡◌, ◌≢◌, refl, sym, ap, ◌∙◌, ◌||◌, List, ok, arith, ltb, length, update,
}
use mathlib.Core.Path.{subst}
use ssm_runtime.Heap.Order.{IsHeap-keys}
use ssm_runtime.State.{State, Sv, Value, later_time_in, priority_in}
use ssm_runtime.Queues.Acts.{ActInv}
use ssm_runtime.Queues.Events.{EventInv}
use ssm_runtime.Queues.Roster.{Roster}
use ssm_runtime.Scheduler.{Limits, sv_assign_unsafe}
use ssm_runtime.Scheduler.Wake.{
  Chain, Chain-same, Listed, Listed-same, wakes, wakes-same, Woken-Roster, activate_triggers-Woken,
}

-- What an assignment to `var` by a routine of priority `prio` does: the value is stored with the
-- current time, the pending event stays, and exactly the routines are added to the queue that are
-- sensitive to the variable and of a later priority.
pub record Assigned (u ts : List ℕ) (var prio : ℕ) (val : Value) (s s' : State) : Type 0 where
  pub stored : s'.sv var ≡ record (s.sv var) { value = val; last_updated = s.now }
  pub others : (p : ℕ) → p ≢ var → s'.sv p ≡ s.sv p
  pub marked :
      (a : ℕ)
      → (s'.act a).scheduled ≡ ((s.act a).scheduled || wakes s (λ priority. ltb prio priority) ts a)
  pub acts : ActInv s'
  pub roster : Roster u s'
  pub events : EventInv s → EventInv s'
  pub priorities : (a : ℕ) → priority_in s' a ≡ priority_in s a
  pub now : s'.now ≡ s.now
  pub frame : s' ≡ record s {
    act_queue = s'.act_queue;
    act_queue_len = s'.act_queue_len;
    act = s'.act;
    sv = s'.sv;
  }

-- An assignment to a variable with the list `ts` of triggers returns, where the limit exceeds the
-- length of the list and the routines are at most as many as the queue has places. It stores the
-- value and the time, keeps the pending event and the other variables, and schedules exactly the
-- routines of the triggers whose priority number is larger than the writer's, besides those
-- scheduled before. The well-formedness of both queues is preserved.
pub sv_assign_unsafe-Assigned :
    (l : Limits) (u ts : List ℕ) (var prio : ℕ) (val : Value) (s : State)
    → ActInv s
    → Roster u s
    → Chain s (s.sv var).triggers ts
    → Listed u s ts
    → length ts < l.triggers
    → (s' : State) × (sv_assign_unsafe l var prio val s ≡ ok s') × Assigned u ts var prio val s s'
unfolding sv_assign_unsafe
sv_assign_unsafe-Assigned l u ts var prio val s inv roster chain members short =
    let test = λ (priority : ℕ). ltb prio priority in
    let s1 = record s {
      sv = update s.sv var (record (s.sv var) { value = val; last_updated = s.now });
    } in
    let inv1 : ActInv s1 = record {
      heap = inv.heap;
      counted = inv.counted;
      bounded = inv.bounded;
    } in
    let roster1 : Roster u s1 = record { small = roster.small; listed = roster.listed } in
    let members1 = Listed-same u s s1 ts refl members in
    let (s2, run, w) =
      activate_triggers-Woken u l.triggers test ts (s.sv var).triggers s1 short
        (Chain-same s s1 (s.sv var).triggers ts refl chain) inv1 roster1 members1 in
    let vars = λ (p : ℕ). ap (λ (t : State). t.sv p) w.only.frame in
    (
      s2,
      ground (arith, run),
      record {
        stored = ground (arith, vars var);
        others = λ p apart. ground (arith, vars p);
        marked = λ a. ground (arith, w.marked a, wakes-same s s1 test ts a refl refl);
        acts = w.inv;
        roster = Woken-Roster u test ts s1 s2 roster1 members1 w;
        events = λ e. subst EventInv (sym w.only.frame) (record {
          heap =
              IsHeap-keys (later_time_in s) (later_time_in s1) s.event_queue s.event_queue_len
                (λ p. ground arith) e.heap;
          counted = λ p. ground (arith, e.counted p);
          bounded = e.bounded;
        });
        priorities = λ a. ground (arith, w.only.acts a);
        now = ap (λ (t : State). t.now) w.only.frame;
        frame =
            w.only.frame
            ∙ ap
                (λ (v : ℕ → Sv). record s {
                  act_queue = s2.act_queue;
                  act_queue_len = s2.act_queue_len;
                  act = s2.act;
                  sv = v;
                })
                (sym (ap (λ (t : State). t.sv) w.only.frame));
      },
    )
