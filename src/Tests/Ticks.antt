-- ===== src/Tests/Ticks.antt =====
-- The properties of assignment, of the triggers and of the tick at concrete states.
use ssm_runtime.Base.{
  ℕ, suc, ◌≤◌, ◌<◌, ◌≡◌, ◌≢◌, ◌⊎◌, ◌↔◌, inl, refl, true, false, List, [], ◌∷◌, arith, ◌==◌,
  if◌then◌else◌, update, ok, ap, ◌∙◌, ◌||◌,
}
use ssm_runtime.Heap.Count.{count}
use ssm_runtime.State.{priority_in, State, never, later_time_in}
use ssm_runtime.Queues.{next_event_time}
use ssm_runtime.Queues.Acts.{ActInv}
use ssm_runtime.Queues.Events.{pending}
use ssm_runtime.Queues.Roster.{Roster}
use ssm_runtime.Objects.{is_shared}
use ssm_runtime.Scheduler.{
  assign, Steps, sv_assign_unsafe, sv_later_unsafe, sensitize, desensitize, set_now, tick_events,
  tick_acts, tick,
}
use ssm_runtime.Scheduler.Assign.{Assigned, sv_assign_unsafe-Assigned}
use ssm_runtime.Scheduler.Later.{Delayed, sv_later_unsafe-Delayed}
use ssm_runtime.Scheduler.Triggers.{Lists, without}
use ssm_runtime.Scheduler.Update.{TickInv}
use ssm_runtime.Scheduler.Settle.{Settled, tick_events-Settled}
use ssm_runtime.Scheduler.Instant.{Contract, Stepped}
use ssm_runtime.Scheduler.Instant.Order.{Ran, tick_acts-Ran}
use ssm_runtime.Scheduler.Contract.{assign-TickInv, assign-Stepped, assign-Stepped-Quiet}
use ssm_runtime.Scheduler.Contract.Waits.{sensitize-Stepped, desensitize-Stepped}
use ssm_runtime.Scheduler.Tick.Quiet.{Quiet, tick-Quiet}
use ssm_runtime.Simulation.{run_until, run_until-Quiet}
use ssm_runtime.Objects.{drop_final}
use ssm_runtime.Objects.Final.{drop_final-pending}
use ssm_runtime.Scheduler.Tick.{Ready, set_now-ok, instant, tick-returns}
use ssm_runtime.Tests.{
  world, routines, triggers_in_world, rank, limits, world-EventInv, world-ActInv, world-Roster,
  world-Lists, world-Chain, world-Listed, world-TickInv,
}

sv_assign_unsafe-Assigned_example :
    (s' : State) × (sv_assign_unsafe limits 2 250 21 (world 3) ≡ ok s')
    × Assigned routines (10 ∷ 12 ∷ []) 2 250 21 (world 3) s'
sv_assign_unsafe-Assigned_example =
    sv_assign_unsafe-Assigned limits routines (10 ∷ 12 ∷ []) 2 250 21 (world 3) (world-ActInv 3)
      (world-Roster 3) (world-Chain 3 2) (world-Listed 3 2) (omega arith)

sv_later_unsafe-Delayed_example :
    (s' : State) × (sv_later_unsafe limits 2 9 21 (world 3) ≡ ok s') × Delayed 2 9 21 (world 3) s'
unfolding is_shared
sv_later_unsafe-Delayed_example =
    sv_later_unsafe-Delayed limits 2 9 21 (world 3) (world-EventInv 3) (omega arith) (omega arith)
      (omega arith) (λ h. absurd (ground arith)) (λ h. (refl, λ on. omega arith))

set_now-ok_example :
    (set_now 5 (world 3) ≡ ok (record (world 3) { now = 5 }))
    ↔ (3 < 5) × ((p : ℕ) → pending (world 3) p ≡ true → 5 ≤ later_time_in (world 3) p)
set_now-ok_example = set_now-ok 5 (world 3) (world-EventInv 3)

-- The program whose routines return at once.
abbrev quiet : Steps
quiet step act s = ok s

quiet-Contract : (P : State → Type 0) → Contract P routines quiet
quiet-Contract P r s keeps acts roster = (
  s,
  refl,
  record {
    keeps = keeps;
    acts = acts;
    roster = roster;
    clock = refl;
    priorities = λ a. refl;
    later = λ a on. inl on;
  },
)

-- The program whose routines assign 10 to variable 4, with their own priority.
abbrev pub assigning : Steps
assigning step act s = assign limits 4 (priority_in s act) 21 s

assigning-Contract : Contract (Ready limits routines) routines assigning
assigning-Contract r s keeps acts roster = assign-Stepped limits routines r 4 21 s refl keeps

assign-TickInv_example :
    (s' : State) × (assign limits 2 250 16 (world 3) ≡ ok s')
    × TickInv limits routines rank triggers_in_world s'
    × (s'.now ≡ 3)
    × ((s'.sv 2).value ≡ 16)
    × ((s'.sv 2).last_updated ≡ 3)
    × ((a : ℕ) → priority_in s' a ≡ priority_in (world 3) a)
    × ((a : ℕ)
        → (s'.act a).scheduled ≡ true
        → (((world 3).act a).scheduled ≡ true) ⊎ (250 < priority_in (world 3) a))
    × ((p : ℕ) → pending s' p ≡ true → later_time_in s' p ≡ later_time_in (world 3) p)
assign-TickInv_example =
    assign-TickInv limits routines rank triggers_in_world 2 250 16 (world 3)
      (world-TickInv 3 (omega arith)) (λ e. omega arith)

drop_final-pending_example :
    (s' : State) × (drop_final 1 4 (world 3) ≡ ok s')
    × (s'.mm ≡ (world 3).mm)
    × (pending s' 4 ≡ false)
drop_final-pending_example = drop_final-pending 1 4 (world 3) (world-EventInv 3) refl refl refl

tick-returns_example :
    (s1 s2 : State) × (rs : List ℕ) × (tick limits assigning (world 3) ≡ ok s2)
    × Settled limits routines rank triggers_in_world
        (record (world 3) { now = instant (world 3) })
        s1
    × Ran (Ready limits routines) assigning 0 rs s1 s2
unfolding next_event_time
tick-returns_example =
    tick-returns limits routines rank triggers_in_world assigning (world 3)
      (world-TickInv 3 (omega arith)) (λ h. omega arith) assigning-Contract (omega arith)
      (omega arith)

tick_events-Settled_example :
    (s' : State) × (tick_events limits 3 (world 5) ≡ ok s')
    × Settled limits routines rank triggers_in_world (world 5) s'
tick_events-Settled_example =
    tick_events-Settled limits routines rank triggers_in_world 3 (world 5) (omega arith)
      (world-TickInv 5 (omega arith))

-- Both routines are scheduled; the one of the earlier priority stands at the root.
abbrev both : State
both = record (world 5) {
  act_queue = λ i. if i == 1 then 8 else 6;
  act_queue_len = 2;
  act = λ a. record ((world 5).act a) { scheduled = a == 6 || a == 8 };
}

both-ActInv : ActInv both
unfolding count
both-ActInv = record {
  heap = λ i a b. ground arith;
  counted = λ a. ground arith;
  bounded = omega arith;
}

both-Roster : Roster routines both
both-Roster = record { small = omega arith; listed = λ a on. ground arith }

tick_acts-Ran_example :
    (s' : State) × (rs : List ℕ) × (tick_acts 3 quiet both ≡ ok s')
    × Ran (λ s. s.now ≡ 5) quiet 0 rs both s'
tick_acts-Ran_example =
    tick_acts-Ran (λ s. s.now ≡ 5) routines quiet (quiet-Contract (λ s. s.now ≡ 5))
      (λ s s' only acts roster h. ap (λ (t : State). t.now) only.frame ∙ h) 3 both (omega arith)
      refl both-ActInv both-Roster

pub world-Quiet : Quiet limits routines (world 3)
world-Quiet = ((rank, triggers_in_world, world-TickInv 3 (omega arith)), λ p on. ground arith)

pub assigning-Contract-Quiet : Contract (Quiet limits routines) routines assigning
assigning-Contract-Quiet r s keeps acts roster =
    assign-Stepped-Quiet limits routines r 4 21 s refl keeps

tick-Quiet_example :
    (s' : State) × (tick limits assigning (world 3) ≡ ok s')
    × Quiet limits routines s'
    × (s'.act_queue_len ≡ 0)
    × (s'.now ≡ instant (world 3))
    × (s'.now < never)
    × (3 ≤ s'.now)
    × ((world 3).act_queue_len ≡ 0 → next_event_time (world 3) ≢ never → 3 < s'.now)
tick-Quiet_example =
    tick-Quiet limits routines assigning (world 3) world-Quiet (omega arith)
      assigning-Contract-Quiet (omega arith) (omega arith)

run_until-Quiet_example :
    (s' : State) × (run_until (suc 7) limits assigning 10 (world 3) ≡ ok s')
    × Quiet limits routines s'
    × (s'.act_queue_len ≡ 0)
    × ((next_event_time s' ≡ never) ⊎ (10 ≤ s'.now))
run_until-Quiet_example =
    run_until-Quiet limits routines assigning assigning-Contract-Quiet (omega arith) (omega arith) 7
      10 (world 3) world-Quiet refl (omega arith) (omega arith)

sensitize-Stepped_example :
    Stepped (Quiet limits routines) routines 6 (world 3) (sensitize 4 14 (world 3))
    × TickInv limits routines rank (update triggers_in_world 4 (14 ∷ [])) (sensitize 4 14 (world 3))
    × Lists (update triggers_in_world 4 (14 ∷ [])) (sensitize 4 14 (world 3))
sensitize-Stepped_example =
    sensitize-Stepped limits routines rank triggers_in_world 6 4 14 (world 3)
      (world-TickInv 3 (omega arith)) (world-Lists 3) (λ p on. ground arith) (λ v. ground arith)
      (omega arith) refl (omega arith)

desensitize-Stepped_example :
    Stepped (Quiet limits routines) routines 6 (world 3) (desensitize 10 (world 3))
    × TickInv limits routines rank
        (update triggers_in_world 2 (without 10 (10 ∷ 12 ∷ [])))
        (desensitize 10 (world 3))
    × Lists (update triggers_in_world 2 (without 10 (10 ∷ 12 ∷ []))) (desensitize 10 (world 3))
desensitize-Stepped_example =
    desensitize-Stepped limits routines rank triggers_in_world 6 2 10 (world 3)
      (world-TickInv 3 (omega arith)) (world-Lists 3) (λ p on. ground arith) refl
