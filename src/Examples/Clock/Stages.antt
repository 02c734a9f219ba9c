-- ===== src/Examples/Clock/Stages.antt =====
-- What a tick of the program of clock.c does: the timer is updated, then the clock and the counter run.
use ssm_runtime.Base.{ℕ, suc, ◌+◌, ◌≤◌, ◌<◌, ◌≡◌, refl, sym, ap, ◌∙◌, true, false, ok, arith}
use ssm_runtime.Memory.{Handlers}
use ssm_runtime.State.{State, Trigger, never, priority_in}
use ssm_runtime.Scheduler.{Limits, run_step, tick_events}
use ssm_runtime.Simulation.{second}
use ssm_runtime.Examples.{field}
use ssm_runtime.Examples.Alone.{queued, unqueued, first_queued, updated, update_one_run}
use ssm_runtime.Examples.Clock.{
  second_clock, report_seconds, step_second_clock, step_report_seconds, program,
}
use ssm_runtime.Examples.Clock.Beat.{
  Cast, Fixed, Fixed-same, Vars, Vars-same, Queued, queued-Fixed, unqueued-Fixed, timer_updated,
}
use ssm_runtime.Examples.Clock.Turns.{clock_turn, report_turn}
use ssm_runtime.Examples.Clock.Rounds.{Rests, events_run}

module _ (l : Limits) (wide : 2 ≤ l.triggers) (rounds : 2 ≤ l.events) (c : Cast) where
  -- the timer is updated, and schedules the clock
  pub fired :
      (when count : ℕ) (s : State)
      → Rests c when count s
      → s.now ≡ when
      → when < never
      → (s' : State) × (tick_events l l.events s ≡ ok s')
        × Fixed c s'
        × Vars c (field c.clock 2) (field c.report 2) never count s'
        × Queued c 1 c.clock true false 0 s'
        × (s'.now ≡ s.now)
  fired when count s r now due =
      let t1 = field c.clock 2 in
      let t2 = field c.report 2 in
      let q = r.queued in
      let u = updated c.timer s in
      let fu = Fixed-same c s u refl (λ a. refl) refl refl r.fixed in
      let vu = timer_updated c t1 t2 when count s r.fixed r.vars in
      let s1 = queued c.clock u in
      let s' = record s1 { event_queue_len = 0 } in
      let f1 = queued-Fixed c t1 t2 never count u fu vu c.clock in
      let on_time = r.vars.timer_when ∙ sym now in
      (
        s',
        events_run l c.timer s s1 rounds q.events (q.events_first refl) on_time
            (update_one_run l c.timer c.clock t1 s wide on_time r.vars.timer_plain
              r.vars.timer_waits (omega arith) (ap (λ (t : Trigger). t.next) r.fixed.clock_trigger)
              (ap (λ (t : Trigger). t.act) r.fixed.clock_trigger) q.queue q.clock_scheduled)
            q.events,
        Fixed-same c s1 s' refl (λ a. refl) refl refl f1,
        Vars-same c t1 t2 never count u s' refl vu,
        record {
          queue = refl;
          queue_first = λ e. first_queued (priority_in u) s.act_queue c.clock;
          clock_scheduled = ground arith;
          report_scheduled = ground (arith, q.report_scheduled, c.routines_apart);
          events = refl;
          events_first = λ e. absurd (omega arith);
        },
        refl,
      )

module _ (h : Handlers) (l : Limits) (fuel : ℕ) where
  run_clock :
      (act : ℕ) (s : State)
      → (s.act act).step ≡ second_clock
      → run_step (program h l (suc fuel)) act s ≡ step_second_clock l (program h l fuel) h act s
  unfolding program
  run_clock act s step = ground (arith, step)

  run_report :
      (act : ℕ) (s : State)
      → (s.act act).step ≡ report_seconds
      → run_step (program h l (suc fuel)) act s ≡ step_report_seconds l (program h l fuel) h act s
  unfolding program
  run_report act s step = ground (arith, step)

  module _ (wide : 2 ≤ l.triggers) (c : Cast) (count : ℕ) (s : State) (f : Fixed c s) where
    -- the clock runs, and schedules the counter
    pub clock_round :
        Vars c (field c.clock 2) (field c.report 2) never count s
        → Queued c 1 c.clock true false 0 s
        → s.now + second < never
        → (s' : State) × (run_step (program h l (suc fuel)) c.clock (unqueued c.clock s) ≡ ok s')
          × Fixed c s'
          × Vars c (field c.clock 2) (field c.report 2) (s.now + second) count s'
          × Queued c 1 c.report false true 1 s'
          × (s'.now ≡ s.now)
    clock_round v q room =
        let t1 = field c.clock 2 in
        let t2 = field c.report 2 in
        let s1 = unqueued c.clock s in
        let f1 = unqueued-Fixed c t1 t2 never count s f v c.clock in
        let v1 = Vars-same c t1 t2 never count s s1 refl v in
        let q1 : Queued c 0 c.clock false false 0 s1 = record {
          queue = refl;
          queue_first = λ e. absurd (omega arith);
          clock_scheduled = ground arith;
          report_scheduled = ground (arith, q.report_scheduled);
          events = q.events;
          events_first = q.events_first;
        } in
        let (s2, run, f2, v2, q2, now2) =
          clock_turn h l (program h l fuel) wide c c.clock never count s1 f1 v1 q1 room in
        (s2, run_clock c.clock s1 f1.clock_step ∙ run, f2, v2, q2, now2)

    -- the counter runs
    pub report_round :
        (when : ℕ)
        → Vars c (field c.clock 2) (field c.report 2) when count s
        → Queued c 1 c.report false true 1 s
        → (s' : State) × (run_step (program h l (suc fuel)) c.report (unqueued c.report s) ≡ ok s')
          × Fixed c s'
          × Vars c (field c.clock 2) (field c.report 2) when (suc count) s'
          × Queued c 0 c.clock false false 1 s'
          × (s'.now ≡ s.now)
    report_round when v q =
        let t1 = field c.clock 2 in
        let t2 = field c.report 2 in
        let s1 = unqueued c.report s in
        let f1 = unqueued-Fixed c t1 t2 when count s f v c.report in
        let v1 = Vars-same c t1 t2 when count s s1 refl v in
        let q1 : Queued c 0 c.clock false false 1 s1 = record {
          queue = refl;
          queue_first = λ e. absurd (omega arith);
          clock_scheduled = ground (arith, q.clock_scheduled);
          report_scheduled = ground arith;
          events = q.events;
          events_first = q.events_first;
        } in
        let (s2, run, f2, v2, q2, now2) =
          report_turn h l (program h l fuel) wide c c.clock when count s1 f1 v1 q1 in
        (s2, run_report c.report s1 f1.report_step ∙ run, f2, v2, q2, now2)
