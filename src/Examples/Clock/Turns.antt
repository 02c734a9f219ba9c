-- ===== src/Examples/Clock/Turns.antt =====
-- The turns that the two routines of clock.c take in a tick.
use ssm_runtime.Base.{ℕ, suc, ◌+◌, ◌≤◌, ◌<◌, ◌≡◌, refl, ap, ◌∙◌, true, false, ok, arith}
use ssm_runtime.Memory.{Handlers}
use ssm_runtime.State.{
  State, Trigger, null, never, later_time_in, priority_in, on_heap, marshal, unmarshal, put_sv,
}
use ssm_runtime.Scheduler.{Limits, Steps, assign, later, desensitize}
use ssm_runtime.Scheduler.Contract.Resume.{resumed}
use ssm_runtime.Simulation.{second}
use ssm_runtime.Examples.{field, cell, own_trigger, after, event_value}
use ssm_runtime.Examples.Alone.{
  queued, first_queued, assigned, delayed, assign_one_run, assign_none_run, later_run,
  sensitize_run, desensitize_run,
}
use ssm_runtime.Examples.Clock.{trigger1_of, beat, listen, step_second_clock, step_report_seconds}
use ssm_runtime.Examples.Clock.Beat.{
  Cast, Fixed, Fixed-same, Vars, Vars-same, Queued, queued-Fixed, timer_left, event_assigned,
  timer_delayed, event_left, seconds_assigned, clock_waits, clock_waits-Fixed, clock_waits-Vars,
  report_waits, report_waits-Fixed, report_waits-Vars,
}

packed : (n : ℕ) → on_heap (marshal n) ≡ false
unfolding marshal
packed n = ground arith

next_value : (n : ℕ) → marshal (unmarshal (marshal n) + 1) ≡ marshal (suc n)
unfolding marshal unmarshal
next_value n = ground arith

-- the parts of a turn of the clock, one after the other
beat_run :
    (l : Limits) (above : Steps) (c : Cast) (s s1 s2 : State)
    → cell (field c.clock 0) s ≡ c.event
    → cell (field c.clock 1) s1 ≡ c.timer
    → cell (field c.clock 1) s2 ≡ c.timer
    → assign l c.event (s.act c.clock).priority event_value s ≡ ok s1
    → later l c.timer (after second s1) event_value s1 ≡ ok s2
    → (s2.sv c.timer).triggers ≡ null
    → beat l above c.clock s ≡ ok (clock_waits c s2)
unfolding beat
beat_run l above c s s1 s2 at at1 at2 run1 run2 empty =
    let s3 = own_trigger c.clock (field c.clock 2) s2 in
    rw (at, run1)
      (rw (at1, run2)
        (rw at2 (
          ap (λ (t : State). ok (resumed c.clock 1 t))
            (sensitize_run c.timer (field c.clock 2) s3 empty))))

-- the parts of a turn of the counter
count_run :
    (h : Handlers) (l : Limits) (above : Steps) (c : Cast) (count : ℕ) (s s1 s2 : State)
    → (s.act c.report).pc ≡ 1
    → desensitize (field c.report 2) s ≡ s1
    → cell (field c.report 1) s1 ≡ c.seconds
    → (s1.sv c.seconds).value ≡ marshal count
    → assign l c.seconds (s1.act c.report).priority (marshal (suc count)) s1 ≡ ok s2
    → cell (field c.report 0) s2 ≡ c.event
    → (s2.sv c.event).triggers ≡ null
    → step_report_seconds l above h c.report s ≡ ok (report_waits c s2)
unfolding step_report_seconds listen
count_run h l above c count s s1 s2 start left at value run at2 empty =
    let s3 = own_trigger c.report (field c.report 2) s2 in
    rw (start, left)
      (rw (at, value)
        (rw (next_value count, run)
          (rw at2 (
            ap (λ (t : State). ok (resumed c.report 1 t))
              (sensitize_run c.event (field c.report 2) s3 empty)))))

resume_clock :
    (h : Handlers) (l : Limits) (above : Steps) (act : ℕ) (s : State)
    → (s.act act).pc ≡ 1
    → step_second_clock l above h act s ≡ beat l above act (desensitize (trigger1_of act) s)
unfolding step_second_clock
resume_clock h l above act s at = ground (arith, at)

module _ (h : Handlers) (l : Limits) (above : Steps) (wide : 2 ≤ l.triggers) (c : Cast)
    (first when count : ℕ) (s : State) (f : Fixed c s) where
  -- a turn of the clock
  pub clock_turn :
      Vars c (field c.clock 2) (field c.report 2) never count s
      → Queued c 0 first false false 0 s
      → s.now + second < never
      → (s' : State) × (step_second_clock l above h c.clock s ≡ ok s')
        × Fixed c s'
        × Vars c (field c.clock 2) (field c.report 2) (s.now + second) count s'
        × Queued c 1 c.report false true 1 s'
        × (s'.now ≡ s.now)
  clock_turn v q room =
      let t1 = field c.clock 2 in
      let t2 = field c.report 2 in
      let s1 = put_sv c.timer (record (s.sv c.timer) { triggers = null }) s in
      let f1 = Fixed-same c s s1 refl (λ a. refl) refl refl f in
      let v1 = timer_left c t1 t2 never count s f v in
      let a2 = assigned c.event event_value s1 in
      let fa = Fixed-same c s1 a2 refl (λ a. refl) refl refl f1 in
      let va = event_assigned c null t2 never count s1 f1 v1 in
      let s2 = queued c.report a2 in
      let f2 = queued-Fixed c null t2 never count a2 fa va c.report in
      let v2 : Vars c null t2 never count s2 = Vars-same c null t2 never count a2 s2 refl va in
      let goal = s.now + second in
      let s3 = delayed c.timer goal event_value s2 in
      let f3 = Fixed-same c s2 s3 refl (λ a. refl) refl refl f2 in
      let time : after second s2 ≡ s.now + second = omega (arith, room) in
      let v3 = timer_delayed c null t2 never count s2 f2 v2 goal in
      let v4 = clock_waits-Vars c null t2 goal count s3 f3 v3 in
      (
        clock_waits c s3,
        resume_clock h l above c.clock s f.clock_pc
            ∙ ap (beat l above c.clock) (
                desensitize_run c.timer t1 s (ap (λ (t : Trigger). t.prev_ptr) f.clock_trigger)
                  (ap (λ (t : Trigger). t.next) f.clock_trigger))
            ∙ beat_run l above c s1 s2 s3 f1.event_of_clock f2.timer_of_clock f3.timer_of_clock
                (assign_one_run l c.event (s1.act c.clock).priority c.report t2 event_value s1 wide
                  (packed 0) v1.event_plain v1.event_waits (omega arith)
                  (ap (λ (t : Trigger). t.next) f.report_trigger)
                  (ap (λ (t : Trigger). t.act) f.report_trigger) f.order q.queue q.report_scheduled)
                (ap (λ (w : ℕ). later l c.timer w event_value s2) time
                  ∙ later_run l c.timer goal event_value s2 q.events v2.timer_when (omega arith)
                      (packed 0))
                v3.timer_waits,
        clock_waits-Fixed c null t2 goal count s3 f3 v3,
        v4,
        record {
          queue = refl;
          queue_first = λ e. first_queued (priority_in a2) s.act_queue c.report;
          clock_scheduled = ground (arith, q.clock_scheduled, c.routines_apart);
          report_scheduled = ground (arith, c.routines_apart);
          events = refl;
          events_first = λ e.
              first_queued
                (later_time_in (put_sv c.timer (record (s2.sv c.timer) { later_time = goal }) s2))
                s.event_queue c.timer;
        },
        refl,
      )

  -- a turn of the counter
  pub report_turn :
      Vars c (field c.clock 2) (field c.report 2) when count s
      → Queued c 0 first false false 1 s
      → (s' : State) × (step_report_seconds l above h c.report s ≡ ok s')
        × Fixed c s'
        × Vars c (field c.clock 2) (field c.report 2) when (suc count) s'
        × Queued c 0 first false false 1 s'
        × (s'.now ≡ s.now)
  report_turn v q =
      let t1 = field c.clock 2 in
      let t2 = field c.report 2 in
      let s1 = put_sv c.event (record (s.sv c.event) { triggers = null }) s in
      let f1 = Fixed-same c s s1 refl (λ a. refl) refl refl f in
      let v1 = event_left c t1 t2 when count s f v in
      let s2 = assigned c.seconds (marshal (suc count)) s1 in
      let f2 = Fixed-same c s1 s2 refl (λ a. refl) refl refl f1 in
      let v2 = seconds_assigned c t1 null when count s1 f1 v1 in
      (
        report_waits c s2,
        count_run h l above c count s s1 s2 f.report_pc
            (desensitize_run c.event t2 s (ap (λ (t : Trigger). t.prev_ptr) f.report_trigger)
              (ap (λ (t : Trigger). t.next) f.report_trigger))
            f1.seconds_of_report v1.counted
            (assign_none_run l c.seconds (s1.act c.report).priority (marshal (suc count)) s1
              (omega arith) (packed (suc count)) (ap on_heap v1.counted ∙ packed count)
              v1.seconds_alone)
            f2.event_of_report v2.event_waits,
        report_waits-Fixed c t1 null when (suc count) s2 f2 v2,
        report_waits-Vars c t1 null when (suc count) s2 f2 v2,
        record {
          queue = q.queue;
          queue_first = q.queue_first;
          clock_scheduled = ground (arith, q.clock_scheduled);
          report_scheduled = ground (arith, q.report_scheduled);
          events = q.events;
          events_first = q.events_first;
        },
        refl,
      )
