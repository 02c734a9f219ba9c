-- ===== src/Examples/Clock/Beat.antt =====
-- The two routines of clock.c between two ticks, and what a tick does to them.
use ssm_runtime.Base.{ℕ, suc, ◌<◌, ◌≡◌, ◌≢◌, refl, ap, ◌∙◌, Bool, false, arith}
use ssm_runtime.State.{State, Act, Link, null, never, later_time_in, on_heap, marshal, put_sv}
use ssm_runtime.Scheduler.Contract.Resume.{resumed}
use ssm_runtime.Examples.{field, cell, own_trigger, event_value}
use ssm_runtime.Examples.Alone.{queued, unqueued, assigned, updated, delayed, waiting}
use ssm_runtime.Examples.Clock.{second_clock, report_seconds}

-- The addresses of the two routines and of the three variables.
pub record Cast : Type 0 where
  pub clock : ℕ
  pub report : ℕ
  pub timer : ℕ
  pub event : ℕ
  pub seconds : ℕ
  pub routines_apart : clock ≢ report
  pub timer_event : timer ≢ event
  pub timer_seconds : timer ≢ seconds
  pub event_seconds : event ≢ seconds

-- Both routines are at the return of their loops, and own a trigger that is first and last in its list.
pub record Fixed (c : Cast) (s : State) : Type 0 where
  pub event_of_clock : cell (field c.clock 0) s ≡ c.event
  pub timer_of_clock : cell (field c.clock 1) s ≡ c.timer
  pub event_of_report : cell (field c.report 0) s ≡ c.event
  pub seconds_of_report : cell (field c.report 1) s ≡ c.seconds
  pub clock_step : (s.act c.clock).step ≡ second_clock
  pub clock_pc : (s.act c.clock).pc ≡ 1
  pub report_step : (s.act c.report).step ≡ report_seconds
  pub report_pc : (s.act c.report).pc ≡ 1
  pub order : (s.act c.clock).priority < (s.act c.report).priority
  pub clock_trigger :
      s.trigger (field c.clock 2)
      ≡ record { next = null; prev_ptr = Link.triggers_of c.timer; act = c.clock }
  pub report_trigger :
      s.trigger (field c.report 2)
      ≡ record { next = null; prev_ptr = Link.triggers_of c.event; act = c.report }

-- The three variables: the first triggers of two of them, the time of the timer's event, and the count.
pub record Vars (c : Cast) (timer_first event_first when count : ℕ) (s : State) : Type 0 where
  pub timer_waits : (s.sv c.timer).triggers ≡ timer_first
  pub event_waits : (s.sv c.event).triggers ≡ event_first
  pub seconds_alone : (s.sv c.seconds).triggers ≡ null
  pub timer_plain : on_heap (s.sv c.timer).value ≡ false
  pub timer_later : on_heap (s.sv c.timer).later_value ≡ false
  pub event_plain : on_heap (s.sv c.event).value ≡ false
  pub timer_when : later_time_in s c.timer ≡ when
  pub counted : (s.sv c.seconds).value ≡ marshal count

-- The queue holds `first` where `on` routine is scheduled, and the event queue the timer where `due`
-- event is pending.
pub record Queued (c : Cast) (on first : ℕ) (clock_on report_on : Bool) (due : ℕ) (s : State)
    : Type 0 where
  pub queue : s.act_queue_len ≡ on
  pub queue_first : on ≡ 1 → s.act_queue 1 ≡ first
  pub clock_scheduled : (s.act c.clock).scheduled ≡ clock_on
  pub report_scheduled : (s.act c.report).scheduled ≡ report_on
  pub events : s.event_queue_len ≡ due
  pub events_first : due ≡ 1 → s.event_queue 1 ≡ c.timer

-- The routines wait again.
abbrev pub clock_waits : Cast → State → State
clock_waits c s =
    resumed c.clock 1 (waiting c.timer (field c.clock 2) (own_trigger c.clock (field c.clock 2) s))

abbrev pub report_waits : Cast → State → State
report_waits c s =
    resumed c.report 1
      (waiting c.event (field c.report 2) (own_trigger c.report (field c.report 2) s))

module _ (c : Cast) where
  pub Fixed-same :
      (s s' : State)
      → s'.payload ≡ s.payload
      → ((a : ℕ) → s'.act a ≡ record (s.act a) { scheduled = (s'.act a).scheduled })
      → s'.trigger (field c.clock 2) ≡ s.trigger (field c.clock 2)
      → s'.trigger (field c.report 2) ≡ s.trigger (field c.report 2)
      → Fixed c s
      → Fixed c s'
  Fixed-same s s' cells acts clock report d = record {
    event_of_clock = rw cells d.event_of_clock;
    timer_of_clock = rw cells d.timer_of_clock;
    event_of_report = rw cells d.event_of_report;
    seconds_of_report = rw cells d.seconds_of_report;
    clock_step = ap (λ (a : Act). a.step) (acts c.clock) ∙ d.clock_step;
    clock_pc = ap (λ (a : Act). a.pc) (acts c.clock) ∙ d.clock_pc;
    report_step = ap (λ (a : Act). a.step) (acts c.report) ∙ d.report_step;
    report_pc = ap (λ (a : Act). a.pc) (acts c.report) ∙ d.report_pc;
    order = omega (
      arith,
      d.order,
      ap (λ (a : Act). a.priority) (acts c.clock),
      ap (λ (a : Act). a.priority) (acts c.report),
    );
    clock_trigger = clock ∙ d.clock_trigger;
    report_trigger = report ∙ d.report_trigger;
  }

  pub Vars-same :
      (timer_first event_first when count : ℕ) (s s' : State)
      → s'.sv ≡ s.sv
      → Vars c timer_first event_first when count s
      → Vars c timer_first event_first when count s'
  Vars-same timer_first event_first when count s s' same v = record {
    timer_waits = rw same v.timer_waits;
    event_waits = rw same v.event_waits;
    seconds_alone = rw same v.seconds_alone;
    timer_plain = rw same v.timer_plain;
    timer_later = rw same v.timer_later;
    event_plain = rw same v.event_plain;
    timer_when = rw same v.timer_when;
    counted = rw same v.counted;
  }

  module _ (timer_first event_first when count : ℕ) (s : State) (f : Fixed c s)
      (v : Vars c timer_first event_first when count s) where
    -- a routine is queued or taken off the queue
    pub queued-Fixed : (a : ℕ) → Fixed c (queued a s)
    queued-Fixed a = Fixed-same s (queued a s) refl (λ b. ground arith) refl refl f

    pub unqueued-Fixed : (a : ℕ) → Fixed c (unqueued a s)
    unqueued-Fixed a = Fixed-same s (unqueued a s) refl (λ b. ground arith) refl refl f

    -- the trigger of the clock leaves the list of the timer
    pub timer_left :
        Vars c null event_first when count
          (put_sv c.timer (record (s.sv c.timer) { triggers = null }) s)
    timer_left = record {
      timer_waits = ground arith;
      event_waits = ground (arith, v.event_waits, c.timer_event);
      seconds_alone = ground (arith, v.seconds_alone);
      timer_plain = ground (arith, v.timer_plain);
      timer_later = ground (arith, v.timer_later);
      event_plain = ground (arith, v.event_plain);
      timer_when = ground (arith, v.timer_when);
      counted = ground (arith, v.counted, c.timer_seconds);
    }

    -- the event is assigned
    pub event_assigned : Vars c timer_first event_first when count (assigned c.event event_value s)
    unfolding marshal
    event_assigned = record {
      timer_waits = ground (arith, v.timer_waits);
      event_waits = ground (arith, v.event_waits);
      seconds_alone = ground (arith, v.seconds_alone);
      timer_plain = ground (arith, v.timer_plain);
      timer_later = ground (arith, v.timer_later);
      event_plain = ground arith;
      timer_when = ground (arith, v.timer_when, c.timer_event);
      counted = ground (arith, v.counted, c.event_seconds);
    }

    -- the timer is to be assigned
    pub timer_delayed :
        (t : ℕ) → Vars c timer_first event_first t count (delayed c.timer t event_value s)
    unfolding marshal
    timer_delayed t = record {
      timer_waits = ground (arith, v.timer_waits);
      event_waits = ground (arith, v.event_waits);
      seconds_alone = ground (arith, v.seconds_alone);
      timer_plain = ground (arith, v.timer_plain);
      timer_later = ground arith;
      event_plain = ground (arith, v.event_plain);
      timer_when = ground arith;
      counted = ground (arith, v.counted, c.timer_seconds);
    }

    -- the trigger of the counter leaves the list of the event
    pub event_left :
        Vars c timer_first null when count
          (put_sv c.event (record (s.sv c.event) { triggers = null }) s)
    event_left = record {
      timer_waits = ground (arith, v.timer_waits, c.timer_event);
      event_waits = ground arith;
      seconds_alone = ground (arith, v.seconds_alone);
      timer_plain = ground (arith, v.timer_plain);
      timer_later = ground (arith, v.timer_later);
      event_plain = ground (arith, v.event_plain);
      timer_when = ground (arith, v.timer_when, c.timer_event);
      counted = ground (arith, v.counted, c.event_seconds);
    }

    -- the count goes up
    pub seconds_assigned :
        Vars c timer_first event_first when (suc count) (assigned c.seconds (marshal (suc count)) s)
    seconds_assigned = record {
      timer_waits = ground (arith, v.timer_waits, c.timer_seconds);
      event_waits = ground (arith, v.event_waits, c.event_seconds);
      seconds_alone = ground (arith, v.seconds_alone);
      timer_plain = ground (arith, v.timer_plain, c.timer_seconds);
      timer_later = ground (arith, v.timer_later, c.timer_seconds);
      event_plain = ground (arith, v.event_plain, c.event_seconds);
      timer_when = ground (arith, v.timer_when, c.timer_seconds);
      counted = ground arith;
    }

    -- the timer is updated
    pub timer_updated : Vars c timer_first event_first never count (updated c.timer s)
    timer_updated = record {
      timer_waits = ground (arith, v.timer_waits);
      event_waits = ground (arith, v.event_waits, c.timer_event);
      seconds_alone = ground (arith, v.seconds_alone);
      timer_plain = ground (arith, v.timer_later);
      timer_later = ground (arith, v.timer_later);
      event_plain = ground (arith, v.event_plain, c.timer_event);
      timer_when = ground arith;
      counted = ground (arith, v.counted, c.timer_seconds);
    }

    pub clock_waits-Fixed : Fixed c (clock_waits c s)
    clock_waits-Fixed =
        Fixed-same s (clock_waits c s) refl (λ a. ground (arith, f.clock_pc))
          (ground (arith, f.clock_trigger)) (ground (arith, c.routines_apart)) f

    pub clock_waits-Vars : Vars c (field c.clock 2) event_first when count (clock_waits c s)
    clock_waits-Vars = record {
      timer_waits = ground arith;
      event_waits = ground (arith, v.event_waits, c.timer_event);
      seconds_alone = ground (arith, v.seconds_alone, c.timer_seconds);
      timer_plain = ground (arith, v.timer_plain);
      timer_later = ground (arith, v.timer_later);
      event_plain = ground (arith, v.event_plain);
      timer_when = ground (arith, v.timer_when);
      counted = ground (arith, v.counted, c.timer_seconds);
    }

    pub report_waits-Fixed : Fixed c (report_waits c s)
    report_waits-Fixed =
        Fixed-same s (report_waits c s) refl (λ a. ground (arith, f.report_pc))
          (ground (arith, c.routines_apart)) (ground (arith, f.report_trigger)) f

    pub report_waits-Vars : Vars c timer_first (field c.report 2) when count (report_waits c s)
    report_waits-Vars = record {
      timer_waits = ground (arith, v.timer_waits, c.timer_event);
      event_waits = ground arith;
      seconds_alone = ground (arith, v.seconds_alone, c.event_seconds);
      timer_plain = ground (arith, v.timer_plain, c.timer_event);
      timer_later = ground (arith, v.timer_later, c.timer_event);
      event_plain = ground (arith, v.event_plain);
      timer_when = ground (arith, v.timer_when, c.timer_event);
      counted = ground (arith, v.counted, c.event_seconds);
    }
