-- ===== src/Examples/Clock/Rounds.antt =====
-- The program of clock.c between two ticks, and the rounds of the loops of a tick.
use ssm_runtime.Base.{ℕ, suc, ◌-◌, ◌≤◌, ◌<◌, ◌≡◌, refl, ap, ◌∙◌, false, ok, arith}
use ssm_runtime.State.{State, never, later_time_in}
use ssm_runtime.Queues.{next_event_time}
use ssm_runtime.Scheduler.{
  Limits, Steps, run_step, tick_acts, sv_update, event_queue_pop, tick_events, set_now,
  tick_advance,
}
use ssm_runtime.Examples.{field}
use ssm_runtime.Examples.Alone.{unqueued, act_step_run}
use ssm_runtime.Examples.Clock.Beat.{Cast, Fixed, Fixed-same, Vars, Vars-same, Queued}

-- Between two ticks: no routine is scheduled, the timer is due at `when`, and the seconds are `count`.
pub record Rests (c : Cast) (when count : ℕ) (s : State) : Type 0 where
  pub fixed : Fixed c s
  pub vars : Vars c (field c.clock 2) (field c.report 2) when count s
  pub queued : Queued c 0 c.clock false false 1 s

pub advance_run :
    (c : Cast) (when count : ℕ) (s : State)
    → Rests c when count s
    → s.now < when
    → when < never
    → tick_advance s ≡ ok (record s { now = when })
unfolding tick_advance set_now next_event_time
advance_run c when count s r future finite =
    let q = r.queued in
    let due : later_time_in s (s.event_queue 1) ≡ when =
      ap (later_time_in s) (q.events_first refl) ∙ r.vars.timer_when in
    ground (arith, q.queue, q.events, due)

-- the round that updates the timer, and the one that finds no event
update_round :
    (l : Limits) (timer fuel : ℕ) (s s1 : State)
    → s.event_queue_len ≡ 1
    → s.event_queue 1 ≡ timer
    → later_time_in s timer ≡ s.now
    → sv_update l timer s ≡ ok s1
    → s1.event_queue_len ≡ 1
    → tick_events l (suc fuel) s ≡ tick_events l fuel (record s1 { event_queue_len = 0 })
unfolding tick_events event_queue_pop
update_round l timer fuel s s1 one first due run one' = ground (arith, one, first, due, run, one')

last_event_round :
    (l : Limits) (fuel : ℕ) (s : State) → s.event_queue_len ≡ 0 → tick_events l (suc fuel) s ≡ ok s
unfolding tick_events
last_event_round l fuel s empty = ground (arith, empty)

pub events_run :
    (l : Limits) (timer : ℕ) (s s1 : State)
    → 2 ≤ l.events
    → s.event_queue_len ≡ 1
    → s.event_queue 1 ≡ timer
    → later_time_in s timer ≡ s.now
    → sv_update l timer s ≡ ok s1
    → s1.event_queue_len ≡ 1
    → tick_events l l.events s ≡ ok (record s1 { event_queue_len = 0 })
events_run l timer s s1 rounds one first due run one' =
    let e : l.events ≡ suc (suc (l.events - 2)) = omega arith in
    ap (λ (n : ℕ). tick_events l n s) e
    ∙ update_round l timer (suc (l.events - 2)) s s1 one first due run one'
    ∙ last_event_round l (l.events - 2) (record s1 { event_queue_len = 0 }) refl

-- a round that runs the only routine on the queue, and the one that finds none
act_round :
    (steps : Steps) (fuel act : ℕ) (s s1 : State)
    → s.act_queue_len ≡ 1
    → s.act_queue 1 ≡ act
    → run_step steps act (unqueued act s) ≡ ok s1
    → tick_acts (suc fuel) steps s ≡ tick_acts fuel steps s1
unfolding tick_acts
act_round steps fuel act s s1 one at run = ground (arith, one, act_step_run steps act s one at, run)

last_act_round :
    (steps : Steps) (fuel : ℕ) (s : State)
    → s.act_queue_len ≡ 0
    → tick_acts (suc fuel) steps s ≡ ok s
unfolding tick_acts
last_act_round steps fuel s empty = ground (arith, empty)

pub acts_run :
    (steps : Steps) (rounds act next : ℕ) (s s1 s2 : State)
    → 3 ≤ rounds
    → s.act_queue_len ≡ 1
    → s.act_queue 1 ≡ act
    → run_step steps act (unqueued act s) ≡ ok s1
    → s1.act_queue_len ≡ 1
    → s1.act_queue 1 ≡ next
    → run_step steps next (unqueued next s1) ≡ ok s2
    → s2.act_queue_len ≡ 0
    → tick_acts rounds steps s ≡ ok s2
acts_run steps rounds act next s s1 s2 enough one at run1 one' at' run2 empty =
    let e : rounds ≡ suc (suc (suc (rounds - 3))) = omega arith in
    ap (λ (n : ℕ). tick_acts n steps s) e
    ∙ act_round steps (suc (suc (rounds - 3))) act s s1 one at run1
    ∙ act_round steps (suc (rounds - 3)) next s1 s2 one' at' run2
    ∙ last_act_round steps (rounds - 3) s2 empty

-- The variables at rest do not depend on the time of the runtime.
pub Rests-now :
    (c : Cast) (when count now : ℕ) (s : State)
    → Rests c when count s
    → Rests c when count (record s { now = now })
Rests-now c when count now s r =
    let s' = record s { now = now } in
    record {
      fixed = Fixed-same c s s' refl (λ a. refl) refl refl r.fixed;
      vars = Vars-same c (field c.clock 2) (field c.report 2) when count s s' refl r.vars;
      queued = record {
        queue = r.queued.queue;
        queue_first = r.queued.queue_first;
        clock_scheduled = r.queued.clock_scheduled;
        report_scheduled = r.queued.report_scheduled;
        events = r.queued.events;
        events_first = r.queued.events_first;
      };
    }
