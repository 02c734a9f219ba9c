-- ===== src/Examples/Clock/Ticks.antt =====
-- Ticks of the program of clock.c, one after the other, and the main loop of the simulation that makes them.
use ssm_runtime.Base.{ℕ, zero, suc, ◌+◌, ◌*◌, ◌≤◌, ◌<◌, ◌≡◌, refl, ap, ◌∙◌, ok, arith}
use mathlib.Core.Path.{subst}
use ssm_runtime.Memory.{Handlers}
use ssm_runtime.State.{State, never, later_time_in}
use ssm_runtime.Queues.{next_event_time}
use ssm_runtime.Scheduler.{Limits, Steps, tick_acts, tick_events, tick_advance, tick}
use ssm_runtime.Simulation.{second, run_until}
use ssm_runtime.Examples.{field}
use ssm_runtime.Examples.Clock.{program}
use ssm_runtime.Examples.Clock.Beat.{Cast, Vars}
use ssm_runtime.Examples.Clock.Rounds.{Rests, Rests-now, advance_run, acts_run}
use ssm_runtime.Examples.Clock.Stages.{fired, clock_round, report_round}

tick_run :
    (l : Limits) (steps : Steps) (s s0 s1 s2 : State)
    → tick_advance s ≡ ok s0
    → tick_events l l.events s0 ≡ ok s1
    → tick_acts l.steps steps s1 ≡ ok s2
    → tick l steps s ≡ ok s2
unfolding tick
tick_run l steps s s0 s1 s2 run0 run1 run2 = rw run0 (rw run1 run2)

finite : (when : ℕ) → when + second < never → when < never
finite when room = omega arith

module _ (h : Handlers) (l : Limits) (fuel : ℕ) where
  module _ (wide : 2 ≤ l.triggers) (rounds : 2 ≤ l.events) (steps : 3 ≤ l.steps) (c : Cast) where
    -- the rounds of a tick, from the state whose time is the timer's
    tick_rounds :
        (when count : ℕ) (s : State)
        → Rests c when count s
        → s.now ≡ when
        → when + second < never
        → (s1 s2 : State) × (tick_events l l.events s ≡ ok s1)
          × (tick_acts l.steps (program h l (suc fuel)) s1 ≡ ok s2)
          × Rests c (when + second) (suc count) s2
          × (s2.now ≡ when)
    tick_rounds when count s r now room =
        let t1 = field c.clock 2 in
        let t2 = field c.report 2 in
        let (s1, run1, f1, v1, q1, now1) =
          fired l wide rounds c when count s r now (finite when room) in
        let time = now1 ∙ now in
        let (s2, run2, f2, v2, q2, now2) =
          clock_round h l fuel wide c count s1 f1 v1 q1 (rw time room) in
        let v2' : Vars c t1 t2 (when + second) count s2 =
          subst (λ (n : ℕ). Vars c t1 t2 (n + second) count s2) time v2 in
        let (s3, run3, f3, v3, q3, now3) =
          report_round h l fuel wide c count s2 f2 (when + second) v2' q2 in
        (
          s1,
          s3,
          run1,
          acts_run (program h l (suc fuel)) l.steps c.clock c.report s1 s2 s3 steps q1.queue
              (q1.queue_first refl) run2 q2.queue (q2.queue_first refl) run3 q3.queue,
          record { fixed = f3; vars = v3; queued = q3 },
          now3 ∙ now2 ∙ time,
        )

    -- A tick of the program of clock.c between two seconds returns: the clock of the runtime is at the time of
    -- the timer, the timer is due a second later, and one more second is counted.
    pub tick-Rests :
        (when count : ℕ) (s : State)
        → Rests c when count s
        → s.now < when
        → when + second < never
        → (s' : State) × (tick l (program h l (suc fuel)) s ≡ ok s')
          × Rests c (when + second) (suc count) s'
          × (s'.now ≡ when)
    tick-Rests when count s r future room =
        let s0 = record s { now = when } in
        let (s1, s2, run1, run2, r2, now2) =
          tick_rounds when count s0 (Rests-now c when count when s r) refl room in
        (
          s2,
          tick_run l (program h l (suc fuel)) s s0 s1 s2
              (advance_run c when count s r future (finite when room)) run1 run2,
          r2,
          now2,
        )

    next_due : (when count : ℕ) (s : State) → Rests c when count s → next_event_time s ≡ when
    unfolding next_event_time
    next_due when count s r =
        let at : s.event_queue 1 ≡ c.timer = r.queued.events_first refl in
        let due : later_time_in s (s.event_queue 1) ≡ when =
          ap (later_time_in s) at ∙ r.vars.timer_when in
        ground (arith, r.queued.events, due)

    loop_on :
        (rounds stop_at : ℕ) (steps : Steps) (s s1 : State)
        → next_event_time s < never
        → s.now < stop_at
        → tick l steps s ≡ ok s1
        → run_until (suc rounds) l steps stop_at s ≡ run_until rounds l steps stop_at s1
    unfolding run_until
    loop_on rounds stop_at steps s s1 due before run = ground (arith, due, before, run)

    loop_off :
        (rounds stop_at : ℕ) (steps : Steps) (s : State)
        → stop_at ≤ s.now
        → run_until (suc rounds) l steps stop_at s ≡ ok s
    unfolding run_until
    loop_off rounds stop_at steps s over = ground (arith, over)

    -- The main loop of the simulation runs the program of clock.c to the limit: from between two ticks, with `n` more
    -- seconds from the one before `when` to `stop_at`, it ends at the limit after `n` ticks, with `n` more seconds counted
    -- and the timer due a second later.
    pub run_until-Rests :
        (n rounds when count stop_at : ℕ) (s : State)
        → Rests c when count s
        → s.now + second ≡ when
        → s.now + n * second ≡ stop_at
        → stop_at + second < never
        → n < rounds
        → (s' : State) × (run_until rounds l (program h l (suc fuel)) stop_at s ≡ ok s')
          × Rests c (stop_at + second) (n + count) s'
          × (s'.now ≡ stop_at)
    run_until-Rests n zero when count stop_at s r now stop room enough = absurd (omega arith)
    run_until-Rests zero (suc rounds') when count stop_at s r now stop room enough =
        let here : s.now ≡ stop_at = omega arith in
        let due : when ≡ stop_at + second = omega arith in
        let total : count ≡ 0 + count = omega arith in
        (
          s,
          loop_off rounds' stop_at (program h l (suc fuel)) s (omega arith),
          subst (λ (k : ℕ). Rests c (stop_at + second) k s) total
              (subst (λ (w : ℕ). Rests c w count s) due r),
          here,
        )
    run_until-Rests (suc n) (suc rounds') when count stop_at s r now stop room enough =
        let (s1, run1, r1, now1) = tick-Rests when count s r (omega arith) (omega arith) in
        let (s2, run2, r2, now2) =
          run_until-Rests n rounds' (when + second) (suc count) stop_at s1 r1 (omega arith)
            (omega arith) room (omega arith) in
        let total : n + suc count ≡ suc n + count = omega arith in
        (
          s2,
          loop_on rounds' stop_at (program h l (suc fuel)) s s1
                (rw (next_due when count s r) (omega arith)) (omega arith) run1
              ∙ run2,
          subst (λ (k : ℕ). Rests c (stop_at + second) k s2) total r2,
          now2,
        )
