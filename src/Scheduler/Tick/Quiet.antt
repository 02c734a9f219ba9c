-- ===== src/Scheduler/Tick/Quiet.antt =====
-- Ticks that follow each other: with step functions that schedule events in the future alone, each tick
-- leaves a state from which the next one returns.
use ssm_runtime.Base.{ℕ, ◌≤◌, ◌<◌, ◌≡◌, ◌≢◌, ap, ◌∙◌, true, false, List, ok, arith, length}
use ssm_runtime.Heap.Count.{count_place}
use ssm_runtime.State.{State, never, event_queue_size, later_time_in}
use ssm_runtime.Queues.{next_event_time}
use ssm_runtime.Queues.Acts.{ActInv}
use ssm_runtime.Queues.Events.{EventInv, pending, root_pending}
use ssm_runtime.Scheduler.{Limits, Steps, tick}
use ssm_runtime.Scheduler.Settle.{tick_events-Settled}
use ssm_runtime.Scheduler.Instant.{Contract, Stable}
use ssm_runtime.Scheduler.Instant.Order.{tick_acts-Ran}
use ssm_runtime.Scheduler.Tick.{Ready, Ready-Stable, instant, tick_advance-TickInv}

-- The tick invariant, with every event in the future.
abbrev pub Quiet : Limits → List ℕ → State → Type 0
Quiet l u s = Ready l u s × ((p : ℕ) → pending s p ≡ true → s.now < later_time_in s p)

pub Quiet-Stable : (l : Limits) (u : List ℕ) → Stable (Quiet l u) u
Quiet-Stable l u s s' only acts roster (ready, quiet) = (
  Ready-Stable l u s s' only acts roster ready,
  λ p on.
      ground (
        arith,
        quiet p,
        ap (λ (t : State). t.sv p) only.frame,
        ap (λ (t : State). t.now) only.frame,
      ),
)

-- a queue whose routines are all idle is empty
idle_empty : (s : State) → ActInv s → ((a : ℕ) → (s.act a).scheduled ≡ false) → s.act_queue_len ≡ 0
idle_empty s inv idle = ground (
  arith,
  idle (s.act_queue 1),
  inv.counted (s.act_queue 1),
  count_place s.act_queue s.act_queue_len 1 (s.act_queue 1),
)

-- every event time is ahead of the clock
quiet_ahead :
    (s : State)
    → EventInv s
    → s.now < never
    → ((p : ℕ) → pending s p ≡ true → s.now < later_time_in s p)
    → s.now < next_event_time s
unfolding next_event_time
quiet_ahead s inv clock quiet = ground (arith, root_pending s inv, quiet (s.event_queue 1))

instant_le : (s : State) → s.now < next_event_time s → s.now ≤ instant s
instant_le s ahead = ground arith

instant_lt :
    (s : State)
    → s.now < next_event_time s
    → s.act_queue_len ≡ 0
    → next_event_time s ≢ never
    → s.now < instant s
unfolding next_event_time
instant_lt s ahead idle some = ground arith

instant_finite :
    (s : State)
    → EventInv s
    → s.now < never
    → ((p : ℕ) → later_time_in s p ≤ never)
    → instant s < never
unfolding next_event_time
instant_finite s inv clock range = ground (arith, root_pending s inv, range (s.event_queue 1))

-- A tick from a state with every event in the future, before the end of time, returns, if the step
-- functions keep that. It leaves such a state again, with no routine scheduled. Where no routine was
-- scheduled before and an event was pending, the clock moves to the time of the next event, which is later.
pub tick-Quiet :
    (l : Limits) (u : List ℕ) (steps : Steps) (s : State)
    → Quiet l u s
    → s.now < never
    → Contract (Quiet l u) u steps
    → event_queue_size < l.events
    → length u < l.steps
    → (s' : State) × (tick l steps s ≡ ok s')
      × Quiet l u s'
      × (s'.act_queue_len ≡ 0)
      × (s'.now ≡ instant s)
      × (s'.now < never)
      × (s.now ≤ s'.now)
      × (s.act_queue_len ≡ 0 → next_event_time s ≢ never → s.now < s'.now)
unfolding tick
tick-Quiet l u steps s ((rank, ts, inv), quiet) clock contract events routines =
    let ahead = quiet_ahead s inv.events clock quiet in
    let (run0, inv0) = tick_advance-TickInv l u rank ts s inv (λ h. ahead) in
    let s0 = record s { now = instant s } in
    let (s1, run1, d) =
      tick_events-Settled l u rank ts l.events s0 (omega (arith, inv.events.bounded, events))
        inv0 in
    let (s2, rs, run2, ran) =
      tick_acts-Ran (Quiet l u) u steps contract (Quiet-Stable l u) l.steps s1 routines
        ((rank, ts, d.inv), λ p on. ground (arith, d.quiet p on, d.now)) d.inv.acts d.inv.roster in
    let time : s2.now ≡ instant s = ran.now ∙ d.now in
    (
      s2,
      rw run0 (rw run1 run2),
      ran.keeps,
      idle_empty s2 ran.acts ran.idle,
      time,
      rw time (instant_finite s inv.events clock inv.range),
      rw time (instant_le s ahead),
      λ idle some. rw time (instant_lt s ahead idle some),
    )
