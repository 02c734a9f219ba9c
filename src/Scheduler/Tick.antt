-- ===== src/Scheduler/Tick.antt =====
-- One tick as a whole.
pub mod Quiet
use ssm_runtime.Base.{
  ℕ, ◌≤◌, ◌<◌, ◌≡◌, ◌↔◌, refl, sym, ap, true, ◌&&◌, List, ok, arith, ltb, ◌==◌, if◌then◌else◌,
  length, ℕ_discrete,
}
use mathlib.Core.Path.{subst}
use ssm_runtime.State.{State, later_time_in}
use ssm_runtime.Queues.{next_event_time}
use ssm_runtime.Queues.Events.{
  EventInv, pending, root_pending, pending_occupied, next_event_time-earliest,
}
use ssm_runtime.Scheduler.{Limits, Steps, set_now, tick_advance, tick}
use ssm_runtime.Scheduler.Update.{TickInv}
use ssm_runtime.Scheduler.Wake.{Chain-same, Listed-same}
use ssm_runtime.Scheduler.Settle.{Settled, tick_events-Settled}
use ssm_runtime.Scheduler.Instant.{Contract, Stable}
use ssm_runtime.Scheduler.Instant.Order.{Ran, tick_acts-Ran}

-- `ssm_set_now` refuses exactly a time that is not after `now`, or that skips a queued event.
pub set_now-ok :
    (next : ℕ) (s : State)
    → EventInv s
    → (set_now next s ≡ ok (record s { now = next }))
      ↔ (s.now < next) × ((p : ℕ) → pending s p ≡ true → next ≤ later_time_in s p)
unfolding set_now next_event_time
set_now-ok next s inv = (
  λ run. (
    ground arith,
    λ p on. ground (arith, (next_event_time-earliest s inv).0 p, pending_occupied s p inv on),
  ),
  λ h. ground (arith, h.0, h.1 (s.event_queue 1), root_pending s inv),
)

-- the time of the instant that a tick works on
abbrev pub instant : State → ℕ
instant s = if s.act_queue_len == 0 && ltb 0 s.event_queue_len then next_event_time s else s.now

module _ (l : Limits) (u : List ℕ) (rank : ℕ → ℕ) (ts : ℕ → List ℕ) where
  pub tick_advance-TickInv :
      (s : State)
      → TickInv l u rank ts s
      → (s.act_queue_len ≡ 0 → s.now < next_event_time s)
      → (tick_advance s ≡ ok (record s { now = instant s }))
        × TickInv l u rank ts (record s { now = instant s })
  unfolding tick_advance set_now next_event_time
  tick_advance-TickInv s inv ready = (
    elim (ℕ_discrete s.event_queue_len 0) [
      | yes e ↦ ground (arith, e)
      | no e ↦ ground (arith, ready, inv.future (s.event_queue 1))
    ],
    record {
      events = record {
        heap = inv.events.heap;
        counted = inv.events.counted;
        bounded = inv.events.bounded;
      };
      acts = record {
        heap = inv.acts.heap;
        counted = inv.acts.counted;
        bounded = inv.acts.bounded;
      };
      roster = record { small = inv.roster.small; listed = inv.roster.listed };
      sound = record {
        kinds = inv.sound.kinds;
        payloads = inv.sound.payloads;
        values = inv.sound.values;
        laters = inv.sound.laters;
      };
      chains = λ p.
          Chain-same s (record s { now = instant s }) (s.sv p).triggers (ts p) refl (inv.chains p);
      listed = λ p. Listed-same u s (record s { now = instant s }) (ts p) refl (inv.listed p);
      short = inv.short;
      deep = inv.deep;
      clock = ground (arith, inv.clock, inv.range (s.event_queue 1));
      range = inv.range;
      future = λ p. ground (
        arith,
        inv.future p,
        inv.range (s.event_queue 1),
        (next_event_time-earliest s inv.events).0 p,
        inv.range p,
      );
    },
  )

-- the invariant of the tick, for some ranks and some lists of triggers
abbrev pub Ready : Limits → List ℕ → State → Type 0
Ready l u s = (rank : ℕ → ℕ) × (ts : ℕ → List ℕ) × TickInv l u rank ts s

pub Ready-Stable : (l : Limits) (u : List ℕ) → Stable (Ready l u) u
Ready-Stable l u s s' only acts roster (rank, ts, inv) =
    let tables = ap (λ (t : State). t.trigger) only.frame in
    let vars = ap (λ (t : State). t.sv) only.frame in
    let headers = ap (λ (t : State). t.mm) only.frame in
    let values = ap (λ (t : State). t.payload) only.frame in
    let clock = ap (λ (t : State). t.now) only.frame in
    (
      rank,
      ts,
      record {
        events = subst EventInv (sym only.frame) (record {
          heap = inv.events.heap;
          counted = inv.events.counted;
          bounded = inv.events.bounded;
        });
        acts = acts;
        roster = roster;
        sound = record {
          kinds = λ p. rw headers (inv.sound.kinds p);
          payloads = λ p i. rw (headers, values) (inv.sound.payloads p i);
          values = λ p. rw vars (inv.sound.values p);
          laters = λ p. rw vars (inv.sound.laters p);
        };
        chains = λ p. rw vars (Chain-same s s' (s.sv p).triggers (ts p) tables (inv.chains p));
        listed = λ p. Listed-same u s s' (ts p) tables (inv.listed p);
        short = inv.short;
        deep = inv.deep;
        clock = omega (arith, clock, inv.clock);
        range = λ p. rw vars (inv.range p);
        future = λ p. rw (vars, clock) (inv.future p);
      },
    )

-- A tick returns where the tick invariant holds, the limits exceed the number of events and of
-- routines, the step functions keep their contract, and no event is at or before `now` unless a
-- routine is scheduled. The clock then stands at the instant: the earliest event time where no
-- routine was scheduled and an event was queued, `now` elsewhere. The variables that are due are
-- settled, and the scheduled routines run until none is left, in ascending order of priority and
-- each at most once.
pub tick-returns :
    (l : Limits) (u : List ℕ) (rank : ℕ → ℕ) (ts : ℕ → List ℕ) (steps : Steps) (s : State)
    → TickInv l u rank ts s
    → (s.act_queue_len ≡ 0 → s.now < next_event_time s)
    → Contract (Ready l u) u steps
    → s.event_queue_len < l.events
    → length u < l.steps
    → (s1 s2 : State) × (rs : List ℕ) × (tick l steps s ≡ ok s2)
      × Settled l u rank ts (record s { now = instant s }) s1
      × Ran (Ready l u) steps 0 rs s1 s2
unfolding tick
tick-returns l u rank ts steps s inv ready contract events routines =
    let (run0, inv0) = tick_advance-TickInv l u rank ts s inv ready in
    let s0 = record s { now = instant s } in
    let (s1, run1, d) = tick_events-Settled l u rank ts l.events s0 events inv0 in
    let (s2, rs, run2, ran) =
      tick_acts-Ran (Ready l u) u steps contract (Ready-Stable l u) l.steps s1 routines
        (rank, ts, d.inv) d.inv.acts d.inv.roster in
    (s1, s2, rs, rw run0 (rw run1 run2), d, ran)
