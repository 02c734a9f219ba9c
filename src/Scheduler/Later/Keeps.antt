-- ===== src/Scheduler/Later/Keeps.antt =====
-- Delayed assignment as a part of a step function, and the invariant of the tick.
use ssm_runtime.Base.{
  ℕ, ◌≤◌, ◌<◌, ◌≡◌, sym, ap, inl, true, false, List, ok, arith, ◌==◌, if◌then◌else◌, ℕ_discrete,
}
use mathlib.Core.Path.{subst}
use ssm_runtime.State.{State, Act, Value, never, event_queue_size, on_heap}
use ssm_runtime.Objects.{is_shared, dup}
use ssm_runtime.Queues.Acts.{ActInv}
use ssm_runtime.Queues.Roster.{Roster}
use ssm_runtime.Queues.Events.{pending}
use ssm_runtime.Objects.Sound.{Below, payload_count}
use ssm_runtime.Scheduler.{Limits, sv_later_unsafe, later}
use ssm_runtime.Scheduler.Wake.{Chain-same, Listed-same}
use ssm_runtime.Scheduler.Update.{TickInv}
use ssm_runtime.Scheduler.Instant.{Stepped}
use ssm_runtime.Scheduler.Tick.Quiet.{Quiet}
use ssm_runtime.Scheduler.Later.{Delayed, sv_later_unsafe-Delayed}

pub Delayed-sv :
    (var when : ℕ) (val : Value) (s s' : State) (p : ℕ)
    → Delayed var when val s s'
    → s'.sv p
      ≡ (if var == p then record (s.sv var) { later_time = when; later_value = val } else s.sv p)
Delayed-sv var when val s s' p d = elim (ℕ_discrete p var) [
  | yes e ↦ rw e (ground (arith, d.stored))
  | no e ↦ ground (arith, e, d.others p e)
]

module _ (l : Limits) (u : List ℕ) (rank : ℕ → ℕ) (ts : ℕ → List ℕ) where
  pub Delayed-TickInv :
      (var when : ℕ) (val : Value) (s s' : State)
      → TickInv l u rank ts s
      → s.now ≤ when
      → when ≤ never
      → Below rank (rank var) val
      → Delayed var when val s s'
      → TickInv l u rank ts s'
  Delayed-TickInv var when val s s' inv valid finite below d =
      let tables = ap (λ (t : State). t.trigger) d.frame in
      let values = ap (λ (t : State). t.payload) d.frame in
      let clock = ap (λ (t : State). t.now) d.frame in
      record {
        events = d.events;
        acts = subst ActInv (sym d.frame) (record {
          heap = inv.acts.heap;
          counted = inv.acts.counted;
          bounded = inv.acts.bounded;
        });
        roster =
            subst (Roster u) (sym d.frame)
              (record { small = inv.roster.small; listed = inv.roster.listed });
        sound = record {
          kinds = λ p. ground (arith, d.headers p, inv.sound.kinds p);
          payloads = λ p i h.
              let count : payload_count (s'.mm p) ≡ payload_count (s.mm p) =
                ap payload_count (d.headers p) in
              rw values (inv.sound.payloads p i (rw count at h));
          values = λ p e. ground (arith, Delayed-sv var when val s s' p d, inv.sound.values p, e);
          laters = λ p on e.
              ground (arith, Delayed-sv var when val s s' p d, inv.sound.laters p, below, on, e);
        };
        chains = λ p.
            let same : (s'.sv p).triggers ≡ (s.sv p).triggers =
              ground (arith, Delayed-sv var when val s s' p d) in
            rw same (Chain-same s s' (s.sv p).triggers (ts p) tables (inv.chains p));
        listed = λ p. Listed-same u s s' (ts p) tables (inv.listed p);
        short = inv.short;
        deep = inv.deep;
        clock = omega (arith, clock, inv.clock);
        range = λ p. ground (arith, Delayed-sv var when val s s' p d, inv.range p);
        future = λ p. ground (arith, Delayed-sv var when val s s' p d, clock, inv.future p);
      }

  -- a value that is no pointer, for a variable whose pending value, if any, is none
  pub plain_later :
      (var when : ℕ) (val : Value) (s : State)
      → TickInv l u rank ts s
      → s.now ≤ when
      → when < never
      → 1 ≤ l.depth
      → s.event_queue_len < event_queue_size
      → on_heap val ≡ false
      → (pending s var ≡ true → on_heap (s.sv var).later_value ≡ false)
      → (s' : State) × (sv_later_unsafe l var when val s ≡ ok s')
        × Delayed var when val s s'
        × TickInv l u rank ts s'
  unfolding is_shared
  plain_later var when val s inv valid finite deep room packed old =
      let (s', run, d) =
        sv_later_unsafe-Delayed l var when val s inv.events valid (omega arith) deep (λ h. room)
          (λ on. (ground (arith, old on), λ h. ground (arith, old on))) in
      (s', run, d, Delayed-TickInv var when val s s' inv valid (omega arith) (λ h. ground arith) d)

-- A step of a routine that delays an assignment once, to a time after the clock, keeps the contract of ticks
-- that follow each other, with a value that is no pointer, for a variable whose pending value, if any, is none,
-- and room for an event. The variable has its event
-- at that time with that value.
pub later-Stepped-Quiet :
    (l : Limits) (u : List ℕ) (r var when : ℕ) (val : Value) (s : State)
    → Quiet l u s
    → s.now < when
    → when < never
    → 1 ≤ l.depth
    → s.event_queue_len < event_queue_size
    → on_heap val ≡ false
    → (pending s var ≡ true → on_heap (s.sv var).later_value ≡ false)
    → (s' : State) × (later l var when val s ≡ ok s')
      × Stepped (Quiet l u) u r s s'
      × (s'.sv var ≡ record (s.sv var) { later_time = when; later_value = val })
unfolding later dup
later-Stepped-Quiet l u r var when val s ((rank, ts, inv), quiet) valid finite deep room packed
      old =
    let (s', run, d, inv') =
      plain_later l u rank ts var when val s inv (omega (arith, valid)) finite deep room packed
        old in
    let now = ap (λ (t : State). t.now) d.frame in
    let acts = ap (λ (t : State). t.act) d.frame in
    (
      s',
      ground (arith, packed),
      record {
        keeps = (
          (rank, ts, inv'),
          λ p on. ground (arith, Delayed-sv var when val s s' p d, now, quiet p),
        );
        acts = inv'.acts;
        roster = inv'.roster;
        clock = now;
        priorities = λ a. ground (arith, ap (λ (f : ℕ → Act). f a) acts);
        later = λ a on. inl (ground (arith, ap (λ (f : ℕ → Act). f a) acts));
      },
      d.stored,
    )
