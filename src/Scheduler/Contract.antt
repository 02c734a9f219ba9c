-- ===== src/Scheduler/Contract.antt =====
-- Assignment keeps the contract of step functions: a program whose routines assign with their own
-- priority meets what the tick asks of it.
pub mod Relinked
pub mod Resume
pub mod Activate
pub mod Waits
use ssm_runtime.Base.{
  ℕ, ◌<◌, ◌≡◌, ◌⊎◌, sym, ap, ◌∙◌, inl, true, false, List, [], ◌∷◌, ok, arith, ltb, ◌==◌,
  if◌then◌else◌, ℕ_discrete,
}
use mathlib.Core.Path.{subst}
use ssm_runtime.State.{State, Value, later_time_in, priority_in, on_heap}
use ssm_runtime.Queues.Acts.{ActInv}
use ssm_runtime.Queues.Events.{EventInv, EventInv-same, pending}
use ssm_runtime.Queues.Roster.{Roster}
use ssm_runtime.Objects.{dup, drop}
use ssm_runtime.Objects.Sound.{Below, Dropped, Dropped-Sound}
use ssm_runtime.Objects.Drop.{drop-Dropped}
use ssm_runtime.Scheduler.{Limits, sv_assign_unsafe, assign}
use ssm_runtime.Scheduler.Wake.{Chain-same, Listed-same, wakes}
use ssm_runtime.Scheduler.Assign.{Assigned, sv_assign_unsafe-Assigned}
use ssm_runtime.Scheduler.Update.{TickInv}
use ssm_runtime.Scheduler.Instant.{Stepped}
use ssm_runtime.Scheduler.Tick.{Ready}
use ssm_runtime.Scheduler.Tick.Quiet.{Quiet}

-- a dup changes a reference count alone
dup-Dropped :
    (rank : ℕ → ℕ) (r : ℕ) (v : Value) (s : State) → EventInv s → Dropped rank r s (dup v s)
unfolding dup
dup-Dropped rank r v s inv = record {
  inv = EventInv-same s (dup v s) (ground arith) (ground arith) (λ p. ground arith) inv;
  frame = ground arith;
  headers = λ p. ground arith;
  vars = λ p. ground arith;
  times = λ p. inl (ground arith);
  kept = λ p h. ground arith;
  root = λ h. ground arith;
  shorter = ground arith;
}

wakes-priority :
    (s : State) (prio : ℕ) (ts : List ℕ) (a : ℕ)
    → wakes s (λ priority. ltb prio priority) ts a ≡ true
    → prio < priority_in s a
wakes-priority s prio [] a h = absurd (ground arith)
wakes-priority s prio (t ∷ ts) a h = ground (arith, wakes-priority s prio ts a)

module _ (l : Limits) (u : List ℕ) (rank : ℕ → ℕ) (ts : ℕ → List ℕ) where
  Dropped-TickInv :
      (r : ℕ) (s s1 : State) → TickInv l u rank ts s → Dropped rank r s s1 → TickInv l u rank ts s1
  Dropped-TickInv r s s1 inv d =
      let tables = ap (λ (t : State). t.trigger) d.frame in
      let clock = ap (λ (t : State). t.now) d.frame in
      record {
        events = d.inv;
        acts = subst ActInv (sym d.frame) (record {
          heap = inv.acts.heap;
          counted = inv.acts.counted;
          bounded = inv.acts.bounded;
        });
        roster =
            subst (Roster u) (sym d.frame)
              (record { small = inv.roster.small; listed = inv.roster.listed });
        sound = Dropped-Sound rank r s s1 inv.sound d;
        chains = λ p.
            let same : (s1.sv p).triggers ≡ (s.sv p).triggers = ground (arith, d.vars p) in
            rw same (Chain-same s s1 (s.sv p).triggers (ts p) tables (inv.chains p));
        listed = λ p. Listed-same u s s1 (ts p) tables (inv.listed p);
        short = inv.short;
        deep = inv.deep;
        clock = omega (arith, clock, inv.clock);
        range = λ p. ground (arith, inv.range p, d.times p);
        future = λ p. ground (arith, clock, inv.future p, inv.clock, d.times p);
      }

  Assigned-sv :
      (var prio : ℕ) (val : Value) (s s' : State) (p : ℕ)
      → Assigned u (ts var) var prio val s s'
      → s'.sv p
        ≡ (if var == p then record (s.sv var) { value = val; last_updated = s.now } else s.sv p)
  Assigned-sv var prio val s s' p d = elim (ℕ_discrete p var) [
    | yes e ↦ rw e (ground (arith, d.stored))
    | no e ↦ ground (arith, e, d.others p e)
  ]

  Assigned-TickInv :
      (var prio : ℕ) (val : Value) (s s' : State)
      → TickInv l u rank ts s
      → Below rank (rank var) val
      → Assigned u (ts var) var prio val s s'
      → TickInv l u rank ts s'
  Assigned-TickInv var prio val s s' inv below d =
      let tables = ap (λ (t : State). t.trigger) d.frame in
      let headers = ap (λ (t : State). t.mm) d.frame in
      let values = ap (λ (t : State). t.payload) d.frame in
      record {
        events = d.events inv.events;
        acts = d.acts;
        roster = d.roster;
        sound = record {
          kinds = λ p. rw headers (inv.sound.kinds p);
          payloads = λ p i. rw (headers, values) (inv.sound.payloads p i);
          values = λ p e.
              ground (arith, Assigned-sv var prio val s s' p d, below, inv.sound.values p, e);
          laters = λ p on e.
              ground (arith, Assigned-sv var prio val s s' p d, inv.sound.laters p, on, e);
        };
        chains = λ p.
            let same : (s'.sv p).triggers ≡ (s.sv p).triggers =
              ground (arith, Assigned-sv var prio val s s' p d) in
            rw same (Chain-same s s' (s.sv p).triggers (ts p) tables (inv.chains p));
        listed = λ p. Listed-same u s s' (ts p) tables (inv.listed p);
        short = inv.short;
        deep = inv.deep;
        clock = omega (arith, d.now, inv.clock);
        range = λ p. ground (arith, Assigned-sv var prio val s s' p d, inv.range p);
        future = λ p. ground (arith, Assigned-sv var prio val s s' p d, d.now, inv.future p);
      }

  assign_run :
      (var prio : ℕ) (val : Value) (s s2 s3 : State)
      → drop l.depth (s.sv var).value (dup val s) ≡ ok s2
      → sv_assign_unsafe l var prio val s2 ≡ ok s3
      → assign l var prio val s ≡ ok s3
  unfolding assign dup
  assign_run var prio val s s2 s3 run2 run3 = ground arith

  -- `ssm_assign` returns where the tick invariant holds and the value keeps the references well founded.
  -- It keeps the tick invariant, the clock and the priorities, stores the value with the current time,
  -- and schedules, besides those scheduled before, only routines of a later priority than the writer's.
  -- The events that are left have their times.
  pub assign-TickInv :
      (var prio : ℕ) (val : Value) (s : State)
      → TickInv l u rank ts s
      → Below rank (rank var) val
      → (s' : State) × (assign l var prio val s ≡ ok s')
        × TickInv l u rank ts s'
        × (s'.now ≡ s.now)
        × ((s'.sv var).value ≡ val)
        × ((s'.sv var).last_updated ≡ s.now)
        × ((a : ℕ) → priority_in s' a ≡ priority_in s a)
        × ((a : ℕ)
            → (s'.act a).scheduled ≡ true
            → ((s.act a).scheduled ≡ true) ⊎ (prio < priority_in s a))
        × ((p : ℕ) → pending s' p ≡ true → later_time_in s' p ≡ later_time_in s p)
  assign-TickInv var prio val s inv below =
      let s1 = dup val s in
      let d1 = dup-Dropped rank (rank var) val s inv.events in
      let inv1 = Dropped-TickInv (rank var) s s1 inv d1 in
      let (s2, run2, d2) =
        drop-Dropped rank l.depth (rank var) (s.sv var).value s1
          (λ e. omega (arith, inv.sound.values var e, inv.deep var)) (inv.sound.values var)
          inv1.events inv1.sound in
      let inv2 = Dropped-TickInv (rank var) s1 s2 inv1 d2 in
      let (s3, run3, d3) =
        sv_assign_unsafe-Assigned l u (ts var) var prio val s2 inv2.acts inv2.roster
          (inv2.chains var) (inv2.listed var) (inv2.short var) in
      let acts =
        λ (a : ℕ). ap (λ (t : State). t.act a) d2.frame ∙ ap (λ (t : State). t.act a) d1.frame in
      let clock = ap (λ (t : State). t.now) d2.frame ∙ ap (λ (t : State). t.now) d1.frame in
      (
        s3,
        assign_run var prio val s s2 s3 run2 run3,
        Assigned-TickInv var prio val s2 s3 inv2 below d3,
        d3.now ∙ clock,
        ground (arith, d3.stored),
        ground (arith, d3.stored, clock),
        λ a. ground (arith, d3.priorities a, acts a),
        λ a on. ground (arith, d3.marked a, acts a, wakes-priority s2 prio (ts var) a),
        λ p on. ground (arith, d1.times p, d2.times p, Assigned-sv var prio val s2 s3 p d3),
      )

-- A step of a routine that assigns once, with the routine's own priority, keeps the contract of the tick.
pub assign-Stepped :
    (l : Limits) (u : List ℕ) (r var : ℕ) (val : Value) (s : State)
    → on_heap val ≡ false
    → Ready l u s
    → (s' : State) × (assign l var (priority_in s r) val s ≡ ok s') × Stepped (Ready l u) u r s s'
assign-Stepped l u r var val s packed (rank, ts, inv) =
    let (s', run, inv', now, value, updated, priorities, later, times) =
      assign-TickInv l u rank ts var (priority_in s r) val s inv (λ e. ground (arith, packed, e)) in
    (
      s',
      run,
      record {
        keeps = (rank, ts, inv');
        acts = inv'.acts;
        roster = inv'.roster;
        clock = now;
        priorities = priorities;
        later = later;
      },
    )

-- The same, for the contract of ticks that follow each other.
pub assign-Stepped-Quiet :
    (l : Limits) (u : List ℕ) (r var : ℕ) (val : Value) (s : State)
    → on_heap val ≡ false
    → Quiet l u s
    → (s' : State) × (assign l var (priority_in s r) val s ≡ ok s') × Stepped (Quiet l u) u r s s'
assign-Stepped-Quiet l u r var val s packed ((rank, ts, inv), quiet) =
    let (s', run, inv', now, value, updated, priorities, later, times) =
      assign-TickInv l u rank ts var (priority_in s r) val s inv (λ e. ground (arith, packed, e)) in
    (
      s',
      run,
      record {
        keeps = ((rank, ts, inv'), λ p on. ground (arith, times p on, now, quiet p));
        acts = inv'.acts;
        roster = inv'.roster;
        clock = now;
        priorities = priorities;
        later = later;
      },
    )

-- Two parts of a step that keep the contract keep it together.
pub Stepped-trans :
    (P : State → Type 0) (u : List ℕ) (r : ℕ) (s s1 s2 : State)
    → Stepped P u r s s1
    → Stepped P u r s1 s2
    → Stepped P u r s s2
Stepped-trans P u r s s1 s2 d e = record {
  keeps = e.keeps;
  acts = e.acts;
  roster = e.roster;
  clock = e.clock ∙ d.clock;
  priorities = λ a. e.priorities a ∙ d.priorities a;
  later = λ a on. ground (arith, e.later a on, d.later a, d.priorities a, d.priorities r);
}
