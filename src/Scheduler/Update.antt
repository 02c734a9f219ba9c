-- ===== src/Scheduler/Update.antt =====
-- A delayed update that is due: what `ssm_update` does to the variable at the root of the event
-- queue, and the removal of its event by the tick.
use ssm_runtime.Base.{
  ℕ, ◌-◌, ◌/◌, ◌≤◌, ◌<◌, ◌≡◌, ◌≢◌, ◌⊎◌, sym, ap, ◌∙◌, true, ◌||◌, List, ok, ◌>>=◌, arith, length,
}
use mathlib.Core.Path.{subst}
use ssm_runtime.Heap.Count.{count_none}
use ssm_runtime.State.{State, never, later_time_in, put_sv}
use ssm_runtime.Queues.Acts.{ActInv}
use ssm_runtime.Queues.Events.{EventInv, pending, root_pending, other_place}
use ssm_runtime.Queues.Roster.{Roster}
use ssm_runtime.Objects.{drop}
use ssm_runtime.Objects.Sound.{Sound, Dropped, Dropped-Sound}
use ssm_runtime.Objects.Drop.{drop-Dropped}
use ssm_runtime.Scheduler.{Limits, sv_update, activate_triggers, event_queue_pop}
use ssm_runtime.Scheduler.Wake.{
  Chain, Chain-same, Listed, Listed-same, wakes-same, wakes, Woken, Woken-Roster,
  activate_triggers-Woken,
}
use ssm_runtime.Scheduler.Pop.{EventRootGone, event_queue_pop-EventInv}

-- What a tick relies on: well-formed queues and objects, the list `ts p` of triggers of each
-- variable, at most as many routines as the activation queue holds, limits above the size of the
-- structures, and no event in the past.
pub record TickInv (l : Limits) (u : List ℕ) (rank : ℕ → ℕ) (ts : ℕ → List ℕ) (s : State)
    : Type 0 where
  pub events : EventInv s
  pub acts : ActInv s
  pub roster : Roster u s
  pub sound : Sound rank s
  pub chains : (p : ℕ) → Chain s (s.sv p).triggers (ts p)
  pub listed : (p : ℕ) → Listed u s (ts p)
  pub short : (p : ℕ) → length (ts p) < l.triggers
  pub deep : (p : ℕ) → rank p ≤ l.depth
  pub clock : s.now ≤ never
  pub range : (p : ℕ) → later_time_in s p ≤ never
  pub future : (p : ℕ) → s.now ≤ later_time_in s p

module _ (l : Limits) (u : List ℕ) (rank : ℕ → ℕ) (ts : ℕ → List ℕ) where
  -- The old value is dropped, with the variable still at the root.
  Dropped-root :
      (s : State)
      → TickInv l u rank ts s
      → 1 ≤ s.event_queue_len
      → later_time_in s (s.event_queue 1) ≡ s.now
      → (s' : State) × (drop l.depth (s.sv (s.event_queue 1)).value s ≡ ok s')
        × Dropped rank (rank (s.event_queue 1)) s s'
        × ActInv s'
        × Roster u s'
        × (s'.event_queue 1 ≡ s.event_queue 1)
        × (1 ≤ s'.event_queue_len)
  Dropped-root s inv occupied due =
      let r = s.event_queue 1 in
      let (s1, run, d) =
        drop-Dropped rank l.depth (rank r) (s.sv r).value s
          (λ e. omega (arith, inv.sound.values r e, inv.deep r)) (inv.sound.values r) inv.events
          inv.sound in
      (
        s1,
        run,
        d,
        subst ActInv (sym d.frame) (record {
          heap = inv.acts.heap;
          counted = inv.acts.counted;
          bounded = inv.acts.bounded;
        }),
        subst (Roster u) (sym d.frame)
            (record { small = inv.roster.small; listed = inv.roster.listed }),
        d.root (omega arith),
        ground (
          arith,
          root_pending s inv.events,
          d.kept r,
          d.inv.counted r,
          count_none s1.event_queue s1.event_queue_len r,
        ),
      )

  -- What one round of the loop does to the variable `r`, and what it may do to the others: a variable
  -- that is freed with the old value loses its event.
  pub record Fired (r : ℕ) (s s' : State) : Type 0 where
    pub tick : TickInv l u rank ts s'
    pub now : s'.now ≡ s.now
    pub tables : s'.trigger ≡ s.trigger
    pub fewer : s'.event_queue_len < s.event_queue_len
    pub updated :
        s'.sv r
        ≡ record (s.sv r) { value = (s.sv r).later_value; last_updated = s.now; later_time = never }
    pub others : (p : ℕ) → p ≢ r → s'.sv p ≡ record (s.sv p) { later_time = later_time_in s' p }
    pub times :
        (p : ℕ) → p ≢ r → (later_time_in s' p ≡ later_time_in s p) ⊎ (later_time_in s' p ≡ never)
    pub woken :
        (a : ℕ) → (s'.act a).scheduled ≡ ((s.act a).scheduled || wakes s (λ _. true) (ts r) a)

  -- the state between the drop and the wake-up
  abbrev stored : ℕ → State → State
  stored r s =
      put_sv r
        (record (s.sv r) { value = (s.sv r).later_value; last_updated = s.now; later_time = never })
        s

  stored-EventRootGone :
      (r : ℕ) (s : State)
      → EventInv s
      → pending s r ≡ true
      → s.event_queue 1 ≡ r
      → 1 ≤ s.event_queue_len
      → EventRootGone (stored r s)
  stored-EventRootGone r s inv due root occupied = record {
    below = λ i a b c.
        ground (arith, inv.heap i, other_place r s i 1 inv, other_place r s (i / 2) 1 inv);
    counted = λ p. ground (arith, inv.counted p);
    occupied = occupied;
    bounded = inv.bounded;
  }

  -- the states of one round: after the drop, the wake-up and the removal
  module _ (s s1 s3 s4 : State) (r : ℕ) (inv : TickInv l u rank ts s) (due : pending s1 r ≡ true)
      (d : Dropped rank (rank r) s s1) (w : Woken (λ _. true) (ts r) (stored r s1) s3)
      (roster : Roster u s3) (events : EventInv s4)
      (frame : s4 ≡ record s3 {
        event_queue = s4.event_queue;
        event_queue_len = s3.event_queue_len - 1;
      }) where
    round_sv : (p : ℕ) → s4.sv p ≡ (stored r s1).sv p
    round_sv p = ap (λ (t : State). t.sv p) frame ∙ ap (λ (t : State). t.sv p) w.only.frame

    round_trigger : s4.trigger ≡ s.trigger
    round_trigger =
        ap (λ (t : State). t.trigger) frame
        ∙ ap (λ (t : State). t.trigger) w.only.frame
        ∙ ap (λ (t : State). t.trigger) d.frame

    round_now : s4.now ≡ s.now
    round_now =
        ap (λ (t : State). t.now) frame
        ∙ ap (λ (t : State). t.now) w.only.frame
        ∙ ap (λ (t : State). t.now) d.frame

    round_Sound : Sound rank s4
    round_Sound =
        let before = Dropped-Sound rank (rank r) s s1 inv.sound d in
        let same_mm = ap (λ (t : State). t.mm) frame ∙ ap (λ (t : State). t.mm) w.only.frame in
        let same_payload =
          ap (λ (t : State). t.payload) frame ∙ ap (λ (t : State). t.payload) w.only.frame in
        record {
          kinds = λ p. rw same_mm (before.kinds p);
          payloads = λ p i. rw (same_mm, same_payload) (before.payloads p i);
          values = λ p e. ground (arith, round_sv p, before.values p, before.laters r due);
          laters = λ p h e. ground (arith, round_sv p, before.laters p);
        }

    round_TickInv : TickInv l u rank ts s4
    round_TickInv = record {
      events = events;
      acts =
          subst ActInv (sym frame)
            (record { heap = w.inv.heap; counted = w.inv.counted; bounded = w.inv.bounded });
      roster =
          subst (Roster u) (sym frame) (record { small = roster.small; listed = roster.listed });
      sound = round_Sound;
      chains = λ p.
          let same : (s4.sv p).triggers ≡ (s.sv p).triggers =
            ground (arith, round_sv p, d.vars p, d.vars r) in
          rw same (Chain-same s s4 (s.sv p).triggers (ts p) round_trigger (inv.chains p));
      listed = λ p. Listed-same u s s4 (ts p) round_trigger (inv.listed p);
      short = inv.short;
      deep = inv.deep;
      range = λ p. ground (arith, round_sv p, inv.range p, d.times p);
      clock = omega (arith, round_now, inv.clock);
      future = λ p. ground (arith, round_now, round_sv p, inv.future p, inv.clock, d.times p);
    }

    round-Fired : (s3.event_queue_len ≡ s1.event_queue_len) → 1 ≤ s1.event_queue_len → Fired r s s4
    round-Fired len occupied = record {
      tick = round_TickInv;
      now = round_now;
      tables = round_trigger;
      fewer = omega (arith, ap (λ (t : State). t.event_queue_len) frame, len, d.shorter, occupied);
      updated = ground (arith, round_sv r, d.vars r, ap (λ (t : State). t.now) d.frame);
      others = λ p h. ground (arith, round_sv p, d.vars p);
      times = λ p h. ground (arith, round_sv p, d.times p);
      woken = λ a. ground (
        arith,
        ap (λ (t : State). t.act a) frame,
        w.marked a,
        ap (λ (t : State). t.act a) d.frame,
        wakes-same s (stored r s1) (λ _. true) (ts r) a (ap (λ (t : State). t.trigger) d.frame)
            (ap (λ (t : State). t.act) d.frame),
      );
    }

  round_run :
      (s s1 s3 s4 : State) (r : ℕ)
      → later_time_in s r ≡ s.now
      → drop l.depth (s.sv r).value s ≡ ok s1
      → activate_triggers l.triggers (λ _. true) (s1.sv r).triggers (stored r s1) ≡ ok s3
      → event_queue_pop s3 ≡ ok s4
      → (sv_update l r s >>= event_queue_pop) ≡ ok s4
  unfolding sv_update
  round_run s s1 s3 s4 r due run1 run3 run4 = ground arith

  -- Where the tick invariant holds and the root of the event queue is due at `now`, its update and
  -- the removal of its event return and keep the tick invariant. The variable takes its later
  -- value, and exactly the routines of its triggers are added to the scheduled ones. Of other
  -- variables no more changes than that an event may be lost, and the event queue is shorter.
  pub fire :
      (s : State)
      → TickInv l u rank ts s
      → 1 ≤ s.event_queue_len
      → later_time_in s (s.event_queue 1) ≡ s.now
      → (s' : State) × ((sv_update l (s.event_queue 1) s >>= event_queue_pop) ≡ ok s')
        × Fired (s.event_queue 1) s s'
  fire s inv occupied due =
      let r = s.event_queue 1 in
      let (s1, run1, d, acts, roster, root, occupied1) = Dropped-root s inv occupied due in
      let due1 : pending s1 r ≡ true = ground (arith, root_pending s inv.events, d.kept r) in
      let s2 = stored r s1 in
      let same : (s1.sv r).triggers ≡ (s.sv r).triggers = ground (arith, d.vars r) in
      let tables : s1.trigger ≡ s.trigger = ap (λ (t : State). t.trigger) d.frame in
      let listed = Listed-same u s s2 (ts r) tables (inv.listed r) in
      let roster2 : Roster u s2 = record { small = roster.small; listed = roster.listed } in
      let (s3, run3, w) =
        activate_triggers-Woken u l.triggers (λ _. true) (ts r) (s1.sv r).triggers s2 (inv.short r)
          (rw same (Chain-same s s2 (s.sv r).triggers (ts r) tables (inv.chains r)))
          (record { heap = acts.heap; counted = acts.counted; bounded = acts.bounded }) roster2
          listed in
      let gone2 = stored-EventRootGone r s1 d.inv due1 root occupied1 in
      let gone3 : EventRootGone s3 = subst EventRootGone (sym w.only.frame) (record {
        below = gone2.below;
        counted = gone2.counted;
        occupied = gone2.occupied;
        bounded = gone2.bounded;
      }) in
      let (s4, run4, events, frame) = event_queue_pop-EventInv s3 gone3 in
      (
        s4,
        round_run s s1 s3 s4 r due run1 run3 run4,
        round-Fired s s1 s3 s4 r inv due1 d w
            (Woken-Roster u (λ _. true) (ts r) s2 s3 roster2 listed w) events frame
            (ap (λ (t : State). t.event_queue_len) w.only.frame) occupied1,
      )
