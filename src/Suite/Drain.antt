-- ===== src/Suite/Drain.antt =====
-- The loop of test/test-scheduler.c that empties the event queue.
use ssm_runtime.Base.{
  ℕ, zero, suc, ◌-◌, ◌/◌, ◌%◌, ◌^◌, ◌≤◌, ◌<◌, ◌≡◌, ◌≢◌, refl, sym, ap, ◌∙◌, true, false, List, [],
  ◌∷◌, ok, ◌>>=◌, arith, inr, ℕ_discrete,
}
use ssm_runtime.Heap.Count.{count_place, count_none}
use ssm_runtime.State.{State, null, never, later_time_in, put_sv}
use ssm_runtime.Queues.Events.{EventInv, pending, root_pending, other_place, next_event_time-le}
use ssm_runtime.Queues.{next_event_time}
use ssm_runtime.Queues.Checks.{event_queue_consistency_check-Passes}
use ssm_runtime.Scheduler.{event_queue_pop}
use ssm_runtime.Scheduler.Pop.{EventRootGone, event_queue_pop-EventInv}
use ssm_runtime.Scheduler.Join.{All}
use ssm_runtime.Suite.{events_checked, drain_events}
use ssm_runtime.Suite.Tally.{Apart, tally, tally-idle, tally-cleared}
use ssm_runtime.Suite.Sorting.{Ascending, occurrences}

-- The event queue is well formed, and no variable with an event is NULL.
pub record Events (s : State) : Type 0 where
  pub inv : EventInv s
  pub real : (p : ℕ) → pending s p ≡ true → p ≢ null

place_pending :
    (s : State) (i : ℕ)
    → EventInv s
    → 1 ≤ i
    → i ≤ s.event_queue_len
    → pending s (s.event_queue i) ≡ true
place_pending s i inv a b = ground (
  arith,
  inv.counted (s.event_queue i),
  count_place s.event_queue s.event_queue_len i (s.event_queue i),
)

-- the check passes
pub checked_run : (s : State) → Events s → events_checked s ≡ ok s
checked_run s e =
    let pass = (event_queue_consistency_check-Passes s).1 (
      inr (
        e.inv.bounded,
        e.inv.heap,
        λ i a b.
            let on = place_pending s i e.inv a b in
            (e.real (s.event_queue i) on, ground (arith, on)),
      )) in
    ap (λ r. r >>= λ u. ok s) pass

-- the root loses its time
abbrev pub cleared : State → State
cleared s = let root = s.event_queue 1 in put_sv root (record (s.sv root) { later_time = never }) s

cleared-EventRootGone : (s : State) → EventInv s → 1 ≤ s.event_queue_len → EventRootGone (cleared s)
cleared-EventRootGone s inv occupied =
    let on = root_pending s inv occupied in
    record {
      below = λ i a b c. ground (
        arith,
        inv.heap i a b,
        other_place (s.event_queue 1) s i 1 inv (omega arith) occupied refl (omega arith) b
            (omega arith),
        other_place (s.event_queue 1) s (i / 2) 1 inv (omega arith) occupied refl (omega arith)
            (omega arith) c,
      );
      counted = λ p. ground (arith, inv.counted p, on);
      occupied = occupied;
      bounded = inv.bounded;
    }

-- a round of the loop: the root goes, and the next queue is well formed
popped_run :
    (s : State)
    → Events s
    → 1 ≤ s.event_queue_len
    → (s' : State) × (event_queue_pop (cleared s) ≡ ok s')
      × Events s'
      × (suc s'.event_queue_len ≡ s.event_queue_len)
      × (s'.sv ≡ (cleared s).sv)
      × (s'.now ≡ s.now)
popped_run s e occupied =
    let (s', run, inv, frame) =
      event_queue_pop-EventInv (cleared s) (cleared-EventRootGone s e.inv occupied) in
    let same : s'.sv ≡ (cleared s).sv = ap (λ (t : State). t.sv) frame in
    let shorter : s'.event_queue_len ≡ s.event_queue_len - 1 =
      ap (λ (t : State). t.event_queue_len) frame in
    (
      s',
      run,
      record { inv = inv; real = λ p on. e.real p (ground (arith, on, same)) },
      omega (arith, shorter),
      same,
      ap (λ (t : State). t.now) frame,
    )

drain_round :
    (fuel c : ℕ) (out : List ℕ) (s s1 : State)
    → 1 ≤ s.event_queue_len
    → later_time_in s (s.event_queue 1) ≡ c
    → c < 2 ^ 8
    → event_queue_pop (cleared s) ≡ ok s1
    → events_checked s1 ≡ ok s1
    → drain_events (suc fuel) (c ∷ out) s ≡ drain_events fuel out s1
unfolding drain_events
drain_round fuel c out s s1 occupied at small run check =
    let same : c % 2 ^ 8 ≡ c = omega arith in ground (arith, occupied, at, same, run, check)

drain_end :
    (fuel : ℕ) (expected : List ℕ) (s : State)
    → s.event_queue_len ≡ 0
    → drain_events (suc fuel) expected s ≡ ok s
unfolding drain_events
drain_end fuel expected s empty = ground (arith, empty)

-- no event is before the root's
root_first :
    (s : State) (p : ℕ)
    → EventInv s
    → pending s p ≡ true
    → 1 ≤ s.event_queue_len
    → later_time_in s (s.event_queue 1) ≤ later_time_in s p
unfolding next_event_time
root_first s p inv on occupied = ground (arith, next_event_time-le s p inv on, occupied)

pub empty_idle : (s : State) (p : ℕ) → EventInv s → s.event_queue_len ≡ 0 → pending s p ≡ false
empty_idle s p inv e = ground (arith, inv.counted p, count_none s.event_queue s.event_queue_len p)

module _ (variables : ℕ → ℕ) where
  -- The pending variables are among the first `n`, at times that are characters from `least` on.
  pub record Within (n least : ℕ) (s : State) : Type 0 where
    pub events : Events s
    pub owned : (p : ℕ) → pending s p ≡ true → (i : ℕ) × (i < n) × (variables i ≡ p)
    pub chars :
        (p : ℕ) → pending s p ≡ true → (least ≤ later_time_in s p) × (later_time_in s p < 2 ^ 8)

  module _ (n : ℕ) (apart : Apart variables n) where
    -- the queue after a round
    Within-popped :
        (least : ℕ) (s s' : State)
        → Within n least s
        → 1 ≤ s.event_queue_len
        → Events s'
        → s'.sv ≡ (cleared s).sv
        → Within n (later_time_in s (s.event_queue 1)) s'
    Within-popped least s s' w occupied events same =
        let before : (p : ℕ)
            → pending s' p ≡ true
            → (pending s p ≡ true) × (later_time_in s' p ≡ later_time_in s p) =
          λ p on. ground (arith, on, same) in
        record {
          events = events;
          owned = λ p on. w.owned p (before p on).0;
          chars = λ p on. (
            ground (arith, before p on, root_first s p w.events.inv (before p on).0 occupied),
            ground (arith, before p on, (w.chars p (before p on).0).1),
          );
        }

    -- The loop takes the events off in the order of their times, each once.
    pub drain_events-Ascending :
        (fuel least : ℕ) (s : State)
        → s.event_queue_len < fuel
        → Within n least s
        → (out : List ℕ) × (s' : State) × (drain_events fuel out s ≡ ok s')
          × Ascending least out
          × ((t : ℕ) → t ≢ never → occurrences t out ≡ tally variables t (later_time_in s) n)
          × All (λ c. c < 2 ^ 8) out
          × Events s'
          × (s'.event_queue_len ≡ 0)
          × (s'.now ≡ s.now)
    drain_events-Ascending zero least s enough w = absurd (omega arith)
    drain_events-Ascending (suc fuel) least s enough w = elim (ℕ_discrete s.event_queue_len 0) [
      | yes e ↦ (
        [],
        s,
        drain_end fuel [] s e,
        tt,
        λ t finite. sym (
            tally-idle variables t n (later_time_in s) finite
              (λ i a. ground (arith, empty_idle s (variables i) w.events.inv e))),
        tt,
        w.events,
        e,
        refl,
      )
      | no e ↦
          let occupied : 1 ≤ s.event_queue_len = omega (arith, e) in
          let root = s.event_queue 1 in
          let c = later_time_in s root in
          let on = root_pending s w.events.inv occupied in
          let (s1, run, events, shorter, same, now1) = popped_run s w.events occupied in
          let w1 = Within-popped least s s1 w occupied events same in
          let (out, s2, run2, ascending, counted, small, events2, empty, now2) =
            drain_events-Ascending fuel c s1 (omega (arith, shorter)) w1 in
          let (k, below, at) = w.owned root on in
          (
            c ∷ out,
            s2,
            drain_round fuel c out s s1 occupied refl (w.chars root on).1 run
                  (checked_run s1 events)
                ∙ run2,
            ((w.chars root on).0, ascending),
            λ t finite. ground (
              arith,
              counted t finite,
              tally-cleared variables t n k root (later_time_in s) (later_time_in s1) finite apart
                  below at (ground (arith, same)) (λ q f. ground (arith, same, f)),
            ),
            ((w.chars root on).1, small),
            events2,
            empty,
            now2 ∙ now1,
          )
    ]
