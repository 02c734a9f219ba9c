-- ===== src/Suite/Unscheduling.antt =====
-- `event_queue_unschedule_string` of test/test-scheduler.c for any text.
use ssm_runtime.Base.{
  ℕ, zero, suc, ◌+◌, ◌≤◌, ◌<◌, ◌≡◌, ◌≢◌, refl, sym, ap, ◌∙◌, true, false, List, [], ◌∷◌, ◌++◌, ok,
  arith, length, ℕ_discrete,
}
use ssm_runtime.State.{State, null, never, event_queue_size, later_time_in}
use ssm_runtime.Queues.{unschedule}
use ssm_runtime.Queues.Events.{pending}
use ssm_runtime.Queues.Events.Remove.{Unscheduled, unschedule-Unscheduled, unschedule_idle}
use ssm_runtime.Scheduler.{Limits}
use ssm_runtime.Scheduler.Join.{All}
use ssm_runtime.Suite.{
  events_checked, schedule_string, unschedule_first, unschedule_events, drain_events,
}
use ssm_runtime.Suite.Sorting.{occurrences, sort}
use ssm_runtime.Suite.Tally.{tally, Apart, tally-cleared}
use ssm_runtime.Suite.Drain.{Events, Within, checked_run, drain_events-Ascending}
use ssm_runtime.Suite.Sort.{out-sort}
use ssm_runtime.Suite.Filling.{IsChar, AtTimes, Fresh, Fresh-Filled, schedule_string-Filled}

unschedule_round :
    (variables : ℕ → ℕ) (rounds i : ℕ) (s s1 : State)
    → unschedule (variables i) s ≡ ok s1
    → events_checked s1 ≡ ok s1
    → unschedule_first variables (suc rounds) i s ≡ unschedule_first variables rounds (i + 1) s1
unfolding unschedule_first
unschedule_round variables rounds i s s1 run check = rw (run, check) refl

unschedule_end : (variables : ℕ → ℕ) (i : ℕ) (s : State) → unschedule_first variables 0 i s ≡ ok s
unfolding unschedule_first
unschedule_end variables i s = refl

unschedule_events_run :
    (l : Limits) (variables : ℕ → ℕ) (input expected : List ℕ) (n : ℕ) (s s1 s2 s3 : State)
    → schedule_string l variables 0 input s ≡ ok s1
    → unschedule_first variables n 0 s1 ≡ ok s2
    → unschedule_first variables n 0 s2 ≡ ok s2
    → drain_events (suc s2.event_queue_len) expected s2 ≡ ok s3
    → unschedule_events l variables input n expected s ≡ ok s3
unfolding unschedule_events
unschedule_events_run l variables input expected n s s1 s2 s3 run1 run2 run3 run4 =
    rw (run1, run2, run3) run4

module _ (variables : ℕ → ℕ) where
  AtTimes-kept :
      (k : ℕ) (xs : List ℕ) (s s' : State)
      → ((i : ℕ)
          → k ≤ i
          → i < k + length xs
          → later_time_in s' (variables i) ≡ later_time_in s (variables i))
      → AtTimes variables k xs s
      → AtTimes variables k xs s'
  AtTimes-kept k [] s s' kept h = tt
  AtTimes-kept k (x ∷ xs) s s' kept h = (
    kept k (omega arith) (omega arith) ∙ h.0,
    AtTimes-kept (suc k) xs s s' (λ i a b. kept i (omega arith) (omega arith)) h.1,
  )

  AtTimes-start :
      (k : ℕ) (xs ys : List ℕ) (s : State)
      → AtTimes variables k (xs ++ ys) s
      → AtTimes variables k xs s
  AtTimes-start k [] ys s h = tt
  AtTimes-start k (x ∷ xs) ys s h = (h.0, AtTimes-start (suc k) xs ys s h.1)

  -- to unschedule variables without an event changes nothing
  unschedule_first-idle :
      (rounds k : ℕ) (s : State)
      → Events s
      → ((i : ℕ) → k ≤ i → i < k + rounds → pending s (variables i) ≡ false)
      → unschedule_first variables rounds k s ≡ ok s
  unschedule_first-idle zero k s events idle = unschedule_end variables k s
  unschedule_first-idle (suc rounds) k s events idle =
      unschedule_round variables rounds k s s
        (unschedule_idle (variables k) s (idle k (omega arith) (omega arith)))
        (checked_run s events)
      ∙ unschedule_first-idle rounds (k + 1) s events (λ i a b. idle i (omega arith) (omega arith))

  module _ (n : ℕ) (apart : Apart variables n) where
    Within-Unscheduled :
        (p : ℕ) (s s' : State)
        → Within variables n 0 s
        → Unscheduled p s s'
        → Within variables n 0 s'
    Within-Unscheduled p s s' w d =
        let before : (q : ℕ)
            → pending s' q ≡ true
            → (pending s q ≡ true) × (later_time_in s' q ≡ later_time_in s q) =
          λ q on. ground (arith, on, d.vars q) in
        record {
          events = record { inv = d.inv; real = λ q on. w.events.real q (before q on).0 };
          owned = λ q on. w.owned q (before q on).0;
          chars = λ q on. (omega arith, ground (arith, before q on, (w.chars q (before q on).0).1));
        }

    -- The first variables lose their events, and no others do.
    unschedule_first-Within :
        (xs : List ℕ) (k : ℕ) (s : State)
        → Within variables n 0 s
        → AtTimes variables k xs s
        → k + length xs ≤ n
        → (s' : State) × (unschedule_first variables (length xs) k s ≡ ok s')
          × Within variables n 0 s'
          × ((t : ℕ)
              → t ≢ never
              → occurrences t xs + tally variables t (later_time_in s') n
                ≡ tally variables t (later_time_in s) n)
          × ((i : ℕ) → k ≤ i → i < k + length xs → pending s' (variables i) ≡ false)
          × ((q : ℕ) → pending s q ≡ false → pending s' q ≡ false)
          × (s'.now ≡ s.now)
    unschedule_first-Within [] k s w times fits = (
      s,
      unschedule_end variables k s,
      w,
      λ t finite. omega arith,
      λ i a b. absurd (omega arith),
      λ q off. off,
      refl,
    )
    unschedule_first-Within (x ∷ xs) k s w times fits =
        let (s1, run1, d) = unschedule-Unscheduled (variables k) s w.events.inv in
        let w1 = Within-Unscheduled (variables k) s s1 w d in
        let gone : later_time_in s1 (variables k) ≡ never = ground (arith, d.vars (variables k)) in
        let others : (q : ℕ) → q ≢ variables k → later_time_in s1 q ≡ later_time_in s q =
          λ q f. ground (arith, d.vars q) in
        let times1 =
          AtTimes-kept (suc k) xs s s1
            (λ i a b. others (variables i) (apart i k (omega arith) (omega arith) (omega arith)))
            times.1 in
        let (s2, run2, w2, counted, idle, off, now2) =
          unschedule_first-Within xs (suc k) s1 w1 times1 (omega arith) in
        let next : k + 1 ≡ suc k = omega arith in
        (
          s2,
          unschedule_round variables (length xs) k s s1 run1 (checked_run s1 w1.events)
              ∙ ap (λ j. unschedule_first variables (length xs) j s1) next
              ∙ run2,
          w2,
          λ t finite.
              let cleared =
                tally-cleared variables t n k (variables k) (later_time_in s) (later_time_in s1)
                  finite apart (omega arith) refl gone others in
              ground (arith, cleared, counted t finite, times.0),
          λ i a b. elim (ℕ_discrete i k) [
            | yes e ↦ off (variables i) (ground (arith, gone, ap variables e))
            | no f ↦ idle i (omega arith) (omega arith)
          ],
          λ q idle. off q (ground (arith, d.vars q, idle)),
          now2 ∙ ap (λ (t : State). t.now) d.only,
        )

occurrences-append :
    (t : ℕ) (xs ys : List ℕ) → occurrences t (xs ++ ys) ≡ occurrences t xs + occurrences t ys
occurrences-append t [] ys = omega arith
occurrences-append t (x ∷ xs) ys = omega (arith, occurrences-append t xs ys)

chars-end : (xs ys : List ℕ) → All IsChar (xs ++ ys) → All IsChar ys
chars-end [] ys h = h
chars-end (x ∷ xs) ys h = chars-end xs ys h.1

length-start : (xs ys : List ℕ) → length xs ≤ length (xs ++ ys)
length-start [] ys = omega arith
length-start (x ∷ xs) ys = omega (arith, length-start xs ys)

-- The test of test-scheduler.c that unschedules the first events of a text passes for every text of ASCII
-- characters that fits the event queue: from a state with no event at time 0, with a variable other than NULL for each
-- character, no two the same, where the events of a first part are taken off again, and once more to no effect, the
-- events of the rest leave the queue in the order of sorting, each once, every check of the queue passes, and the queue is
-- empty at the end.
pub unschedule_events-sort :
    (l : Limits) (variables : ℕ → ℕ) (xs ys : List ℕ) (s : State)
    → 1 ≤ l.depth
    → length (xs ++ ys) ≤ event_queue_size
    → All IsChar (xs ++ ys)
    → Apart variables (length (xs ++ ys))
    → ((i : ℕ) → i < length (xs ++ ys) → variables i ≢ null)
    → Fresh s
    → (s' : State) × (unschedule_events l variables (xs ++ ys) (length xs) (sort ys) s ≡ ok s')
      × Fresh s'
unschedule_events-sort l variables xs ys s deep room chars apart real fresh =
    let n = length (xs ++ ys) in
    let (s1, run1, f1, counted1, times1, kept1) =
      schedule_string-Filled l deep variables n apart real (xs ++ ys) 0 s
        (Fresh-Filled l deep variables n apart real s fresh) (omega arith) room chars in
    let (s2, run2, w2, counted2, idle2, off2, now2) =
      unschedule_first-Within variables n apart xs 0 s1 f1.within
        (AtTimes-start variables 0 xs ys s1 times1) (omega (arith, length-start xs ys)) in
    let run3 = unschedule_first-idle variables (length xs) 0 s2 w2.events idle2 in
    let (out, s3, run4, ascending, counted4, small, events, empty, now4) =
      drain_events-Ascending variables n apart (suc s2.event_queue_len) 0 s2 (omega arith) w2 in
    let sorted = out-sort ys out (chars-end xs ys chars) small ascending (λ t finite. omega (
      arith,
      counted1 t finite,
      counted2 t finite,
      counted4 t finite,
      occurrences-append t xs ys,
    )) in
    (
      s3,
      unschedule_events_run l variables (xs ++ ys) (sort ys) (length xs) s s1 s2 s3 run1 run2 run3
          (ap (λ zs. drain_events (suc s2.event_queue_len) zs s2) (sym sorted) ∙ run4),
      record { inv = events.inv; empty = empty; start = now4 ∙ now2 ∙ f1.start },
    )
