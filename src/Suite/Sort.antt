-- ===== src/Suite/Sort.antt =====
-- `event_queue_sort_string` of test/test-scheduler.c for any text.
use ssm_runtime.Base.{
  ℕ, suc, ◌^◌, ◌≤◌, ◌<◌, ◌≡◌, ◌≢◌, sym, ap, ◌∙◌, List, [], ◌∷◌, ok, arith, length, ℕ_discrete,
}
use ssm_runtime.State.{State, null, never, event_queue_size}
use ssm_runtime.Scheduler.{Limits}
use ssm_runtime.Scheduler.Join.{All}
use ssm_runtime.Suite.{schedule_string, drain_events, sort_events}
use ssm_runtime.Suite.Sorting.{
  Ascending, occurrences, sort, Ascending-sort, occurrences-sort, Ascending-unique,
}
use ssm_runtime.Suite.Tally.{Apart}
use ssm_runtime.Suite.Drain.{drain_events-Ascending}
use ssm_runtime.Suite.Filling.{IsChar, Fresh, Fresh-Filled, schedule_string-Filled}

sort_run :
    (l : Limits) (variables : ℕ → ℕ) (input expected : List ℕ) (s s1 s2 : State)
    → s.event_queue_len ≡ 0
    → schedule_string l variables 0 input s ≡ ok s1
    → drain_events (suc s1.event_queue_len) expected s1 ≡ ok s2
    → sort_events l variables input expected s ≡ ok s2
unfolding sort_events
sort_run l variables input expected s s1 s2 empty run1 run2 = ground (arith, empty, run1, run2)

small_finite : (t : ℕ) (xs : List ℕ) → All (λ c. c < 2 ^ 8) xs → 1 ≤ occurrences t xs → t ≢ never
small_finite t [] h once = absurd (omega arith)
small_finite t (x ∷ xs) h once = ground (arith, h.0, small_finite t xs h.1)

All-small : (xs : List ℕ) → All IsChar xs → All (λ c. c < 2 ^ 8) xs
All-small [] h = tt
All-small (x ∷ xs) h = (omega (arith, h.0.1), All-small xs h.1)

-- what comes out in order is the sorted text
pub out-sort :
    (input out : List ℕ)
    → All IsChar input
    → All (λ c. c < 2 ^ 8) out
    → Ascending 0 out
    → ((t : ℕ) → t ≢ never → occurrences t out ≡ occurrences t input)
    → out ≡ sort input
out-sort input out chars small ascending counted =
    Ascending-unique 0 0 out (sort input) ascending (Ascending-sort input) (λ t.
      elim (ℕ_discrete t never) [
        | yes e ↦ ground (
          arith,
          e,
          occurrences-sort t input,
          small_finite t out small,
          small_finite t input (All-small input chars),
        )
        | no f ↦ counted t f ∙ sym (occurrences-sort t input)
      ])

-- The test of test-scheduler.c that sorts a text passes for every text of ASCII characters that fits the event
-- queue, not only for the few that it is run on: from a state with no event at time 0, with a variable other than
-- NULL for each character, no two the same, the events that are scheduled in the order of the text leave the queue in
-- the order of sorting, each once, every check of the queue passes, and the queue is empty at the end.
pub sort_events-sort :
    (l : Limits) (variables : ℕ → ℕ) (input : List ℕ) (s : State)
    → 1 ≤ l.depth
    → length input ≤ event_queue_size
    → All IsChar input
    → Apart variables (length input)
    → ((i : ℕ) → i < length input → variables i ≢ null)
    → Fresh s
    → (s' : State) × (sort_events l variables input (sort input) s ≡ ok s') × Fresh s'
sort_events-sort l variables input s deep room chars apart real fresh =
    let n = length input in
    let (s1, run1, f1, counted1, times1, kept1) =
      schedule_string-Filled l deep variables n apart real input 0 s
        (Fresh-Filled l deep variables n apart real s fresh) (omega arith) room chars in
    let (out, s2, run2, ascending, counted2, small, events, empty, now2) =
      drain_events-Ascending variables n apart (suc s1.event_queue_len) 0 s1 (omega arith)
        f1.within in
    let sorted =
      out-sort input out chars small ascending
        (λ t finite. omega (arith, counted1 t finite, counted2 t finite)) in
    (
      s2,
      sort_run l variables input (sort input) s s1 s2 fresh.empty run1
          (ap (λ xs. drain_events (suc s1.event_queue_len) xs s1) (sym sorted) ∙ run2),
      record { inv = events.inv; empty = empty; start = now2 ∙ f1.start },
    )
