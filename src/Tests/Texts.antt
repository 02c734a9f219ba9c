-- ===== src/Tests/Texts.antt =====
-- The tests that sort a text, at a concrete one.
use ssm_runtime.Base.{ℕ, ◌+◌, ◌*◌, ◌≡◌, List, [], ◌∷◌, ok, refl, arith}
use ssm_runtime.Heap.Count.{count}
use ssm_runtime.State.{State}
use ssm_runtime.Suite.{sort_events, unschedule_events}
use ssm_runtime.Suite.Tally.{Apart}
use ssm_runtime.Suite.Filling.{Fresh}
use ssm_runtime.Suite.Sort.{sort_events-sort}
use ssm_runtime.Suite.Unscheduling.{unschedule_events-sort}
use ssm_runtime.Examples.Start.{bounds, initial}

abbrev text : List ℕ
text = 67 ∷ 66 ∷ 65 ∷ []

abbrev place : ℕ → ℕ
place i = 64 + 64 * i

places-Apart : (n : ℕ) → Apart place n
places-Apart n i j a b differ = omega arith

initial-Fresh : Fresh initial
unfolding count
initial-Fresh = record {
  inv = record { heap = λ i a b. absurd (omega arith); counted = λ p. refl; bounded = omega arith };
  empty = refl;
  start = refl;
}

sort_events-sort_example :
    (s' : State) × (sort_events bounds place text (65 ∷ 66 ∷ 67 ∷ []) initial ≡ ok s') × Fresh s'
sort_events-sort_example =
    sort_events-sort bounds place text initial (omega arith) (omega arith) (ground arith)
      (places-Apart 3) (λ i a. omega arith) initial-Fresh

unschedule_events-sort_example :
    (s' : State) × (unschedule_events bounds place (68 ∷ text) 1 (65 ∷ 66 ∷ 67 ∷ []) initial
      ≡ ok s')
    × Fresh s'
unschedule_events-sort_example =
    unschedule_events-sort bounds place (68 ∷ []) text initial (omega arith) (omega arith)
      (ground arith) (places-Apart 4) (λ i a. omega arith) initial-Fresh
