-- ===== src/Heap/Search.antt =====
-- The linear search for a pointer in a heap.
use ssm_runtime.Base.{
  ℕ, zero, suc, ◌+◌, ◌≤◌, ◌<◌, ◌≡◌, ◌≢◌, refl, Option, none, some, arith, ℕ_discrete,
}
use ssm_runtime.Heap.{Slots, queue_head, find_loop, find}
use ssm_runtime.Heap.Count.{count}

find_loop_place :
    (rounds : ℕ) (q : Slots) (i x j : ℕ)
    → find_loop rounds q i x ≡ some j
    → (i ≤ j) × (j < i + rounds) × (q j ≡ x)
unfolding find_loop
find_loop_place zero q i x j e = absurd (ground arith)
find_loop_place (suc rounds) q i x j e = ground (arith, find_loop_place rounds q (i + 1) x j)

pub find_place : (q : Slots) (len x j : ℕ) → find q len x ≡ some j → (1 ≤ j) × (j ≤ len) × (q j ≡ x)
unfolding find
find_place q len x j e = ground (arith, find_loop_place len q queue_head x j)

find_loop_misses :
    (rounds : ℕ) (q : Slots) (i x j : ℕ)
    → find_loop rounds q i x ≡ none
    → i ≤ j
    → j < i + rounds
    → q j ≢ x
unfolding find_loop
find_loop_misses zero q i x j e a b = absurd (omega arith)
find_loop_misses (suc rounds) q i x j e a b = elim (ℕ_discrete i j) [
  | yes here ↦ rw (← here) (ground arith)
  | no further ↦ ground (arith, find_loop_misses rounds q (i + 1) x j)
]

absent_uncounted : (q : Slots) (n x : ℕ) → ((j : ℕ) → 1 ≤ j → j ≤ n → q j ≢ x) → count q n x ≡ 0
unfolding count
absent_uncounted q zero x away = refl
absent_uncounted q (suc n) x away =
    ground (arith, away (suc n), absent_uncounted q n x (λ j a b. away j a (omega arith)))

-- the search finds every pointer that stands in the heap
pub find_counted : (q : Slots) (len x : ℕ) → 1 ≤ count q len x → (j : ℕ) × (find q len x ≡ some j)
unfolding find
find_counted q len x h = go (find_loop len q queue_head x) refl
  where
    go : (r : Option ℕ) → find_loop len q queue_head x ≡ r → (j : ℕ) × (r ≡ some j)
    go none e = absurd (
        omega (
          arith,
          absent_uncounted q len x (λ j a b. find_loop_misses len q 1 x j e a (omega arith)),
        ))
    go (some j) e = (j, refl)
