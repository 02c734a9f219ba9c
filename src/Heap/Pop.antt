-- ===== src/Heap/Pop.antt =====
-- Removal of the root: the last entry goes to the front and percolates towards the leaves.
use ssm_runtime.Base.{
  ℕ, suc, ◌+◌, ◌/◌, ◌≤◌, ◌<◌, ◌^◌, ◌≡◌, ◌≢◌, refl, arith, ◌==◌, if◌then◌else◌, one_if, ℕ_discrete,
}
use ssm_runtime.Heap.{Slots, queue_head, percolate_down}
use ssm_runtime.Heap.Count.{count, count_end, count_none, count-percolate_down}
use ssm_runtime.Heap.Order.{IsHeap, HoleAt, percolate_down-IsHeap}

-- the order of the entries below the root; what stands at the root does not count
abbrev pub IsHeapBelow : (ℕ → ℕ) → Slots → ℕ → Type 0
IsHeapBelow key q len = (i : ℕ) → 2 ≤ i → i ≤ len → i / 2 ≢ 1 → key (q (i / 2)) ≤ key (q i)

unfoldable pub pop_root : (ℕ → ℕ) → Slots → (n : ℕ) → Slots
pop_root key q n = if n == 0 then q else percolate_down key q n queue_head (q (suc n))

module _ (key : ℕ → ℕ) (q : Slots) (n : ℕ) (small : n < 2 ^ 15) where
  pub pop_root-IsHeap : IsHeapBelow key q (suc n) → IsHeap key (pop_root key q n) n
  unfolding pop_root
  pop_root-IsHeap h = elim (ℕ_discrete n 0) [
    | yes e ↦ λ i a b. absurd (omega arith)
    | no e ↦
        let hole : HoleAt key q n 1 = record {
          edges = λ i a b c d. h i a (omega arith) d;
          across = λ i a. absurd (omega arith);
        } in
        let below =
          percolate_down-IsHeap key q n 1 (q (suc n)) (omega arith) (omega arith) small hole
            (λ a. absurd (omega arith)) in
        λ i a b. ground (arith, below i)
  ]

  pub count-pop_root : (p : ℕ) → count (pop_root key q n) n p + one_if (q 1) p ≡ count q (suc n) p
  unfolding pop_root
  count-pop_root p = elim (ℕ_discrete n 0) [
    | yes e ↦ rw e (omega (arith, count_end q 0 p, count_none q 0 p refl))
    | no e ↦ ground (arith, count_end q n p, count-percolate_down key q n 1 (q (suc n)) p)
  ]
