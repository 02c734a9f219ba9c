-- ===== src/Heap/Reposition.antt =====
-- A pointer put at a place in the middle of a heap, by whichever percolation applies.
use ssm_runtime.Base.{
  ℕ, ◌+◌, ◌/◌, ◌^◌, ◌≤◌, ◌<◌, ◌≡◌, ◌||◌, inl, inr, arith, ltb, ◌==◌, one_if, Bool-cases,
}
use ssm_runtime.Heap.{Slots, queue_head, reposition}
use ssm_runtime.Heap.Count.{count, count-percolate_up, count-percolate_down}
use ssm_runtime.Heap.Order.{IsHeap, HoleAt, percolate_up-IsHeap, percolate_down-IsHeap}

module _ (key : ℕ → ℕ) (q : Slots) (len hole x : ℕ) (a : 1 ≤ hole) (b : hole ≤ len)
    (c : len < 2 ^ 15) where
  pub reposition-IsHeap : HoleAt key q len hole → IsHeap key (reposition key q len hole x) len
  unfolding reposition
  reposition-IsHeap h = elim (Bool-cases (hole == queue_head || ltb (key (q (hole / 2))) (key x))) [
    | inl down ↦ rw down (percolate_down-IsHeap key q len hole x a b c h (λ d. ground arith))
    | inr up ↦
        rw up (percolate_up-IsHeap key q len hole x a b h (λ i d e f. ground (arith, h.across i)))
  ]

  -- Putting a pointer into a hole of a queue of fewer than 2^15 entries replaces the pointer that
  -- the hole held by the new one, and keeps how often every pointer stands in the queue otherwise.
  pub count-reposition :
      (p : ℕ)
      → count (reposition key q len hole x) len p + one_if (q hole) p ≡ count q len p + one_if x p
  unfolding reposition
  count-reposition p = ground (
    arith,
    count-percolate_down key q len hole x p a b c,
    count-percolate_up key q hole x len p a b,
  )
