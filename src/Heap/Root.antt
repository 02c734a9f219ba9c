-- ===== src/Heap/Root.antt =====
-- What a percolation below the root leaves alone: a pointer that comes no earlier than the root does
-- not displace it, since both percolations give way only to a strictly earlier entry.
use ssm_runtime.Base.{ℕ, zero, suc, ◌/◌, ◌≤◌, ◌<◌, ◌^◌, ◌≡◌, refl, arith, update}
use ssm_runtime.Heap.{
  Slots, up_loop, percolate_up, earlier_child, down_loop, percolate_down, reposition,
}
use ssm_runtime.Heap.Count.{earlier_child_bounds}

module _ (key : ℕ → ℕ) where
  up_loop_root :
      (fuel : ℕ) (q : Slots) (hole x : ℕ)
      → 2 ≤ hole
      → key (q 1) ≤ key x
      → up_loop fuel key q hole x 1 ≡ q 1
  unfolding up_loop
  up_loop_root zero q hole x a b = refl
  up_loop_root (suc fuel) q hole x a b =
      ground (arith, up_loop_root fuel (update q hole (q (hole / 2))) (hole / 2) x)

  -- a percolation towards the leaves writes at the hole and below it
  down_loop_above :
      (fuel : ℕ) (q : Slots) (len hole x i : ℕ)
      → 1 ≤ hole
      → hole ≤ len
      → len < 2 ^ 15
      → i < hole
      → down_loop fuel key q len hole x i ≡ q i
  unfolding down_loop
  down_loop_above zero q len hole x i a b c d = refl
  down_loop_above (suc fuel) q len hole x i a b c d = ground (
    arith,
    earlier_child_bounds key q len hole,
    down_loop_above fuel (update q hole (q (earlier_child key q len hole))) len
        (earlier_child key q len hole) x i,
  )

  pub reposition_root :
      (q : Slots) (len hole x : ℕ)
      → 2 ≤ hole
      → hole ≤ len
      → len < 2 ^ 15
      → key (q 1) ≤ key x
      → reposition key q len hole x 1 ≡ q 1
  unfolding reposition percolate_up percolate_down
  reposition_root q len hole x a b c d =
      ground (arith, up_loop_root hole q hole x, down_loop_above len q len hole x 1)
