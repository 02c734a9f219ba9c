-- ===== src/Heap/Count.antt =====
-- How often a pointer stands in a heap, and that a percolation moves pointers and loses none.
use ssm_runtime.Base.{ℕ, zero, suc, ◌+◌, ◌/◌, ◌^◌, ◌≤◌, ◌<◌, ◌≡◌, ◌≢◌, refl, arith, update, one_if}
use ssm_runtime.Heap.{
  Slots, up_loop, percolate_up, left_child, earlier_child, down_loop, percolate_down,
}

-- the number of the indices from 1 to `n` that hold `p`
unfoldable pub count : Slots → ℕ → ℕ → ℕ
count q zero p = 0
count q (suc n) p = one_if (q (suc n)) p + count q n p

-- a write beyond the end is not counted
pub count-update_above : (q : Slots) (h v n p : ℕ) → n < h → count (update q h v) n p ≡ count q n p
unfolding count
count-update_above q h v zero p a = refl
count-update_above q h v (suc n) p a = ground (arith, count-update_above q h v n p)

pub count-update :
    (q : Slots) (h v n p : ℕ)
    → 1 ≤ h
    → h ≤ n
    → count (update q h v) n p + one_if (q h) p ≡ count q n p + one_if v p
unfolding count
count-update q h v zero p a b = absurd (omega arith)
count-update q h v (suc n) p a b =
    ground (arith, count-update q h v n p, count-update_above q h v n p)

-- a percolation towards the root trades the pointer at the hole for `x`
count-up_loop :
    (fuel : ℕ) (key : ℕ → ℕ) (q : Slots) (hole x len p : ℕ)
    → hole ≤ fuel
    → 1 ≤ hole
    → hole ≤ len
    → count (up_loop fuel key q hole x) len p + one_if (q hole) p ≡ count q len p + one_if x p
unfolding up_loop
count-up_loop zero key q hole x len p f a b = absurd (omega arith)
count-up_loop (suc fuel) key q hole x len p f a b = ground (
  arith,
  count-update q hole x len p,
  count-update q hole (q (hole / 2)) len p,
  count-up_loop fuel key (update q hole (q (hole / 2))) (hole / 2) x len p,
)

pub count-percolate_up :
    (key : ℕ → ℕ) (q : Slots) (hole x len p : ℕ)
    → 1 ≤ hole
    → hole ≤ len
    → count (percolate_up key q hole x) len p + one_if (q hole) p ≡ count q len p + one_if x p
unfolding percolate_up
count-percolate_up key q hole x len p a b = count-up_loop hole key q hole x len p (omega arith) a b

-- the child that a percolation descends to lies below the hole, and inside the heap
pub earlier_child_bounds :
    (key : ℕ → ℕ) (q : Slots) (len hole : ℕ)
    → 1 ≤ hole
    → hole ≤ len
    → len < 2 ^ 15
    → left_child hole ≤ len
    → (hole < earlier_child key q len hole) × (earlier_child key q len hole ≤ len)
unfolding earlier_child left_child
earlier_child_bounds key q len hole a b c d = ground arith

-- a percolation towards the leaves trades the pointer at the hole for `x`
count-down_loop :
    (fuel : ℕ) (key : ℕ → ℕ) (q : Slots) (len hole x p : ℕ)
    → len < hole + fuel
    → 1 ≤ hole
    → hole ≤ len
    → len < 2 ^ 15
    → count (down_loop fuel key q len hole x) len p + one_if (q hole) p ≡ count q len p + one_if x p
unfolding down_loop
count-down_loop zero key q len hole x p f a b c = absurd (omega arith)
count-down_loop (suc fuel) key q len hole x p f a b c = ground (
  arith,
  earlier_child_bounds key q len hole,
  count-update q hole x len p,
  count-update q hole (q (earlier_child key q len hole)) len p,
  count-down_loop fuel key (update q hole (q (earlier_child key q len hole))) len
      (earlier_child key q len hole) x p,
)

pub count-percolate_down :
    (key : ℕ → ℕ) (q : Slots) (len hole x p : ℕ)
    → 1 ≤ hole
    → hole ≤ len
    → len < 2 ^ 15
    → count (percolate_down key q len hole x) len p + one_if (q hole) p ≡ count q len p + one_if x p
unfolding percolate_down
count-percolate_down key q len hole x p a b c =
    count-down_loop len key q len hole x p (omega arith) a b c

-- distinct places count separately
pub count_place : (q : Slots) (n i p : ℕ) → 1 ≤ i → i ≤ n → one_if (q i) p ≤ count q n p
unfolding count
count_place q zero i p a b = absurd (omega arith)
count_place q (suc n) i p a b = ground (arith, count_place q n i p)

pub count_places :
    (q : Slots) (n i j p : ℕ)
    → 1 ≤ i
    → i < j
    → j ≤ n
    → one_if (q i) p + one_if (q j) p ≤ count q n p
unfolding count
count_places q zero i j p a b c = absurd (omega arith)
count_places q (suc n) i j p a b c = ground (arith, count_place q n i p, count_places q n i j p)

-- a pointer that stands once in a heap stands at no other place
pub count_once :
    (q : Slots) (n i j p : ℕ)
    → count q n p ≤ 1
    → 1 ≤ i
    → i ≤ n
    → 1 ≤ j
    → j ≤ n
    → q i ≡ p
    → j ≢ i
    → q j ≢ p
count_once q n i j p once a b c d e f g =
    ground (arith, count_places q n i j p, count_places q n j i p)

pub count_end : (q : Slots) (n p : ℕ) → count q (suc n) p ≡ one_if (q (suc n)) p + count q n p
unfolding count
count_end q n p = refl

pub count_none : (q : Slots) (n p : ℕ) → n ≡ 0 → count q n p ≡ 0
unfolding count
count_none q zero p e = refl
count_none q (suc n) p e = absurd (omega arith)
