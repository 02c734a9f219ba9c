-- ===== src/Heap/Order.antt =====
-- The heap order, what a percolation needs of a heap with a hole, and that it restores the order.
use ssm_runtime.Base.{
  ℕ_discrete, ℕ, zero, suc, ◌+◌, ◌*◌, ◌/◌, ◌^◌, ◌≤◌, ◌<◌, ◌≡◌, ◌≢◌, arith, ◌&&◌, inl, inr, ltb,
  Bool-cases, update,
}
use ssm_runtime.Heap.{
  queue_head, Slots, up_loop, percolate_up, left_child, earlier_child, down_loop, percolate_down,
}

-- no pointer has a key below that of its parent
abbrev pub IsHeap : (ℕ → ℕ) → Slots → ℕ → Type 0
IsHeap key q len = (i : ℕ) → 2 ≤ i → i ≤ len → key (q (i / 2)) ≤ key (q i)

-- a heap but for the hole: what the hole holds does not count, and its children come after its parent
pub record HoleAt (key : ℕ → ℕ) (q : Slots) (len hole : ℕ) : Type 0 where
  pub edges : (i : ℕ) → 2 ≤ i → i ≤ len → i ≢ hole → i / 2 ≢ hole → key (q (i / 2)) ≤ key (q i)
  pub across : (i : ℕ) → 2 ≤ hole → i ≤ len → i / 2 ≡ hole → key (q (hole / 2)) ≤ key (q i)

-- `x` fits above the children of the hole, or below its parent
abbrev pub FitsAbove : (ℕ → ℕ) → Slots → (len hole x : ℕ) → Type 0
FitsAbove key q len hole x = (i : ℕ) → 2 ≤ i → i ≤ len → i / 2 ≡ hole → key x ≤ key (q i)

abbrev pub FitsBelow : (ℕ → ℕ) → Slots → (hole x : ℕ) → Type 0
FitsBelow key q hole x = 2 ≤ hole → key (q (hole / 2)) ≤ key x

left_child_lem : (hole : ℕ) → hole < 2 ^ 15 → left_child hole ≡ hole * 2
unfolding left_child
left_child_lem hole h = omega arith

module _ (key : ℕ → ℕ) where
  -- the step of a percolation towards the root
  HoleAt-rise :
      (q : Slots) (len hole : ℕ)
      → 2 ≤ hole
      → hole ≤ len
      → HoleAt key q len hole
      → HoleAt key (update q hole (q (hole / 2))) len (hole / 2)
  HoleAt-rise q len hole a b h = record {
    edges = λ i c d e f. ground (arith, h.edges i, h.across i);
    across = λ i c d e. ground (arith, h.edges i, h.edges (hole / 2));
  }

  -- `x` closes a hole where it fits on both sides
  IsHeap-fill :
      (q : Slots) (len hole x : ℕ)
      → HoleAt key q len hole
      → FitsAbove key q len hole x
      → FitsBelow key q hole x
      → IsHeap key (update q hole x) len
  IsHeap-fill q len hole x h above below i a b = ground (arith, h.edges i, above i, below)

  up_loop-IsHeap :
      (fuel : ℕ) (q : Slots) (len hole x : ℕ)
      → hole ≤ fuel
      → 1 ≤ hole
      → hole ≤ len
      → HoleAt key q len hole
      → FitsAbove key q len hole x
      → IsHeap key (up_loop fuel key q hole x) len
  unfolding up_loop
  up_loop-IsHeap zero q len hole x f a b h above = absurd (omega arith)
  up_loop-IsHeap (suc fuel) q len hole x f a b h above =
      elim (Bool-cases (ltb queue_head hole && ltb (key x) (key (q (hole / 2))))) [
        | inl more ↦ rw more (
            up_loop-IsHeap fuel (update q hole (q (hole / 2))) len (hole / 2) x (ground arith)
              (ground arith) (ground arith) (HoleAt-rise q len hole (ground arith) b h)
              (λ i c d e. ground (arith, h.edges i)))
        | inr done ↦ rw done (IsHeap-fill q len hole x h above (λ c. ground arith))
      ]

  -- the step of a percolation towards the leaves
  HoleAt-sink :
      (q : Slots) (len hole child : ℕ)
      → 1 ≤ hole
      → 2 ≤ child
      → child / 2 ≡ hole
      → HoleAt key q len hole
      → FitsAbove key q len hole (q child)
      → child ≤ len
      → HoleAt key (update q hole (q child)) len child
  HoleAt-sink q len hole child a b c h least d = record {
    edges = λ i c' d' e f. ground (arith, h.edges i, least i, h.across child);
    across = λ i c' d' e. ground (arith, h.edges i);
  }

  earlier_child_least :
      (q : Slots) (len hole : ℕ)
      → 1 ≤ hole
      → len < 2 ^ 15
      → left_child hole ≤ len
      → hole ≤ len
      → (hole < earlier_child key q len hole)
        × (earlier_child key q len hole ≤ len)
        × (earlier_child key q len hole / 2 ≡ hole)
        × FitsAbove key q len hole (q (earlier_child key q len hole))
  unfolding earlier_child left_child
  earlier_child_least q len hole a b c d = (
    ground arith,
    ground arith,
    ground arith,
    λ i e f g. elim (ℕ_discrete i (hole * 2)) [
      | yes even ↦ rw even (ground arith)
      | no odd ↦ let right : i ≡ hole * 2 + 1 = omega arith in rw right (ground arith)
    ],
  )

  down_loop-IsHeap :
      (fuel : ℕ) (q : Slots) (len hole x : ℕ)
      → len < hole + fuel
      → 1 ≤ hole
      → hole ≤ len
      → len < 2 ^ 15
      → HoleAt key q len hole
      → FitsBelow key q hole x
      → IsHeap key (down_loop fuel key q len hole x) len
  unfolding down_loop
  down_loop-IsHeap zero q len hole x f a b c h below = absurd (omega arith)
  down_loop-IsHeap (suc fuel) q len hole x f a b c h below =
      elim (Bool-cases (ltb len (left_child hole))) [
        | inl leaf ↦ rw leaf (
            IsHeap-fill q len hole x h (λ i d e g. absurd (ground (arith, left_child_lem hole)))
              below)
        | inr inner ↦
            let (lower, inside, parent, least) =
              earlier_child_least q len hole a c (ground arith) b in
            elim (Bool-cases (ltb (key x) (key (q (earlier_child key q len hole))))) [
              | inl done ↦
                  rw (inner, done)
                    (IsHeap-fill q len hole x h (λ i d e g. ground (arith, least i)) below)
              | inr more ↦
                  rw (inner, more)
                    (down_loop-IsHeap fuel _ len _ x (omega arith) (omega arith) inside c
                      (HoleAt-sink q len hole _ a (omega arith) parent h least inside)
                      (λ d. ground arith))
            ]
      ]

  -- Percolating a pointer up from a hole gives a heap, if the queue is a heap but for the hole and
  -- the pointer's key is at most those of the hole's children.
  pub percolate_up-IsHeap :
      (q : Slots) (len hole x : ℕ)
      → 1 ≤ hole
      → hole ≤ len
      → HoleAt key q len hole
      → FitsAbove key q len hole x
      → IsHeap key (percolate_up key q hole x) len
  unfolding percolate_up
  percolate_up-IsHeap q len hole x a b = up_loop-IsHeap hole q len hole x (omega arith) a b

  -- Percolating a pointer down from a hole gives a heap, if the queue, of fewer than 2^15 entries,
  -- is a heap but for the hole and the pointer's key is at least that of the hole's parent.
  pub percolate_down-IsHeap :
      (q : Slots) (len hole x : ℕ)
      → 1 ≤ hole
      → hole ≤ len
      → len < 2 ^ 15
      → HoleAt key q len hole
      → FitsBelow key q hole x
      → IsHeap key (percolate_down key q len hole x) len
  unfolding percolate_down
  percolate_down-IsHeap q len hole x a b = down_loop-IsHeap len q len hole x (omega arith) a b

  -- a heap is one with a hole anywhere, whatever becomes of the key at the hole
  pub IsHeap-HoleAt :
      (key' : ℕ → ℕ) (q : Slots) (len hole : ℕ)
      → 1 ≤ hole
      → hole ≤ len
      → IsHeap key' q len
      → ((i : ℕ) → 1 ≤ i → i ≤ len → i ≢ hole → key (q i) ≡ key' (q i))
      → HoleAt key q len hole
  IsHeap-HoleAt key' q len hole a b h same = record {
    edges = λ i c d e f. ground (arith, h i, same i, same (i / 2));
    across = λ i c d e. ground (arith, h i, h hole, same i, same (hole / 2));
  }

  -- the place after the last one is a hole with no children
  pub IsHeap-HoleAt_end :
      (q : Slots) (len : ℕ) → IsHeap key q len → HoleAt key q (suc len) (suc len)
  IsHeap-HoleAt_end q len h = record {
    edges = λ i c d e f. h i c (omega arith);
    across = λ i c d e. absurd (omega arith);
  }

  pub root_least :
      (fuel : ℕ) (q : Slots) (len i : ℕ)
      → i < fuel
      → IsHeap key q len
      → 1 ≤ i
      → i ≤ len
      → key (q 1) ≤ key (q i)
  root_least zero q len i f h a b = absurd (omega arith)
  root_least (suc fuel) q len i f h a b = elim (ℕ_discrete i 1) [
    | yes e ↦ rw e (omega arith)
    | no e ↦ ground (arith, h i, root_least fuel q len (i / 2) (omega arith) h)
  ]

-- the order depends on the keys of pointers alone
pub IsHeap-keys :
    (key key' : ℕ → ℕ) (q : Slots) (len : ℕ)
    → ((p : ℕ) → key' p ≡ key p)
    → IsHeap key q len
    → IsHeap key' q len
IsHeap-keys key key' q len same h i a b = rw (same (q i), same (q (i / 2))) (h i a b)
