-- ===== src/Queues/Roster.antt =====
-- A bound on the activation queue: it never holds more entries than there are routines.
use ssm_runtime.Base.{
  ℕ, zero, suc, ◌+◌, ◌≤◌, ◌<◌, ◌≡◌, refl, true, false, List, [], ◌∷◌, arith, one_if, length,
}
use ssm_runtime.Heap.{Slots}
use ssm_runtime.Heap.Count.{count, count_place}
use ssm_runtime.State.{State, act_queue_size}
use ssm_runtime.Queues.Acts.{ActInv}

-- how often a routine stands in a list of routines
abbrev pub occurs : ℕ → List ℕ → ℕ
occurs a [] = 0
occurs a (b ∷ u) = one_if a b + occurs a u

-- All routines: at most as many as the queue has places. Each one that is scheduled is among them.
pub record Roster (u : List ℕ) (s : State) : Type 0 where
  pub small : length u ≤ act_queue_size
  pub listed : (a : ℕ) → (s.act a).scheduled ≡ true → occurs a u ≡ 1

count_all : Slots → ℕ → List ℕ → ℕ
count_all q n [] = 0
count_all q n (a ∷ u) = count q n a + count_all q n u

count_all_zero : (q : Slots) (u : List ℕ) → count_all q 0 u ≡ 0
unfolding count_all count
count_all_zero q [] = refl
count_all_zero q (a ∷ u) = omega (arith, count_all_zero q u)

count_all-suc :
    (q : Slots) (n : ℕ) (u : List ℕ)
    → count_all q (suc n) u ≡ occurs (q (suc n)) u + count_all q n u
unfolding count_all count
count_all-suc q n [] = refl
count_all-suc q n (a ∷ u) = omega (arith, count_all-suc q n u)

-- where each entry is in the list once, the list accounts for every place
count_all-eq :
    (q : Slots) (n : ℕ) (u : List ℕ)
    → ((i : ℕ) → 1 ≤ i → i ≤ n → occurs (q i) u ≡ 1)
    → count_all q n u ≡ n
count_all-eq q zero u h = count_all_zero q u
count_all-eq q (suc n) u h = omega (
  arith,
  count_all-suc q n u,
  h (suc n) (omega arith) (omega arith),
  count_all-eq q n u (λ i a b. h i a (omega arith)),
)

count_all-lt :
    (s : State) (a : ℕ) (u : List ℕ)
    → ActInv s
    → (count_all s.act_queue s.act_queue_len u ≤ length u)
      × ((s.act a).scheduled ≡ false
          → 1 ≤ occurs a u
          → count_all s.act_queue s.act_queue_len u < length u)
unfolding count_all
count_all-lt s a [] inv = (omega arith, λ idle h. absurd (omega arith))
count_all-lt s a (b ∷ u) inv =
    let (le, lt) = count_all-lt s a u inv in
    (ground (arith, inv.counted b), λ idle h. ground (arith, inv.counted b, le, lt idle))

-- the place of a scheduled routine
listed_place :
    (s : State) (u : List ℕ) (i : ℕ)
    → ActInv s
    → Roster u s
    → 1 ≤ i
    → i ≤ s.act_queue_len
    → occurs (s.act_queue i) u ≡ 1
listed_place s u i inv roster a b = ground (
  arith,
  inv.counted (s.act_queue i),
  count_place s.act_queue s.act_queue_len i (s.act_queue i),
  roster.listed (s.act_queue i),
)

-- Where every scheduled routine is one of at most as many distinct routines as the activation
-- queue has places, a routine of them that is not scheduled finds room in the queue.
pub Roster-room :
    (s : State) (u : List ℕ) (a : ℕ)
    → ActInv s
    → Roster u s
    → occurs a u ≡ 1
    → (s.act a).scheduled ≡ false
    → s.act_queue_len < act_queue_size
Roster-room s u a inv roster member idle =
    let all =
      count_all-eq s.act_queue s.act_queue_len u (λ i h k. listed_place s u i inv roster h k) in
    let below = (count_all-lt s a u inv).1 idle (omega arith) in
    omega (arith, all, below, roster.small)
