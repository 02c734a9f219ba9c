-- ===== src/Heap.antt =====
-- The binary heaps of src/ssm-scheduler.c. Both queues of the scheduler are arrays of pointers
-- from index 1 on, ordered by a key that is read through the pointer: `later_time` of a scheduled
-- variable, `priority` of an activation record. The four percolation routines share their text but
-- for the key, and so they share the definitions here.
pub mod Count
pub mod Order
pub mod Search
pub mod Reposition
pub mod Root
pub mod Pop
use ssm_runtime.Base.{
  ℕ, zero, suc, ◌+◌, ◌*◌, ◌/◌, ◌%◌, ◌^◌, ◌&&◌, ◌||◌, Bool, Option, none, some, ltb, leb, ◌==◌,
  if◌then◌else◌, update,
}

-- Pointers at indices; the length is kept beside the array.
abbrev pub Slots : Type 0
Slots = ℕ → ℕ

-- SSM_QUEUE_HEAD
abbrev pub queue_head : ℕ
queue_head = 1

-- The loop of a percolation towards the root. A run that used up its fuel would leave `x` out.
up_loop : ℕ → (ℕ → ℕ) → Slots → (hole x : ℕ) → Slots
up_loop zero key q hole x = q
up_loop (suc fuel) key q hole x =
    let rest = up_loop fuel key (update q hole (q (hole / 2))) (hole / 2) x in
    if ltb queue_head hole && ltb (key x) (key (q (hole / 2))) then rest else update q hole x

unfoldable pub percolate_up : (ℕ → ℕ) → Slots → (hole x : ℕ) → Slots
unfolding up_loop
percolate_up key q hole x = up_loop hole key q hole x

-- The earlier of the two children, the left one first; indices are of 16 bits.
unfoldable pub left_child : ℕ → ℕ
left_child hole = hole * 2 % 2 ^ 16

pub earlier_child : (ℕ → ℕ) → Slots → (len hole : ℕ) → ℕ
earlier_child key q len hole =
    let child = left_child hole in
    if leb (child + 1) len && ltb (key (q (child + 1))) (key (q child)) then child + 1 else child

-- The loop of a percolation towards the leaves.
down_loop : ℕ → (ℕ → ℕ) → Slots → (len hole x : ℕ) → Slots
down_loop zero key q len hole x = q
down_loop (suc fuel) key q len hole x =
    let child = earlier_child key q len hole in
    let rest = down_loop fuel key (update q hole (q child)) len child x in
    if ltb len (left_child hole)
    then update q hole x
    else if ltb (key x) (key (q child))
    then update q hole x
    else rest

unfoldable pub percolate_down : (ℕ → ℕ) → Slots → (len hole x : ℕ) → Slots
unfolding down_loop earlier_child left_child
percolate_down key q len hole x = down_loop len key q len hole x

-- Both routines that move a pointer at a place in the middle compare it with the parent first.
unfoldable pub reposition : (ℕ → ℕ) → Slots → (len hole x : ℕ) → Slots
reposition key q len hole x =
    if hole == queue_head || ltb (key (q (hole / 2))) (key x)
    then percolate_down key q len hole x
    else percolate_up key q hole x

-- The linear search for a pointer, from index `i` on, over `rounds` indices.
find_loop : ℕ → Slots → (i x : ℕ) → Option ℕ
find_loop zero q i x = none
find_loop (suc rounds) q i x = if q i == x then some i else find_loop rounds q (i + 1) x

unfoldable pub find : Slots → (len x : ℕ) → Option ℕ
unfolding find_loop
find q len x = find_loop len q queue_head x
