-- ===== src/Examples/Cons/Lists.antt =====
-- Lists in the heap, as list.c builds them, and blocks of memory that lie apart.
use ssm_runtime.Base.{ℕ, ◌+◌, ◌≤◌, ◌<◌, ◌≡◌, ◌≢◌, ◌⊎◌, true, false, List, [], ◌∷◌, arith}
use ssm_runtime.Memory.{end_of_freelist}
use ssm_runtime.Memory.FreeList.{member}
use ssm_runtime.State.{State, Value, marshal, unmarshal, on_heap, info_tag}
use ssm_runtime.Scheduler.Join.{All}
use ssm_runtime.Examples.{field}
use ssm_runtime.Examples.Cons.{nil, cons}

-- what `map_inc` makes of an item
abbrev pub inc : Value → Value
inc i = marshal (unmarshal i + 1)

abbrev pub incs : List Value → List Value
incs [] = []
incs (x ∷ xs) = inc x ∷ incs xs

-- The value `v` is a list of the items `xs`, in the objects `vs`.
abbrev pub IsList : State → Value → (vs : List ℕ) → (xs : List Value) → Type 0
IsList s v [] [] = v ≡ marshal nil
IsList s v (w ∷ vs) (x ∷ xs) =
    (v ≡ w)
    × (on_heap w ≡ true)
    × (info_tag (s.mm w) ≡ cons)
    × (s.payload w 0 ≡ x)
    × IsList s (s.payload w 1) vs xs
IsList s v vs xs = ⊥

-- there is a reference to each object, and room for one more
abbrev pub Counted : State → List ℕ → Type 0
Counted s = All (λ w. (1 ≤ (s.mm w).ref_count) × ((s.mm w).ref_count < 255))

-- The blocks of 64 bytes at `a` and at `b` do not meet.
abbrev pub Apart : ℕ → ℕ → Type 0
Apart a b = (a + 64 ≤ b) ⊎ (b + 64 ≤ a)

-- The address `p` is in none of the blocks.
abbrev pub Clear : List ℕ → ℕ → Type 0
Clear bs p = All (λ b. (p < b) ⊎ (b + 64 ≤ p)) bs

-- Blocks that do not meet, at even addresses that are no marks of the allocator.
abbrev pub Spaced : List ℕ → Type 0
Spaced [] = Unit {0}
Spaced (b ∷ bs) = (end_of_freelist < b) × (on_heap b ≡ true) × All (Apart b) bs × Spaced bs

-- no two objects are the same
abbrev pub Distinct : List ℕ → Type 0
Distinct [] = Unit {0}
Distinct (w ∷ ws) = (member w ws ≡ false) × Distinct ws

pub All-map : {P Q : ℕ → Type 0} → ((x : ℕ) → P x → Q x) → (xs : List ℕ) → All P xs → All Q xs
All-map f [] h = tt
All-map f (x ∷ xs) h = (f x h.0, All-map f xs h.1)

-- a list is the same where its objects are, but for their reference counts
pub IsList-frame :
    (s s' : State) (v : Value) (vs : List ℕ) (xs : List Value)
    → All (λ w. ((s'.mm w).info ≡ (s.mm w).info) × (s'.payload w ≡ s.payload w)) vs
    → IsList s v vs xs
    → IsList s' v vs xs
IsList-frame s s' v [] [] same h = h
IsList-frame s s' v (w ∷ vs) (x ∷ xs) ((info, payload), same) (at, heap, cons_tag, item, rest) = (
  at,
  heap,
  ground (arith, info),
  rw payload item,
  rw payload (IsList-frame s s' (s.payload w 1) vs xs same rest),
)
IsList-frame s s' v [] (x ∷ xs) same h = elim h [ ]
IsList-frame s s' v (w ∷ vs) [] same h = elim h [ ]

-- a field of a routine's record is in its block alone
pub field-Clear : (act i : ℕ) (bs : List ℕ) → i ≤ 3 → All (Apart act) bs → Clear bs (field act i)
field-Clear act i [] small h = tt
field-Clear act i (b ∷ bs) small h = (ground (arith, h.0), field-Clear act i bs small h.1)

pub Apart-swap : (a : ℕ) (bs : List ℕ) → All (Apart a) bs → All (λ b. Apart b a) bs
Apart-swap a bs = All-map (λ b h. ground (arith, h)) bs

-- the blocks' own addresses
pub Apart-Clear : (a : ℕ) (bs : List ℕ) → All (Apart a) bs → Clear bs a
Apart-Clear a bs = All-map (λ b h. ground (arith, h)) bs

pub absent-All : (x : ℕ) (ys : List ℕ) → member x ys ≡ false → All (λ y. y ≢ x) ys
absent-All x [] h = tt
absent-All x (y ∷ ys) h = (ground (arith, h), absent-All x ys (ground (arith, h)))

pub All-both :
    {P Q R : ℕ → Type 0}
    → ((x : ℕ) → P x → Q x → R x)
    → (xs : List ℕ) → All P xs
    → All Q xs
    → All R xs
All-both f [] h k = tt
All-both f (x ∷ xs) h k = (f x h.0 k.0, All-both f xs h.1 k.1)
