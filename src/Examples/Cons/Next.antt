-- ===== src/Examples/Cons/Next.antt =====
-- What a call of map_inc of list.c starts from and what it leaves, and how the call for the tail starts.
use ssm_runtime.Base.{
  ℕ, ◌-◌, ◌≤◌, ◌<◌, ◌≡◌, ◌≢◌, refl, sym, ap, ◌∙◌, true, false, List, [], ◌∷◌, ◌++◌, arith, length,
  ℕ_discrete, Bool-cases, inl, inr, ◌==◌, ◌&&◌, if◌then◌else◌,
}
use mathlib.Core.Path.{subst}
use ssm_runtime.Memory.{Memory}
use ssm_runtime.Memory.FreeList.{FreeList, member}
use ssm_runtime.State.{State, Mm, Act, Value, marshal, on_heap}
use ssm_runtime.Objects.{incr8}
use ssm_runtime.Scheduler.Join.{All}
use ssm_runtime.Examples.{field, cell}
use ssm_runtime.Examples.Cons.{map_inc}
use ssm_runtime.Examples.Cons.Lists.{
  inc, incs, IsList, Counted, Clear, Spaced, Distinct, All-map, All-both, absent-All, IsList-frame,
  field-Clear,
}
use ssm_runtime.Examples.Cons.Call.{called}

-- The references to the objects of a list: the caller's own to the first, which is shared.
abbrev pub Held : State → List ℕ → Type 0
Held s [] = Unit {0}
Held s (w ∷ ws) = (2 ≤ (s.mm w).ref_count) × ((s.mm w).ref_count < 256) × Counted s ws

-- The routine `act` is to start a call for the list `v` of the items `xs` in the objects `vs`, which is to
-- return to `ret`. The blocks `bs`, one for an item, and then `rest` are free.
pub record Starts (act : ℕ) (v : Value) (ret : ℕ) (xs : List Value) (vs bs rest : List ℕ)
    (s : State) : Type 0 where
  pub step : (s.act act).step ≡ map_inc
  pub start : (s.act act).pc ≡ 0
  pub alone : (s.act act).children ≡ 0
  pub argument : cell (field act 0) s ≡ v
  pub target : cell (field act 3) s ≡ ret
  pub idle : s.act_queue_len ≡ 0
  pub list : IsList s v vs xs
  pub held : Held s vs
  pub distinct : Distinct vs
  pub enough : length bs ≡ length xs
  pub free : FreeList s.memory 1 (bs ++ rest)
  pub spaced : Spaced (act ∷ bs)
  pub outside : Clear (act ∷ bs) ret
  pub objects : All (λ w. Clear (act ∷ bs) w × (w ≢ ret)) vs
  pub absent : All (λ b. member b rest ≡ false) bs
  pub real : All (λ b. b ≢ 0) rest

-- the header of `p` once a reference to `v` is given up
abbrev pub given_up : (v : Value) → State → (p : ℕ) → Mm
given_up v s p =
    if on_heap v && v == p then record (s.mm p) { ref_count = (s.mm p).ref_count - 1 } else s.mm p

-- What the call has done when its routine leaves.
pub record Mapped (act : ℕ) (v : Value) (ret : ℕ) (xs : List Value) (bs rest : List ℕ)
    (s s' : State) : Type 0 where
  pub frame : s' ≡ record s {
    act_queue = s'.act_queue;
    num_processes = s'.num_processes;
    mm = s'.mm;
    act = s'.act;
    payload = s'.payload;
    memory = s'.memory;
  }
  pub list : IsList s' (cell ret s') bs (incs xs)
  pub fresh : All (λ b. (s'.mm b).ref_count ≡ 1) bs
  pub free : FreeList s'.memory 1 rest
  pub self : s'.act act ≡ record (s.act act) { pc = (s'.act act).pc }
  pub acts : (a : ℕ) → a ≢ act → Clear bs a → s'.act a ≡ s.act a
  pub headers : (p : ℕ) → Clear bs p → s'.mm p ≡ given_up v s p
  pub payloads : (p : ℕ) → Clear (act ∷ bs) p → p ≢ ret → s'.payload p ≡ s.payload p

-- what the call for the tail finds
module _ (act w ret x b : ℕ) (xs : List Value) (vs bs rest : List ℕ) (s : State)
    (d : Starts act w ret (x ∷ xs) (w ∷ vs) (b ∷ bs) rest s) (m : Memory) where
  abbrev pub tail : Value
  tail = s.payload w 1

  abbrev pub next : State
  next = called act b w tail (s.payload w 0) m s

  pub next-acts : (a : ℕ) → a ≢ act → a ≢ b → next.act a ≡ s.act a
  next-acts a e f = ground (arith, e, f)

  pub next-child : next.act b ≡ record {
    step = map_inc;
    caller = act;
    pc = 0;
    children = 0;
    priority = (s.act act).priority;
    depth = (s.act act).depth;
    scheduled = false;
  }
  next-child = ground (arith, d.spaced.2.0)

  pub next-parent : next.act act ≡ record (s.act act) { pc = 1; children = 1 }
  next-parent = ground (arith, d.spaced.2.0, d.alone)

  pub next-payloads : (p : ℕ) → Clear (act ∷ b ∷ []) p → next.payload p ≡ s.payload p
  next-payloads p clear = ground (arith, clear.0, clear.1.0)

  pub next-item : cell (field act 1) next ≡ inc (s.payload w 0)
  next-item = ground (arith, d.spaced.2.0)

  pub next-target : cell (field act 3) next ≡ ret
  next-target = ground (arith, d.spaced.2.0, d.target)

  -- the reference to the object is given up
  pub next-given : w ≢ tail → next.mm w ≡ record (s.mm w) { ref_count = (s.mm w).ref_count - 1 }
  next-given e = ground (arith, e, d.held.0, d.held.1)

  next-info : (p : ℕ) → (next.mm p).info ≡ (s.mm p).info
  next-info p = ground arith

  pub next-kept : (p : ℕ) → p ≢ w → p ≢ tail → next.mm p ≡ s.mm p
  next-kept p e f = ground (arith, e, f)

  pub next-packed : (p : ℕ) → p ≢ w → on_heap tail ≡ false → next.mm p ≡ s.mm p
  next-packed p e packed = ground (arith, e, packed)

  pub next-tail :
      on_heap tail ≡ true
      → tail ≢ w
      → next.mm tail ≡ record (s.mm tail) { ref_count = incr8 (s.mm tail).ref_count }
  next-tail heap e = ground (arith, heap, e)

  next-Held :
      (vs : List ℕ) (xs : List Value)
      → IsList s tail vs xs
      → Distinct (w ∷ vs)
      → Counted s vs
      → Held next vs
  next-Held [] xs list distinct counted = tt
  next-Held (v ∷ vs) (y ∷ ys) list distinct counted =
      let apart : v ≢ w = (absent-All w (v ∷ vs) distinct.0).0 in
      let count : (next.mm v).ref_count ≡ incr8 (s.mm v).ref_count =
        subst (λ (t : ℕ). (next.mm t).ref_count ≡ incr8 (s.mm t).ref_count) list.0
          (ap (λ (h : Mm). h.ref_count)
            (next-tail (rw list.0 list.1) (λ e. apart (sym list.0 ∙ e)))) in
      (
        omega (arith, count, counted.0.0, counted.0.1),
        omega (arith, count, counted.0.1),
        All-both
            (λ p (off : (p ≢ w) × (p ≢ v)) known.
              rw (next-kept p off.0 (λ e. off.1 (e ∙ list.0))) known)
            vs
            (All-both (λ p e f. (e, f)) vs (absent-All w (v ∷ vs) distinct.0).1
              (absent-All v vs distinct.1.0))
            counted.1,
      )
  next-Held (v ∷ vs) [] list distinct counted = elim list [ ]

  pub Starts-next : FreeList m 1 (bs ++ rest) → Starts b tail (field act 2) xs vs bs rest next
  Starts-next free = record {
    step = ap (λ (a : Act). a.step) next-child;
    start = ap (λ (a : Act). a.pc) next-child;
    alone = ap (λ (a : Act). a.children) next-child;
    argument = ground arith;
    target = ground arith;
    idle = refl;
    list =
        IsList-frame s next tail vs xs
          (All-map (λ p h. (next-info p, next-payloads p (h.0.0, (h.0.1.0, tt)))) vs d.objects.1)
          d.list.4;
    held = next-Held vs xs d.list.4 d.distinct d.held.2;
    distinct = d.distinct.1;
    enough = omega (arith, d.enough);
    free = free;
    spaced = d.spaced.3;
    outside = field-Clear act 2 (b ∷ bs) (omega arith) d.spaced.2;
    objects = All-map (λ p h. (h.0.1, ground (arith, h.0.0))) vs d.objects.1;
    absent = d.absent.1;
    real = d.real;
  }

  -- an object behind the first one has room for a reference
  pub tail-Held :
      (vs : List ℕ) (xs : List Value)
      → IsList s tail vs xs
      → Distinct (w ∷ vs)
      → Counted s vs
      → on_heap tail ≡ true
      → ((s.mm tail).ref_count < 255) × (tail ≢ w)
  unfolding marshal
  tail-Held [] [] list distinct counted heap = absurd (ground (arith, list))
  tail-Held [] (y ∷ ys) list distinct counted heap = elim list [ ]
  tail-Held (v ∷ vs) (y ∷ ys) list distinct counted heap =
      (rw list.0 counted.0.1, λ e. (absent-All w (v ∷ vs) distinct.0).0 (sym list.0 ∙ e))
  tail-Held (v ∷ vs) [] list distinct counted heap = elim list [ ]

  -- once the call for the tail has given its reference up, a reference to the object itself is gone
  pub given_up-next :
      (on_heap tail ≡ true → ((s.mm tail).ref_count < 255) × (tail ≢ w))
      → (p : ℕ) → given_up tail next p ≡ given_up w s p
  given_up-next room p = elim (Bool-cases (on_heap tail)) [
    | inr packed ↦ elim (ℕ_discrete p w) [
      | yes e ↦ rw e (ground (arith, packed, d.list.1, next-given))
      | no e ↦ ground (arith, packed, e, next-packed p e packed)
    ]
    | inl heap ↦ elim (ℕ_discrete p w) [
      | yes e ↦ rw e (ground (arith, (room heap).1, d.list.1, next-given))
      | no e ↦ elim (ℕ_discrete p tail) [
        | yes f ↦
            rw f (ground (arith, heap, (room heap).0, (room heap).1, next-tail heap (room heap).1))
        | no f ↦ ground (arith, e, f, next-kept p e f)
      ]
    ]
  ]
