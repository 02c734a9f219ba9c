-- ===== src/Objects/Balance.antt =====
-- Duplication and dropping in balance: a dup and a drop of the same values leave the state as it was.
use ssm_runtime.Base.{
  ℕ, zero, suc, ◌+◌, ◌^◌, ◌≤◌, ◌<◌, ◌≡◌, refl, sym, ap, ◌∙◌, true, false, ◌&&◌, ok, arith, ◌==◌,
  if◌then◌else◌, inl, inr, Bool-cases,
}
use ssm_runtime.Objects.Release.{released, released-frame, drop_shared}
use ssm_runtime.State.{State, Mm, Value, on_heap}
use ssm_runtime.Objects.{incr8, dup, dups, drop, drops, drops_with, is_shared}

-- A reference count that can be counted up `n` times, and down again to no less than it was.
abbrev pub Countable : ℕ → Value → State → Type 0
Countable n v s = on_heap v ≡ true → (1 ≤ (s.mm v).ref_count) × ((s.mm v).ref_count + n < 2 ^ 8)

-- two states that agree but for the headers, and on the headers
same_headers :
    (s x y : State)
    → x ≡ record s { mm = x.mm }
    → y ≡ record s { mm = y.mm }
    → ((p : ℕ) → x.mm p ≡ y.mm p)
    → x ≡ y
same_headers s x y fx fy h = fx ∙ ap (λ (m : ℕ → Mm). record s { mm = m }) (λ i p. h p i) ∙ sym fy

pub dup-frame : (v : Value) (s : State) → dup v s ≡ record s { mm = (dup v s).mm }
unfolding dup
dup-frame v s = ground arith

pub dup-mm :
    (v : Value) (s : State) (p : ℕ)
    → (dup v s).mm p ≡ (
        if on_heap v && v == p
        then record (s.mm p) { ref_count = incr8 (s.mm p).ref_count }
        else s.mm p)
unfolding dup
dup-mm v s p = ground arith

-- two dups may be swapped
dup-dup : (a b : Value) (s : State) → dup a (dup b s) ≡ dup b (dup a s)
dup-dup a b s =
    same_headers s (dup a (dup b s)) (dup b (dup a s))
      (dup-frame a (dup b s)
        ∙ ap (λ (t : State). record t { mm = (dup a (dup b s)).mm }) (dup-frame b s))
      (dup-frame b (dup a s)
        ∙ ap (λ (t : State). record t { mm = (dup b (dup a s)).mm }) (dup-frame a s))
      (λ p. ground (arith, dup-mm a (dup b s) p, dup-mm b s p, dup-mm b (dup a s) p, dup-mm a s p))

Countable-dup : (n : ℕ) (v x : Value) (s : State) → Countable (suc n) v s → Countable n v (dup x s)
unfolding dup
Countable-dup n v x s c e = ground (arith, c e)

Countable-dups :
    (cnt i n : ℕ) (arr : ℕ → Value) (v : Value) (s : State)
    → Countable (cnt + n) v s
    → Countable n v (dups cnt i arr s)
unfolding dups
Countable-dups zero i n arr v s c = λ e. ground (arith, c e)
Countable-dups (suc cnt) i n arr v s c =
    Countable-dups cnt (i + 1) n arr v (dup (arr i) s)
      (Countable-dup (cnt + n) v (arr i) s (λ e. ground (arith, c e)))

dups-dup :
    (cnt i : ℕ) (arr : ℕ → Value) (v : Value) (s : State)
    → dups cnt i arr (dup v s) ≡ dup v (dups cnt i arr s)
unfolding dups
dups-dup zero i arr v s = refl
dups-dup (suc cnt) i arr v s =
    ap (dups cnt (i + 1) arr) (dup-dup (arr i) v s) ∙ dups-dup cnt (i + 1) arr v (dup (arr i) s)

pub drop_packed : (depth : ℕ) (v : Value) (s : State) → on_heap v ≡ false → drop depth v s ≡ ok s
unfolding drop
drop_packed zero v s e = ground arith
drop_packed (suc depth) v s e = ground arith

released_packed : (v : Value) (s : State) → on_heap v ≡ false → released v s ≡ s
released_packed v s e = ground arith

released-dup : (v : Value) (s : State) → Countable 1 v s → released v (dup v s) ≡ s
released-dup v s c =
    same_headers s (released v (dup v s)) s
      (released-frame v (dup v s)
        ∙ ap (λ (t : State). record t { mm = (released v (dup v s)).mm }) (dup-frame v s))
      refl (λ p. ground (arith, c, dup-mm v s v, dup-mm v s p))

module _ (depth : ℕ) (deep : 1 ≤ depth) where
  drop-dup : (v : Value) (s : State) → Countable 1 v s → drop depth v (dup v s) ≡ ok s
  unfolding is_shared
  drop-dup v s c =
      elim (Bool-cases (on_heap v)) [
        | inr e ↦ drop_packed depth v (dup v s) e ∙ ap ok (sym (released_packed v (dup v s) e))
        | inl e ↦
            drop_shared depth v (dup v s) deep (λ on. ground (arith, c, dup-mm v s v))
              (ground (arith, c, dup-mm v s v))
      ]
      ∙ ap ok (released-dup v s c)

  drops_with-dups :
      (cnt i : ℕ) (arr : ℕ → Value) (s : State)
      → ((j : ℕ) → i ≤ j → j < i + cnt → Countable cnt (arr j) s)
      → drops_with (drop depth) cnt i arr (dups cnt i arr s) ≡ ok s
  unfolding drops_with dups
  drops_with-dups zero i arr s c = refl
  drops_with-dups (suc cnt) i arr s c = rw (dups-dup cnt (i + 1) arr (arr i) s) (
      rw
        (drop-dup (arr i) (dups cnt (i + 1) arr s) (
          Countable-dups cnt (i + 1) 1 arr (arr i) s
            (λ e. ground (arith, c i (omega arith) (omega arith) e))))
        (drops_with-dups cnt (i + 1) arr s
          (λ j a b e. ground (arith, c j (omega arith) (omega arith) e))))

  -- Dropping the values of an array after duplicating them all leaves the state as it was, where the
  -- reference counts are not 0 and have room for the array.
  pub drops-dups :
      (cnt : ℕ) (arr : ℕ → Value) (s : State)
      → ((j : ℕ) → j < cnt → Countable cnt (arr j) s)
      → drops depth cnt arr (dups cnt 0 arr s) ≡ ok s
  unfolding drops
  drops-dups cnt arr s c = drops_with-dups cnt 0 arr s (λ j a b. c j (omega arith))
