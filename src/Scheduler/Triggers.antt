-- ===== src/Scheduler/Triggers.antt =====
-- The doubly linked lists of triggers: sensitize and desensitize are insertion at the front and
-- removal of the lists that the variables stand for.
pub mod Unlink
pub mod Remove
use ssm_runtime.Base.{
  ℕ, zero, suc, ◌≡◌, ◌≢◌, ◌⊎◌, refl, sym, ap, ◌∙◌, inl, inr, Bool, true, false, not, ◌&&◌, ◌||◌,
  List, [], ◌∷◌, arith, ◌==◌, if◌then◌else◌, Bool-cases, ℕ_discrete, update, update_self,
  update_other,
}
use ssm_runtime.State.{State, Link, null}
use ssm_runtime.Scheduler.{sensitize, desensitize, write_link}
use ssm_runtime.Scheduler.Wake.{Chain}

-- From `p`, which stands at `link`, the `next` pointers lead through `ts` to NULL, and each
-- `prev_ptr` names the place of the pointer that leads to its trigger.
abbrev pub Linked : State → Link → ℕ → List ℕ → Type 0
Linked s link p [] = p ≡ null
Linked s link p (t ∷ ts) =
    (p ≡ t)
    × (t ≢ null)
    × ((s.trigger t).prev_ptr ≡ link)
    × Linked s (Link.next_of t) (s.trigger t).next ts

abbrev pub has : ℕ → List ℕ → Bool
has t [] = false
has t (x ∷ xs) = x == t || has t xs

abbrev pub Distinct : List ℕ → Type 0
Distinct [] = Unit {0}
Distinct (x ∷ xs) = (has x xs ≡ false) × Distinct xs

abbrev pub without : ℕ → List ℕ → List ℕ
without t [] = []
without t (x ∷ xs) = if x == t then xs else x ∷ without t xs

-- The variables stand for the lists `ts`; no trigger stands in two places.
pub record Lists (ts : ℕ → List ℕ) (s : State) : Type 0 where
  pub linked : (v : ℕ) → Linked s (Link.triggers_of v) (s.sv v).triggers (ts v)
  pub distinct : (v : ℕ) → Distinct (ts v)
  pub apart : (v w t : ℕ) → has t (ts v) ≡ true → has t (ts w) ≡ true → v ≡ w

-- what the wake-up walks
pub Linked-Chain :
    (s : State) (link : Link) (p : ℕ) (ts : List ℕ) → Linked s link p ts → Chain s p ts
Linked-Chain s link p [] h = h
Linked-Chain s link p (t ∷ ts) (at, some_trigger, prev, rest) =
    (at, some_trigger, Linked-Chain s (Link.next_of t) (s.trigger t).next ts rest)

-- a list whose triggers are as they were
pub Linked-frame :
    (s s' : State) (link : Link) (p : ℕ) (ts : List ℕ)
    → ((t : ℕ) → has t ts ≡ true → s'.trigger t ≡ s.trigger t)
    → Linked s link p ts
    → Linked s' link p ts
Linked-frame s s' link p [] same h = h
Linked-frame s s' link p (t ∷ ts) same (at, some_trigger, prev, rest) =
    let e = same t (ground arith) in
    (
      at,
      some_trigger,
      rw e prev,
      rw e (
          Linked-frame s s' (Link.next_of t) (s.trigger t).next ts (λ x h. same x (ground arith))
            rest),
    )

pub head_has :
    (s : State) (link : Link) (p : ℕ) (ts : List ℕ)
    → Linked s link p ts
    → p ≢ null
    → has p ts ≡ true
head_has s link p [] h real = absurd (real h)
head_has s link p (t ∷ ts) h real = ground (arith, h.0)

-- a list whose first trigger alone has changed, and that only in the place that leads to it
pub Linked-relink :
    (s s' : State) (link link' : Link) (p : ℕ) (ts : List ℕ)
    → Distinct ts
    → ((t : ℕ) → has t ts ≡ true → (s'.trigger t).next ≡ (s.trigger t).next)
    → ((t : ℕ) → has t ts ≡ true → t ≢ p → s'.trigger t ≡ s.trigger t)
    → (p ≢ null → (s'.trigger p).prev_ptr ≡ link')
    → Linked s link p ts
    → Linked s' link' p ts
Linked-relink s s' link link' p [] d nexts same first h = h
Linked-relink s s' link link' p (t ∷ ts) (out, d) nexts same first (at, real, prev, rest) = (
  at,
  real,
  ground (arith, at, first),
  rw (nexts t (ground arith)) (
      Linked-frame s s' (Link.next_of t) (s.trigger t).next ts
        (λ x h. same x (ground arith) (ground (arith, at, out, h))) rest),
)

pub sensitize-sv :
    (var trig : ℕ) (s : State) (v : ℕ)
    → (sensitize var trig s).sv v
      ≡ (if var == v then record (s.sv var) { triggers = trig } else s.sv v)
unfolding sensitize
sensitize-sv var trig s v = ground arith

pub sensitize-trigger :
    (var trig : ℕ) (s : State) (t : ℕ)
    → (sensitize var trig s).trigger t ≡ (
        if trig == t
        then record (s.trigger trig) { next = (s.sv var).triggers; prev_ptr = Link.triggers_of var }
        else if not ((s.sv var).triggers == null) && (s.sv var).triggers == t
        then record (s.trigger t) { prev_ptr = Link.next_of trig }
        else s.trigger t)
unfolding sensitize
sensitize-trigger var trig s t = ground arith

module _ (ts : ℕ → List ℕ) (var trig : ℕ) (s : State) (lists : Lists ts s)
    (fresh : (v : ℕ) → has trig (ts v) ≡ false) (real : trig ≢ null) where
  -- the list of another variable: neither `trig` nor the first trigger of `var` stands in it
  sensitize_other :
      (v : ℕ)
      → v ≢ var
      → Linked
          (sensitize var trig s)
          (Link.triggers_of v)
          ((sensitize var trig s).sv v).triggers
          (ts v)
  sensitize_other v other =
      let s' = sensitize var trig s in
      let first = (s.sv var).triggers in
      let same : (s'.sv v).triggers ≡ (s.sv v).triggers =
        ground (arith, sensitize-sv var trig s v) in
      rw same (
        Linked-frame s s' (Link.triggers_of v) (s.sv v).triggers (ts v)
          (λ t h. ground (
            arith,
            sensitize-trigger var trig s t,
            fresh v,
            head_has s (Link.triggers_of var) first (ts var) (lists.linked var),
            lists.apart v var t h,
          ))
          (lists.linked v))

  sensitize_self :
      Linked
        (sensitize var trig s)
        (Link.triggers_of var)
        ((sensitize var trig s).sv var).triggers
        (trig ∷ ts var)
  sensitize_self =
      let s' = sensitize var trig s in
      let first = (s.sv var).triggers in
      let front : (s'.trigger trig).next ≡ first =
        ground (arith, sensitize-trigger var trig s trig) in
      (
        ground (arith, sensitize-sv var trig s var),
        real,
        ground (arith, sensitize-trigger var trig s trig),
        rw front (
            Linked-relink s s' (Link.triggers_of var) (Link.next_of trig) first (ts var)
              (lists.distinct var)
              (λ t h. ground (arith, sensitize-trigger var trig s t, fresh var))
              (λ t h apart. ground (arith, sensitize-trigger var trig s t, fresh var))
              (λ h. ground (
                arith,
                sensitize-trigger var trig s first,
                fresh var,
                head_has s (Link.triggers_of var) first (ts var) (lists.linked var),
              ))
              (lists.linked var)),
      )

  -- Sensitizing a trigger that stands in no list puts it at the front of the variable's list, and
  -- leaves the other variables' lists as they are.
  pub sensitize-Lists : Lists (update ts var (trig ∷ ts var)) (sensitize var trig s)
  sensitize-Lists = record {
    linked = λ v. elim (ℕ_discrete v var) [
      | yes e ↦ rw e (rw (update_self ts var (trig ∷ ts var)) sensitize_self)
      | no e ↦ rw (update_other ts var v (trig ∷ ts var) (λ h. e (sym h))) (sensitize_other v e)
    ];
    distinct = λ v. elim (ℕ_discrete v var) [
      | yes e ↦ rw e (rw (update_self ts var (trig ∷ ts var)) (fresh var, lists.distinct var))
      | no e ↦ rw (update_other ts var v (trig ∷ ts var) (λ h. e (sym h))) (lists.distinct v)
    ];
    apart = λ v w t h k. ground (arith, fresh v, fresh w, lists.apart v w t);
  }
