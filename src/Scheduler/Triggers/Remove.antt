-- ===== src/Scheduler/Triggers/Remove.antt =====
-- Desensitizing a trigger removes it from its list.
use ssm_runtime.Base.{
  ℕ, ◌≡◌, ◌≢◌, sym, inl, inr, true, List, [], ◌∷◌, arith, ℕ_discrete, update, update_self,
  update_other,
}
use ssm_runtime.State.{State, Link}
use ssm_runtime.Scheduler.{desensitize}
use ssm_runtime.Scheduler.Triggers.{Linked, has, Distinct, without, Lists}
use ssm_runtime.Scheduler.Triggers.Unlink.{
  Linked-prev, Linked-next, pointers_frame, without_first, without_later, desensitize_prev,
  desensitize_elsewhere, removed,
}

has-without : (trig x : ℕ) (ts : List ℕ) → has x (without trig ts) ≡ true → has x ts ≡ true
has-without trig x [] h = h
has-without trig x (t ∷ ts) h = ground (arith, has-without trig x ts)

Distinct-without : (trig : ℕ) (ts : List ℕ) → Distinct ts → Distinct (without trig ts)
Distinct-without trig [] d = d
Distinct-without trig (t ∷ ts) (out, d) = elim (ℕ_discrete t trig) [
  | yes e ↦ rw e (rw (without_first trig ts) d)
  | no e ↦
      rw (without_later trig t ts e)
        (ground (arith, has-without trig t ts), Distinct-without trig ts d)
]

module _ (ts : ℕ → List ℕ) (var trig : ℕ) (s : State) (lists : Lists ts s)
    (here : has trig (ts var) ≡ true) where
  prev_place :
      (v t : ℕ) → has t (ts v) ≡ true → (s.trigger trig).prev_ptr ≡ Link.next_of t → v ≡ var
  prev_place v t h e =
      elim (Linked-prev s (Link.triggers_of var) (s.sv var).triggers (ts var) trig
        (lists.linked var) here) [
          | inl f ↦ absurd (ground (arith, e, f))
          | inr (w, f, k, o) ↦ lists.apart v var t h (ground (arith, e, f, k))
        ]

  prev_loose : Link.next_of trig ≢ (s.trigger trig).prev_ptr
  prev_loose e =
      elim (Linked-prev s (Link.triggers_of var) (s.sv var).triggers (ts var) trig
        (lists.linked var) here) [
          | inl f ↦ absurd (ground (arith, e, f))
          | inr (w, f, k, o) ↦ absurd (ground (arith, e, f, o))
        ]

  prev_apart : (v : ℕ) → v ≢ var → Link.triggers_of v ≢ (s.trigger trig).prev_ptr
  prev_apart v other e =
      elim (Linked-prev s (Link.triggers_of var) (s.sv var).triggers (ts var) trig
        (lists.linked var) here) [
          | inl f ↦ absurd (ground (arith, e, f, other))
          | inr (w, f, k, o) ↦ absurd (ground (arith, e, f))
        ]

  -- the list of another variable
  desensitize_other :
      (v : ℕ)
      → v ≢ var
      → Linked (desensitize trig s) (Link.triggers_of v) ((desensitize trig s).sv v).triggers (ts v)
  desensitize_other v other =
      let s' = desensitize trig s in
      let next = (s.trigger trig).next in
      let first : (s'.sv v).triggers ≡ (s.sv v).triggers =
        desensitize_elsewhere trig s prev_loose (Link.triggers_of v) (prev_apart v other) in
      rw first (
        pointers_frame s s' (Link.triggers_of v) (s.sv v).triggers (ts v)
          (λ t h.
            desensitize_elsewhere trig s prev_loose (Link.next_of t)
              (λ e. other (prev_place v t h (sym e))))
          (λ t h. ground (
            arith,
            desensitize_prev trig s prev_loose t,
            Linked-next s (Link.triggers_of var) (s.sv var).triggers (ts var) trig
                (lists.linked var) here,
            lists.apart v var t h,
          ))
          (lists.linked v))

  -- Desensitizing a trigger takes it out of its variable's list, and leaves the order of the other
  -- triggers and the lists of the other variables as they are.
  pub desensitize-Lists : Lists (update ts var (without trig (ts var))) (desensitize trig s)
  desensitize-Lists = record {
    linked = λ v. elim (ℕ_discrete v var) [
      | yes e ↦ rw e (
          rw (update_self ts var (without trig (ts var))) (
            removed trig s prev_loose (Link.triggers_of var) (ts var) (lists.linked var) here
              (lists.distinct var) (λ t h e. ground (arith, e))))
      | no e ↦
          rw (update_other ts var v (without trig (ts var)) (λ h. e (sym h)))
            (desensitize_other v e)
    ];
    distinct = λ v. elim (ℕ_discrete v var) [
      | yes e ↦ rw e (
          rw (update_self ts var (without trig (ts var)))
            (Distinct-without trig (ts var) (lists.distinct var)))
      | no e ↦
          rw (update_other ts var v (without trig (ts var)) (λ h. e (sym h))) (lists.distinct v)
    ];
    apart = λ v w t h k. ground (arith, has-without trig t (ts var), lists.apart v w t);
  }
