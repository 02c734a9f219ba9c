-- ===== src/Closures/Each.antt =====
-- `ssm_closure_apply_final` for one argument after the other, until the closure has them all.
use ssm_runtime.Base.{
  ℕ, ◌+◌, ◌^◌, ◌<◌, ◌≡◌, ◌≢◌, refl, ap, ◌∙◌, true, false, Option, none, some, List, [], ◌∷◌, Result,
  ok, ◌>>=◌, arith, update, length,
}
use mathlib.Core.Path.{subst}
use ssm_runtime.Memory.{Handlers, mem_free}
use ssm_runtime.State.{State, Value, act_queue_size}
use ssm_runtime.Queues.Acts.{ActInv}
use ssm_runtime.Objects.{is_shared, closure_size}
use ssm_runtime.Closures.{EnterFunctions, closure_push, set_arg, set_arg_count, closure_apply_final}
use ssm_runtime.Closures.Apply.{IsClosure, closure_push-IsClosure}
use ssm_runtime.Closures.Final.{in_place_run, closure_apply_final-full}

-- the arguments `args` with `xs` from index `i` on
abbrev pub placed : (i : ℕ) → List Value → (args : ℕ → Value) → ℕ → Value
placed i [] args = args
placed i (x ∷ xs) args = placed (i + 1) xs (update args i x)

-- the state with all of `xs` pushed
abbrev pub pushes : (c : Value) → List Value → State → State
pushes c [] s = s
pushes c (x ∷ xs) s = pushes c xs (closure_push c x s)

-- What is returned by the last of the applications, each to what the one before returned.
unfoldable pub apply_each :
    Handlers
    → EnterFunctions
    → (parent prio depth ret : ℕ) → (closure : Value) → List Value
    → State
    → Result (Option Value × State)
apply_each h enter_functions parent prio depth ret closure [] s = ok (some closure, s)
apply_each h enter_functions parent prio depth ret closure (x ∷ xs) s =
    closure_apply_final h enter_functions closure x parent prio depth ret s >>= λ (left, s1).
    elim left [
      | none ↦ ok (none, s1)
      | some next ↦ apply_each h enter_functions parent prio depth ret next xs s1
    ]

-- Pushes change the header and the arguments of the closure, and nothing else.
pub record Pushed (c : Value) (s s' : State) : Type 0 where
  pub frame : s' ≡ record s { mm = s'.mm; payload = s'.payload }
  pub shared : is_shared c s' ≡ is_shared c s
  pub others : (p : ℕ) → p ≢ c → (s'.mm p ≡ s.mm p) × (s'.payload p ≡ s.payload p)

push-Pushed : (c x : Value) (s : State) → Pushed c s (closure_push c x s)
unfolding closure_push set_arg set_arg_count is_shared
push-Pushed c x s = record {
  frame = refl;
  shared = ground arith;
  others = λ p other. (ground arith, ground arith);
}

pushes-Pushed : (c : Value) (xs : List Value) (s : State) → Pushed c s (pushes c xs s)
pushes-Pushed c [] s = record { frame = refl; shared = refl; others = λ p other. (refl, refl) }
pushes-Pushed c (x ∷ xs) s =
    let one = push-Pushed c x s in
    let rest = pushes-Pushed c xs (closure_push c x s) in
    record {
      frame =
          rest.frame
          ∙ ap
              (λ (t : State). record t {
                mm = (pushes c (x ∷ xs) s).mm;
                payload = (pushes c (x ∷ xs) s).payload;
              })
              one.frame;
      shared = rest.shared ∙ one.shared;
      others = λ p other. (
        (rest.others p other).0 ∙ (one.others p other).0,
        (rest.others p other).1 ∙ (one.others p other).1,
      );
    }

pushes-IsClosure :
    (f count cap : ℕ) (args : ℕ → Value) (c : Value) (xs : List Value) (s : State)
    → IsClosure f count cap args c s
    → count + length xs ≡ cap
    → cap < 2 ^ 8
    → IsClosure f cap cap (placed count xs args) c (pushes c xs s)
pushes-IsClosure f count cap args c [] s d full fits =
    subst (λ n. IsClosure f n cap args c s) (omega arith) d
pushes-IsClosure f count cap args c (x ∷ xs) s d full fits =
    pushes-IsClosure f (count + 1) cap (update args count x) c xs (closure_push c x s)
      (closure_push-IsClosure f count cap args c x s d (omega arith) fits) (omega arith) fits

module _ (h : Handlers) (enter_functions : EnterFunctions) (parent prio depth ret : ℕ) where
  each_last :
      (c x : Value) (s s' : State)
      → closure_apply_final h enter_functions c x parent prio depth ret s ≡ ok (none, s')
      → apply_each h enter_functions parent prio depth ret c (x ∷ []) s ≡ ok (none, s')
  unfolding apply_each
  each_last c x s s' run = rw run refl

  each_more :
      (c x : Value) (xs : List Value) (s s1 : State)
      → closure_apply_final h enter_functions c x parent prio depth ret s ≡ ok (some c, s1)
      → apply_each h enter_functions parent prio depth ret c (x ∷ xs) s
        ≡ apply_each h enter_functions parent prio depth ret c xs s1
  unfolding apply_each
  each_more c x xs s s1 run = rw run refl

  each_run :
      (f count cap : ℕ) (args : ℕ → Value) (c x : Value) (xs : List Value) (s : State) (act : ℕ)
      (s1 : State)
      → IsClosure f count cap args c s
      → cap < 2 ^ 8
      → is_shared c s ≡ false
      → count + length (x ∷ xs) ≡ cap
      → enter_functions f parent prio depth c ret (pushes c (x ∷ xs) s) ≡ ok (act, s1)
      → s1.mm c ≡ (pushes c (x ∷ xs) s).mm c
      → ActInv s1
      → ((s1.act act).scheduled ≡ false → s1.act_queue_len < act_queue_size)
      → (s' : State) × (apply_each h enter_functions parent prio depth ret c (x ∷ xs) s
          ≡ ok (none, s'))
        × (s'.memory ≡ mem_free c (closure_size cap) s1.memory)
        × ((s'.act act).scheduled ≡ true)
  each_run f count cap args c x [] s act s1 d fits own full run headers inv room =
      let (s', applied, all, freed, marked) =
        closure_apply_final-full h enter_functions f count cap args c s d fits x parent prio depth
          ret act s1 own (omega arith) run headers inv room in
      (s', each_last c x s s' applied, freed, marked)
  each_run f count cap args c x (y ∷ ys) s act s1 d fits own full run headers inv room =
      let (s', applied, freed, marked) =
        each_run f (count + 1) cap (update args count x) c y ys (closure_push c x s) act s1
          (closure_push-IsClosure f count cap args c x s d (omega arith) fits) fits
          ((push-Pushed c x s).shared ∙ own) (omega arith) run headers inv room in
      let more =
        in_place_run h enter_functions f count cap args c s d fits x parent prio depth ret own
          (omega arith) in
      (s', each_more c x (y ∷ ys) s (closure_push c x s) more ∙ applied, freed, marked)

  -- A closure with one reference that is applied to its open arguments one after the other by
  -- `ssm_closure_apply_final`, at least one of them, keeps them in itself: up to the last application the state changes in the
  -- header and the arguments of the closure alone, so nothing is allocated. The last one
  -- enters the function with all arguments in order and schedules the routine, where the enter function
  -- leaves the closure's header as it is and a well-formed activation queue with room. It returns no closure,
  -- and the closure goes back to the allocator, with the size of its capacity.
  pub apply_each-full :
      (f count cap : ℕ) (args : ℕ → Value) (c x : Value) (xs : List Value) (s : State) (act : ℕ)
      (s1 : State)
      → IsClosure f count cap args c s
      → cap < 2 ^ 8
      → is_shared c s ≡ false
      → count + length (x ∷ xs) ≡ cap
      → enter_functions f parent prio depth c ret (pushes c (x ∷ xs) s) ≡ ok (act, s1)
      → s1.mm c ≡ (pushes c (x ∷ xs) s).mm c
      → ActInv s1
      → ((s1.act act).scheduled ≡ false → s1.act_queue_len < act_queue_size)
      → IsClosure f cap cap (placed count (x ∷ xs) args) c (pushes c (x ∷ xs) s)
        × Pushed c s (pushes c (x ∷ xs) s)
        × (s' : State) × (apply_each h enter_functions parent prio depth ret c (x ∷ xs) s
            ≡ ok (none, s'))
        × (s'.memory ≡ mem_free c (closure_size cap) s1.memory)
        × ((s'.act act).scheduled ≡ true)
  apply_each-full f count cap args c x xs s act s1 d fits own full run headers inv room =
      let (s', applied, freed, marked) =
        each_run f count cap args c x xs s act s1 d fits own full run headers inv room in
      (
        pushes-IsClosure f count cap args c (x ∷ xs) s d full fits,
        pushes-Pushed c (x ∷ xs) s,
        s',
        applied,
        freed,
        marked,
      )
