-- ===== src/Closures/Apply.antt =====
-- Partial and full application of a closure.
use ssm_runtime.Base.{ℕ, ◌+◌, ◌^◌, ◌<◌, ◌≡◌, ◌≢◌, refl, sym, ap, ◌∙◌, ok, arith, update}
use ssm_runtime.Memory.{Handlers, Memory, mem_alloc}
use ssm_runtime.State.{State, Value, pair_info, put_mm, closure_k}
use ssm_runtime.Objects.{alloc, new_closure, dups, closure_size}
use ssm_runtime.Closures.{
  closure_arg_count, closure_arg_cap, set_arg_count, set_arg, closure_push, clone_args,
  EnterFunctions, closure_clone,
}
use ssm_runtime.Closures.Clone.{Copied, clone_args-Copied, dups-mm_other, dups-mm_same, dups-info}

-- A closure `c` of the function `f`, with the first `count` of the arguments `args`.
pub record IsClosure (f count cap : ℕ) (args : ℕ → Value) (c : Value) (s : State) : Type 0 where
  pub function : s.func c ≡ f
  pub counted : closure_arg_count c s ≡ count
  pub capacity : closure_arg_cap c s ≡ cap
  pub arguments : (i : ℕ) → i < count → s.payload c i ≡ args i

-- a push after a pop, and a pop after a push
pub closure_push-IsClosure :
    (f count cap : ℕ) (args : ℕ → Value) (c arg : Value) (s : State)
    → IsClosure f count cap args c s
    → count + 1 < 2 ^ 8
    → cap < 2 ^ 8
    → IsClosure f (count + 1) cap (update args count arg) c (closure_push c arg s)
unfolding closure_push set_arg set_arg_count
closure_push-IsClosure f count cap args c arg s d small fits = record {
  function = d.function;
  counted = ground (arith, d.counted, d.capacity);
  capacity = ground (arith, d.counted, d.capacity);
  arguments = λ i h. ground (arith, d.arguments i, d.counted);
}

-- What a clone changes besides the clone: the references to the arguments.
pub record Cloned (count : ℕ) (c clone : Value) (s s' : State) : Type 0 where
  pub fresh : ((s'.mm clone).ref_count ≡ 1) × ((s'.mm clone).kind ≡ closure_k)
  pub values : (p : ℕ) → p ≢ clone → s'.payload p ≡ s.payload p
  pub functions : (p : ℕ) → p ≢ clone → s'.func p ≡ s.func p
  pub headers : (p : ℕ) → p ≢ clone → s'.mm p ≡ (dups count 0 (s.payload c) s).mm p

module _ (h : Handlers) (enter_functions : EnterFunctions) (f count cap : ℕ) (args : ℕ → Value)
    (c : Value) (s : State) (d : IsClosure f count cap args c s) (clone : Value) (m : Memory)
    (run : mem_alloc h (closure_size cap) s.memory ≡ ok (clone, m)) (apart : clone ≢ c) where
  -- the clone before its arguments are copied
  abbrev pub blank : State
  blank =
      record (put_mm clone (record { ref_count = 1; kind = closure_k; info = pair_info 0 cap })
        (record s { memory = m })) { func = update s.func clone f }

  new_closure_run : new_closure h (s.func c) (closure_arg_cap c s) s ≡ ok (clone, blank)
  unfolding new_closure alloc
  new_closure_run = rw (d.function, d.capacity) (rw run refl)

  abbrev pub copied : State
  copied = clone_args count 0 c clone (set_arg_count clone count blank)

  pub closure_clone_run : closure_clone h enter_functions c s ≡ ok (clone, copied)
  unfolding closure_clone set_arg_count
  closure_clone_run = rw new_closure_run (ground (arith, d.counted))

  module _ (small : count < 2 ^ 8) (fits : cap < 2 ^ 8)
      (foreign : (i : ℕ) → i < count → args i ≢ clone) where
    copy : Copied c clone apart count 0 (set_arg_count clone count blank) copied
    copy = clone_args-Copied c clone apart count 0 (set_arg_count clone count blank)

    copied-headers : (p : ℕ) → p ≢ clone → copied.mm p ≡ (dups count 0 (s.payload c) s).mm p
    unfolding set_arg_count
    copied-headers p other =
        copy.headers p
        ∙ dups-mm_same count 0 (s.payload c) (set_arg_count clone count blank) s p (ground arith)

    copied-clone : copied.mm clone ≡ (set_arg_count clone count blank).mm clone
    unfolding set_arg_count
    copied-clone =
        copy.headers clone
        ∙ dups-mm_other count 0 (s.payload c) (set_arg_count clone count blank) clone
            (λ j a b. ground (arith, foreign j, d.arguments j))

    pub copied-Cloned : Cloned count c clone s copied
    unfolding set_arg_count
    copied-Cloned = record {
      fresh = ground (arith, copied-clone);
      values = copy.others;
      functions = λ p other. ground (arith, ap (λ (x : State). x.func p) copy.frame);
      headers = copied-headers;
    }

    pub copied-IsClosure :
        IsClosure f count cap args clone copied × IsClosure f count cap args c copied
    unfolding set_arg_count
    copied-IsClosure = (
      record {
        function = ground (arith, ap (λ (x : State). x.func clone) copy.frame);
        counted = ground (arith, copied-clone);
        capacity = ground (arith, copied-clone);
        arguments = λ i a. ground (arith, copy.args i, d.arguments i);
      },
      record {
        function = ground (arith, ap (λ (x : State). x.func c) copy.frame, d.function);
        counted = ground (arith, copied-headers c, dups-info count 0 (s.payload c) s c, d.counted);
        capacity =
            ground (arith, copied-headers c, dups-info count 0 (s.payload c) s c, d.capacity);
        arguments = λ i a. ground (
          arith,
          copy.others c,
          d.arguments i,
          ap (λ (g : ℕ → Value). g i) (copy.others c (λ e. apart (sym e))),
        );
      },
    )
