-- ===== src/Closures/Clone.antt =====
-- The loop of `ssm_closure_clone` of src/ssm-closure.c: the arguments are copied, and each gains a
-- reference.
use ssm_runtime.Base.{
  ℕ, zero, suc, ◌+◌, ◌≤◌, ◌<◌, ◌≡◌, ◌≢◌, refl, sym, ap, ◌∙◌, ◌&&◌, arith, ltb, leb, if◌then◌else◌,
}
use ssm_runtime.State.{State, Value}
use ssm_runtime.Objects.{dup, dups}
use ssm_runtime.Objects.Balance.{dup-frame, dup-mm}
use ssm_runtime.Closures.{set_arg, clone_args}

-- what a dup makes of a header depends on that header alone
pub dups-mm_same :
    (n i : ℕ) (arr : ℕ → Value) (s t : State) (p : ℕ)
    → s.mm p ≡ t.mm p
    → (dups n i arr s).mm p ≡ (dups n i arr t).mm p
unfolding dups
dups-mm_same zero i arr s t p e = e
dups-mm_same (suc n) i arr s t p e =
    dups-mm_same n (i + 1) arr (dup (arr i) s) (dup (arr i) t) p
      (ground (arith, dup-mm (arr i) s p, dup-mm (arr i) t p))

pub dups-mm_other :
    (n i : ℕ) (arr : ℕ → Value) (s : State) (p : ℕ)
    → ((j : ℕ) → i ≤ j → j < i + n → arr j ≢ p)
    → (dups n i arr s).mm p ≡ s.mm p
unfolding dups
dups-mm_other zero i arr s p h = refl
dups-mm_other (suc n) i arr s p h =
    dups-mm_other n (i + 1) arr (dup (arr i) s) p (λ j a b. h j (omega arith) (omega arith))
    ∙ ground (arith, dup-mm (arr i) s p, h i)

pub dups-info :
    (n i : ℕ) (arr : ℕ → Value) (s : State) (p : ℕ) → ((dups n i arr s).mm p).info ≡ (s.mm p).info
unfolding dups
dups-info zero i arr s p = refl
dups-info (suc n) i arr s p =
    dups-info n (i + 1) arr (dup (arr i) s) p ∙ ground (arith, dup-mm (arr i) s p)

pub dups-frame :
    (n i : ℕ) (arr : ℕ → Value) (s : State) → dups n i arr s ≡ record s { mm = (dups n i arr s).mm }
unfolding dups
dups-frame zero i arr s = refl
dups-frame (suc n) i arr s =
    dups-frame n (i + 1) arr (dup (arr i) s)
    ∙ ap (λ (x : State). record x { mm = (dups n (i + 1) arr (dup (arr i) s)).mm })
        (dup-frame (arr i) s)

module _ (closure clone : Value) (apart : clone ≢ closure) where
  -- The arguments from `i` on were copied.
  pub record Copied (n i : ℕ) (s s' : State) : Type 0 where
    pub args :
        (j : ℕ)
        → s'.payload clone j
          ≡ (if leb i j && ltb j (i + n) then s.payload closure j else s.payload clone j)
    pub others : (p : ℕ) → p ≢ clone → s'.payload p ≡ s.payload p
    pub headers : (p : ℕ) → s'.mm p ≡ (dups n i (s.payload closure) s).mm p
    pub frame : s' ≡ record s { mm = s'.mm; payload = s'.payload }

  pub clone_args-Copied : (n i : ℕ) (s : State) → Copied n i s (clone_args n i closure clone s)
  unfolding clone_args dups set_arg
  clone_args-Copied zero i s = record {
    args = λ j. ground arith;
    others = λ p h. refl;
    headers = λ p. refl;
    frame = refl;
  }
  clone_args-Copied (suc n) i s =
      let arr = s.payload closure in
      let s1 = dup (arr i) s in
      let s2 = set_arg clone i (s1.payload closure i) s1 in
      let d = clone_args-Copied n (i + 1) s2 in
      let values = ap (λ (x : State). x.payload) (dup-frame (arr i) s) in
      let result = clone_args n (i + 1) closure clone s2 in
      let same : s2.payload closure ≡ arr =
        ground (arith, ap (λ (f : ℕ → ℕ → Value). f closure) values) in
      record {
        args = λ j. ground (arith, d.args j, ap (λ (f : ℕ → ℕ → Value). f closure j) values);
        others = λ p h. ground (arith, d.others p h, ap (λ (f : ℕ → ℕ → Value). f p) values);
        headers =
            λ p. rw (sym (dups-mm_same n (i + 1) arr s2 s1 p refl)) (rw same at (d.headers p));
        frame =
            d.frame
            ∙ ap (λ (x : State). record x { mm = result.mm; payload = result.payload })
                (dup-frame (arr i) s);
      }
