-- ===== src/Suite/Tally.antt =====
-- Counting the times of some variables, for the tests of test/test-scheduler.c.
use ssm_runtime.Base.{
  ℕ, zero, suc, ◌+◌, ◌<◌, ◌≡◌, ◌≢◌, refl, sym, ap, ◌∙◌, arith, one_if, ℕ_discrete,
}
use ssm_runtime.State.{never}

module _ (variables : ℕ → ℕ) where
  -- how many of the first `n` variables have their event at `t`
  abbrev pub tally : (t : ℕ) (time : ℕ → ℕ) (n : ℕ) → ℕ
  tally t time zero = 0
  tally t time (suc n) = one_if (time (variables n)) t + tally t time n

  -- the first `n` variables differ
  abbrev pub Apart : (n : ℕ) → Type 0
  Apart n = (i j : ℕ) → i < n → j < n → i ≢ j → variables i ≢ variables j

  pub tally-same :
      (t n : ℕ) (time time' : ℕ → ℕ)
      → ((i : ℕ) → i < n → time' (variables i) ≡ time (variables i))
      → tally t time' n ≡ tally t time n
  tally-same t zero time time' same = refl
  tally-same t (suc n) time time' same =
      ground (arith, same n (omega arith), tally-same t n time time' (λ i a. same i (omega arith)))

  pub tally-idle :
      (t n : ℕ) (time : ℕ → ℕ)
      → t ≢ never
      → ((i : ℕ) → i < n → time (variables i) ≡ never)
      → tally t time n ≡ 0
  tally-idle t zero time finite idle = refl
  tally-idle t (suc n) time finite idle =
      ground (arith, idle n (omega arith), tally-idle t n time finite (λ i a. idle i (omega arith)))

  -- one of them loses its event
  pub tally-cleared :
      (t n k p : ℕ) (time time' : ℕ → ℕ)
      → t ≢ never
      → Apart n
      → k < n
      → variables k ≡ p
      → time' p ≡ never
      → ((q : ℕ) → q ≢ p → time' q ≡ time q)
      → one_if (time p) t + tally t time' n ≡ tally t time n
  tally-cleared t zero k p time time' finite apart a at gone others = absurd (omega arith)
  tally-cleared t (suc n) k p time time' finite apart a at gone others = elim (ℕ_discrete k n) [
    | yes e ↦
        let here : variables n ≡ p = ap variables (sym e) ∙ at in
        let same = tally-same t n time time' (λ i b.
          others (variables i)
            (λ f. apart i n (omega arith) (omega arith) (omega arith) (f ∙ sym here))) in
        ground (arith, ap time' here, ap time here, gone, same)
    | no e ↦
        let kept =
          others (variables n) (λ f. apart n k (omega arith) a (omega arith) (f ∙ sym at)) in
        ground (
          arith,
          kept,
          tally-cleared t n k p time time' finite (λ i j b c. apart i j (omega arith) (omega arith))
              (omega arith) at gone others,
        )
  ]
