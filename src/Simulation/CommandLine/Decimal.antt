-- ===== src/Simulation/CommandLine/Decimal.antt =====
-- Numbers as texts on the command line of the simulation.
use ssm_runtime.Base.{
  ℕ, zero, suc, ◌+◌, ◌-◌, ◌*◌, ◌/◌, ◌%◌, ◌^◌, ◌<◌, ◌≡◌, refl, ap, ◌∙◌, true, [], ◌∷◌, arith, ltb,
  if◌then◌else◌, Bool-cases, inl, inr,
}
use ssm_runtime.Simulation.CommandLine.{Text, same_text, is_digit, read_digits, atoi}

-- the digits of `n`, in front of `rest`
abbrev digits : (fuel n : ℕ) → Text → Text
digits zero n rest = rest
digits (suc fuel) n rest =
    let more = digits fuel (n / 10) ((48 + n % 10) ∷ rest) in
    if ltb n 10 then (48 + n) ∷ rest else more

-- `n` in decimals
unfoldable pub decimal : ℕ → Text
decimal n = digits (suc n) n []

read_digits-digits :
    (fuel n : ℕ) (rest : Text) → n < fuel → read_digits 0 (digits fuel n rest) ≡ read_digits n rest
read_digits-digits zero n rest enough = absurd (omega arith)
read_digits-digits (suc fuel) n rest enough =
    let step : n / 10 * 10 + (48 + n % 10 - 48) ≡ n = omega arith in
    ground (arith, step, read_digits-digits fuel (n / 10) ((48 + n % 10) ∷ rest))

-- the text starts with a digit
abbrev StartsDigit : Text → Type 0
StartsDigit [] = ⊥
StartsDigit (c ∷ cs) = is_digit c ≡ true

digits-StartsDigit : (fuel n : ℕ) (rest : Text) → n < fuel → StartsDigit (digits fuel n rest)
digits-StartsDigit zero n rest enough = absurd (omega arith)
digits-StartsDigit (suc fuel) n rest enough = elim (Bool-cases (ltb n 10)) [
  | inl e ↦ rw e (ground arith)
  | inr e ↦ rw e (digits-StartsDigit fuel (n / 10) ((48 + n % 10) ∷ rest) (ground arith))
]

atoi-StartsDigit : (xs : Text) → StartsDigit xs → atoi xs ≡ read_digits 0 xs % 2 ^ 64
unfolding atoi
atoi-StartsDigit [] h = elim h [ ]
atoi-StartsDigit (c ∷ cs) h = ground (arith, h)

pub atoi-decimal : (n : ℕ) → n < 2 ^ 64 → atoi (decimal n) ≡ n
unfolding decimal
atoi-decimal n small =
    let value = read_digits-digits (suc n) n [] (omega arith) in
    atoi-StartsDigit (digits (suc n) n []) (digits-StartsDigit (suc n) n [] (omega arith))
    ∙ ap (λ v. v % 2 ^ 64) value
    ∙ (omega arith)

pub same_text_sound : (xs ys : Text) → same_text xs ys ≡ true → xs ≡ ys
same_text_sound [] [] h = refl
same_text_sound (x ∷ xs) (y ∷ ys) h = ground (arith, h, same_text_sound xs ys)
same_text_sound [] (y ∷ ys) h = absurd (ground (arith, h))
same_text_sound (x ∷ xs) [] h = absurd (ground (arith, h))
