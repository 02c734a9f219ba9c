-- ===== src/Simulation/CommandLine/Limit.antt =====
-- The limit on the command line of the simulation.
use ssm_runtime.Base.{
  ℕ, ◌^◌, ◌<◌, ◌≡◌, refl, sym, ap, ◌∙◌, false, List, [], ◌∷◌, arith, ◌==◌, Bool-cases, inl, inr,
  ℕ_discrete, Result, ok, ◌>>=◌,
}
use ssm_runtime.State.{State}
use ssm_runtime.Scheduler.{Limits, Steps}
use ssm_runtime.Simulation.{main}
use ssm_runtime.Simulation.CommandLine.{
  Text, same_text, zero_text, short_limit, atoi, simulate, parse_args, request, serve, run_command,
}
use ssm_runtime.Simulation.CommandLine.Decimal.{decimal, atoi-decimal, same_text_sound}

zero_text_lem : (n : ℕ) → n < 2 ^ 64 → same_text (decimal n) zero_text ≡ (n == 0)
unfolding decimal atoi
zero_text_lem n small = elim (Bool-cases (same_text (decimal n) zero_text)) [
  | inl e ↦
      let zero_value : n ≡ 0 =
        sym (atoi-decimal n small) ∙ ap atoi (same_text_sound (decimal n) zero_text e) in
      ground (arith, e, zero_value)
  | inr e ↦ elim (ℕ_discrete n 0) [
    | yes f ↦ absurd (ground (arith, sym e ∙ ap (λ m. same_text (decimal m) zero_text) f))
    | no f ↦ ground (arith, e, f)
  ]
]

-- A number that is printed in decimals behind `-l` is the limit with which the rest of the command line is
-- read, if it fits an int; 0 is no limit.
pub parse_args-decimal :
    (n stop_at_s : ℕ) (rest : List Text)
    → n < 2 ^ 31
    → parse_args (short_limit ∷ decimal n ∷ rest) false stop_at_s ≡ parse_args rest false n
unfolding parse_args
parse_args-decimal n stop_at_s rest small =
    ground (arith, zero_text_lem n (omega arith), atoi-decimal n (omega arith))

-- a run of the program for a request
pub run_command_run :
    (fuel : ℕ) (l : Limits) (steps : Steps) (program_init : List Text → State → Result State)
    (program_exit : State → Result State) (arguments init_args : List Text) (stop_at_s : ℕ)
    (s s1 : State)
    → request arguments ≡ simulate stop_at_s init_args
    → main fuel l steps (program_init init_args) program_exit stop_at_s s ≡ ok s1
    → run_command fuel l steps program_init program_exit arguments s ≡ ok (0, s1)
unfolding run_command
run_command_run fuel l steps program_init program_exit arguments init_args stop_at_s s s1 asked
      run =
    ap (serve fuel l steps program_init program_exit s) asked
    ∙ ap (λ r. r >>= λ (t : State). ok (0, t)) run

-- what is left behind the limit is empty
pub request-decimal : (n : ℕ) → n < 2 ^ 31 → request (short_limit ∷ decimal n ∷ []) ≡ simulate n []
unfolding parse_args
request-decimal n small = parse_args-decimal n 20 [] small ∙ refl
