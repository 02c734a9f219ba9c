-- ===== src/Examples/Clock/Command.antt =====
-- The program of clock.c as a command of the simulation, with its limit on the command line.
use ssm_runtime.Base.{ℕ, ◌+◌, ◌*◌, ◌^◌, ◌≤◌, ◌<◌, ◌≡◌, [], ◌∷◌, ok}
use ssm_runtime.State.{State, never}
use ssm_runtime.Simulation.{second}
use ssm_runtime.Simulation.CommandLine.{short_limit, run_command}
use ssm_runtime.Simulation.CommandLine.Decimal.{decimal}
use ssm_runtime.Simulation.CommandLine.Limit.{run_command_run, request-decimal}
use ssm_runtime.Examples.Start.{pages, bounds, initial}
use ssm_runtime.Examples.Clock.{program, program_init}
use ssm_runtime.Examples.Clock.Rounds.{Rests}
use ssm_runtime.Examples.Clock.Run.{cast, main-Rests}

-- The command of clock.c with the option `-l n` runs from its static data to the limit: if `n` is a positive
-- int, the second after the limit comes before SSM_NEVER, and there are more rounds than seconds, then it returns
-- 0 at the limit, with `n` seconds counted, and both routines waiting for the next one.
pub run_command-Rests :
    (n rounds : ℕ)
    → 1 ≤ n
    → n < 2 ^ 31
    → (n + 1) * second < never
    → n < rounds
    → (s' : State) × (run_command rounds bounds
          (program pages bounds 10)
          (λ init_args. program_init pages 8)
          ok
          (short_limit ∷ decimal n ∷ [])
          initial
        ≡ ok (0, s'))
      × Rests cast (n * second + second) n s'
      × (s'.now ≡ n * second)
run_command-Rests n rounds some_limit small room enough =
    let (s', run, rests, now) = main-Rests n rounds some_limit room enough in
    (
      s',
      run_command_run rounds bounds (program pages bounds 10) (λ init_args. program_init pages 8) ok
          (short_limit ∷ decimal n ∷ []) [] n initial s' (request-decimal n small) run,
      rests,
      now,
    )
