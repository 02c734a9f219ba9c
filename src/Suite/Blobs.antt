-- ===== src/Suite/Blobs.antt =====
-- test/test-mem.c: blobs of all sizes are made and dropped, and the statistics of the heap are printed.
use ssm_runtime.Base.{ℕ, List, [], ◌∷◌, Result, ok, ◌>>=◌, update}
use ssm_runtime.Memory.{Handlers}
use ssm_runtime.Memory.Statistics.{Statistics, statistics_collect}
use ssm_runtime.State.{State, Value}
use ssm_runtime.Objects.{new_blob, drop}
use ssm_runtime.Scheduler.{Limits}

-- The statements of `main`, with the index into `objects`.
pub data Statement : Type 0 where
  new : (i size : ℕ) → Statement
  discard : (i : ℕ) → Statement
  print : Statement

-- What the statements print.
unfoldable pub run_statements :
    Handlers
    → Limits
    → (fuel : ℕ) → List Statement
    → (objects : ℕ → Value) → State
    → Result (List Statistics)
run_statements h l fuel [] objects s = ok []
run_statements h l fuel (new i size ∷ rest) objects s =
    new_blob h size s >>= λ (blob, s1). run_statements h l fuel rest (update objects i blob) s1
run_statements h l fuel (discard i ∷ rest) objects s =
    drop l.depth (objects i) s >>= run_statements h l fuel rest objects
run_statements h l fuel (print ∷ rest) objects s = statistics_collect fuel s.memory >>= λ stats.
    run_statements h l fuel rest objects s >>= λ more. ok (stats ∷ more)

abbrev pub main_statements : List Statement
main_statements =
    print
    ∷ new 0 1
    ∷ print
    ∷ discard 0
    ∷ print
    ∷ new 0 1
    ∷ new 1 11
    ∷ new 2 12
    ∷ print
    ∷ new 3 13
    ∷ new 4 59
    ∷ new 5 60
    ∷ print
    ∷ new 6 61
    ∷ new 7 251
    ∷ new 8 252
    ∷ print
    ∷ new 9 253
    ∷ print
    ∷ discard 9
    ∷ print
    ∷ discard 8
    ∷ discard 6
    ∷ discard 7
    ∷ print
    ∷ discard 0
    ∷ discard 1
    ∷ discard 2
    ∷ print
    ∷ discard 3
    ∷ discard 4
    ∷ discard 5
    ∷ print
    ∷ []
