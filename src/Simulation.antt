-- ===== src/Simulation.antt =====
-- The simulation platform, platform/simulation/src/simulation-main.c: its page handler and its main
-- loop. The calls of the program's own entry points are parameters; printing and the reading of the
-- command line have no effect on the state.
pub mod CommandLine
pub mod Output
use ssm_runtime.Base.{
  ℕ, zero, suc, ◌+◌, ◌*◌, ◌%◌, ◌^◌, ◌≤◌, ◌<◌, ◌≡◌, ◌⊎◌, refl, inl, inr, ◌&&◌, not, List, Result, ok,
  throw, Error, out_of_fuel, ◌>>=◌, arith, ltb, leb, ◌==◌, if◌then◌else◌, length, Bool-cases,
}
use ssm_runtime.Memory.{mem_init}
use ssm_runtime.State.{State, never, event_queue_size}
use ssm_runtime.Queues.{next_event_time}
use ssm_runtime.Scheduler.{Limits, Steps, tick}
use ssm_runtime.Scheduler.Instant.{Contract}
use ssm_runtime.Scheduler.Tick.Quiet.{Quiet, tick-Quiet}

-- MAX_PAGES
abbrev pub max_pages : ℕ
max_pages = 2048

-- The page at the k-th call; no page is given back. The rows of `pages` are MAX_PAGES pointers wide.
unfoldable pub alloc_page : (pages k : ℕ) → Result ℕ
alloc_page pages k =
    if leb max_pages k then throw Error.exhausted_memory else ok (pages + k * (max_pages * 8))

-- SSM_SECOND
abbrev pub second : ℕ
second = 10 ^ 9

-- `stop_at`, from the limit in seconds
unfoldable pub stop_time : ℕ → ℕ
stop_time stop_at_s = if stop_at_s == 0 then never else stop_at_s * second % 2 ^ 64

-- The loop of `main`.
unfoldable pub run_until : (fuel : ℕ) → Limits → Steps → (stop_at : ℕ) → State → Result State
run_until zero l steps stop_at s = out_of_fuel
run_until (suc fuel) l steps stop_at s =
    let rest = tick l steps s >>= run_until fuel l steps stop_at in
    if not (next_event_time s == never) && ltb s.now stop_at then rest else ok s

-- `main` after the arguments are read: `program_init` and `program_exit` are the program's own.
unfoldable pub main :
    (fuel : ℕ)
    → Limits
    → Steps
    → (program_init program_exit : State → Result State) → (stop_at_s : ℕ) → State
    → Result State
main fuel l steps program_init program_exit stop_at_s s =
    program_init (record s { memory = mem_init s.memory })
    >>= tick l steps
    >>= run_until fuel l steps (stop_time stop_at_s)
    >>= program_exit

module _ (l : Limits) (u : List ℕ) (steps : Steps) (contract : Contract (Quiet l u) u steps)
    (events : event_queue_size < l.events) (routines : length u < l.steps) where
  -- The loop returns, with more rounds than there are time units to the limit, from a state with no
  -- routine scheduled and every event in the future, if the step functions schedule in the future alone.
  -- It leaves such a state, in which no event is pending or the limit is reached.
  pub run_until-Quiet :
      (fuel stop_at : ℕ) (s : State)
      → Quiet l u s
      → s.act_queue_len ≡ 0
      → s.now < never
      → stop_at ≤ s.now + fuel
      → (s' : State) × (run_until (suc fuel) l steps stop_at s ≡ ok s')
        × Quiet l u s'
        × (s'.act_queue_len ≡ 0)
        × ((next_event_time s' ≡ never) ⊎ (stop_at ≤ s'.now))
  unfolding run_until
  run_until-Quiet zero stop_at s quiet idle clock enough =
      (s, ground (arith, enough), quiet, idle, ground (arith, enough))
  run_until-Quiet (suc fuel) stop_at s quiet idle clock enough =
      elim (Bool-cases (not (next_event_time s == never) && ltb s.now stop_at)) [
        | inr over ↦ (s, rw over refl, quiet, idle, ground arith)
        | inl on ↦
            let (s1, run1, quiet1, idle1, time, clock1, le, lt) =
              tick-Quiet l u steps s quiet clock contract events routines in
            let (s2, run2, quiet2, idle2, done) =
              run_until-Quiet fuel stop_at s1 quiet1 idle1 clock1 (ground (arith, lt)) in
            (s2, rw on (rw run1 run2), quiet2, idle2, done)
      ]
