-- ===== src/Posix/Main.antt =====
-- The main loop of the POSIX platform, platform/posix/src/posix-main.c, and its handlers of standard
-- input and output, platform/posix/src/posix-io.c. A packet's time is a word: the raw time of the wall
-- clock in nanoseconds, then the same as a time of the runtime. Characters that are written have no
-- effect on the state; the loop of the input handler sees one character a round.
pub mod Keyboard
pub mod Output
pub mod Sleep
use ssm_runtime.Base.{
  ℕ, ◌+◌, ◌-◌, ◌*◌, ◌%◌, ◌^◌, ◌≤◌, ◌<◌, ◌≡◌, ◌⊎◌, refl, ap, ◌∙◌, inl, inr, true, false, not, Bool,
  Option, none, some, List, Result, ok, throw, Error, ◌>>=◌, arith, leb, ◌==◌, if◌then◌else◌,
  length, Bool-cases, update,
}
use ssm_runtime.Memory.{Handlers, mem_init}
use ssm_runtime.State.{
  State, Value, never, event_queue_size, root_priority, root_depth, marshal, unmarshal, put_act,
  put_trigger,
}
use ssm_runtime.Queues.{activate, active, next_event_time}
use ssm_runtime.Objects.{dup, drop, new_sv}
use ssm_runtime.Scheduler.{Limits, Steps, set_now, sensitize, desensitize, enter, leave, tick}
use ssm_runtime.Scheduler.Instant.{Contract}
use ssm_runtime.Scheduler.Tick.Quiet.{Quiet}
use ssm_runtime.Posix.{
  Timespec, Normal, timespec_diff, timespec_time, timespec_of, timespec_time-timespec_diff,
  timespec_time-timespec_of,
}
use ssm_runtime.Inputs.{Ring, insert_input}
use ssm_runtime.Inputs.Poll.{polled_input}
use ssm_runtime.Inputs.Consume.{Plain}
use ssm_runtime.Inputs.Round.{loop_round, Waiting}
use ssm_runtime.Inputs.Round.Safe.{loop_round-Waiting}

-- MAX_PAGES
abbrev max_pages : ℕ
max_pages = 2048

-- The page at the k-th call: `malloc` gives its address.
unfoldable pub alloc_page : (malloc : ℕ → ℕ) (k : ℕ) → Result ℕ
alloc_page malloc k = if leb max_pages k then throw Error.exhausted_memory else ok (malloc k)

-- ssm_raw_time64_scale
unfoldable pub raw_time64_scale : (t s : ℕ) → ℕ
raw_time64_scale t s = t * s % 2 ^ 64

-- `.ssm_time` of the union
abbrev pub ssm_time : ℕ → ℕ
ssm_time t = t

-- A round of `ssm_stdin_handler`, with the character `c` read at `now`.
unfoldable pub stdin_handler : (sv c : ℕ) (now : Timespec) → Ring ℕ → Ring ℕ
stdin_handler sv c now q = elim (insert_input sv (marshal c) (timespec_time now) q) [
  | some q' ↦ q'
  | none ↦ q
]

-- stdout_handler_act_t: the variable follows the activation record, and the trigger the variable.
abbrev pub ssm_stdout_of : (act : ℕ) → State → Value
ssm_stdout_of act s = s.payload act 0

abbrev pub trigger_of : (act : ℕ) → ℕ
trigger_of act = act + 40

abbrev pub sizeof_stdout_handler_act : ℕ
sizeof_stdout_handler_act = 64

module _ (l : Limits) (steps : Steps) where
  unfoldable pub step_stdout_handler : (act : ℕ) → State → Result State
  step_stdout_handler act s =
      let var = ssm_stdout_of act s in
      let pc = (s.act act).pc in
      let s1 = sensitize var (trigger_of act) s in
      if pc == 0
      then ok (put_act act (record (s1.act act) { pc = 1 }) s1)
      else if pc == 1
      then ok s
      else (drop l.depth var (desensitize (trigger_of act) s)
          >>= leave steps act sizeof_stdout_handler_act)

module _ (h : Handlers) where
  unfoldable pub enter_stdout_handler :
      (step parent priority depth : ℕ) → (argv : ℕ → Value) → State → Result (ℕ × State)
  enter_stdout_handler step parent priority depth argv s =
      enter h sizeof_stdout_handler_act step parent priority depth s >>= λ (act, s1). ok (
        act,
        put_trigger (trigger_of act) (record (s1.trigger (trigger_of act)) { act = act })
            (record s1 { payload = update s1.payload act (update (s1.payload act) 0 (argv 0)) }),
      )

-- How a round of the loop of `main` ends.
pub data Round : Type 0 where
  again stop : Round
  sleep : (timeout : Option Timespec) → Round

module _ (l : Limits) (steps : Steps) where
  unfoldable pub main_round :
      (wall_spec : Timespec) → Ring ℕ → State → Result (Round × Ring ℕ × State)
  main_round wall_spec q s =
      let next_time = next_event_time s in
      let waits : State → Round = λ s1.
        if next_time == never
        then (if not (active s1) then stop else sleep none)
        else sleep (some (timespec_diff (timespec_of next_time) wall_spec)) in
      loop_round (λ t. raw_time64_scale t 1) ssm_time l steps (timespec_time wall_spec) q s
      >>= λ (ticked, q1, s1). ok (if ticked then again else waits s1, q1, s1)

-- What `main` does before its loop. `step` is the pointer of `step_stdout_handler`, and
-- `enter_main` the program's own. It returns the variable of standard input, and the routine
-- of the output handler.
module _ (h : Handlers) (l : Limits) (steps : Steps) (step top_parent : ℕ)
    (enter_main : (caller priority depth : ℕ)
      → (argv : ℕ → Value) → State
      → Result (ℕ × State)) where
  unfoldable pub main_start : (init_time : Timespec) → State → Result (Value × ℕ × State)
  main_start init_time s =
      set_now (timespec_time init_time) (record s { memory = mem_init s.memory }) >>= λ s1.
      new_sv h (marshal 0) s1 >>= λ (stdin, s2).
      new_sv h (marshal 0) (dup stdin s2) >>= λ (stdout, s3).
      enter_stdout_handler h step top_parent (root_priority + 0 * 2 ^ (root_depth - 1))
        (root_depth - 1) (λ i. stdout) (dup stdout s3)
      >>= λ (stdout_act, s4). activate stdout_act s4 >>= λ s5.
          enter_main top_parent (root_priority + 1 * 2 ^ (root_depth - 1)) (root_depth - 1)
            (λ i. if i == 0 then stdin else stdout) s5
          >>= λ (main_act, s6).
              activate main_act s6 >>= λ s7. tick l steps s7 >>= λ s8. ok (stdin, stdout_act, s8)

-- What it does after its loop.
unfoldable pub main_finish :
    Limits → Steps → (stdin : Value) → (stdout_act : ℕ) → State → Result State
main_finish l steps stdin stdout_act s =
    activate stdout_act (put_act stdout_act (record (s.act stdout_act) { pc = 2 }) s)
    >>= tick l steps
    >>= drop l.depth stdin
