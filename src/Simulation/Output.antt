-- ===== src/Simulation/Output.antt =====
-- platform/simulation/src/simulation-io.c: the handler of standard output. Characters that are written have no
-- effect on the state.
use ssm_runtime.Base.{ℕ, ◌+◌, Result, ok, ◌>>=◌, ◌==◌, if◌then◌else◌, update}
use ssm_runtime.Memory.{Handlers}
use ssm_runtime.State.{State, Value, put_trigger}
use ssm_runtime.Scheduler.{Steps, sensitize, enter, leave}
use ssm_runtime.Scheduler.Contract.Resume.{resumed}

-- stdout_handler_act_t: the variable follows the activation record, and the trigger the variable.
abbrev pub ssm_stdout_of : (act : ℕ) → State → Value
ssm_stdout_of act s = s.payload (act + 32) 0

abbrev pub trigger_of : (act : ℕ) → ℕ
trigger_of act = act + 40

abbrev pub sizeof_stdout_handler_act : ℕ
sizeof_stdout_handler_act = 64

unfoldable pub step_stdout_handler : Steps → (act : ℕ) → State → Result State
step_stdout_handler steps act s =
    let pc = (s.act act).pc in
    let waits = resumed act 1 (sensitize (ssm_stdout_of act s) (trigger_of act) s) in
    if pc == 0
    then ok waits
    else if pc == 1
    then ok s
    else leave steps act sizeof_stdout_handler_act s

-- `step` is the pointer of `step_stdout_handler`.
unfoldable pub enter_stdout_handler :
    Handlers → (step parent priority depth : ℕ) → (argv : ℕ → Value) → State → Result (ℕ × State)
enter_stdout_handler h step parent priority depth argv s =
    enter h sizeof_stdout_handler_act step parent priority depth s >>= λ (act, s1).
    let stored = record s1 {
      payload = update s1.payload (act + 32) (update (s1.payload (act + 32)) 0 (argv 0));
    } in
    ok (
      act,
      put_trigger (trigger_of act) (record (s1.trigger (trigger_of act)) { act = act }) stored,
    )
