-- ===== src/Suite/Rounds.antt =====
-- test/test-scheduler.c: the tests that tick.
use ssm_runtime.Base.{
  ℕ, zero, suc, ◌+◌, ◌-◌, Bool, true, false, not, ◌&&◌, List, [], ◌∷◌, Result, ok, out_of_fuel,
  ◌>>=◌, assert, ltb, ◌==◌, if◌then◌else◌, update,
}
use ssm_runtime.State.{State, Value, never, null, priority_in, put_act, put_trigger}
use ssm_runtime.Queues.{activate, next_event_time}
use ssm_runtime.Scheduler.{Limits, Steps, later, sensitize, desensitize, activate_triggers, tick}
use ssm_runtime.Suite.{
  dummy_value, char_of, first, tail, events_checked, acts_checked, schedule_string,
}

-- SSM_ASSERT of a test on the state
abbrev pub expect : (State → Bool) → State → Result State
expect holds s = assert (holds s) (ok s)

abbrev pub no_event : State → Bool
no_event s = next_event_time s == never

-- `event_queue_basic` after `reset_all`
unfoldable pub event_basic : Limits → Steps → (variables : ℕ → Value) → State → Result State
event_basic l steps variables s =
    let var = variables 0 in
    expect no_event s
    >>= expect (λ t. not ((t.sv var).last_updated == t.now))
    >>= later l var 1 dummy_value
    >>= expect (λ t. t.event_queue_len == 1)
    >>= expect (λ t. next_event_time t == 1)
    >>= events_checked
    >>= tick l steps
    >>= expect (λ t. (t.sv var).last_updated == t.now)
    >>= expect (λ t. t.now == 1)
    >>= expect no_event
    >>= expect (λ t. t.event_queue_len == 0)

-- 'A' is 65, 'Z' is 90 and 'a' is 97
unfoldable pub swap_case : ℕ → ℕ
swap_case c = if ltb 90 c then c + 65 - 97 else c + 97 - 65

-- The second loop of `event_queue_reschedule_string`; ' ' is 32.
unfoldable pub reschedule_string :
    Limits → (variables : ℕ → Value) → (var : ℕ) → List ℕ → State → Result State
reschedule_string l variables var [] s = ok s
reschedule_string l variables var (c ∷ cs) s =
    (if c == 32 then ok s else later l (variables var) (swap_case c) dummy_value s)
    >>= events_checked
    >>= reschedule_string l variables (var + 1) cs

-- Its last loop.
unfoldable pub tick_out : (fuel : ℕ) → Limits → Steps → (expected : List ℕ) → State → Result State
tick_out zero l steps expected s = out_of_fuel
tick_out (suc fuel) l steps expected s =
    let rest =
      tick l steps s
      >>= events_checked
      >>= expect (λ t. char_of t.now == first expected)
      >>= tick_out fuel l steps (tail expected) in
    if no_event s then ok s else rest

-- `event_queue_reschedule_string` after `reset_all`
unfoldable pub reschedule_events :
    Limits → Steps → (variables : ℕ → Value) → (input expected : List ℕ) → State → Result State
reschedule_events l steps variables input expected s =
    schedule_string l variables 0 input s >>= reschedule_string l variables 0 input >>= λ s1.
    tick_out (suc s1.event_queue_len) l steps expected s1

-- `act_queue_basic` after `reset_all`
unfoldable pub act_basic : Limits → Steps → (acts : ℕ → ℕ) → State → Result State
act_basic l steps acts s =
    expect (λ t. t.act_queue_len == 0) s
    >>= expect (λ t. not (t.act (acts 0)).scheduled)
    >>= activate (acts 0)
    >>= expect (λ t. t.act_queue_len == 1)
    >>= acts_checked
    >>= tick l steps
    >>= expect (λ t. t.act_queue_len == 0)

-- The pointer `next_expected` is kept as the number of characters before it, in a cell.
abbrev pub text_at : List ℕ → (i : ℕ) → ℕ
text_at [] i = 0
text_at (c ∷ cs) zero = c
text_at (c ∷ cs) (suc i) = text_at cs i

abbrev pub set_cell : (p v : ℕ) → State → State
set_cell p v s = record s { payload = update s.payload p (update (s.payload p) 0 v) }

unfoldable pub check_priority_step : (next_expected : ℕ) → (expected : List ℕ) → Steps
check_priority_step next_expected expected step act s =
    let i = s.payload next_expected 0 in
    assert (not (act == null)) (
      assert (char_of (priority_in s act) == text_at expected i)
        (ok (set_cell next_expected (i + 1) s)))

-- The loops of `act_queue_sort_tick`, with `step` for the pointer of its step function.
unfoldable pub activate_ticked :
    (acts : ℕ → ℕ) → (step i : ℕ) → (input : List ℕ) → State → Result State
activate_ticked acts step i [] s = ok s
activate_ticked acts step i (c ∷ cs) s =
    let act = acts i in
    activate act
      (put_act act (record (s.act act) { step = step; scheduled = false; priority = c }) s)
    >>= expect (λ t. (t.act act).scheduled)
    >>= acts_checked
    >>= activate_ticked acts step (i + 1) cs

unfoldable pub none_scheduled : (acts : ℕ → ℕ) → (i : ℕ) → (input : List ℕ) → State → Bool
none_scheduled acts i [] s = true
none_scheduled acts i (c ∷ cs) s =
    not (s.act (acts i)).scheduled && none_scheduled acts (i + 1) cs s

-- `act_queue_sort_tick` after `reset_all`
unfoldable pub sort_tick :
    Limits
    → (acts : ℕ → ℕ) → (step next_expected : ℕ) → (input expected : List ℕ) → State
    → Result State
sort_tick l acts step next_expected input expected s =
    expect (λ t. t.act_queue_len == 0) s >>= activate_ticked acts step 0 input >>= λ s1.
    tick l (check_priority_step next_expected expected) (set_cell next_expected 0 s1)
    >>= acts_checked
    >>= expect (λ t. text_at expected (t.payload next_expected 0) == 0)
    >>= expect (λ t. t.act_queue_len == 0)
    >>= expect (none_scheduled acts 0 input)

-- `step0` and `step1`, which set the flags at `ran`.
unfoldable pub flag_steps : (ran : ℕ → ℕ) → Steps
flag_steps ran step act s = ok (set_cell (ran step) 1 s)

module _ (l : Limits) (ran : ℕ → ℕ) (var : Value) where
  -- A tick of `trigger_basic`, which is to run the one, the other or both, at the time `now`.
  unfoldable pub flagged_tick : (now : ℕ) → (first_runs second_runs : Bool) → State → Result State
  flagged_tick now first_runs second_runs s =
      tick l (flag_steps ran) (set_cell (ran 0) 0 (set_cell (ran 1) 0 s))
      >>= expect (λ t. t.now == now)
      >>= expect (λ t. if first_runs then t.payload (ran 0) 0 == 1 else t.payload (ran 0) 0 == 0)
      >>= expect (λ t. if second_runs then t.payload (ran 1) 0 == 1 else t.payload (ran 1) 0 == 0)

  -- an event at the time, and the tick that follows
  unfoldable pub event_tick :
      (prepare : State → State) → (now : ℕ) → (first_runs second_runs : Bool) → State → Result State
  event_tick prepare now first_runs second_runs s = later l var now dummy_value s >>= λ s1.
      flagged_tick now first_runs second_runs (prepare s1) >>= expect no_event

  -- `trigger_basic` after `reset_all`; `step0` is at 0, and `step1` at 1.
  unfoldable pub trigger_steps : (acts triggers : ℕ → ℕ) → State → Result State
  trigger_steps acts triggers s =
      let s1 = put_act (acts 0) (record (s.act (acts 0)) { step = 0; priority = 3 }) s in
      let s2 = put_act (acts 1) (record (s1.act (acts 1)) { step = 1; priority = 4 }) s1 in
      let owned : (trig act : ℕ) → State → State =
        λ trig act t. put_trigger trig (record (t.trigger trig) { act = act }) t in
      let s3 =
        owned (triggers 2) (acts 0)
          (owned (triggers 1) (acts 1) (owned (triggers 0) (acts 0) s2)) in
      let listen : (i : ℕ) → State → State = λ i. sensitize var (triggers i) in
      let leave_out : (i : ℕ) → State → State = λ i. desensitize (triggers i) in
      expect (λ t. not (t.act (acts 0)).scheduled) s3
      >>= expect (λ t. not (t.act (acts 1)).scheduled)
      >>= (λ t. event_tick (λ u. u) 1 true true (listen 2 (listen 1 (listen 0 t))))
      >>= event_tick (λ u. u) 2 true true
      >>= event_tick (leave_out 1) 3 true false
      >>= event_tick (leave_out 0) 4 true false
      >>= event_tick (leave_out 2) 5 false false
      >>= event_tick (λ u. listen 0 (listen 1 u)) 6 true true
      >>= (λ t. event_tick (λ u. u) 7 false true (leave_out 0 t))
      >>= (λ t.
          let t1 = listen 0 t in
          activate_triggers l.triggers (λ priority. ltb 0 priority) (t1.sv var).triggers t1)
      >>= flagged_tick 7 true true
      >>= (λ t. activate_triggers l.triggers (λ priority. ltb 3 priority) (t.sv var).triggers t)
      >>= flagged_tick 7 false true
