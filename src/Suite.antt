-- ===== src/Suite.antt =====
-- test/test-scheduler.c: what the tests of the scheduler do, over the model of the runtime. Printing has no
-- effect on the state.
pub mod Sorting
pub mod Tally
pub mod Drain
pub mod Filling
pub mod Sort
pub mod Unscheduling
pub mod Activation
pub mod ActDrain
pub mod ActSort
pub mod Rounds
pub mod Blobs
use ssm_runtime.Base.{
  ℕ, zero, suc, ◌+◌, ◌-◌, ◌%◌, ◌^◌, Bool, true, false, not, ◌&&◌, List, [], ◌∷◌, Result, ok,
  out_of_fuel, ◌>>=◌, assert, ltb, leb, ◌==◌, if◌then◌else◌, update, length,
}
use ssm_runtime.Memory.{Handlers}
use ssm_runtime.State.{State, Value, never, later_time_in, priority_in, marshal, put_sv, put_act}
use ssm_runtime.Heap.{queue_head}
use ssm_runtime.Queues.{activate, unschedule, next_event_time}
use ssm_runtime.Queues.Checks.{event_queue_consistency_check, act_queue_consistency_check}
use ssm_runtime.Objects.{drop, new_sv}
use ssm_runtime.Scheduler.{Limits, Steps, later, reset, event_queue_pop, act_queue_pop, tick}

-- DUMMY_VALUE
abbrev pub dummy_value : Value
dummy_value = marshal 0

-- `(char) t`, and the character at a pointer into a text
abbrev pub char_of : (t : ℕ) → ℕ
char_of t = t % 2 ^ 8

abbrev pub first : List ℕ → ℕ
first [] = 0
first (c ∷ cs) = c

abbrev pub tail : List ℕ → List ℕ
tail [] = []
tail (c ∷ cs) = cs

-- a consistency check between two steps
abbrev pub events_checked : State → Result State
events_checked s = event_queue_consistency_check s >>= λ u. ok s

abbrev pub acts_checked : State → Result State
acts_checked s = act_queue_consistency_check s >>= λ u. ok s

unfoldable pub check_starts_initialized : State → Result State
check_starts_initialized s =
    assert (s.now == 0) (assert (s.event_queue_len == 0) (assert (s.act_queue_len == 0) (ok s)))

-- The loops of `reset_all`, over the variables from `i` on.
unfoldable pub drop_variables :
    Limits → (variables : ℕ → Value) → (rounds i : ℕ) → State → Result State
drop_variables l variables zero i s = ok s
drop_variables l variables (suc rounds) i s =
    drop l.depth (variables i) s >>= drop_variables l variables rounds (i + 1)

unfoldable pub make_variables :
    Handlers → (variables : ℕ → Value) → (rounds i : ℕ) → State → Result ((ℕ → Value) × State)
make_variables h variables zero i s = ok (variables, s)
make_variables h variables (suc rounds) i s = new_sv h dummy_value s >>= λ (var, s1).
    make_variables h (update variables i var) rounds (i + 1) s1

-- `count` is NUM_VARIABLES.
unfoldable pub reset_all :
    Handlers → Limits → (count : ℕ) → (variables : ℕ → Value) → State → Result ((ℕ → Value) × State)
reset_all h l count variables s = drop_variables l variables count 0 s >>= λ s1.
    make_variables h variables count 0 (reset s1) >>= λ (made, s2).
    check_starts_initialized s2 >>= λ s3. ok (made, s3)

-- An event for each character, at the time that it is.
unfoldable pub schedule_string :
    Limits → (variables : ℕ → Value) → (var : ℕ) → (input : List ℕ) → State → Result State
schedule_string l variables var [] s = ok s
schedule_string l variables var (c ∷ cs) s =
    later l (variables var) c dummy_value s
    >>= events_checked
    >>= schedule_string l variables (var + 1) cs

-- The loop that takes the events off the queue and compares their times with what is expected.
unfoldable pub drain_events : (fuel : ℕ) → (expected : List ℕ) → State → Result State
drain_events zero expected s = out_of_fuel
drain_events (suc fuel) expected s =
    let root = s.event_queue queue_head in
    let s1 = put_sv root (record (s.sv root) { later_time = never }) s in
    let rest = event_queue_pop s1 >>= events_checked >>= drain_events fuel (tail expected) in
    if s.event_queue_len == 0
    then ok s
    else assert (char_of (later_time_in s root) == first expected) rest

-- `event_queue_sort_string` after `reset_all`
unfoldable pub sort_events :
    Limits → (variables : ℕ → Value) → (input expected : List ℕ) → State → Result State
sort_events l variables input expected s = assert (s.event_queue_len == 0) (
    schedule_string l variables 0 input s >>= λ s1.
    drain_events (suc s1.event_queue_len) expected s1)

-- The loops of `event_queue_unschedule_string` that take the first events off again.
unfoldable pub unschedule_first : (variables : ℕ → Value) → (rounds i : ℕ) → State → Result State
unschedule_first variables zero i s = ok s
unschedule_first variables (suc rounds) i s =
    unschedule (variables i) s >>= events_checked >>= unschedule_first variables rounds (i + 1)

-- `event_queue_unschedule_string` after `reset_all`
unfoldable pub unschedule_events :
    Limits
    → (variables : ℕ → Value) → (input : List ℕ) → (n : ℕ) → (expected : List ℕ) → State
    → Result State
unschedule_events l variables input n expected s =
    schedule_string l variables 0 input s
    >>= unschedule_first variables n 0
    >>= unschedule_first variables n 0
    >>= λ s1. drain_events (suc s1.event_queue_len) expected s1

-- Each routine gets a character for its priority, and is scheduled.
unfoldable pub activate_string : (acts : ℕ → ℕ) → (i : ℕ) → (input : List ℕ) → State → Result State
activate_string acts i [] s = ok s
activate_string acts i (c ∷ cs) s =
    let act = acts i in
    activate act (put_act act (record (s.act act) { scheduled = false; priority = c }) s)
    >>= acts_checked
    >>= activate_string acts (i + 1) cs

-- The loop that takes the routines off the queue, which leaves them marked.
unfoldable pub drain_acts : (fuel : ℕ) → (expected : List ℕ) → State → Result State
drain_acts zero expected s = out_of_fuel
drain_acts (suc fuel) expected s =
    let c = char_of (priority_in s (s.act_queue queue_head)) in
    let rest = act_queue_pop s >>= acts_checked >>= drain_acts fuel (tail expected) in
    if s.act_queue_len == 0 then ok s else assert (c == first expected) rest

-- `act_queue_sort_string` after `reset_all`
unfoldable pub sort_acts : (acts : ℕ → ℕ) → (input expected : List ℕ) → State → Result State
sort_acts acts input expected s =
    assert (s.act_queue_len == 0)
      (activate_string acts 0 input s >>= λ s1. drain_acts (suc s1.act_queue_len) expected s1)

-- Each test starts with `reset_all`, and leaves the variables that it made.
unfoldable pub after_reset :
    Handlers
    → Limits
    → (count : ℕ) → (test : (variables : ℕ → Value) → State → Result State) → (ℕ → Value) × State
    → Result ((ℕ → Value) × State)
after_reset h l count test (variables, s) =
    reset_all h l count variables s >>= λ (made, s1). test made s1 >>= λ s2. ok (made, s2)
