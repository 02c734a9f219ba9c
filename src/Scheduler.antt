-- ===== src/Scheduler.antt =====
-- The rest of src/ssm-scheduler.c and src/ssm-top-act.c: assignment, delayed assignment,
-- triggers, routines and the tick. What a routine's step function does is not known here: `steps`
-- gives it, by the pointer that stands in the activation record.
pub mod Join
pub mod Wake
pub mod Triggers
pub mod Assign
pub mod Later
pub mod Pop
pub mod Update
pub mod Settle
pub mod Instant
pub mod Tick
pub mod Contract
use ssm_runtime.Base.{
  ℕ, zero, suc, ◌+◌, ◌-◌, ◌*◌, ◌/◌, ◌%◌, ◌^◌, Bool, true, false, ◌&&◌, ◌||◌, not, Result, ok, throw,
  out_of_fuel, Error, ◌>>=◌, ltb, leb, ◌==◌, if◌then◌else◌, update,
}
use ssm_runtime.Heap.{queue_head}
use ssm_runtime.Memory.{Handlers, mem_free, incr64, decr64}
use ssm_runtime.State.{
  State, Sv, Act, Trigger, Link, Value, null, never, event_queue_size, later_time_in, put_sv,
  put_act, put_trigger,
}
use ssm_runtime.Queues.{
  incr16, decr16, act_queue_percolate_down, event_queue_percolate_up, event_queue_percolate_down,
  event_queue_reposition, find_queued_event, activate, next_event_time,
}
use ssm_runtime.Objects.{alloc, dup, drop}

-- How many rounds the loops of the model may take: how deep a drop follows pointers, how long a list
-- of triggers is, how many events and how many activations one tick handles.
pub record Limits : Type 0 where
  pub depth : ℕ
  pub triggers : ℕ
  pub events : ℕ
  pub steps : ℕ

-- The loop over a list of triggers: those routines are activated whose priority passes the test.
unfoldable pub activate_triggers : (fuel : ℕ) → (ℕ → Bool) → (trig : ℕ) → State → Result State
activate_triggers zero test trig s = out_of_fuel
activate_triggers (suc fuel) test trig s =
    let act = (s.trigger trig).act in
    let woken = if test (s.act act).priority then activate act s else ok s in
    let rest = woken >>= λ s'. activate_triggers fuel test (s'.trigger trig).next s' in
    if trig == null then ok s else rest

module _ (l : Limits) where
  unfoldable pub sv_assign_unsafe : (var prio : ℕ) → (val : Value) → State → Result State
  sv_assign_unsafe var prio val s =
      let s' = put_sv var (record (s.sv var) { value = val; last_updated = s.now }) s in
      activate_triggers l.triggers (λ priority. ltb prio priority) (s'.sv var).triggers s'

  -- ssm_assign
  unfoldable pub assign : (var : Value) → (prio : ℕ) → (val : Value) → State → Result State
  assign var prio val s =
      let s' = dup val s in drop l.depth (s'.sv var).value s' >>= sv_assign_unsafe var prio val

  unfoldable pub sv_later_unsafe : (var when : ℕ) → (val : Value) → State → Result State
  sv_later_unsafe var when val s =
      let s1 = put_sv var (record (s.sv var) { later_time = when }) s in
      let hole = incr16 s1.event_queue_len in
      let inserted =
        if ltb event_queue_size hole
        then throw Error.exhausted_event_queue
        else event_queue_percolate_up hole var (record s1 { event_queue_len = hole }) in
      let moved = drop l.depth (s1.sv var).later_value s1 >>= λ s2.
      find_queued_event var s2 >>= λ place. event_queue_reposition place when var s2 in
      let set_value : State → Result State =
        λ s3. ok (put_sv var (record (s3.sv var) { later_value = val }) s3) in
      if ltb when s.now
      then throw Error.invalid_time
      else ((if later_time_in s var == never then inserted else moved) >>= set_value)

  -- ssm_later
  unfoldable pub later : (var : Value) → (when : ℕ) → (val : Value) → State → Result State
  later var when val s = sv_later_unsafe var when val (dup val s)

  unfoldable pub sv_update : (sv : ℕ) → State → Result State
  sv_update sv s =
      if not (s.now == later_time_in s sv)
      then throw Error.not_ready
      else (drop l.depth (s.sv sv).value s >>= λ s1.
          let s2 =
            put_sv sv
              (record (s1.sv sv) {
                value = (s1.sv sv).later_value;
                last_updated = s1.now;
                later_time = never;
              })
              s1 in
          activate_triggers l.triggers (λ priority. true) (s2.sv sv).triggers s2)

unfoldable pub sensitize : (var trig : ℕ) → State → State
sensitize var trig s =
    let first = (s.sv var).triggers in
    let s1 = put_trigger trig (record (s.trigger trig) { next = first }) s in
    let s2 =
      if first == null
      then s1
      else put_trigger first (record (s1.trigger first) { prev_ptr = Link.next_of trig }) s1 in
    let s3 = put_sv var (record (s2.sv var) { triggers = trig }) s2 in
    put_trigger trig (record (s3.trigger trig) { prev_ptr = Link.triggers_of var }) s3

-- `*link = p`
unfoldable pub write_link : Link → (p : ℕ) → State → State
write_link (Link.triggers_of var) p s = put_sv var (record (s.sv var) { triggers = p }) s
write_link (Link.next_of trig) p s = put_trigger trig (record (s.trigger trig) { next = p }) s

unfoldable pub desensitize : (trig : ℕ) → State → State
desensitize trig s =
    let s1 = write_link (s.trigger trig).prev_ptr (s.trigger trig).next s in
    let next = (s1.trigger trig).next in
    if next == null
    then s1
    else put_trigger next (record (s1.trigger next) { prev_ptr = (s1.trigger trig).prev_ptr }) s1

unfoldable pub reset : State → State
reset s = record s { now = 0; event_queue_len = 0; act_queue_len = 0 }

unfoldable pub set_now : (next : ℕ) → State → Result State
set_now next s =
    if leb next s.now
    then throw Error.invalid_time
    else if not (s.event_queue_len == 0) && ltb (later_time_in s (s.event_queue queue_head)) next
    then throw Error.not_ready
    else ok (record s { now = next })

unfoldable pub enter : Handlers → (size step parent priority depth : ℕ) → State → Result (ℕ × State)
enter h size step parent priority depth s = alloc h size s >>= λ (act, s1).
    let s2 =
      put_act act
        (record {
          step = step;
          caller = parent;
          pc = 0;
          children = 0;
          priority = priority;
          depth = depth;
          scheduled = false;
        })
        s1 in
    let s3 =
      put_act parent (record (s2.act parent) { children = incr16 (s2.act parent).children }) s2 in
    ok (act, record s3 { num_processes = incr64 s3.num_processes })

-- What the step functions do: the pointer of the function, and the routine that it is called for.
abbrev pub Steps : Type 0
Steps = (step act : ℕ) → State → Result State

-- calls the step function of `act`
abbrev pub run_step : Steps → (act : ℕ) → State → Result State
run_step steps act s = steps (s.act act).step act s

unfoldable pub leave : Steps → (act size : ℕ) → State → Result State
leave steps act size s =
    let parent = (s.act act).caller in
    let s1 = record s {
      num_processes = decr64 s.num_processes;
      memory = mem_free act size s.memory;
    } in
    let s2 =
      put_act parent (record (s1.act parent) { children = decr16 (s1.act parent).children }) s1 in
    if (s2.act parent).children == 0 then run_step steps parent s2 else ok s2

-- `ssm_top_return`, the step function of `ssm_top_parent`
unfoldable pub top_return : (act : ℕ) → State → Result State
top_return act s = ok s

-- Removal of the root: the last entry goes to the front and percolates down.
unfoldable pub event_queue_pop : State → Result State
event_queue_pop s =
    let to_insert = s.event_queue s.event_queue_len in
    let s' = record s { event_queue_len = decr16 s.event_queue_len } in
    if s'.event_queue_len == 0 then ok s' else event_queue_percolate_down queue_head to_insert s'

unfoldable pub act_queue_pop : State → Result State
act_queue_pop s =
    let to_insert = s.act_queue s.act_queue_len in
    let s' = record s { act_queue_len = decr16 s.act_queue_len } in
    if s'.act_queue_len == 0 then ok s' else act_queue_percolate_down queue_head to_insert s'

-- The routine of the lowest priority number is marked idle, taken off the queue, and run.
unfoldable pub act_step : Steps → State → Result State
act_step steps s =
    let to_run = s.act_queue queue_head in
    act_queue_pop (put_act to_run (record (s.act to_run) { scheduled = false }) s)
    >>= run_step steps to_run

unfoldable pub tick_acts : (fuel : ℕ) → Steps → State → Result State
tick_acts zero steps s = out_of_fuel
tick_acts (suc fuel) steps s =
    let rest = act_step steps s >>= tick_acts fuel steps in
    if ltb 0 s.act_queue_len then rest else ok s

unfoldable pub tick_advance : State → Result State
tick_advance s =
    if not (s.act_queue_len == 0)
      && not (next_event_time s == never)
      && ltb (next_event_time s) s.now
    then throw Error.not_ready
    else if s.act_queue_len == 0 && ltb 0 s.event_queue_len
    then set_now (next_event_time s) s
    else ok s

module _ (l : Limits) where
  -- Every variable that is due now is updated.
  unfoldable pub tick_events : (fuel : ℕ) → State → Result State
  tick_events zero s = out_of_fuel
  tick_events (suc fuel) s =
      let rest = sv_update l (s.event_queue queue_head) s >>= λ s1.
      event_queue_pop s1 >>= tick_events fuel in
      if ltb 0 s.event_queue_len && later_time_in s (s.event_queue queue_head) == s.now
      then rest
      else ok s

  unfoldable pub tick : Steps → State → Result State
  tick steps s = tick_advance s >>= λ s1. tick_events l.events s1 >>= tick_acts l.steps steps
