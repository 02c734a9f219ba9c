-- ===== src/Queues.antt =====
-- The two queues of src/ssm-scheduler.c over the state: percolation with its assertion, activation
-- of a routine, and the removal of a variable's event.
pub mod Checks
pub mod Acts
pub mod Roster
pub mod Events
use ssm_runtime.Base.{
  ℕ, ◌+◌, ◌-◌, ◌*◌, ◌/◌, ◌%◌, ◌^◌, ◌<◌, ◌≤◌, ◌≡◌, Bool, true, false, ◌&&◌, ◌||◌, not, Option, none,
  some, Result, ok, throw, out_of_fuel, Error, ◌>>=◌, assert, ltb, leb, ◌==◌, if◌then◌else◌, update,
}
use ssm_runtime.Heap.{queue_head, percolate_up, percolate_down, find}
use ssm_runtime.State.{
  State, never, event_queue_size, act_queue_size, later_time_in, priority_in, put_sv, put_act,
}

-- q_idx_t arithmetic
abbrev pub incr16 : ℕ → ℕ
incr16 n = (n + 1) % 2 ^ 16

abbrev pub decr16 : ℕ → ℕ
decr16 n = (n + (2 ^ 16 - 1)) % 2 ^ 16

unfoldable pub act_queue_percolate_up : (hole act : ℕ) → State → Result State
act_queue_percolate_up hole act s = assert (leb queue_head hole && leb hole s.act_queue_len) (
    ok (
      put_act act (record (s.act act) { scheduled = true })
        (record s { act_queue = percolate_up (priority_in s) s.act_queue hole act })))

unfoldable pub act_queue_percolate_down : (hole act : ℕ) → State → Result State
act_queue_percolate_down hole act s = assert (leb queue_head hole && leb hole s.act_queue_len) (
    ok (record s {
      act_queue = percolate_down (priority_in s) s.act_queue s.act_queue_len hole act;
    }))

unfoldable pub event_queue_percolate_up : (hole var : ℕ) → State → Result State
event_queue_percolate_up hole var s =
    assert (leb queue_head hole && leb hole s.event_queue_len)
      (ok (record s { event_queue = percolate_up (later_time_in s) s.event_queue hole var }))

unfoldable pub event_queue_percolate_down : (hole var : ℕ) → State → Result State
event_queue_percolate_down hole var s = assert (leb queue_head hole && leb hole s.event_queue_len) (
    ok (record s {
      event_queue = percolate_down (later_time_in s) s.event_queue s.event_queue_len hole var;
    }))

-- a variable that is not found fails the assertion behind the loop
unfoldable pub find_queued_event : (var : ℕ) → State → Result ℕ
find_queued_event var s =
    assert (not (later_time_in s var == never)) (elim (find s.event_queue s.event_queue_len var) [
      | some i ↦ ok i
      | none ↦ throw Error.internal_error
    ])

unfoldable pub activate : (act : ℕ) → State → Result State
activate act s =
    if (s.act act).scheduled
    then ok s
    else let hole = incr16 s.act_queue_len in
      if ltb act_queue_size hole
      then throw Error.exhausted_act_queue
      else act_queue_percolate_up hole act (record s { act_queue_len = hole })

-- The end of `ssm_sv_later_unsafe` for a queued variable, and of `ssm_unschedule` for the one that
-- is moved into the hole: the text is the same.
unfoldable pub event_queue_reposition : (hole time var : ℕ) → State → Result State
event_queue_reposition hole time var s =
    if hole == queue_head || ltb (later_time_in s (s.event_queue (hole / 2))) time
    then event_queue_percolate_down hole var s
    else event_queue_percolate_up hole var s

unfoldable pub unschedule : (var : ℕ) → State → Result State
unschedule var s =
    if later_time_in s var == never
    then ok s
    else find_queued_event var s >>= λ hole.
        let moved_var = s.event_queue s.event_queue_len in
        let s' = record (put_sv var (record (s.sv var) { later_time = never }) s) {
          event_queue_len = decr16 s.event_queue_len;
        } in
        if ltb hole (queue_head + s'.event_queue_len)
        then event_queue_reposition hole (later_time_in s' moved_var) moved_var s'
        else ok s'

-- event_queue[1]->later_time, or SSM_NEVER
unfoldable pub next_event_time : State → ℕ
next_event_time s =
    if s.event_queue_len == 0 then never else later_time_in s (s.event_queue queue_head)

unfoldable pub active : State → Bool
active s = ltb 0 s.act_queue_len
