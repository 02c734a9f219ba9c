-- ===== src/Examples.antt =====
-- The example programs, examples/simulation, as programs over the runtime. The fields that a routine
-- has behind its activation record are words at addresses of their own, since some are passed by
-- pointer; a trigger among them takes three words. What is printed has no effect on the state.
pub mod Start
pub mod Alone
pub mod OneTwo
pub mod Clock
pub mod Fib
pub mod Hello
pub mod Counter
pub mod Cons
pub mod Closure
pub mod MapClosure
pub mod Echo
use ssm_runtime.Base.{ℕ, ◌+◌, ◌-◌, ◌*◌, ◌%◌, ◌^◌, Bool, not, Option, none, some, update, ◌==◌}
use ssm_runtime.State.{State, Value, marshal, put_trigger}
use ssm_runtime.Simulation.{second}

-- sizeof(ssm_act_t), and a record with `words` words of fields behind it
abbrev pub sizeof_act : ℕ
sizeof_act = 32

abbrev pub sizeof_routine : (words : ℕ) → ℕ
sizeof_routine words = sizeof_act + 8 * words

-- the address of the field that `i` words precede
abbrev pub field : (act i : ℕ) → ℕ
field act i = act + sizeof_act + 8 * i

-- `*p`, and `*p = v`
abbrev pub cell : (p : ℕ) → State → Value
cell p s = s.payload p 0

abbrev pub put_cell : (p : ℕ) → Value → State → State
put_cell p v s = record s { payload = update s.payload p (update (s.payload p) 0 v) }

-- `cont->trigger.act = act`
abbrev pub own_trigger : (act trig : ℕ) → State → State
own_trigger act trig s = put_trigger trig (record (s.trigger trig) { act = act }) s

-- ssm_depth_t and ssm_priority_t arithmetic
abbrev pub deeper : (levels depth : ℕ) → ℕ
deeper levels depth = (depth + (2 ^ 8 - levels)) % 2 ^ 8

-- `priority + k * pinc`, with `pinc = 1 << depth`
abbrev pub priority_at : (priority k depth : ℕ) → ℕ
priority_at priority k depth = (priority + k * 2 ^ depth) % 2 ^ 32

-- `ssm_now() + d`
abbrev pub after : (d : ℕ) → State → ℕ
after d s = (s.now + d) % 2 ^ 64

-- EVENT_VALUE
abbrev pub event_value : Value
event_value = marshal 0

-- `ssm_has_children`
abbrev pub has_children : (act : ℕ) → State → Bool
has_children act s = not ((s.act act).children == 0)

-- what a call writes to `*ret` at once, if anything
abbrev pub returned : (ret : ℕ) → Option Value × State → State
returned ret (none, s) = s
returned ret (some v, s) = put_cell ret v s
