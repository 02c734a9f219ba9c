-- ===== src/State.antt =====
-- The data of include/ssm.h and the state of the runtime: the two queues, the clock, and the
-- objects that pointers lead to. A pointer is a number. The objects of each C type stand in a table
-- of their own, indexed by address; the header of a heap object, its first field, has the address
-- of the object. Field widths are those of the C types on a 64-bit machine.
use ssm_runtime.Base.{ℕ, ◌+◌, ◌-◌, ◌*◌, ◌/◌, ◌%◌, ◌^◌, Bool, ◌==◌, update}
use ssm_runtime.Heap.{Slots}
use ssm_runtime.Memory.{Memory}

abbrev pub null : ℕ
null = 0

-- SSM_NEVER
abbrev pub never : ℕ
never = 2 ^ 64 - 1

-- SSM_EVENT_QUEUE_SIZE and SSM_ACT_QUEUE_SIZE
abbrev pub event_queue_size : ℕ
event_queue_size = 2048

abbrev pub act_queue_size : ℕ
act_queue_size = 1024

-- SSM_ROOT_PRIORITY and SSM_ROOT_DEPTH
abbrev pub root_priority : ℕ
root_priority = 0

abbrev pub root_depth : ℕ
root_depth = 4 * 8

-- ssm_value_t: a word, which is a pointer to a header where it is even
abbrev pub Value : Type 0
Value = ℕ

abbrev pub on_heap : Value → Bool
on_heap v = v % 2 == 0

-- a 32-bit word whose last bit is set
unfoldable pub marshal : ℕ → Value
marshal v = v * 2 % 2 ^ 32 + 1

unfoldable pub unmarshal : Value → ℕ
unmarshal v = v % 2 ^ 32 / 2

-- enum ssm_kind
abbrev pub time_k : ℕ
time_k = 0

abbrev pub adt_k : ℕ
adt_k = 1

abbrev pub sv_k : ℕ
sv_k = 2

abbrev pub closure_k : ℕ
closure_k = 3

abbrev pub array_k : ℕ
array_k = 4

abbrev pub blob_k : ℕ
blob_k = 5

-- struct ssm_mm; `info` is the 16-bit union
pub record Mm : Type 0 where
  pub ref_count : ℕ
  pub kind : ℕ
  pub info : ℕ

-- The members of the union: the count is its first byte, the tag and the capacity its second.
abbrev pub info_count : Mm → ℕ
info_count mm = mm.info % 2 ^ 8

abbrev pub info_tag : Mm → ℕ
info_tag mm = mm.info / 2 ^ 8 % 2 ^ 8

abbrev pub info_cap : Mm → ℕ
info_cap = info_tag

abbrev pub info_size : Mm → ℕ
info_size mm = mm.info % 2 ^ 16

abbrev pub pair_info : (count tag : ℕ) → ℕ
pair_info count tag = count % 2 ^ 8 + tag % 2 ^ 8 * 2 ^ 8

-- struct ssm_sv, less its header
pub record Sv : Type 0 where
  pub later_time : ℕ
  pub last_updated : ℕ
  pub triggers : ℕ
  pub value : Value
  pub later_value : Value

-- What `prev_ptr` points at: the `triggers` field of a variable, or the `next` field of a trigger.
pub data Link : Type 0 where
  triggers_of : ℕ → Link
  next_of : ℕ → Link

-- struct ssm_trigger
pub record Trigger : Type 0 where
  pub next : ℕ
  pub prev_ptr : Link
  pub act : ℕ

-- struct ssm_act; `step` stands for a function pointer
pub record Act : Type 0 where
  pub step : ℕ
  pub caller : ℕ
  pub pc : ℕ
  pub children : ℕ
  pub priority : ℕ
  pub depth : ℕ
  pub scheduled : Bool

pub record State : Type 0 where
  pub now : ℕ
  pub event_queue : Slots
  pub event_queue_len : ℕ
  pub act_queue : Slots
  pub act_queue_len : ℕ
  pub num_processes : ℕ
  pub mm : ℕ → Mm
  pub sv : ℕ → Sv
  pub trigger : ℕ → Trigger
  pub act : ℕ → Act
  -- struct ssm_time's `time` and ssm_closure1's `f`
  pub time : ℕ → ℕ
  pub func : ℕ → ℕ
  -- the fields of an ADT, the arguments of a closure, the elements of an array
  pub payload : ℕ → ℕ → Value
  pub memory : Memory

-- The keys by which the two queues are sorted.
abbrev pub later_time_in : State → ℕ → ℕ
later_time_in s p = (s.sv p).later_time

abbrev pub priority_in : State → ℕ → ℕ
priority_in s p = (s.act p).priority

-- `p->field = ...` for a variable, a routine, a trigger and a header
abbrev pub put_sv : ℕ → Sv → State → State
put_sv p v s = record s { sv = update s.sv p v }

abbrev pub put_act : ℕ → Act → State → State
put_act p a s = record s { act = update s.act p a }

abbrev pub put_trigger : ℕ → Trigger → State → State
put_trigger p t s = record s { trigger = update s.trigger p t }

abbrev pub put_mm : ℕ → Mm → State → State
put_mm p m s = record s { mm = update s.mm p m }
