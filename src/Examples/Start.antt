-- ===== src/Examples/Start.antt =====
-- examples/simulation: what a simulation starts from, and the bounds that the example programs run under.
use ssm_runtime.Base.{false, [], throw, Error}
use ssm_runtime.Memory.{Handlers}
use ssm_runtime.State.{State, Link, null, never}
use ssm_runtime.Scheduler.{Limits}
use ssm_runtime.Simulation.{alloc_page}

abbrev pub pages : Handlers
pages = record { alloc_page = alloc_page 65536; alloc_mem = λ k size. throw Error.exhausted_memory }

abbrev pub bounds : Limits
bounds = record { depth = 10; triggers = 10; events = 10; steps = 100 }

-- Static data, with the record of `ssm_top_parent` at 8.
abbrev pub initial : State
initial = record {
  now = 0;
  event_queue = λ i. 0;
  event_queue_len = 0;
  act_queue = λ i. 0;
  act_queue_len = 0;
  num_processes = 0;
  mm = λ p. record { ref_count = 0; kind = 0; info = 0 };
  sv = λ p. record {
    later_time = never;
    last_updated = never;
    triggers = null;
    value = 1;
    later_value = 1;
  };
  trigger = λ t. record { next = null; prev_ptr = Link.triggers_of 0; act = 0 };
  act = λ a. record {
    step = 0;
    caller = 0;
    pc = 0;
    children = 0;
    priority = 0;
    depth = 32;
    scheduled = false;
  };
  time = λ p. 0;
  func = λ p. 0;
  payload = λ p i. 0;
  memory = record {
    free_list_head = λ p. 0;
    free_list_next = λ a. 0;
    page_calls = 0;
    mem_calls = 0;
    freed_mem = [];
    num_pages_allocated = 0;
    pages_allocated = λ p. 0;
    live_objects = 0;
    objects_allocated = 0;
    objects_freed = 0;
  };
}
