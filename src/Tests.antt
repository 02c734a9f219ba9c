-- ===== src/Tests.antt =====
-- A small program state, on which the tests and the examples of the child modules run: variable 2
-- is pending at 5 and wakes the routines 6 and 8, variable 4 is pending at 7. The value of variable 2 is
-- the object 16, which holds the last reference to variable 4.
pub mod Packets
pub mod Calls
mod Programs
mod Texts
mod Blobs
mod Scheduling
mod Echo
mod Sequences
pub mod Boards
pub mod Structures
pub mod Ticks
pub mod Pools
use ssm_runtime.Base.{
  ℕ, ◌+◌, ◌*◌, ◌≤◌, ◌<◌, ◌≡◌, ◌⊎◌, inl, inr, refl, Bool, true, false, List, [], ◌∷◌, arith, ltb,
  ◌==◌, if◌then◌else◌, length,
}
use ssm_runtime.Heap.Order.{IsHeap}
use ssm_runtime.Heap.Count.{count}
use ssm_runtime.Memory.{Memory, end_of_freelist}
use ssm_runtime.State.{
  State, Mm, Sv, Act, Trigger, Link, null, never, adt_k, sv_k, pair_info, later_time_in, info_count,
}
use ssm_runtime.Queues.Acts.{ActInv}
use ssm_runtime.Queues.Events.{EventInv}
use ssm_runtime.Queues.Roster.{Roster}
use ssm_runtime.Objects.Sound.{Sound, payload_count}
use ssm_runtime.Scheduler.{Limits}
use ssm_runtime.Scheduler.Wake.{Chain, Listed}
use ssm_runtime.Scheduler.Triggers.{Lists, Linked, has}
use ssm_runtime.Scheduler.Update.{TickInv}

abbrev pub empty_memory : Memory
empty_memory = record {
  free_list_head = λ p. end_of_freelist;
  free_list_next = λ a. 0;
  page_calls = 0;
  mem_calls = 0;
  freed_mem = [];
  num_pages_allocated = 0;
  pages_allocated = λ p. 0;
  live_objects = 0;
  objects_allocated = 0;
  objects_freed = 0;
}

abbrev pub variable : (later_time triggers value : ℕ) → Sv
variable later_time triggers value = record {
  later_time = later_time;
  last_updated = never;
  triggers = triggers;
  value = value;
  later_value = 11;
}

abbrev pub world : (now : ℕ) → State
world now = record {
  now = now;
  event_queue = λ i. i * 2;
  event_queue_len = 2;
  act_queue = λ i. 0;
  act_queue_len = 0;
  num_processes = 2;
  mm = λ p.
      if p == 16
      then record { ref_count = 1; kind = adt_k; info = pair_info 1 0 }
      else record { ref_count = 1; kind = sv_k; info = 0 };
  sv = λ p.
      if p == 2
      then variable 5 10 16
      else if p == 4
      then variable 7 null 21
      else variable never null 21;
  trigger = λ t.
      if t == 10
      then record { next = 12; prev_ptr = Link.triggers_of 2; act = 6 }
      else record { next = null; prev_ptr = Link.next_of 10; act = 8 };
  act = λ a. record {
    step = a;
    caller = 0;
    pc = 0;
    children = 0;
    priority = if a == 6 then 300 else 200;
    depth = 4;
    scheduled = false;
  };
  time = λ t. 0;
  func = λ c. 0;
  payload = λ p i. 4;
  memory = empty_memory;
}

abbrev pub routines : List ℕ
routines = 6 ∷ 8 ∷ []

abbrev pub triggers_in_world : ℕ → List ℕ
triggers_in_world v = if v == 2 then 10 ∷ 12 ∷ [] else []

abbrev pub rank : ℕ → ℕ
rank p = if p == 4 then 0 else if p == 16 then 1 else 2

abbrev pub limits : Limits
limits = record { depth = 3; triggers = 3; events = 2049; steps = 3 }

pub world-EventInv : (now : ℕ) → EventInv (world now)
unfolding count
world-EventInv now = record {
  heap = λ i a b. ground arith;
  counted = λ p. ground arith;
  bounded = omega arith;
}

pub world-ActInv : (now : ℕ) → ActInv (world now)
unfolding count
world-ActInv now = record {
  heap = λ i a b. absurd (omega arith);
  counted = λ a. refl;
  bounded = omega arith;
}

pub world-Roster : (now : ℕ) → Roster routines (world now)
world-Roster now = record { small = omega arith; listed = λ a on. absurd (ground arith) }

pub world-Sound : (now : ℕ) → Sound rank (world now)
world-Sound now = record {
  kinds = λ p. ground arith;
  payloads = λ p i h e. ground (arith, h);
  values = λ p. ground arith;
  laters = λ p on. ground arith;
}

-- variable 2 alone has triggers
in_world : (v : ℕ) → (v ≡ 2) ⊎ ((triggers_in_world v ≡ []) × (((world 0).sv v).triggers ≡ null))
in_world v = ground arith

pub world-Lists : (now : ℕ) → Lists triggers_in_world (world now)
world-Lists now = record {
  linked = λ v. elim (in_world v) [
    | inl e ↦ rw e (refl, ground arith, refl, (refl, ground arith, refl, refl))
    | inr (e, f) ↦ rw (e, f) refl
  ];
  distinct = λ v. elim (in_world v) [ inl e ↦ rw e (refl, (refl, tt)) | inr (e, f) ↦ rw e tt ];
  apart = λ v w t h k. ground arith;
}

pub world-Chain : (now p : ℕ) → Chain (world now) ((world now).sv p).triggers (triggers_in_world p)
world-Chain now p = elim (in_world p) [
  | inl e ↦ rw e (refl, ground arith, (refl, ground arith, refl))
  | inr (e, f) ↦ rw (e, f) refl
]

pub world-Listed : (now p : ℕ) → Listed routines (world now) (triggers_in_world p)
world-Listed now p = elim (in_world p) [ inl e ↦ rw e (refl, (refl, tt)) | inr (e, f) ↦ rw e tt ]

pub world-TickInv : (now : ℕ) → now ≤ 5 → TickInv limits routines rank triggers_in_world (world now)
world-TickInv now h = record {
  events = world-EventInv now;
  acts = world-ActInv now;
  roster = world-Roster now;
  sound = world-Sound now;
  chains = world-Chain now;
  listed = world-Listed now;
  short = λ p. ground arith;
  deep = λ p. ground arith;
  clock = omega (arith, h);
  range = λ p. ground arith;
  future = λ p. ground (arith, h);
}
