-- ===== src/Examples/Cons/Call.antt =====
-- A call of map_inc for a list with an item, up to where the call for its tail runs.
use ssm_runtime.Base.{
  ℕ, suc, ◌≤◌, ◌<◌, ◌≡◌, ◌≢◌, refl, true, false, ok, ◌>>=◌, arith, update, if◌then◌else◌, regroup,
  ◌∙◌,
}
use ssm_runtime.Heap.{percolate_up}
use ssm_runtime.Memory.{Handlers, Memory, mem_alloc, incr64}
use ssm_runtime.State.{State, Mm, Value, priority_in, on_heap, put_act}
use ssm_runtime.Queues.{incr16, activate}
use ssm_runtime.Objects.{incr8, decr8, dup, drop, drop_unsafe_with, alloc, tag}
use ssm_runtime.Scheduler.{Limits, Steps, run_step, enter, tick_acts}
use ssm_runtime.Scheduler.Contract.Resume.{resumed}
use ssm_runtime.Examples.Alone.{first_queued, activate_run, act_step_run}
use ssm_runtime.Examples.{field, cell, put_cell}
use ssm_runtime.Examples.Cons.{cons, map_inc, adt_field, enter_map_inc, map_cons, step_map_inc}
use ssm_runtime.Examples.Cons.Lists.{inc}

-- the headers after `dup`
abbrev pub duplicated : Value → (ℕ → Mm) → ℕ → Mm
duplicated v mm =
    if on_heap v then update mm v (record (mm v) { ref_count = incr8 (mm v).ref_count }) else mm

pub dup_lem : (v : Value) (s : State) → dup v s ≡ record s { mm = duplicated v s.mm }
unfolding dup
dup_lem v s = ground arith

-- the reference to `v` is given up for one to `tail`
abbrev pub moved : (v tail : Value) → State → State
moved v tail s =
    let mm = duplicated tail s.mm in
    record s { mm = update mm v (record (mm v) { ref_count = decr8 (mm v).ref_count }) }

pub moved_run :
    (fuel : ℕ) (v tail : Value) (s : State)
    → on_heap v ≡ true
    → v ≢ tail
    → 2 ≤ (s.mm v).ref_count
    → (s.mm v).ref_count < 256
    → drop (suc fuel) v (dup tail s) ≡ ok (moved v tail s)
unfolding drop drop_unsafe_with
moved_run fuel v tail s heap other shared small = rw (dup_lem tail s) (ground arith)

-- the record of a child of `act` at its start
abbrev pub entered : (step act child : ℕ) → Memory → State → State
entered step act child m s =
    let s1 =
      put_act child
        (record {
          step = step;
          caller = act;
          pc = 0;
          children = 0;
          priority = (s.act act).priority;
          depth = (s.act act).depth;
          scheduled = false;
        })
        (record s { memory = m }) in
    record (put_act act (record (s1.act act) { children = incr16 (s1.act act).children }) s1) {
      num_processes = incr64 s.num_processes;
    }

-- `act` waits while the child runs, which has been queued and taken off again
abbrev pub running : (act child : ℕ) → State → State
running act child s =
    let s1 =
      put_act child (record (s.act child) { scheduled = true })
        (record s {
          act_queue = percolate_up (priority_in s) s.act_queue 1 child;
          act_queue_len = 1;
        }) in
    let s2 = resumed act 1 s1 in
    record (put_act child (record (s2.act child) { scheduled = false }) s2) { act_queue_len = 0 }

running_run :
    (steps : Steps) (fuel act child : ℕ) (s : State)
    → s.act_queue_len ≡ 0
    → (s.act child).scheduled ≡ false
    → (activate child s >>= λ s1. ok (resumed act 1 s1) >>= tick_acts (suc fuel) steps)
      ≡ (run_step steps child (running act child s) >>= tick_acts fuel steps)
unfolding tick_acts
running_run steps fuel act child s idle fresh = rw (activate_run child s idle fresh) (
    rw
      (act_step_run steps child
        (resumed act 1 (
          put_act child (record (s.act child) { scheduled = true })
            (record s {
              act_queue = percolate_up (priority_in s) s.act_queue 1 child;
              act_queue_len = 1;
            })))
        refl (first_queued (priority_in s) s.act_queue child))
      refl)

entered_run :
    (h : Handlers) (step act child : ℕ) (m : Memory) (s : State)
    → mem_alloc h 64 s.memory ≡ ok (child, m)
    → enter h 64 step act (s.act act).priority (s.act act).depth s
      ≡ ok (child, entered step act child m s)
unfolding enter alloc
entered_run h step act child m s run = rw run refl

-- the arguments of the call
abbrev pub argued : (act child : ℕ) → (tail : Value) → State → State
argued act child tail s = put_cell (field child 3) (field act 2) (put_cell (field child 0) tail s)

-- what a call for `v` has done when the call for its tail runs
abbrev pub called : (act child : ℕ) → (v tail : Value) → (i : Value) → Memory → State → State
called act child v tail i m s = running act child (
    argued act child tail
      (entered map_inc act child m (put_cell (field act 1) (inc i) (moved v tail s))))

start_cons :
    (h : Handlers) (l : Limits) (above : Steps) (act : ℕ) (s : State)
    → (s.act act).pc ≡ 0
    → tag (cell (field act 0) s) s ≡ cons
    → step_map_inc h l above act s ≡ map_cons h l above act s
unfolding step_map_inc
start_cons h l above act s start is = ground (arith, start, is)

-- Where a call finds a list with an item and the queue is empty, the next routine that runs is the call
-- for the tail.
pub call_run :
    (h : Handlers) (l : Limits) (steps above : Steps) (fuel act child : ℕ) (v : Value) (m : Memory)
    (s : State)
    → (s.act act).pc ≡ 0
    → cell (field act 0) s ≡ v
    → tag v s ≡ cons
    → drop l.depth v (dup (adt_field v 1 s) s) ≡ ok (moved v (adt_field v 1 s) s)
    → mem_alloc h 64 s.memory ≡ ok (child, m)
    → child ≢ act
    → s.act_queue_len ≡ 0
    → (step_map_inc h l above act s >>= tick_acts (suc fuel) steps) ≡ (
        run_step steps child (called act child v (adt_field v 1 s) (adt_field v 0 s) m s)
        >>= tick_acts fuel steps)
unfolding map_cons enter_map_inc
call_run h l steps above fuel act child v m s start at is run memory apart idle =
    let tail = adt_field v 1 s in
    let s1 = put_cell (field act 1) (inc (adt_field v 0 s)) (moved v tail s) in
    let entering = entered_run h map_inc act child m s1 memory in
    let rest =
      running_run steps fuel act child (argued act child tail (entered map_inc act child m s1)) idle
        (ground (arith, apart)) in
    rw (start_cons h l above act s start (rw at is)) (
      rw (at, run, entering)
        (regroup (activate child (argued act child tail (entered map_inc act child m s1)))
            (λ t. ok (resumed act 1 t)) (tick_acts (suc fuel) steps)
          ∙ rest))
