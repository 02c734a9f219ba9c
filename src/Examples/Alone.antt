-- ===== src/Examples/Alone.antt =====
-- The operations of the runtime where a queue is empty, or a list of triggers holds one.
use ssm_runtime.Base.{
  ℕ, suc, ◌-◌, ◌≤◌, ◌<◌, ◌≡◌, ◌≢◌, refl, Bool, true, false, ok, arith, ltb, ◌∙◌, ap,
}
use ssm_runtime.Heap.{percolate_up}
use ssm_runtime.State.{
  State, Value, Link, null, never, priority_in, later_time_in, on_heap, put_act, put_sv,
  put_trigger,
}
use ssm_runtime.Queues.{activate, act_queue_percolate_up, event_queue_percolate_up}
use ssm_runtime.Objects.{dup}
use ssm_runtime.Objects.Balance.{drop_packed}
use ssm_runtime.Scheduler.{
  Limits, Steps, run_step, act_step, act_queue_pop, activate_triggers, sv_assign_unsafe, assign,
  sv_later_unsafe, later, sv_update, sensitize, desensitize, write_link,
}

-- `act` is put on the empty queue
abbrev pub queued : (act : ℕ) → State → State
queued act s =
    put_act act (record (s.act act) { scheduled = true })
      (record s { act_queue = percolate_up (priority_in s) s.act_queue 1 act; act_queue_len = 1 })

-- `act` is taken off the queue, on which it was alone
abbrev pub unqueued : (act : ℕ) → State → State
unqueued act s = record (put_act act (record (s.act act) { scheduled = false }) s) {
  act_queue_len = 0;
}

pub first_queued : (key : ℕ → ℕ) (q : ℕ → ℕ) (x : ℕ) → percolate_up key q 1 x 1 ≡ x
unfolding percolate_up
first_queued key q x = ground arith

pub activate_run :
    (act : ℕ) (s : State)
    → s.act_queue_len ≡ 0
    → (s.act act).scheduled ≡ false
    → activate act s ≡ ok (queued act s)
unfolding activate act_queue_percolate_up
activate_run act s idle fresh = ground (arith, idle, fresh)

pub act_step_run :
    (steps : Steps) (act : ℕ) (s : State)
    → s.act_queue_len ≡ 1
    → s.act_queue 1 ≡ act
    → act_step steps s ≡ run_step steps act (unqueued act s)
unfolding act_step act_queue_pop
act_step_run steps act s one at = ground (arith, one, at)

-- a list of one trigger, whose routine passes the test
pub wake_run :
    (fuel act trig : ℕ) (test : ℕ → Bool) (s : State)
    → 2 ≤ fuel
    → trig ≢ null
    → (s.trigger trig).next ≡ null
    → (s.trigger trig).act ≡ act
    → test (s.act act).priority ≡ true
    → s.act_queue_len ≡ 0
    → (s.act act).scheduled ≡ false
    → activate_triggers fuel test trig s ≡ ok (queued act s)
unfolding activate_triggers
wake_run fuel act trig test s enough real last owner passes idle fresh =
    let e : fuel ≡ suc (suc (fuel - 2)) = omega arith in
    rw (e, owner) (ground (arith, real, last, owner, passes, activate_run act s idle fresh))

-- what an assignment stores, with a value that is no pointer over one that is none
abbrev pub assigned : (var : ℕ) → Value → State → State
assigned var val s = put_sv var (record (s.sv var) { value = val; last_updated = s.now }) s

plain_assign :
    (l : Limits) (var prio : ℕ) (val : Value) (s : State)
    → on_heap val ≡ false
    → on_heap (s.sv var).value ≡ false
    → assign l var prio val s
      ≡ activate_triggers l.triggers
          (λ priority. ltb prio priority)
          (s.sv var).triggers
          (assigned var val s)
unfolding assign sv_assign_unsafe dup
plain_assign l var prio val s packed old =
    rw packed (rw (drop_packed l.depth (s.sv var).value s old) (ground arith))

-- an assignment that wakes one routine
pub assign_one_run :
    (l : Limits) (var prio act trig : ℕ) (val : Value) (s : State)
    → 2 ≤ l.triggers
    → on_heap val ≡ false
    → on_heap (s.sv var).value ≡ false
    → (s.sv var).triggers ≡ trig
    → trig ≢ null
    → (s.trigger trig).next ≡ null
    → (s.trigger trig).act ≡ act
    → prio < (s.act act).priority
    → s.act_queue_len ≡ 0
    → (s.act act).scheduled ≡ false
    → assign l var prio val s ≡ ok (queued act (assigned var val s))
assign_one_run l var prio act trig val s enough packed old first real last owner lower idle fresh =
    plain_assign l var prio val s packed old
    ∙ ap
        (λ (p : ℕ).
          activate_triggers l.triggers (λ priority. ltb prio priority) p (assigned var val s))
        first
    ∙ wake_run l.triggers act trig (λ priority. ltb prio priority) (assigned var val s) enough real
        last owner (ground arith) idle fresh

-- an assignment for which no routine waits
pub assign_none_run :
    (l : Limits) (var prio : ℕ) (val : Value) (s : State)
    → 1 ≤ l.triggers
    → on_heap val ≡ false
    → on_heap (s.sv var).value ≡ false
    → (s.sv var).triggers ≡ null
    → assign l var prio val s ≡ ok (assigned var val s)
unfolding activate_triggers
assign_none_run l var prio val s enough packed old none_waits =
    let e : l.triggers ≡ suc (l.triggers - 1) = omega arith in
    plain_assign l var prio val s packed old ∙ rw (e, none_waits) (ground arith)

-- the update of a variable that is due
abbrev pub updated : (var : ℕ) → State → State
updated var s =
    put_sv var
      (record (s.sv var) {
        value = (s.sv var).later_value;
        last_updated = s.now;
        later_time = never;
      })
      s

pub update_one_run :
    (l : Limits) (var act trig : ℕ) (s : State)
    → 2 ≤ l.triggers
    → later_time_in s var ≡ s.now
    → on_heap (s.sv var).value ≡ false
    → (s.sv var).triggers ≡ trig
    → trig ≢ null
    → (s.trigger trig).next ≡ null
    → (s.trigger trig).act ≡ act
    → s.act_queue_len ≡ 0
    → (s.act act).scheduled ≡ false
    → sv_update l var s ≡ ok (queued act (updated var s))
unfolding sv_update
update_one_run l var act trig s enough due old first real last owner idle fresh =
    let run =
      wake_run l.triggers act trig (λ priority. true) (updated var s) enough real last owner refl
        idle fresh in
    rw (drop_packed l.depth (s.sv var).value s old) (ground (arith, due, first, run))

-- a delayed assignment to a variable without an event, on the empty queue
abbrev pub delayed : (var when : ℕ) → Value → State → State
delayed var when val s =
    let s1 = put_sv var (record (s.sv var) { later_time = when }) s in
    let s2 = record s1 {
      event_queue = percolate_up (later_time_in s1) s1.event_queue 1 var;
      event_queue_len = 1;
    } in
    put_sv var (record (s2.sv var) { later_value = val }) s2

pub later_run :
    (l : Limits) (var when : ℕ) (val : Value) (s : State)
    → s.event_queue_len ≡ 0
    → later_time_in s var ≡ never
    → s.now ≤ when
    → on_heap val ≡ false
    → later l var when val s ≡ ok (delayed var when val s)
unfolding later sv_later_unsafe dup event_queue_percolate_up
later_run l var when val s idle never_due valid packed = rw packed (ground (arith, idle, never_due))

-- a trigger in front of an empty list, and out of a list of its own
abbrev pub waiting : (var trig : ℕ) → State → State
waiting var trig s =
    let s1 = put_trigger trig (record (s.trigger trig) { next = null }) s in
    let s2 = put_sv var (record (s1.sv var) { triggers = trig }) s1 in
    put_trigger trig (record (s2.trigger trig) { prev_ptr = Link.triggers_of var }) s2

pub sensitize_run :
    (var trig : ℕ) (s : State)
    → (s.sv var).triggers ≡ null
    → sensitize var trig s ≡ waiting var trig s
unfolding sensitize
sensitize_run var trig s empty = rw empty refl

pub desensitize_run :
    (var trig : ℕ) (s : State)
    → (s.trigger trig).prev_ptr ≡ Link.triggers_of var
    → (s.trigger trig).next ≡ null
    → desensitize trig s ≡ put_sv var (record (s.sv var) { triggers = null }) s
unfolding desensitize write_link
desensitize_run var trig s first last = rw (first, last) (ground (arith, last))
