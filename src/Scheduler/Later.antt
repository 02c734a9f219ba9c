-- ===== src/Scheduler/Later.antt =====
-- Delayed assignment.
pub mod Keeps
use ssm_runtime.Base.{
  ℕ, suc, ◌/◌, ◌^◌, ◌≤◌, ◌<◌, ◌≡◌, ◌≢◌, refl, ap, ◌∙◌, true, false, ok, throw, Error, arith, inl,
  inr, Bool-cases,
}
use ssm_runtime.Heap.{percolate_up, reposition}
use ssm_runtime.Heap.Count.{count_end, count_place, count-percolate_up}
use ssm_runtime.Heap.Order.{IsHeap, IsHeap-HoleAt, IsHeap-HoleAt_end, percolate_up-IsHeap}
use ssm_runtime.Heap.Reposition.{reposition-IsHeap, count-reposition}
use ssm_runtime.State.{State, Mm, Value, never, event_queue_size, later_time_in, on_heap, put_sv}
use ssm_runtime.Queues.{event_queue_percolate_up, find_queued_event, event_queue_reposition}
use ssm_runtime.Queues.Events.{
  EventInv, EventInv-same, pending, find_queued_event-counted, other_place,
  event_queue_reposition-ok,
}
use ssm_runtime.Objects.{is_shared, drop}
use ssm_runtime.Objects.Release.{released, drop_shared, released-frame}
use ssm_runtime.Scheduler.{Limits, sv_later_unsafe}

-- What a delayed assignment does: the variable has one event, at `when` with the value `val`, and
-- the other variables keep theirs. No header changes but in its reference count.
pub record Delayed (var when : ℕ) (val : Value) (s s' : State) : Type 0 where
  pub events : EventInv s'
  pub stored : s'.sv var ≡ record (s.sv var) { later_time = when; later_value = val }
  pub others : (p : ℕ) → p ≢ var → s'.sv p ≡ s.sv p
  pub headers : (p : ℕ) → s'.mm p ≡ record (s.mm p) { ref_count = (s'.mm p).ref_count }
  pub grown : s'.event_queue_len ≤ suc s.event_queue_len
  pub frame : s' ≡ record s {
    event_queue = s'.event_queue;
    event_queue_len = s'.event_queue_len;
    mm = s'.mm;
    sv = s'.sv;
  }

-- the variable's time is set before its place in the queue is
abbrev timed : (var when : ℕ) → State → State
timed var when s = put_sv var (record (s.sv var) { later_time = when }) s

module _ (var when : ℕ) (s : State) (inv : EventInv s) (finite : when ≢ never) where
  inserted-EventInv :
      pending s var ≡ false
      → s.event_queue_len < event_queue_size
      → EventInv (record (timed var when s) {
        event_queue =
            percolate_up
              (later_time_in (timed var when s))
              s.event_queue
              (suc s.event_queue_len)
              var;
        event_queue_len = suc s.event_queue_len;
      })
  inserted-EventInv idle room =
      let n = s.event_queue_len in
      let before : IsHeap (later_time_in (timed var when s)) s.event_queue n = λ i a b. ground (
        arith,
        inv.heap i,
        inv.counted var,
        count_place s.event_queue n i var,
        count_place s.event_queue n (i / 2) var,
      ) in
      record {
        heap =
            percolate_up-IsHeap (later_time_in (timed var when s)) s.event_queue (suc n) (suc n) var
              (omega arith) (omega arith)
              (IsHeap-HoleAt_end (later_time_in (timed var when s)) s.event_queue n before)
              (λ i a b c. absurd (omega arith));
        counted = λ p. ground (
          arith,
          inv.counted p,
          count_end s.event_queue n p,
          count-percolate_up (later_time_in (timed var when s)) s.event_queue (suc n) var (suc n) p,
        );
        bounded = omega arith;
      }

  moved-EventInv :
      (hole : ℕ)
      → pending s var ≡ true
      → 1 ≤ hole
      → hole ≤ s.event_queue_len
      → s.event_queue hole ≡ var
      → EventInv (record (timed var when s) {
        event_queue =
            reposition (later_time_in (timed var when s)) s.event_queue s.event_queue_len hole var;
      })
  moved-EventInv hole due a b c =
      let small : s.event_queue_len < 2 ^ 15 = omega (arith, inv.bounded) in
      record {
        heap =
            reposition-IsHeap (later_time_in (timed var when s)) s.event_queue s.event_queue_len
              hole var a b small
              (IsHeap-HoleAt (later_time_in (timed var when s)) (later_time_in s) s.event_queue
                s.event_queue_len hole a b inv.heap
                (λ i d e f. ground (arith, other_place var s i hole inv)));
        counted = λ p. ground (
          arith,
          inv.counted p,
          count-reposition (later_time_in (timed var when s)) s.event_queue s.event_queue_len hole
              var a b small p,
        );
        bounded = inv.bounded;
      }

module _ (l : Limits) (var when : ℕ) (val : Value) (s : State) (inv : EventInv s) where
  -- A time in the past is refused.
  later_past : when < s.now → sv_later_unsafe l var when val s ≡ throw Error.invalid_time
  unfolding sv_later_unsafe
  later_past h = ground arith

  module _ (valid : s.now ≤ when) (finite : when ≢ never) where
    -- a variable with no event, and a full queue
    later_full :
        pending s var ≡ false
        → s.event_queue_len ≡ event_queue_size
        → sv_later_unsafe l var when val s ≡ throw Error.exhausted_event_queue
    unfolding sv_later_unsafe
    later_full idle full = ground arith

    later_new :
        pending s var ≡ false
        → s.event_queue_len < event_queue_size
        → (s' : State) × (sv_later_unsafe l var when val s ≡ ok s') × Delayed var when val s s'
    unfolding sv_later_unsafe event_queue_percolate_up
    later_new idle room =
        let s1 = timed var when s in
        let s2 = record s1 {
          event_queue = percolate_up (later_time_in s1) s.event_queue (suc s.event_queue_len) var;
          event_queue_len = suc s.event_queue_len;
        } in
        let s3 = put_sv var (record (s2.sv var) { later_value = val }) s2 in
        (
          s3,
          ground (arith, inv.bounded),
          record {
            events =
                EventInv-same s2 s3 refl refl (λ p. ground arith)
                  (inserted-EventInv var when s inv finite idle room);
            stored = ground arith;
            others = λ p apart. ground arith;
            headers = λ p. ground arith;
            grown = omega arith;
            frame = refl;
          },
        )

    later_moved_run :
        (hole : ℕ) (s2 s3 : State)
        → pending s var ≡ true
        → drop l.depth (s.sv var).later_value (timed var when s) ≡ ok s2
        → find_queued_event var s2 ≡ ok hole
        → event_queue_reposition hole when var s2 ≡ ok s3
        → sv_later_unsafe l var when val s
          ≡ ok (put_sv var (record (s3.sv var) { later_value = val }) s3)
    unfolding sv_later_unsafe
    later_moved_run hole s2 s3 due run1 run2 run3 = ground arith

    -- a variable with an event, whose old value is dropped at no other cost than reference counts
    later_moved :
        (m : ℕ → Mm)
        → ((p : ℕ) → m p ≡ record (s.mm p) { ref_count = (m p).ref_count })
        → pending s var ≡ true
        → drop l.depth (s.sv var).later_value (timed var when s)
          ≡ ok (record (timed var when s) { mm = m })
        → (s' : State) × (sv_later_unsafe l var when val s ≡ ok s') × Delayed var when val s s'
    later_moved m headers due run =
        let s2 = record (timed var when s) { mm = m } in
        let (hole, found, a, b, c) =
          find_queued_event-counted var s2 (ground (arith, inv.counted var)) (ground arith) in
        let s3 = record s2 {
          event_queue = reposition (later_time_in s2) s.event_queue s.event_queue_len hole var;
        } in
        let s4 = put_sv var (record (s3.sv var) { later_value = val }) s3 in
        let before = moved-EventInv var when s inv finite hole due a b c in
        (
          s4,
          later_moved_run hole s2 s3 due run found
              (event_queue_reposition-ok hole when var s2 a b (ground arith)),
          record {
            events =
                EventInv-same
                  (record (timed var when s) {
                    event_queue =
                        reposition (later_time_in (timed var when s)) s.event_queue
                          s.event_queue_len hole var;
                  })
                  s4 refl refl (λ p. ground arith) before;
            stored = ground arith;
            others = λ p apart. ground arith;
            headers = headers;
            grown = omega arith;
            frame = refl;
          },
        )

  -- A delayed assignment returns for a time from `now` on other than SSM_NEVER, if a variable
  -- without an event finds room in the queue, and the old later value of one with an event is
  -- shared or no pointer. The variable then has its only event at the new time with the new value,
  -- the other variables are as they were, and the event queue is well formed.
  pub sv_later_unsafe-Delayed :
      s.now ≤ when
      → when ≢ never
      → 1 ≤ l.depth
      → (pending s var ≡ false → s.event_queue_len < event_queue_size)
      → (pending s var ≡ true
          → (is_shared (s.sv var).later_value s ≡ true)
            × (on_heap (s.sv var).later_value ≡ true
                → (s.mm (s.sv var).later_value).ref_count < 2 ^ 8))
      → (s' : State) × (sv_later_unsafe l var when val s ≡ ok s') × Delayed var when val s s'
  unfolding is_shared
  sv_later_unsafe-Delayed valid finite deep room shared = elim (Bool-cases (pending s var)) [
    | inr idle ↦ later_new valid finite idle (room idle)
    | inl due ↦
        let old = (s.sv var).later_value in
        let s1 = timed var when s in
        let run =
          drop_shared l.depth old s1 deep (λ on. (shared due).1 on) (ground (arith, shared due)) in
        later_moved valid finite (released old s1).mm (λ p. ground arith) due
          (run ∙ ap ok (released-frame old s1))
  ]
