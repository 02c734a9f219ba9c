-- ===== src/Inputs/Round.antt =====
-- One round of a platform's main loop, up to the point where it sleeps: what `main` of
-- platform/posix/src/posix-main.c and `tick_loop` of platform/zephyr/src/zephyr-tick.c have in common.
-- `wall` is the wall time, which is read before the queue is polled.
pub mod Consumed
pub mod Insert
pub mod Safe
pub mod CatchUp
use ssm_runtime.Base.{
  ℕ, ◌+◌, ◌-◌, ◌≤◌, ◌<◌, ◌≡◌, refl, sym, ap, ◌∙◌, inl, inr, Bool, true, false, not, ◌&&◌, List,
  Result, ok, ◌>>=◌, arith, ltb, leb, ◌==◌, if◌then◌else◌, length, Bool-cases,
}
use mathlib.Core.Path.{subst}
use ssm_runtime.State.{State, never, event_queue_size}
use ssm_runtime.Posix.{input_rb_size, input_read_ready, input_ready_lem}
use ssm_runtime.Queues.{next_event_time}
use ssm_runtime.Scheduler.{Limits, Steps, tick}
use ssm_runtime.Scheduler.Instant.{Contract}
use ssm_runtime.Scheduler.Tick.{instant}
use ssm_runtime.Scheduler.Tick.Quiet.{Quiet, tick-Quiet}
use ssm_runtime.Inputs.{Ring, input_get, poll_input_queue, input_consume}
use ssm_runtime.Inputs.Poll.{Indexed, polled_input, poll_input_queue-polled}
use ssm_runtime.Inputs.Consume.{Plain, Taken}
use ssm_runtime.Inputs.Consume.Quiet.{Fresh, input_consume-Quiet}

module _ {T : Type 0} (convert : T → T) (read : T → ℕ) (l : Limits) (steps : Steps) where
  -- Whether there was a tick, the buffer, and the state.
  unfoldable pub loop_round : (wall : ℕ) → Ring T → State → Result (Bool × Ring T × State)
  loop_round wall q s =
      let next_time = next_event_time s in
      let q1 = poll_input_queue convert q in
      let r = q1.rb_r in
      let consumed = input_consume l read input_rb_size r q1.rb_w q1 s >>= λ (r', s1).
      tick l steps s1 >>= λ s2. ok (true, record q1 { rb_r = r' }, s2) in
      let ticked = tick l steps s >>= λ s1. ok (true, q1, s1) in
      if input_read_ready r q1.rb_w && leb (read (input_get r q1).time) next_time
      then consumed
      else if leb next_time wall
      then ticked
      else ok (false, q1, s)

  -- The state of the loop between two rounds: the runtime is quiet and idle, and the packets that
  -- wait are in the order of their times, which are after the runtime's clock and not after `clock`, the
  -- latest reading of the wall clock.
  pub record Waiting (u : List ℕ) (clock : ℕ) (q : Ring T) (s : State) : Type 0 where
    pub quiet : Quiet l u s
    pub idle : s.act_queue_len ≡ 0
    pub finite : clock < never
    pub past : s.now ≤ clock
    pub indexed : Indexed convert q
    pub fresh :
        (i : ℕ)
        → q.rb_r ≤ i
        → i < q.rb_w
        → (s.now < read (polled_input convert i q).time)
          × (read (polled_input convert i q).time ≤ clock)
    pub ordered :
        (i j : ℕ)
        → q.rb_r ≤ i
        → i < j
        → j < q.rb_w
        → read (polled_input convert i q).time ≤ read (polled_input convert j q).time

  module _ (u : List ℕ) where
    -- after a poll, and a step of the runtime that leaves the packets from `r'` on in the future
    pub polled-Waiting :
        (clock r' : ℕ) (q : Ring T) (s s' : State)
        → Waiting u clock q s
        → q.rb_r ≤ r'
        → r' ≤ q.rb_w
        → Quiet l u s'
        → s'.act_queue_len ≡ 0
        → s'.now ≤ clock
        → ((i : ℕ) → r' ≤ i → i < q.rb_w → s'.now < read (polled_input convert i q).time)
        → Waiting u clock (record (poll_input_queue convert q) { rb_r = r' }) s'
    polled-Waiting clock r' q s s' d a b quiet idle past future =
        let (frame, slots) = poll_input_queue-polled convert q d.indexed in
        let q1 = record q { rb = (poll_input_queue convert q).rb; rb_r = r'; scaled = q.rb_w } in
        let same : (i : ℕ)
            → r' ≤ i
            → i < q.rb_w
            → polled_input convert i q1 ≡ polled_input convert i q =
          λ i c e. ground (arith, slots i (omega arith) e) in
        let waiting : Waiting u clock q1 s' = record {
          quiet = quiet;
          idle = idle;
          finite = d.finite;
          past = past;
          indexed = record { behind = b; ahead = omega arith; few = omega (arith, d.indexed.few) };
          fresh = λ i c e. rw (same i c e) (future i c e, (d.fresh i (omega arith) e).1);
          ordered = λ i j c e f.
              rw (same i c (omega arith), same j (omega arith) f) (d.ordered i j (omega arith) e f);
        } in
        subst (λ x. Waiting u clock x s') (sym (ap (λ (x : Ring T). record x { rb_r = r' }) frame))
          waiting
