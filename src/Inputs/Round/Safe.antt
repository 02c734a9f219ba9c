-- ===== src/Inputs/Round/Safe.antt =====
-- The rounds of the main loop, branch by branch, with the invariant that stands between them.
use ssm_runtime.Base.{
  ℕ, ◌+◌, ◌≤◌, ◌<◌, ◌≡◌, ◌⊎◌, refl, sym, inl, inr, Bool, true, false, ◌&&◌, List, ok, arith, ltb,
  leb, length, Bool-cases,
}
use ssm_runtime.State.{State, event_queue_size}
use ssm_runtime.Posix.{input_read_ready, input_ready_lem}
use ssm_runtime.Queues.{next_event_time}
use ssm_runtime.Scheduler.{Limits, Steps, tick}
use ssm_runtime.Scheduler.Instant.{Contract}
use ssm_runtime.Scheduler.Tick.Quiet.{Quiet}
use ssm_runtime.Inputs.{Ring, input_get, poll_input_queue}
use ssm_runtime.Inputs.Poll.{polled_input}
use ssm_runtime.Inputs.Consume.{Plain}
use ssm_runtime.Inputs.Round.{loop_round, Waiting, polled-Waiting}
use ssm_runtime.Inputs.Round.Consumed.{polled, tick_due, Done, consumed}
use mathlib.Core.Path.{subst}

module _ {T : Type 0} (convert : T → T) (read : T → ℕ) (l : Limits) (steps : Steps) (u : List ℕ)
    (contract : Contract (Quiet l u) u steps) (events : event_queue_size < l.events)
    (routines : length u < l.steps) (clock : ℕ) (q : Ring T) (s : State)
    (d : Waiting convert read l steps u clock q s) where
  -- no packet is due
  abbrev pub NoneDue : Type 0
  NoneDue = q.rb_r < q.rb_w → next_event_time s < read (polled_input convert q.rb_r q).time

  pub none_due :
      NoneDue
      → input_read_ready (poll_input_queue convert q).rb_r (poll_input_queue convert q).rb_w
          && leb
              (read (input_get (poll_input_queue convert q).rb_r (poll_input_queue convert q)).time)
              (next_event_time s)
        ≡ false
  none_due later =
      let (r, w, slots) = polled convert read l steps u contract events routines clock q s d in
      ground (
        arith,
        later,
        slots q.rb_r,
        d.indexed.behind,
        d.indexed.ahead,
        input_ready_lem q.rb_r q.rb_w (omega (arith, d.indexed.behind, d.indexed.ahead))
            d.indexed.few,
      )

  -- nothing was consumed
  pub none_consumed :
      (s' : State)
      → NoneDue
      → Quiet l u s'
      → s'.act_queue_len ≡ 0
      → s'.now ≤ clock
      → (s'.now ≡ s.now) ⊎ (s'.now ≡ next_event_time s)
      → Waiting convert read l steps u clock (poll_input_queue convert q) s'
  none_consumed s' later quiet idle past at =
      let (r, w, slots) = polled convert read l steps u contract events routines clock q s d in
      subst
        (λ (n : ℕ).
          Waiting convert read l steps u clock (record (poll_input_queue convert q) { rb_r = n })
            s')
        (sym r)
        (polled-Waiting convert read l steps u clock q.rb_r q s s' d (omega arith)
          (omega (arith, d.indexed.behind, d.indexed.ahead)) quiet idle past
          (λ i a b. ground (arith, later, at, d.fresh i a b, d.ordered q.rb_r i)))

  pub round_ticks :
      (wall : ℕ) (s1 : State)
      → NoneDue
      → next_event_time s ≤ wall
      → tick l steps s ≡ ok s1
      → loop_round convert read l steps wall q s ≡ ok (true, poll_input_queue convert q, s1)
  unfolding loop_round
  round_ticks wall s1 later due run = ground (arith, none_due later)

  ticked :
      (wall : ℕ)
      → wall ≤ clock
      → NoneDue
      → next_event_time s ≤ wall
      → (q' : Ring T) × (s' : State) × (loop_round convert read l steps wall q s
          ≡ ok (true, q', s'))
        × Done convert read l steps u contract events routines clock q s d true q' s'
  ticked wall le later due =
      let (s1, run, quiet1, idle1, at, on) =
        tick_due convert read l steps u contract events routines clock q s d s d.quiet d.idle
          (omega (arith, d.past, d.finite)) (omega (arith, d.finite)) in
      (
        poll_input_queue convert q,
        s1,
        round_ticks wall s1 later due run,
        (
          none_consumed s1 later quiet1 idle1 (omega arith) (inr at),
          (polled convert read l steps u contract events routines clock q s d).1,
          λ e. on,
        ),
      )

  pub round_waits :
      (wall : ℕ)
      → NoneDue
      → wall < next_event_time s
      → loop_round convert read l steps wall q s ≡ ok (false, poll_input_queue convert q, s)
  unfolding loop_round
  round_waits wall later early = ground (arith, none_due later)

  -- A round of the main loop returns where the packets that wait are in the order of their times, all after the
  -- runtime's clock and none later than `clock`, where the wall time was read not later than `clock`, the step
  -- functions keep their contract, and the limits are large enough, where the event queue has room for 31
  -- events, and neither the packets nor the pending values that they replace are pointers. It leaves such a state
  -- again, so no packet is ever late. Either it ticks, and the runtime's clock moves on, or the
  -- runtime's state is as before, its next event is after the wall time, and each packet that waits is after
  -- that event.
  pub loop_round-Waiting :
      (wall : ℕ)
      → wall ≤ clock
      → 1 ≤ l.depth
      → s.event_queue_len + 31 ≤ event_queue_size
      → Plain q.rb_r q.rb_w q s
      → (b : Bool) × (q' : Ring T) × (s' : State) × (loop_round convert read l steps wall q s
          ≡ ok (b, q', s'))
        × Waiting convert read l steps u clock q' s'
        × (q'.rb_w ≡ q.rb_w)
        × (b ≡ true → s.now < s'.now)
        × (b ≡ false
            → (s' ≡ s)
              × (wall < next_event_time s)
              × ((i : ℕ)
                  → q.rb_r ≤ i
                  → i < q.rb_w
                  → next_event_time s < read (polled_input convert i q).time))
  loop_round-Waiting wall le deep room plain =
      elim (Bool-cases (
        ltb q.rb_r q.rb_w && leb (read (polled_input convert q.rb_r q).time) (next_event_time s))) [
          | inl due ↦
              let (q', s', run, done) =
                consumed convert read l steps u contract events routines clock q s d wall deep room
                  plain (ground arith) (ground arith) in
              (true, q', s', run, done.0, done.1, done.2, λ e. cc)
          | inr none ↦
              let later : NoneDue = λ more. ground arith in
              elim (Bool-cases (leb (next_event_time s) wall)) [
                | inl due ↦
                    let (q', s', run, done) = ticked wall le later (ground arith) in
                    (true, q', s', run, done.0, done.1, done.2, λ e. cc)
                | inr early ↦ (
                  false,
                  poll_input_queue convert q,
                  s,
                  round_waits wall later (ground arith),
                  none_consumed s later d.quiet d.idle d.past (inl refl),
                  (polled convert read l steps u contract events routines clock q s d).1,
                  λ e. cc,
                  λ e. (refl, ground arith, λ i a b. ground (arith, later, d.ordered q.rb_r i)),
                )
              ]
        ]
