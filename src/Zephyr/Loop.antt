-- ===== src/Zephyr/Loop.antt =====
-- One round of `tick_loop` of platform/zephyr/src/zephyr-tick.c.
use ssm_runtime.Base.{
  ℕ, ◌+◌, ◌%◌, ◌^◌, ◌≤◌, ◌<◌, ◌≡◌, ◌≢◌, ◌∙◌, ◌⊎◌, refl, inl, inr, true, false, some, none, List,
  Result, ok, throw, Error, ◌>>=◌, arith, ◌==◌, if◌then◌else◌, length, Bool-cases,
}
use ssm_runtime.State.{State, never, event_queue_size}
use ssm_runtime.Queues.{next_event_time}
use ssm_runtime.Scheduler.{Limits, Steps}
use ssm_runtime.Scheduler.Instant.{Contract}
use ssm_runtime.Scheduler.Tick.Quiet.{Quiet}
use ssm_runtime.Inputs.{Ring}
use ssm_runtime.Inputs.Poll.{polled_input}
use ssm_runtime.Inputs.Consume.{Plain}
use ssm_runtime.Inputs.Round.{loop_round, Waiting}
use ssm_runtime.Inputs.Round.Safe.{loop_round-Waiting}
use ssm_runtime.Zephyr.{RawTime, scale_time, get_ssm}
use ssm_runtime.Zephyr.Timer.{
  Status, done, ealready, enodev, enotsup, device, Timer, timer_set_alarm,
}

-- How a round ends: with a tick, or at `sem_wait`, with an alarm set or without one.
pub data Round : Type 0 where
  again sleep sleep_with_alarm : Round

-- The end of a round that set the alarm for the next event. An error code is negative.
unfoldable pub alarm_end : (err : Status) → Timer → Result (Round × Timer)
alarm_end done t = ok (sleep_with_alarm, t)
alarm_end ealready t = throw Error.internal_error
alarm_end enodev t = throw Error.internal_error
alarm_end enotsup t = throw Error.internal_error
alarm_end (device n) t = throw Error.internal_error

-- The end of a round that does not tick.
unfoldable pub set_wake_up :
    (counter_set_channel_alarm : (ticks : ℕ) → Status)
    → (send_timeout_event next_time : ℕ) → Timer
    → Result (Round × Timer)
set_wake_up counter_set_channel_alarm send_timeout_event next_time t =
    let (err, t1) = timer_set_alarm counter_set_channel_alarm next_time send_timeout_event t in
    if next_time == never then ok (sleep, t) else alarm_end err t1

-- the device takes the alarm, or it answers with an error
alarm_end-cases :
    (err : Status) (t : Timer)
    → (err ≡ done) × (alarm_end err t ≡ ok (sleep_with_alarm, t))
      ⊎ (err ≢ done) × (alarm_end err t ≡ throw Error.internal_error)
unfolding alarm_end
alarm_end-cases done t = inl (refl, refl)
alarm_end-cases ealready t = inr (λ e. cc, refl)
alarm_end-cases enodev t = inr (λ e. cc, refl)
alarm_end-cases enotsup t = inr (λ e. cc, refl)
alarm_end-cases (device n) t = inr (λ e. cc, refl)

module _ (l : Limits) (steps : Steps) (counter_set_channel_alarm : (ticks : ℕ) → Status)
    (send_timeout_event : ℕ) where
  unfoldable pub tick_round :
      (wall_time : ℕ) → Ring RawTime → State → Timer → Result (Round × Ring RawTime × State × Timer)
  tick_round wall_time q s t =
      let next_time = next_event_time s in
      loop_round scale_time get_ssm l steps wall_time q s >>= λ (ticked, q1, s1).
      (if ticked
        then ok (again, t)
        else set_wake_up counter_set_channel_alarm send_timeout_event next_time t)
      >>= λ (x, t1). ok (x, q1, s1, t1)

  module _ (u : List ℕ) (contract : Contract (Quiet l u) u steps)
      (events : event_queue_size < l.events) (routines : length u < l.steps) (clock : ℕ)
      (q : Ring RawTime) (s : State) (t : Timer)
      (d : Waiting scale_time get_ssm l steps u clock q s) where
    round_ticked :
        (wall : ℕ) (q' : Ring RawTime) (s' : State)
        → loop_round scale_time get_ssm l steps wall q s ≡ ok (true, q', s')
        → tick_round wall q s t ≡ ok (again, q', s', t)
    unfolding tick_round
    round_ticked wall q' s' run = ground arith

    round_waits :
        (wall : ℕ) (x : Round) (q' : Ring RawTime) (s' : State) (t' : Timer)
        → loop_round scale_time get_ssm l steps wall q s ≡ ok (false, q', s')
        → set_wake_up counter_set_channel_alarm send_timeout_event (next_event_time s) t
          ≡ ok (x, t')
        → tick_round wall q s t ≡ ok (x, q', s', t')
    unfolding tick_round
    round_waits wall x q' s' t' run wake = ground arith

    round_fails :
        (wall : ℕ) (q' : Ring RawTime) (s' : State)
        → loop_round scale_time get_ssm l steps wall q s ≡ ok (false, q', s')
        → set_wake_up counter_set_channel_alarm send_timeout_event (next_event_time s) t
          ≡ throw Error.internal_error
        → tick_round wall q s t ≡ throw Error.internal_error
    unfolding tick_round
    round_fails wall q' s' run wake = ground arith

    wake_up_never :
        next_event_time s ≡ never
        → set_wake_up counter_set_channel_alarm send_timeout_event (next_event_time s) t
          ≡ ok (sleep, t)
    unfolding set_wake_up
    wake_up_never idle = ground arith

    wake_up_alarm :
        next_event_time s == never ≡ false
        → t.timer_cb ≡ none
        → set_wake_up counter_set_channel_alarm send_timeout_event (next_event_time s) t
          ≡ alarm_end
              (counter_set_channel_alarm (next_event_time s % 2 ^ 32))
              (record t { timer_cb = some send_timeout_event })
    unfolding set_wake_up timer_set_alarm
    wake_up_alarm due clear = ground arith

    -- what a round that does not tick says of the next event
    abbrev pub Ahead : (wall : ℕ) → Type 0
    Ahead wall =
        (wall < next_event_time s)
        × ((i : ℕ)
            → q.rb_r ≤ i
            → i < q.rb_w
            → next_event_time s < get_ssm (polled_input scale_time i q).time)

    -- A round of `tick_loop`, where the packets that wait are in order, after the runtime's clock and
    -- not after the latest reading of the timer, where the step functions keep their contract and the limits are large
    -- enough, where the event queue has room for 31 events, and neither the packets nor the pending values that they
    -- replace are pointers, and where no alarm was set before, returns, unless the device refuses the alarm for
    -- the next event. It leaves such a state, and ends in one of three ways: it ticks, and the runtime's clock moves on; no
    -- packet waits and no event is pending, and it sleeps until an input comes; or it sleeps, and the device took
    -- an alarm at the low 32 bits of the next event's time, that event is after the wall time, and each packet that
    -- waits is after that event. Where the device refuses an alarm at those ticks, the round throws SSM_INTERNAL_ERROR,
    -- and that event and the packets are ahead as well.
    pub tick_round-Waiting :
        (wall : ℕ)
        → wall ≤ clock
        → 1 ≤ l.depth
        → s.event_queue_len + 31 ≤ event_queue_size
        → Plain q.rb_r q.rb_w q s
        → t.timer_cb ≡ none
        → ((x : Round) × (q' : Ring RawTime) × (s' : State) × (t' : Timer) × (tick_round wall q s t
              ≡ ok (x, q', s', t'))
            × Waiting scale_time get_ssm l steps u clock q' s'
            × ((x ≡ again) × (s.now < s'.now) × (t' ≡ t)
                ⊎ (x ≡ sleep)
                  × (s' ≡ s)
                  × (q.rb_r ≡ q.rb_w)
                  × (next_event_time s ≡ never)
                  × (t' ≡ t)
                ⊎ (x ≡ sleep_with_alarm)
                  × (s' ≡ s)
                  × (counter_set_channel_alarm (next_event_time s % 2 ^ 32) ≡ done)
                  × (t' ≡ record t { timer_cb = some send_timeout_event })
                  × Ahead wall))
          ⊎ (tick_round wall q s t ≡ throw Error.internal_error)
            × (counter_set_channel_alarm (next_event_time s % 2 ^ 32) ≢ done)
            × Ahead wall
    tick_round-Waiting wall le deep room plain clear =
        let (b, q', s', run, waiting, w, moves, stays) =
          loop_round-Waiting scale_time get_ssm l steps u contract events routines clock q s d wall
            le deep room plain in
        elim (Bool-cases b) [
          | inl on ↦ inl (
            again,
            q',
            s',
            t,
            round_ticked wall q' s' (rw on at run),
            waiting,
            inl (refl, moves on, refl),
          )
          | inr off ↦
              let waits = rw off at run in
              elim (Bool-cases (next_event_time s == never)) [
                | inl idle ↦ inl (
                  sleep,
                  q',
                  s',
                  t,
                  round_waits wall sleep q' s' t waits (wake_up_never (ground arith)),
                  waiting,
                  inr (
                      inl (
                        refl,
                        (stays off).0,
                        ground (
                          arith,
                          (stays off).2 q.rb_r,
                          d.fresh q.rb_r,
                          d.finite,
                          d.indexed.behind,
                          d.indexed.ahead,
                        ),
                        ground arith,
                        refl,
                      )),
                )
                | inr due ↦
                    let t1 = record t { timer_cb = some send_timeout_event } in
                    let wake = wake_up_alarm due clear in
                    let answer = counter_set_channel_alarm (next_event_time s % 2 ^ 32) in
                    elim (alarm_end-cases answer t1) [
                      | inl (taken, end) ↦ inl (
                        sleep_with_alarm,
                        q',
                        s',
                        t1,
                        round_waits wall sleep_with_alarm q' s' t1 waits (wake ∙ end),
                        waiting,
                        inr (
                            inr (refl, (stays off).0, taken, refl, ((stays off).1, (stays off).2))),
                      )
                      | inr (refused, end) ↦ inr (
                        round_fails wall q' s' waits (wake ∙ end),
                        refused,
                        ((stays off).1, (stays off).2),
                      )
                    ]
              ]
        ]
