-- ===== src/Inputs/Consume/Quiet.antt =====
-- A call of `ssm_input_consume` as a whole, between two ticks.
use ssm_runtime.Base.{ℕ, ◌+◌, ◌-◌, ◌≤◌, ◌<◌, ◌≡◌, refl, ap, true, List, ok, arith}
use ssm_runtime.State.{State, never, event_queue_size}
use ssm_runtime.Posix.{input_read_ready, input_rb_size}
use ssm_runtime.Queues.{next_event_time}
use ssm_runtime.Scheduler.{Limits}
use ssm_runtime.Scheduler.Tick.Quiet.{Quiet}
use ssm_runtime.Inputs.{Ring, input_get, input_consume}
use ssm_runtime.Inputs.Consume.{
  Plain, Taken, deferred_time, consume_packets-Taken, Taken-next_event_time,
}

module _ {T : Type 0} (l : Limits) (u : List ℕ) (read : T → ℕ) (q : Ring T) where
  -- The packets from `r` to `w` are later than the clock.
  abbrev pub Fresh : (r w now : ℕ) → Type 0
  Fresh r w now =
      (i : ℕ)
      → r ≤ i
      → i < w
      → (now < read (input_get i q).time) × (read (input_get i q).time < never)

  -- A call leaves the state as it is where there is no packet, or an earlier event.
  pub input_consume-waits :
      (fuel r w : ℕ) (s : State)
      → (input_read_ready r w ≡ true → next_event_time s < read (input_get r q).time)
      → input_consume l read fuel r w q s ≡ ok (r, s)
  unfolding input_consume
  input_consume-waits fuel r w s early = ground arith

  -- With up to 31 packets of times after the clock, and an event queue with room for them, a call
  -- where the first packet is not later than any event returns, if neither the packets nor the pending
  -- values that they replace are pointers. It takes packets of the first one's time, up to one of another time or to the last.
  -- Each variable that one is for is set to change at that time, to the value of the last of these packets that is for it;
  -- other variables keep what they have. The time is the next event's, and a tick may follow.
  pub input_consume-Quiet :
      (r w : ℕ) (s : State)
      → Quiet l u s
      → 1 ≤ l.depth
      → r < w
      → w ≤ r + 31
      → s.event_queue_len + (w - r) ≤ event_queue_size
      → Fresh r w s.now
      → Plain r w q s
      → read (input_get r q).time ≤ next_event_time s
      → (n : ℕ) × (s' : State) × (rank : ℕ → ℕ) × (ts : ℕ → List ℕ) × (input_consume l read
            input_rb_size r w q s
          ≡ ok (r + n, s'))
        × Taken l u rank ts read q (read (input_get r q).time) n r w s s'
        × Quiet l u s'
        × (next_event_time s' ≡ read (input_get r q).time)
  unfolding input_consume input_read_ready
  input_consume-Quiet r w s ((rank, ts, inv), quiet) deep more few room fresh plain first =
      let t = read (input_get r q).time in
      let (valid, finite) = fresh r (omega arith) more in
      let (n, s', run, d) =
        consume_packets-Taken l u rank ts read q input_rb_size t r w s inv (omega (arith, valid))
          finite deep more (omega arith) few room plain refl in
      let now = ap (λ (x : State). x.now) d.frame in
      (
        n,
        s',
        rank,
        ts,
        ground arith,
        d,
        (
          (rank, ts, d.inv),
          λ p on. ground (
            arith,
            d.vars p,
            deferred_time l u rank ts read q t n r p (s.sv p),
            quiet p,
            on,
            now,
            valid,
          ),
        ),
        Taken-next_event_time l u rank ts read q t n r w s s' inv finite first d,
      )
