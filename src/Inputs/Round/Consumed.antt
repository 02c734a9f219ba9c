-- ===== src/Inputs/Round/Consumed.antt =====
-- The first branch of a round of the main loop: the packet at the front is due.
use ssm_runtime.Base.{
  ℕ, ◌+◌, ◌≤◌, ◌<◌, ◌≡◌, ◌≢◌, sym, ap, ◌∙◌, Bool, true, ◌&&◌, List, ok, arith, leb, length,
}
use ssm_runtime.State.{State, never, event_queue_size}
use ssm_runtime.Posix.{input_rb_size, input_read_ready, input_ready_lem}
use ssm_runtime.Queues.{next_event_time}
use ssm_runtime.Scheduler.{Limits, Steps, tick}
use ssm_runtime.Scheduler.Instant.{Contract}
use ssm_runtime.Scheduler.Tick.{instant}
use ssm_runtime.Scheduler.Tick.Quiet.{Quiet, tick-Quiet}
use ssm_runtime.Inputs.{Input, Ring, input_get, poll_input_queue, input_consume}
use ssm_runtime.Inputs.Poll.{polled_input, poll_input_queue-polled}
use ssm_runtime.Inputs.Consume.{Plain, Taken}
use ssm_runtime.Inputs.Consume.Quiet.{input_consume-Quiet}
use ssm_runtime.Inputs.Round.{loop_round, Waiting, polled-Waiting}

-- an idle runtime with an event: the tick works on the time of the event
instant_event :
    (s : State) → s.act_queue_len ≡ 0 → s.now < instant s → instant s ≡ next_event_time s
instant_event s idle ahead = ground arith

module _ {T : Type 0} (convert : T → T) (read : T → ℕ) (l : Limits) (steps : Steps) (u : List ℕ)
    (contract : Contract (Quiet l u) u steps) (events : event_queue_size < l.events)
    (routines : length u < l.steps) (clock : ℕ) (q : Ring T) (s : State)
    (d : Waiting convert read l steps u clock q s) where
  -- after a poll
  abbrev pub Polled : Type 0
  Polled =
      ((poll_input_queue convert q).rb_r ≡ q.rb_r)
      × ((poll_input_queue convert q).rb_w ≡ q.rb_w)
      × ((i : ℕ)
          → q.rb_r ≤ i
          → i < q.rb_w
          → input_get i (poll_input_queue convert q) ≡ polled_input convert i q)

  pub polled : Polled
  polled =
      let (frame, slots) = poll_input_queue-polled convert q d.indexed in
      (ap (λ (x : Ring T). x.rb_r) frame, ap (λ (x : Ring T). x.rb_w) frame, slots)

  -- a tick, once the next event is due
  pub tick_due :
      (s1 : State)
      → Quiet l u s1
      → s1.act_queue_len ≡ 0
      → s1.now < never
      → next_event_time s1 ≢ never
      → (s2 : State) × (tick l steps s1 ≡ ok s2)
        × Quiet l u s2
        × (s2.act_queue_len ≡ 0)
        × (s2.now ≡ next_event_time s1)
        × (s1.now < s2.now)
  tick_due s1 quiet idle finite due =
      let (s2, run, quiet2, idle2, at, finite2, le, lt) =
        tick-Quiet l u steps s1 quiet finite contract events routines in
      let on = lt idle due in
      (s2, run, quiet2, idle2, at ∙ instant_event s1 idle (rw (sym at) on), on)

  round_consumes :
      (wall r' : ℕ) (s1 s2 : State)
      → input_read_ready q.rb_r q.rb_w
          && leb (read (polled_input convert q.rb_r q).time) (next_event_time s)
        ≡ true
      → q.rb_r < q.rb_w
      → input_consume l read input_rb_size q.rb_r q.rb_w (poll_input_queue convert q) s
        ≡ ok (r', s1)
      → tick l steps s1 ≡ ok s2
      → loop_round convert read l steps wall q s
        ≡ ok (true, record (poll_input_queue convert q) { rb_r = r' }, s2)
  unfolding loop_round
  round_consumes wall r' s1 s2 on more run1 run2 =
      let (r, w, slots) = polled in let at = slots q.rb_r (omega arith) more in ground arith

  -- what a round does
  abbrev pub Done : Bool → Ring T → State → Type 0
  Done b q' s' =
      Waiting convert read l steps u clock q' s' × (q'.rb_w ≡ q.rb_w) × (b ≡ true → s.now < s'.now)

  -- the first packet was consumed
  consumed_tick :
      (wall n : ℕ) (s1 : State) (rank : ℕ → ℕ) (ts : ℕ → List ℕ)
      → q.rb_r < q.rb_w
      → read (polled_input convert q.rb_r q).time ≤ next_event_time s
      → input_consume l read input_rb_size q.rb_r q.rb_w (poll_input_queue convert q) s
        ≡ ok (q.rb_r + n, s1)
      → Taken l u rank ts read
          (poll_input_queue convert q)
          (read (input_get q.rb_r (poll_input_queue convert q)).time)
          n
          q.rb_r
          q.rb_w
          s
          s1
      → Quiet l u s1
      → next_event_time s1 ≡ read (input_get q.rb_r (poll_input_queue convert q)).time
      → (q' : Ring T) × (s' : State) × (loop_round convert read l steps wall q s
          ≡ ok (true, q', s'))
        × Done true q' s'
  consumed_tick wall n s1 rank ts more first run1 taken quiet1 due =
      let (r, w, slots) = polled in
      let q1 = poll_input_queue convert q in
      let now = ap (λ (x : State). x.now) taken.frame in
      let time : read (input_get q.rb_r q1).time ≡ read (polled_input convert q.rb_r q).time =
        ap (λ (x : Input T). read x.time) (slots q.rb_r (omega arith) more) in
      let ready = (input_ready_lem q.rb_r q.rb_w (omega arith) (d.indexed.few)).0.1 more in
      let (after, before) = d.fresh q.rb_r (omega arith) more in
      let (s2, run2, quiet2, idle2, at2, on) =
        tick_due s1 quiet1 (ap (λ (x : State). x.act_queue_len) taken.frame ∙ d.idle)
          (omega (arith, now, d.past, d.finite)) (omega (arith, due, time, before, d.finite)) in
      (
        record q1 { rb_r = q.rb_r + n },
        s2,
        round_consumes wall (q.rb_r + n) s1 s2 (ground (arith, ready, first)) more run1 run2,
        (
          polled-Waiting convert read l steps u clock (q.rb_r + n) q s s2 d (omega arith)
              taken.within quiet2 idle2 (omega (arith, at2, due, time, before))
              (λ i a b. ground (
                arith,
                at2,
                due,
                time,
                taken.all_taken,
                slots (q.rb_r + n),
                taken.some_taken,
                d.ordered q.rb_r (q.rb_r + n),
                d.ordered (q.rb_r + n) i,
              )),
          w,
          λ e. omega (arith, on, now),
        ),
      )

  -- the first packet is due
  pub consumed :
      (wall : ℕ)
      → 1 ≤ l.depth
      → s.event_queue_len + 31 ≤ event_queue_size
      → Plain q.rb_r q.rb_w q s
      → q.rb_r < q.rb_w
      → read (polled_input convert q.rb_r q).time ≤ next_event_time s
      → (q' : Ring T) × (s' : State) × (loop_round convert read l steps wall q s
          ≡ ok (true, q', s'))
        × Done true q' s'
  consumed wall deep room plain more first =
      let (r, w, slots) = polled in
      let (n, s1, rank, ts, run1, taken, quiet1, due) =
        input_consume-Quiet l u read (poll_input_queue convert q) q.rb_r q.rb_w s d.quiet deep more
          d.indexed.few (omega (arith, d.indexed.few))
          (λ i a b. ground (arith, slots i a b, d.fresh i a b, d.finite))
          (λ i a b. ground (arith, slots i a b, plain i a b))
          (ground (arith, slots q.rb_r (omega arith) more, first)) in
      consumed_tick wall n s1 rank ts more first run1 taken quiet1 due
