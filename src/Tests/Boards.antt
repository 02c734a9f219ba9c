-- ===== src/Tests/Boards.antt =====
-- The properties of the Zephyr platform on a concrete board.
use ssm_runtime.Base.{
  ℕ, ◌%◌, ◌^◌, ◌≤◌, ◌<◌, ◌≡◌, ◌≢◌, ◌⊎◌, refl, Bool, true, false, none, some, ok, throw, Error,
  arith, ◌==◌, if◌then◌else◌,
}
use ssm_runtime.State.{State, never}
use ssm_runtime.Queues.{next_event_time}
use ssm_runtime.Inputs.{Ring}
use ssm_runtime.Inputs.Poll.{polled_input}
use ssm_runtime.Inputs.Round.{Waiting}
use ssm_runtime.Zephyr.{RawTime, timer_combine, timer_calc, get_ssm, put_ssm, scale_time}
use ssm_runtime.Zephyr.Timer.{
  Status, Timer, timer_read_raw, timer_set_alarm, scale_time-timer_read_raw,
}
use ssm_runtime.Zephyr.{zephyr_insert_input}
use ssm_runtime.Zephyr.Handler.{zephyr_insert_input-Waiting}
use ssm_runtime.Zephyr.Loop.{Round, again, sleep, sleep_with_alarm, tick_round, tick_round-Waiting}
use ssm_runtime.Zephyr.Wakeups
use ssm_runtime.Zephyr.Wakeups.{Semaphore, Board, Loop, Interrupt, Reach, first, no_lost_wakeup}
use ssm_runtime.Tests.{world, routines, limits}
use ssm_runtime.Tests.Ticks.{assigning, world-Quiet, assigning-Contract-Quiet}

abbrev timer_at : (hi : ℕ) → Timer
timer_at hi = record { timer_hi = hi; timer_cb = none }

-- The counter turns over between the first read and the second.
scale_time-timer_read_raw_example :
    get_ssm (scale_time (timer_read_raw (timer_at 0) (4294967300 % 2 ^ 32) (timer_at 1)))
    ≡ 4294967300
scale_time-timer_read_raw_example =
    scale_time-timer_read_raw 4294967290 4294967300 4294967301 (timer_at 0) (timer_at 1)
      (omega arith) (omega arith) (omega arith) (omega arith) (omega arith) (omega arith)

-- One packet, at the time 4.
abbrev packets : Ring RawTime
packets = record {
  rb = λ i. record { sv = 4; payload = 43; time = record { hi0 = 0; lo = 4; hi1 = 0 } };
  rb_r = 0;
  rb_w = 1;
  scaled = 0;
}

packets-Waiting : Waiting scale_time get_ssm limits assigning routines 4 packets (world 3)
unfolding get_ssm scale_time put_ssm timer_calc timer_combine
packets-Waiting = record {
  quiet = world-Quiet;
  idle = refl;
  finite = omega arith;
  past = omega arith;
  indexed = record { behind = omega arith; ahead = omega arith; few = omega arith };
  fresh = λ i a b. ground arith;
  ordered = λ i j a b c. absurd (omega arith);
}

abbrev takes_alarms : (ticks : ℕ) → Status
takes_alarms ticks = Status.done

-- One packet at the time 6, which is after the event at 5.
abbrev late_packet : Ring RawTime
late_packet = record packets {
  rb = λ i. record { sv = 4; payload = 43; time = record { hi0 = 0; lo = 6; hi1 = 0 } };
}

late_packet-Waiting : Waiting scale_time get_ssm limits assigning routines 6 late_packet (world 3)
unfolding get_ssm scale_time put_ssm timer_calc timer_combine
late_packet-Waiting = record {
  quiet = world-Quiet;
  idle = refl;
  finite = omega arith;
  past = omega arith;
  indexed = record { behind = omega arith; ahead = omega arith; few = omega arith };
  fresh = λ i a b. ground arith;
  ordered = λ i j a b c. absurd (omega arith);
}

-- A device that takes an alarm at 5 only.
abbrev takes_five : (ticks : ℕ) → Status
takes_five ticks = if ticks == 5 then Status.done else Status.device 22

tick_round-Waiting_example :
    ((x : Round) × (q' : Ring RawTime) × (s' : State) × (t' : Timer) × (tick_round limits assigning
          takes_five 9 4 late_packet
          (world 3)
          (timer_at 0)
        ≡ ok (x, q', s', t'))
      × Waiting scale_time get_ssm limits assigning routines 6 q' s'
      × ((x ≡ again) × (3 < s'.now) × (t' ≡ timer_at 0)
          ⊎ (x ≡ sleep)
            × (s' ≡ world 3)
            × (◌≡◌ {A = ℕ} 0 1)
            × (next_event_time (world 3) ≡ never)
            × (t' ≡ timer_at 0)
          ⊎ (x ≡ sleep_with_alarm)
            × (s' ≡ world 3)
            × (takes_five (next_event_time (world 3) % 2 ^ 32) ≡ Status.done)
            × (t' ≡ record (timer_at 0) { timer_cb = some 9 })
            × ((4 < next_event_time (world 3))
                × ((i : ℕ)
                    → 0 ≤ i
                    → i < 1
                    → next_event_time (world 3)
                      < get_ssm (polled_input scale_time i late_packet).time))))
    ⊎ (tick_round limits assigning takes_five 9 4 late_packet (world 3) (timer_at 0)
        ≡ throw Error.internal_error)
      × (takes_five (next_event_time (world 3) % 2 ^ 32) ≢ Status.done)
      × ((4 < next_event_time (world 3))
          × ((i : ℕ)
              → 0 ≤ i
              → i < 1
              → next_event_time (world 3) < get_ssm (polled_input scale_time i late_packet).time))
tick_round-Waiting_example =
    tick_round-Waiting limits assigning takes_five 9 routines assigning-Contract-Quiet (omega arith)
      (omega arith) 6 late_packet (world 3) (timer_at 0) late_packet-Waiting 4 (omega arith)
      (omega arith) (omega arith) (λ i a b. (refl, λ on. ground arith)) refl

-- A semaphore that counts to one.
abbrev binary : Semaphore
binary = record {
  Sem = Bool;
  available = λ c. c;
  give = λ c. true;
  take = λ c. false;
  reset = λ c. false;
  available-give = λ c. refl;
}

abbrev first_board : Board binary 9 takes_alarms Status.done
first_board = first binary 9 takes_alarms Status.done 0 0 false

-- The loop sleeps with an alarm, and an input came meanwhile.
abbrev asleep : Board binary 9 takes_alarms Status.done
asleep = record {
  rb_w = 1;
  sem = true;
  timer = record { timer_hi = 0; timer_cb = some 9 };
  interrupt = Interrupt.idle;
  loop = Loop.waiting_for_alarm 0;
}

asleep-Reach : Reach binary 9 takes_alarms Status.done first_board asleep
unfolding timer_set_alarm
asleep-Reach =
    Wakeups.next
      (Wakeups.next
        (Wakeups.next (Wakeups.next Wakeups.here (Wakeups.poll refl))
          (Wakeups.set_alarm 7 refl refl))
        (Wakeups.publish refl))
      (Wakeups.post refl)

no_lost_wakeup_example :
    ((w : ℕ)
      → (asleep.loop ≡ Loop.waiting w) ⊎ (asleep.loop ≡ Loop.waiting_for_alarm w)
      → 1 ≢ w
      → (◌≡◌ {A = Bool} true true) ⊎ (asleep.interrupt ≡ Interrupt.posting))
    × ((w : ℕ)
        → asleep.loop ≡ Loop.waiting_for_alarm w
        → (◌≡◌ {A = Bool} true true) ⊎ (asleep.timer.timer_cb ≡ some 9))
    × ((w next_time : ℕ)
        → asleep.loop ≡ Loop.polled w
        → (timer_set_alarm takes_alarms next_time 9 asleep.timer).0
          ≡ takes_alarms (next_time % 2 ^ 32))
no_lost_wakeup_example = no_lost_wakeup binary 9 takes_alarms Status.done asleep-Reach

zephyr_insert_input-Waiting_example :
    ((q' : Ring RawTime) × (zephyr_insert_input 4 47
          (timer_read_raw (timer_at 0) (8 % 2 ^ 32) (timer_at 0))
          packets
        ≡ (true, q'))
      × (1 < 31)
      × Waiting scale_time get_ssm limits assigning routines 8 q' (world 3)
      × (q'.rb_w ≡ 2)
      × ((polled_input scale_time 1 q').sv ≡ 4)
      × ((polled_input scale_time 1 q').payload ≡ 47)
      × (get_ssm (polled_input scale_time 1 q').time ≡ 8))
    ⊎ ((zephyr_insert_input 4 47 (timer_read_raw (timer_at 0) (8 % 2 ^ 32) (timer_at 0)) packets
          ≡ (false, packets))
        × (◌≡◌ {A = ℕ} 1 31))
zephyr_insert_input-Waiting_example =
    zephyr_insert_input-Waiting limits assigning routines 4 packets (world 3) packets-Waiting 4 47 7
      8 9 (timer_at 0) (timer_at 0) (omega arith) (omega arith) (omega arith) (omega arith)
      (omega arith) (omega arith) (omega arith)
