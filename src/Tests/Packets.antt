-- ===== src/Tests/Packets.antt =====
-- The properties of the input ring buffer and of the platforms' loops at concrete packets.
use ssm_runtime.Base.{
  ℕ, ◌+◌, ◌*◌, ◌≤◌, ◌<◌, ◌≡◌, ◌≢◌, ◌⊎◌, refl, Bool, true, false, some, List, ok, arith, ◌==◌,
  if◌then◌else◌, update, List, [], ◌∷◌,
}
use ssm_runtime.State.{State, never}
use ssm_runtime.Posix.{
  Timespec, Normal, timespec_time, input_idx, input_read_ready, input_write_ready, input_rb_size,
}
use ssm_runtime.Posix.Main.{raw_time64_scale, ssm_time, Round, again, stop, sleep, main_round}
use ssm_runtime.Posix.Main.{stdin_handler}
use ssm_runtime.Posix.Main.Keyboard.{stdin_handler-Waiting}
use ssm_runtime.State.{marshal}
use ssm_runtime.Posix.Main.Sleep.{main_round-Waiting}
use ssm_runtime.Queues.{next_event_time}
use ssm_runtime.Inputs.{Input, Ring, input_get, put_input, scale_input, input_consume}
use ssm_runtime.Inputs.Threads.{
  Threads, Reach, Handler, Loop, load, write, publish, poll, scale, here, next, empty, stored,
  received, published_stays,
}
use ssm_runtime.Inputs.Poll.{polled_input}
use ssm_runtime.Inputs.Consume.{Plain, Taken}
use ssm_runtime.Inputs.Consume.Quiet.{input_consume-Quiet}
use ssm_runtime.Inputs.Round.{loop_round, Waiting}
use ssm_runtime.Inputs.Round.CatchUp.{rounds, rounds-Waiting}
use ssm_runtime.Queues.Roster.{occurs}
use ssm_runtime.Inputs.Round.Safe.{loop_round-Waiting}
use ssm_runtime.Scheduler.Tick.Quiet.{Quiet}
use ssm_runtime.Tests.{world, routines, limits}
use ssm_runtime.Tests.Ticks.{assigning, world-Quiet, assigning-Contract-Quiet}

abbrev double : ℕ → ℕ
double t = 2 * t

abbrev packet : (sv payload time : ℕ) → Input ℕ
packet sv payload time = record { sv = sv; payload = payload; time = time }

-- One packet is written, polled and scaled.
abbrev one_packet : Threads ℕ
one_packet = record {
  ring =
      scale_input double (record (put_input 0 (packet 4 43 5) (empty double 0).ring) { rb_w = 1 });
  handler = Handler.idle;
  loop = Loop.polling 0 1;
  accepted = update (empty double 0).accepted 0 (packet 4 43 5);
}

-- The same before it is scaled.
abbrev unscaled : Threads ℕ
unscaled = record one_packet {
  ring = record (put_input 0 (packet 4 43 5) (empty double 0).ring) { rb_w = 1 };
}

unscaled-Reach : Reach double (empty double 0) unscaled
unfolding input_write_ready input_read_ready
unscaled-Reach =
    next (next (next (next here (load refl refl)) (write (packet 4 43 5) refl)) (publish refl))
      (poll refl)

received_example :
    (input_get 0 one_packet.ring ≡ record (one_packet.accepted 0) { time = double 5 })
    × ((v : ℕ) → one_packet.handler ≡ Handler.ready v → input_idx v ≢ input_idx 0)
unfolding scale_input
received_example =
    received double (next unscaled-Reach (scale refl (omega arith))) refl (omega arith) 0
      (omega arith) (omega arith)

published_stays_example :
    (0 < one_packet.ring.rb_w)
    × (one_packet.accepted 0 ≡ unscaled.accepted 0)
    × (one_packet.ring.rb_r ≤ 0
        → input_get 0 one_packet.ring
          ≡ stored double one_packet.ring.scaled 0 (unscaled.accepted 0))
unfolding scale_input
published_stays_example =
    published_stays double unscaled-Reach (next here (scale refl (omega arith))) 0 (omega arith)

-- Two packets of one time wait, before the events of `world 3`.
abbrev two_packets : Ring ℕ
two_packets = record {
  rb = λ i. if i == 0 then packet 4 43 4 else packet 2 45 4;
  rb_r = 0;
  rb_w = 2;
  scaled = 0;
}

two_packets-Plain : Plain 0 2 two_packets (world 3)
two_packets-Plain i a b = (ground arith, λ on. ground arith)

input_consume-Quiet_example :
    (n : ℕ) × (s' : State) × (rank : ℕ → ℕ) × (ts : ℕ → List ℕ) × (input_consume limits ssm_time
        input_rb_size 0 2 two_packets
        (world 3)
      ≡ ok (0 + n, s'))
    × Taken limits routines rank ts ssm_time two_packets 4 n 0 2 (world 3) s'
    × Quiet limits routines s'
    × (next_event_time s' ≡ 4)
unfolding next_event_time
input_consume-Quiet_example =
    input_consume-Quiet limits routines ssm_time two_packets 0 2 (world 3) world-Quiet (omega arith)
      (omega arith) (omega arith) (omega arith) (λ i a b. ground arith) two_packets-Plain
      (omega arith)

two_packets-Waiting :
    Waiting (λ t. raw_time64_scale t 1) ssm_time limits assigning routines 4 two_packets (world 3)
unfolding raw_time64_scale
two_packets-Waiting = record {
  quiet = world-Quiet;
  idle = refl;
  finite = omega arith;
  past = omega arith;
  indexed = record { behind = omega arith; ahead = omega arith; few = omega arith };
  fresh = λ i a b. ground arith;
  ordered = λ i j a b c. ground arith;
}

loop_round-Waiting_example :
    (b : Bool) × (q' : Ring ℕ) × (s' : State) × (loop_round
        (λ t. raw_time64_scale t 1)
        ssm_time
        limits
        assigning
        4
        two_packets
        (world 3)
      ≡ ok (b, q', s'))
    × Waiting (λ t. raw_time64_scale t 1) ssm_time limits assigning routines 4 q' s'
    × (q'.rb_w ≡ 2)
    × (b ≡ true → 3 < s'.now)
    × (b ≡ false
        → (s' ≡ world 3)
          × (4 < next_event_time (world 3))
          × ((i : ℕ)
              → 0 ≤ i
              → i < 2
              → next_event_time (world 3)
                < ssm_time (polled_input (λ t. raw_time64_scale t 1) i two_packets).time))
loop_round-Waiting_example =
    loop_round-Waiting (λ t. raw_time64_scale t 1) ssm_time limits assigning routines
      assigning-Contract-Quiet (omega arith) (omega arith) 4 two_packets (world 3)
      two_packets-Waiting 4 (omega arith) (omega arith) (omega arith) two_packets-Plain

abbrev wall : Timespec
wall = record { tv_sec = 0; tv_nsec = 4 }

main_round-Waiting_example :
    (x : Round) × (q' : Ring ℕ) × (s' : State) × (main_round limits assigning wall two_packets
        (world 3)
      ≡ ok (x, q', s'))
    × Waiting (λ t. raw_time64_scale t 1) ssm_time limits assigning routines 4 q' s'
    × ((x ≡ again) × (3 < s'.now)
        ⊎ (x ≡ stop) × (s' ≡ world 3) × (◌≡◌ {A = ℕ} 0 2) × (next_event_time (world 3) ≡ never)
        ⊎ (timeout : Timespec) × (x ≡ sleep (some timeout))
          × (s' ≡ world 3)
          × Normal timeout
          × (timespec_time timeout + timespec_time wall ≡ next_event_time (world 3)))
unfolding timespec_time
main_round-Waiting_example =
    main_round-Waiting limits assigning routines assigning-Contract-Quiet (omega arith)
      (omega arith) 4 two_packets (world 3) two_packets-Waiting wall (omega arith) (omega arith)
      (omega arith) (omega arith) two_packets-Plain

-- The buffer after the two packets were consumed.
abbrev no_packets : Ring ℕ
no_packets = record two_packets { rb_r = 2; scaled = 2 }

no_packets-Waiting :
    Waiting (λ t. raw_time64_scale t 1) ssm_time limits assigning routines 4 no_packets (world 3)
no_packets-Waiting = record {
  quiet = world-Quiet;
  idle = refl;
  finite = omega arith;
  past = omega arith;
  indexed = record { behind = omega arith; ahead = omega arith; few = omega arith };
  fresh = λ i a b. absurd (omega arith);
  ordered = λ i j a b c. absurd (omega arith);
}

rounds-Waiting_example :
    (q' : Ring ℕ) × (s' : State) × (wall : ℕ) × (rounds
        (λ t. raw_time64_scale t 1)
        ssm_time
        limits
        assigning
        (3 ∷ 4 ∷ [])
        no_packets
        (world 3)
      ≡ ok (true, q', s'))
    × Waiting (λ t. raw_time64_scale t 1) ssm_time limits assigning routines 4 q' s'
    × (q'.rb_r ≡ q'.rb_w)
    × (3 ≤ s'.now)
    × (1 ≤ occurs wall (3 ∷ 4 ∷ []))
    × (wall < next_event_time s')
rounds-Waiting_example =
    rounds-Waiting (λ t. raw_time64_scale t 1) ssm_time limits assigning routines
      assigning-Contract-Quiet (omega arith) (omega arith) 4 (3 ∷ 4 ∷ []) no_packets (world 3)
      no_packets-Waiting refl (omega arith) (omega arith)

abbrev later_wall : Timespec
later_wall = record { tv_sec = 0; tv_nsec = 6 }

stdin_handler-Waiting_example :
    ((2 < 31)
      × Waiting
          (λ t. raw_time64_scale t 1)
          ssm_time
          limits
          assigning
          routines
          (timespec_time later_wall)
          (stdin_handler 4 65 later_wall two_packets)
          (world 3)
      × ((stdin_handler 4 65 later_wall two_packets).rb_w ≡ 3)
      × (polled_input (λ t. raw_time64_scale t 1) 2 (stdin_handler 4 65 later_wall two_packets)
          ≡ packet 4 (marshal 65) (timespec_time later_wall))
      × ((i : ℕ)
          → 0 ≤ i
          → i < 2
          → polled_input (λ t. raw_time64_scale t 1) i (stdin_handler 4 65 later_wall two_packets)
            ≡ polled_input (λ t. raw_time64_scale t 1) i two_packets))
    ⊎ ((stdin_handler 4 65 later_wall two_packets ≡ two_packets) × (◌≡◌ {A = ℕ} 2 31))
unfolding timespec_time
stdin_handler-Waiting_example =
    stdin_handler-Waiting limits assigning routines 4 two_packets (world 3) two_packets-Waiting 4 65
      later_wall (omega arith) (omega arith)
