-- ===== src/Examples/Clock/Run.antt =====
-- The program of clock.c, from its start to the limit of the simulation.
use ssm_runtime.Base.{ℕ, ◌+◌, ◌*◌, ok, Result, ◌≡◌, refl, ◌>>=◌, ◌<◌, ◌≤◌, ◌∙◌, ap, arith}
use mathlib.Core.Path.{subst}
use ssm_runtime.Memory.{
  mem_init, find_pool_size, find_next_block, alloc_pool, pool_take, mem_alloc, mem_free,
}
use ssm_runtime.State.{State, never, marshal, unmarshal}
use ssm_runtime.Scheduler.{
  tick, activate_triggers, sv_assign_unsafe, assign, sv_later_unsafe, later, sv_update, sensitize,
  write_link, desensitize, set_now, enter, leave, top_return, event_queue_pop, act_queue_pop,
  act_step, tick_acts, tick_advance, tick_events,
}
use ssm_runtime.Heap.{percolate_up, left_child, percolate_down}
use ssm_runtime.Objects.{is_shared, dup, alloc, new_sv, drop, drop_final}
use ssm_runtime.Queues.{
  act_queue_percolate_up, act_queue_percolate_down, event_queue_percolate_up,
  event_queue_percolate_down, find_queued_event, activate, event_queue_reposition, next_event_time,
}
use ssm_runtime.Simulation.{run_until, second, stop_time, main, alloc_page}
use ssm_runtime.Examples.Clock.{
  program, program_init, enter_second_clock, enter_report_seconds, enter_main, beat,
  step_second_clock, listen, step_report_seconds, fork_main, step_main,
}
use ssm_runtime.Examples.Clock.Beat.{Cast}
use ssm_runtime.Examples.Clock.Rounds.{Rests}
use ssm_runtime.Examples.Clock.Ticks.{run_until-Rests}
use ssm_runtime.Examples.Start.{pages, bounds, initial}

-- after the first tick
abbrev first_tick : Result State
first_tick =
    program_init pages 8 (record initial { memory = mem_init initial.memory })
    >>= tick bounds (program pages bounds 10)

abbrev state_of : Result State → State
state_of (ok s) = s
state_of r = initial

abbrev started : State
started = state_of first_tick

-- the addresses that the program gets
abbrev pub cast : Cast
cast = record {
  clock = 81920;
  report = 82176;
  timer = 65664;
  event = 65600;
  seconds = 65728;
  routines_apart = omega arith;
  timer_event = omega arith;
  timer_seconds = omega arith;
  event_seconds = omega arith;
}

started-ok : first_tick ≡ ok started
unfolding percolate_up left_child percolate_down find_pool_size find_next_block alloc_pool pool_take
    mem_alloc mem_free mem_init is_shared dup alloc new_sv drop drop_final act_queue_percolate_up
    act_queue_percolate_down event_queue_percolate_up event_queue_percolate_down find_queued_event
    activate event_queue_reposition next_event_time activate_triggers sv_assign_unsafe assign
    sv_later_unsafe later sv_update sensitize write_link desensitize set_now enter leave top_return
    event_queue_pop act_queue_pop act_step tick_acts tick_advance tick_events tick alloc_page
    marshal unmarshal enter_second_clock enter_report_seconds enter_main beat step_second_clock
    listen step_report_seconds fork_main step_main program program_init
started-ok = refl

started-Rests : Rests cast second 0 started
unfolding percolate_up left_child percolate_down find_pool_size find_next_block alloc_pool pool_take
    mem_alloc mem_free mem_init is_shared dup alloc new_sv drop drop_final act_queue_percolate_up
    act_queue_percolate_down event_queue_percolate_up event_queue_percolate_down find_queued_event
    activate event_queue_reposition next_event_time activate_triggers sv_assign_unsafe assign
    sv_later_unsafe later sv_update sensitize write_link desensitize set_now enter leave top_return
    event_queue_pop act_queue_pop act_step tick_acts tick_advance tick_events tick alloc_page
    marshal unmarshal enter_second_clock enter_report_seconds enter_main beat step_second_clock
    listen step_report_seconds fork_main step_main program program_init
started-Rests = record {
  fixed = record {
    event_of_clock = refl;
    timer_of_clock = refl;
    event_of_report = refl;
    seconds_of_report = refl;
    clock_step = refl;
    clock_pc = refl;
    report_step = refl;
    report_pc = refl;
    order = omega arith;
    clock_trigger = refl;
    report_trigger = refl;
  };
  vars = record {
    timer_waits = refl;
    event_waits = refl;
    seconds_alone = refl;
    timer_plain = refl;
    timer_later = refl;
    event_plain = refl;
    timer_when = refl;
    counted = refl;
  };
  queued = record {
    queue = refl;
    queue_first = λ e. absurd (omega arith);
    clock_scheduled = refl;
    report_scheduled = refl;
    events = refl;
    events_first = λ e. refl;
  };
}

started-second : started.now + second ≡ second
unfolding percolate_up left_child percolate_down find_pool_size find_next_block alloc_pool pool_take
    mem_alloc mem_free mem_init is_shared dup alloc new_sv drop drop_final act_queue_percolate_up
    act_queue_percolate_down event_queue_percolate_up event_queue_percolate_down find_queued_event
    activate event_queue_reposition next_event_time activate_triggers sv_assign_unsafe assign
    sv_later_unsafe later sv_update sensitize write_link desensitize set_now enter leave top_return
    event_queue_pop act_queue_pop act_step tick_acts tick_advance tick_events tick alloc_page
    marshal unmarshal enter_second_clock enter_report_seconds enter_main beat step_second_clock
    listen step_report_seconds fork_main step_main program program_init
started-second = refl

started-stop : (n : ℕ) → started.now + n * second ≡ n * second
started-stop n = omega (arith, started-second)

stop_time_lem : (n : ℕ) → 1 ≤ n → n * second < never → stop_time n ≡ n * second
unfolding stop_time
stop_time_lem n some_limit room = ground (arith, some_limit, room)

-- The simulation runs the program of clock.c, from its static data on, to a limit of `n` seconds: if `n` is
-- not 0, the second after the limit comes before SSM_NEVER, and there are more rounds than seconds, then
-- `main` returns at the limit, with `n` seconds counted, and both routines waiting for the next one.
pub main-Rests :
    (n rounds : ℕ)
    → 1 ≤ n
    → (n + 1) * second < never
    → n < rounds
    → (s' : State) × (main rounds bounds
          (program pages bounds 10)
          (program_init pages 8)
          ok
          n
          initial
        ≡ ok s')
      × Rests cast (n * second + second) n s'
      × (s'.now ≡ n * second)
unfolding main
main-Rests n rounds some_limit room enough =
    let (s', run, r, now) =
      run_until-Rests pages bounds 9 (omega arith) (omega arith) (omega arith) cast n rounds second
        0 (n * second) started started-Rests started-second (started-stop n) (omega arith) enough in
    let total : n + 0 ≡ n = omega arith in
    (
      s',
      ap (λ r. r >>= run_until rounds bounds (program pages bounds 10) (stop_time n) >>= ok)
            started-ok
          ∙ ap (λ t. run_until rounds bounds (program pages bounds 10) t started >>= ok)
              (stop_time_lem n some_limit (omega arith))
          ∙ ap (λ r. r >>= ok) run,
      subst (λ (k : ℕ). Rests cast (n * second + second) k s') total r,
      now,
    )
