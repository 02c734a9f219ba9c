-- ===== src/Tests/Echo.antt =====
-- The program of echo.c for a character.
use ssm_runtime.Base.{ℕ, ok, Result, refl, ◌>>=◌, ◌≡◌}
use ssm_runtime.State.{State, marshal, unmarshal}
use ssm_runtime.Scheduler.{
  tick, later, activate_triggers, sv_later_unsafe, sv_update, sensitize, write_link, desensitize,
  set_now, enter, event_queue_pop, act_queue_pop, act_step, tick_acts, tick_advance, tick_events,
}
use ssm_runtime.Heap.{percolate_up, left_child, percolate_down}
use ssm_runtime.Memory.{find_pool_size, find_next_block, alloc_pool, pool_take, mem_alloc, mem_init}
use ssm_runtime.Objects.{
  is_shared, dup, drop, drop_unsafe_with, drop_final_with, drop_final, alloc, new_sv,
}
use ssm_runtime.Queues.{
  act_queue_percolate_up, act_queue_percolate_down, event_queue_percolate_up,
  event_queue_percolate_down, find_queued_event, activate, event_queue_reposition, next_event_time,
}
use ssm_runtime.Simulation.{alloc_page}
use ssm_runtime.Posix.{nanos, timespec_time}
use ssm_runtime.Posix.Main.{main_start, step_stdout_handler, enter_stdout_handler}
use ssm_runtime.Examples.Start.{pages, bounds, initial}
use ssm_runtime.Examples.Echo.{program, enter_main, stdout_handler, upper, listen, step_main}

-- The start of the program, and the character 'a' a second later.
abbrev started : Result (ℕ × State)
started =
    main_start pages bounds (program bounds 10) stdout_handler 8 (enter_main pages)
      (record { tv_sec = 0; tv_nsec = 1 }) initial
    >>= λ (stdin, act, s).
        later bounds stdin nanos (marshal 97) s >>= λ s1. ok (s1.payload act 0, s1)

abbrev shown : ℕ → State → Result (ℕ × ℕ)
shown stdout s = ok (s.now, unmarshal (s.sv stdout).value)

-- 'A' half a second after the character, and a new line a millisecond later
echo_run :
    ((started >>= λ (stdout, s).
    tick bounds (program bounds 10) s >>= tick bounds (program bounds 10) >>= shown stdout)
      ≡ ok (1500000000, 65))
    × ((started >>= λ (stdout, s).
          tick bounds (program bounds 10) s
          >>= tick bounds (program bounds 10)
          >>= tick bounds (program bounds 10)
          >>= shown stdout)
        ≡ ok (1501000000, 10))
unfolding percolate_up left_child percolate_down find_pool_size find_next_block alloc_pool pool_take
    mem_alloc mem_init is_shared dup drop drop_unsafe_with drop_final_with drop_final alloc new_sv
    act_queue_percolate_up act_queue_percolate_down event_queue_percolate_up
    event_queue_percolate_down find_queued_event activate event_queue_reposition next_event_time
    activate_triggers sv_later_unsafe later sv_update sensitize write_link desensitize set_now enter
    event_queue_pop act_queue_pop act_step tick_acts tick_advance tick_events tick alloc_page
    marshal unmarshal timespec_time step_stdout_handler enter_stdout_handler main_start enter_main
    upper listen step_main program
echo_run = (refl, refl)
