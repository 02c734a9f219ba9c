-- ===== src/Tests/Programs.antt =====
-- The example programs, run from their static data to their ends.
use ssm_runtime.Base.{ℕ, ok, Result, ◌≡◌, refl, ◌>>=◌, ◌*◌, ◌^◌}
use ssm_runtime.Heap.{percolate_up, left_child, percolate_down, reposition, find}
use ssm_runtime.Memory.{
  find_pool_size, find_next_block, alloc_pool, pool_take, mem_alloc, mem_free, mem_init,
}
use ssm_runtime.Objects.{
  is_shared, tag, dup, dups, drop, drop_final, drops, drop_unsafe_with, drop_final_with, drops_with,
  alloc, new_sv, new_adt, new_time, new_closure,
}
use ssm_runtime.Queues.{
  act_queue_percolate_up, act_queue_percolate_down, event_queue_percolate_up,
  event_queue_percolate_down, find_queued_event, activate, event_queue_reposition, unschedule,
  next_event_time,
}
use ssm_runtime.Scheduler.{
  Steps, activate_triggers, sv_assign_unsafe, assign, sv_later_unsafe, later, sv_update, sensitize,
  write_link, desensitize, set_now, enter, leave, top_return, event_queue_pop, act_queue_pop,
  act_step, tick_acts, tick_advance, tick_events, tick,
}
use ssm_runtime.Simulation.{alloc_page, run_until, stop_time, main}
use ssm_runtime.State.{State, marshal, unmarshal}
use ssm_runtime.Closures.{
  set_arg_count, set_arg, closure_push, closure_pop, closure_free, clone_args, closure_clone,
  closure_activate, closure_apply, closure_apply_final, closure_apply_auto,
  closure_apply_final_auto,
}
use ssm_runtime.Examples.OneTwo
use ssm_runtime.Examples.Fib
use ssm_runtime.Examples.Hello
use ssm_runtime.Examples.Counter
use ssm_runtime.Examples.Cons
use ssm_runtime.Examples.Closure
use ssm_runtime.Examples.MapClosure
use ssm_runtime.Examples.Closure.Unoptimized
use ssm_runtime.Examples.Start.{pages, bounds, initial}

-- a program under the bounds, with calls of parents ten deep
abbrev run : (steps : Steps) → (init exit : State → Result State) → (stop : ℕ) → Result State
run steps init exit stop = main 100 bounds steps init exit stop initial

-- the time of the end, the objects that are left, and the routines that have not left
abbrev at_end : State → Result (ℕ × ℕ × ℕ)
at_end s = ok (s.now, s.memory.live_objects, s.num_processes)

abbrev value_and_end : ℕ × State → Result (ℕ × ℕ × ℕ × ℕ)
value_and_end (n, s) = ok (n, s.now, s.memory.live_objects, s.num_processes)

-- onetwo.c, fib.c at 5, hello.c, counter.c for twenty seconds, list.c at 3, both builds of closures.c, and
-- map-closure.c at 3
programs_run :
    ((run (OneTwo.program pages bounds 10) (OneTwo.program_init pages 8) ok 0 >>= at_end)
      ≡ ok (100, 0, 0))
    × ((run (Fib.program pages bounds 10) (Fib.program_init pages 8 16 5) ok 0
          >>= Fib.program_exit bounds 16
          >>= value_and_end)
        ≡ ok (8, 5 * 10 ^ 9, 0, 0))
    × ((run (Hello.program pages bounds 10) (Hello.program_init pages 8) ok 0 >>= at_end)
        ≡ ok (150, 1, 0))
    × ((run (Counter.program pages bounds 10) (Counter.program_init pages 8) ok 20 >>= at_end)
        ≡ ok (20 * 10 ^ 9, 11, 6))
    × ((run
            (Cons.program pages bounds 10)
            (Cons.program_init pages 16 8 3)
            (Cons.program_exit bounds 16)
            20
          >>= at_end)
        ≡ ok (0, 0, 0))
    × ((run (Closure.program pages bounds 10) (Closure.program_init pages 16 8) ok 20
          >>= Closure.program_exit bounds 16
          >>= value_and_end)
        ≡ ok (58, 0, 0, 0))
    × ((run (Unoptimized.program pages bounds 10) (Unoptimized.program_init pages 16 8) ok 20
          >>= Closure.program_exit bounds 16
          >>= value_and_end)
        ≡ ok (58, 0, 0, 0))
    × ((run
            (MapClosure.program pages bounds 10)
            (MapClosure.program_init pages 16 8 3)
            (MapClosure.program_exit bounds 16)
            20
          >>= at_end)
        ≡ ok (0, 0, 0))
unfolding percolate_up left_child percolate_down reposition find find_pool_size find_next_block
    alloc_pool pool_take mem_alloc mem_free mem_init is_shared tag dup dups drop drop_final drops
    drop_unsafe_with drop_final_with drops_with alloc new_sv new_adt new_time new_closure
    act_queue_percolate_up act_queue_percolate_down event_queue_percolate_up
    event_queue_percolate_down find_queued_event activate event_queue_reposition unschedule
    next_event_time activate_triggers sv_assign_unsafe assign sv_later_unsafe later sv_update
    sensitize write_link desensitize set_now enter leave top_return event_queue_pop act_queue_pop
    act_step tick_acts tick_advance tick_events tick alloc_page run_until stop_time main marshal
    unmarshal set_arg_count set_arg closure_push closure_pop closure_free clone_args closure_clone
    closure_activate closure_apply closure_apply_final closure_apply_auto closure_apply_final_auto
    OneTwo.enter_one OneTwo.enter_two OneTwo.enter_main OneTwo.step_one OneTwo.step_two
    OneTwo.fork_main OneTwo.step_main OneTwo.program OneTwo.program_init Fib.enter_mywait
    Fib.enter_sum Fib.enter_fib Fib.step_mywait Fib.fork_sum Fib.step_sum Fib.fork_fib Fib.step_fib
    Fib.program Fib.program_init Fib.program_exit Hello.enter_hello Hello.enter_print
    Hello.enter_main Hello.print_yield Hello.step_hello Hello.step_print Hello.fork_main
    Hello.step_main Hello.program Hello.program_init Counter.enter_clock Counter.enter_dff1
    Counter.enter_dff2 Counter.enter_incr Counter.enter_adder Counter.enter_main Counter.half_period
    Counter.step_clock Counter.latch Counter.step_dff1 Counter.step_dff2 Counter.increment
    Counter.step_incr Counter.add Counter.step_adder Counter.new_variables Counter.fork_main
    Counter.step_main Counter.program Counter.program_init Cons.return_field Cons.enter_map_inc
    Cons.enter_print_list Cons.enter_main Cons.new_cons Cons.map_cons Cons.map_return
    Cons.step_map_inc Cons.print_cons Cons.step_print_list Cons.step_main Cons.program
    Cons.init_list Cons.program_init Cons.program_exit Closure.enter_foo Closure.enter_functions
    Closure.enter_main Closure.step_foo Closure.main_from_8 Closure.main_from_7 Closure.main_from_6
    Closure.main_from_3 Closure.main_from_2 Closure.main_start Closure.step_main Closure.program
    Closure.program_init Closure.program_exit Unoptimized.enter_main Unoptimized.apply_then
    Unoptimized.drop_field Unoptimized.main_from_9 Unoptimized.main_from_8 Unoptimized.main_from_7
    Unoptimized.main_from_6 Unoptimized.main_from_5 Unoptimized.main_from_4 Unoptimized.main_from_3
    Unoptimized.main_from_2 Unoptimized.main_from_1 Unoptimized.main_start Unoptimized.step_main
    Unoptimized.program Unoptimized.program_init MapClosure.enter_inc_offset
    MapClosure.enter_functions MapClosure.enter_map MapClosure.enter_print_list
    MapClosure.enter_main MapClosure.step_inc_offset MapClosure.map_tail MapClosure.map_cons
    MapClosure.map_return MapClosure.step_map MapClosure.print_cons MapClosure.step_print_list
    MapClosure.main_map MapClosure.step_main MapClosure.program MapClosure.program_init
    MapClosure.program_exit
programs_run = (refl, refl, refl, refl, refl, refl, refl, refl)
