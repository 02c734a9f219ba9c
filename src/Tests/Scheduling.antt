-- ===== src/Tests/Scheduling.antt =====
-- The tests of test/test-scheduler.c, run one after the other on the texts that they have.
use Prim.Native.Char.{code}
use Prim.Native.String.{String}
use ssm_runtime.Base.{ℕ, ◌+◌, ◌*◌, List, [], ◌∷◌, Result, ok, ◌>>=◌, ◌≡◌, refl}
use ssm_runtime.Memory.{
  mem_init, find_pool_size, find_next_block, alloc_pool, pool_take, mem_alloc, mem_free,
}
use ssm_runtime.State.{State, Value, marshal, unmarshal}
use ssm_runtime.Scheduler.{
  Limits, Steps, activate_triggers, sv_later_unsafe, later, sv_update, sensitize, write_link,
  desensitize, reset, set_now, event_queue_pop, act_queue_pop, act_step, tick_acts, tick_advance,
  tick_events, tick,
}
use ssm_runtime.Heap.{percolate_up, left_child, percolate_down, reposition, find}
use ssm_runtime.Objects.{
  is_shared, dup, drop, drop_final, drops, drop_unsafe_with, drop_final_with, drops_with, alloc,
  new_sv,
}
use ssm_runtime.Queues.{
  act_queue_percolate_up, act_queue_percolate_down, event_queue_percolate_up,
  event_queue_percolate_down, find_queued_event, activate, event_queue_reposition, unschedule,
  next_event_time,
}
use ssm_runtime.Queues.Checks.{
  check_entry, check_loop, event_queue_consistency_check, act_queue_consistency_check,
}
use ssm_runtime.Simulation.{alloc_page}
use ssm_runtime.Examples.Start.{pages, initial}
use ssm_runtime.Suite.{
  make_variables, after_reset, sort_events, unschedule_events, sort_acts, check_starts_initialized,
  drop_variables, reset_all, schedule_string, drain_events, unschedule_first, activate_string,
  drain_acts,
}
use ssm_runtime.Suite.Rounds.{
  event_basic, reschedule_events, act_basic, sort_tick, trigger_steps, swap_case, reschedule_string,
  tick_out, check_priority_step, activate_ticked, none_scheduled, flag_steps, flagged_tick,
  event_tick,
}

abbrev codes : String → List ℕ
codes String.[] = []
codes (String.◌∷◌ c s) = code c ∷ codes s

abbrev limits : Limits
limits = record { depth = 2; triggers = 5; events = 50; steps = 50 }

-- `vacuous_step`
abbrev vacuous : Steps
vacuous step act s = ok s

abbrev acts : ℕ → ℕ
acts i = 4096 + 64 * i

abbrev triggers : ℕ → ℕ
triggers i = 2048 + 32 * i

abbrev Suite : Type 0
Suite = (ℕ → Value) × State

abbrev sorts : (input expected : String) → Suite → Result Suite
sorts input expected =
    after_reset pages limits 5 (λ vars. sort_events limits vars (codes input) (codes expected))

abbrev reschedules : (input expected : String) → Suite → Result Suite
reschedules input expected =
    after_reset pages limits 5
      (λ vars. reschedule_events limits vacuous vars (codes input) (codes expected))

abbrev unschedules : (input : String) → (n : ℕ) → (expected : String) → Suite → Result Suite
unschedules input n expected =
    after_reset pages limits 5
      (λ vars. unschedule_events limits vars (codes input) n (codes expected))

abbrev sorts_acts : (input expected : String) → Suite → Result Suite
sorts_acts input expected =
    after_reset pages limits 5 (λ vars. sort_acts acts (codes input) (codes expected))

abbrev ticks_acts : (input expected : String) → Suite → Result Suite
ticks_acts input expected =
    after_reset pages limits 5 (λ vars. sort_tick limits acts 7 24 (codes input) (codes expected))

-- the objects that are left, which are the variables
abbrev passed : Suite → Result ℕ
passed (vars, s) = ok s.memory.live_objects

-- All tests pass, on the texts of up to four characters.
tests_pass :
    (make_variables pages (λ i. 1) 5 0 (record initial { memory = mem_init initial.memory })
      >>= after_reset pages limits 5 (λ vars. event_basic limits vacuous vars)
      >>= sorts "" ""
      >>= sorts "ABC" "ABC"
      >>= sorts "CBA" "ABC"
      >>= sorts "ABCD" "ABCD"
      >>= sorts "DBCA" "ABCD"
      >>= sorts "DCBA" "ABCD"
      >>= reschedules "ABC" "abc"
      >>= reschedules "CBA" "abc"
      >>= reschedules "ABCD" "abcd"
      >>= reschedules "DBCA" "abcd"
      >>= reschedules "DCBA" "abcd"
      >>= unschedules "ABCD" 1 "BCD"
      >>= unschedules "ABCD" 2 "CD"
      >>= unschedules "ABCD" 3 "D"
      >>= unschedules "bcda" 2 "ad"
      >>= after_reset pages limits 5 (λ vars. act_basic limits vacuous acts)
      >>= sorts_acts "" ""
      >>= sorts_acts "ABC" "ABC"
      >>= sorts_acts "CBA" "ABC"
      >>= sorts_acts "ABCD" "ABCD"
      >>= sorts_acts "DBCA" "ABCD"
      >>= sorts_acts "DCBA" "ABCD"
      >>= ticks_acts "" ""
      >>= ticks_acts "ABC" "ABC"
      >>= ticks_acts "CBA" "ABC"
      >>= ticks_acts "ABCD" "ABCD"
      >>= ticks_acts "DBCA" "ABCD"
      >>= ticks_acts "DCBA" "ABCD"
      >>= after_reset pages limits 5
          (λ vars. trigger_steps limits (λ i. 24 + 8 * i) (vars 0) acts triggers)
      >>= passed)
    ≡ ok 5
unfolding percolate_up left_child percolate_down reposition find find_pool_size find_next_block
    alloc_pool pool_take mem_alloc mem_free mem_init is_shared dup drop drop_final drops
    drop_unsafe_with drop_final_with drops_with alloc new_sv act_queue_percolate_up
    act_queue_percolate_down event_queue_percolate_up event_queue_percolate_down find_queued_event
    activate event_queue_reposition unschedule next_event_time check_entry check_loop
    event_queue_consistency_check act_queue_consistency_check activate_triggers sv_later_unsafe
    later sv_update sensitize write_link desensitize reset set_now event_queue_pop act_queue_pop
    act_step tick_acts tick_advance tick_events tick alloc_page marshal unmarshal
    check_starts_initialized drop_variables make_variables reset_all schedule_string drain_events
    sort_events unschedule_first unschedule_events activate_string drain_acts sort_acts after_reset
    event_basic swap_case reschedule_string tick_out reschedule_events act_basic check_priority_step
    activate_ticked none_scheduled sort_tick flag_steps flagged_tick event_tick trigger_steps
tests_pass = refl
