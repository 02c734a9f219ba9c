-- ===== src/Tests/Structures.antt =====
-- The properties of the heaps, the queues and the objects at concrete states.
use ssm_runtime.Base.{◌*◌, ◌≡◌, ◌↔◌, arith, ◌==◌, ok, not}
use ssm_runtime.Queues.Checks.{
  event_queue_consistency_check, Passes, event_queue_consistency_check-Passes,
}
use ssm_runtime.Objects.{dups, drops}
use ssm_runtime.Objects.Balance.{drops-dups}
use ssm_runtime.State.{State, never, event_queue_size, later_time_in}
use ssm_runtime.Queues.{unschedule}
use ssm_runtime.Queues.Events.Remove.{Unscheduled, unschedule-Unscheduled}
use ssm_runtime.Objects.{drop}
use ssm_runtime.Objects.Drop.{Drops, drop-Dropped}
use ssm_runtime.Tests.{world, rank, world-EventInv, world-Sound}

unschedule-Unscheduled_example :
    (s' : State) × (unschedule 2 (world 3) ≡ ok s') × Unscheduled 2 (world 3) s'
unschedule-Unscheduled_example = unschedule-Unscheduled 2 (world 3) (world-EventInv 3)

drop-Dropped_example : Drops rank (drop 2 16) 2 (world 3)
drop-Dropped_example =
    drop-Dropped rank 2 2 16 (world 3) (λ e. omega arith) (λ e. omega arith) (world-EventInv 3)
      (world-Sound 3)

event_queue_consistency_check-Passes_example :
    (event_queue_consistency_check (world 3) ≡ ok tt)
    ↔ Passes
        (later_time_in (world 3))
        (λ p. not (later_time_in (world 3) p == never))
        (λ i. i * 2)
        2
        event_queue_size
event_queue_consistency_check-Passes_example = event_queue_consistency_check-Passes (world 3)

drops-dups_example : drops 1 2 (λ i. 4) (dups 2 0 (λ i. 4) (world 3)) ≡ ok (world 3)
drops-dups_example =
    drops-dups 1 (omega arith) 2 (λ i. 4) (world 3) (λ j a e. (omega arith, omega arith))
