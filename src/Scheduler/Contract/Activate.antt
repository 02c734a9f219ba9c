-- ===== src/Scheduler/Contract/Activate.antt =====
-- The activation of a routine, such as a child, as a part of a step function.
use ssm_runtime.Base.{ℕ, ◌<◌, ◌≡◌, ap, List, ok, arith}
use ssm_runtime.State.{State, Act, priority_in}
use ssm_runtime.Queues.{activate}
use ssm_runtime.Queues.Acts.{ActInv, activate-Activated}
use ssm_runtime.Queues.Roster.{Roster, Roster-room, occurs}
use ssm_runtime.Scheduler.{Limits}
use ssm_runtime.Scheduler.Instant.{Stepped}
use ssm_runtime.Scheduler.Tick.Quiet.{Quiet, Quiet-Stable}

-- A routine that activates one of a later priority, which is among the routines of the program, keeps the
-- contract of ticks that follow each other.
pub activate-Stepped :
    (l : Limits) (u : List ℕ) (r act : ℕ) (s : State)
    → Quiet l u s
    → ActInv s
    → Roster u s
    → occurs act u ≡ 1
    → priority_in s r < priority_in s act
    → (s' : State) × (activate act s ≡ ok s') × Stepped (Quiet l u) u r s s'
activate-Stepped l u r act s quiet inv roster known later =
    let (s', run, a) =
      activate-Activated act s inv (λ idle. Roster-room s u act inv roster known idle) in
    let roster' : Roster u s' = record {
      small = roster.small;
      listed = λ x on. ground (arith, a.marked x, roster.listed x, known);
    } in
    (
      s',
      run,
      record {
        keeps = Quiet-Stable l u s s' a.only a.inv roster' quiet;
        acts = a.inv;
        roster = roster';
        clock = ap (λ (t : State). t.now) a.only.frame;
        priorities = λ x. ap (λ (t : Act). t.priority) (a.only.acts x);
        later = λ x on. ground (arith, a.marked x, later);
      },
    )
