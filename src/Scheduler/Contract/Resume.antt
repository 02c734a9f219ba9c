-- ===== src/Scheduler/Contract/Resume.antt =====
-- `act->pc = ...` as a part of a step function.
use ssm_runtime.Base.{ℕ, refl, inl, List, arith}
use ssm_runtime.State.{State, Link, put_act}
use ssm_runtime.Queues.Acts.{ActInv}
use ssm_runtime.Scheduler.{Limits}
use ssm_runtime.Scheduler.Wake.{Chain-same, Listed-same}
use ssm_runtime.Scheduler.Triggers.{Lists, Linked-frame}
use ssm_runtime.Scheduler.Update.{TickInv}
use ssm_runtime.Scheduler.Instant.{Stepped}
use ssm_runtime.Scheduler.Tick.Quiet.{Quiet}

-- `act->pc = n`
abbrev pub resumed : (act n : ℕ) → State → State
resumed act n s = put_act act (record (s.act act) { pc = n }) s

module _ (act n : ℕ) (s : State) where
  resumed-ActInv : ActInv s → ActInv (resumed act n s)
  resumed-ActInv inv = record {
    heap = λ i a b. ground (arith, inv.heap i);
    counted = λ a. ground (arith, inv.counted a);
    bounded = inv.bounded;
  }

  pub resumed-TickInv :
      (l : Limits) (u : List ℕ) (rank : ℕ → ℕ) (ts : ℕ → List ℕ)
      → TickInv l u rank ts s
      → TickInv l u rank ts (resumed act n s)
  resumed-TickInv l u rank ts inv = record {
    events = record {
      heap = inv.events.heap;
      counted = inv.events.counted;
      bounded = inv.events.bounded;
    };
    acts = resumed-ActInv inv.acts;
    roster = record {
      small = inv.roster.small;
      listed = λ a on. ground (arith, inv.roster.listed a);
    };
    sound = record {
      kinds = inv.sound.kinds;
      payloads = inv.sound.payloads;
      values = inv.sound.values;
      laters = inv.sound.laters;
    };
    chains = λ p. Chain-same s (resumed act n s) (s.sv p).triggers (ts p) refl (inv.chains p);
    listed = λ p. Listed-same u s (resumed act n s) (ts p) refl (inv.listed p);
    short = inv.short;
    deep = inv.deep;
    clock = inv.clock;
    range = inv.range;
    future = inv.future;
  }

  pub resumed-Stepped :
      (l : Limits) (u : List ℕ) (r : ℕ) → Quiet l u s → Stepped (Quiet l u) u r s (resumed act n s)
  resumed-Stepped l u r ((rank, ts, inv), quiet) =
      let inv' = resumed-TickInv l u rank ts inv in
      record {
        keeps = ((rank, ts, inv'), quiet);
        acts = inv'.acts;
        roster = inv'.roster;
        clock = refl;
        priorities = λ a. ground arith;
        later = λ a on. inl (ground arith);
      }

  pub resumed-Lists : (ts : ℕ → List ℕ) → Lists ts s → Lists ts (resumed act n s)
  resumed-Lists ts lists = record {
    linked = λ v.
        Linked-frame s (resumed act n s) (Link.triggers_of v) (s.sv v).triggers (ts v) (λ t h. refl)
          (lists.linked v);
    distinct = lists.distinct;
    apart = lists.apart;
  }
