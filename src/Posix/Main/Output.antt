-- ===== src/Posix/Main/Output.antt =====
-- The handler of standard output, platform/posix/src/posix-io.c, as a routine of the program.
use ssm_runtime.Base.{
  ℕ, suc, ◌<◌, ◌≡◌, ◌≢◌, refl, inl, true, false, List, ◌∷◌, ok, arith, length, update,
}
use ssm_runtime.State.{State, null, later_time_in}
use ssm_runtime.Queues.Events.{pending}
use ssm_runtime.Queues.Roster.{occurs}
use ssm_runtime.Scheduler.{Limits, Steps, sensitize}
use ssm_runtime.Scheduler.Triggers.{Lists, has}
use ssm_runtime.Scheduler.Update.{TickInv}
use ssm_runtime.Scheduler.Instant.{Stepped}
use ssm_runtime.Scheduler.Tick.Quiet.{Quiet}
use ssm_runtime.Scheduler.Contract.{Stepped-trans}
use ssm_runtime.Scheduler.Contract.Resume.{resumed, resumed-Stepped, resumed-Lists}
use ssm_runtime.Scheduler.Contract.Waits.{sensitize-Stepped}
use ssm_runtime.Posix.Main.{ssm_stdout_of, trigger_of, step_stdout_handler}

module _ (l : Limits) (steps : Steps) (u : List ℕ) (rank : ℕ → ℕ) (ts : ℕ → List ℕ) (act : ℕ)
    (s : State) (inv : TickInv l u rank ts s) (lists : Lists ts s)
    (quiet : (p : ℕ) → pending s p ≡ true → s.now < later_time_in s p) where
  -- The handler keeps the contract of ticks that follow each other. When it is first called, with its
  -- trigger in no list yet, it waits for the variable of standard output: its trigger stands first in the list of that variable, and it
  -- is to write at the next call. Such a call leaves the state as it is, and so the handler
  -- stays in the list.
  pub step_stdout_handler-Stepped :
      ((s.act act).pc ≡ 0
        → ((v : ℕ) → has (trigger_of act) (ts v) ≡ false)
        → trigger_of act ≢ null
        → occurs (s.trigger (trigger_of act)).act u ≡ 1
        → suc (length (ts (ssm_stdout_of act s))) < l.triggers
        → (s' : State) × (step_stdout_handler l steps act s ≡ ok s')
          × Stepped (Quiet l u) u act s s'
          × ((s'.act act).pc ≡ 1)
          × Lists (update ts (ssm_stdout_of act s) (trigger_of act ∷ ts (ssm_stdout_of act s))) s')
      × ((s.act act).pc ≡ 1
          → (step_stdout_handler l steps act s ≡ ok s) × Stepped (Quiet l u) u act s s)
  unfolding step_stdout_handler
  step_stdout_handler-Stepped = (
    λ start fresh real known room.
        let var = ssm_stdout_of act s in
        let s1 = sensitize var (trigger_of act) s in
        let (step1, inv1, lists1) =
          sensitize-Stepped l u rank ts act var (trigger_of act) s inv lists quiet fresh real known
            room in
        (
          resumed act 1 s1,
          ground (arith, start),
          Stepped-trans (Quiet l u) u act s s1 (resumed act 1 s1) step1
              (resumed-Stepped act 1 s1 l u act step1.keeps),
          ground arith,
          resumed-Lists act 1 s1 (update ts var (trigger_of act ∷ ts var)) lists1,
        ),
    λ later. (
      ground (arith, later),
      record {
        keeps = ((rank, ts, inv), quiet);
        acts = inv.acts;
        roster = inv.roster;
        clock = refl;
        priorities = λ a. refl;
        later = λ a on. inl on;
      },
    ),
  )
