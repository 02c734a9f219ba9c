-- ===== src/Scheduler/Contract/Waits.antt =====
-- How a routine starts and stops to wait for a variable: sensitize and desensitize as parts of a step
-- function.
use ssm_runtime.Base.{
  ℕ, suc, ◌<◌, ◌≡◌, ◌≢◌, sym, true, false, List, ◌∷◌, arith, length, update, update_self,
  update_other, ℕ_discrete,
}
use ssm_runtime.State.{State, null, later_time_in}
use ssm_runtime.Queues.Events.{pending}
use ssm_runtime.Queues.Roster.{occurs}
use ssm_runtime.Scheduler.{Limits, sensitize, desensitize}
use ssm_runtime.Scheduler.Wake.{Listed}
use ssm_runtime.Scheduler.Triggers.{Lists, has, without, sensitize-Lists}
use ssm_runtime.Scheduler.Triggers.Remove.{desensitize-Lists}
use ssm_runtime.Scheduler.Update.{TickInv}
use ssm_runtime.Scheduler.Instant.{Stepped}
use ssm_runtime.Scheduler.Tick.Quiet.{Quiet}
use ssm_runtime.Scheduler.Contract.Relinked.{
  Listed-owners, Listed-without, length-without, sensitize-Relinked, desensitize-Relinked,
  Relinked-TickInv, Relinked-Stepped,
}

module _ (l : Limits) (u : List ℕ) (rank : ℕ → ℕ) (ts : ℕ → List ℕ) (r var trig : ℕ) (s : State)
    (inv : TickInv l u rank ts s) (lists : Lists ts s)
    (quiet : (p : ℕ) → pending s p ≡ true → s.now < later_time_in s p) where
  -- A routine of the program that sensitizes a trigger of its own keeps the contract of ticks that follow each
  -- other, and the lists of triggers, with the trigger in front, where it stands in no list and the list has room.
  pub sensitize-Stepped :
      ((v : ℕ) → has trig (ts v) ≡ false)
      → trig ≢ null
      → occurs (s.trigger trig).act u ≡ 1
      → suc (length (ts var)) < l.triggers
      → Stepped (Quiet l u) u r s (sensitize var trig s)
        × TickInv l u rank (update ts var (trig ∷ ts var)) (sensitize var trig s)
        × Lists (update ts var (trig ∷ ts var)) (sensitize var trig s)
  sensitize-Stepped fresh real known room =
      let s' = sensitize var trig s in
      let d = sensitize-Relinked var trig s in
      let lists' = sensitize-Lists ts var trig s lists fresh real in
      let listed : (p : ℕ) → Listed u s' (update ts var (trig ∷ ts var) p) = λ p.
        elim (ℕ_discrete p var) [
          | yes e ↦ rw e (
              rw (update_self ts var (trig ∷ ts var))
                (rw (d.owners trig) known, Listed-owners u s s' (ts var) d.owners (inv.listed var)))
          | no e ↦
              rw (update_other ts var p (trig ∷ ts var) (λ h. e (sym h)))
                (Listed-owners u s s' (ts p) d.owners (inv.listed p))
        ] in
      let short : (p : ℕ) → length (update ts var (trig ∷ ts var) p) < l.triggers = λ p.
        elim (ℕ_discrete p var) [
          | yes e ↦ rw e (rw (update_self ts var (trig ∷ ts var)) room)
          | no e ↦ rw (update_other ts var p (trig ∷ ts var) (λ h. e (sym h))) (inv.short p)
        ] in
      (
        Relinked-Stepped l u rank ts (update ts var (trig ∷ ts var)) s s' d inv lists' listed short
            r quiet,
        Relinked-TickInv l u rank ts (update ts var (trig ∷ ts var)) s s' d inv lists' listed short,
        lists',
      )

  -- A routine that desensitizes a trigger that stands in the list of a variable keeps the contract of ticks
  -- that follow each other, and the lists of triggers, from which the trigger alone is gone.
  pub desensitize-Stepped :
      has trig (ts var) ≡ true
      → Stepped (Quiet l u) u r s (desensitize trig s)
        × TickInv l u rank (update ts var (without trig (ts var))) (desensitize trig s)
        × Lists (update ts var (without trig (ts var))) (desensitize trig s)
  desensitize-Stepped here =
      let s' = desensitize trig s in
      let d = desensitize-Relinked trig s in
      let lists' = desensitize-Lists ts var trig s lists here in
      let listed : (p : ℕ) → Listed u s' (update ts var (without trig (ts var)) p) = λ p.
        elim (ℕ_discrete p var) [
          | yes e ↦ rw e (
              rw (update_self ts var (without trig (ts var))) (
                Listed-owners u s s' (without trig (ts var)) d.owners
                  (Listed-without u s trig (ts var) (inv.listed var))))
          | no e ↦
              rw (update_other ts var p (without trig (ts var)) (λ h. e (sym h)))
                (Listed-owners u s s' (ts p) d.owners (inv.listed p))
        ] in
      let short : (p : ℕ) → length (update ts var (without trig (ts var)) p) < l.triggers = λ p.
        elim (ℕ_discrete p var) [
          | yes e ↦ rw e (
              rw (update_self ts var (without trig (ts var)))
                (omega (arith, length-without trig (ts var), inv.short var)))
          | no e ↦ rw (update_other ts var p (without trig (ts var)) (λ h. e (sym h))) (inv.short p)
        ] in
      (
        Relinked-Stepped l u rank ts (update ts var (without trig (ts var))) s s' d inv lists'
            listed short r quiet,
        Relinked-TickInv l u rank ts (update ts var (without trig (ts var))) s s' d inv lists'
            listed short,
        lists',
      )
