-- ===== src/Inputs/Round/CatchUp.antt =====
-- Rounds of the main loop that follow each other while no input comes.
use ssm_runtime.Base.{
  ℕ, ◌+◌, ◌≤◌, ◌<◌, ◌≡◌, refl, sym, ◌∙◌, inl, inr, Bool, true, false, List, [], ◌∷◌, Result, ok,
  ◌>>=◌, arith, leb, if◌then◌else◌, length, Bool-cases,
}
use ssm_runtime.State.{State, event_queue_size}
use ssm_runtime.Queues.{next_event_time}
use ssm_runtime.Scheduler.{Limits, Steps}
use ssm_runtime.Scheduler.Instant.{Contract}
use ssm_runtime.Scheduler.Tick.Quiet.{Quiet}
use ssm_runtime.Inputs.{Ring, poll_input_queue}
use ssm_runtime.Inputs.Poll.{polled_input}
use ssm_runtime.Queues.Roster.{occurs}
use ssm_runtime.Inputs.Round.{loop_round, Waiting}
use ssm_runtime.Inputs.Round.Consumed.{polled, tick_due}
use ssm_runtime.Inputs.Round.Safe.{round_ticks, round_waits, none_consumed}

module _ {T : Type 0} (convert : T → T) (read : T → ℕ) (l : Limits) (steps : Steps) where
  -- One round for each reading of the wall clock, until a round has nothing to do.
  unfoldable pub rounds : (walls : List ℕ) → Ring T → State → Result (Bool × Ring T × State)
  rounds [] q s = ok (false, q, s)
  rounds (wall ∷ walls) q s = loop_round convert read l steps wall q s >>= λ (b, q1, s1).
      let rest = rounds walls q1 s1 in if b then rest else ok (true, q1, s1)

  abbrev pub AllAtMost : ℕ → List ℕ → Type 0
  AllAtMost n [] = Unit {0}
  AllAtMost n (x ∷ xs) = (x ≤ n) × AllAtMost n xs

  module _ (u : List ℕ) (contract : Contract (Quiet l u) u steps)
      (events : event_queue_size < l.events) (routines : length u < l.steps) (clock : ℕ) where
    -- The loop catches up with the wall clock: while no packet comes, and with more rounds than the runtime's clock is behind
    -- `clock`, which no reading of the wall clock passes, there is a round that has nothing to do, if the step functions
    -- keep their contract and the limits are large enough. The runtime may sleep then: no event is due at that
    -- reading.
    pub rounds-Waiting :
        (walls : List ℕ) (q : Ring T) (s : State)
        → Waiting convert read l steps u clock q s
        → q.rb_r ≡ q.rb_w
        → AllAtMost clock walls
        → clock < s.now + length walls
        → (q' : Ring T) × (s' : State) × (wall : ℕ) × (rounds walls q s ≡ ok (true, q', s'))
          × Waiting convert read l steps u clock q' s'
          × (q'.rb_r ≡ q'.rb_w)
          × (s.now ≤ s'.now)
          × (1 ≤ occurs wall walls)
          × (wall < next_event_time s')
    unfolding rounds
    rounds-Waiting [] q s d empty small enough = absurd (omega (arith, d.past))
    rounds-Waiting (wall ∷ walls) q s d empty (le, small) enough =
        let idle : q.rb_r < q.rb_w → next_event_time s < read (polled_input convert q.rb_r q).time =
          λ more. absurd (omega (arith, empty)) in
        let q1 = poll_input_queue convert q in
        let (r, w, slots) = polled convert read l steps u contract events routines clock q s d in
        let empty1 : q1.rb_r ≡ q1.rb_w = r ∙ empty ∙ sym w in
        elim (Bool-cases (leb (next_event_time s) wall)) [
          | inl due ↦
              let (s1, run1, quiet1, idle1, at, on) =
                tick_due convert read l steps u contract events routines clock q s d s d.quiet
                  d.idle (omega (arith, d.past, d.finite)) (ground (arith, d.finite)) in
              let round =
                round_ticks convert read l steps u contract events routines clock q s d wall s1 idle
                  (ground arith) run1 in
              let d1 =
                none_consumed convert read l steps u contract events routines clock q s d s1 idle
                  quiet1 idle1 (ground arith) (inr at) in
              let (q', s', last, run, d', empty', le', among, early) =
                rounds-Waiting walls q1 s1 d1 empty1 small (omega (arith, on, enough)) in
              (
                q',
                s',
                last,
                rw round run,
                d',
                empty',
                omega (arith, le', on),
                omega (arith, among),
                early,
              )
          | inr early ↦ (
            q1,
            s,
            wall,
            rw
                (round_waits convert read l steps u contract events routines clock q s d wall idle
                  (ground arith))
                refl,
            none_consumed convert read l steps u contract events routines clock q s d s idle d.quiet
                d.idle d.past (inl refl),
            empty1,
            omega arith,
            ground arith,
            ground arith,
          )
        ]
