-- ===== src/Posix/Main/Sleep.antt =====
-- How a round of the main loop of the POSIX platform ends.
use ssm_runtime.Base.{
  ℕ, ◌+◌, ◌≤◌, ◌<◌, ◌≡◌, ◌⊎◌, refl, ◌∙◌, inl, inr, Bool, some, List, ok, arith, ◌==◌, if◌then◌else◌,
  length, Bool-cases,
}
use ssm_runtime.State.{State, never, event_queue_size}
use ssm_runtime.Queues.{active, next_event_time}
use ssm_runtime.Scheduler.{Limits, Steps}
use ssm_runtime.Scheduler.Instant.{Contract}
use ssm_runtime.Scheduler.Tick.Quiet.{Quiet}
use ssm_runtime.Posix.{
  Timespec, Normal, timespec_diff, timespec_time, timespec_of, timespec_time-timespec_diff,
  timespec_time-timespec_of,
}
use ssm_runtime.Inputs.{Ring}
use ssm_runtime.Inputs.Consume.{Plain}
use ssm_runtime.Inputs.Round.{loop_round, Waiting}
use ssm_runtime.Inputs.Round.Safe.{loop_round-Waiting}
use ssm_runtime.Posix.Main.{raw_time64_scale, ssm_time, Round, again, stop, sleep, main_round}

module _ (l : Limits) (steps : Steps) (u : List ℕ) (contract : Contract (Quiet l u) u steps)
    (events : event_queue_size < l.events) (routines : length u < l.steps) (clock : ℕ) (q : Ring ℕ)
    (s : State) (d : Waiting (λ t. raw_time64_scale t 1) ssm_time l steps u clock q s) where
  -- the end of a round, after its tick or without one
  round_end :
      (wall : Timespec) (b : Bool) (q' : Ring ℕ) (s' : State)
      → loop_round (λ t. raw_time64_scale t 1) ssm_time l steps (timespec_time wall) q s
        ≡ ok (b, q', s')
      → s'.act_queue_len ≡ 0
      → main_round l steps wall q s
        ≡ ok (
          (if b
              then again
              else if next_event_time s == never
              then stop
              else sleep (some (timespec_diff (timespec_of (next_event_time s)) wall))),
          q',
          s',
        )
  unfolding main_round active
  round_end wall b q' s' run idle = ground arith

  -- A round of the loop of `main` returns where the packets that wait are in order, after the runtime's
  -- clock and not after the latest reading of the wall clock, where the step functions keep their
  -- contract and the limits are large enough, where the event queue has room for 31 events, and neither the
  -- packets nor the pending values that they replace are pointers. It leaves such a state, and ends in one of three ways:
  -- it ticks, and the runtime's clock moves on; no packet waits and no event is pending, and the loop stops; or
  -- it sleeps for just the time from the wall time to the next event. It never sleeps without a timeout.
  pub main_round-Waiting :
      (wall : Timespec)
      → Normal wall
      → timespec_time wall ≤ clock
      → 1 ≤ l.depth
      → s.event_queue_len + 31 ≤ event_queue_size
      → Plain q.rb_r q.rb_w q s
      → (x : Round) × (q' : Ring ℕ) × (s' : State) × (main_round l steps wall q s ≡ ok (x, q', s'))
        × Waiting (λ t. raw_time64_scale t 1) ssm_time l steps u clock q' s'
        × ((x ≡ again) × (s.now < s'.now)
            ⊎ (x ≡ stop) × (s' ≡ s) × (q.rb_r ≡ q.rb_w) × (next_event_time s ≡ never)
            ⊎ (timeout : Timespec) × (x ≡ sleep (some timeout))
              × (s' ≡ s)
              × Normal timeout
              × (timespec_time timeout + timespec_time wall ≡ next_event_time s))
  main_round-Waiting wall normal le deep room plain =
      let (b, q', s', run, waiting, w, moves, stays) =
        loop_round-Waiting (λ t. raw_time64_scale t 1) ssm_time l steps u contract events routines
          clock q s d (timespec_time wall) le deep room plain in
      let end = round_end wall b q' s' run waiting.idle in
      elim (Bool-cases b) [
        | inl on ↦ (again, q', s', rw on at end, waiting, inl (refl, moves on))
        | inr off ↦ elim (Bool-cases (next_event_time s == never)) [
          | inl idle ↦ (
            stop,
            q',
            s',
            ground arith,
            waiting,
            inr (
                inl (
                  refl,
                  (stays off).0,
                  ground (
                    arith,
                    (stays off).2 q.rb_r,
                    d.fresh q.rb_r,
                    d.finite,
                    d.indexed.behind,
                    d.indexed.ahead,
                  ),
                  ground arith,
                )),
          )
          | inr due ↦
              let (same, normal_next) = timespec_time-timespec_of (next_event_time s) in
              let (sum, normal_diff) =
                timespec_time-timespec_diff (timespec_of (next_event_time s)) wall normal_next
                  normal (omega (arith, same, (stays off).1)) in
              (
                sleep (some (timespec_diff (timespec_of (next_event_time s)) wall)),
                q',
                s',
                ground arith,
                waiting,
                inr (
                    inr (
                      timespec_diff (timespec_of (next_event_time s)) wall,
                      refl,
                      (stays off).0,
                      normal_diff,
                      sum ∙ same,
                    )),
              )
        ]
      ]
