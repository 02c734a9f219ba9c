-- ===== src/Posix/Main/Keyboard.antt =====
-- The handler of standard input, platform/posix/src/posix-io.c, between two rounds of the main loop.
use ssm_runtime.Base.{ℕ, ◌+◌, ◌≤◌, ◌<◌, ◌≡◌, ◌⊎◌, ap, ◌∙◌, inl, inr, none, some, List, arith}
use mathlib.Core.Path.{subst}
use ssm_runtime.State.{State, never, marshal}
use ssm_runtime.Scheduler.{Limits, Steps}
use ssm_runtime.Posix.{Timespec, timespec_time}
use ssm_runtime.Posix.Main.{raw_time64_scale, ssm_time, stdin_handler}
use ssm_runtime.Inputs.{Input, Ring, insert_input}
use ssm_runtime.Inputs.Poll.{polled_input}
use ssm_runtime.Inputs.Round.{Waiting}
use ssm_runtime.Inputs.Round.Insert.{insert_input-Waiting}

scale_one : (t : ℕ) → t < never → raw_time64_scale t 1 ≡ t
unfolding raw_time64_scale
scale_one t small = omega arith

module _ (l : Limits) (steps : Steps) (u : List ℕ) (clock : ℕ) (q : Ring ℕ) (s : State)
    (d : Waiting (λ t. raw_time64_scale t 1) ssm_time l steps u clock q s) (sv c : ℕ) where
  handler_run :
      (now : Timespec) (q' : Ring ℕ)
      → insert_input sv (marshal c) (timespec_time now) q ≡ some q'
      → stdin_handler sv c now q ≡ q'
  unfolding stdin_handler
  handler_run now q' run = ground arith

  handler_drop :
      (now : Timespec)
      → insert_input sv (marshal c) (timespec_time now) q ≡ none
      → stdin_handler sv c now q ≡ q
  unfolding stdin_handler
  handler_drop now run = ground arith

  -- A character that is read at a time after the latest one keeps the state of the loop between two rounds. Where fewer
  -- than 31 packets wait, it becomes the last packet, with that time, for the variable of standard input, and the
  -- others stay as they are; elsewhere it is dropped, and the buffer stays as it is.
  pub stdin_handler-Waiting :
      (now : Timespec)
      → clock < timespec_time now
      → timespec_time now < never
      → ((q.rb_w < q.rb_r + 31)
          × Waiting
              (λ t. raw_time64_scale t 1)
              ssm_time
              l
              steps
              u
              (timespec_time now)
              (stdin_handler sv c now q)
              s
          × ((stdin_handler sv c now q).rb_w ≡ q.rb_w + 1)
          × (polled_input (λ t. raw_time64_scale t 1) q.rb_w (stdin_handler sv c now q)
              ≡ record { sv = sv; payload = marshal c; time = timespec_time now })
          × ((i : ℕ)
              → q.rb_r ≤ i
              → i < q.rb_w
              → polled_input (λ t. raw_time64_scale t 1) i (stdin_handler sv c now q)
                ≡ polled_input (λ t. raw_time64_scale t 1) i q))
        ⊎ ((stdin_handler sv c now q ≡ q) × (q.rb_w ≡ q.rb_r + 31))
  stdin_handler-Waiting now late finite =
      let same = scale_one (timespec_time now) finite in
      elim (insert_input-Waiting (λ t. raw_time64_scale t 1) ssm_time l steps u clock q s d sv
        (marshal c) (timespec_time now) (rw same late) (rw same finite)) [
          | inl (q', run, waiting, few, w, last, others) ↦
              let e = handler_run now q' run in
              inl (
                few,
                rw e (
                    subst (λ (t : ℕ). Waiting (λ x. raw_time64_scale x 1) ssm_time l steps u t q' s)
                      same waiting),
                rw e w,
                rw e (
                    last
                    ∙ ap {B = Input ℕ}
                        (λ (t : ℕ). record { sv = sv; payload = marshal c; time = t }) same),
                rw e others,
              )
          | inr (run, full) ↦ inr (handler_drop now run, full)
        ]
