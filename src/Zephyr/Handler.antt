-- ===== src/Zephyr/Handler.antt =====
-- `ssm_insert_input` of platform/zephyr/src/zephyr-tick.c between two rounds of the tick loop, with the raw
-- time that it reads.
use ssm_runtime.Base.{
  ℕ, ◌+◌, ◌%◌, ◌^◌, ◌≤◌, ◌<◌, ◌≡◌, ◌⊎◌, ap, ◌∙◌, inl, inr, true, false, none, some, List, arith,
}
use mathlib.Core.Path.{subst}
use ssm_runtime.State.{State, Value, never}
use ssm_runtime.Scheduler.{Limits, Steps}
use ssm_runtime.Inputs.{Input, Ring, insert_input}
use ssm_runtime.Inputs.Poll.{polled_input}
use ssm_runtime.Inputs.Round.{Waiting}
use ssm_runtime.Inputs.Round.Insert.{insert_input-Waiting}
use ssm_runtime.Zephyr.{RawTime, get_ssm, scale_time, zephyr_insert_input}
use ssm_runtime.Zephyr.Timer.{Timer, Counts, timer_read_raw, scale_time-timer_read_raw}

module _ (l : Limits) (steps : Steps) (u : List ℕ) (clock : ℕ) (q : Ring RawTime) (s : State)
    (d : Waiting scale_time get_ssm l steps u clock q s) (sv : ℕ) (val : Value) where
  stored_run :
      (raw : RawTime) (q' : Ring RawTime)
      → insert_input sv val raw q ≡ some q'
      → zephyr_insert_input sv val raw q ≡ (true, q')
  unfolding zephyr_insert_input
  stored_run raw q' run = ground arith

  dropped_run :
      (raw : RawTime)
      → insert_input sv val raw q ≡ none
      → zephyr_insert_input sv val raw q ≡ (false, q)
  unfolding zephyr_insert_input
  dropped_run raw run = ground arith

  -- An input handler that reads the timer at `t0`, `t1` and `t2`, within half a turn of the counter and with `t1` after the
  -- latest time, keeps the state of the tick loop between two rounds. Where fewer than 31 packets wait, it returns 0, and the
  -- last packet is the one for its variable, with its value, and the time `t1` once it is scaled; elsewhere it returns -1,
  -- and the buffer stays as it is.
  pub zephyr_insert_input-Waiting :
      (t0 t1 t2 : ℕ) (first last : Timer)
      → clock < t1
      → t0 ≤ t1
      → t1 ≤ t2
      → t2 < t0 + 2 ^ 31
      → t2 < never
      → Counts t0 first
      → Counts t2 last
      → ((q' : Ring RawTime) × (zephyr_insert_input sv val
              (timer_read_raw first (t1 % 2 ^ 32) last)
              q
            ≡ (true, q'))
          × (q.rb_w < q.rb_r + 31)
          × Waiting scale_time get_ssm l steps u t1 q' s
          × (q'.rb_w ≡ q.rb_w + 1)
          × ((polled_input scale_time q.rb_w q').sv ≡ sv)
          × ((polled_input scale_time q.rb_w q').payload ≡ val)
          × (get_ssm (polled_input scale_time q.rb_w q').time ≡ t1))
        ⊎ ((zephyr_insert_input sv val (timer_read_raw first (t1 % 2 ^ 32) last) q ≡ (false, q))
            × (q.rb_w ≡ q.rb_r + 31))
  zephyr_insert_input-Waiting t0 t1 t2 first last late a b near finite at0 at2 =
      let raw = timer_read_raw first (t1 % 2 ^ 32) last in
      let same : get_ssm (scale_time raw) ≡ t1 =
        scale_time-timer_read_raw t0 t1 t2 first last a b near (omega (arith, finite)) at0 at2 in
      elim (insert_input-Waiting scale_time get_ssm l steps u clock q s d sv val raw
        (omega (arith, same, late)) (omega (arith, same, b, finite))) [
          | inl (q', run, waiting, few, w, packet, others) ↦ inl (
            q',
            stored_run raw q' run,
            few,
            subst (λ (t : ℕ). Waiting scale_time get_ssm l steps u t q' s) same waiting,
            w,
            ap (λ (x : Input RawTime). x.sv) packet,
            ap (λ (x : Input RawTime). x.payload) packet,
            ap (λ (x : Input RawTime). get_ssm x.time) packet ∙ same,
          )
          | inr (run, full) ↦ inr (dropped_run raw run, full)
        ]
