-- ===== src/Zephyr/Timer.antt =====
-- The timer of the Zephyr platform, platform/zephyr/src/zephyr-timer.c: a 64-bit clock over a 32-bit
-- counter, and one alarm.
use ssm_runtime.Base.{
  ℕ, ◌+◌, ◌-◌, ◌/◌, ◌%◌, ◌^◌, ◌≤◌, ◌<◌, ◌≡◌, Option, some, none, not, arith, leb, if◌then◌else◌,
  Bool,
}
use ssm_runtime.Zephyr.{RawTime, timer_combine, timer_calc, get_ssm, put_ssm, scale_time}

-- What a call of the timer or of its device returns: 0, or an error.
pub data Status : Type 0 where
  done ealready enodev enotsup : Status
  device : (err : ℕ) → Status

-- __ssm_timer_hi and timer_cb
pub record Timer : Type 0 where
  pub timer_hi : ℕ
  pub timer_cb : Option ℕ

unfoldable pub overflow_handler : Timer → Timer
overflow_handler t = record t { timer_hi = (t.timer_hi + 1) % 2 ^ 32 }

-- `err = ...; if (err) return err;`
infixl 5 ◌then_if_ok◌
abbrev pub ◌then_if_ok◌ : Status → Status → Status
done then_if_ok next = next
ealready then_if_ok next = ealready
enodev then_if_ok next = enodev
enotsup then_if_ok next = enotsup
(device err) then_if_ok next = device err

-- SSM_TIMER32_TOP and SSM_TIMER32_GUARD
abbrev pub timer32_top : ℕ
timer32_top = 2 ^ 31 + (2 ^ 31 - 1)

abbrev pub timer32_guard : ℕ
timer32_guard = timer32_top / 2

-- The answers of the device that starting the timer asks for.
pub record Device : Type 0 where
  pub board_start : Status
  pub bound : Bool
  pub max_top_value : ℕ
  pub set_top_value : (ticks : ℕ) → Status
  pub set_guard_period : (ticks : ℕ) → Status
  pub start : Status

unfoldable pub timer_start : Device → Status
timer_start dev =
    dev.board_start
    then_if_ok (if not dev.bound then enodev else done)
    then_if_ok (if not (leb timer32_top dev.max_top_value) then enotsup else done)
    then_if_ok dev.set_top_value timer32_top
    then_if_ok dev.set_guard_period timer32_guard
    then_if_ok dev.start

-- The callback that is called, if any, and the timer after it.
unfoldable pub counter_alarm_callback : Timer → Option ℕ × Timer
counter_alarm_callback t = (t.timer_cb, record t { timer_cb = none })

module _ (counter_set_channel_alarm : (ticks : ℕ) → Status) where
  -- The device takes 32 bits of the time.
  unfoldable pub timer_set_alarm : (wake_time cb : ℕ) → Timer → Status × Timer
  timer_set_alarm wake_time cb t = elim t.timer_cb [
    | some other ↦ (ealready, t)
    | none ↦ (counter_set_channel_alarm (wake_time % 2 ^ 32), record t { timer_cb = some cb })
  ]

unfoldable pub timer_cancel : (counter_cancel_channel_alarm : Status) → Timer → Status × Timer
timer_cancel counter_cancel_channel_alarm t =
    (counter_cancel_channel_alarm, record t { timer_cb = none })

-- ssm_timer_read_raw, by what stands in `__ssm_timer_hi` and in the counter at its three reads
unfoldable pub timer_read_raw : (hi_first : Timer) → (ticks : ℕ) → (hi_last : Timer) → RawTime
timer_read_raw hi_first ticks hi_last = record {
  hi0 = hi_first.timer_hi;
  lo = ticks;
  hi1 = hi_last.timer_hi;
}

-- The timer at the time `t`, if the overflow handler ran at each turn of the counter.
abbrev pub Counts : (t : ℕ) → Timer → Type 0
Counts t timer = timer.timer_hi ≡ t / 2 ^ 32

-- The overflow handler keeps the count when the counter turns over.
overflow_handler-Counts :
    (t : ℕ) (timer : Timer)
    → t + 1 < 2 ^ 64
    → (t + 1) % 2 ^ 32 ≡ 0
    → Counts t timer
    → Counts (t + 1) (overflow_handler timer)
unfolding overflow_handler
overflow_handler-Counts t timer small turn counts = omega arith

-- A raw time that is read at `t0`, `t1` and `t2`, with less than half a turn of the counter in between, scales to the
-- time `t1`, also where the counter turns over meanwhile.
pub scale_time-timer_read_raw :
    (t0 t1 t2 : ℕ) (first last : Timer)
    → t0 ≤ t1
    → t1 ≤ t2
    → t2 < t0 + 2 ^ 31
    → t2 < 2 ^ 64
    → Counts t0 first
    → Counts t2 last
    → get_ssm (scale_time (timer_read_raw first (t1 % 2 ^ 32) last)) ≡ t1
unfolding get_ssm scale_time put_ssm timer_calc timer_combine timer_read_raw
scale_time-timer_read_raw t0 t1 t2 first last a b c d e f = ground arith
