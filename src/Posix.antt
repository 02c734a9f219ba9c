-- ===== src/Posix.antt =====
-- The arithmetic of the POSIX platform, platform/posix/src/posix-common.h: times as seconds and
-- nanoseconds, raw times of 32-bit timers, and the indices of the input ring buffer. Fields of a
-- timespec are not negative here, and no sum of theirs reaches the end of its type.
pub mod Main
use ssm_runtime.Base.{
  ℕ, ◌+◌, ◌-◌, ◌*◌, ◌/◌, ◌%◌, ◌^◌, ◌≤◌, ◌<◌, ◌≡◌, ◌≢◌, ◌↔◌, Bool, true, not, arith, ltb, leb, ◌==◌,
  if◌then◌else◌,
}

abbrev pub nanos : ℕ
nanos = 10 ^ 9

-- struct timespec
pub record Timespec : Type 0 where
  pub tv_sec : ℕ
  pub tv_nsec : ℕ

-- For `b` not later than `a`: no difference is negative then, but the one that is tested.
unfoldable pub timespec_diff : (a b : Timespec) → Timespec
timespec_diff a b =
    if ltb a.tv_nsec b.tv_nsec
    then record { tv_sec = a.tv_sec - b.tv_sec - 1; tv_nsec = a.tv_nsec + nanos - b.tv_nsec }
    else record { tv_sec = a.tv_sec - b.tv_sec; tv_nsec = a.tv_nsec - b.tv_nsec }

unfoldable pub timespec_add : (a b : Timespec) → Timespec
timespec_add a b =
    if ltb nanos (a.tv_nsec + b.tv_nsec)
    then record { tv_sec = a.tv_sec + b.tv_sec + 1; tv_nsec = a.tv_nsec + b.tv_nsec - nanos }
    else record { tv_sec = a.tv_sec + b.tv_sec; tv_nsec = a.tv_nsec + b.tv_nsec }

unfoldable pub timespec_lt : (a b : Timespec) → Bool
timespec_lt a b = if a.tv_sec == b.tv_sec then ltb a.tv_nsec b.tv_nsec else ltb a.tv_sec b.tv_sec

unfoldable pub timespec_time : Timespec → ℕ
timespec_time t = t.tv_sec * nanos + t.tv_nsec

unfoldable pub timespec_of : (ns : ℕ) → Timespec
timespec_of ns = record { tv_sec = ns / nanos; tv_nsec = ns % nanos }

-- The three reads of a 32-bit timer and its high word.
pub record RawTime32 : Type 0 where
  pub hi0 : ℕ
  pub lo : ℕ
  pub hi1 : ℕ

unfoldable pub raw_time_combine : (hi lo : ℕ) → ℕ
raw_time_combine hi lo = (hi * 2 ^ 32 + lo) % 2 ^ 64

unfoldable pub raw_time32_calc : RawTime32 → ℕ
raw_time32_calc t =
    if t.hi0 == t.hi1
    then raw_time_combine t.hi0 t.lo
    else if leb (2 ^ 31) t.lo
    then raw_time_combine t.hi0 t.lo
    else raw_time_combine t.hi1 t.lo

-- SSM_INPUT_RB_SIZE
abbrev pub input_rb_size : ℕ
input_rb_size = 32

abbrev pub input_idx : ℕ → ℕ
input_idx i = i % input_rb_size

unfoldable pub input_read_ready : (r w : ℕ) → Bool
input_read_ready r w = not (input_idx r == input_idx w)

unfoldable pub input_write_ready : (r w : ℕ) → Bool
input_write_ready r w = input_read_ready r (w + 1)

-- a time whose nanoseconds are less than a second
abbrev pub Normal : Timespec → Type 0
Normal t = t.tv_nsec < nanos

-- Conversion of nanoseconds to a timespec and back gives the same number, and the timespec is normal.
pub timespec_time-timespec_of :
    (ns : ℕ) → (timespec_time (timespec_of ns) ≡ ns) × Normal (timespec_of ns)
unfolding timespec_time timespec_of
timespec_time-timespec_of ns = (omega arith, omega arith)

-- The difference of two normal times, the first not the earlier one, is normal, and it is the
-- difference in nanoseconds.
pub timespec_time-timespec_diff :
    (a b : Timespec)
    → Normal a
    → Normal b
    → timespec_time b ≤ timespec_time a
    → (timespec_time (timespec_diff a b) + timespec_time b ≡ timespec_time a)
      × Normal (timespec_diff a b)
unfolding timespec_time timespec_diff
timespec_time-timespec_diff a b na nb le = (ground arith, ground arith)

-- A normal time is before another one exactly where it is fewer nanoseconds.
pub timespec_lt-timespec_time :
    (a b : Timespec)
    → Normal a
    → Normal b
    → (timespec_lt a b ≡ true) ↔ (timespec_time a < timespec_time b)
unfolding timespec_time timespec_lt
timespec_lt-timespec_time a b na nb = (λ h. ground arith, λ h. ground arith)

-- The sum of two normal times is the sum in nanoseconds. It is normal exactly where the nanoseconds do
-- not add up to one second.
pub timespec_time-timespec_add :
    (a b : Timespec)
    → Normal a
    → Normal b
    → (timespec_time (timespec_add a b) ≡ timespec_time a + timespec_time b)
      × (Normal (timespec_add a b) ↔ (a.tv_nsec + b.tv_nsec ≢ nanos))
unfolding timespec_time timespec_add
timespec_time-timespec_add a b na nb = (ground arith, (λ h e. ground arith, λ h. ground arith))

-- From the high word read at `t0`, the low word at `t1`, and the high word again at `t2`, with less than
-- half a turn of the low word in between, the time `t1` is recovered.
pub raw_time32_calc_lem :
    (t0 t1 t2 : ℕ)
    → t0 ≤ t1
    → t1 ≤ t2
    → t2 < t0 + 2 ^ 31
    → t2 < 2 ^ 64
    → raw_time32_calc (record { hi0 = t0 / 2 ^ 32; lo = t1 % 2 ^ 32; hi1 = t2 / 2 ^ 32 }) ≡ t1
unfolding raw_time32_calc raw_time_combine
raw_time32_calc_lem t0 t1 t2 a b c d = ground arith

-- With at most 31 packets between the read and the write index, a packet can be read exactly where
-- the indices differ, and one can be written exactly where there are fewer than 31.
pub input_ready_lem :
    (r w : ℕ)
    → r ≤ w
    → w ≤ r + 31
    → ((input_read_ready r w ≡ true) ↔ (r < w)) × ((input_write_ready r w ≡ true) ↔ (w < r + 31))
unfolding input_read_ready input_write_ready
input_ready_lem r w a b =
    ((λ h. ground arith, λ h. ground arith), (λ h. ground arith, λ h. ground arith))
