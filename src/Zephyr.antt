-- ===== src/Zephyr.antt =====
-- The Zephyr platform: platform/zephyr/src/zephyr-tick.c with the timer of zephyr-timer.c. The
-- devices and the kernel are not in the repository: what they answer is a parameter. The board's
-- processor stores the low word of a number first.
pub mod Timer
pub mod Handler
pub mod Loop
pub mod Wakeups
use ssm_runtime.Base.{
  ℕ, ◌+◌, ◌*◌, ◌/◌, ◌%◌, ◌^◌, Bool, true, false, Option, some, none, Result, ok, throw, Error,
  ◌>>=◌, leb, ◌==◌, if◌then◌else◌,
}
use ssm_runtime.Memory.{Handlers, page_size}
use ssm_runtime.State.{State, Value, marshal, root_priority, root_depth}
use ssm_runtime.Queues.{activate}
use ssm_runtime.Objects.{new_sv}
use ssm_runtime.Inputs.{Ring, insert_input}

-- SSM_NUM_PAGES
abbrev pub num_pages : ℕ
num_pages = 32

-- The page at the k-th call; `mem` is the address of the static array.
unfoldable pub alloc_page : (mem k : ℕ) → Result ℕ
alloc_page mem k =
    if leb num_pages k then throw Error.exhausted_memory else ok (mem + k * page_size)

-- ssm_raw_time_t, and `raw` of ssm_platform_time_t: three 32-bit words
pub record RawTime : Type 0 where
  pub hi0 : ℕ
  pub lo : ℕ
  pub hi1 : ℕ

unfoldable pub timer_combine : (hi lo : ℕ) → ℕ
timer_combine hi lo = (hi * 2 ^ 32 % 2 ^ 64 + lo) % 2 ^ 64

-- __ssm_timer_lo_msb
abbrev pub timer_lo_msb : (lo : ℕ) → Bool
timer_lo_msb lo = lo / 2 ^ 31 % 2 == 1

unfoldable pub timer_calc : RawTime → ℕ
timer_calc t =
    if t.hi0 == t.hi1
    then timer_combine t.hi0 t.lo
    else if timer_lo_msb t.lo
    then timer_combine t.hi0 t.lo
    else timer_combine t.hi1 t.lo

-- `ssm` of ssm_platform_time_t, which shares its two words with the first two of `raw`
unfoldable pub get_ssm : RawTime → ℕ
get_ssm t = t.hi0 + t.lo * 2 ^ 32

unfoldable pub put_ssm : (time : ℕ) → RawTime → RawTime
put_ssm time t = record t { hi0 = time % 2 ^ 32; lo = time / 2 ^ 32 }

-- the body of the loop of `poll_input_queue`
unfoldable pub scale_time : RawTime → RawTime
scale_time t = put_ssm (timer_calc t) t

-- `ssm_insert_input`, with the raw time that it read. It returns 0 where it stores the packet and gives the
-- semaphore, and -1 elsewhere.
unfoldable pub zephyr_insert_input :
    (sv : ℕ) → (val : Value) → (raw_time : RawTime) → Ring RawTime → Bool × Ring RawTime
zephyr_insert_input sv val raw_time q = elim (insert_input sv val raw_time q) [
  | some q' ↦ (true, q')
  | none ↦ (false, q)
]

module _ (h : Handlers) (top_parent : ℕ)
    (enter_main : (caller priority depth : ℕ)
      → (argv : ℕ → Value) → State
      → Result (ℕ × State)) where
  unfoldable pub setup_entry_point : State → Result State
  setup_entry_point s = new_sv h (marshal 0) s >>= λ (nothing0, s1).
      new_sv h (marshal 0) s1 >>= λ (nothing1, s2).
      enter_main top_parent root_priority root_depth (λ i. if i == 0 then nothing0 else nothing1) s2
      >>= λ (act, s3). activate act s3
