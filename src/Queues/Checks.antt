-- ===== src/Queues/Checks.antt =====
-- The consistency checks of the queues, which the tests call.
use ssm_runtime.Base.{
  ℕ, zero, suc, ◌+◌, ◌*◌, ◌/◌, ◌^◌, ◌≤◌, ◌<◌, ◌≡◌, ◌≢◌, ◌↔◌, ◌⊎◌, inl, inr, refl, ap, ◌∙◌, Bool,
  true, false, not, Result, ok, assert, leb, ◌==◌, if◌then◌else◌, arith, ℕ_discrete,
}
use ssm_runtime.Heap.{Slots, queue_head, left_child}
use ssm_runtime.Heap.Order.{IsHeap}
use ssm_runtime.Heap.Count.{count_place}
use ssm_runtime.Queues.Acts.{ActInv}
use ssm_runtime.Queues.Events.{EventInv, pending}
use ssm_runtime.State.{
  State, null, never, event_queue_size, act_queue_size, later_time_in, priority_in,
}

-- The checks at index `i`: the entry, which must pass `fine`, and its children's keys.
unfoldable pub check_entry :
    (ℕ → ℕ) → (ℕ → Bool) → Slots → (len i : ℕ) → Result (Unit {0}) → Result (Unit {0})
check_entry key fine q len i rest =
    let child = left_child i in
    let right =
      if leb (child + 1) len
      then assert (not (q (child + 1) == null))
          (assert (leb (key (q i)) (key (q (child + 1)))) rest)
      else rest in
    assert (not (q i == null)) (
      assert (fine (q i)) (
        if leb child len
        then assert (not (q child == null)) (assert (leb (key (q i)) (key (q child))) right)
        else rest))

unfoldable pub check_loop :
    (rounds : ℕ) → (ℕ → ℕ) → (ℕ → Bool) → Slots → (len i : ℕ) → Result (Unit {0})
check_loop zero key fine q len i = ok tt
check_loop (suc rounds) key fine q len i =
    check_entry key fine q len i (check_loop rounds key fine q len (i + 1))

unfoldable pub event_queue_consistency_check : State → Result (Unit {0})
event_queue_consistency_check s =
    if s.event_queue_len == 0
    then ok tt
    else assert (leb s.event_queue_len event_queue_size) (
        check_loop s.event_queue_len (later_time_in s) (λ p. not (later_time_in s p == never))
          s.event_queue s.event_queue_len queue_head)

unfoldable pub act_queue_consistency_check : State → Result (Unit {0})
act_queue_consistency_check s =
    if s.act_queue_len == 0
    then ok tt
    else assert (leb s.act_queue_len act_queue_size) (
        check_loop s.act_queue_len (priority_in s) (λ a. (s.act a).scheduled) s.act_queue
          s.act_queue_len queue_head)

-- What the checks at index `i` ask.
abbrev Entry : (ℕ → ℕ) → (ℕ → Bool) → Slots → (len i : ℕ) → Type 0
Entry key fine q len i =
    (q i ≢ null)
    × (fine (q i) ≡ true)
    × (i * 2 ≤ len → (q (i * 2) ≢ null) × (key (q i) ≤ key (q (i * 2))))
    × (i * 2 + 1 ≤ len → (q (i * 2 + 1) ≢ null) × (key (q i) ≤ key (q (i * 2 + 1))))

module _ (key : ℕ → ℕ) (fine : ℕ → Bool) (q : Slots) (len : ℕ) (small : len < 2 ^ 15) where
  check_entry-Entry :
      (i : ℕ) (rest : Result (Unit {0}))
      → i ≤ len
      → check_entry key fine q len i rest ≡ ok tt
      → Entry key fine q len i × (rest ≡ ok tt)
  unfolding check_entry left_child
  check_entry-Entry i rest a e = ground arith

  Entry-check_entry :
      (i : ℕ) (rest : Result (Unit {0}))
      → i ≤ len
      → Entry key fine q len i
      → check_entry key fine q len i rest ≡ rest
  unfolding check_entry left_child
  Entry-check_entry i rest a e = ground arith

  check_loop-Entry :
      (rounds i j : ℕ)
      → i + rounds ≤ suc len
      → check_loop rounds key fine q len i ≡ ok tt
      → i ≤ j
      → j < i + rounds
      → Entry key fine q len j
  unfolding check_loop
  check_loop-Entry zero i j a e b c = absurd (omega arith)
  check_loop-Entry (suc rounds) i j a e b c =
      let (here, rest) =
        check_entry-Entry i (check_loop rounds key fine q len (i + 1)) (omega arith) e in
      elim (ℕ_discrete i j) [
        | yes f ↦ rw (← f) here
        | no f ↦ check_loop-Entry rounds (i + 1) j (omega arith) rest (omega arith) (omega arith)
      ]

  Entry-check_loop :
      (rounds i : ℕ)
      → i + rounds ≤ suc len
      → ((j : ℕ) → i ≤ j → j < i + rounds → Entry key fine q len j)
      → check_loop rounds key fine q len i ≡ ok tt
  unfolding check_loop
  Entry-check_loop zero i a h = refl
  Entry-check_loop (suc rounds) i a h =
      Entry-check_entry i (check_loop rounds key fine q len (i + 1)) (omega arith)
        (h i (omega arith) (omega arith))
      ∙ Entry-check_loop rounds (i + 1) (omega arith) (λ j b c. h j (omega arith) (omega arith))

  Entry-edge :
      (i : ℕ) → 2 ≤ i → i ≤ len → Entry key fine q len (i / 2) → key (q (i / 2)) ≤ key (q i)
  Entry-edge i a b (real, good, left, right) = elim (ℕ_discrete (i / 2 * 2) i) [
    | yes e ↦ ground (arith, ap q e, left)
    | no e ↦ let odd : i / 2 * 2 + 1 ≡ i = omega (arith, e) in ground (arith, ap q odd, right)
  ]

  check_loop-IsHeap :
      check_loop len key fine q len queue_head ≡ ok tt
      → IsHeap key q len × ((i : ℕ) → 1 ≤ i → i ≤ len → (q i ≢ null) × (fine (q i) ≡ true))
  check_loop-IsHeap e = (
    λ i a b.
        Entry-edge i a b
          (check_loop-Entry len 1 (i / 2) (omega arith) e (omega arith) (omega arith)),
    λ i a b.
        let (real, good, left, right) = check_loop-Entry len 1 i (omega arith) e a (omega arith) in
        (real, good),
  )

  IsHeap-check_loop :
      IsHeap key q len
      → ((i : ℕ) → 1 ≤ i → i ≤ len → (q i ≢ null) × (fine (q i) ≡ true))
      → check_loop len key fine q len queue_head ≡ ok tt
  IsHeap-check_loop heap good = Entry-check_loop len 1 (omega arith) (λ j a b. (
    (good j a (omega arith)).0,
    (good j a (omega arith)).1,
    λ c. ((good (j * 2) (omega arith) c).0, ground (arith, heap (j * 2))),
    λ c. ((good (j * 2 + 1) (omega arith) c).0, ground (arith, heap (j * 2 + 1))),
  ))

-- The length is tested before the loop.
guarded :
    (n size : ℕ) (rest : Result (Unit {0}))
    → ((if n == 0 then ok tt else assert (leb n size) rest) ≡ ok tt)
      ↔ ((n ≡ 0) ⊎ (n ≤ size) × (rest ≡ ok tt))
guarded n size rest = (λ e. ground arith, λ h. ground arith)

-- What a queue must be for its check to pass: empty, or in bounds and a heap of valid entries.
abbrev pub Passes : (ℕ → ℕ) → (ℕ → Bool) → Slots → (len size : ℕ) → Type 0
Passes key fine q len size =
    (len ≡ 0)
    ⊎ (len ≤ size)
      × IsHeap key q len
      × ((i : ℕ) → 1 ≤ i → i ≤ len → (q i ≢ null) × (fine (q i) ≡ true))

module _ (key : ℕ → ℕ) (fine : ℕ → Bool) (q : Slots) (len size : ℕ) (small : size < 2 ^ 15) where
  check-Passes :
      ((if len == 0
          then ok tt
          else assert (leb len size) (check_loop len key fine q len queue_head))
        ≡ ok tt)
      ↔ Passes key fine q len size
  check-Passes = (
    λ e. elim ((guarded len size (check_loop len key fine q len queue_head)).0 e) [
      | inl empty ↦ inl empty
      | inr (fits, run) ↦ inr (
        fits,
        (check_loop-IsHeap key fine q len (omega arith) run).0,
        (check_loop-IsHeap key fine q len (omega arith) run).1,
      )
    ],
    λ h. elim h [
      | inl empty ↦ (guarded len size (check_loop len key fine q len queue_head)).1 (inl empty)
      | inr (fits, heap, good) ↦
          (guarded len size (check_loop len key fine q len queue_head)).1
            (inr (fits, IsHeap-check_loop key fine q len (omega arith) heap good))
    ],
  )

-- The check of the event queue passes exactly where the queue is empty, or in bounds and a heap by
-- time of variables that are not NULL and have a time.
pub event_queue_consistency_check-Passes :
    (s : State)
    → (event_queue_consistency_check s ≡ ok tt)
      ↔ Passes
          (later_time_in s)
          (λ p. not (later_time_in s p == never))
          s.event_queue
          s.event_queue_len
          event_queue_size
unfolding event_queue_consistency_check
event_queue_consistency_check-Passes s =
    check-Passes (later_time_in s) (λ p. not (later_time_in s p == never)) s.event_queue
      s.event_queue_len event_queue_size (omega arith)

-- The check of the activation queue passes exactly where the queue is empty, or in bounds and a heap
-- by priority of routines that are not NULL and are marked as scheduled.
pub act_queue_consistency_check-Passes :
    (s : State)
    → (act_queue_consistency_check s ≡ ok tt)
      ↔ Passes (priority_in s) (λ a. (s.act a).scheduled) s.act_queue s.act_queue_len act_queue_size
unfolding act_queue_consistency_check
act_queue_consistency_check-Passes s =
    check-Passes (priority_in s) (λ a. (s.act a).scheduled) s.act_queue s.act_queue_len
      act_queue_size (omega arith)

-- The invariants of the two queues pass the checks, where NULL is neither pending nor scheduled.
pub consistency_checks-pass :
    (s : State)
    → EventInv s
    → ActInv s
    → pending s null ≡ false
    → (s.act null).scheduled ≡ false
    → (event_queue_consistency_check s ≡ ok tt) × (act_queue_consistency_check s ≡ ok tt)
consistency_checks-pass s events acts idle_var idle_act = (
  (event_queue_consistency_check-Passes s).1 (
      inr (
        events.bounded,
        events.heap,
        λ i a b. ground (
          arith,
          events.counted (s.event_queue i),
          count_place s.event_queue s.event_queue_len i (s.event_queue i),
          idle_var,
        ),
      )),
  (act_queue_consistency_check-Passes s).1 (
      inr (
        acts.bounded,
        acts.heap,
        λ i a b. ground (
          arith,
          acts.counted (s.act_queue i),
          count_place s.act_queue s.act_queue_len i (s.act_queue i),
          idle_act,
        ),
      )),
)
