-- ===== src/Suite/ActDrain.antt =====
-- The loop of test/test-scheduler.c that takes the routines off the activation queue.
use ssm_runtime.Base.{
  ℕ, zero, suc, ◌-◌, ◌%◌, ◌^◌, ◌≤◌, ◌<◌, ◌≡◌, ◌≢◌, refl, sym, ap, ◌∙◌, Bool, true, List, [], ◌∷◌,
  ok, arith, if◌then◌else◌, ℕ_discrete,
}
use ssm_runtime.Heap.Count.{count_none}
use ssm_runtime.Heap.Order.{root_least}
use ssm_runtime.Heap.Search.{find_counted, find_place}
use ssm_runtime.Heap.Pop.{pop_root}
use ssm_runtime.State.{State, never, priority_in}
use ssm_runtime.Scheduler.{act_queue_pop}
use ssm_runtime.Scheduler.Join.{All}
use ssm_runtime.Suite.{acts_checked, drain_acts}
use ssm_runtime.Suite.Tally.{Apart, tally, tally-idle, tally-cleared}
use ssm_runtime.Suite.Sorting.{Ascending, occurrences}
use ssm_runtime.Suite.Activation.{
  Holds, without_act, acts_checked_run, place_on, act_queue_pop_run, popped-Holds,
}

-- the priority of a routine on the queue
abbrev pub place_of : (on : ℕ → Bool) → State → ℕ → ℕ
place_of on s a = if on a then priority_in s a else never

-- no routine on the queue comes before the root
root_first :
    (on : ℕ → Bool) (s : State) (a : ℕ)
    → Holds on s
    → on a ≡ true
    → priority_in s (s.act_queue 1) ≤ priority_in s a
root_first on s a h here =
    let (i, found) =
      find_counted s.act_queue s.act_queue_len a (ground (arith, h.counted a, here)) in
    let (low, high, at) = find_place s.act_queue s.act_queue_len a i found in
    let least =
      root_least (priority_in s) (suc i) s.act_queue s.act_queue_len i (omega arith) h.heap low
        high in
    ground (arith, least, ap (priority_in s) at)

drain_round :
    (fuel c : ℕ) (out : List ℕ) (s s1 : State)
    → 1 ≤ s.act_queue_len
    → priority_in s (s.act_queue 1) ≡ c
    → c < 2 ^ 8
    → act_queue_pop s ≡ ok s1
    → acts_checked s1 ≡ ok s1
    → drain_acts (suc fuel) (c ∷ out) s ≡ drain_acts fuel out s1
unfolding drain_acts
drain_round fuel c out s s1 occupied at small run check =
    let same : c % 2 ^ 8 ≡ c = omega arith in ground (arith, occupied, at, same, run, check)

drain_end :
    (fuel : ℕ) (expected : List ℕ) (s : State)
    → s.act_queue_len ≡ 0
    → drain_acts (suc fuel) expected s ≡ ok s
unfolding drain_acts
drain_end fuel expected s empty = ground (arith, empty)

module _ (acts : ℕ → ℕ) (n : ℕ) where
  -- The routines on the queue are among the first `n`, with characters from `least` on for priorities.
  pub record Among (on : ℕ → Bool) (least : ℕ) (s : State) : Type 0 where
    pub holds : Holds on s
    pub owned : (a : ℕ) → on a ≡ true → (i : ℕ) × (i < n) × (acts i ≡ a)
    pub chars : (a : ℕ) → on a ≡ true → (least ≤ priority_in s a) × (priority_in s a < 2 ^ 8)

  module _ (apart : Apart acts n) where
    pub drain_acts-Ascending :
        (fuel least : ℕ) (on : ℕ → Bool) (s : State)
        → s.act_queue_len < fuel
        → Among on least s
        → (out : List ℕ) × (s' : State) × (drain_acts fuel out s ≡ ok s')
          × Ascending least out
          × ((t : ℕ) → t ≢ never → occurrences t out ≡ tally acts t (place_of on s) n)
          × All (λ c. c < 2 ^ 8) out
          × (s'.act_queue_len ≡ 0)
    drain_acts-Ascending zero least on s enough w = absurd (omega arith)
    drain_acts-Ascending (suc fuel) least on s enough w = elim (ℕ_discrete s.act_queue_len 0) [
      | yes e ↦ (
        [],
        s,
        drain_end fuel [] s e,
        tt,
        λ t finite. sym (
            tally-idle acts t n (place_of on s) finite (λ i a. ground (
              arith,
              w.holds.counted (acts i),
              count_none s.act_queue s.act_queue_len (acts i) e,
            ))),
        tt,
        e,
      )
      | no e ↦
          let occupied : 1 ≤ s.act_queue_len = omega (arith, e) in
          let root = s.act_queue 1 in
          let c = priority_in s root in
          let here = place_on on s 1 w.holds (omega arith) occupied in
          let s1 = record s {
            act_queue = pop_root (priority_in s) s.act_queue (s.act_queue_len - 1);
            act_queue_len = s.act_queue_len - 1;
          } in
          let holds = popped-Holds on s w.holds occupied in
          let w1 : Among (without_act root on) c s1 = record {
            holds = holds;
            owned = λ a in_queue. w.owned a (ground (arith, in_queue));
            chars = λ a in_queue. (
              root_first on s a w.holds (ground (arith, in_queue)),
              (w.chars a (ground (arith, in_queue))).1,
            );
          } in
          let (out, s2, run2, ascending, counted, small, empty) =
            drain_acts-Ascending fuel c (without_act root on) s1 (omega arith) w1 in
          let (k, below, at) = w.owned root here in
          (
            c ∷ out,
            s2,
            drain_round fuel c out s s1 occupied refl (w.chars root here).1
                  (act_queue_pop_run s occupied w.holds.bounded)
                  (acts_checked_run (without_act root on) s1 holds)
                ∙ run2,
            ((w.chars root here).0, ascending),
            λ t finite.
                let cleared =
                  tally-cleared acts t n k root (place_of on s) (place_of (without_act root on) s1)
                    finite apart below at (ground arith) (λ q f. ground (arith, f)) in
                ground (arith, counted t finite, cleared, here),
            ((w.chars root here).1, small),
            empty,
          )
    ]
