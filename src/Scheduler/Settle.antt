-- ===== src/Scheduler/Settle.antt =====
-- The loop of the tick that handles the events of the current instant.
use ssm_runtime.Base.{
  ℕ, zero, suc, ◌<◌, ◌≡◌, ◌≢◌, ◌⊎◌, refl, ◌∙◌, inl, inr, true, false, ◌&&◌, List, [], ◌∷◌, ok,
  ◌>>=◌, arith, ltb, ◌==◌, Bool-cases, ℕ_discrete,
}
use ssm_runtime.Heap.{queue_head}
use ssm_runtime.State.{State, Sv, never, later_time_in}
use ssm_runtime.Queues.{next_event_time}
use ssm_runtime.Queues.Events.{pending, root_pending, next_event_time-earliest}
use ssm_runtime.Scheduler.{Limits, sv_update, event_queue_pop, tick_events}
use ssm_runtime.Scheduler.Wake.{wakes}
use ssm_runtime.Scheduler.Update.{TickInv, Fired, fire}

-- A variable whose update took place at `time`.
abbrev pub updated : ℕ → Sv → Sv
updated time v = record v { value = v.later_value; last_updated = time; later_time = never }

-- What became of a variable: it kept its event or lost it, with the rest as it was; or it was due
-- and was updated, and the routines of its triggers are scheduled.
abbrev pub Outcome : (ts : ℕ → List ℕ) → (p : ℕ) → State → State → Type 0
Outcome ts p s s' =
    ((s'.sv p ≡ s.sv p) ⊎ (s'.sv p ≡ record (s.sv p) { later_time = never }))
    ⊎ ((later_time_in s p ≡ s.now)
        × (s'.sv p ≡ updated s.now (s.sv p))
        × ((a : ℕ) → wakes s (λ _. true) (ts p) a ≡ true → (s'.act a).scheduled ≡ true))

-- with no test on the priority, only the triggers matter
wakes_tables :
    (s s' : State) (ts : List ℕ) (a : ℕ)
    → s'.trigger ≡ s.trigger
    → wakes s' (λ _. true) ts a ≡ wakes s (λ _. true) ts a
wakes_tables s s' [] a e = refl
wakes_tables s s' (t ∷ ts) a e = rw (e, wakes_tables s s' ts a e)

module _ (l : Limits) (u : List ℕ) (rank : ℕ → ℕ) (ts : ℕ → List ℕ) where
  pub record Settled (s s' : State) : Type 0 where
    pub inv : TickInv l u rank ts s'
    pub now : s'.now ≡ s.now
    pub quiet : (p : ℕ) → pending s' p ≡ true → s.now < later_time_in s' p
    pub outcome : (p : ℕ) → Outcome ts p s s'
    pub still : (a : ℕ) → (s.act a).scheduled ≡ true → (s'.act a).scheduled ≡ true

  -- the queue holds nothing that is due
  Settled-now :
      (s : State)
      → TickInv l u rank ts s
      → (ltb 0 s.event_queue_len && later_time_in s (s.event_queue queue_head) == s.now) ≡ false
      → Settled s s
  unfolding next_event_time
  Settled-now s inv idle = record {
    inv = inv;
    now = refl;
    quiet = λ p on. ground (
      arith,
      inv.future p,
      inv.future (s.event_queue 1),
      inv.clock,
      (next_event_time-earliest s inv.events).0 p,
    );
    outcome = λ p. inl (inl refl);
    still = λ a h. h;
  }

  Outcome-at :
      (r : ℕ) (s s1 s2 : State)
      → later_time_in s r ≡ s.now
      → s.now ≢ never
      → Fired l u rank ts r s s1
      → Settled s1 s2
      → Outcome ts r s s2
  Outcome-at r s s1 s2 due finite f d =
      let wake : (a : ℕ) → wakes s (λ _. true) (ts r) a ≡ true → (s2.act a).scheduled ≡ true =
        λ a h. d.still a (ground (arith, f.woken a)) in
      elim (d.outcome r) [
        | inl (inl e) ↦ inr (due, e ∙ f.updated, wake)
        | inl (inr e) ↦ inr (due, ground (arith, f.updated), wake)
        | inr again ↦ absurd (ground (arith, again.0, f.updated, f.now))
      ]

  Outcome-elsewhere :
      (r p : ℕ) (s s1 s2 : State)
      → p ≢ r
      → s.now ≢ never
      → Fired l u rank ts r s s1
      → Settled s1 s2
      → Outcome ts p s s2
  Outcome-elsewhere r p s s1 s2 apart finite f d = elim (f.times p apart) [
    | inl same ↦
        let kept : s1.sv p ≡ s.sv p = ground (arith, f.others p, same) in
        elim (d.outcome p) [
          | inl (inl e) ↦ inl (inl (e ∙ kept))
          | inl (inr e) ↦ inl (inr (rw kept at e))
          | inr (due, e, wake) ↦ inr (
            ground (arith, same, f.now),
            ground (arith, f.now, kept),
            λ a h. wake a (wakes_tables s s1 (ts p) a f.tables ∙ h),
          )
        ]
    | inr lost ↦ elim (d.outcome p) [
      | inl (inl e) ↦ inl (inr (ground (arith, f.others p, lost)))
      | inl (inr e) ↦ inl (inr (ground (arith, f.others p, lost)))
      | inr again ↦ absurd (ground (arith, again.0, lost, f.now))
    ]
  ]

  Settled-after :
      (r : ℕ) (s s1 s2 : State)
      → later_time_in s r ≡ s.now
      → s.now ≢ never
      → Fired l u rank ts r s s1
      → Settled s1 s2
      → Settled s s2
  Settled-after r s s1 s2 due finite f d = record {
    inv = d.inv;
    now = d.now ∙ f.now;
    quiet = λ p on. ground (arith, f.now, d.quiet p);
    outcome = λ p. elim (ℕ_discrete p r) [
      | yes e ↦ rw e (Outcome-at r s s1 s2 due finite f d)
      | no e ↦ Outcome-elsewhere r p s s1 s2 e finite f d
    ];
    still = λ a h. d.still a (ground (arith, f.woken a));
  }

  two_rounds :
      (fuel : ℕ) (s s1 s2 : State)
      → (sv_update l (s.event_queue 1) s >>= event_queue_pop) ≡ ok s1
      → tick_events l fuel s1 ≡ ok s2
      → (sv_update l (s.event_queue 1) s >>= λ t. event_queue_pop t >>= tick_events l fuel) ≡ ok s2
  two_rounds fuel s s1 s2 run1 run2 = ground arith

  -- With more rounds than queued events, the loop over the events returns and the tick invariant
  -- still holds. No event at `now` is left. Each variable keeps its event, or lost it with the
  -- rest of the variable as it was, or was due at `now`: then it has its later value,
  -- `last_updated` is `now`, no event is pending, and the routine of each of its triggers is
  -- scheduled. No routine that was scheduled is idle after it.
  pub tick_events-Settled :
      (fuel : ℕ) (s : State)
      → s.event_queue_len < fuel
      → TickInv l u rank ts s
      → (s' : State) × (tick_events l fuel s ≡ ok s') × Settled s s'
  unfolding tick_events
  tick_events-Settled zero s enough inv = absurd (omega arith)
  tick_events-Settled (suc fuel) s enough inv =
      elim (Bool-cases
        (ltb 0 s.event_queue_len && later_time_in s (s.event_queue queue_head) == s.now)) [
          | inr idle ↦ (s, rw idle refl, Settled-now s inv idle)
          | inl due ↦
              let (s1, run1, f) = fire l u rank ts s inv (ground arith) (ground arith) in
              let (s2, run2, d) = tick_events-Settled fuel s1 (omega (arith, f.fewer)) f.tick in
              (
                s2,
                rw due (two_rounds fuel s s1 s2 run1 run2),
                Settled-after (s.event_queue 1) s s1 s2 (ground arith)
                    (ground (arith, root_pending s inv.events)) f d,
              )
        ]
