-- ===== src/Scheduler/Wake.antt =====
-- The loop that wakes the routines sensitive to a variable.
use ssm_runtime.Base.{
  ℕ, zero, suc, ◌<◌, ◌≡◌, ◌≢◌, refl, ap, inl, inr, Bool, true, false, ◌&&◌, ◌||◌, List, [], ◌∷◌, ok,
  arith, ◌==◌, if◌then◌else◌, Bool-cases, length,
}
use ssm_runtime.State.{State, null}
use ssm_runtime.Queues.{activate}
use ssm_runtime.Queues.Acts.{ActInv, ActsOnly, ActsOnly-self, ActsOnly-trans, activate-Activated}
use ssm_runtime.Queues.Roster.{occurs, Roster, Roster-room}
use ssm_runtime.Scheduler.{activate_triggers}

-- from `p` the `next` pointers lead through the triggers `ts` to NULL
abbrev pub Chain : State → ℕ → List ℕ → Type 0
Chain s p [] = p ≡ null
Chain s p (t ∷ ts) = (p ≡ t) × (t ≢ null) × Chain s (s.trigger t).next ts

-- whether one of the triggers belongs to the routine `a`, and its priority passes the test
abbrev pub wakes : State → (ℕ → Bool) → List ℕ → ℕ → Bool
wakes s test [] a = false
wakes s test (t ∷ ts) a =
    (test (s.act (s.trigger t).act).priority && (s.trigger t).act == a) || wakes s test ts a

-- the routines of the triggers are all among `u`
abbrev pub Listed : List ℕ → State → List ℕ → Type 0
Listed u s [] = Unit {0}
Listed u s (t ∷ ts) = (occurs (s.trigger t).act u ≡ 1) × Listed u s ts

-- Exactly the routines that `wakes` names were added to the queue.
pub record Woken (test : ℕ → Bool) (ts : List ℕ) (s s' : State) : Type 0 where
  pub inv : ActInv s'
  pub only : ActsOnly s s'
  pub marked : (a : ℕ) → (s'.act a).scheduled ≡ ((s.act a).scheduled || wakes s test ts a)

module _ (s s1 : State) (only : ActsOnly s s1) where
  pub Chain-only : (p : ℕ) (ts : List ℕ) → Chain s p ts → Chain s1 p ts
  Chain-only p [] h = h
  Chain-only p (t ∷ ts) h = (
    h.0,
    h.1,
    Chain-only (s1.trigger t).next ts (rw (ap (λ (x : State). x.trigger) only.frame) h.2),
  )

  pub wakes-only : (test : ℕ → Bool) (ts : List ℕ) (a : ℕ) → wakes s1 test ts a ≡ wakes s test ts a
  wakes-only test [] a = refl
  wakes-only test (t ∷ ts) a = ground (
    arith,
    ap (λ (x : State). x.trigger t) only.frame,
    only.acts (s.trigger t).act,
    wakes-only test ts a,
  )

  pub Listed-only : (u ts : List ℕ) → Listed u s ts → Listed u s1 ts
  Listed-only u [] h = tt
  Listed-only u (t ∷ ts) h =
      (ground (arith, ap (λ (x : State). x.trigger t) only.frame), Listed-only u ts h.1)

wakes-Listed :
    (u : List ℕ) (s : State) (test : ℕ → Bool) (ts : List ℕ) (a : ℕ)
    → Listed u s ts
    → wakes s test ts a ≡ true
    → occurs a u ≡ 1
wakes-Listed u s test [] a h w = absurd (ground arith)
wakes-Listed u s test (t ∷ ts) a h w = ground (arith, wakes-Listed u s test ts a h.1)

pub Woken-Roster :
    (u : List ℕ) (test : ℕ → Bool) (ts : List ℕ) (s s' : State)
    → Roster u s
    → Listed u s ts
    → Woken test ts s s'
    → Roster u s'
Woken-Roster u test ts s s' roster members d = record {
  small = roster.small;
  listed = λ a on. ground (arith, d.marked a, roster.listed a, wakes-Listed u s test ts a members);
}

-- one round of the loop, at a trigger
wake_one :
    (u : List ℕ) (test : ℕ → Bool) (t : ℕ) (s : State)
    → ActInv s
    → Roster u s
    → occurs (s.trigger t).act u ≡ 1
    → (s' : State) × ((if test (s.act (s.trigger t).act).priority
          then activate (s.trigger t).act s
          else ok s)
        ≡ ok s')
      × Woken test (t ∷ []) s s'
wake_one u test t s inv roster member =
    elim (Bool-cases (test (s.act (s.trigger t).act).priority)) [
      | inl passed ↦
          let (s', run, d) =
            activate-Activated (s.trigger t).act s inv
              (Roster-room s u (s.trigger t).act inv roster member) in
          (
            s',
            rw passed run,
            record { inv = d.inv; only = d.only; marked = λ a. ground (arith, d.marked a) },
          )
      | inr failed ↦ (
        s,
        rw failed refl,
        record { inv = inv; only = ActsOnly-self s; marked = λ a. ground arith },
      )
    ]

-- The loop over a list of triggers shorter than the fuel returns, where each routine of the list
-- is one of at most as many as the activation queue holds. It schedules exactly the routines of
-- the triggers whose priority passes the test, besides those scheduled before, and keeps the queue
-- well formed.
pub activate_triggers-Woken :
    (u : List ℕ) (fuel : ℕ) (test : ℕ → Bool) (ts : List ℕ) (p : ℕ) (s : State)
    → length ts < fuel
    → Chain s p ts
    → ActInv s
    → Roster u s
    → Listed u s ts
    → (s' : State) × (activate_triggers fuel test p s ≡ ok s') × Woken test ts s s'
unfolding activate_triggers
activate_triggers-Woken u zero test ts p s f c inv roster members = absurd (omega arith)
activate_triggers-Woken u (suc fuel) test [] p s f c inv roster members =
    (s, ground arith, record { inv = inv; only = ActsOnly-self s; marked = λ a. ground arith })
activate_triggers-Woken u (suc fuel) test (t ∷ ts) p s f (at, some_trigger, c) inv roster
      (member, members) =
    let (s1, run1, d1) = wake_one u test t s inv roster member in
    let same = ap (λ (x : State). x.trigger) d1.only.frame in
    let (s2, run2, d2) =
      activate_triggers-Woken u fuel test ts (s1.trigger t).next s1 (omega arith)
        (Chain-only s s1 d1.only _ ts (rw same c)) d1.inv
        (Woken-Roster u test (t ∷ []) s s1 roster (member, tt) d1)
        (Listed-only s s1 d1.only u ts members) in
    (
      s2,
      rw at (ground (arith, run1, run2)),
      record {
        inv = d2.inv;
        only = ActsOnly-trans s s1 s2 d1.only d2.only;
        marked = λ a. ground (arith, d1.marked a, d2.marked a, wakes-only s s1 d1.only test ts a);
      },
    )

-- the triggers and the routines that belong to them are those of `s`
pub Chain-same :
    (s s' : State) (p : ℕ) (ts : List ℕ) → s'.trigger ≡ s.trigger → Chain s p ts → Chain s' p ts
Chain-same s s' p [] e h = h
Chain-same s s' p (t ∷ ts) e h = (h.0, h.1, Chain-same s s' (s'.trigger t).next ts e (rw e h.2))

pub Listed-same :
    (u : List ℕ) (s s' : State) (ts : List ℕ)
    → s'.trigger ≡ s.trigger
    → Listed u s ts
    → Listed u s' ts
Listed-same u s s' [] e h = tt
Listed-same u s s' (t ∷ ts) e h = (rw e h.0, Listed-same u s s' ts e h.1)

pub wakes-same :
    (s s' : State) (test : ℕ → Bool) (ts : List ℕ) (a : ℕ)
    → s'.trigger ≡ s.trigger
    → s'.act ≡ s.act
    → wakes s' test ts a ≡ wakes s test ts a
wakes-same s s' test [] a e f = refl
wakes-same s s' test (t ∷ ts) a e f = rw (e, f, wakes-same s s' test ts a e f)
