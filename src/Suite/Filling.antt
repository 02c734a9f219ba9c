-- ===== src/Suite/Filling.antt =====
-- The loop of test/test-scheduler.c that schedules a text, from an empty event queue on.
use ssm_runtime.Base.{
  ℕ, suc, ◌+◌, ◌^◌, ◌≤◌, ◌<◌, ◌≡◌, ◌≢◌, refl, sym, ap, ◌∙◌, true, false, List, [], ◌∷◌, ok, arith,
  one_if, length, ℕ_discrete,
}
use mathlib.Core.Path.{subst}
use ssm_runtime.State.{State, null, never, event_queue_size, later_time_in, marshal}
use ssm_runtime.Queues.Events.{EventInv, pending}
use ssm_runtime.Objects.{dup}
use ssm_runtime.Scheduler.{Limits, later, sv_later_unsafe}
use ssm_runtime.Scheduler.Join.{All}
use ssm_runtime.Scheduler.Later.{sv_later_unsafe-Delayed}
use ssm_runtime.Suite.{dummy_value, events_checked, schedule_string}
use ssm_runtime.Suite.Sorting.{occurrences}
use ssm_runtime.Suite.Tally.{tally, Apart, tally-same}
use ssm_runtime.Suite.Drain.{Within, checked_run, empty_idle}

-- an ASCII character other than the end of a text
abbrev pub IsChar : ℕ → Type 0
IsChar c = (1 ≤ c) × (c < 2 ^ 7)

-- the variables from `k` on have their events at the times `xs`
abbrev pub AtTimes : (variables : ℕ → ℕ) → (k : ℕ) → List ℕ → State → Type 0
AtTimes variables k [] s = Unit {0}
AtTimes variables k (x ∷ xs) s =
    (later_time_in s (variables k) ≡ x) × AtTimes variables (suc k) xs s

dup-dummy_value : (s : State) → dup dummy_value s ≡ s
unfolding dup marshal
dup-dummy_value s = ground arith

later_run :
    (l : Limits) (var when : ℕ) (s s1 : State)
    → sv_later_unsafe l var when dummy_value s ≡ ok s1
    → later l var when dummy_value s ≡ ok s1
unfolding later
later_run l var when s s1 run = rw (dup-dummy_value s) run

schedule_round :
    (l : Limits) (variables : ℕ → ℕ) (k c : ℕ) (cs : List ℕ) (s s1 : State)
    → later l (variables k) c dummy_value s ≡ ok s1
    → events_checked s1 ≡ ok s1
    → schedule_string l variables k (c ∷ cs) s ≡ schedule_string l variables (k + 1) cs s1
unfolding schedule_string
schedule_round l variables k c cs s s1 run check = rw (run, check) refl

schedule_end :
    (l : Limits) (variables : ℕ → ℕ) (k : ℕ) (s : State) → schedule_string l variables k [] s ≡ ok s
unfolding schedule_string
schedule_end l variables k s = refl

module _ (l : Limits) (deep : 1 ≤ l.depth) (variables : ℕ → ℕ) (n : ℕ) (apart : Apart variables n)
    (real : (i : ℕ) → i < n → variables i ≢ null) where
  -- The first `k` variables may have events, the others have none.
  pub record Filled (k : ℕ) (s : State) : Type 0 where
    pub within : Within variables n 0 s
    pub idle : (i : ℕ) → k ≤ i → i < n → pending s (variables i) ≡ false
    pub start : s.now ≡ 0
    pub fits : s.event_queue_len ≤ k

  Filled-run :
      (k c : ℕ) (s : State)
      → Filled k s
      → k < n
      → n ≤ event_queue_size
      → IsChar c
      → (s' : State) × (later l (variables k) c dummy_value s ≡ ok s')
        × Filled (suc k) s'
        × ((t : ℕ)
            → t ≢ never
            → tally variables t (later_time_in s') (suc k)
              ≡ one_if c t + tally variables t (later_time_in s) k)
        × (later_time_in s' (variables k) ≡ c)
        × ((p : ℕ) → p ≢ variables k → later_time_in s' p ≡ later_time_in s p)
  Filled-run k c s f below room char =
      let idle = f.idle k (omega arith) below in
      let (s1, run, d) =
        sv_later_unsafe-Delayed l (variables k) c dummy_value s f.within.events.inv
          (omega (arith, f.start)) (omega (arith, char)) deep (λ e. omega (arith, f.fits))
          (λ on. absurd (ground (arith, idle, on))) in
      let now1 : s1.now ≡ s.now = ap (λ (t : State). t.now) d.frame in
      let other : (p : ℕ) → p ≢ variables k → later_time_in s1 p ≡ later_time_in s p =
        λ p g. ground (arith, d.others p g) in
      let here : later_time_in s1 (variables k) ≡ c = ground (arith, d.stored) in
      let old : (p : ℕ) → p ≢ variables k → pending s1 p ≡ true → pending s p ≡ true =
        λ p g on. ground (arith, on, other p g) in
      (
        s1,
        later_run l (variables k) c s s1 run,
        record {
          within = record {
            events = record {
              inv = d.events;
              real = λ p on. elim (ℕ_discrete p (variables k)) [
                | yes e ↦ rw e (real k below)
                | no g ↦ f.within.events.real p (old p g on)
              ];
            };
            owned = λ p on. elim (ℕ_discrete p (variables k)) [
              | yes e ↦ (k, below, sym e)
              | no g ↦ f.within.owned p (old p g on)
            ];
            chars = λ p on. elim (ℕ_discrete p (variables k)) [
              | yes e ↦ (omega arith, ground (arith, e, here, char.1))
              | no g ↦ (omega arith, ground (arith, other p g, (f.within.chars p (old p g on)).1))
            ];
          };
          idle = λ i a b. ground (
            arith,
            other (variables i) (apart i k b below (omega arith)),
            f.idle i (omega arith) b,
          );
          start = now1 ∙ f.start;
          fits = omega (arith, d.grown, f.fits);
        },
        λ t finite. ground (
          arith,
          here,
          tally-same variables t k (later_time_in s) (later_time_in s1)
              (λ i a. other (variables i) (apart i k (omega arith) below (omega arith))),
        ),
        here,
        other,
      )

  pub schedule_string-Filled :
      (input : List ℕ) (k : ℕ) (s : State)
      → Filled k s
      → k + length input ≡ n
      → n ≤ event_queue_size
      → All IsChar input
      → (s' : State) × (schedule_string l variables k input s ≡ ok s')
        × Filled n s'
        × ((t : ℕ)
            → t ≢ never
            → tally variables t (later_time_in s') n
              ≡ occurrences t input + tally variables t (later_time_in s) k)
        × AtTimes variables k input s'
        × ((i : ℕ) → i < k → later_time_in s' (variables i) ≡ later_time_in s (variables i))
  schedule_string-Filled [] k s f total room chars =
      let e : k ≡ n = omega arith in
      (
        s,
        schedule_end l variables k s,
        subst (λ j. Filled j s) e f,
        λ t finite. rw e (omega arith),
        tt,
        λ i a. refl,
      )
  schedule_string-Filled (c ∷ cs) k s f total room chars =
      let (s1, run1, f1, counted1, here1, other1) = Filled-run k c s f (omega arith) room chars.0 in
      let next : k + 1 ≡ suc k = omega arith in
      let (s2, run2, f2, counted2, times2, kept2) =
        schedule_string-Filled cs (suc k) s1 f1 (omega arith) room chars.1 in
      (
        s2,
        schedule_round l variables k c cs s s1 run1 (checked_run s1 f1.within.events)
            ∙ ap (λ j. schedule_string l variables j cs s1) next
            ∙ run2,
        f2,
        λ t finite. omega (arith, counted1 t finite, counted2 t finite),
        (kept2 k (omega arith) ∙ here1, times2),
        λ i a.
            kept2 i (omega arith)
            ∙ other1 (variables i) (apart i k (omega arith) (omega arith) (omega arith)),
      )

-- What `reset_all` leaves: no event, at time 0.
pub record Fresh (s : State) : Type 0 where
  pub inv : EventInv s
  pub empty : s.event_queue_len ≡ 0
  pub start : s.now ≡ 0

pub Fresh-Filled :
    (l : Limits) (deep : 1 ≤ l.depth) (variables : ℕ → ℕ) (n : ℕ) (apart : Apart variables n)
    (real : (i : ℕ) → i < n → variables i ≢ null) (s : State)
    → Fresh s
    → Filled l deep variables n apart real 0 s
Fresh-Filled l deep variables n apart real s fresh =
    let none : (p : ℕ) → pending s p ≡ false = λ p. empty_idle s p fresh.inv fresh.empty in
    record {
      within = record {
        events = record { inv = fresh.inv; real = λ p on. absurd (ground (arith, none p, on)) };
        owned = λ p on. absurd (ground (arith, none p, on));
        chars = λ p on. absurd (ground (arith, none p, on));
      };
      idle = λ i a b. none (variables i);
      start = fresh.start;
      fits = omega (arith, fresh.empty);
    }
