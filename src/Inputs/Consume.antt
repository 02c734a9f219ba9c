-- ===== src/Inputs/Consume.antt =====
-- `ssm_input_consume` of platform/posix/src/posix-main.c: the packets of one instant become events.
pub mod Quiet
use ssm_runtime.Base.{
  ℕ, zero, suc, ◌+◌, ◌-◌, ◌%◌, ◌≤◌, ◌<◌, ◌≡◌, ◌≢◌, ◌⊎◌, refl, sym, ap, ◌∙◌, inl, inr, true, false,
  not, ◌&&◌, Option, none, some, List, ok, arith, ltb, ◌==◌, if◌then◌else◌, Bool-cases, ℕ_discrete,
}
use ssm_runtime.State.{State, Sv, Value, never, event_queue_size, on_heap, later_time_in}
use ssm_runtime.Posix.{input_idx, input_read_ready}
use ssm_runtime.Queues.{next_event_time}
use ssm_runtime.Queues.Events.{pending, next_event_time-earliest}
use ssm_runtime.Scheduler.{Limits, sv_later_unsafe}
use ssm_runtime.Scheduler.Update.{TickInv}
use ssm_runtime.Scheduler.Later.{Delayed}
use ssm_runtime.Scheduler.Later.Keeps.{Delayed-sv, plain_later}
use ssm_runtime.Inputs.{Input, Ring, input_get, consume_packets, input_consume}

-- what becomes of a variable
abbrev pub deferred : (t : ℕ) → Option Value → Sv → Sv
deferred t none v = v
deferred t (some x) v = record v { later_time = t; later_value = x }

module _ {T : Type 0} where
  -- what the `n` packets from `r` on say of the variable `p`: the last of them counts
  abbrev pub input_value : (n r p : ℕ) → Ring T → Option Value
  input_value zero r p q = none
  input_value (suc n) r p q = elim (input_value n (r + 1) p q) [
    | some v ↦ some v
    | none ↦ if (input_get r q).sv == p then some (input_get r q).payload else none
  ]

  -- The packets from `r` to `w` hold no pointers, and neither do the pending values that they replace.
  abbrev pub Plain : (r w : ℕ) → Ring T → State → Type 0
  Plain r w q s =
      (i : ℕ)
      → r ≤ i
      → i < w
      → (on_heap (input_get i q).payload ≡ false)
        × (pending s (input_get i q).sv ≡ true
            → on_heap (s.sv (input_get i q).sv).later_value ≡ false)

  module _ (l : Limits) (u : List ℕ) (rank : ℕ → ℕ) (ts : ℕ → List ℕ) (read : T → ℕ)
      (q : Ring T) where
    -- `n` packets from `r` on have the time `t` and became events; no packet follows them, or one of another
    -- time.
    pub record Taken (t n r w : ℕ) (s s' : State) : Type 0 where
      pub some_taken : 1 ≤ n
      pub within : r + n ≤ w
      pub times : (i : ℕ) → r ≤ i → i < r + n → read (input_get i q).time ≡ t
      pub all_taken : (r + n ≡ w) ⊎ (read (input_get (r + n) q).time ≢ t)
      pub vars : (p : ℕ) → s'.sv p ≡ deferred t (input_value n r p q) (s.sv p)
      pub inv : TickInv l u rank ts s'
      pub frame : s' ≡ record s {
        event_queue = s'.event_queue;
        event_queue_len = s'.event_queue_len;
        mm = s'.mm;
        sv = s'.sv;
      }

    one-Taken :
        (t r w : ℕ) (s s' : State)
        → r < w
        → read (input_get r q).time ≡ t
        → (r + 1 ≡ w) ⊎ (read (input_get (r + 1) q).time ≢ t)
        → Delayed (input_get r q).sv t (input_get r q).payload s s'
        → TickInv l u rank ts s'
        → Taken t 1 r w s s'
    one-Taken t r w s s' more time over d inv = record {
      some_taken = omega arith;
      within = omega arith;
      times = λ i a b. ground (arith, time);
      all_taken = over;
      vars = λ p. ground (arith, Delayed-sv (input_get r q).sv t (input_get r q).payload s s' p d);
      inv = inv;
      frame = d.frame;
    }

    more-Taken :
        (t n r w : ℕ) (s s1 s' : State)
        → read (input_get r q).time ≡ t
        → Delayed (input_get r q).sv t (input_get r q).payload s s1
        → Taken t n (r + 1) w s1 s'
        → Taken t (suc n) r w s s'
    more-Taken t n r w s s1 s' time d rest =
        let e : r + suc n ≡ r + 1 + n = omega arith in
        record {
          some_taken = omega arith;
          within = omega (arith, rest.within);
          times = λ i a b. elim (ℕ_discrete i r) [
            | yes e ↦ rw e time
            | no apart ↦ rest.times i (omega arith) (omega arith)
          ];
          all_taken = rw e rest.all_taken;
          vars = λ p. ground (
            arith,
            rest.vars p,
            Delayed-sv (input_get r q).sv t (input_get r q).payload s s1 p d,
          );
          inv = rest.inv;
          frame =
              rest.frame
              ∙ ap
                  (λ (t : State). record t {
                    event_queue = s'.event_queue;
                    event_queue_len = s'.event_queue_len;
                    mm = s'.mm;
                    sv = s'.sv;
                  })
                  d.frame;
        }

    Plain-rest :
        (t r w : ℕ) (s s1 : State)
        → r < w
        → Plain r w q s
        → Delayed (input_get r q).sv t (input_get r q).payload s s1
        → Plain (r + 1) w q s1
    Plain-rest t r w s s1 more plain d i a b = ground (
      arith,
      plain i,
      plain r,
      Delayed-sv (input_get r q).sv t (input_get r q).payload s s1 (input_get i q).sv d,
    )

    -- The loop returns, on fuel for each packet.
    pub consume_packets-Taken :
        (fuel t r w : ℕ) (s : State)
        → TickInv l u rank ts s
        → s.now ≤ t
        → t < never
        → 1 ≤ l.depth
        → r < w
        → w ≤ r + fuel
        → w ≤ r + 31
        → s.event_queue_len + (w - r) ≤ event_queue_size
        → Plain r w q s
        → read (input_get r q).time ≡ t
        → (n : ℕ) × (s' : State) × (consume_packets l read fuel t r w q s ≡ ok (r + n, s'))
          × Taken t n r w s s'
    unfolding consume_packets input_read_ready
    consume_packets-Taken zero t r w s inv valid finite deep more enough few room plain time =
        absurd (omega arith)
    consume_packets-Taken (suc fuel) t r w s inv valid finite deep more enough few room plain time =
        let packet = input_get r q in
        let (s1, run, d, inv1) =
          plain_later l u rank ts packet.sv t packet.payload s inv valid finite deep (omega arith)
            (plain r (omega arith) more).0 (plain r (omega arith) more).1 in
        elim (Bool-cases (input_read_ready (r + 1) w && (t == read (input_get (r + 1) q).time))) [
          | inl on ↦
              let (n, s', rest, d') =
                consume_packets-Taken fuel t (r + 1) w s1 inv1
                  (omega (arith, ap (λ (x : State). x.now) d.frame, valid)) finite deep
                  (ground arith) (omega arith) (omega arith) (omega (arith, d.grown))
                  (Plain-rest t r w s s1 more plain d) (ground arith) in
              let e : r + suc n ≡ r + 1 + n = omega arith in
              (suc n, s', rw e (rw on (rw run rest)), more-Taken t n r w s s1 s' time d d')
          | inr over ↦
              (1, s1, rw over (rw run refl), one-Taken t r w s s1 more time (ground arith) d inv1)
        ]

    -- the first packet's variable is due at `t`, and no event is earlier
    pub deferred_time :
        (t n r p : ℕ) (v : Sv)
        → (deferred t (input_value n r p q) v).later_time ≡ t
          ⊎ (deferred t (input_value n r p q) v ≡ v)
    deferred_time t zero r p v = inr refl
    deferred_time t (suc n) r p v = ground (arith, deferred_time t n (r + 1) p v)

    deferred_first :
        (t n r : ℕ) (v : Sv)
        → 1 ≤ n
        → (deferred t (input_value n r (input_get r q).sv q) v).later_time ≡ t
    deferred_first t zero r v h = absurd (omega arith)
    deferred_first t (suc n) r v h = ground (arith, deferred_time t n (r + 1) (input_get r q).sv v)

    pub Taken-next_event_time :
        (t n r w : ℕ) (s s' : State)
        → TickInv l u rank ts s
        → t < never
        → t ≤ next_event_time s
        → Taken t n r w s s'
        → next_event_time s' ≡ t
    Taken-next_event_time t n r w s s' inv finite first d =
        let var = (input_get r q).sv in
        let due = deferred_first t n r (s.sv var) d.some_taken in
        let early = (next_event_time-earliest s' d.inv.events).0 var (ground (arith, d.vars var)) in
        let bound : next_event_time s' ≤ t = ground (arith, due, d.vars var, early) in
        elim (ℕ_discrete (next_event_time s') never) [
          | yes e ↦ absurd (omega (arith, bound))
          | no found ↦
              let (p, on, at) = (next_event_time-earliest s' d.inv.events).1 found in
              ground (
                arith,
                bound,
                at,
                d.vars p,
                deferred_time t n r p (s.sv p),
                (next_event_time-earliest s inv.events).0 p,
              )
        ]
