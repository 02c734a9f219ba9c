-- ===== src/Inputs/Round/Insert.antt =====
-- A packet that comes between two rounds of the main loop.
use ssm_runtime.Base.{
  ℕ, ◌+◌, ◌≤◌, ◌<◌, ◌≡◌, ◌⊎◌, refl, inl, inr, none, some, List, arith, ◌==◌, if◌then◌else◌,
  Bool-cases,
}
use ssm_runtime.State.{State, Value, never}
use ssm_runtime.Posix.{input_write_ready, input_ready_lem}
use ssm_runtime.Scheduler.{Limits, Steps}
use ssm_runtime.Inputs.{Input, Ring, put_input, insert_input}
use ssm_runtime.Inputs.Poll.{polled_input}
use ssm_runtime.Inputs.Round.{Waiting}

module _ {T : Type 0} (convert : T → T) (read : T → ℕ) (l : Limits) (steps : Steps) (u : List ℕ)
    (clock : ℕ) (q : Ring T) (s : State) (d : Waiting convert read l steps u clock q s) (sv : ℕ)
    (payload : Value) (time : T) where
  abbrev packet : Input T
  packet = record { sv = sv; payload = payload; time = time }

  abbrev inserted : Ring T
  inserted = record (put_input q.rb_w packet q) { rb_w = q.rb_w + 1 }

  inserted-polled :
      (i : ℕ)
      → q.rb_w < q.rb_r + 31
      → q.rb_r ≤ i
      → i ≤ q.rb_w
      → polled_input convert i inserted
        ≡ (if i == q.rb_w then record packet { time = convert time } else polled_input convert i q)
  inserted-polled i few a b = ground (arith, d.indexed.behind, d.indexed.ahead)

  inserted-Waiting :
      q.rb_w < q.rb_r + 31
      → clock < read (convert time)
      → read (convert time) < never
      → Waiting convert read l steps u (read (convert time)) inserted s
  inserted-Waiting few late finite = record {
    quiet = d.quiet;
    idle = d.idle;
    finite = finite;
    past = omega (arith, d.past);
    indexed = record {
      behind = d.indexed.behind;
      ahead = omega (arith, d.indexed.ahead);
      few = omega arith;
    };
    fresh = λ i a b. ground (arith, inserted-polled i few a (omega arith), d.fresh i a, d.past);
    ordered = λ i j a b c. ground (
      arith,
      inserted-polled i few a (omega arith),
      inserted-polled j few (omega arith) (omega arith),
      d.ordered i j a b,
      d.fresh i a,
    );
  }

  -- A packet of a time after the clock keeps the state of the loop between two rounds: it is the last one, with its own time, and the
  -- clock moves on to that. It is dropped exactly where 31 packets wait.
  pub insert_input-Waiting :
      clock < read (convert time)
      → read (convert time) < never
      → ((q' : Ring T) × (insert_input sv payload time q ≡ some q')
          × Waiting convert read l steps u (read (convert time)) q' s
          × (q.rb_w < q.rb_r + 31)
          × (q'.rb_w ≡ q.rb_w + 1)
          × (polled_input convert q.rb_w q'
              ≡ record { sv = sv; payload = payload; time = convert time })
          × ((i : ℕ)
              → q.rb_r ≤ i
              → i < q.rb_w
              → polled_input convert i q' ≡ polled_input convert i q))
        ⊎ ((insert_input sv payload time q ≡ none) × (q.rb_w ≡ q.rb_r + 31))
  unfolding insert_input
  insert_input-Waiting late finite =
      let lem =
        (input_ready_lem q.rb_r q.rb_w (omega (arith, d.indexed.behind, d.indexed.ahead))
          d.indexed.few).1 in
      elim (Bool-cases (input_write_ready q.rb_r q.rb_w)) [
        | inl room ↦
            let few = lem.0 room in
            inl (
              inserted,
              rw room refl,
              inserted-Waiting few late finite,
              few,
              refl,
              ground (arith, inserted-polled q.rb_w few, d.indexed.behind, d.indexed.ahead),
              λ i a b. ground (arith, inserted-polled i few a (omega arith)),
            )
        | inr full ↦ inr (rw full refl, ground (arith, d.indexed.few, lem.1))
      ]
