-- ===== src/Inputs/Poll.antt =====
-- `poll_input_queue`: the packets that came since the last poll get their times.
use ssm_runtime.Base.{ℕ, zero, suc, ◌+◌, ◌-◌, ◌≤◌, ◌<◌, ◌≡◌, ap, ◌∙◌, arith, ltb, if◌then◌else◌}
use ssm_runtime.Inputs.{Input, Ring, input_get, scale_input, scale_inputs, poll_input_queue}

module _ {T : Type 0} (convert : T → T) where
  -- The indices of a buffer: the packets before `scaled` have their times, those up to `rb_w` not yet.
  pub record Indexed (q : Ring T) : Type 0 where
    pub behind : q.rb_r ≤ q.scaled
    pub ahead : q.scaled ≤ q.rb_w
    pub few : q.rb_w ≤ q.rb_r + 31

  -- a packet as the next poll leaves it
  abbrev pub polled_input : (i : ℕ) → Ring T → Input T
  polled_input i q =
      if ltb i q.scaled
      then input_get i q
      else record (input_get i q) { time = convert (input_get i q).time }

  scale_input-polled :
      (q : Ring T) (i : ℕ)
      → Indexed q
      → q.scaled < q.rb_w
      → q.rb_r ≤ i
      → i < q.rb_w
      → polled_input i (scale_input convert q) ≡ polled_input i q
  unfolding scale_input
  scale_input-polled q i inv more a b = ground (arith, inv.behind, inv.few)

  scale_inputs-polled :
      (rounds : ℕ) (q : Ring T)
      → Indexed q
      → q.scaled + rounds ≡ q.rb_w
      → (scale_inputs convert rounds q
          ≡ record q { rb = (scale_inputs convert rounds q).rb; scaled = q.rb_w })
        × ((i : ℕ)
            → q.rb_r ≤ i
            → i < q.rb_w
            → input_get i (scale_inputs convert rounds q) ≡ polled_input i q)
  unfolding scale_inputs scale_input
  scale_inputs-polled zero q inv e =
      (ap (λ (n : ℕ). record q { scaled = n }) (omega arith), λ i a b. ground (arith, e))
  scale_inputs-polled (suc rounds) q inv e =
      let inv1 : Indexed (scale_input convert q) = record {
        behind = omega (arith, inv.behind);
        ahead = omega arith;
        few = inv.few;
      } in
      let (same, polled) = scale_inputs-polled rounds (scale_input convert q) inv1 (omega arith) in
      (same, λ i a b. polled i a b ∙ scale_input-polled q i inv (omega arith) a b)

  -- A poll gives each packet that was not polled before its time, and leaves the others as they are.
  pub poll_input_queue-polled :
      (q : Ring T)
      → Indexed q
      → (poll_input_queue convert q
          ≡ record q { rb = (poll_input_queue convert q).rb; scaled = q.rb_w })
        × ((i : ℕ)
            → q.rb_r ≤ i
            → i < q.rb_w
            → input_get i (poll_input_queue convert q) ≡ polled_input i q)
  unfolding poll_input_queue
  poll_input_queue-polled q inv =
      scale_inputs-polled (q.rb_w - q.scaled) q inv (omega (arith, inv.ahead))
