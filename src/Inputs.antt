-- ===== src/Inputs.antt =====
-- The input ring buffer that the input handlers fill and the main loop empties:
-- platform/posix/src/posix-common.h, posix-main.c and posix-io.c, and the same buffer of
-- platform/zephyr/src/zephyr-tick.c. How a platform stores the time of a packet is a type of its own,
-- `T`. The indices only grow, and they do not reach the end of their type here.
pub mod Consume
pub mod Poll
pub mod Round
pub mod Threads
use ssm_runtime.Base.{
  ℕ, zero, suc, ◌+◌, ◌-◌, ◌%◌, ◌==◌, not, Bool, Option, none, some, Result, ok, out_of_fuel, ◌>>=◌,
  ltb, ◌&&◌, if◌then◌else◌, update,
}
use ssm_runtime.State.{State, Value}
use ssm_runtime.Posix.{input_idx, input_read_ready, input_write_ready}
use ssm_runtime.Queues.{next_event_time}
use ssm_runtime.Scheduler.{Limits, sv_later_unsafe}

-- struct ssm_input
pub record Input (T : Type 0) : Type 0 where
  pub sv : ℕ
  pub payload : Value
  pub time : T

-- ssm_input_rb with its two indices, and the loop's own `scaled`
pub record Ring (T : Type 0) : Type 0 where
  pub rb : ℕ → Input T
  pub rb_r : ℕ
  pub rb_w : ℕ
  pub scaled : ℕ

module _ {T : Type 0} where
  abbrev pub input_get : (i : ℕ) → Ring T → Input T
  input_get i q = q.rb (input_idx i)

  abbrev pub put_input : (i : ℕ) → Input T → Ring T → Ring T
  put_input i packet q = record q { rb = update q.rb (input_idx i) packet }

  -- What an input handler does: where the buffer is full, the packet is dropped.
  unfoldable pub insert_input : (sv : ℕ) → (payload : Value) → (time : T) → Ring T → Option (Ring T)
  insert_input sv payload time q =
      if input_write_ready q.rb_r q.rb_w
      then (let packet : Input T = record { sv = sv; payload = payload; time = time } in
          some (record (put_input q.rb_w packet q) { rb_w = q.rb_w + 1 }))
      else none

  module _ (convert : T → T) where
    -- One round of the loop of `poll_input_queue`: the time of a packet is converted in place.
    unfoldable pub scale_input : Ring T → Ring T
    scale_input q =
        let packet = input_get q.scaled q in
        record (put_input q.scaled (record packet { time = convert packet.time }) q) {
          scaled = q.scaled + 1;
        }

    -- The loop, of which `rounds` are left.
    unfoldable pub scale_inputs : (rounds : ℕ) → Ring T → Ring T
    scale_inputs zero q = q
    scale_inputs (suc rounds) q = scale_inputs rounds (scale_input q)

    -- It runs while `scaled` is less than the write index.
    unfoldable pub poll_input_queue : Ring T → Ring T
    poll_input_queue q = scale_inputs (q.rb_w - q.scaled) q

  module _ (l : Limits) (read : T → ℕ) where
    -- The loop of `ssm_input_consume`: the body comes before the test.
    unfoldable pub consume_packets :
        (fuel : ℕ) → (packet_time r w : ℕ) → Ring T → State → Result (ℕ × State)
    consume_packets zero packet_time r w q s = out_of_fuel
    consume_packets (suc fuel) packet_time r w q s =
        let packet = input_get r q in
        let rest =
          sv_later_unsafe l packet.sv packet_time packet.payload s
          >>= consume_packets fuel packet_time (r + 1) w q in
        let last =
          sv_later_unsafe l packet.sv packet_time packet.payload s >>= λ s'. ok (r + 1, s') in
        if input_read_ready (r + 1) w && (packet_time == read (input_get (r + 1) q).time)
        then rest
        else last

    -- What is returned is the index after the packets that were taken.
    unfoldable pub input_consume : (fuel : ℕ) → (r w : ℕ) → Ring T → State → Result (ℕ × State)
    input_consume fuel r w q s =
        let packet_time = read (input_get r q).time in
        if not (input_read_ready r w)
        then ok (r, s)
        else if ltb (next_event_time s) packet_time
        then ok (r, s)
        else consume_packets fuel packet_time r w q s
