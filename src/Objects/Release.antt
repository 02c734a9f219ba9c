-- ===== src/Objects/Release.antt =====
-- A drop of a value that is shared, or no pointer: it is only counted.
use ssm_runtime.Base.{ℕ, zero, suc, ◌^◌, ◌≤◌, ◌<◌, ◌≡◌, true, ok, arith, if◌then◌else◌}
use ssm_runtime.State.{State, Value, on_heap, put_mm}
use ssm_runtime.Objects.{is_shared, decr8, drop, drop_unsafe_with}

-- one reference less
abbrev pub released : Value → State → State
released v s =
    if on_heap v then put_mm v (record (s.mm v) { ref_count = decr8 (s.mm v).ref_count }) s else s

pub drop_shared :
    (depth : ℕ) (v : Value) (s : State)
    → 1 ≤ depth
    → (on_heap v ≡ true → (s.mm v).ref_count < 2 ^ 8)
    → is_shared v s ≡ true
    → drop depth v s ≡ ok (released v s)
unfolding drop drop_unsafe_with is_shared
drop_shared zero v s deep byte shared = absurd (omega arith)
drop_shared (suc depth) v s deep byte shared = ground arith

pub released-frame : (v : Value) (s : State) → released v s ≡ record s { mm = (released v s).mm }
released-frame v s = ground arith
