-- ===== src/Objects.antt =====
-- Heap objects: the allocation functions and the reference counting of src/ssm-mem.c, with the
-- macros of include/ssm.h. Sizes are those of a 64-bit machine. `ssm_drop` follows pointers from
-- object to object, so it takes fuel: the depth to which it may follow them.
pub mod Sound
pub mod Drop
pub mod Release
pub mod Final
pub mod Balance
use ssm_runtime.Base.{
  ℕ, zero, suc, ◌+◌, ◌-◌, ◌*◌, ◌/◌, ◌%◌, ◌^◌, Bool, ◌&&◌, not, Result, ok, throw, out_of_fuel,
  Error, ◌>>=◌, ltb, leb, ◌==◌, if◌then◌else◌, update,
}
use ssm_runtime.Memory.{Handlers, mem_alloc, mem_free}
use ssm_runtime.State.{
  State, Mm, Sv, Value, null, never, on_heap, unmarshal, time_k, adt_k, sv_k, closure_k, array_k,
  blob_k, info_count, info_tag, info_cap, info_size, pair_info, put_sv, put_mm,
}
use ssm_runtime.Queues.{unschedule}

-- sizeof of ssm_value_t, struct ssm_time, ssm_sv, ssm_adt1, ssm_closure1, ssm_array1, ssm_blob1
abbrev pub sizeof_value : ℕ
sizeof_value = 8

abbrev pub sizeof_time : ℕ
sizeof_time = 16

abbrev pub sizeof_sv : ℕ
sizeof_sv = 48

-- SSM_BLOB_SIZE_SCALE
abbrev pub blob_size_scale : ℕ
blob_size_scale = 4

-- The count may be 0: the sum is taken before the subtraction, as size_t arithmetic wraps back.
abbrev pub adt_size : ℕ → ℕ
adt_size val_count = 16 + sizeof_value * val_count - sizeof_value

abbrev pub closure_size : ℕ → ℕ
closure_size val_count = 24 + sizeof_value * val_count - sizeof_value

abbrev pub array_size : ℕ → ℕ
array_size count = 16 + sizeof_value * count - sizeof_value

abbrev pub blob_size : ℕ → ℕ
blob_size size = 8 - blob_size_scale + size

-- ssm_is_shared, and ssm_tag
unfoldable pub is_shared : Value → State → Bool
is_shared v s = not (on_heap v && (s.mm v).ref_count == 1)

unfoldable pub tag : Value → State → ℕ
tag v s = if on_heap v then info_tag (s.mm v) else unmarshal v

-- uint8_t arithmetic on a reference count
abbrev pub incr8 : ℕ → ℕ
incr8 n = (n + 1) % 2 ^ 8

abbrev pub decr8 : ℕ → ℕ
decr8 n = (n + (2 ^ 8 - 1)) % 2 ^ 8

abbrev pub dup_unsafe : Value → State → State
dup_unsafe v s = put_mm v (record (s.mm v) { ref_count = incr8 (s.mm v).ref_count }) s

unfoldable pub dup : Value → State → State
dup v s = if on_heap v then dup_unsafe v s else s

-- dup over the payload of an object, from index `i` on
unfoldable pub dups : (cnt i : ℕ) → (arr : ℕ → Value) → State → State
dups zero i arr s = s
dups (suc cnt) i arr s = dups cnt (i + 1) arr (dup (arr i) s)

-- the calls of `drop` over an array of values, from index `i` on
unfoldable pub drops_with :
    (Value → State → Result State) → (cnt i : ℕ) → (arr : ℕ → Value) → State → Result State
drops_with drop zero i arr s = ok s
drops_with drop (suc cnt) i arr s = drop (arr i) s >>= drops_with drop cnt (i + 1) arr

-- `ssm_mem_free` of an object
abbrev pub free_object : Value → (size : ℕ) → State → State
free_object v size s = record s { memory = mem_free v size s.memory }

-- The body of `ssm_drop_final`, over the `ssm_drop` that it calls. No drop changes the header's
-- info or the payload, so the bound of a loop is read once.
unfoldable pub drop_final_with : (Value → State → Result State) → Value → State → Result State
drop_final_with drop v s =
    let kind = (s.mm v).kind in
    if kind == time_k
    then ok (free_object v sizeof_time s)
    else if kind == adt_k
    then (drops_with drop (info_count (s.mm v)) 0 (s.payload v) s >>= λ s'.
        ok (free_object v (adt_size (info_count (s.mm v))) s'))
    else if kind == sv_k
    then (unschedule v s >>= λ s1. drop (s1.sv v).value s1 >>= λ s2.
        (if (s2.sv v).later_time == never then ok s2 else drop (s2.sv v).later_value s2) >>= λ s3.
        ok (free_object v sizeof_sv s3))
    else if kind == closure_k
    then (drops_with drop (info_count (s.mm v)) 0 (s.payload v) s >>= λ s'.
        ok (free_object v (closure_size (info_cap (s.mm v))) s'))
    else if kind == array_k
    then (drops_with drop (info_size (s.mm v)) 0 (s.payload v) s >>= λ s'.
        ok (free_object v (array_size (info_size (s.mm v))) s'))
    else if kind == blob_k
    then ok (free_object v (blob_size (info_size (s.mm v) * blob_size_scale)) s)
    else throw Error.internal_error

-- `ssm_drop_unsafe`, over what finalises an object
unfoldable pub drop_unsafe_with : (Value → State → Result State) → Value → State → Result State
drop_unsafe_with final v s =
    let count = decr8 (s.mm v).ref_count in
    let s' = put_mm v (record (s.mm v) { ref_count = count }) s in
    if count == 0 then final v s' else ok s'

unfoldable pub drop : (fuel : ℕ) → Value → State → Result State
drop zero v s = if on_heap v then out_of_fuel else ok s
drop (suc fuel) v s = if on_heap v then drop_unsafe_with (drop_final_with (drop fuel)) v s else ok s

unfoldable pub drop_final : (fuel : ℕ) → Value → State → Result State
drop_final fuel = drop_final_with (drop fuel)

unfoldable pub drops : (fuel cnt : ℕ) → (arr : ℕ → Value) → State → Result State
drops fuel cnt arr = drops_with (drop fuel) cnt 0 arr

module _ (h : Handlers) where
  -- `ssm_mem_alloc` over the whole state
  unfoldable pub alloc : (size : ℕ) → State → Result (ℕ × State)
  alloc size s = mem_alloc h size s.memory >>= λ (p, m). ok (p, record s { memory = m })

  -- asks for the size of a variable, not of a time
  unfoldable pub new_time : (time : ℕ) → State → Result (Value × State)
  new_time time s = alloc sizeof_sv s >>= λ (t, s1). ok (
    t,
    record (put_mm t (record (s1.mm t) { ref_count = 1; kind = time_k }) s1) {
      time = update s1.time t time;
    },
  )

  unfoldable pub new_adt : (field_count tag : ℕ) → State → Result (Value × State)
  new_adt field_count tag s = alloc (adt_size field_count) s >>= λ (p, s1).
      ok (p, put_mm p (record { ref_count = 1; kind = adt_k; info = pair_info field_count tag }) s1)

  unfoldable pub new_sv : (val : Value) → State → Result (Value × State)
  new_sv val s = alloc sizeof_sv s >>= λ (p, s1). ok (
    p,
    put_sv p
        (record (s1.sv p) {
          later_time = never;
          last_updated = never;
          triggers = null;
          value = val;
        })
        (put_mm p (record (s1.mm p) { ref_count = 1; kind = sv_k }) s1),
  )

  unfoldable pub new_closure : (f arg_cap : ℕ) → State → Result (Value × State)
  new_closure f arg_cap s = alloc (closure_size arg_cap) s >>= λ (p, s1). ok (
    p,
    record (put_mm p (record { ref_count = 1; kind = closure_k; info = pair_info 0 arg_cap }) s1) {
      func = update s1.func p f;
    },
  )

  unfoldable pub new_array : (elems : ℕ) → State → Result (Value × State)
  new_array elems s = alloc (array_size elems) s >>= λ (p, s1).
      ok (p, put_mm p (record { ref_count = 1; kind = array_k; info = elems % 2 ^ 16 }) s1)

  unfoldable pub new_blob : (size : ℕ) → State → Result (Value × State)
  new_blob size s =
      let scaled_size = (size + blob_size_scale - 1) / blob_size_scale % 2 ^ 16 in
      alloc (blob_size (scaled_size * blob_size_scale)) s >>= λ (p, s1).
      ok (p, put_mm p (record { ref_count = 1; kind = blob_k; info = scaled_size }) s1)
