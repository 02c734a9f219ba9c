-- ===== src/Examples/Cons/Return.antt =====
-- The end of a call of map_inc: the record is given back, and the caller makes the object of its item.
use ssm_runtime.Base.{ℕ, suc, ◌+◌, ◌≡◌, ◌≢◌, refl, ok, arith, ◌∙◌, ap}
use ssm_runtime.Memory.{Handlers, Memory, mem_alloc, mem_free, decr64}
use ssm_runtime.State.{State, Value, adt_k, pair_info, put_act, put_mm}
use ssm_runtime.Queues.{decr16}
use ssm_runtime.Objects.{alloc, new_adt}
use ssm_runtime.Scheduler.{Limits, Steps, leave}
use ssm_runtime.Examples.{field, cell, put_cell}
use ssm_runtime.Examples.Cons.{
  map_inc, set_adt_field, map_return, return_field, step_map_inc, program,
}

-- the state once `child` has left `act`
abbrev pub left : (act child : ℕ) → State → State
left act child s =
    put_act act (record (s.act act) { children = decr16 (s.act act).children })
      (record s { num_processes = decr64 s.num_processes; memory = mem_free child 64 s.memory })

-- the last child of a call that waits runs it
pub leave_run :
    (h : Handlers) (l : Limits) (fuel act child : ℕ) (s : State)
    → (s.act child).caller ≡ act
    → (s.act act).children ≡ 1
    → (s.act act).step ≡ map_inc
    → leave (program h l (suc fuel)) child 64 s
      ≡ step_map_inc h l (program h l fuel) act (left act child s)
unfolding leave program
leave_run h l fuel act child s caller one step = ground (arith, caller, one, step)

-- the object `c` of an item, as a call returns it to `ret`
abbrev pub built : (act ret c : ℕ) → Memory → State → State
built act ret c m s =
    let s1 = put_cell ret c (
      put_mm c (record { ref_count = 1; kind = adt_k; info = pair_info 2 1 })
        (record s { memory = m })) in
    set_adt_field c 1 (cell (field act 2) s) (set_adt_field c 0 (cell (field act 1) s) s1)

-- another object does not have this cell
cell_apart : (p c i : ℕ) (x : Value) (s : State) → c ≢ p → cell p (set_adt_field c i x s) ≡ cell p s
cell_apart p c i x s apart = ground (arith, apart)

cell_written : (p ret : ℕ) (v : Value) (s : State) → ret ≢ p → cell p (put_cell ret v s) ≡ cell p s
cell_written p ret v s apart = ground (arith, apart)

cell_read : (ret : ℕ) (v : Value) (s : State) → cell ret (put_cell ret v s) ≡ v
cell_read ret v s = ground arith

return_field_lem :
    (act ret c i : ℕ) (t : State)
    → cell (field act 3) t ≡ ret
    → cell ret t ≡ c
    → return_field act i t ≡ set_adt_field c i (cell (field act (i + 1)) t) t
unfolding return_field
return_field_lem act ret c i t at to = rw at (rw to refl)

module _ (h : Handlers) (l : Limits) (above : Steps) (act ret c : ℕ) (m : Memory) (s : State)
    (at : cell (field act 3) s ≡ ret) (a1 : ret ≢ field act 1) (a2 : ret ≢ field act 2)
    (a3 : ret ≢ field act 3) (b0 : c ≢ ret) (b2 : c ≢ field act 2) (b3 : c ≢ field act 3) where
  abbrev made : State
  made =
      put_mm c (record { ref_count = 1; kind = adt_k; info = pair_info 2 1 })
        (record s { memory = m })

  pub map_return_run :
      mem_alloc h 24 s.memory ≡ ok (c, m) → map_return h l above act s ≡ ok (built act ret c m s)
  unfolding map_return new_adt alloc
  map_return_run run =
      let s2 = put_cell ret c made in
      let s3 = set_adt_field c 0 (cell (field act 1) s) s2 in
      let e3 : cell (field act 3) s2 ≡ ret = cell_written (field act 3) ret c made a3 ∙ at in
      let e1 : cell (field act 1) s2 ≡ cell (field act 1) s =
        cell_written (field act 1) ret c made a1 in
      let e2 : cell (field act 2) s3 ≡ cell (field act 2) s =
        cell_apart (field act 2) c 0 (cell (field act 1) s) s2 b2
        ∙ cell_written (field act 2) ret c made a2 in
      let f3 : cell (field act 3) s3 ≡ ret =
        cell_apart (field act 3) c 0 (cell (field act 1) s) s2 b3 ∙ e3 in
      let f0 : cell ret s3 ≡ c =
        cell_apart ret c 0 (cell (field act 1) s) s2 b0 ∙ cell_read ret c made in
      let first : return_field act 0 s2 ≡ s3 =
        return_field_lem act ret c 0 s2 e3 (cell_read ret c made)
        ∙ ap (λ (x : Value). set_adt_field c 0 x s2) e1 in
      let second : return_field act 1 s3 ≡ built act ret c m s =
        return_field_lem act ret c 1 s3 f3 f0 ∙ ap (λ (x : Value). set_adt_field c 1 x s3) e2 in
      rw run (rw at (ap (λ (t : State). ok (return_field act 1 t)) first ∙ ap ok second))
