-- ===== src/Examples/Cons/Map.antt =====
-- A call of map_inc of list.c through the scheduler: the calls for the tails, and what the last one sets
-- off when it leaves.
use ssm_runtime.Base.{
  ℕ, suc, ◌+◌, ◌-◌, ◌≤◌, ◌<◌, ◌≡◌, ◌≢◌, refl, sym, ap, ◌∙◌, true, List, [], ◌∷◌, ◌++◌, ok, ◌>>=◌,
  arith, length,
}
use mathlib.Core.Path.{subst}
use ssm_runtime.Memory.{Handlers, Memory, mem_alloc, find_pool_size}
use ssm_runtime.Memory.FreeList.{FreeList}
use ssm_runtime.Memory.Reuse.{mem_alloc-FreeList}
use ssm_runtime.State.{State, info_tag, Value, marshal, unmarshal, on_heap}
use ssm_runtime.Objects.{dup, drop, tag}
use ssm_runtime.Scheduler.{Limits, Steps, run_step, leave, tick_acts}
use ssm_runtime.Examples.{field, cell, put_cell}
use ssm_runtime.Examples.Cons.{nil, cons, map_inc, step_map_inc, program}
use ssm_runtime.Examples.Cons.Lists.{IsList, Clear, All-map, IsList-frame}
use ssm_runtime.Examples.Cons.Call.{moved, moved_run, call_run}
use ssm_runtime.Examples.Cons.Next.{Starts, Mapped, next, tail, tail-Held, Starts-next}
use ssm_runtime.Examples.Cons.Resume.{returned, end, Mapped-end, block_again}

run_map_inc :
    (h : Handlers) (l : Limits) (fuel a : ℕ) (s : State)
    → (s.act a).step ≡ map_inc
    → run_step (program h l (suc fuel)) a s ≡ step_map_inc h l (program h l fuel) a s
unfolding program
run_map_inc h l fuel a s step = ground (arith, step)

nil_run :
    (h : Handlers) (l : Limits) (above : Steps) (act ret : ℕ) (s : State)
    → (s.act act).pc ≡ 0
    → cell (field act 0) s ≡ marshal nil
    → cell (field act 3) s ≡ ret
    → step_map_inc h l above act s ≡ leave above act 64 (put_cell ret (marshal nil) s)
unfolding step_map_inc tag marshal unmarshal
nil_run h l above act ret s start at to = rw (start, at, to) refl

list_tag : (s : State) (w : ℕ) → on_heap w ≡ true → info_tag (s.mm w) ≡ cons → tag w s ≡ cons
unfolding tag
list_tag s w heap is = ground (arith, heap, is)

-- the block for the record of the child
take_block :
    (h : Handlers) (b : ℕ) (m : Memory) (bs : List ℕ)
    → FreeList m 1 (b ∷ bs)
    → (m' : Memory) × (mem_alloc h 64 m ≡ ok (b, m')) × FreeList m' 1 bs
unfolding find_pool_size
take_block h b m bs free =
    let (m', run, free', heads, links, live) = mem_alloc-FreeList h 64 b m bs (omega arith) free in
    (m', run, free')

module _ (h : Handlers) (l : Limits) (deep : 1 ≤ l.depth) where
  -- the drop of an object that is shared
  shared_run :
      (v tail : Value) (s : State)
      → on_heap v ≡ true
      → v ≢ tail
      → 2 ≤ (s.mm v).ref_count
      → (s.mm v).ref_count < 256
      → drop l.depth v (dup tail s) ≡ ok (moved v tail s)
  shared_run v tail s heap other shared small =
      let e : l.depth ≡ suc (l.depth - 1) = omega arith in
      rw e (moved_run (l.depth - 1) v tail s heap other shared small)

  abbrev Maps :
      (fuel rounds more last : ℕ) (act v ret : ℕ) (xs : List Value) (bs rest : List ℕ) (s : State)
      → Type 0
  Maps fuel rounds more last act v ret xs bs rest s =
      (s' : State) × ((step_map_inc h l (program h l fuel) act s
          >>= tick_acts rounds (program h l (suc fuel)))
        ≡ (leave (program h l last) act 64 s' >>= tick_acts more (program h l (suc fuel))))
      × Mapped act v ret xs bs rest s s'

  Maps-nil :
      (fuel more act v ret : ℕ) (rest : List ℕ) (s : State)
      → Starts act v ret [] [] [] rest s
      → Maps fuel more more fuel act v ret [] [] rest s
  unfolding marshal
  Maps-nil fuel more act v ret rest s d = (
    put_cell ret (marshal nil) s,
    ap (λ r. r >>= tick_acts more (program h l (suc fuel)))
        (nil_run h l (program h l fuel) act ret s d.start (d.argument ∙ d.list) d.target),
    record {
      frame = refl;
      list = ground arith;
      fresh = tt;
      free = d.free;
      self = refl;
      acts = λ a other clear. refl;
      headers = λ p clear. ground (arith, d.list);
      payloads = λ p clear other. ground (arith, other);
    },
  )

  maps :
      (xs : List Value) (vs bs rest : List ℕ) (fuel rounds more last act v ret : ℕ) (s : State)
      → fuel ≡ length xs + last
      → rounds ≡ length xs + more
      → Starts act v ret xs vs bs rest s
      → Maps fuel rounds more last act v ret xs bs rest s
  maps [] [] [] rest fuel rounds more last act v ret s e f d =
      let e' : fuel ≡ last = omega (arith, e) in
      let f' : rounds ≡ more = omega (arith, f) in
      rw e' (rw f' (Maps-nil last more act v ret rest s d))
  maps (x ∷ xs) (w ∷ vs) (b ∷ bs) rest fuel rounds more last act v ret s e f d0 =
      let d : Starts act w ret (x ∷ xs) (w ∷ vs) (b ∷ bs) rest s =
        subst (λ (y : ℕ). Starts act y ret (x ∷ xs) (w ∷ vs) (b ∷ bs) rest s) d0.list.0 d0 in
      let (m, run, free) = take_block h b s.memory (bs ++ rest) d.free in
      let n = next act w ret x b xs vs bs rest s d m in
      let d1 = Starts-next act w ret x b xs vs bs rest s d m free in
      let (t, run1, e1) =
        maps xs vs bs rest fuel (length xs + more) more (suc last) b (s.payload w 1) (field act 2) n
          (omega (arith, e)) refl d1 in
      let (m', again, free') =
        block_again h b t.memory rest (omega (arith, d.spaced.3.0)) d.absent.0 d.real e1.free in
      let other : w ≢ s.payload w 1 = λ q.
        (tail-Held act w ret x b xs vs bs rest s d m vs xs d.list.4 d.distinct d.held.2
            (rw (sym q) d.list.1)).1
          (sym q) in
      let steps = program h l (suc fuel) in
      let f' : rounds ≡ suc (length xs + more) = omega (arith, f) in
      let started =
        call_run h l (program h l (suc fuel)) (program h l fuel) (length xs + more) act b w m s
          d.start d.argument (list_tag s w d.list.1 d.list.2)
          (shared_run w (s.payload w 1) s d.list.1 other d.held.0 d.held.1) run
          (ground (arith, d.spaced.2.0)) d.idle in
      (
        end h l last act w ret x b xs vs bs rest s d m t e1 m' free',
        rw f' started
            ∙ ap (λ r. r >>= tick_acts (length xs + more) steps) (run_map_inc h l fuel b n d1.step)
            ∙ run1
            ∙ ap (λ r. r >>= tick_acts more steps)
                (returned h l last act w ret x b xs vs bs rest s d m t e1 m' again),
        rw d0.list.0 (Mapped-end h l last act w ret x b xs vs bs rest s d m t e1 m' free'),
      )
  maps [] (w ∷ vs) bs rest fuel rounds more last act v ret s e f d = elim d.list [ ]
  maps (x ∷ xs) [] bs rest fuel rounds more last act v ret s e f d = elim d.list [ ]
  maps (x ∷ xs) (w ∷ vs) [] rest fuel rounds more last act v ret s e f d =
      absurd (omega (arith, d.enough))
  maps [] [] (b ∷ bs) rest fuel rounds more last act v ret s e f d =
      absurd (omega (arith, d.enough))

  Starts-kept :
      (act v ret : ℕ) (xs : List Value) (vs bs rest : List ℕ) (s s' : State)
      → Starts act v ret xs vs bs rest s
      → Mapped act v ret xs bs rest s s'
      → IsList s' v vs xs
  Starts-kept act v ret xs vs bs rest s s' d e =
      IsList-frame s s' v vs xs
        (All-map
          (λ p (k : Clear (act ∷ bs) p × (p ≢ ret)).
            (ground (arith, e.headers p k.0.1), e.payloads p k.0 k.1))
          vs d.objects)
        d.list

  -- A call of `map_inc` for a list, on an empty queue, with a block of memory for each item and
  -- references to spare, runs to its end: after as many rounds of the tick as the list has items, every
  -- call for a tail has returned and the routine leaves. What it returns is a list of the successors, in
  -- new objects that have one reference each. The given list is as it was, but for the reference that the
  -- caller gave; the memory has the blocks that were free beyond those for the items; and nothing outside
  -- the blocks, the routine and the variable returned to has changed.
  pub step_map_inc-Mapped :
      (more last act v ret : ℕ) (xs : List Value) (vs bs rest : List ℕ) (s : State)
      → Starts act v ret xs vs bs rest s
      → (s' : State) × ((run_step (program h l (suc (length xs + last))) act s
            >>= tick_acts (length xs + more) (program h l (suc (length xs + last))))
          ≡ (leave (program h l last) act 64 s'
              >>= tick_acts more (program h l (suc (length xs + last)))))
        × Mapped act v ret xs bs rest s s'
        × IsList s' v vs xs
  step_map_inc-Mapped more last act v ret xs vs bs rest s d =
      let fuel = length xs + last in
      let rounds = length xs + more in
      let (s', run, e) = maps xs vs bs rest fuel rounds more last act v ret s refl refl d in
      (
        s',
        ap (λ r. r >>= tick_acts rounds (program h l (suc fuel)))
              (run_map_inc h l fuel act s d.step)
            ∙ run,
        e,
        Starts-kept act v ret xs vs bs rest s s' d e,
      )
