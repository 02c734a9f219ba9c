-- ===== src/Examples/Cons/Init.antt =====
-- The list that the start of list.c builds.
use ssm_runtime.Base.{ℕ, zero, suc, ◌≡◌, ◌≢◌, refl, ap, ◌∙◌, List, [], ◌∷◌, ◌++◌, ok, arith, length}
use ssm_runtime.Memory.{Handlers, Memory, mem_alloc, find_pool_size}
use ssm_runtime.Memory.FreeList.{FreeList}
use ssm_runtime.Memory.Reuse.{mem_alloc-FreeList}
use ssm_runtime.State.{State, Mm, Value, adt_k, pair_info, marshal, put_mm}
use ssm_runtime.Objects.{new_adt, alloc}
use ssm_runtime.Scheduler.Join.{All}
use ssm_runtime.Examples.{cell, put_cell}
use ssm_runtime.Examples.Cons.{new_cons, set_adt_field, init_list}
use ssm_runtime.Examples.Cons.Lists.{
  IsList, Clear, Spaced, All-map, All-both, IsList-frame, Apart-Clear,
}

-- the items from 1 to `i`, in front of `xs`
abbrev pub count_up : (i : ℕ) → List Value → List Value
count_up zero xs = xs
count_up (suc i) xs = count_up i (marshal (suc i) ∷ xs)

-- the blocks, the last one taken first, in front of `vs`
abbrev pub stacked : (bs vs : List ℕ) → List ℕ
stacked [] vs = vs
stacked (b ∷ bs) vs = stacked bs (b ∷ vs)

module _ (h : Handlers) (list : ℕ) where
  -- the state after a round of the loop
  abbrev pushed : (b : ℕ) (x : Value) (m : Memory) → State → State
  pushed b x m s = put_cell list b (
      set_adt_field b 1 (cell list s) (
        set_adt_field b 0 x (
          put_mm b (record { ref_count = 1; kind = adt_k; info = pair_info 2 1 })
            (record s { memory = m }))))

  round_run :
      (i b : ℕ) (m : Memory) (s : State)
      → mem_alloc h 24 s.memory ≡ ok (b, m)
      → init_list h list (suc i) s ≡ init_list h list i (pushed b (marshal (suc i)) m s)
  unfolding init_list new_cons new_adt alloc
  round_run i b m s run = rw run refl

  take_block :
      (b : ℕ) (m : Memory) (bs : List ℕ)
      → FreeList m 1 (b ∷ bs)
      → (m' : Memory) × (mem_alloc h 24 m ≡ ok (b, m')) × FreeList m' 1 bs
  unfolding find_pool_size
  take_block b m bs free =
      let (m', run, free', heads, links, live) =
        mem_alloc-FreeList h 24 b m bs (omega arith) free in
      (m', run, free')

  abbrev Outside : (bs : List ℕ) (w : ℕ) → Type 0
  Outside bs w = Clear bs w × (w ≢ list)

  pushed-kept :
      (b : ℕ) (x : Value) (m : Memory) (vs : List ℕ) (bs : List ℕ) (s : State)
      → All (Outside (b ∷ bs)) vs
      → All (λ w. ((pushed b x m s).mm w ≡ s.mm w) × ((pushed b x m s).payload w ≡ s.payload w)) vs
  pushed-kept b x m vs bs s =
      All-map (λ w (k : Outside (b ∷ bs) w). (ground (arith, k.0.0), ground (arith, k.0.0, k.1))) vs

  pushed-IsList :
      (b : ℕ) (x : Value) (m : Memory) (xs : List Value) (vs bs : List ℕ) (s : State)
      → IsList s (cell list s) vs xs
      → Spaced (b ∷ bs)
      → Clear (b ∷ bs) list
      → All (Outside (b ∷ bs)) vs
      → IsList (pushed b x m s) (cell list (pushed b x m s)) (b ∷ vs) (x ∷ xs)
  pushed-IsList b x m xs vs bs s is spaced outside apart =
      let t = pushed b x m s in
      let tail : t.payload b 1 ≡ cell list s = ground (arith, outside.0) in
      (
        ground arith,
        spaced.1,
        ground arith,
        ground (arith, outside.0),
        rw tail (
            IsList-frame s t (cell list s) vs xs
              (All-map
                (λ w (k : (t.mm w ≡ s.mm w) × (t.payload w ≡ s.payload w)).
                  (ap (λ (h : Mm). h.info) k.0, k.1))
                vs (pushed-kept b x m vs bs s apart))
              is),
      )

  -- With a block of memory for each item, the loop puts the numbers from 1 to `i` in front of the list that the
  -- variable holds. Each new object has one reference, and the objects are apart from what is free.
  pub init_list-IsList :
      (i : ℕ) (xs : List Value) (vs bs rest : List ℕ) (s : State)
      → length bs ≡ i
      → IsList s (cell list s) vs xs
      → All (λ w. (s.mm w).ref_count ≡ 1) vs
      → FreeList s.memory 1 (bs ++ rest)
      → Spaced bs
      → Clear bs list
      → All (Outside bs) vs
      → (s' : State) × (init_list h list i s ≡ ok s')
        × IsList s' (cell list s') (stacked bs vs) (count_up i xs)
        × All (λ w. (s'.mm w).ref_count ≡ 1) (stacked bs vs)
        × FreeList s'.memory 1 rest
  unfolding init_list
  init_list-IsList zero xs vs [] rest s enough is counted free spaced outside apart =
      (s, refl, is, counted, free)
  init_list-IsList (suc i) xs vs (b ∷ bs) rest s enough is counted free spaced outside apart =
      let (m, run, free') = take_block b s.memory (bs ++ rest) free in
      let x = marshal (suc i) in
      let t = pushed b x m s in
      let counted' : All (λ w. (t.mm w).ref_count ≡ 1) (b ∷ vs) = (
        ground arith,
        All-both
            (λ w (k : (t.mm w ≡ s.mm w) × (t.payload w ≡ s.payload w)) c.
              ap (λ (h : Mm). h.ref_count) k.0 ∙ c)
            vs (pushed-kept b x m vs bs s apart) counted,
      ) in
      let apart' : All (Outside bs) (b ∷ vs) = (
        (Apart-Clear b bs spaced.2, ground (arith, outside.0)),
        All-map (λ w (k : Outside (b ∷ bs) w). (k.0.1, k.1)) vs apart,
      ) in
      let (s', run', is', counts, free'') =
        init_list-IsList i (x ∷ xs) (b ∷ vs) bs rest t (omega (arith, enough))
          (pushed-IsList b x m xs vs bs s is spaced outside apart) counted' free' spaced.3 outside.1
          apart' in
      (s', round_run i b m s run ∙ run', is', counts, free'')
  init_list-IsList zero xs vs (b ∷ bs) rest s enough is counted free spaced outside apart =
      absurd (omega (arith, enough))
  init_list-IsList (suc i) xs vs [] rest s enough is counted free spaced outside apart =
      absurd (omega (arith, enough))
