-- ===== src/Tests/Sequences.antt =====
-- The lists of list.c at concrete states, and the counting of clock.c for a minute.
use ssm_runtime.Base.{
  ℕ, ◌+◌, ◌*◌, ◌≡◌, ok, Result, refl, false, [], ◌∷◌, ◌>>=◌, ◌==◌, if◌then◌else◌, arith, ltb,
}
use ssm_runtime.Memory.{
  Memory, end_of_freelist, find_pool_size, find_next_block, pool_take, mem_alloc, alloc_pool,
}
use ssm_runtime.Memory.FreeList.{FreeList}
use ssm_runtime.Objects.{alloc, new_adt, dup, is_shared}
use ssm_runtime.State.{State, marshal, unmarshal}
use ssm_runtime.Scheduler.{run_step, tick_acts, leave, enter}
use ssm_runtime.Scheduler.Join.{All}
use ssm_runtime.Simulation.{second}
use ssm_runtime.Simulation.CommandLine.{short_limit, parse_args, run_command}
use ssm_runtime.Simulation.CommandLine.Decimal.{decimal}
use ssm_runtime.Simulation.CommandLine.Limit.{parse_args-decimal}
use ssm_runtime.Examples.{cell, put_cell}
use ssm_runtime.Examples.Start.{pages, bounds, initial}
use ssm_runtime.Examples.Cons.{nil, new_cons, init_list, enter_map_inc, program}
use ssm_runtime.Examples.Cons.Lists.{IsList}
use ssm_runtime.Examples.Cons.Next.{Starts, Mapped}
use ssm_runtime.Examples.Cons.Init.{init_list-IsList, count_up, stacked}
use ssm_runtime.Examples.Cons.Map.{step_map_inc-Mapped}
use ssm_runtime.Examples.Clock
use ssm_runtime.Examples.Clock.Rounds.{Rests}
use ssm_runtime.Examples.Clock.Run.{cast}
use ssm_runtime.Examples.Clock.Command.{run_command-Rests}

-- The pool of 64 bytes has the blocks from 1024 to 1408, linked.
abbrev six_free : Memory
six_free = record initial.memory {
  free_list_head = λ p. if p == 1 then 1024 else end_of_freelist;
  free_list_next = λ a. if ltb a 1344 then a + 64 else end_of_freelist;
}

-- an empty list at the address 16
abbrev before : State
before = put_cell 16 (marshal nil) (record initial { memory = six_free })

six_free-FreeList : FreeList six_free 1 (1024 ∷ 1088 ∷ 1152 ∷ 1216 ∷ 1280 ∷ 1344 ∷ [])
unfolding find_next_block
six_free-FreeList = ground arith

init_list-IsList_example :
    (s' : State) × (init_list pages 16 2 before ≡ ok s')
    × IsList s' (cell 16 s') (stacked (1024 ∷ 1088 ∷ []) []) (count_up 2 [])
    × All (λ w. (s'.mm w).ref_count ≡ 1) (stacked (1024 ∷ 1088 ∷ []) [])
    × FreeList s'.memory 1 (1152 ∷ 1216 ∷ 1280 ∷ 1344 ∷ [])
init_list-IsList_example =
    init_list-IsList pages 16 2 [] [] (1024 ∷ 1088 ∷ []) (1152 ∷ 1216 ∷ 1280 ∷ 1344 ∷ []) before
      refl (ground arith) tt six_free-FreeList (ground arith) (ground arith) tt

-- the list 1, 2, and a call of `map_inc` for it
abbrev state_of : Result (ℕ × State) → State
state_of (ok (act, s)) = s
state_of r = initial

abbrev entered : Result (ℕ × State)
entered = init_list pages 16 2 before >>= λ s.
    enter_map_inc pages 8 0 32 (cell 16 s) 24 (dup (cell 16 s) s)

abbrev ready : State
ready = state_of entered

ready-Starts :
    Starts 1152 1088 24
      (marshal 1 ∷ marshal 2 ∷ [])
      (1088 ∷ 1024 ∷ [])
      (1216 ∷ 1280 ∷ [])
      (1344 ∷ [])
      ready
unfolding marshal unmarshal enter_map_inc enter init_list new_cons new_adt alloc mem_alloc
    find_pool_size find_next_block pool_take alloc_pool dup is_shared
ready-Starts = record {
  step = refl;
  start = refl;
  alone = refl;
  argument = refl;
  target = refl;
  idle = refl;
  list = ground arith;
  held = ground arith;
  distinct = ground arith;
  enough = refl;
  free = ground arith;
  spaced = ground arith;
  outside = ground arith;
  objects = ground arith;
  absent = ground arith;
  real = ground arith;
}

step_map_inc-Mapped_example :
    (s' : State) × ((run_step (program pages bounds 5) 1152 ready
        >>= tick_acts 7 (program pages bounds 5))
      ≡ (leave (program pages bounds 2) 1152 64 s' >>= tick_acts 5 (program pages bounds 5)))
    × Mapped 1152 1088 24 (marshal 1 ∷ marshal 2 ∷ []) (1216 ∷ 1280 ∷ []) (1344 ∷ []) ready s'
    × IsList s' 1088 (1088 ∷ 1024 ∷ []) (marshal 1 ∷ marshal 2 ∷ [])
step_map_inc-Mapped_example =
    step_map_inc-Mapped pages bounds (omega arith) 5 2 1152 1088 24 (marshal 1 ∷ marshal 2 ∷ [])
      (1088 ∷ 1024 ∷ []) (1216 ∷ 1280 ∷ []) (1344 ∷ []) ready ready-Starts

parse_args-decimal_example :
    parse_args (short_limit ∷ decimal 30 ∷ (53 ∷ []) ∷ []) false 20
    ≡ parse_args ((53 ∷ []) ∷ []) false 30
parse_args-decimal_example = parse_args-decimal 30 20 ((53 ∷ []) ∷ []) (omega arith)

run_command-Rests_example :
    (s' : State) × (run_command 100 bounds
        (Clock.program pages bounds 10)
        (λ init_args. Clock.program_init pages 8)
        ok
        (short_limit ∷ decimal 60 ∷ [])
        initial
      ≡ ok (0, s'))
    × Rests cast (60 * second + second) 60 s'
    × (s'.now ≡ 60 * second)
run_command-Rests_example =
    run_command-Rests 60 100 (omega arith) (omega arith) (omega arith) (omega arith)
