-- ===== src/Tests/Blobs.antt =====
-- The statistics that test/test-mem.c prints, as test/test-mem.out has them.
use ssm_runtime.Base.{ℕ, List, [], ◌∷◌, ok, ◌>>=◌, ◌≡◌, refl}
use ssm_runtime.Memory.{
  mem_init, find_pool_size, find_next_block, alloc_pool, pool_take, mem_alloc, mem_free,
}
use ssm_runtime.Memory.Statistics.{
  Statistics, StatisticsPool, free_list_length, pool_statistics, pools_statistics,
  statistics_collect,
}
use ssm_runtime.Objects.{
  is_shared, dup, drop, drop_final, drops, drop_unsafe_with, drop_final_with, drops_with, alloc,
  new_sv, new_blob,
}
use ssm_runtime.Simulation.{alloc_page}
use ssm_runtime.Examples.Start.{pages, bounds, initial}
use ssm_runtime.Suite.Blobs.{run_statements, main_statements}

-- pages and free blocks of the pools
abbrev pools : List StatisticsPool → List (ℕ × ℕ)
pools [] = []
pools (p ∷ ps) = (p.pages_allocated, p.free_list_length) ∷ pools ps

abbrev lines : List Statistics → List (ℕ × ℕ × ℕ × ℕ × List (ℕ × ℕ))
lines [] = []
lines (s ∷ rest) =
    (s.pages_allocated, s.objects_allocated, s.objects_freed, s.live_objects, pools s.pool)
    ∷ lines rest

-- the pages, the objects allocated, freed and alive, and the pools, for each time that they are printed
abbrev expected : List (ℕ × ℕ × ℕ × ℕ × List (ℕ × ℕ))
expected =
    (0, 0, 0, 0, (0, 0) ∷ (0, 0) ∷ (0, 0) ∷ (0, 0) ∷ [])
    ∷ (1, 1, 0, 1, (1, 255) ∷ (0, 0) ∷ (0, 0) ∷ (0, 0) ∷ [])
    ∷ (1, 1, 1, 0, (1, 256) ∷ (0, 0) ∷ (0, 0) ∷ (0, 0) ∷ [])
    ∷ (1, 4, 1, 3, (1, 253) ∷ (0, 0) ∷ (0, 0) ∷ (0, 0) ∷ [])
    ∷ (2, 7, 1, 6, (1, 253) ∷ (1, 61) ∷ (0, 0) ∷ (0, 0) ∷ [])
    ∷ (3, 10, 1, 9, (1, 253) ∷ (1, 61) ∷ (1, 13) ∷ (0, 0) ∷ [])
    ∷ (4, 11, 1, 10, (1, 253) ∷ (1, 61) ∷ (1, 13) ∷ (1, 3) ∷ [])
    ∷ (4, 11, 2, 9, (1, 253) ∷ (1, 61) ∷ (1, 13) ∷ (1, 4) ∷ [])
    ∷ (4, 11, 5, 6, (1, 253) ∷ (1, 61) ∷ (1, 16) ∷ (1, 4) ∷ [])
    ∷ (4, 11, 8, 3, (1, 256) ∷ (1, 61) ∷ (1, 16) ∷ (1, 4) ∷ [])
    ∷ (4, 11, 11, 0, (1, 256) ∷ (1, 64) ∷ (1, 16) ∷ (1, 4) ∷ [])
    ∷ []

blobs_run :
    (run_statements pages bounds 300 main_statements
        (λ i. 0)
        (record initial { memory = mem_init initial.memory })
      >>= λ stats. ok (lines stats))
    ≡ ok expected
unfolding find_pool_size find_next_block alloc_pool pool_take mem_alloc mem_free mem_init is_shared
    dup drop drop_final drops drop_unsafe_with drop_final_with drops_with alloc new_sv new_blob
    alloc_page free_list_length pool_statistics pools_statistics statistics_collect run_statements
blobs_run = refl
