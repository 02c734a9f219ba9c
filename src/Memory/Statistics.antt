-- ===== src/Memory/Statistics.antt =====
-- The statistics of the heap, with CONFIG_MEM_STATS. They are the result of the call, which in C writes
-- them through its argument, a pointer that is not NULL.
use ssm_runtime.Base.{
  ℕ, zero, suc, ◌+◌, ◌<◌, ◌≡◌, refl, List, [], ◌∷◌, Result, ok, out_of_fuel, ◌>>=◌, arith, ◌==◌,
  if◌then◌else◌, length,
}
use ssm_runtime.Memory.{Memory, pool_count, pool_size, page_size, end_of_freelist, find_next_block}
use ssm_runtime.Memory.FreeList.{Free, FreeList}

-- ssm_mem_statistics_pool_t and ssm_mem_statistics_t
pub record StatisticsPool : Type 0 where
  pub block_size : ℕ
  pub pages_allocated : ℕ
  pub free_list_length : ℕ

pub record Statistics : Type 0 where
  pub sizeof_ssm_mm : ℕ
  pub page_size : ℕ
  pub pages_allocated : ℕ
  pub objects_allocated : ℕ
  pub objects_freed : ℕ
  pub live_objects : ℕ
  pub pool_count : ℕ
  pub pool : List StatisticsPool

-- The loop along a free list. The count does not wrap: each round is another block of memory.
unfoldable pub free_list_length : (fuel : ℕ) → (ℕ → ℕ) → (size block n : ℕ) → Result ℕ
free_list_length zero next size block n = out_of_fuel
free_list_length (suc fuel) next size block n =
    let rest = free_list_length fuel next size (find_next_block next block size) (n + 1) in
    if block == end_of_freelist then ok n else rest

-- One round of the loop over the pools, and the rounds from pool `i` on.
unfoldable pub pool_statistics : (fuel i : ℕ) → Memory → Result StatisticsPool
pool_statistics fuel i m =
    free_list_length fuel m.free_list_next (pool_size i) (m.free_list_head i) 0 >>= λ n.
    ok (record {
      block_size = pool_size i;
      pages_allocated = m.pages_allocated i;
      free_list_length = n;
    })

unfoldable pub pools_statistics : (rounds fuel i : ℕ) → Memory → Result (List StatisticsPool)
pools_statistics zero fuel i m = ok []
pools_statistics (suc rounds) fuel i m =
    pool_statistics fuel i m >>= λ p. pools_statistics rounds fuel (i + 1) m >>= λ ps. ok (p ∷ ps)

unfoldable pub statistics_collect : (fuel : ℕ) → Memory → Result Statistics
statistics_collect fuel m = pools_statistics pool_count fuel 0 m >>= λ pools. ok (record {
  sizeof_ssm_mm = 4;
  page_size = page_size;
  pages_allocated = m.num_pages_allocated;
  objects_allocated = m.objects_allocated;
  objects_freed = m.objects_freed;
  live_objects = m.live_objects;
  pool_count = pool_count;
  pool = pools;
})

free_list_length-Free :
    (fuel : ℕ) (next : ℕ → ℕ) (size b n : ℕ) (bs : List ℕ)
    → length bs < fuel
    → Free next size b bs
    → free_list_length fuel next size b n ≡ ok (n + length bs)
unfolding free_list_length
free_list_length-Free zero next size b n bs enough h = absurd (omega arith)
free_list_length-Free (suc fuel) next size b n [] enough h = ground (arith, h)
free_list_length-Free (suc fuel) next size b n (x ∷ xs) enough (at, real, rest) = ground (
  arith,
  at,
  real,
  free_list_length-Free fuel next size (find_next_block next x size) (n + 1) xs (omega arith) rest,
)

-- what is reported of a pool whose free list holds the blocks `bs`
abbrev pub reported : Memory → (i : ℕ) → List ℕ → StatisticsPool
reported m i bs = record {
  block_size = pool_size i;
  pages_allocated = m.pages_allocated i;
  free_list_length = length bs;
}

pool_statistics-FreeList :
    (fuel i : ℕ) (m : Memory) (bs : List ℕ)
    → length bs < fuel
    → FreeList m i bs
    → pool_statistics fuel i m ≡ ok (reported m i bs)
unfolding pool_statistics
pool_statistics-FreeList fuel i m bs enough h =
    rw
      (free_list_length-Free fuel m.free_list_next (pool_size i) (m.free_list_head i) 0 bs enough h)
      (ground arith)

-- Collecting the statistics returns, with more rounds than the longest free list, and reports for each of the four pools
-- the length of its free list and the pages allocated to it, and the counters of the heap.
pub statistics_collect-FreeList :
    (fuel : ℕ) (m : Memory) (bs : ℕ → List ℕ)
    → ((i : ℕ) → i < pool_count → length (bs i) < fuel)
    → ((i : ℕ) → i < pool_count → FreeList m i (bs i))
    → statistics_collect fuel m
      ≡ ok (record {
        sizeof_ssm_mm = 4;
        page_size = page_size;
        pages_allocated = m.num_pages_allocated;
        objects_allocated = m.objects_allocated;
        objects_freed = m.objects_freed;
        live_objects = m.live_objects;
        pool_count = pool_count;
        pool =
            reported m 0 (bs 0)
            ∷ reported m 1 (bs 1)
            ∷ reported m 2 (bs 2)
            ∷ reported m 3 (bs 3)
            ∷ [];
      })
unfolding statistics_collect pools_statistics
statistics_collect-FreeList fuel m bs enough h =
    rw
      (
        pool_statistics-FreeList fuel 0 m (bs 0) (enough 0 (omega arith)) (h 0 (omega arith)),
        pool_statistics-FreeList fuel 1 m (bs 1) (enough 1 (omega arith)) (h 1 (omega arith)),
        pool_statistics-FreeList fuel 2 m (bs 2) (enough 2 (omega arith)) (h 2 (omega arith)),
        pool_statistics-FreeList fuel 3 m (bs 3) (enough 3 (omega arith)) (h 3 (omega arith)),
      )
      refl
