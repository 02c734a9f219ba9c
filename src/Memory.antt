-- ===== src/Memory.antt =====
-- The allocator of src/ssm-mem.c: memory pools with free lists, and the handlers that the platform
-- registers. Addresses are bytes; a pointer takes 8 of them. The counters of CONFIG_MEM_STATS are
-- kept, as in the POSIX build; the Valgrind and tracing calls have no effect on the state.
pub mod Sizes
pub mod FreeList
pub mod Reuse
pub mod Statistics
use ssm_runtime.Base.{
  ℕ, zero, suc, ◌+◌, ◌-◌, ◌*◌, ◌/◌, ◌%◌, ◌^◌, ◌&&◌, ◌≡◌, Bool, List, [], ◌∷◌, Result, ok, throw,
  out_of_fuel, ◌>>=◌, assert, ltb, leb, ◌==◌, if◌then◌else◌, update,
}

-- sizeof(block_t)
abbrev pub block_size : ℕ
block_size = 8

-- SSM_MEM_POOL_COUNT
abbrev pub pool_count : ℕ
pool_count = 4

-- SSM_MEM_POOL_SIZE, with SSM_MEM_POOL_MIN 16 and SSM_MEM_POOL_FACTOR_BASE2 2
abbrev pub pool_size : ℕ → ℕ
pool_size pool = 16 * 2 ^ (2 * pool)

-- SSM_MEM_POOL_MAX
abbrev pub pool_max : ℕ
pool_max = pool_size (pool_count - 1)

-- SSM_MEM_PAGE_SIZE
abbrev pub page_size : ℕ
page_size = pool_size pool_count

abbrev pub blocks_per_page : ℕ
blocks_per_page = page_size / block_size

-- UNINITIALIZED_FREE_BLOCK and END_OF_FREELIST
abbrev pub uninitialized_free_block : ℕ
uninitialized_free_block = 0

abbrev pub end_of_freelist : ℕ
end_of_freelist = 0x42

-- What the handlers of `ssm_mem_init` answer at their k-th call. A page handler may throw.
pub record Handlers : Type 0 where
  pub alloc_page : ℕ → Result ℕ
  pub alloc_mem : ℕ → (size : ℕ) → Result ℕ

-- `free_list_next` is the first word of a block, by the block's address. The calls of the handlers
-- are counted, and those of `free_mem` listed, the last one first.
pub record Memory : Type 0 where
  pub free_list_head : ℕ → ℕ
  pub free_list_next : ℕ → ℕ
  pub page_calls : ℕ
  pub mem_calls : ℕ
  pub freed_mem : List (ℕ × ℕ)
  pub num_pages_allocated : ℕ
  pub pages_allocated : ℕ → ℕ
  pub live_objects : ℕ
  pub objects_allocated : ℕ
  pub objects_freed : ℕ

-- size_t arithmetic
abbrev pub incr64 : ℕ → ℕ
incr64 n = (n + 1) % 2 ^ 64

abbrev pub decr64 : ℕ → ℕ
decr64 n = (n + (2 ^ 64 - 1)) % 2 ^ 64

find_pool_loop : ℕ → (size pool_idx : ℕ) → ℕ
find_pool_loop zero size pool_idx = pool_count
find_pool_loop (suc rounds) size pool_idx =
    if leb size (pool_size pool_idx) then pool_idx else find_pool_loop rounds size (pool_idx + 1)

unfoldable pub find_pool_size : ℕ → ℕ
unfolding find_pool_loop
find_pool_size size = find_pool_loop pool_count size 0

unfoldable pub find_next_block : (ℕ → ℕ) → (block size : ℕ) → ℕ
find_next_block next block size =
    if next block == uninitialized_free_block
    then block + size / block_size * block_size
    else next block

-- A page comes zeroed from its handler.
abbrev pub zeroed : (ℕ → ℕ) → (page : ℕ) → ℕ → ℕ
zeroed next page a = if leb page a && ltb a (page + page_size) then 0 else next a

-- The first block of `alloc_pool`, and its last one.
abbrev pub last_block : ℕ → ℕ
last_block p = blocks_per_page - pool_size p / block_size

module _ (h : Handlers) where
  unfoldable pub alloc_pool : ℕ → Memory → Result Memory
  alloc_pool p m = h.alloc_page m.page_calls >>= λ new_page. assert (ltb end_of_freelist new_page) (
      ok (record m {
        page_calls = m.page_calls + 1;
        num_pages_allocated = incr64 m.num_pages_allocated;
        pages_allocated = update m.pages_allocated p (incr64 (m.pages_allocated p));
        free_list_next =
            update (zeroed m.free_list_next new_page) (new_page + last_block p * block_size)
              (m.free_list_head p);
        free_list_head = update m.free_list_head p new_page;
      }))

  prealloc_loop : ℕ → ℕ → Memory → Result Memory
  prealloc_loop zero p m = ok m
  prealloc_loop (suc pages) p m = alloc_pool p m >>= prealloc_loop pages p

  unfoldable pub mem_prealloc : (size num_pages : ℕ) → Memory → Result Memory
  unfolding prealloc_loop
  mem_prealloc size num_pages m =
      let p = find_pool_size size in if leb pool_count p then ok m else prealloc_loop num_pages p m

  -- the head of a free list that is not empty
  unfoldable pub pool_take : ℕ → Memory → ℕ × Memory
  pool_take p m = (
    m.free_list_head p,
    record m {
      free_list_head =
          update m.free_list_head p
            (find_next_block m.free_list_next (m.free_list_head p) (pool_size p));
    },
  )

  unfoldable pub mem_alloc : (size : ℕ) → Memory → Result (ℕ × Memory)
  mem_alloc size m0 =
      let m = record m0 {
        objects_allocated = incr64 m0.objects_allocated;
        live_objects = incr64 m0.live_objects;
      } in
      let p = find_pool_size size in
      if leb pool_count p
      then (h.alloc_mem m.mem_calls size >>= λ a. ok (a, record m { mem_calls = m.mem_calls + 1 }))
      else ((if m.free_list_head p == end_of_freelist then alloc_pool p m else ok m) >>= λ m'.
          ok (pool_take p m'))

unfoldable pub mem_free : (block size : ℕ) → Memory → Memory
mem_free block size m0 =
    let m = record m0 {
      live_objects = decr64 m0.live_objects;
      objects_freed = incr64 m0.objects_freed;
    } in
    let p = find_pool_size size in
    if leb pool_count p then record m { freed_mem = (block, size) ∷ m.freed_mem } else record m {
      free_list_next = update m.free_list_next block (m.free_list_head p);
      free_list_head = update m.free_list_head p block;
    }

-- `ssm_mem_init` registers the handlers and empties every free list. The counters are static data.
unfoldable pub mem_init : Memory → Memory
mem_init m = record m {
  free_list_head = λ p. if ltb p pool_count then end_of_freelist else m.free_list_head p;
}
