-- ===== src/Memory/Reuse.antt =====
-- Allocation from a free list and freeing to it.
use ssm_runtime.Base.{ℕ, ◌<◌, ◌≡◌, ◌≢◌, refl, ap, false, List, ◌∷◌, ok, arith, update, update_self}
use ssm_runtime.Memory.{
  Handlers, Memory, pool_count, pool_size, end_of_freelist, uninitialized_free_block,
  find_pool_size, find_next_block, incr64, mem_alloc, mem_free, pool_take,
}
use ssm_runtime.Memory.FreeList.{FreeList, Free-frame, member, member_apart}

module _ (h : Handlers) where
  -- Allocation from a pool takes the first block of its free list and returns it. The other pools and the
  -- links are as they were.
  pub mem_alloc-FreeList :
      (size b : ℕ) (m : Memory) (bs : List ℕ)
      → find_pool_size size < pool_count
      → FreeList m (find_pool_size size) (b ∷ bs)
      → (m' : Memory) × (mem_alloc h size m ≡ ok (b, m'))
        × FreeList m' (find_pool_size size) bs
        × ((q : ℕ) → q ≢ find_pool_size size → m'.free_list_head q ≡ m.free_list_head q)
        × (m'.free_list_next ≡ m.free_list_next)
        × (m'.live_objects ≡ incr64 m.live_objects)
  unfolding mem_alloc pool_take
  mem_alloc-FreeList size b m bs small (at, real, rest) =
      let p = find_pool_size size in
      (
        record m {
          objects_allocated = incr64 m.objects_allocated;
          live_objects = incr64 m.live_objects;
          free_list_head =
              update m.free_list_head p
                (find_next_block m.free_list_next (m.free_list_head p) (pool_size p));
        },
        ground (arith, at, real, small),
        rw
            (update_self m.free_list_head p
              (find_next_block m.free_list_next (m.free_list_head p) (pool_size p)))
            (rw at rest),
        λ q other. ground (arith, other),
        refl,
        refl,
      )

mem_free_lem :
    (block size : ℕ) (m : Memory)
    → find_pool_size size < pool_count
    → ((mem_free block size m).free_list_head ≡ update m.free_list_head (find_pool_size size) block)
      × ((x : ℕ)
          → (mem_free block size m).free_list_next x
            ≡ update m.free_list_next block (m.free_list_head (find_pool_size size)) x)
unfolding mem_free
mem_free_lem block size m small = (ground arith, λ x. ground arith)

-- Freeing a block puts it in front of the free list of its pool. The other pools are as they were, but
-- for the link in the block.
pub mem_free-FreeList :
    (block size : ℕ) (m : Memory) (bs : List ℕ)
    → find_pool_size size < pool_count
    → block ≢ end_of_freelist
    → member block bs ≡ false
    → m.free_list_head (find_pool_size size) ≢ uninitialized_free_block
    → FreeList m (find_pool_size size) bs
    → FreeList (mem_free block size m) (find_pool_size size) (block ∷ bs)
      × ((q : ℕ) (cs : List ℕ)
          → q ≢ find_pool_size size
          → member block cs ≡ false
          → FreeList m q cs
          → FreeList (mem_free block size m) q cs)
unfolding find_next_block
mem_free-FreeList block size m bs small high fresh real list =
    let p = find_pool_size size in
    let m' = mem_free block size m in
    let (heads, links) = mem_free_lem block size m small in
    let first : find_next_block m'.free_list_next block (pool_size p) ≡ m.free_list_head p =
      ground (arith, links block, real) in
    (
      (
        ground (arith, ap (λ (f : ℕ → ℕ). f p) heads),
        high,
        rw first (
            Free-frame m.free_list_next m'.free_list_next (pool_size p) (m.free_list_head p) bs
              (λ x k. ground (arith, links x, member_apart block x bs fresh k)) list),
      ),
      λ q cs other out h.
          let kept : m'.free_list_head q ≡ m.free_list_head q =
            ground (arith, ap (λ (f : ℕ → ℕ). f q) heads, other) in
          rw kept (
            Free-frame m.free_list_next m'.free_list_next (pool_size q) (m.free_list_head q) cs
              (λ x k. ground (arith, links x, member_apart block x cs out k)) h),
    )

-- A block that is freed to a pool is the one that the next allocation of the same size returns, and the
-- two calls together leave the free list as it was.
pub mem_alloc-mem_free :
    (h : Handlers) (block size : ℕ) (m : Memory) (bs : List ℕ)
    → find_pool_size size < pool_count
    → block ≢ end_of_freelist
    → member block bs ≡ false
    → m.free_list_head (find_pool_size size) ≢ uninitialized_free_block
    → FreeList m (find_pool_size size) bs
    → (m' : Memory) × (mem_alloc h size (mem_free block size m) ≡ ok (block, m'))
      × FreeList m' (find_pool_size size) bs
mem_alloc-mem_free h block size m bs small high fresh real list =
    let freed = (mem_free-FreeList block size m bs small high fresh real list).0 in
    let (m', run, list', heads, links, live) =
      mem_alloc-FreeList h size block (mem_free block size m) bs small freed in
    (m', run, list')
