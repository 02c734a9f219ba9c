-- ===== src/Tests/Pools.antt =====
-- The properties of the allocator at concrete states.
use ssm_runtime.Base.{
  ℕ, ◌+◌, ◌*◌, ◌^◌, ◌≡◌, ◌≢◌, refl, List, [], ◌∷◌, ok, arith, ◌==◌, if◌then◌else◌, ℕ_discrete,
}
use ssm_runtime.Memory.{
  Handlers, Memory, page_size, end_of_freelist, find_pool_size, find_next_block, mem_alloc,
  mem_free,
}
use ssm_runtime.Memory.FreeList.{FreeList}
use ssm_runtime.Memory.Reuse.{mem_alloc-mem_free}
use ssm_runtime.Tests.{empty_memory}

-- Pages lie one behind the other from 4096 on; large blocks from 2^20 on.
abbrev handlers : Handlers
handlers = record {
  alloc_page = λ k. ok (page_size + k * page_size);
  alloc_mem = λ k size. ok (2 ^ 20 + k * 2 ^ 16);
}

-- Pool 1 has the free blocks 640 and 512, linked, and the other lists are empty.
abbrev two_free : Memory
two_free = record empty_memory {
  free_list_head = λ p. if p == 1 then 640 else end_of_freelist;
  free_list_next = λ a. if a == 640 then 512 else if a == 512 then end_of_freelist else 0;
}

two_free-FreeList : FreeList two_free 1 (640 ∷ 512 ∷ [])
unfolding find_next_block
two_free-FreeList = (refl, ground arith, (refl, ground arith, refl))

mem_alloc-mem_free_example :
    (m' : Memory) × (mem_alloc handlers 48 (mem_free 1024 48 two_free) ≡ ok (1024, m'))
    × FreeList m' (find_pool_size 48) (640 ∷ 512 ∷ [])
unfolding find_pool_size
mem_alloc-mem_free_example =
    mem_alloc-mem_free handlers 1024 48 two_free (640 ∷ 512 ∷ []) (omega arith) (ground arith) refl
      (ground arith) two_free-FreeList

abbrev free_in_pool : ℕ → List ℕ
free_in_pool i = if i == 1 then 640 ∷ 512 ∷ [] else []

pool_of_two_free : (i : ℕ) → FreeList two_free i (free_in_pool i)
pool_of_two_free i = elim (ℕ_discrete i 1) [
  | yes e ↦ rw e two_free-FreeList
  | no e ↦ rw (other i e) (ground arith)
]
  where
    other : (i : ℕ) → i ≢ 1 → free_in_pool i ≡ []
    other i e = ground arith
