-- ===== src/Memory/FreeList.antt =====
-- The free lists of the memory pools: allocation takes the first block, freeing puts one in front, and
-- a fresh page gives its blocks in the order of their addresses.
use ssm_runtime.Base.{
  ℕ, zero, suc, ◌+◌, ◌-◌, ◌*◌, ◌/◌, ◌≤◌, ◌<◌, ◌≡◌, ◌≢◌, refl, ap, ◌∙◌, Bool, true, false, ◌||◌,
  List, [], ◌∷◌, ◌++◌, ok, arith, ◌==◌, update, update_self, ◌⊎◌,
}
use native.Mathlib.Nat.{mul-lt-mul_of_pos_right}
use ssm_runtime.Memory.{
  Handlers, Memory, block_size, pool_count, pool_size, page_size, end_of_freelist,
  uninitialized_free_block, find_next_block, zeroed, last_block, alloc_pool, incr64,
}

-- From `b` the links lead through the blocks `bs` of `size` bytes to the end of the list.
abbrev pub Free : (ℕ → ℕ) → (size b : ℕ) → List ℕ → Type 0
Free next size b [] = b ≡ end_of_freelist
Free next size b (x ∷ xs) =
    (b ≡ x) × (x ≢ end_of_freelist) × Free next size (find_next_block next x size) xs

abbrev pub member : ℕ → List ℕ → Bool
member x [] = false
member x (y ∷ ys) = y == x || member x ys

-- links elsewhere do not matter
pub Free-frame :
    (next next' : ℕ → ℕ) (size b : ℕ) (bs : List ℕ)
    → ((x : ℕ) → member x bs ≡ true → next' x ≡ next x)
    → Free next size b bs
    → Free next' size b bs
unfolding find_next_block
Free-frame next next' size b [] same h = h
Free-frame next next' size b (x ∷ xs) same (at, real, rest) = (
  at,
  real,
  rw (same x (ground arith)) (
      Free-frame next next' size (find_next_block next x size) xs (λ y m. same y (ground arith))
        rest),
)

-- The blocks of `size` bytes from `b` on.
abbrev pub blocks : (count b size : ℕ) → List ℕ
blocks zero b size = []
blocks (suc count) b size = b ∷ blocks count (b + size) size

next_place : (b size i : ℕ) → b + size + i * size ≡ b + suc i * size
next_place b size i = ground arith

-- A run of blocks with no link, but for the last one, which leads to another list.
Free-blocks :
    (next : ℕ → ℕ) (size n b head : ℕ) (bs : List ℕ)
    → end_of_freelist < b
    → size / block_size * block_size ≡ size
    → ((i : ℕ) → i < n → next (b + i * size) ≡ uninitialized_free_block)
    → next (b + n * size) ≡ head
    → head ≢ uninitialized_free_block
    → Free next size head bs
    → Free next size b (blocks (suc n) b size ++ bs)
unfolding find_next_block
Free-blocks next size zero b head bs page whole clear last real h =
    let e : find_next_block next b size ≡ head = ground (arith, last, real) in
    (refl, ground arith, rw e h)
Free-blocks next size (suc n) b head bs page whole clear last real h =
    let e : find_next_block next b size ≡ b + size = ground (arith, clear 0, whole) in
    (
      refl,
      ground arith,
      rw e (
          Free-blocks next size n (b + size) head bs (omega arith) whole
            (λ i k. ap next (next_place b size i) ∙ clear (suc i) (omega arith))
            (ap next (next_place b size n) ∙ last) real h),
    )

-- The free list of pool `p`, and what its head may not be.
abbrev pub FreeList : Memory → ℕ → List ℕ → Type 0
FreeList m p bs = Free m.free_list_next (pool_size p) (m.free_list_head p) bs

pub member_apart : (x y : ℕ) (bs : List ℕ) → member x bs ≡ false → member y bs ≡ true → y ≢ x
member_apart x y bs h k e = ground (arith, ap (λ (z : ℕ). member z bs) e)

-- the links of a page that was zeroed and linked to the old head
abbrev linked_page : (ℕ → ℕ) → (page last head : ℕ) → ℕ → ℕ
linked_page next page last head = update (zeroed next page) (page + last) head

-- `suc n` blocks of `size` bytes make up the page
fresh_page :
    (next : ℕ → ℕ) (size n page head last : ℕ) (bs : List ℕ)
    → end_of_freelist < page
    → size / block_size * block_size ≡ size
    → n * size ≡ last
    → last + size ≡ page_size
    → 0 < size
    → head ≢ uninitialized_free_block
    → ((x : ℕ) → member x bs ≡ true → (x < page) ⊎ (page + page_size ≤ x))
    → Free next size head bs
    → Free (linked_page next page last head) size page (blocks (suc n) page size ++ bs)
fresh_page next size n page head last bs high whole at fits some real apart list =
    Free-blocks (linked_page next page last head) size n page head bs high whole
      (λ i k.
        let below : i * size < n * size = mul-lt-mul_of_pos_right k some in
        ground (arith, below, at, fits))
      (rw at (ground arith)) real
      (Free-frame next (linked_page next page last head) size head bs
        (λ x k. ground (arith, apart x k, fits)) list)

-- the sizes of the four pools divide the page
pool_size_divides :
    (p : ℕ)
    → p < pool_count
    → (pool_size p / block_size * block_size ≡ pool_size p)
      × ((page_size / pool_size p - 1) * pool_size p ≡ last_block p * block_size)
      × (last_block p * block_size + pool_size p ≡ page_size)
      × (0 < pool_size p)
      × (suc (page_size / pool_size p - 1) ≡ page_size / pool_size p)
pool_size_divides zero h = (refl, refl, refl, omega arith, refl)
pool_size_divides (suc zero) h = (refl, refl, refl, omega arith, refl)
pool_size_divides (suc (suc zero)) h = (refl, refl, refl, omega arith, refl)
pool_size_divides (suc (suc (suc zero))) h = (refl, refl, refl, omega arith, refl)
pool_size_divides (suc (suc (suc (suc p)))) h = absurd (omega arith)

module _ (h : Handlers) where
  -- A fresh page, zeroed and apart from the blocks of the list, comes in front of the list.
  pub alloc_pool-FreeList :
      (p page : ℕ) (m : Memory) (bs : List ℕ)
      → p < pool_count
      → h.alloc_page m.page_calls ≡ ok page
      → end_of_freelist < page
      → m.free_list_head p ≢ uninitialized_free_block
      → ((x : ℕ) → member x bs ≡ true → (x < page) ⊎ (page + page_size ≤ x))
      → FreeList m p bs
      → (m' : Memory) × (alloc_pool h p m ≡ ok m')
        × FreeList m' p (blocks (page_size / pool_size p) page (pool_size p) ++ bs)
  unfolding alloc_pool
  alloc_pool-FreeList p page m bs small answer high real apart list =
      let (whole, at, fits, some, count) = pool_size_divides p small in
      (
        record m {
          page_calls = m.page_calls + 1;
          num_pages_allocated = incr64 m.num_pages_allocated;
          pages_allocated = update m.pages_allocated p (incr64 (m.pages_allocated p));
          free_list_next =
              linked_page m.free_list_next page (last_block p * block_size) (m.free_list_head p);
          free_list_head = update m.free_list_head p page;
        },
        ground (arith, answer, high),
        rw (← count) (
            rw (update_self m.free_list_head p page) (
              fresh_page m.free_list_next (pool_size p) (page_size / pool_size p - 1) page
                (m.free_list_head p) (last_block p * block_size) bs high whole at fits some real
                apart list)),
      )
