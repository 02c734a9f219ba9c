-- ===== src/Memory/Sizes.antt =====
-- Which pool serves a size.
use ssm_runtime.Base.{ℕ, ◌≤◌, ◌<◌, ◌≡◌, ◌⊎◌, arith}
use ssm_runtime.Memory.{find_pool_size}

-- The search for a pool finds the smallest of the four pools whose blocks hold the size, and
-- answers 4 for a size above 1024.
pub find_pool_size_cases :
    (size : ℕ)
    → ((find_pool_size size ≡ 0) × (size ≤ 16))
      ⊎ ((find_pool_size size ≡ 1) × (16 < size) × (size ≤ 64))
      ⊎ ((find_pool_size size ≡ 2) × (64 < size) × (size ≤ 256))
      ⊎ ((find_pool_size size ≡ 3) × (256 < size) × (size ≤ 1024))
      ⊎ ((find_pool_size size ≡ 4) × (1024 < size))
unfolding find_pool_size
find_pool_size_cases size = ground arith
