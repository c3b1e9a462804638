-- ===== src/Heap/Align.antt =====
-- `heap_align_amount_of_bytes_requested`: rounding a request up to whole blocks.
use koko_os.Prelude.{ℕ, ◌+◌, ◌-◌, ◌*◌, ◌/◌, ◌%◌, ◌^◌, ◌≤◌, ◌<◌, ◌≡◌, arith}
use koko_os.Heap.{block_size, align_amount_of_bytes_requested}

-- Up to 2^32 - 4096 bytes the result is the least multiple of the block size that holds the
-- request: a multiple, not below the request, and less than one block above it.
pub align_least :
    (n : ℕ)
    → n ≤ 2 ^ 32 - block_size
    → (align_amount_of_bytes_requested n % block_size ≡ 0)
      × (n ≤ align_amount_of_bytes_requested n)
      × (align_amount_of_bytes_requested n < n + block_size)
unfolding align_amount_of_bytes_requested
align_least n h = ground arith

-- Any larger request of a `size_t` wraps to nothing.
pub align_wraps :
    (n : ℕ) → 2 ^ 32 - block_size < n → n < 2 ^ 32 → align_amount_of_bytes_requested n ≡ 0
unfolding align_amount_of_bytes_requested
align_wraps n h k = ground arith

pub align-blocks :
    (n : ℕ)
    → 0 < n
    → n ≤ 2 ^ 32 - block_size
    → align_amount_of_bytes_requested n ≡ (n + 4095) / block_size * block_size
unfolding align_amount_of_bytes_requested
align-blocks n h k = ground arith
