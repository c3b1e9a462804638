-- ===== src/Heap/Entries.antt =====
-- The table as a map from blocks to entries: reading back what the loops of `heap_malloc` and
-- `heap_free` write.
use koko_os.Prelude.{
  ℕ, zero, suc, ◌+◌, ◌*◌, ◌^◌, ◌≤◌, ◌<◌, ◌≡◌, ◌≢◌, refl, ◌⊎◌, inl, inr, ◌∙◌, arith, lt-cases,
}
use koko_os.Ram.{Ram, store32, memset}
use koko_os.Ram.Words.{load32-store32_self, load32-store32_other, load32_congr, store32_outside}
use koko_os.Ram.Memset.{memset_outside, memset_zero}
use koko_os.Heap.{
  Heap, MemoryDetails, block_size, entry_free, get_entry, set_entry, get_address_from_block,
  malloc_entry, mark_loop, free_step,
}

-- The table, and one word behind it, ends below the blocks, and the blocks end within the address
-- space. `memory_init` chooses such addresses.
pub record IsLayout (heap : Heap) : Type 0 where
  pub below : heap.table.entries + 4 * (heap.table.total + 1) ≤ heap.start_address
  pub fits : heap.start_address + heap.table.total * block_size < 2 ^ 32

-- A layout whose blocks take 2 GiB at most: `heap_free` subtracts pointers, and the difference is a
-- signed number of 32 bits. The kernel's heap has 100 MB.
pub record IsFreeable (heap : Heap) : Type 0 where
  pub layout : IsLayout heap
  pub half : heap.table.total * block_size ≤ 2 ^ 31

-- The address is none of the table's, nor of the word behind it.
abbrev pub OffTable : Heap → ℕ → Type 0
OffTable heap b = (b < heap.table.entries) ⊎ (heap.table.entries + 4 * (heap.table.total + 1) ≤ b)

pub get_entry-set_entry_self :
    (heap : Heap) (ram : Ram) (i entry : ℕ)
    → entry < 2 ^ 32
    → get_entry heap (set_entry heap ram i entry) i ≡ entry
unfolding get_entry set_entry
get_entry-set_entry_self heap ram i entry h =
    load32-store32_self ram (heap.table.entries + 4 * i) entry h

pub get_entry-set_entry_ne :
    (heap : Heap) (ram : Ram) (i j entry : ℕ)
    → i ≢ j
    → get_entry heap (set_entry heap ram i entry) j ≡ get_entry heap ram j
unfolding get_entry set_entry
get_entry-set_entry_ne heap ram i j entry h =
    load32-store32_other ram (heap.table.entries + 4 * i) entry (heap.table.entries + 4 * j)
      (ground arith)

pub malloc_entry-lt : (d : MemoryDetails) (i : ℕ) → malloc_entry d i < 2 ^ 32
unfolding malloc_entry
malloc_entry-lt d i = ground arith

pub mark_loop_outside :
    (n : ℕ) (heap : Heap) (ram : Ram) (d : MemoryDetails) (i j : ℕ)
    → (j < i) ⊎ (i + n ≤ j)
    → get_entry heap (mark_loop n heap ram d i) j ≡ get_entry heap ram j
unfolding mark_loop
mark_loop_outside zero heap ram d i j h = refl
mark_loop_outside (suc n) heap ram d i j h =
    mark_loop_outside n heap (set_entry heap ram i (malloc_entry d i)) d (i + 1) j (omega arith)
    ∙ get_entry-set_entry_ne heap ram i j (malloc_entry d i) (omega arith)

pub mark_loop_inside :
    (n : ℕ) (heap : Heap) (ram : Ram) (d : MemoryDetails) (i j : ℕ)
    → i ≤ j
    → j < i + n
    → get_entry heap (mark_loop n heap ram d i) j ≡ malloc_entry d j
unfolding mark_loop
mark_loop_inside zero heap ram d i j lo hi = absurd (omega arith)
mark_loop_inside (suc n) heap ram d i j lo hi = elim (lt-cases i j) [
  | inl later ↦
      mark_loop_inside n heap (set_entry heap ram i (malloc_entry d i)) d (i + 1) j (omega arith)
        (omega arith)
  | inr now ↦
      let e : j ≡ i = omega arith in
      rw e (
        mark_loop_outside n heap (set_entry heap ram i (malloc_entry d i)) d (i + 1) i (omega arith)
        ∙ get_entry-set_entry_self heap ram i (malloc_entry d i) (malloc_entry-lt d i))
]

-- Marking writes into the marked entries only.
pub mark_loop-bytes :
    (n : ℕ) (heap : Heap) (ram : Ram) (d : MemoryDetails) (i b : ℕ)
    → (b < heap.table.entries + 4 * i) ⊎ (heap.table.entries + 4 * (i + n) ≤ b)
    → mark_loop n heap ram d i b ≡ ram b
unfolding mark_loop set_entry
mark_loop-bytes zero heap ram d i b h = refl
mark_loop-bytes (suc n) heap ram d i b h =
    mark_loop-bytes n heap (set_entry heap ram i (malloc_entry d i)) d (i + 1) b (omega arith)
    ∙ store32_outside ram (heap.table.entries + 4 * i) (malloc_entry d i) b (omega arith)

module _ {heap : Heap} (layout : IsLayout heap) where
  pub get_address_from_block_lem :
      (s : ℕ)
      → s < heap.table.total
      → get_address_from_block heap s ≡ heap.start_address + s * block_size
  unfolding get_address_from_block
  get_address_from_block_lem s h = omega (arith, layout.below, layout.fits)

  -- Zeroing a block leaves the table alone.
  memset-get_entry :
      (ram : Ram) (s j : ℕ)
      → s < heap.table.total
      → j ≤ heap.table.total
      → get_entry heap (memset ram (get_address_from_block heap s) 0 block_size) j
        ≡ get_entry heap ram j
  unfolding get_entry
  memset-get_entry ram s j hs hj =
      load32_congr ram (memset ram (get_address_from_block heap s) 0 block_size)
        (heap.table.entries + 4 * j)
        λ b lo hi.
          memset_outside ram (get_address_from_block heap s) 0 block_size b
            (inl (omega (arith, layout.below, get_address_from_block_lem s hs)))

  pub free_step_self :
      (ram : Ram) (s c : ℕ)
      → s < heap.table.total
      → c ≤ heap.table.total
      → get_entry heap (free_step heap ram s c) c ≡ 0
  unfolding free_step
  free_step_self ram s c hs hc =
      memset-get_entry (set_entry heap ram c entry_free) s c hs hc
      ∙ get_entry-set_entry_self heap ram c entry_free (omega arith)

  pub free_step_ne :
      (ram : Ram) (s c j : ℕ)
      → s < heap.table.total
      → j ≤ heap.table.total
      → c ≢ j
      → get_entry heap (free_step heap ram s c) j ≡ get_entry heap ram j
  unfolding free_step
  free_step_ne ram s c j hs hj ne =
      memset-get_entry (set_entry heap ram c entry_free) s j hs hj
      ∙ get_entry-set_entry_ne heap ram c j entry_free ne

  -- Of the bytes off the table, one round zeroes those of the first block of the chain, and
  -- changes no other.
  pub free_step-bytes_outside :
      (ram : Ram) (s c b : ℕ)
      → s < heap.table.total
      → c ≤ heap.table.total
      → OffTable heap b
      → (b < heap.start_address + s * block_size)
        ⊎ (heap.start_address + s * block_size + block_size ≤ b)
      → free_step heap ram s c b ≡ ram b
  unfolding free_step set_entry
  free_step-bytes_outside ram s c b hs hc hb h =
      memset_outside (store32 ram (heap.table.entries + 4 * c) entry_free)
        (get_address_from_block heap s) 0 block_size b
        (omega (arith, get_address_from_block_lem s hs))
      ∙ store32_outside ram (heap.table.entries + 4 * c) entry_free b (omega (arith, layout.below))

  pub free_step-bytes_inside :
      (ram : Ram) (s c b : ℕ)
      → s < heap.table.total
      → heap.start_address + s * block_size ≤ b
      → b < heap.start_address + s * block_size + block_size
      → free_step heap ram s c b ≡ 0
  unfolding free_step set_entry
  free_step-bytes_inside ram s c b hs lo hi =
      memset_zero (store32 ram (heap.table.entries + 4 * c) entry_free)
        (get_address_from_block heap s) block_size b
        (omega (arith, get_address_from_block_lem s hs))
        (omega (arith, get_address_from_block_lem s hs))
