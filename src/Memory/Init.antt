-- ===== src/Memory/Init.antt =====
-- The heap after `memory_init`, and the memory that `zalloc` gives out.
use koko_os.Prelude.{
  ℕ, ◌+◌, ◌-◌, ◌*◌, ◌/◌, ◌≤◌, ◌<◌, ◌^◌, ◌≡◌, refl, ◌⊎◌, inl, inr, ◌∙◌, ap, arith, done,
  kernel_panic,
}
use koko_os.Ram.{Ram, memset}
use koko_os.Ram.Memset.{memset_outside, memset_zero}
use koko_os.Ram.Words.{load32_congr}
use koko_os.Heap
use koko_os.Heap.{Heap, HeapTable, block_size, get_entry, create_table, entry_has_next}
use koko_os.Heap.Entries.{OffTable, IsLayout}
use koko_os.Heap.Valid.{IsTable}
use koko_os.Heap.Create.{heap_of, IsSilent, create-IsTable}
use koko_os.Heap.Calls.{Served, out_of_memory, malloc_lem}
use koko_os.Memory.{
  Machine, heap_start_address, heap_table_start_address, max_heap_memory, memory_init, init_table,
  init_created, zalloc,
}

-- 100 MB in blocks of 4096 bytes.
abbrev pub kernel_table : HeapTable
kernel_table = record { total = 25600; entries = heap_table_start_address }

abbrev pub kernel_heap : Heap
kernel_heap = heap_of heap_start_address kernel_table

pub kernel_heap-IsLayout : IsLayout kernel_heap
kernel_heap-IsLayout = omega arith

create_table_kernel :
    (table : HeapTable)
    → create_table table heap_table_start_address max_heap_memory ≡ (Heap.ok, kernel_table)
unfolding create_table
create_table_kernel table = refl

memory_init-done :
    (m : Machine) (ram' : Ram)
    → Heap.create m.heap heap_start_address kernel_table m.ram ≡ (Heap.ok, kernel_heap, ram')
    → memory_init m ≡ done (record { ram = ram'; heap = kernel_heap; heap_table = kernel_table })
unfolding memory_init init_table init_created
memory_init-done m ram' e =
    ap (init_table m) (create_table_kernel m.heap_table) ∙ ap (init_created kernel_table) e

-- What the kernel's heap is after a successful start.
pub record Started (m m' : Machine) : Type 0 where
  pub heap : m'.heap ≡ kernel_heap
  pub heap_table : m'.heap_table ≡ kernel_table
  pub table : IsTable 25600 (get_entry kernel_heap m'.ram)
  pub all_free : (i : ℕ) → i < 25600 → get_entry kernel_heap m'.ram i ≡ 0
  pub kept :
      (b : ℕ)
      → (b < heap_table_start_address) ⊎ (heap_table_start_address + 4 * 25600 ≤ b)
      → m'.ram b ≡ m.ram b

-- If the word behind the table does not say that an allocation goes on, `memory_init` returns,
-- whatever else the memory holds: the heap has 25600 free blocks from `0x01000000` on, and only the
-- bytes of the table are written.
pub memory_init_lem :
    (m : Machine)
    → IsSilent kernel_heap m.ram
    → (m' : Machine) × (memory_init m ≡ done m') × Started m m'
memory_init_lem m silent =
    let (ram', run, table, all_free, kept) =
      create-IsTable m.heap heap_start_address kernel_table m.ram kernel_heap-IsLayout (omega arith)
        silent in
    (
      record { ram = ram'; heap = kernel_heap; heap_table = kernel_table },
      memory_init-done m ram' run,
      record { heap = refl; heap_table = refl; table = table; all_free = all_free; kept = kept },
    )

module _ (m : Machine) (layout : IsLayout m.heap)
    (v : IsTable m.heap.table.total (get_entry m.heap m.ram)) where
  -- What `zalloc` of `n` bytes returns.
  pub record Zeroed (n : ℕ) : Type 0 where
    pub served : Served m.heap layout m.ram v n
    pub ram' : Ram
    pub returns :
        zalloc m n
        ≡ done (m.heap.start_address + served.block * block_size, record m { ram = ram' })
    pub zeros :
        (b : ℕ)
        → m.heap.start_address + served.block * block_size ≤ b
        → b < m.heap.start_address + served.block * block_size + 4 * (n / 4)
        → ram' b ≡ 0
    pub kept :
        (b : ℕ)
        → OffTable m.heap b
        → (b < m.heap.start_address + served.block * block_size)
          ⊎ (m.heap.start_address + served.block * block_size + 4 * (n / 4) ≤ b)
        → ram' b ≡ m.ram b
    pub entries :
        (k : ℕ) → k ≤ m.heap.table.total → get_entry m.heap ram' k ≡ get_entry m.heap served.ram' k

  zalloc-done :
      (n address : ℕ) (ram' : Ram)
      → Heap.malloc m.heap m.ram n ≡ done (address, ram')
      → zalloc m n ≡ done (address, record m { ram = memset ram' address 0 n })
  unfolding zalloc
  zalloc-done n address ram' e = rw (e, zalloc)

  zalloc-panics :
      (n : ℕ)
      → Heap.malloc m.heap m.ram n ≡ kernel_panic out_of_memory
      → zalloc m n ≡ kernel_panic out_of_memory
  unfolding zalloc
  zalloc-panics n e = rw (e, zalloc)

  memset-entries :
      (ram : Ram) (a n k : ℕ)
      → m.heap.start_address ≤ a
      → k ≤ m.heap.table.total
      → get_entry m.heap (memset ram a 0 n) k ≡ get_entry m.heap ram k
  unfolding get_entry
  memset-entries ram a n k ha hk =
      load32_congr ram (memset ram a 0 n) (m.heap.table.entries + 4 * k)
        λ b lo hi. memset_outside ram a 0 n b (inl (omega (arith, layout.below)))

  -- On a heap in the address space with a well-formed table, `zalloc` of one byte or more, up to
  -- 2^32 - 4096, returns the blocks that `malloc` finds, or panics. The whole words of the request
  -- are zero then, the bytes behind them, at most three of the request, are as before, and so is
  -- every other byte of the blocks.
  pub zalloc_lem :
      (n : ℕ)
      → 0 < n
      → n ≤ 2 ^ 32 - block_size
      → Zeroed n ⊎ (zalloc m n ≡ kernel_panic out_of_memory)
  zalloc_lem n pos small = elim (malloc_lem m.heap layout m.ram v n pos small) [
    | inr r ↦ inr (zalloc-panics n r.panics)
    | inl h ↦
        let a : ℕ = m.heap.start_address + h.block * block_size in
        inl (record {
          served = h;
          ram' = memset h.ram' a 0 n;
          returns = zalloc-done n a h.ram' h.returns;
          zeros = λ b lo hi. memset_zero h.ram' a n b lo hi;
          kept = λ b hb out. memset_outside h.ram' a 0 n b out ∙ h.allocated.kept b hb;
          entries = λ k hk. memset-entries h.ram' a n k (omega arith) hk;
        })
  ]
