-- ===== src/Heap/Create.antt =====
-- `heap_create_table` and `heap_create`: which heaps are accepted, and the table they start with.
use koko_os.Prelude.{
  ℕ, suc, ◌+◌, ◌*◌, ◌/◌, ◌≤◌, ◌<◌, ◌^◌, ◌%◌, ◌≡◌, ◌≢◌, refl, ◌⊎◌, inl, inr, true, false, ◌∙◌, ap,
  arith, lt-cases,
}
use koko_os.Ram.{Ram, memset}
use koko_os.Ram.Memset.{memset_inside, memset_outside}
use koko_os.Ram.Words.{load32_congr}
use koko_os.Heap.{
  Heap, HeapTable, block_size, ok, memory_not_aligned, table_low_bytes_available, validate_table,
  validate_alignment, create_table, create, get_entry, entry_has_next, w32,
}
use koko_os.Heap.Entries.{IsLayout}
use koko_os.Heap.Valid.{IsTable}

abbrev pub heap_of : (start_address : ℕ) → HeapTable → Heap
heap_of start_address table = record { table = table; start_address = start_address }

-- The word behind the table does not say that an allocation goes on.
abbrev pub IsSilent : Heap → Ram → Type 0
IsSilent heap ram = entry_has_next (get_entry heap ram heap.table.total) ≡ false

-- Of one block or more, `heap_create_table` succeeds, with a table at the given address that covers
-- whole blocks only: all of the available bytes but less than one block.
pub create_table_lem :
    (table : HeapTable) (address available : ℕ)
    → block_size ≤ available
    → ((create_table table address available).0 ≡ ok)
      × ((create_table table address available).1.total * block_size ≤ available)
      × (available < ((create_table table address available).1.total + 1) * block_size)
      × ((create_table table address available).1.entries ≡ address)
unfolding create_table
create_table_lem table address available h = ground arith

aligned-validate_alignment : (a : ℕ) → a % block_size ≡ 0 → validate_alignment a ≡ true
unfolding validate_alignment
aligned-validate_alignment a h = ground arith

unaligned-validate_alignment : (a : ℕ) → a % block_size ≢ 0 → validate_alignment a ≡ false
unfolding validate_alignment
unaligned-validate_alignment a h = ground arith

-- The end address that `heap_create` computes.
abbrev end_addr : ℕ → HeapTable → ℕ
end_addr start_address table = w32 (start_address + w32 (table.total * block_size))

end-validate_alignment :
    (start_address : ℕ) (table : HeapTable)
    → start_address % block_size ≡ 0
    → validate_alignment (end_addr start_address table) ≡ true
end-validate_alignment start_address table h =
    aligned-validate_alignment (end_addr start_address table) (omega arith)

validate_table-ok :
    (start_address : ℕ) (table : HeapTable)
    → start_address + table.total * block_size < 2 ^ 32
    → validate_table start_address (end_addr start_address table) table ≡ ok
unfolding validate_table
validate_table-ok start_address table h = ground arith

validate_table-low :
    (start_address : ℕ) (table : HeapTable)
    → 2 ^ 32 ≤ table.total * block_size
    → validate_table start_address (end_addr start_address table) table ≡ table_low_bytes_available
unfolding validate_table
validate_table-low start_address table h = ground arith

has_next_middle_entry : entry_has_next 0x81 ≡ true
unfolding entry_has_next
has_next_middle_entry = refl

pub Zeros-IsTable :
    (total : ℕ) (entry : ℕ → ℕ)
    → ((i : ℕ) → i < total → entry i ≡ 0)
    → entry_has_next (entry total) ≡ false
    → IsTable total entry
Zeros-IsTable total entry zeros silent = record {
  shape = λ i hi. inl (zeros i hi);
  before = λ i hi e. absurd (omega (arith, zeros (suc i) hi));
  zeroth = λ e. elim (lt-cases 0 total) [
    | inl some_block ↦ omega (arith, zeros 0 some_block)
    | inr no_block ↦
        let empty : total ≡ 0 = omega arith in
        let go : entry_has_next (entry total) ≡ true =
          ap (λ n. entry_has_next (entry n)) empty ∙ ap entry_has_next e ∙ has_next_middle_entry in
        ground arith
  ];
  after = λ i hi e. absurd (omega (arith, zeros i hi));
  behind = silent;
}

module _ (heap : Heap) (start_address : ℕ) (table : HeapTable) (ram : Ram) where
  accepts :
      IsLayout (heap_of start_address table)
      → start_address % block_size ≡ 0
      → create heap start_address table ram
        ≡ (ok, heap_of start_address table, memset ram table.entries 0 (w32 (4 * table.total)))
  unfolding create
  accepts layout aligned = rw (
    aligned-validate_alignment start_address aligned,
    end-validate_alignment start_address table aligned,
    validate_table-ok start_address table layout.fits,
  )

  cleared :
      (i : ℕ)
      → i < w32 (4 * table.total) / 4
      → get_entry
          (heap_of start_address table)
          (memset ram table.entries 0 (w32 (4 * table.total)))
          i
        ≡ 0
  unfolding get_entry
  cleared i hi = memset_inside ram table.entries 0 (w32 (4 * table.total)) i (omega arith) hi

  behind :
      (ram' : Ram)
      → ((b : ℕ) → (b < table.entries) ⊎ (table.entries + 4 * table.total ≤ b) → ram' b ≡ ram b)
      → get_entry (heap_of start_address table) ram' table.total
        ≡ get_entry (heap_of start_address table) ram table.total
  unfolding get_entry
  behind ram' kept =
      load32_congr ram ram' (table.entries + 4 * table.total) (λ b lo hi. kept b (inr lo))

  -- An address that is not a multiple of the block size is refused, and nothing is written.
  pub create-memory_not_aligned :
      start_address % block_size ≢ 0
      → create heap start_address table ram ≡ (memory_not_aligned, heap, ram)
  unfolding create
  create-memory_not_aligned h = rw (unaligned-validate_alignment start_address h)

  -- At an address that is a multiple of the block size, a table whose blocks have 2^32 bytes or
  -- more is refused, and nothing is written.
  pub create-table_low_bytes_available :
      start_address % block_size ≡ 0
      → 2 ^ 32 ≤ table.total * block_size
      → create heap start_address table ram ≡ (table_low_bytes_available, heap, ram)
  unfolding create
  create-table_low_bytes_available aligned h = rw (
    aligned-validate_alignment start_address aligned,
    end-validate_alignment start_address table aligned,
    validate_table-low start_address table h,
  )

  pub create-IsTable :
      IsLayout (heap_of start_address table)
      → start_address % block_size ≡ 0
      → IsSilent (heap_of start_address table) ram
      → (ram' : Ram) × (create heap start_address table ram
          ≡ (ok, heap_of start_address table, ram'))
        × IsTable table.total (get_entry (heap_of start_address table) ram')
        × ((i : ℕ) → i < table.total → get_entry (heap_of start_address table) ram' i ≡ 0)
        × ((b : ℕ) → (b < table.entries) ⊎ (table.entries + 4 * table.total ≤ b) → ram' b ≡ ram b)
  create-IsTable layout aligned silent =
      let bytes : w32 (4 * table.total) ≡ 4 * table.total = omega (arith, layout.fits) in
      let ram' : Ram = memset ram table.entries 0 (w32 (4 * table.total)) in
      let zeros : (i : ℕ) → i < table.total → get_entry (heap_of start_address table) ram' i ≡ 0 =
        λ i hi. cleared i (omega (arith, layout.fits)) in
      let kept : (b : ℕ)
          → (b < table.entries) ⊎ (table.entries + 4 * table.total ≤ b)
          → ram' b ≡ ram b =
        λ b h. memset_outside ram table.entries 0 (w32 (4 * table.total)) b (omega arith) in
      (
        ram',
        accepts layout aligned,
        Zeros-IsTable table.total (get_entry (heap_of start_address table) ram') zeros
            (ap entry_has_next (behind ram' kept) ∙ silent),
        zeros,
        kept,
      )
