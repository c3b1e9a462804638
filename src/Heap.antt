-- ===== src/Heap.antt =====
-- The block allocator of src/lib/memory/heap.c and src/lib/memory/heap.h.
-- The table of entries lies in memory: entry `i` is the `unsigned int` at `entries + 4 * i`.
-- `HEAP_SIZE_TYPE` and pointers are 32-bit, and their arithmetic wraps where the code's does.
pub mod Align
pub mod Entries
pub mod Search
pub mod Valid
pub mod Chain
pub mod Free
pub mod Malloc
pub mod Calls
pub mod Leak
pub mod Reuse
pub mod Create
pub mod Tests
use koko_os.Prelude.{
  ℕ, zero, suc, ◌+◌, ◌-◌, ◌*◌, ◌/◌, ◌%◌, ◌^◌, Bool, true, false, not, ◌&&◌, ◌||◌, ltb, leb, ◌==◌,
  if◌then◌else◌, ℤ, pos, minus, Outcome, done, kernel_panic, hang, ◌>>=◌, bit_and, bit_or,
}
use koko_os.Ram.{Ram, store32, load32, memset}

-- config.h
abbrev pub block_size : ℕ
block_size = 4096

-- Values of an entry.
abbrev pub entry_free : ℕ
entry_free = 0x00

abbrev pub entry_taken : ℕ
entry_taken = 0x01

abbrev pub flag_has_next : ℕ
flag_has_next = 0x80

abbrev pub flag_is_first : ℕ
flag_is_first = 0x40

-- The status codes of errors.h that this file returns.
abbrev pub ok : ℤ
ok = pos 0

abbrev pub memory_not_aligned : ℤ
memory_not_aligned = minus 301

abbrev pub table_low_bytes_available : ℤ
table_low_bytes_available = minus 302

abbrev pub available_memory_less_than_block : ℤ
available_memory_less_than_block = minus 303

-- Arithmetic on `uint32_t` and on pointers.
abbrev pub w32 : ℕ → ℕ
w32 n = n % 2 ^ 32

-- `entries` is the address of the first entry.
pub record HeapTable : Type 0 where
  pub total : ℕ
  pub entries : ℕ

pub record Heap : Type 0 where
  pub table : HeapTable
  pub start_address : ℕ

pub record MemoryDetails : Type 0 where
  pub start_address : ℕ
  pub end_block : ℕ
  pub start_block : ℕ

-- `table->total` against the number of blocks between the two addresses.
unfoldable pub validate_table : (start end : ℕ) → HeapTable → ℤ
validate_table start end table =
    let expected_size : ℕ = w32 (end + 2 ^ 32 - start) in
    let expected_blocks : ℕ = expected_size / block_size in
    if table.total == expected_blocks then ok else table_low_bytes_available

unfoldable pub validate_alignment : ℕ → Bool
validate_alignment address = address % 4096 == 0

-- The status and the table afterwards.
unfoldable pub create_table : HeapTable → (table_start_address available_bytes : ℕ) → ℤ × HeapTable
create_table table table_start_address available_bytes =
    if ltb available_bytes block_size
    then (available_memory_less_than_block, table)
    else (ok, record { total = available_bytes / block_size; entries = table_start_address })

-- The status, the heap and the memory afterwards.
unfoldable pub create : Heap → (start_address : ℕ) → HeapTable → Ram → ℤ × Heap × Ram
create heap start_address table ram =
    let end_addr : ℕ = w32 (start_address + w32 (table.total * block_size)) in
    let validation_result : ℤ = validate_table start_address end_addr table in
    if not (validate_alignment start_address) || not (validate_alignment end_addr)
    then (memory_not_aligned, heap, ram)
    else elim validation_result [
      | pos zero ↦ (
        ok,
        record { table = table; start_address = start_address },
        memset ram table.entries entry_free (w32 (4 * table.total)),
      )
      | other ↦ (other, heap, ram)
    ]

unfoldable pub align_amount_of_bytes_requested : ℕ → ℕ
align_amount_of_bytes_requested amount_of_bytes =
    if amount_of_bytes % block_size == 0
    then amount_of_bytes
    else w32 (amount_of_bytes - amount_of_bytes % block_size + block_size)

unfoldable pub entry_is_taken : ℕ → Bool
entry_is_taken entry = bit_and entry entry_taken == 1

unfoldable pub entry_is_free : ℕ → Bool
entry_is_free entry = not (entry_is_taken entry)

unfoldable pub entry_has_next : ℕ → Bool
entry_has_next entry = ltb 0 (bit_and entry flag_has_next)

unfoldable pub entry_is_first : ℕ → Bool
entry_is_first entry = ltb 0 (bit_and entry flag_is_first)

unfoldable pub get_address_from_block : Heap → ℕ → ℕ
get_address_from_block heap start_block = w32 (heap.start_address + w32 (start_block * block_size))

-- `heap->table->entries[i]`, read and written.
unfoldable pub get_entry : Heap → Ram → ℕ → ℕ
get_entry heap ram i = load32 ram (heap.table.entries + 4 * i)

unfoldable pub set_entry : Heap → Ram → ℕ → ℕ → Ram
set_entry heap ram i entry = store32 ram (heap.table.entries + 4 * i) entry

-- One round of the search: the new `current_block` and `block_count`.
unfoldable pub search_step : (free : Bool) → (i current_block block_count : ℕ) → ℕ × ℕ
search_step true i current_block block_count =
    (if block_count == 0 then i else current_block, block_count + 1)
search_step false i current_block block_count = (0, 0)

-- The search loop of `heap_request_memory`, with the rounds that are left. `free` tells the state
-- of a block.
unfoldable pub search_loop :
    ℕ → (ℕ → Bool) → (required_blocks i current_block block_count : ℕ) → ℕ × ℕ
search_loop zero free required_blocks i current_block block_count = (current_block, block_count)
search_loop (suc n) free required_blocks i current_block block_count =
    let (current', count') = search_step (free i) i current_block block_count in
    elim (count' == required_blocks) [
      | true ↦ (current', count')
      | false ↦ search_loop n free required_blocks (i + 1) current' count'
    ]

-- The details of the blocks that the search has found, or the panic where it found too few.
unfoldable pub found_memory :
    Heap → (required_blocks current_block block_count : ℕ) → Outcome MemoryDetails
found_memory heap required_blocks current_block block_count =
    if not (block_count == required_blocks)
    then kernel_panic "Not enough memory"
    else done (record {
      start_address = get_address_from_block heap current_block;
      end_block = w32 (current_block + block_count + 2 ^ 32 - 1);
      start_block = current_block;
    })

unfoldable pub request_memory : Heap → Ram → ℕ → Outcome MemoryDetails
request_memory heap ram amount_of_bytes =
    if leb amount_of_bytes 0
    then done (record { start_address = 0; end_block = 0; start_block = 0 })
    else let required_blocks : ℕ = amount_of_bytes / block_size in
      let free = λ (i : ℕ). entry_is_free (get_entry heap ram i) in
      let (current_block, block_count) = search_loop heap.table.total free required_blocks 0 0 0 in
      found_memory heap required_blocks current_block block_count

-- The entry that `heap_malloc` writes for block `i`.
unfoldable pub malloc_entry : MemoryDetails → ℕ → ℕ
malloc_entry details i =
    let entry : ℕ = bit_or 0 entry_taken in
    if i == details.start_block
    then bit_or entry flag_is_first
    else if not (i == details.end_block)
    then bit_or entry flag_has_next
    else entry

-- The loop of `heap_malloc`, with the rounds that are left.
unfoldable pub mark_loop : ℕ → Heap → Ram → MemoryDetails → ℕ → Ram
mark_loop zero heap ram details i = ram
mark_loop (suc n) heap ram details i =
    mark_loop n heap (set_entry heap ram i (malloc_entry details i)) details (i + 1)

-- The address and the memory afterwards.
unfoldable pub malloc : Heap → Ram → ℕ → Outcome (ℕ × Ram)
malloc heap ram amount_of_bytes = do
  details ← request_memory heap ram (align_amount_of_bytes_requested amount_of_bytes)
  let rounds = details.end_block + 1 - details.start_block
  done (details.start_address, mark_loop rounds heap ram details details.start_block)

-- One round of `heap_free`'s loop: the entry is freed and a block is zeroed.
unfoldable pub free_step : Heap → Ram → (start_block current_block : ℕ) → Ram
free_step heap ram start_block current_block =
    memset (set_entry heap ram current_block entry_free) (get_address_from_block heap start_block) 0
      block_size

-- The `do … while` of `heap_free`, on fuel.
unfoldable pub free_loop : ℕ → Heap → Ram → (start_block current_block : ℕ) → Outcome Ram
free_loop zero heap ram start_block current_block = hang
free_loop (suc n) heap ram start_block current_block =
    let ram' = free_step heap ram start_block current_block in
    elim (entry_has_next (get_entry heap ram' (w32 (current_block + 1)))) [
      | true ↦ free_loop n heap ram' start_block (w32 (current_block + 1))
      | false ↦ done ram'
    ]

-- A difference of pointers by the size of a block: the difference is a signed number of 32 bits, and
-- its quotient is rounded to 0 and stored as an unsigned one.
unfoldable pub signed_quotient : (difference : ℕ) → ℕ
signed_quotient difference =
    if ltb difference (2 ^ 31)
    then difference / block_size
    else w32 (2 ^ 32 - (2 ^ 32 - difference) / block_size)

-- The block of an address, as `heap_free` computes `start_block`.
unfoldable pub start_block_of : Heap → ℕ → ℕ
start_block_of heap address =
    if heap.start_address == address
    then 0
    else signed_quotient (w32 (address + 2 ^ 32 - heap.start_address))

-- A chain of blocks is at most as long as the table, so `total + 1` rounds are enough.
unfoldable pub free : Heap → Ram → ℕ → Outcome Ram
free heap ram address =
    let start_block : ℕ = start_block_of heap address in
    if ltb address heap.start_address
    then kernel_panic "Invalid address is going to be freed!"
    else if not (entry_is_first (get_entry heap ram start_block))
    then kernel_panic "Address is not the beginning of an address block!"
    else free_loop (heap.table.total + 1) heap ram start_block start_block
