-- ===== src/Memory.antt =====
-- The kernel's heap, src/lib/memory/memory.c: the globals `heap` and `heap_table`, and `malloc`,
-- `zalloc` and `free` over them. (`memset` and `memcpy` of that file are in Ram.)
pub mod Init
pub mod Tests
use koko_os.Prelude.{ℕ, ◌*◌, ◌≡◌, ℤ, pos, negsuc, zero, suc, Outcome, done, kernel_panic, ◌>>=◌}
use koko_os.Ram.{Ram, memset}
use koko_os.Heap
use koko_os.Heap.{Heap, HeapTable}

-- memory.h and config.h
abbrev pub heap_start_address : ℕ
heap_start_address = 0x01000000

abbrev pub heap_table_start_address : ℕ
heap_table_start_address = 0x00007E00

abbrev pub max_heap_memory : ℕ
max_heap_memory = 1024 * 1024 * 100

-- What the kernel keeps: its memory, and the two globals.
pub record Machine : Type 0 where
  pub ram : Ram
  pub heap : Heap
  pub heap_table : HeapTable

-- `memory_init` after `heap_create`, by its status.
unfoldable pub init_created : HeapTable → ℤ × Heap × Ram → Outcome Machine
init_created table (pos zero, heap, ram) =
    done (record { ram = ram; heap = heap; heap_table = table })
init_created table (pos (suc status), heap, ram) = kernel_panic "Failed to initialize heap!"
init_created table (negsuc status, heap, ram) = kernel_panic "Failed to initialize heap!"

-- `memory_init` after `heap_create_table`, by its status.
unfoldable pub init_table : Machine → ℤ × HeapTable → Outcome Machine
init_table m (pos zero, table) =
    init_created table (Heap.create m.heap heap_start_address table m.ram)
init_table m (pos (suc status), table) = kernel_panic "Failed to initialize heap table!"
init_table m (negsuc status, table) = kernel_panic "Failed to initialize heap table!"

unfoldable pub memory_init : Machine → Outcome Machine
memory_init m =
    init_table m (Heap.create_table m.heap_table heap_table_start_address max_heap_memory)

unfoldable pub malloc : Machine → ℕ → Outcome (ℕ × Machine)
malloc m amount_of_bytes = do
  (address, ram) ← Heap.malloc m.heap m.ram amount_of_bytes
  done (address, record m { ram = ram })

unfoldable pub zalloc : Machine → ℕ → Outcome (ℕ × Machine)
zalloc m amount_of_bytes = do
  (ptr, ram) ← Heap.malloc m.heap m.ram amount_of_bytes
  done (ptr, record m { ram = memset ram ptr 0x00 amount_of_bytes })

unfoldable pub free : Machine → ℕ → Outcome Machine
free m address = do ram ← Heap.free m.heap m.ram address; done (record m { ram = ram })
