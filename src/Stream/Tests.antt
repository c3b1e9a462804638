-- ===== src/Stream/Tests.antt =====
-- A stream at 0x5000 on a simulated drive, at position 100, a read of 20 bytes to 0x5100, and a
-- write of 20 bytes from there, alone and read back to 0x5200.
use koko_os.Prelude.{◌+◌, ◌*◌, ◌<◌, ◌≤◌, arith}
use koko_os.Ram.{Ram, store32}
use koko_os.Heap.{HeapTable, set_entry}
use koko_os.Heap.Valid.{first_entry}
use koko_os.Heap.Create.{heap_of}
use koko_os.Memory.{Machine}
use koko_os.Stream.{get_affected_sectors}
use koko_os.Disk.WriteDrive.{WriteDrive}
use koko_os.Stream.Read.{get_affected_sectors_lem}

get_affected_sectors_lem_example :
    (513 ≤ 512 * get_affected_sectors 513) × (512 * get_affected_sectors 513 < 513 + 512)
get_affected_sectors_lem_example = get_affected_sectors_lem 513 (omega arith)

abbrev table : HeapTable
table = record { total = 3; entries = 0x1000 }

abbrev ram : Ram
ram = store32 (store32 (λ b. 0) 0x5000 100) 0x5004 0x7000

abbrev machine : Machine
machine = record { ram = ram; heap = heap_of 0x2000 table; heap_table = table }

abbrev given_ram : Ram
given_ram = set_entry machine.heap ram 0 first_entry
