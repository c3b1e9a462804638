-- ===== src/Lib.antt =====
-- koko-os is a small 32-bit kernel for the PC: a block heap, page tables, strings, a text screen,
-- the interrupt table, and a file system on an ATA disk. This library models its C code and proves
-- what the parts promise one another.
--
-- Memory is one function from addresses to bytes (Ram), as the kernel sees it: a flat address space
-- in which every pointer can be followed. A C function that writes memory takes a memory and
-- returns one, and the globals of a file are a record that its functions pass on. A call returns,
-- panics with a message or never ends (Prelude.Outcomes). Machine integers are natural numbers,
-- with the wrap-around written out where an operation can leave its width.
--
-- Bits: masks and joined bit fields. Prelude: what every module shares.
-- Ram: `memset` and `memcpy` of src/lib/memory/memory.c. Memset and Memcpy say what they leave.
-- Heap: src/lib/memory/heap.c. `create_table`, `create`, `malloc` and `free` are
-- `heap_create_table` and so on; the table of entries lies in memory. The loops of
-- `heap_request_memory` and `heap_malloc` run over the blocks that are left, so they need no fuel.
-- The loop of `heap_free` has fuel for one round more than the table has entries. Align is the
-- rounding of a request, Entries reads back what the loops write, Search is the search for free
-- blocks, Valid the shape of the table, Chain the loop of `heap_free`, Free and Malloc the two
-- calls, Calls what a caller can rely on, Leak what pairs of calls leave, Reuse what freeing leaves
-- of written memory, Create the accepted heaps.
-- `heap_free` divides a signed difference of pointers, so a heap is 2 GiB at most where it is called;
-- the kernel's has 100 MB.
-- Memory: the rest of src/lib/memory/memory.c, the kernel's heap over Heap. Init is its start.
-- Text: src/lib/string.c. A text is a list of bytes that stands at an address (View). `strlen` has
-- 65536 rounds of fuel, after which its 16-bit counter is back at the start; a copy of a string has
-- one round for each address.
-- Number: `itoa` and `atoi` of src/lib/string.c and `print_number` of src/lib/terminal.c. The loops
-- of `itoa` have eleven rounds of fuel, since a 32-bit number has ten digits at most.
-- Paging: src/lib/memory/paging.c. Set compares `paging_set` with the two-level lookup of a page in
-- the tables.
-- Terminal: src/lib/terminal.c, the cells of the video memory and the cursor.
-- Idt: src/idt/idt.c. The addresses of the handlers are arguments, as the linker chooses them.
-- Ports and Disk: src/lib/io/disk.c over the port instructions of src/lib/io/io.asm, which are a
-- parameter. Disk.Ata says what the driver relies on of the disk, and Disk.Drive and Disk.WriteDrive
-- are simulated disks. Wait is about the wait for the disk, Read and Write about the two calls, with
-- Replace on replaced bytes, and RoundTrip about one behind the other. A loop that polls makes a
-- bounded number of inquiries, and a disk that is ready within them is a hypothesis.
-- A disk takes a command only when it is idle. It is idle behind a read; behind a write it is busy for
-- a while, for which the driver does not wait, so a theorem on a write and what follows it lets the
-- disk settle in between.
-- Stream: src/lib/fs/disk_stream.c over the driver and the kernel's heap. A stream is a structure
-- in memory. Read and Write are about the two calls, Copy and Fill about the local buffer, and Small
-- about reads inside one sector, and the memory that is in use meanwhile. RoundTrip puts a write, a
-- seek and a read behind one another.
-- File: the tables of src/lib/fs/file.c and the calls from a descriptor to its file system, whose
-- operations are a parameter. Open is `fs_init`, `fs_resolve`, `fs_open` and `disk_init` of
-- src/lib/io/disk.c. Init, Table, OpenPath and Close are about the table of descriptors.
-- Path: src/lib/fs/path_parser.c, the test of a path and (Parse) its parts in memory. The loop over
-- the parts has one round for each address.
-- Fat: src/lib/fs/fat16/fat16.c. Fat has the fields of its structures, Names the name of an item,
-- Entries the table of the file allocation and the counting of items, Items the items in memory and
-- finding them, Root mounting, Files the operations of an open file, and System the file system
-- that src/lib/fs/file.c calls. A read goes on with a byte at least less in each round, so its length
-- and one is enough fuel; the loops over the items of a directory, over the parts of a path and over
-- clusters have one round for each address, more than their counters have values. A division by zero
-- never returns. Fields and NameText are about names, Clusters and Free about the table as a function,
-- Mounted and TableRead about the table on a disk, ReadFile about reading a file, Find about a name
-- that is not there, and Seek, Stat and Close about the other operations. CloseFile is about `fs_close`
-- over them, with the descriptor's memory.
-- Kernel: `kernel_main` of src/kernel.c. What the privileged instructions change is a record.
--
-- The addresses of local variables, literals and globals are arguments, as the compiler and the
-- linker choose them.
--
-- Not modelled: the boot sector, the entry point, the wrappers of the interrupt handlers and the
-- port instructions, which are assembly; of these the port instructions are a parameter, and `cli`,
-- `sti`, `lidt` and the loads of the control registers are fields of the kernel's state. Interrupts
-- are not interleaved with the kernel. The stack is no memory of the model. A file's mode is one of
-- the three constants of the enumeration, and so is the mode of a seek, so the default branches for
-- other values are left out.
pub mod Prelude
pub mod Bits
pub mod Ram
pub mod Heap
pub mod Memory
pub mod Text
pub mod Paging
pub mod Terminal
pub mod Idt
pub mod Ports
pub mod Disk
pub mod Stream
pub mod Number
pub mod File
pub mod Fat
pub mod Path
pub mod Kernel
