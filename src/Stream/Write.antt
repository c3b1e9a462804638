-- ===== src/Stream/Write.antt =====
-- `disk_stream_write` against the bytes of the disk.
use koko_os.Prelude.{ℕ, ◌+◌, ◌*◌, ◌≤◌, ◌≡◌, ℤ, Outcome, done}
use koko_os.Ram.{Ram}
use koko_os.Heap
use koko_os.Heap.{block_size, get_entry, w32}
use koko_os.Heap.Entries.{OffTable}
use koko_os.Heap.Valid.{IsTable}
use koko_os.Heap.Calls.{blocks_for}
use koko_os.Heap.Reuse.{Apart}
use koko_os.Memory
use koko_os.Memory.{Machine}
use koko_os.Ports.{Ports}
use koko_os.Disk.{ok}
use koko_os.Disk.Ata.{Ata, AtaWrite}
use koko_os.Disk.Replace.{Replaced}
use koko_os.Stream.{pos_of, get_affected_sectors}

module _ (ports : Ports) (patience : ℕ) (reads : Ata ports patience)
    (writes : AtaWrite ports patience reads.Idle)
    (same_content : (d : ports.Device) (i : ℕ) → reads.content d i ≡ writes.content d i)
    (primary_disk : ℕ) where
  open ports use {Device}

  -- What `disk_stream_write` of `n` bytes from position `position` leaves.
  pub record StreamWritten (m : Machine) (d : Device) (stream buffer n local : ℕ)
      (run : Outcome (ℤ × Machine × Device)) : Type 0 where
    pub ram' : Ram
    pub d' : Device
    pub returns : run ≡ done (ok, record m { ram = ram' }, d')
    pub replaced :
        Replaced m.ram (pos_of m.ram stream) buffer n (writes.content d) (writes.content d')
    pub settles : reads.Idle (writes.settled d')
    pub position : pos_of ram' stream ≡ w32 (pos_of m.ram stream + n)
    pub table : IsTable m.heap.table.total (get_entry m.heap ram')
    pub kept :
        (b : ℕ)
        → OffTable m.heap b
        → Apart b 1 stream 4
        → Apart b 1 local (blocks_for (512 * get_affected_sectors n) * block_size)
        → ram' b ≡ m.ram b
    pub restored :
        512 * get_affected_sectors n ≤ block_size
        → (k : ℕ) → k ≤ m.heap.table.total
        → get_entry m.heap ram' k ≡ get_entry m.heap m.ram k
