-- ===== src/Stream/RoundTrip.antt =====
-- Bytes that are written to a stream and read back: `disk_stream_write`, `disk_stream_seek` and
-- `disk_stream_read`.
use koko_os.Prelude.{Outcome, ℤ, ℕ, ◌+◌, ◌-◌, ◌≤◌, ◌≡◌}
use koko_os.Ram.{Ram}
use koko_os.Heap
use koko_os.Heap.{Heap, get_entry}
use koko_os.Heap.Entries.{IsFreeable}
use koko_os.Heap.Valid.{IsTable}
use koko_os.Heap.Reuse.{Apart, Clear}
use koko_os.Memory.{Machine}
use koko_os.Ports.{Ports}
use koko_os.Disk.Ata.{Ata, AtaWrite}
use koko_os.Stream.{disk_of}
use koko_os.Stream.Write.{StreamWritten}
use koko_os.Stream.Small.{InUse}

module _ (ports : Ports) (patience : ℕ) (reads : Ata ports patience)
    (writes : AtaWrite ports patience reads.Idle)
    (same_content : (d : ports.Device) (i : ℕ) → reads.content d i ≡ writes.content d i)
    (primary_disk : ℕ) (m : Machine) (d : ports.Device) (stream buffer target n k : ℕ)
    (layout : IsFreeable m.heap) (v : IsTable m.heap.table.total (get_entry m.heap m.ram)) where
  open ports use {Device}

  abbrev Within : (a l : ℕ) → Type 0
  Within a l =
      Clear m.heap a l × Apart stream 8 a l × InUse m.heap m.ram a × InUse m.heap m.ram (a + l - 1)

  -- A write inside one sector: the stream keeps its disk, and the heap its table.
  pub record SmallWrite (run : Outcome (ℤ × Machine × Device)) : Type 0 where
    pub local : ℕ
    pub left :
        StreamWritten ports patience reads writes same_content primary_disk m d stream buffer n
          local run
    pub entries :
        (j : ℕ) → j ≤ m.heap.table.total → get_entry m.heap left.ram' j ≡ get_entry m.heap m.ram j
    pub disk : disk_of left.ram' stream ≡ disk_of m.ram stream
