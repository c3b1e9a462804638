-- ===== src/Fat/ReadFile.antt =====
-- `fat16_read` of some bytes of a file on a mounted disk: through the table of the file allocation,
-- the stream, the driver and the heap, down to the bytes of the disk.
use koko_os.Prelude.{ℕ, ◌+◌, ◌-◌, ◌*◌, ◌%◌, ◌^◌, ◌<◌, ◌≡◌, done}
use koko_os.Ram.{Ram, load32, store32}
use koko_os.Heap.{get_entry, w32}
use koko_os.Heap.Valid.{IsTable}
use koko_os.Heap.Reuse.{Apart}
use koko_os.Memory.{Machine}
use koko_os.Ports.{Ports}
use koko_os.Disk.{ok}
use koko_os.Disk.Ata.{Ata}
use koko_os.Stream
use koko_os.Stream.{disk_of}
use koko_os.Fat.{Places, cluster_read_stream_of}
use koko_os.Fat.Files.{read}
use koko_os.Fat.Mounted.{IsPlaced, IsHeld, IsMounted}
use koko_os.Fat.TableRead.{Framed}

module _ (ports : Ports) (patience : ℕ) (ata : Ata ports patience) (primary_disk : ℕ)
    (places : Places) (disk private stream reserved : ℕ)
    (placed : IsPlaced disk private stream places.result) where
  open ports use {Device}
  open ata use {content, content-lt}

  -- The place on the disk of the byte of a cluster that an offset leads to, as FAT16 defines it: the
  -- data begin behind the root directory, with cluster 2, and a cluster has as many sectors as byte
  -- 13 of the header says. All numbers are those of 32 bits.
  abbrev pub start_of : Ram → (cluster offset size : ℕ) → ℕ
  start_of ram cluster offset size =
      let sector =
        w32 (load32 ram (private + 76) + w32 (w32 (cluster + 2 ^ 32 - 2) * ram (private + 13))) in
      w32 (w32 (sector * load32 ram (disk + 4)) + offset % size)

  -- The stream of the data clusters and the destination, in use and apart.
  pub record IsReader (m : Machine) (cluster_stream out n : ℕ) : Type 0 where
    pub stream_there : cluster_read_stream_of m.ram private ≡ cluster_stream
    pub real : disk_of m.ram cluster_stream ≡ primary_disk
    pub held_stream : IsHeld m.heap m.ram cluster_stream 8
    pub held_out : IsHeld m.heap m.ram out n
    pub stream_out : Apart cluster_stream 8 out n
    pub stream_table : Apart cluster_stream 8 stream 4
    pub stream_result : Apart cluster_stream 8 places.result 2

  module _ (m : Machine) (k : IsMounted disk private stream places.result primary_disk reserved m)
      (cluster_stream out n : ℕ) (reader : IsReader m cluster_stream out n) where
    module _ (ram₁ : Ram)
        (framed : Framed ports patience ata primary_disk places disk private stream reserved placed
          m ram₁)
        (p : ℕ) (p-lt : p < 2 ^ 32) where
      abbrev moved : Ram
      moved = store32 ram₁ cluster_stream p

    -- What `fat16_read` leaves of `n` bytes of a file that start at byte `p` of the disk.
    pub record FileRead (d : Device) (descriptor p : ℕ) : Type 0 where
      pub ram' : Ram
      pub d' : Device
      pub returns :
          read ports patience primary_disk places m d disk out descriptor n 1
          ≡ done (ok, record m { ram = ram' }, d')
      pub bytes : (i : ℕ) → i < n → ram' (out + i) ≡ content d (p + i)
      pub table : IsTable m.heap.table.total (get_entry m.heap ram')
      pub same : content d' ≡ content d
      pub idle : ata.Idle d'
