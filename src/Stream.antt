-- ===== src/Stream.antt =====
-- A position on the disk, src/lib/fs/disk_stream.c and src/lib/fs/disk_stream.h, over the driver
-- and the kernel's heap. A stream is a structure in memory: the position, and the disk's pointer
-- behind it.
pub mod Copy
pub mod Read
pub mod Fill
pub mod Write
pub mod Small
pub mod RoundTrip
pub mod Tests
use koko_os.Prelude.{
  ℕ, zero, suc, ◌+◌, ◌*◌, ◌/◌, ◌%◌, ◌==◌, if◌then◌else◌, ℤ, pos, negsuc, minus, Outcome, done,
  ◌>>=◌,
}
use koko_os.Ram.{Ram, poke, load32, store32}
use koko_os.Heap.{w32}
use koko_os.Memory
use koko_os.Memory.{Machine}
use koko_os.Ports.{Ports}
use koko_os.Disk.{get, read_block, write_block, ok, invalid_argument, sector_bytes}

abbrev pub fail_to_write_stream : ℤ
fail_to_write_stream = minus 203

-- `sizeof(Disk_Stream)`
abbrev pub stream_size : ℕ
stream_size = 8

-- `stream->pos` and `stream->disk`
unfoldable pub pos_of : Ram → (stream : ℕ) → ℕ
pos_of ram stream = load32 ram stream

unfoldable pub disk_of : Ram → (stream : ℕ) → ℕ
disk_of ram stream = load32 ram (stream + 4)

-- `disk->sector_size`, behind the two bytes of the disk's id and type.
unfoldable pub sector_size_of : Ram → (disk : ℕ) → ℕ
sector_size_of ram disk = load32 ram (disk + 4)

unfoldable pub get_affected_sectors : (total_bytes : ℕ) → ℕ
get_affected_sectors total_bytes =
    let leftover_sector : ℕ = if total_bytes % sector_bytes == 0 then 0 else 1 in
    w32 (total_bytes / sector_bytes + leftover_sector)

unfoldable pub seek : Ram → (stream position : ℕ) → ℤ × Ram
seek ram stream position = (ok, store32 ram stream position)

unfoldable pub seek_by_sector : Ram → (stream sector : ℕ) → ℤ × Ram
seek_by_sector ram stream sector =
    (ok, store32 ram stream (w32 (sector * sector_size_of ram (disk_of ram stream))))

unfoldable pub reset : Ram → (stream : ℕ) → Ram
reset ram stream = store32 ram stream 0

unfoldable pub close : Machine → (stream : ℕ) → Outcome Machine
close m stream = Memory.free m stream

-- `temp_buffer[i] = local_buffer[offset + i]`, with the rounds that are left.
unfoldable pub copy_out : ℕ → Ram → (temp_buffer local_buffer offset i : ℕ) → Ram
copy_out zero ram temp_buffer local_buffer offset i = ram
copy_out (suc n) ram temp_buffer local_buffer offset i =
    copy_out n (poke ram (temp_buffer + i) (ram (local_buffer + w32 (offset + i)))) temp_buffer
      local_buffer offset (i + 1)

-- `local_buffer[offset + i] = temp_buffer[i]`
unfoldable pub copy_in : ℕ → Ram → (local_buffer temp_buffer offset i : ℕ) → Ram
copy_in zero ram local_buffer temp_buffer offset i = ram
copy_in (suc n) ram local_buffer temp_buffer offset i =
    copy_in n (poke ram (local_buffer + w32 (offset + i)) (ram (temp_buffer + i))) local_buffer
      temp_buffer offset (i + 1)

-- `stream->pos += total_bytes`
unfoldable pub advance : Ram → (stream total_bytes : ℕ) → Ram
advance ram stream total_bytes = store32 ram stream (w32 (pos_of ram stream + total_bytes))

-- What `disk_stream_read` does after `disk_read_block`, by its status.
unfoldable pub read_loaded : ℤ → Ram → (stream buffer total_bytes local_buffer offset : ℕ) → ℤ × Ram
read_loaded (pos zero) ram stream buffer total_bytes local_buffer offset =
    (ok, advance (copy_out total_bytes ram buffer local_buffer offset 0) stream total_bytes)
read_loaded (pos (suc status)) ram stream buffer total_bytes local_buffer offset =
    (invalid_argument, ram)
read_loaded (negsuc status) ram stream buffer total_bytes local_buffer offset =
    (invalid_argument, ram)

-- What `disk_stream_write` does after `disk_write_block`, by its status.
unfoldable pub written : ℤ → Ram → (stream total_bytes : ℕ) → ℤ × Ram
written (pos zero) ram stream total_bytes = (ok, advance ram stream total_bytes)
written (pos (suc status)) ram stream total_bytes = (fail_to_write_stream, ram)
written (negsuc status) ram stream total_bytes = (fail_to_write_stream, ram)

module _ (ports : Ports) (patience primary_disk : ℕ) where
  open ports use {Device}

  unfoldable pub new : Machine → (id : ℕ) → Outcome (ℕ × Machine)
  new m id = if get ports patience primary_disk id == 0 then done (0, m) else do
    (stream, m') ← Memory.malloc m stream_size
    let ram = store32 m'.ram stream 0
    done (stream, record m' { ram = store32 ram (stream + 4) (get ports patience primary_disk id) })

  -- The status, and the machine and the disk's state afterwards.
  unfoldable pub read :
      Machine → Device → (stream buffer total_bytes : ℕ) → Outcome (ℤ × Machine × Device)
  read m d stream buffer total_bytes =
      if total_bytes == 0 then done (invalid_argument, m, d) else do
        let sectors = get_affected_sectors total_bytes
        let sector = pos_of m.ram stream / sector_bytes
        let offset = pos_of m.ram stream % sector_bytes
        (local_buffer, m') ← Memory.malloc m (w32 (sector_bytes * sectors))
        (status, d', ram) ←
            read_block ports patience primary_disk (disk_of m'.ram stream) d m'.ram local_buffer
              sector sectors
        let (res, ram') = read_loaded status ram stream buffer total_bytes local_buffer offset
        m'' ← Memory.free (record m' { ram = ram' }) local_buffer
        done (res, m'', d')

  -- What `disk_stream_write` does after `disk_read_block`, by its status.
  unfoldable pub write_loaded :
      ℤ
      → Ram
      → Device
      → (stream buffer total_bytes local_buffer sector sectors offset : ℕ)
      → Outcome (ℤ × Ram × Device)
  write_loaded (pos zero) ram d stream buffer total_bytes local_buffer sector sectors offset = do
    let ram' = copy_in total_bytes ram local_buffer buffer offset 0
    (status, d') ←
        write_block ports patience primary_disk (disk_of ram' stream) d ram' local_buffer sector
          sectors
    let (res, ram'') = written status ram' stream total_bytes
    done (res, ram'', d')
  write_loaded (pos (suc s)) ram d stream buffer total_bytes local_buffer sector sectors offset =
      done (invalid_argument, ram, d)
  write_loaded (negsuc s) ram d stream buffer total_bytes local_buffer sector sectors offset =
      done (invalid_argument, ram, d)

  unfoldable pub write :
      Machine → Device → (stream buffer total_bytes : ℕ) → Outcome (ℤ × Machine × Device)
  write m d stream buffer total_bytes =
      if total_bytes == 0 then done (invalid_argument, m, d) else do
        let sectors = get_affected_sectors total_bytes
        let sector = pos_of m.ram stream / sector_bytes
        let offset = pos_of m.ram stream % sector_bytes
        (local_buffer, m') ← Memory.malloc m (w32 (sector_bytes * sectors))
        (status, d', ram) ←
            read_block ports patience primary_disk (disk_of m'.ram stream) d m'.ram local_buffer
              sector sectors
        (res, ram', d'') ←
            write_loaded status ram d' stream buffer total_bytes local_buffer sector sectors offset
        m'' ← Memory.free (record m' { ram = ram' }) local_buffer
        done (res, m'', d'')
