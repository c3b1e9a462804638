-- ===== src/Fat/Root.antt =====
-- Mounting, src/lib/fs/fat16/fat16.c: the private data of a disk, its header and its root directory.
use koko_os.Prelude.{
  ℕ, ◌+◌, ◌*◌, Bool, true, false, not, ◌==◌, if◌then◌else◌, ℤ, pos, negsuc, Outcome, done, ◌>>=◌,
}
use koko_os.Ram.{Ram, store32}
use koko_os.Heap.{w32}
use koko_os.Memory
use koko_os.Memory.{Machine}
use koko_os.Text.{str_ref_copy}
use koko_os.Ports.{Ports}
use koko_os.Disk.{ok, invalid_argument, load16}
use koko_os.Stream
use koko_os.Stream.{sector_size_of}
use koko_os.File.{system_fail}
use koko_os.Fat.{
  Places, is_ok, divide, fat_signature, directory_item_size, header_size, private_size,
  fail_to_read_stream, fail_set_stream_pos, wrong_filesystem, not_memory_left, root_directory_of,
  cluster_read_stream_of, fat_read_stream_of, directory_stream_of, root_directory_sector,
  sector_to_absolute_pos, seek_read,
}
use koko_os.Fat.Entries.{get_total_items_for_directory}

-- `result < 0`
unfoldable pub is_negative : ℤ → Bool
is_negative (pos n) = false
is_negative (negsuc n) = true

-- The four fields of the root directory.
unfoldable pub store_directory : Ram → (directory item total sector ending_sector : ℕ) → Ram
store_directory ram directory item total sector ending_sector =
    store32
      (store32 (store32 (store32 ram directory item) (directory + 4) total) (directory + 8) sector)
      (directory + 12) ending_sector

unfoldable pub reset_private_disk_streams : Ram → (private_data : ℕ) → Ram
reset_private_disk_streams ram private_data =
    let ram' = Stream.reset ram (fat_read_stream_of ram private_data) in
    let ram'' = Stream.reset ram' (directory_stream_of ram' private_data) in
    Stream.reset ram'' (cluster_read_stream_of ram'' private_data)

module _ (ports : Ports) (patience primary_disk : ℕ) (places : Places) where
  open ports use {Device}

  -- The three streams of the private data, one after the other. `id` is `disk->id`.
  unfoldable pub init_private_data : Machine → (disk : ℕ) → Outcome (ℕ × Machine)
  init_private_data m disk = do
    (private, m₀) ← Memory.zalloc m private_size
    (fat_stream, m₁) ← Stream.new ports patience primary_disk m₀ (m₀.ram disk)
    let with_fat = record m₁ { ram = store32 m₁.ram (private + 84) fat_stream }
    (dir_stream, m₂) ← Stream.new ports patience primary_disk with_fat (with_fat.ram disk)
    let with_dir = record m₂ { ram = store32 m₂.ram (private + 88) dir_stream }
    (cluster_stream, m₃) ← Stream.new ports patience primary_disk with_dir (with_dir.ram disk)
    done (private, record m₃ { ram = store32 m₃.ram (private + 80) cluster_stream })

  -- Reading the root directory's items, once they are counted.
  unfoldable pub load_root :
      Machine
      → Device
      → (disk private_data sector size total_items : ℕ) → Outcome (ℤ × Machine × Device)
  load_root m d disk private_data sector size total_items = do
    (dir, m') ← Memory.zalloc m size
    if dir == 0 then done (not_memory_left, m', d) else do
      (code, m'', d') ←
          seek_read ports patience primary_disk m' d (directory_stream_of m'.ram private_data)
            (sector_to_absolute_pos m'.ram disk sector) dir size fail_set_stream_pos
            fail_to_read_stream
      if not (is_ok code) then done (code, m'', d') else do
        sectors ← divide size (sector_size_of m''.ram disk)
        let ram =
            store_directory m''.ram (root_directory_of private_data) dir total_items sector
              (w32 (sector + sectors))
        done (ok, record m'' { ram = ram }, d')

  -- `total_sectors` of the code is a quotient that nothing uses. `root_dir_entries` is the 16-bit
  -- field at 17.
  unfoldable pub get_root_directory :
      Machine → Device → (disk private_data : ℕ) → Outcome (ℤ × Machine × Device)
  get_root_directory m d disk private_data = do
    let sector = root_directory_sector m.ram private_data
    let size = load16 m.ram (private_data + 17) * directory_item_size
    total_sectors ← divide size (sector_size_of m.ram disk)
    (total_items, m', d') ←
        get_total_items_for_directory ports patience primary_disk places m d disk sector
    elim total_items [
      | negsuc e ↦ done (invalid_argument, m', d')
      | pos total ↦ load_root m' d' disk private_data sector size total
    ]

  -- From the read of the header to the label `fin`: the result.
  unfoldable pub resolve_header :
      Machine → Device → (disk fat_private stream : ℕ) → Outcome (ℤ × Machine × Device)
  resolve_header m d disk fat_private stream = if stream == 0 then done (system_fail, m, d) else do
    (code, m', d') ← Stream.read ports patience primary_disk m d stream fat_private header_size
    if not (is_ok code)
        then done (system_fail, m', d')
        else if not (m'.ram (fat_private + 38) == fat_signature)
        then done (wrong_filesystem, m', d')
        else do
          (root, m'', d'') ← get_root_directory m' d' disk fat_private
          done (if is_ok root then pos 0 else system_fail, m'', d'')

  -- The label `fin`: the streams of the private data are reset behind its `free`.
  unfoldable pub resolve_fin :
      Machine → (disk fat_private stream : ℕ) → (result : ℤ) → Outcome Machine
  resolve_fin m disk fat_private stream result = do
    m' ← if stream == 0 then done m else Stream.close m stream
    m'' ← if is_negative result then failed m' else done m'
    done (record m'' { ram = reset_private_disk_streams m''.ram fat_private })
    where
      failed : Machine → Outcome Machine
      failed m = do
        freed ← Memory.free m fat_private
        done (record freed { ram = store32 (store32 freed.ram (disk + 8) 0) (disk + 12) 0 })

  unfoldable pub resolve : Machine → Device → (disk : ℕ) → Outcome (ℤ × Machine × Device)
  resolve m d disk = do
    (fat_private, m₁) ← init_private_data m disk
    let ram = store32 m₁.ram (disk + 12) fat_private
    let mounted = record m₁ { ram = store32 ram (disk + 8) places.fat16_file_system }
    (stream, m₂) ← Stream.new ports patience primary_disk mounted (mounted.ram disk)
    (result, m₃, d') ← resolve_header m₂ d disk fat_private stream
    m₄ ← resolve_fin m₃ disk fat_private stream result
    done (result, m₄, d')

  -- The name of the file system stands behind its seven functions.
  unfoldable pub init : Machine → Outcome (ℕ × Machine)
  init m = do
    ram ← str_ref_copy m.ram (places.fat16_file_system + 28) places.name_literal
    done (places.fat16_file_system, record m { ram = ram })
