-- ===== src/Fat/Files.antt =====
-- The operations of an open file, src/lib/fs/fat16/fat16.c: opening, reading, writing, moving,
-- asking for the size, and closing. A descriptor is the address of its item, and the position behind
-- it.
use koko_os.Prelude.{
  ℕ, zero, suc, ◌+◌, ◌*◌, Bool, true, false, not, ◌==◌, leb, if◌then◌else◌, ℤ, Outcome, done, ◌>>=◌,
}
use koko_os.Ram.{Ram, load32, store32}
use koko_os.Heap.{w32}
use koko_os.Memory
use koko_os.Memory.{Machine}
use koko_os.Text.{str_ref_copy}
use koko_os.Ports.{Ports}
use koko_os.Disk.{ok, invalid_argument, store16}
use koko_os.Stream
use koko_os.File.{SeekMode, seek_mode_set, seek_mode_cur, seek_mode_end, system_fail}
use koko_os.Fat.{
  Places, is_ok, to_unsigned, type_file, attribute_read_only, not_implemented, fail_to_read_stream,
  not_memory_left, cannot_get_file, directory_item_size, descriptor_size, ext_of, has_attribute,
  low_cluster_of, filesize_of, get_first_cluster, target_of, type_of, private_of,
  cluster_read_stream_of, directory_stream_of, root_directory_sector, cluster_to_sector,
  sector_to_absolute_pos,
}
use koko_os.Fat.Entries.{get_total_items_for_directory, get_free_cluster}
use koko_os.Fat.Items.{free_item, get_directory_entry, read_internal}

-- file.h
pub data FileMode : Type 0 where
  file_mode_read : FileMode
  file_mode_write : FileMode
  file_mode_append : FileMode

abbrev pub file_stat_read_only : ℕ
file_stat_read_only = 0x01

-- `desc->item`, `desc->pos`, and `desc->item->item`.
unfoldable pub item_of : Ram → (descriptor : ℕ) → ℕ
item_of ram descriptor = load32 ram descriptor

unfoldable pub position_of : Ram → (descriptor : ℕ) → ℕ
position_of ram descriptor = load32 ram (descriptor + 4)

unfoldable pub file_item_of : Ram → (descriptor : ℕ) → ℕ
file_item_of ram descriptor = target_of ram (item_of ram descriptor)

-- `desc->item->type == FAT_ITEM_TYPE_FILE`
unfoldable pub is_file : Ram → (descriptor : ℕ) → Bool
is_file ram descriptor = type_of ram (item_of ram descriptor) == type_file

-- The status, and the memory afterwards. The sum of two `uint32_t` wraps.
unfoldable pub seek_within : Ram → (descriptor offset filesize : ℕ) → SeekMode → ℤ × Ram
seek_within ram descriptor offset filesize seek_mode_set = (ok, store32 ram (descriptor + 4) offset)
seek_within ram descriptor offset filesize seek_mode_end = (not_implemented, ram)
seek_within ram descriptor offset filesize seek_mode_cur =
    let moved : ℕ = w32 (position_of ram descriptor + offset) in
    if leb filesize moved then (system_fail, ram) else (ok, store32 ram (descriptor + 4) moved)

unfoldable pub seek : Ram → (descriptor offset : ℕ) → SeekMode → ℤ × Ram
seek ram descriptor offset mode =
    let filesize : ℕ = filesize_of ram (file_item_of ram descriptor) in
    if not (is_file ram descriptor)
    then (invalid_argument, ram)
    else if leb filesize offset
    then (system_fail, ram)
    else seek_within ram descriptor offset filesize mode

-- `file_stat` is the address of the flags, with the size behind them.
unfoldable pub stat : Ram → (descriptor file_stat : ℕ) → ℤ × Ram
stat ram descriptor file_stat =
    let item : ℕ = file_item_of ram descriptor in
    let ram' : Ram = store32 ram file_stat 0x00 in
    let ram'' : Ram = store32 ram' (file_stat + 4) (filesize_of ram' item) in
    if not (is_file ram descriptor) then (invalid_argument, ram) else (
      ok,
      if has_attribute ram'' item attribute_read_only
          then store32 ram'' file_stat file_stat_read_only
          else ram'',
    )

unfoldable pub close : Machine → (descriptor : ℕ) → Outcome (ℤ × Machine)
close m descriptor = do
  m' ← free_item m (item_of m.ram descriptor)
  m'' ← Memory.free m' descriptor
  done (ok, m'')

module _ (ports : Ports) (patience primary_disk : ℕ) (places : Places) where
  open ports use {Device}

  -- A descriptor, or the status as a pointer.
  unfoldable pub open_for_read : Machine → Device → (disk path : ℕ) → Outcome (ℕ × Machine × Device)
  open_for_read m d disk path = do
    (descriptor, m') ← Memory.zalloc m descriptor_size
    if descriptor == 0 then done (to_unsigned not_memory_left, m', d) else do
      (item, m₁, d') ← get_directory_entry ports patience primary_disk places m' d disk path
      let m₂ = record m₁ { ram = store32 m₁.ram descriptor item }
      if item == 0
          then Memory.free m₂ descriptor
            >>= (λ freed. done (to_unsigned cannot_get_file, freed, d'))
          else done (descriptor, record m₂ { ram = store32 m₂.ram (descriptor + 4) 0 }, d')

  -- The literals are `"KOKO    "` and `"TXT"`.
  unfoldable pub new_file_item : Machine → Outcome (ℕ × Machine)
  new_file_item m = do
    (item, m') ← Memory.zalloc m directory_item_size
    (dir_item, m'') ← Memory.zalloc m' directory_item_size
    let ram = store32 (store32 m''.ram item dir_item) (item + 4) type_file
    named ← str_ref_copy ram dir_item places.koko_literal
    extended ← str_ref_copy named (ext_of dir_item) places.txt_literal
    done (item, record m'' { ram = extended })

  unfoldable pub open_for_write :
      Machine → Device → (disk path : ℕ) → Outcome (ℕ × Machine × Device)
  open_for_write m d disk path = do
    (descriptor, m') ← Memory.zalloc m descriptor_size
    if descriptor == 0 then done (to_unsigned not_memory_left, m', d) else do
      (found, m₁, d') ← get_directory_entry ports patience primary_disk places m' d disk path
      let m₂ = record m₁ { ram = store32 m₁.ram descriptor found }
      (item, m₃) ← if found == 0 then new_file_item m₂ else done (found, m₂)
      let ram = store32 m₃.ram descriptor item
      done (descriptor, record m₃ { ram = store32 ram (descriptor + 4) 0 }, d')

  unfoldable pub open_ :
      Machine → Device → (disk path : ℕ) → FileMode → Outcome (ℕ × Machine × Device)
  open_ m d disk path file_mode_read = open_for_read m d disk path
  open_ m d disk path file_mode_write = open_for_write m d disk path
  open_ m d disk path file_mode_append = done (to_unsigned invalid_argument, m, d)

  -- The loop of `fat16_read`, with the members that are left.
  unfoldable pub read_members :
      ℕ → Machine → Device → (disk item offset size temp_out : ℕ) → Outcome (ℤ × Machine × Device)
  read_members zero m d disk item offset size temp_out = done (ok, m, d)
  read_members (suc n) m d disk item offset size temp_out = do
    (code, m', d') ←
        read_internal ports patience primary_disk places m d disk (get_first_cluster m.ram item)
          offset size temp_out
    elim (is_ok code) [
      | false ↦ done (fail_to_read_stream, m', d')
      | true ↦ read_members n m' d' disk item (w32 (offset + size)) size (w32 (temp_out + size))
    ]

  unfoldable pub read :
      Machine → Device → (disk out descriptor size nmemb : ℕ) → Outcome (ℤ × Machine × Device)
  read m d disk out descriptor size nmemb =
      if not (is_file m.ram descriptor)
      then done (invalid_argument, m, d)
      else read_members nmemb m d disk (file_item_of m.ram descriptor)
          (position_of m.ram descriptor) size out

  unfoldable pub get_next_item_position :
      Machine → Device → (disk : ℕ) → Outcome (ℕ × Machine × Device)
  get_next_item_position m d disk = do
    let start_sector = root_directory_sector m.ram (private_of m.ram disk)
    let directory_start_pos = sector_to_absolute_pos m.ram disk start_sector
    (total_items, m', d') ←
        get_total_items_for_directory ports patience primary_disk places m d disk start_sector
    done (w32 (directory_start_pos + w32 (directory_item_size * to_unsigned total_items)), m', d')

  -- The first write of a file: it gets a cluster, and its item is appended to the directory. The
  -- statuses of the stream are not looked at.
  unfoldable pub store_item :
      Machine → Device → (disk descriptor size : ℕ) → Outcome (Machine × Device)
  store_item m d disk descriptor size = do
    (cluster, m₁, d₁) ← get_free_cluster ports patience primary_disk places m d disk size
    let ram = store16 m₁.ram (file_item_of m₁.ram descriptor + 26) cluster
    (write_pos, m₂, d₂) ← get_next_item_position (record m₁ { ram = ram }) d₁ disk
    let dir_stream = directory_stream_of m₂.ram (private_of m.ram disk)
    let (status, ram') = Stream.seek m₂.ram dir_stream write_pos
    (code, m₃, d₃) ←
        Stream.write ports patience primary_disk (record m₂ { ram = ram' }) d₂ dir_stream
          (file_item_of ram' descriptor) directory_item_size
    done (m₃, d₃)

  unfoldable pub write :
      Machine → Device → (disk in_ descriptor size : ℕ) → Outcome (ℤ × Machine × Device)
  write m d disk in_ descriptor size =
      if not (is_file m.ram descriptor) then done (invalid_argument, m, d) else do
        let private = private_of m.ram disk
        (m₁, d₁) ←
            if low_cluster_of m.ram (file_item_of m.ram descriptor) == 0
            then store_item m d disk descriptor size
            else done (m, d)
        let cluster = low_cluster_of m₁.ram (file_item_of m₁.ram descriptor)
        let sector = cluster_to_sector m₁.ram private cluster
        let cluster_stream = cluster_read_stream_of m₁.ram private
        let (status, ram) =
            Stream.seek m₁.ram cluster_stream (sector_to_absolute_pos m₁.ram disk sector)
        (code, m₂, d₂) ←
            Stream.write ports patience primary_disk (record m₁ { ram = ram }) d₁ cluster_stream in_
              size
        done (if is_ok code then ok else Stream.fail_to_write_stream, m₂, d₂)
