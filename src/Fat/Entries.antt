-- ===== src/Fat/Entries.antt =====
-- The file allocation table and the directories on the disk, src/lib/fs/fat16/fat16.c: an entry of
-- the table, the clusters of a file, a free cluster, the number of items of a directory, and reading
-- the clusters.
use koko_os.Prelude.{
  ℕ, zero, suc, ◌+◌, ◌-◌, ◌*◌, ◌%◌, ◌^◌, Bool, true, false, not, ◌||◌, ltb, leb, ◌==◌,
  if◌then◌else◌, ℤ, pos, negsuc, Outcome, done, hang, ◌>>=◌,
}
use koko_os.Ram.{memset}
use koko_os.Heap.{w32}
use koko_os.Memory.{Machine}
use koko_os.Text.{address_space}
use koko_os.Ports.{Ports}
use koko_os.Disk.{ok, load16, store16}
use koko_os.Stream
use koko_os.File.{system_fail}
use koko_os.Fat.{
  Places, is_ok, to_unsigned, char_is, divide, fat_entry_size, bad_sector, end_of_block, empty_item,
  directory_item_size, fail_to_read_stream, fail_set_stream_pos, private_of, fat_read_stream_of,
  directory_stream_of, reserved_sectors_of, sectors_big_of, get_cluster_size, cluster_to_sector,
  sector_to_absolute_pos, seek_read,
}

-- `entry == constant`
unfoldable pub int_is : (entry : ℤ) (constant : ℕ) → Bool
int_is (pos n) constant = n == constant
int_is (negsuc n) constant = false

unfoldable pub is_entry_invalid : (entry : ℤ) → Bool
is_entry_invalid entry =
    int_is entry 0xFF8
    || (int_is entry 0xFFF
        || (int_is entry 0xFF0
            || (int_is entry 0xFF6 || (int_is entry 0x00 || int_is entry bad_sector))))

unfoldable pub is_entry_free : (entry : ℤ) → Bool
is_entry_free entry = int_is entry 0x00

abbrev pub cluster_root_offset : ℕ
cluster_root_offset = 2

module _ (ports : Ports) (patience primary_disk : ℕ) (places : Places) where
  open ports use {Device}

  -- The loop of `fat16_get_total_items_for_directory`, on fuel: a stream is back at a position after
  -- 2^27 items, so on a disk with no end of the directory the loop never ends.
  unfoldable pub count_items :
      ℕ → Machine → Device → (stream items_count : ℕ) → Outcome (ℤ × Machine × Device)
  count_items zero m d stream items_count = hang
  count_items (suc n) m d stream items_count = do
    (code, m', d') ←
        Stream.read ports patience primary_disk m d stream places.item directory_item_size
    elim (not (is_ok code)) [
      | true ↦ done (fail_to_read_stream, m', d')
      | false ↦ elim (char_is (m'.ram places.item) end_of_block) [
        | true ↦ done (pos items_count, m', d')
        | false ↦ elim (char_is (m'.ram places.item) empty_item) [
          | true ↦ count_items n m' d' stream items_count
          | false ↦ count_items n m' d' stream (items_count + 1)
        ]
      ]
    ]

  unfoldable pub get_total_items_for_directory :
      Machine → Device → (disk start_sector : ℕ) → Outcome (ℤ × Machine × Device)
  get_total_items_for_directory m d disk start_sector =
      let ram = memset m.ram places.item 0 directory_item_size in
      let stream = directory_stream_of ram (private_of ram disk) in
      let (status, ram') = Stream.seek ram stream (sector_to_absolute_pos ram disk start_sector) in
      if not (is_ok status)
      then done (fail_set_stream_pos, record m { ram = ram' }, d)
      else count_items address_space (record m { ram = ram' }) d stream 0

  unfoldable pub get_fat_entry :
      Machine → Device → (disk cluster : ℕ) → Outcome (ℤ × Machine × Device)
  get_fat_entry m d disk cluster =
      let private = private_of m.ram disk in
      let stream = fat_read_stream_of m.ram private in
      let position = w32 (reserved_sectors_of m.ram private * w32 (cluster * fat_entry_size)) in
      let (status, ram) = Stream.seek m.ram stream position in
      if stream == 0
      then done (system_fail, m, d)
      else if not (is_ok status)
      then done (system_fail, record m { ram = ram }, d)
      else do
        let start = record m { ram = store16 ram places.result 0 }
        (code, m', d') ← Stream.read ports patience primary_disk start d stream places.result 2
        done (if is_ok code then pos (load16 m'.ram places.result) else system_fail, m', d')

  -- The loop of `fat16_get_cluster_for_offset`, with the rounds that are left.
  unfoldable pub follow_clusters :
      ℕ → Machine → Device → (disk cluster : ℕ) → Outcome (ℕ × Machine × Device)
  follow_clusters zero m d disk cluster = done (cluster, m, d)
  follow_clusters (suc n) m d disk cluster = do
    (entry, m', d') ← get_fat_entry m d disk cluster
    elim (is_entry_invalid entry) [
      | true ↦ done (to_unsigned system_fail, m', d')
      | false ↦ follow_clusters n m' d' disk (to_unsigned entry)
    ]

  -- The caller takes the `int` that is returned as an `unsigned int`.
  unfoldable pub get_cluster_for_offset :
      Machine → Device → (disk cluster offset : ℕ) → Outcome (ℕ × Machine × Device)
  get_cluster_for_offset m d disk cluster offset = do
    cluster_ahead ← divide offset (get_cluster_size m.ram disk)
    follow_clusters cluster_ahead m d disk cluster

  -- Fuel of `total + 1` is enough: a call that goes on has read a byte at least. An unsigned
  -- `cluster` is never below 0.
  unfoldable pub read_internal_from_stream :
      ℕ
      → Machine
      → Device
      → (disk stream cluster offset total out : ℕ) → Outcome (ℤ × Machine × Device)
  read_internal_from_stream zero m d disk stream cluster offset total out = hang
  read_internal_from_stream (suc n) m d disk stream cluster offset total out = do
    let private = private_of m.ram disk
    let size_of_cluster_bytes = get_cluster_size m.ram disk
    (cluster', m', d') ← get_cluster_for_offset m d disk cluster offset
    let start_sector = cluster_to_sector m'.ram private cluster'
    let start_pos =
        w32 (sector_to_absolute_pos m'.ram disk start_sector + offset % size_of_cluster_bytes)
    let total_to_read = if ltb size_of_cluster_bytes total then size_of_cluster_bytes else total
    (code, m'', d'') ←
        seek_read ports patience primary_disk m' d' stream start_pos out total_to_read system_fail
          system_fail
    elim (is_ok code) [
      | false ↦ done (code, m'', d'')
      | true ↦ elim (ltb 0 (total - total_to_read)) [
        | false ↦ done (ok, m'', d'')
        | true ↦
            read_internal_from_stream n m'' d'' disk stream cluster' (w32 (offset + total_to_read))
              (total - total_to_read) (w32 (out + total_to_read))
      ]
    ]

  unfoldable pub end_cluster : Machine → (disk : ℕ) → Outcome ℕ
  end_cluster m disk = do
    let total_fat_size =
        sector_to_absolute_pos m.ram disk (sectors_big_of m.ram (private_of m.ram disk))
    clusters ← divide total_fat_size (get_cluster_size m.ram disk)
    done ((clusters + cluster_root_offset) % 2 ^ 16)

  -- The loop of `fat16_get_free_cluster`, on fuel. The clusters are `uint16_t`.
  unfoldable pub free_cluster_loop :
      ℕ
      → Machine
      → Device
      → (disk clusters_required end_cluster_of_fat start_cluster end_cluster : ℕ)
      → Outcome (ℕ × Machine × Device)
  free_cluster_loop zero m d disk clusters_required end_of_fat start_cluster end_cluster = hang
  free_cluster_loop (suc n) m d disk clusters_required end_of_fat start_cluster end_cluster = do
    (entry, m', d') ← get_fat_entry m d disk start_cluster
    let next = (end_cluster + 1) % 2 ^ 16
    elim (is_entry_free entry) [
      | false ↦ free_cluster_loop n m' d' disk clusters_required end_of_fat next next
      | true ↦ elim (ltb end_of_fat end_cluster) [
        | true ↦ done (to_unsigned system_fail % 2 ^ 16, m', d')
        | false ↦ elim (leb end_cluster (w32 (start_cluster + clusters_required))) [
          | true ↦ done (start_cluster, m', d')
          | false ↦ free_cluster_loop n m' d' disk clusters_required end_of_fat start_cluster next
        ]
      ]
    ]

  unfoldable pub get_free_cluster :
      Machine → Device → (disk total : ℕ) → Outcome (ℕ × Machine × Device)
  get_free_cluster m d disk total = do
    clusters_required ← divide total (get_cluster_size m.ram disk)
    end_of_fat ← end_cluster m disk
    let start_cluster = 1 + cluster_root_offset
    free_cluster_loop address_space m d disk clusters_required end_of_fat start_cluster
        start_cluster
