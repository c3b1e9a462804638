-- ===== src/Fat/Items.antt =====
-- Items of a directory in memory, src/lib/fs/fat16/fat16.c: copying one, loading a subdirectory,
-- finding an item by its name and by a path, and giving the memory back.
use koko_os.Prelude.{
  ℕ, zero, suc, ◌+◌, ◌*◌, true, false, not, ltb, ◌==◌, if◌then◌else◌, ℤ, Outcome, done,
  kernel_panic, hang, ◌>>=◌,
}
use koko_os.Ram.{load32, store32, memcpy}
use koko_os.Heap.{w32}
use koko_os.Memory
use koko_os.Memory.{Machine}
use koko_os.Text.{address_space, str_icmp}
use koko_os.Path.{max_path_size}
use koko_os.Ports.{Ports}
use koko_os.Fat.{
  Places, is_ok, to_unsigned, type_directory, type_file, attribute_subdirectory,
  directory_item_size, directory_size, item_size, has_attribute, get_first_cluster, target_of,
  type_of, private_of, root_directory_of, cluster_read_stream_of, cluster_to_sector,
}
use koko_os.Fat.Names.{get_full_relative_filename}
use koko_os.Fat.Entries.{get_total_items_for_directory, read_internal_from_stream}

unfoldable pub free_directory : Machine → (directory : ℕ) → Outcome Machine
free_directory m directory = if directory == 0 then done m else do
  m' ← if load32 m.ram directory == 0 then done m else Memory.free m (load32 m.ram directory)
  Memory.free m' directory

unfoldable pub free_item : Machine → (item : ℕ) → Outcome Machine
free_item m item =
    if type_of m.ram item == type_directory
    then free_directory m (target_of m.ram item) >>= (λ m'. Memory.free m' item)
    else if type_of m.ram item == type_file
    then Memory.free m (target_of m.ram item) >>= (λ m'. Memory.free m' item)
    else kernel_panic "Invalid fat16 file"

unfoldable pub clone_directory_item : Machine → (dir_item size : ℕ) → Outcome (ℕ × Machine)
clone_directory_item m dir_item size = if ltb size directory_item_size then done (0, m) else do
  (copy_dir_item, m') ← Memory.zalloc m size
  if copy_dir_item == 0
      then done (0, m')
      else done (copy_dir_item, record m' { ram = memcpy m'.ram copy_dir_item dir_item size })

module _ (ports : Ports) (patience primary_disk : ℕ) (places : Places) where
  open ports use {Device}

  unfoldable pub read_internal :
      Machine → Device → (disk cluster offset total out : ℕ) → Outcome (ℤ × Machine × Device)
  read_internal m d disk cluster offset total out =
      let stream = cluster_read_stream_of m.ram (private_of m.ram disk) in
      read_internal_from_stream ports patience primary_disk places (total + 1) m d disk stream
        cluster offset total out

  -- What `fat16_load_fat_directory` does once it has counted the items. After a failed read it frees
  -- the directory, and then what its first field holds.
  unfoldable pub load_counted :
      Machine → Device → (disk directory cluster total_items : ℕ) → Outcome (ℕ × Machine × Device)
  load_counted m d disk directory cluster total_items = do
    let size = w32 (load32 m.ram (directory + 4) * directory_item_size)
    (items, m') ← Memory.zalloc (record m { ram = store32 m.ram (directory + 4) total_items }) size
    let m'' = record m' { ram = store32 m'.ram directory items }
    if items == 0 then Memory.free m'' directory >>= (λ freed. done (0, freed, d)) else do
      (code, m₁, d₁) ← read_internal m'' d disk cluster 0x00 size (load32 m''.ram directory)
      if is_ok code then done (directory, m₁, d₁) else do
        m₂ ← Memory.free m₁ directory
        m₃ ← Memory.free m₂ (load32 m₂.ram directory)
        done (0, m₃, d₁)

  unfoldable pub load_fat_directory :
      Machine → Device → (disk dir_item : ℕ) → Outcome (ℕ × Machine × Device)
  load_fat_directory m d disk dir_item =
      if not (has_attribute m.ram dir_item attribute_subdirectory) then done (0, m, d) else do
        (directory, m') ← Memory.zalloc m directory_size
        if directory == 0 then done (0, m', d) else do
          let cluster = get_first_cluster m'.ram dir_item
          let cluster_sector = cluster_to_sector m'.ram (private_of m'.ram disk) cluster
          (total_items, m'', d') ←
              get_total_items_for_directory ports patience primary_disk places m' d disk
                cluster_sector
          load_counted m'' d' disk directory cluster (to_unsigned total_items)

  -- The kind of the new item, and for a subdirectory its directory.
  unfoldable pub fill_item :
      Machine → Device → (disk item dir_item : ℕ) → Outcome (Machine × Device)
  fill_item m d disk item dir_item =
      if not (has_attribute m.ram dir_item attribute_subdirectory)
      then done (record m { ram = store32 m.ram (item + 4) type_file }, d)
      else do
        (directory, m', d') ← load_fat_directory m d disk dir_item
        let ram = store32 m'.ram item directory
        done (record m' { ram = store32 ram (item + 4) type_directory }, d')

  -- The copy of the directory item is stored last, where a subdirectory's directory stood.
  unfoldable pub new_fat_item_for_directory_item :
      Machine → Device → (disk dir_item : ℕ) → Outcome (ℕ × Machine × Device)
  new_fat_item_for_directory_item m d disk dir_item = do
    (item, m') ← Memory.zalloc m item_size
    if item == 0 then done (0, m', d) else do
      (m₁, d₁) ← fill_item m' d disk item dir_item
      (copy, m₂) ← clone_directory_item m₁ dir_item directory_item_size
      done (item, record m₂ { ram = store32 m₂.ram item copy }, d₁)

  -- The loop of `fat16_find_item_in_directory`, on fuel: `i` is an `unsigned int`, below the number
  -- of items, so 2^32 rounds are enough. The last item of the name is the one that is returned.
  unfoldable pub find_loop :
      ℕ → Machine → Device → (disk directory name i item : ℕ) → Outcome (ℕ × Machine × Device)
  find_loop zero m d disk directory name i item = hang
  find_loop (suc n) m d disk directory name i item = elim (ltb i (load32 m.ram (directory + 4))) [
    | false ↦ done (item, m, d)
    | true ↦ do
      let dir_item = w32 (load32 m.ram directory + i * directory_item_size)
      ram ← get_full_relative_filename m.ram dir_item places.tmp_filename max_path_size
      order ← str_icmp ram places.tmp_filename name
      let m' = record m { ram = ram }
      elim (is_ok order) [
        | false ↦ find_loop n m' d disk directory name (i + 1) item
        | true ↦ do
          (found, m'', d') ← new_fat_item_for_directory_item m' d disk dir_item
          find_loop n m'' d' disk directory name (i + 1) found
      ]
  ]

  unfoldable pub find_item_in_directory :
      Machine → Device → (disk directory name : ℕ) → Outcome (ℕ × Machine × Device)
  find_item_in_directory m d disk directory name =
      find_loop address_space m d disk directory name 0 0

  -- The loop of `fat16_get_directory_entry` over the parts of the path, on fuel. A part is its name,
  -- and the next part.
  unfoldable pub entry_loop :
      ℕ → Machine → Device → (disk current_item next_part : ℕ) → Outcome (ℕ × Machine × Device)
  entry_loop zero m d disk current_item next_part = hang
  entry_loop (suc n) m d disk current_item next_part = elim (next_part == 0) [
    | true ↦ done (current_item, m, d)
    | false ↦ elim (type_of m.ram current_item == type_directory) [
      | false ↦ done (0, m, d)
      | true ↦ do
        (tmp_item, m', d') ←
            find_item_in_directory m d disk (target_of m.ram current_item) (load32 m.ram next_part)
        m'' ← free_item m' current_item
        entry_loop n m'' d' disk tmp_item (load32 m''.ram (next_part + 4))
    ]
  ]

  unfoldable pub get_directory_entry :
      Machine → Device → (disk path : ℕ) → Outcome (ℕ × Machine × Device)
  get_directory_entry m d disk path = do
    (root_item, m', d') ←
        find_item_in_directory m d disk (root_directory_of (private_of m.ram disk))
          (load32 m.ram path)
    if root_item == 0
        then done (0, m', d')
        else entry_loop address_space m' d' disk root_item (load32 m'.ram (path + 4))
