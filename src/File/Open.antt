-- ===== src/File/Open.antt =====
-- Mounting the disk and opening a file, src/lib/fs/file.c and src/lib/io/disk.c: `fs_init`,
-- `fs_resolve`, `fs_open` and `disk_init`. FAT16 is the one file system of the kernel, so a call
-- through a file system's pointer is a call of FAT16's function.
use koko_os.Prelude.{
  ℕ, zero, suc, ◌+◌, ◌^◌, true, false, ◌||◌, ◌==◌, leb, if◌then◌else◌, none, some, Outcome, done,
  ◌>>=◌,
}
use koko_os.Ram.{poke, load32, store32}
use koko_os.Memory
use koko_os.Memory.{Machine}
use koko_os.Ports.{Ports}
use koko_os.Disk
use koko_os.Path.Parse.{parse_path, name_of, part_of, driver_no_of}
use koko_os.File.{
  Files, free_slot, insert_filesystem, max_filesystems, max_file_descriptors, new_file_descriptor,
  null_file_descriptor, update,
}
use koko_os.Fat.{Places, is_ok}
use koko_os.Fat.Root
use koko_os.Fat.Files.{FileMode, open_}

-- The addresses of the literals and of the local buffer of the path parser.
pub record PathPlaces : Type 0 where
  pub start_path_slice : ℕ
  pub literal : ℕ
  pub empty_literal : ℕ

-- `sizeof(File_Descriptor)`
abbrev pub file_descriptor_size : ℕ
file_descriptor_size = 16

module _ (ports : Ports) (patience primary_disk : ℕ) (places : Places) where
  open ports use {Device}

  -- Both tables are cleared, and FAT16 is entered.
  unfoldable pub fs_init : Files → Machine → Outcome (Files × Machine)
  fs_init s m = do
    (fs, m') ← Root.init ports patience primary_disk places m
    let cleared = record s { file_systems = λ i. 0; file_descriptors = λ i. 0 }
    s' ← insert_filesystem cleared fs
    done (s', m')

  -- The loop of `fs_resolve`, with the slots that are left.
  unfoldable pub resolve_loop :
      ℕ → Files → Machine → Device → (disk i : ℕ) → Outcome (ℕ × Machine × Device)
  resolve_loop zero s m d disk i = done (0, m, d)
  resolve_loop (suc n) s m d disk i = elim (s.file_systems i == 0) [
    | true ↦ resolve_loop n s m d disk (i + 1)
    | false ↦ do
      (code, m', d') ← Root.resolve ports patience primary_disk places m d disk
      elim (is_ok code) [
        | true ↦ done (s.file_systems i, m', d')
        | false ↦ resolve_loop n s m' d' disk (i + 1)
      ]
  ]

  unfoldable pub fs_resolve : Files → Machine → Device → (disk : ℕ) → Outcome (ℕ × Machine × Device)
  fs_resolve s m d disk = resolve_loop max_filesystems s m d disk 0

  -- The number and the type of the disk are its first two bytes.
  unfoldable pub disk_init : Files → Machine → Device → Outcome (Machine × Device)
  disk_init s m d = do
    let named = poke (poke m.ram primary_disk 0) (primary_disk + 1) 0
    let sized = record m { ram = store32 named (primary_disk + 4) Disk.sector_bytes }
    (fs, m', d') ← fs_resolve s sized d primary_disk
    done (record m' { ram = store32 m'.ram (primary_disk + 8) fs }, d')

  -- `zalloc` of a descriptor, where a slot is free.
  unfoldable pub new_descriptor : Files → Machine → Outcome (ℕ × Files × Machine)
  new_descriptor s m = elim (free_slot max_file_descriptors s.file_descriptors 0) [
    | none ↦ done (0, s, m)
    | some slot ↦ do
      (address, m') ← Memory.zalloc m file_descriptor_size
      (fd, s') ← new_file_descriptor (done address) s
      done (fd, s', m')
  ]

  -- The descriptor is filled in, and its number returned.
  unfoldable pub fill_descriptor : Files → (fd fs disk file_data : ℕ) → ℕ × Files
  fill_descriptor s fd fs disk file_data =
      let index : ℕ = (s.at fd).index in
      (
        index,
        record s {
          at =
              update s.at fd
                (record { index = index; fs = fs; disk = disk; private_data = file_data });
        },
      )

  -- `fs_open` behind the checks of the path and of the disk.
  unfoldable pub open_path :
      Files → Machine → Device → (disk part : ℕ) → FileMode → Outcome (ℕ × Files × Machine × Device)
  open_path s m d disk part mode = do
    (file_data, m', d') ← open_ ports patience primary_disk places m d disk part mode
    if leb (2 ^ 31) file_data then done (null_file_descriptor, s, m', d') else do
      (fd, s', m'') ← new_descriptor s m'
      let fs = load32 m''.ram (disk + 8)
      let (index, s'') = fill_descriptor s' fd fs disk file_data
      if fd == 0 then done (null_file_descriptor, s', m'', d') else done (index, s'', m'', d')

  unfoldable pub fs_open :
      PathPlaces
      → Files
      → Machine
      → Device
      → (filename : ℕ) → FileMode
      → Outcome (ℕ × Files × Machine × Device)
  fs_open where_ s m d filename mode = do
    (root, m') ← parse_path where_.empty_literal where_.start_path_slice where_.literal m filename
    let part = part_of m'.ram root
    let disk = Disk.get ports patience primary_disk (driver_no_of m'.ram root)
    if root == 0 || (part == 0 || name_of m'.ram part == 0)
        then done (null_file_descriptor, s, m', d)
        else if disk == 0 || load32 m'.ram (disk + 8) == 0
        then done (null_file_descriptor, s, m', d)
        else open_path s m' d disk part mode
