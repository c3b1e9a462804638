-- ===== src/Fat.antt =====
-- The structures of the FAT16 file system, src/lib/fs/fat16/fat16.c: their fields in memory, and the
-- arithmetic of sectors and clusters. A pointer is an address, and a packed structure has its fields
-- one behind the other.
pub mod Names
pub mod Fields
pub mod NameText
pub mod Entries
pub mod Items
pub mod Root
pub mod Files
pub mod Seek
pub mod Stat
pub mod Close
pub mod CloseFile
pub mod Find
pub mod Clusters
pub mod Free
pub mod Mounted
pub mod TableRead
pub mod ReadFile
pub mod Tests
pub mod ItemTests
pub mod CloseTests
pub mod System
use koko_os.Prelude.{
  ℕ, zero, suc, ◌+◌, ◌-◌, ◌*◌, ◌/◌, ◌%◌, ◌^◌, Bool, true, false, not, ◌==◌, ltb, if◌then◌else◌, ℤ,
  pos, negsuc, minus, Outcome, done, hang, ◌>>=◌, bit_and, bit_or,
}
use koko_os.Ram.{Ram, load32}
use koko_os.Heap.{w32}
use koko_os.Memory.{Machine}
use koko_os.Ports.{Ports}
use koko_os.Disk.{load16, ok}
use koko_os.Stream
use koko_os.Stream.{sector_size_of}

abbrev pub fat_signature : ℕ
fat_signature = 41

abbrev pub fat_entry_size : ℕ
fat_entry_size = 2

abbrev pub bad_sector : ℕ
bad_sector = 0xFF7

abbrev pub end_of_block : ℕ
end_of_block = 0

abbrev pub empty_item : ℕ
empty_item = 0xe5

abbrev pub type_directory : ℕ
type_directory = 0

abbrev pub type_file : ℕ
type_file = 1

abbrev pub attribute_read_only : ℕ
attribute_read_only = 0x01

abbrev pub attribute_subdirectory : ℕ
attribute_subdirectory = 0x10

-- The status codes of errors.h that this file returns, with `SYSTEM_FAIL` and `INVALID_ARGUMENT`.
abbrev pub not_implemented : ℤ
not_implemented = minus 255

abbrev pub wrong_filesystem : ℤ
wrong_filesystem = minus 200

abbrev pub fail_to_read_stream : ℤ
fail_to_read_stream = minus 201

abbrev pub fail_set_stream_pos : ℤ
fail_set_stream_pos = minus 202

abbrev pub not_memory_left : ℤ
not_memory_left = minus 304

abbrev pub cannot_get_file : ℤ
cannot_get_file = minus 502

-- The addresses of the local variables, of the literals and of `fat16_file_system`, which the
-- compiler and the linker choose.
pub record Places : Type 0 where
  pub item : ℕ
  pub result : ℕ
  pub tmp_filename : ℕ
  pub koko_literal : ℕ
  pub txt_literal : ℕ
  pub name_literal : ℕ
  pub fat16_file_system : ℕ

-- `status == OK`
unfoldable pub is_ok : ℤ → Bool
is_ok (pos zero) = true
is_ok (pos (suc n)) = false
is_ok (negsuc n) = false

-- An `int` as an `unsigned int`, or as a pointer.
unfoldable pub to_unsigned : ℤ → ℕ
to_unsigned (pos n) = w32 n
to_unsigned (negsuc n) = 2 ^ 32 - 1 - n

-- A `char`, which is signed, against a constant from 0 on.
unfoldable pub char_is : (c constant : ℕ) → Bool
char_is c constant = if ltb c 128 then c == constant else false

-- A division by zero raises interrupt 0, whose handler goes back to the division.
unfoldable pub divide : ℕ → ℕ → Outcome ℕ
divide n zero = hang
divide n (suc d) = done (n / suc d)

-- `sizeof(Fat_Directory_Item)`, `sizeof(Fat_Directory)`, `sizeof(Fat_Item)`,
-- `sizeof(Fat_File_Descriptor)`, `sizeof(Fat_Header)` and `sizeof(Fat_Private)`
abbrev pub directory_item_size : ℕ
directory_item_size = 32

abbrev pub directory_size : ℕ
directory_size = 16

abbrev pub item_size : ℕ
item_size = 8

abbrev pub descriptor_size : ℕ
descriptor_size = 8

abbrev pub header_size : ℕ
header_size = 62

abbrev pub private_size : ℕ
private_size = 92

-- The fields of a directory item; its name stands at its beginning.
abbrev pub ext_of : (item : ℕ) → ℕ
ext_of item = item + 8

unfoldable pub attributes_of : Ram → (item : ℕ) → ℕ
attributes_of ram item = ram (item + 11)

unfoldable pub low_cluster_of : Ram → (item : ℕ) → ℕ
low_cluster_of ram item = load16 ram (item + 26)

unfoldable pub filesize_of : Ram → (item : ℕ) → ℕ
filesize_of ram item = load32 ram (item + 28)

-- A bit of the attributes is set.
unfoldable pub has_attribute : Ram → (item attribute : ℕ) → Bool
has_attribute ram item attribute = not (bit_and (attributes_of ram item) attribute == 0)

unfoldable pub get_first_cluster : Ram → (item : ℕ) → ℕ
get_first_cluster ram item = bit_or (load16 ram (item + 20)) (low_cluster_of ram item)

-- `item->item` or `item->directory`, which share their place, and `item->type`.
unfoldable pub target_of : Ram → (item : ℕ) → ℕ
target_of ram item = load32 ram item

unfoldable pub type_of : Ram → (item : ℕ) → ℕ
type_of ram item = load32 ram (item + 4)

-- `disk->fs_private`, and the fields of the private data: those of the header, the end of the root
-- directory, and the streams.
unfoldable pub private_of : Ram → (disk : ℕ) → ℕ
private_of ram disk = load32 ram (disk + 12)

unfoldable pub sectors_per_cluster_of : Ram → (private : ℕ) → ℕ
sectors_per_cluster_of ram private = ram (private + 13)

unfoldable pub reserved_sectors_of : Ram → (private : ℕ) → ℕ
reserved_sectors_of ram private = load16 ram (private + 14)

unfoldable pub sectors_big_of : Ram → (private : ℕ) → ℕ
sectors_big_of ram private = load32 ram (private + 32)

abbrev pub root_directory_of : (private : ℕ) → ℕ
root_directory_of private = private + 64

unfoldable pub cluster_read_stream_of : Ram → (private : ℕ) → ℕ
cluster_read_stream_of ram private = load32 ram (private + 80)

unfoldable pub fat_read_stream_of : Ram → (private : ℕ) → ℕ
fat_read_stream_of ram private = load32 ram (private + 84)

unfoldable pub directory_stream_of : Ram → (private : ℕ) → ℕ
directory_stream_of ram private = load32 ram (private + 88)

unfoldable pub sector_to_absolute_pos : Ram → (disk sector : ℕ) → ℕ
sector_to_absolute_pos ram disk sector = w32 (sector * sector_size_of ram disk)

unfoldable pub root_directory_sector : Ram → (private : ℕ) → ℕ
root_directory_sector ram private =
    w32 (ram (private + 16) * load16 ram (private + 22) + reserved_sectors_of ram private)

unfoldable pub cluster_to_sector : Ram → (private cluster : ℕ) → ℕ
cluster_to_sector ram private cluster =
    let relative_sector_location : ℕ =
      w32 (w32 (cluster + 2 ^ 32 - 2) * sectors_per_cluster_of ram private) in
    w32 (load32 ram (private + 76) + relative_sector_location)

unfoldable pub get_cluster_size : Ram → (disk : ℕ) → ℕ
get_cluster_size ram disk =
    sector_to_absolute_pos ram disk (sectors_per_cluster_of ram (private_of ram disk))

module _ (ports : Ports) (patience primary_disk : ℕ) where
  open ports use {Device}

  -- `disk_stream_seek`, with its error, and then `disk_stream_read`, with its own.
  unfoldable pub seek_read :
      Machine
      → Device
      → (stream position buffer n : ℕ) (seek_error read_error : ℤ) → Outcome (ℤ × Machine × Device)
  seek_read m d stream position buffer n seek_error read_error =
      let (status, ram) = Stream.seek m.ram stream position in
      if not (is_ok status) then done (seek_error, record m { ram = ram }, d) else do
        (code, m', d') ←
            Stream.read ports patience primary_disk (record m { ram = ram }) d stream buffer n
        done (if is_ok code then ok else read_error, m', d')
