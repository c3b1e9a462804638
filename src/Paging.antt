-- ===== src/Paging.antt =====
-- Page tables, src/lib/memory/paging.c and src/lib/memory/paging.h: a directory of 1024 tables of
-- 1024 entries, both in memory. The two assembly routines of paging.asm load `cr3` and set the
-- paging bit of `cr0`; they are no part of this file.
pub mod Indexes
pub mod Set
pub mod Fill
pub mod Tests
use koko_os.Prelude.{
  ℕ, zero, suc, ◌+◌, ◌-◌, ◌*◌, ◌/◌, ◌%◌, ◌^◌, Bool, true, false, not, ltb, ◌==◌, if◌then◌else◌, ℤ,
  pos, negsuc, minus, Outcome, done, hang, ◌>>=◌, bit_and, bit_or,
}
use koko_os.Ram.{Ram, store32, load32}
use koko_os.Memory
use koko_os.Memory.{Machine}

abbrev pub page_is_present : ℕ
page_is_present = 0x1

abbrev pub page_is_writable : ℕ
page_is_writable = 0x2

abbrev pub page_allow_access_to_all : ℕ
page_allow_access_to_all = 0x4

abbrev pub page_entries : ℕ
page_entries = 1024

abbrev pub page_size : ℕ
page_size = 4096

abbrev pub ok : ℤ
ok = pos 0

abbrev pub memory_not_aligned : ℤ
memory_not_aligned = minus 401

pub record IndexInfo : Type 0 where
  pub error_code : ℤ
  pub table_index : ℕ
  pub directory_index : ℕ

-- The inner loop of `paging_create_chunk`, with the rounds that are left: `entry[j] = …`.
unfoldable pub fill_table : ℕ → Ram → (entry offset flags j : ℕ) → Ram
fill_table zero ram entry offset flags j = ram
fill_table (suc n) ram entry offset flags j =
    fill_table n (store32 ram (entry + 4 * j) (bit_or ((offset + j * page_size) % 2 ^ 32) flags))
      entry offset flags (j + 1)

-- The outer loop, with the rounds that are left: a table for each entry of the directory.
unfoldable pub fill_directory : ℕ → Machine → (directory offset flags i : ℕ) → Outcome Machine
fill_directory zero m directory offset flags i = done m
fill_directory (suc n) m directory offset flags i = do
  (entry, m') ← Memory.malloc m (4 * page_entries)
  let ram = fill_table page_entries m'.ram entry offset flags 0
  let word = bit_or (bit_or entry flags) page_is_writable
  fill_directory n (record m' { ram = store32 ram (directory + 4 * i) word }) directory
      ((offset + page_entries * page_size) % 2 ^ 32) flags (i + 1)

-- The address of the chunk, whose one field is the address of the directory.
unfoldable pub create_chunk : Machine → (flags : ℕ) → Outcome (ℕ × Machine)
create_chunk m flags = do
  (directory, m') ← Memory.malloc m (4 * page_entries)
  m'' ← fill_directory page_entries m' directory 0 flags 0
  (chunk, m''') ← Memory.zalloc m'' 4
  done (chunk, record m''' { ram = store32 m'''.ram chunk directory })

unfoldable pub is_aligned : ℕ → Bool
is_aligned address = address % page_size == 0

unfoldable pub get_indexes : ℕ → IndexInfo
get_indexes virtual_address =
    if not (is_aligned virtual_address)
    then record { error_code = memory_not_aligned; table_index = 0; directory_index = 0 }
    else record {
      error_code = ok;
      table_index = virtual_address % (page_entries * page_size) / page_size;
      directory_index = virtual_address / (page_entries * page_size);
    }

-- `paging_set` behind its first test, by the status of the indexes.
unfoldable pub set_at : Ram → (directory : ℕ) → IndexInfo → (flags : ℕ) → ℤ × Ram
set_at ram directory info flags = elim info.error_code [
  | pos zero ↦
      let entry : ℕ = load32 ram (directory + 4 * info.directory_index) in
      let table : ℕ = bit_and entry 0xfffff000 in
      (ok, store32 ram (table + 4 * info.table_index) flags)
  | other ↦ (other, ram)
]

-- The status and the memory afterwards.
unfoldable pub set : Ram → (directory virtual_address flags : ℕ) → ℤ × Ram
set ram directory virtual_address flags =
    if not (is_aligned virtual_address)
    then (memory_not_aligned, ram)
    else set_at ram directory (get_indexes virtual_address) flags
