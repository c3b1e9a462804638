-- ===== src/Fat/CloseTests.antt =====
-- Closing a file on a heap of four blocks: FAT16's descriptor is in block 0, its item in block 1, the
-- directory item in block 2, and the descriptor of the table in block 3.
use koko_os.Prelude.{
  ℕ, zero, suc, ◌<◌, ◌≤◌, ◌≡◌, refl, inl, inr, ◌⊎◌, arith, true, false, ◌==◌, if◌then◌else◌,
  lt-cases, ap, ◌∙◌,
}
use koko_os.Ram.{Ram, load32}
use koko_os.Heap.{get_entry, entry_has_next}
use koko_os.Heap.Create.{heap_of}
use koko_os.Heap.Entries.{IsFreeable}
use koko_os.Heap.Valid.{IsTable, first_entry}
use koko_os.Memory.{Machine}
use koko_os.Fat.{target_of, type_of}
use koko_os.Fat.Files.{item_of, file_item_of, is_file}
use koko_os.Disk.Drive.{drive_ports, fresh}
use koko_os.File.{Files, find_file_descriptor}
use koko_os.File.Table.{IsFiles}
use koko_os.Fat.Tests.{places}
use koko_os.Fat.CloseFile.{ClosedFile, fs_close-ClosedFile}
use koko_os.Fat.Close.{Closed, close-Closed}

abbrev ram : Ram
ram b =
    if b == 0x1000
    then 0x41
    else if b == 0x1004
    then 0x41
    else if b == 0x1008
    then 0x41
    else if b == 0x100C
    then 0x41
    else if b == 0x2001
    then 0x30
    else if b == 0x3001
    then 0x40
    else if b == 0x3004
    then 1
    else 0

abbrev machine : Machine
machine = record {
  ram = ram;
  heap = heap_of 0x2000 (record { total = 4; entries = 0x1000 });
  heap_table = record { total = 4; entries = 0x1000 };
}

layout : IsFreeable machine.heap
layout = record { layout = omega arith; half = omega arith }

first : (i : ℕ) → i < 4 → get_entry machine.heap ram i ≡ first_entry
unfolding get_entry load32
first zero h = refl
first (suc zero) h = refl
first (suc (suc zero)) h = refl
first (suc (suc (suc zero))) h = refl
first (suc (suc (suc (suc i)))) h = absurd (omega arith)

behind_table : get_entry machine.heap ram 4 ≡ 0
unfolding get_entry load32
behind_table = refl

known :
    (i : ℕ)
    → i ≤ 4
    → (get_entry machine.heap ram i ≡ first_entry) ⊎ (get_entry machine.heap ram i ≡ 0)
known i h = elim (lt-cases i 4) [
  | inl inside ↦ inl (first i inside)
  | inr at_end ↦
      let e : i ≡ 4 = omega arith in inr (ap (get_entry machine.heap ram) e ∙ behind_table)
]

silent : (e : ℕ) → e ≡ 0 → entry_has_next e ≡ false
unfolding entry_has_next
silent e h = rw h refl

table : IsTable 4 (get_entry machine.heap ram)
table = record {
  shape = λ i hi. elim (known i (omega arith)) [ inl e ↦ inr (inl e) | inr e ↦ inl e ];
  before = λ i hi e. absurd (omega (arith, known (suc i) (omega arith)));
  zeroth = λ e. omega (arith, first 0 (omega arith));
  after = λ i hi e. absurd (omega (arith, known i (omega arith)));
  behind = silent (get_entry machine.heap ram 4) behind_table;
}

a_file : is_file ram 0x2000 ≡ true
unfolding is_file type_of item_of load32
a_file = refl

item_there : item_of ram 0x2000 ≡ 0x3000
unfolding item_of load32
item_there = refl

file_item_there : file_item_of ram 0x2000 ≡ 0x4000
unfolding file_item_of target_of item_of load32
file_item_there = refl

close-Closed_example : Closed machine 0x2000 2 1 0
close-Closed_example =
    close-Closed machine layout table 0x2000 2 1 0 a_file (omega arith) (omega arith) (omega arith)
      (λ e. omega (arith, e)) (λ e. omega (arith, e)) (λ e. omega (arith, e)) file_item_there
      item_there (omega arith) (first 2 (omega arith)) (first 1 (omega arith))
      (first 0 (omega arith))

abbrev files : Files
files = record {
  file_systems = λ i. 0;
  file_descriptors = λ i. if i == 0 then 0x5000 else 0;
  at = λ a. record { index = 1; fs = 0; disk = 0x7000; private_data = 0x2000 };
}

files-IsFiles : IsFiles files
files-IsFiles = record { numbered = λ i hi nonzero. ground arith }

found : find_file_descriptor files 1 ≡ 0x5000
unfolding find_file_descriptor
found = refl

fs_close-ClosedFile_example : ClosedFile drive_ports 10 0x7000 places files machine fresh 1 2 1 0 3
fs_close-ClosedFile_example =
    fs_close-ClosedFile drive_ports 10 0x7000 places files machine fresh 1 0x2000 2 1 0 3
      files-IsFiles layout table (λ e. omega (arith, e, found)) refl a_file (omega arith)
      (omega arith) (omega arith) (omega arith) (λ e. omega (arith, e)) (λ e. omega (arith, e))
      (λ e. omega (arith, e)) (λ e. omega (arith, e)) (λ e. omega (arith, e))
      (λ e. omega (arith, e)) file_item_there item_there (omega arith) (omega (arith, found))
      (first 2 (omega arith)) (first 1 (omega arith)) (first 0 (omega arith))
      (first 3 (omega arith))
