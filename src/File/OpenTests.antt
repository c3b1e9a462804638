-- ===== src/File/OpenTests.antt =====
-- Opening a file for writing on a mounted disk with an empty root directory.
use koko_os.Prelude.{
  inr, ◌==◌, if◌then◌else◌, [], ◌∷◌, ℕ, ◌+◌, ◌^◌, ◌<◌, ◌≤◌, ◌≡◌, ◌≢◌, refl, ◌⊎◌, arith, Outcome,
  done, hang, kernel_panic,
}
use koko_os.Text.View.{IsText}
use koko_os.File.Init.{Fresh, fs_init-Fresh}
use koko_os.Ram.{Ram, load32, store32, memset, memset_loop}
use koko_os.Heap
use koko_os.Memory
use koko_os.Memory.{Machine}
use koko_os.Disk.Drive.{Drive, drive_ports, fresh}
use koko_os.Text
use koko_os.Fat
use koko_os.Fat.Items
use koko_os.Fat.Files
use koko_os.Fat.Files.{file_mode_write}
use koko_os.Fat.Tests.{places, machine}
use koko_os.File.{Files, max_file_descriptors}
use koko_os.File.Table.{IsFiles}
use koko_os.File.Open.{file_descriptor_size, open_path, fs_init}
use koko_os.File.OpenPath.{Entered, open_path-Entered}

abbrev machine_of : Outcome (ℕ × Machine × Drive) → Machine
machine_of (done r) = r.1
machine_of (kernel_panic s) = machine
machine_of hang = machine

abbrev opened : Machine
opened =
    machine_of
      (Files.open_ drive_ports 10 0x7000 places machine fresh 0x7000 0x7800 file_mode_write)

open_there :
    Files.open_ drive_ports 10 0x7000 places machine fresh 0x7000 0x7800 file_mode_write
    ≡ done (0x2000, opened, fresh)
unfolding Files.open_ Files.open_for_write Files.new_file_item Memory.zalloc Heap.malloc
    Heap.request_memory Heap.align_amount_of_bytes_requested Heap.search_loop Heap.search_step
    Heap.entry_is_free Heap.entry_is_taken Heap.get_entry load32 Heap.found_memory Heap.mark_loop
    Heap.malloc_entry Heap.set_entry store32 Heap.get_address_from_block memset memset_loop
    Items.get_directory_entry Items.find_item_in_directory Items.find_loop Fat.private_of
    Text.str_ref_copy Text.str_ref_copy_loop
open_there = refl

abbrev zeroed : Outcome (ℕ × Machine) → Machine
zeroed (done r) = r.1
zeroed (kernel_panic s) = machine
zeroed hang = machine

abbrev after : Machine
after = zeroed (Memory.zalloc opened 16)

given : Memory.zalloc opened file_descriptor_size ≡ done (0x5000, after)
unfolding Files.open_ Files.open_for_write Files.new_file_item Memory.zalloc Heap.malloc
    Heap.request_memory Heap.align_amount_of_bytes_requested Heap.search_loop Heap.search_step
    Heap.entry_is_free Heap.entry_is_taken Heap.get_entry load32 Heap.found_memory Heap.mark_loop
    Heap.malloc_entry Heap.set_entry store32 Heap.get_address_from_block memset memset_loop
    Items.get_directory_entry Items.find_item_in_directory Items.find_loop Fat.private_of
    Text.str_ref_copy Text.str_ref_copy_loop
given = refl

abbrev no_files : Files
no_files = record {
  file_systems = λ i. 0;
  file_descriptors = λ i. 0;
  at = λ a. record { index = 0; fs = 0; disk = 0; private_data = 0 };
}

no_files-IsFiles : IsFiles no_files
no_files-IsFiles = record { numbered = λ i hi nonzero. absurd (nonzero refl) }

open_path-Entered_example :
    ((s' : Files) × (index : ℕ) × (open_path drive_ports 10 0x7000 places no_files machine fresh
          0x7000 0x7800 file_mode_write
        ≡ done (index, s', after, fresh))
      × (0x2000 < 2 ^ 31)
      × Entered no_files s' 0x5000 (load32 after.ram (0x7000 + 8)) 0x7000 0x2000 index)
    ⊎ ((open_path drive_ports 10 0x7000 places no_files machine fresh 0x7000 0x7800 file_mode_write
          ≡ done (0, no_files, opened, fresh))
        × ((2 ^ 31 ≤ 0x2000)
            ⊎ ((i : ℕ) → i < max_file_descriptors → no_files.file_descriptors i ≢ 0)))
open_path-Entered_example =
    open_path-Entered drive_ports 10 0x7000 places no_files machine opened fresh fresh 0x7000 0x7800
      0x2000 file_mode_write open_there after 0x5000 no_files-IsFiles (λ e. omega (arith, e))
      (λ i hi e. omega (arith, e)) given

-- The name `FAT`.
abbrev named : Machine
named = record machine {
  ram = λ b. if b == 0x7720 then 70 else if b == 0x7721 then 65 else if b == 0x7722 then 84 else 0;
}

fs_init-Fresh_example :
    (s' : Files) × (ram' : Ram) × (fs_init drive_ports 10 0x7000 places no_files named
      ≡ done (s', record named { ram = ram' }))
    × Fresh s' 0x7730
    × IsText ram' (0x7730 + 28) (70 ∷ 65 ∷ 84 ∷ [])
    × ((b : ℕ) → (b < 0x7730 + 28) ⊎ (0x7730 + 28 + 3 < b) → ram' b ≡ named.ram b)
fs_init-Fresh_example =
    fs_init-Fresh drive_ports 10 0x7000 places no_files named (70 ∷ 65 ∷ 84 ∷ [])
      (λ e. omega (arith, e))
      (
        refl,
        (λ e. omega (arith, e)),
        (refl, (λ e. omega (arith, e)), (refl, (λ e. omega (arith, e)), refl)),
      )
      (omega arith) (inr (omega arith))
