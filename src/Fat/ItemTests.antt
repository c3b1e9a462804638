-- ===== src/Fat/ItemTests.antt =====
-- An open file: its descriptor at 0x8000, the item at 0x8100, the directory item at 0x8200, which is
-- read-only, has 100 bytes and the name `A1.C`. The position is 10. The directory at 0x8300 has that
-- item only, and the text at 0x8400 is `B`.
use koko_os.Prelude.{
  ℕ, ◌+◌, ◌<◌, ◌≤◌, ◌≡◌, ◌≢◌, refl, inl, inr, ◌⊎◌, arith, done, true, false, ◌==◌, if◌then◌else◌,
  [], ◌∷◌, ℤ,
}
use koko_os.Ram.{Ram, load32}
use koko_os.Heap.Create.{heap_of}
use koko_os.Memory.{Machine}
use koko_os.Disk.{ok, invalid_argument}
use koko_os.Disk.Drive.{drive_ports, fresh}
use koko_os.File.{Files, seek_mode_cur, fs_stat, find_file_descriptor}
use koko_os.Fat.{target_of, type_of, filesize_of}
use koko_os.Fat.Names.{ends_field}
use koko_os.Fat.Fields.{IsField}
use koko_os.Fat.NameText.{Named, get_full_relative_filename_lem}
use koko_os.Fat.Files.{item_of, position_of, file_item_of, is_file}
use koko_os.Fat.Seek.{Sought, goal, seek-goal}
use mathlib.Core.List.{map}
use koko_os.Text.Compare.{fold_case}
use koko_os.Fat.Items.{find_item_in_directory}
use koko_os.Fat.Find.{IsDirectory, full_name, find_item_in_directory-none}
use koko_os.Fat.Stat.{Stated, fs_stat-Stated}
use koko_os.Fat.System.{fat16_systems}
use koko_os.Fat.Tests.{places}

abbrev ram : Ram
ram b =
    if b == 0x8001
    then 0x81
    else if b == 0x8004
    then 10
    else if b == 0x8101
    then 0x82
    else if b == 0x8104
    then 1
    else if b == 0x8200
    then 65
    else if b == 0x8201
    then 49
    else if b == 0x8202
    then 0x20
    else if b == 0x8208
    then 67
    else if b == 0x8209
    then 0x20
    else if b == 0x820B
    then 0x01
    else if b == 0x821C
    then 100
    else if b == 0x8301
    then 0x82
    else if b == 0x8304
    then 1
    else if b == 0x8400
    then 66
    else 0

IsField-name : IsField ram 0x8200 (65 ∷ 49 ∷ [])
unfolding ends_field
IsField-name = (refl, refl, (refl, refl, refl))

IsField-ext : IsField ram 0x8208 (67 ∷ [])
unfolding ends_field
IsField-ext = (refl, refl, refl)

get_full_relative_filename_lem_example : Named ram 0x8200 0x9000 256 (65 ∷ 49 ∷ 46 ∷ 67 ∷ [])
get_full_relative_filename_lem_example =
    get_full_relative_filename_lem ram 0x8200 0x9000 256 (65 ∷ 49 ∷ []) (67 ∷ []) IsField-name
      IsField-ext (omega arith) (omega arith) (omega arith) (inr (omega arith))

a_file : is_file ram 0x8000 ≡ true
unfolding is_file type_of item_of load32
a_file = refl

item_there : file_item_of ram 0x8000 ≡ 0x8200
unfolding file_item_of target_of item_of load32
item_there = refl

size_there : filesize_of ram 0x8200 ≡ 100
unfolding filesize_of load32
size_there = refl

file_size : filesize_of ram (file_item_of ram 0x8000) ≡ 100
file_size = rw item_there size_there

position : position_of ram 0x8000 ≡ 10
unfolding position_of load32
position = refl

seek-goal_example :
    Sought ram 0x8000 20 seek_mode_cur
      (goal (position_of ram 0x8000) (filesize_of ram (file_item_of ram 0x8000)) 20 seek_mode_cur)
seek-goal_example =
    seek-goal ram 0x8000 20 seek_mode_cur a_file (omega (arith, file_size))
      (omega (arith, file_size, position))

abbrev files : Files
files = record {
  file_systems = λ i. 0;
  file_descriptors = λ i. if i == 0 then 0x7800 else 0;
  at = λ a. record { index = 1; fs = 0; disk = 0x7000; private_data = 0x8000 };
}

abbrev machine : Machine
machine = record {
  ram = ram;
  heap = heap_of 0x2000 (record { total = 4; entries = 0x1000 });
  heap_table = record { total = 4; entries = 0x1000 };
}

found : find_file_descriptor files 1 ≢ 0
unfolding find_file_descriptor
found e = omega (arith, e)

fs_stat-Stated_example :
    (ram' : Ram) × (code : ℤ) × (fs_stat
        (fat16_systems drive_ports 10 0x7000 places)
        files
        (machine, fresh)
        1
        0x9000
      ≡ done (code, (record machine { ram = ram' }, fresh)))
    × (((code ≡ ok) × (is_file ram 0x8000 ≡ true) × Stated ram 0x8000 0x9000 ram')
        ⊎ ((code ≡ invalid_argument) × (ram' ≡ ram) × (is_file ram 0x8000 ≡ false)))
fs_stat-Stated_example =
    fs_stat-Stated drive_ports 10 0x7000 places files machine fresh 1 0x9000 found
      (omega (arith, file_size)) (inl (omega (arith, item_there)))

directory : IsDirectory ram 0x8300 0x8200 1 (λ i. 65 ∷ 49 ∷ []) (λ i. 67 ∷ [])
unfolding load32 ends_field
directory = record {
  items_there = refl;
  total_there = refl;
  fits = omega arith;
  names = λ i hi. let z : i ≡ 0 = omega arith in rw z (refl, refl, (refl, refl, refl));
  extensions = λ i hi. let z : i ≡ 0 = omega arith in rw z (refl, refl, refl);
  short = λ i hi. (omega arith, omega arith);
  bytes = λ i hi. ((omega arith, (omega arith, tt)), (omega arith, tt));
}

other_name :
    (i : ℕ)
    → i < 1
    → map fold_case (
        full_name drive_ports 10 0x7000 places 0x7000 0x8300 0x8400 0x8200 1
          (λ i. 65 ∷ 49 ∷ [])
          (λ i. 67 ∷ [])
          (66 ∷ [])
          i)
      ≢ map fold_case (66 ∷ [])
other_name i hi e = absurd (cc)

find_item_in_directory-none_example :
    (ram' : Ram) × (find_item_in_directory drive_ports 10 0x7000 places machine fresh 0x7000 0x8300
        0x8400
      ≡ done (0, record machine { ram = ram' }, fresh))
    × ((b : ℕ) → (b < 0x7500) ⊎ (0x7500 + 256 ≤ b) → ram' b ≡ ram b)
find_item_in_directory-none_example =
    find_item_in_directory-none drive_ports 10 0x7000 places 0x7000 0x8300 0x8400 0x8200 1
      (λ i. 65 ∷ 49 ∷ []) (λ i. 67 ∷ []) (66 ∷ []) (inr (omega arith)) (inr (omega arith))
      (inr (omega arith)) (omega arith) (omega arith, tt) other_name machine fresh directory
      (refl, (λ e. omega (arith, e)), refl) (omega arith)
