-- ===== src/Fat/Tests.antt =====
-- A mounted disk above a heap of four blocks: the disk's structure at 0x7000, the private data at
-- 0x7100, the stream of the file allocation table at 0x7200. Sector 1 is the first of the table,
-- and a cluster is one sector. The simulated drive holds the disk. A file is open at 0x7A00, from
-- cluster 2 on, at position 20.
use koko_os.Prelude.{
  ℕ, ◌+◌, ◌-◌, ◌*◌, ◌/◌, ◌<◌, ◌≤◌, ◌≡◌, ◌≢◌, ◌∙◌, refl, sym, ap, inl, inr, arith, false, true, ltb,
  ◌==◌, if◌then◌else◌,
}
use koko_os.Ram.{Ram, load32}
use koko_os.Heap.{HeapTable, get_entry, entry_has_next}
use koko_os.Heap.Create.{heap_of, Zeros-IsTable}
use koko_os.Memory.{Machine}
use koko_os.Disk.{load16}
use koko_os.Disk.Drive.{Drive, drive_ports, drive, fresh, fresh-Idle, content-drive}
use koko_os.Stream.{disk_of, sector_size_of}
use koko_os.Fat.{
  Places, private_of, fat_read_stream_of, reserved_sectors_of, get_cluster_size,
  sector_to_absolute_pos, sectors_per_cluster_of,
}
use koko_os.Fat.Entries.{get_cluster_for_offset, get_free_cluster}
use koko_os.Fat.Clusters.{FatTable, Yields, walk, cluster_or_fail, get_cluster_for_offset-walk}
use koko_os.Fat.Free.{last_of, get_free_cluster-first}
use koko_os.Fat.Files.{position_of}
use koko_os.Fat.ReadFile.{start_of}
use koko_os.Fat.Mounted.{IsPlaced, IsHeld, IsMounted}
use koko_os.Fat.TableRead.{Framed, fat_table}

abbrev pub places : Places
places = record {
  item = 0x7400;
  result = 0x7300;
  tmp_filename = 0x7500;
  koko_literal = 0x7700;
  txt_literal = 0x7710;
  name_literal = 0x7720;
  fat16_file_system = 0x7730;
}

abbrev cell : ℕ → ℕ
cell i =
    if i == 0x005
    then 0x02
    else if i == 0x00D
    then 0x71
    else if i == 0x10D
    then 1
    else if i == 0x10E
    then 1
    else if i == 0x120
    then 16
    else if i == 0x155
    then 0x72
    else if i == 0x205
    then 0x70
    else if i == 0x14C
    then 5
    else if i == 0x150
    then 0x80
    else if i == 0x151
    then 0x72
    else if i == 0x285
    then 0x70
    else if i == 0xA01
    then 0x7B
    else if i == 0xA04
    then 20
    else if i == 0xB01
    then 0x7C
    else if i == 0xB04
    then 1
    else if i == 0xC1A
    then 2
    else 0

abbrev ram : Ram
ram b = if ltb b 0x7000 then 0 else cell (b - 0x7000)

abbrev table : HeapTable
table = record { total = 4; entries = 0x1000 }

abbrev pub machine : Machine
machine = record { ram = ram; heap = heap_of 0x2000 table; heap_table = table }

entry_zero : (i : ℕ) → i ≤ 4 → get_entry machine.heap ram i ≡ 0
unfolding get_entry load32
entry_zero i h =
    let a : ltb (0x1000 + 4 * i) 0x7000 ≡ true = ground arith in
    let b : ltb (0x1000 + 4 * i + 1) 0x7000 ≡ true = ground arith in
    let c : ltb (0x1000 + 4 * i + 2) 0x7000 ≡ true = ground arith in
    let d : ltb (0x1000 + 4 * i + 3) 0x7000 ≡ true = ground arith in rw (a, b, c, d) refl

silent : (e : ℕ) → e ≡ 0 → entry_has_next e ≡ false
unfolding entry_has_next
silent e h = rw h refl

placed : IsPlaced 0x7000 0x7100 0x7200 0x7300
placed = record {
  some_stream = λ e. omega (arith, e);
  disk_stream = inl (omega arith);
  disk_result = inl (omega arith);
  private_stream = inl (omega arith);
  private_result = inl (omega arith);
  stream_result = inl (omega arith);
}

-- What lies above the heap is in use.
held : (a n : ℕ) → 0x7000 ≤ a → IsHeld machine.heap ram a n
held a n h = record { clear = inr (omega arith); used = λ b lo hi. inr (inl (omega arith)) }

private_data : private_of ram 0x7000 ≡ 0x7100
unfolding private_of load32
private_data = refl

fat_stream : fat_read_stream_of ram 0x7100 ≡ 0x7200
unfolding fat_read_stream_of load32
fat_stream = refl

reserved_sectors : reserved_sectors_of ram 0x7100 ≡ 1
unfolding reserved_sectors_of load16
reserved_sectors = refl

real : disk_of ram 0x7200 ≡ 0x7000
unfolding disk_of load32
real = refl

mounted : IsMounted 0x7000 0x7100 0x7200 0x7300 0x7000 1 machine
mounted = record {
  layout = record { layout = omega arith; half = omega arith };
  table =
      Zeros-IsTable 4 (get_entry machine.heap ram) (λ i hi. entry_zero i (omega arith))
        (silent (get_entry machine.heap ram 4) (entry_zero 4 (omega arith)));
  room = (0, omega arith, entry_zero 0 (omega arith));
  private_data = private_data;
  fat_stream = fat_stream;
  reserved_sectors = reserved_sectors;
  real = real;
  held_disk = held 0x7000 16 (omega arith);
  held_private = held 0x7100 92 (omega arith);
  held_stream = held 0x7200 8 (omega arith);
  held_result = held 0x7300 2 (omega arith);
}

abbrev bytes : ℕ → ℕ
bytes = drive.content fresh

abbrev on_disk : FatTable drive_ports 10 0x7000 places 0x7000
on_disk =
    fat_table drive_ports 10 drive 0x7000 places 0x7000 0x7100 0x7200 1 placed machine bytes
      (drive.content-lt fresh)

unchanged : Framed drive_ports 10 drive 0x7000 places 0x7000 0x7100 0x7200 1 placed machine ram
unchanged =
    (mounted, record { entries = λ k hk. refl; kept = λ b off out_stream out_result used. refl })

keeping : on_disk.Keeps machine fresh
keeping = (ram, refl, unchanged, refl, fresh-Idle)

one_sector : get_cluster_size ram 0x7000 ≡ 512
unfolding get_cluster_size sector_to_absolute_pos sectors_per_cluster_of private_of sector_size_of
    load32
one_sector = refl

get_cluster_for_offset-walk_example :
    Yields drive_ports 10 0x7000 places 0x7000 on_disk
      (cluster_or_fail (walk on_disk.entry (1100 / 512) 2))
      (get_cluster_for_offset drive_ports 10 0x7000 places machine fresh 0x7000 2 1100)
get_cluster_for_offset-walk_example =
    get_cluster_for_offset-walk drive_ports 10 0x7000 places 0x7000 on_disk machine fresh 2 1100 511
      keeping one_sector

-- Cluster 3 is taken, and cluster 4 is free.
taken : (j : ℕ) → j < 1 → on_disk.entry (3 + j) ≢ 0
taken j h e =
    let z : j ≡ 0 = omega arith in
    let f : on_disk.entry (3 + 0) ≡ 0 = ap (λ i. on_disk.entry (3 + i)) (sym z) ∙ e in
    omega (arith, f, content-drive fresh 6)

free : on_disk.entry (3 + 1) ≡ 0
free = omega (arith, content-drive fresh 8, content-drive fresh 9)

get_free_cluster-first_example :
    Yields drive_ports 10 0x7000 places 0x7000 on_disk
      (if ltb (last_of drive_ports 10 0x7000 places 0x7000 on_disk machine 512) (3 + 1)
        then 65487
        else 3 + 1)
      (get_free_cluster drive_ports 10 0x7000 places machine fresh 0x7000 700)
get_free_cluster-first_example =
    get_free_cluster-first drive_ports 10 0x7000 places 0x7000 on_disk machine fresh 700 511 1
      keeping one_sector (omega arith) (omega arith) taken free

abbrev start : ℕ
start =
    start_of drive_ports 10 drive 0x7000 places 0x7000 0x7100 0x7200 1 placed ram 2
      (position_of ram 0x7A00) 512
