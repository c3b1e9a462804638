-- ===== src/Stream/Read.antt =====
-- `disk_stream_read` against the bytes of the disk.
use koko_os.Prelude.{
  ℕ, ◌+◌, ◌*◌, ◌/◌, ◌%◌, ◌^◌, ◌<◌, ◌≤◌, ◌≡◌, refl, ◌∙◌, ap, arith, ◌==◌, false, ℤ, Outcome, done,
}
use koko_os.Ram.{Ram}
use koko_os.Ram.Words.{load32_congr}
use koko_os.Heap
use koko_os.Heap.{Heap, block_size, get_entry, w32}
use koko_os.Heap.Entries.{OffTable, IsFreeable}
use koko_os.Heap.Valid.{IsTable}
use koko_os.Heap.Calls.{blocks_for}
use koko_os.Heap.Reuse.{Apart, Clear, free-Returned}
use koko_os.Memory
use koko_os.Memory.{Machine}
use koko_os.Ports.{Ports}
use koko_os.Disk.{ok, read_block}
use koko_os.Disk.Ata.{Ata}
use koko_os.Disk.Read.{read_block-Read}
use koko_os.Stream.{pos_of, disk_of, get_affected_sectors, copy_out, advance, read_loaded, read}
use koko_os.Stream.Copy.{copy_out_outside, copy_out_inside, advance_outside, pos_of-advance}

-- The sectors of a length below 2^32 are the least number that has as many bytes.
pub get_affected_sectors_lem :
    (n : ℕ)
    → n < 2 ^ 32
    → (n ≤ 512 * get_affected_sectors n) × (512 * get_affected_sectors n < n + 512)
unfolding get_affected_sectors
get_affected_sectors_lem n h = ground arith

pub pos_of-congr :
    (ram ram' : Ram) (stream : ℕ)
    → ((b : ℕ) → stream ≤ b → b < stream + 4 → ram' b ≡ ram b)
    → pos_of ram' stream ≡ pos_of ram stream
unfolding pos_of
pos_of-congr ram ram' stream same = load32_congr ram ram' stream same

module _ (ports : Ports) (patience : ℕ) (ata : Ata ports patience) (primary_disk : ℕ) where
  open ports use {Device}
  open ata use {content}

  -- What `disk_stream_read` of `n` bytes from position `position` leaves.
  pub record StreamRead (m : Machine) (d : Device) (stream buffer n local : ℕ)
      (run : Outcome (ℤ × Machine × Device)) : Type 0 where
    pub ram' : Ram
    pub d' : Device
    pub returns : run ≡ done (ok, record m { ram = ram' }, d')
    pub bytes : (i : ℕ) → i < n → ram' (buffer + i) ≡ content d (pos_of m.ram stream + i)
    pub position : pos_of ram' stream ≡ w32 (pos_of m.ram stream + n)
    pub table : IsTable m.heap.table.total (get_entry m.heap ram')
    pub same : content d' ≡ content d
    pub idle : ata.Idle d'
    pub kept :
        (b : ℕ)
        → OffTable m.heap b
        → Apart b 1 stream 4
        → Apart b 1 buffer n
        → Apart b 1 local (blocks_for (512 * get_affected_sectors n) * block_size)
        → ram' b ≡ m.ram b
    pub restored :
        512 * get_affected_sectors n ≤ block_size
        → (k : ℕ) → k ≤ m.heap.table.total
        → get_entry m.heap ram' k ≡ get_entry m.heap m.ram k

  module _ (m : Machine) (d : Device) (stream buffer n local : ℕ) (ram₁ : Ram)
      (layout : IsFreeable m.heap) (v : IsTable m.heap.table.total (get_entry m.heap m.ram)) where
    -- The run, from what its calls return.
    read-calls :
        (ram₂ ram₄ : Ram) (d' : Device)
        → 0 < n
        → Heap.malloc m.heap m.ram (w32 (512 * get_affected_sectors n)) ≡ done (local, ram₁)
        → read_block ports patience primary_disk
            (disk_of ram₁ stream)
            d
            ram₁
            local
            (pos_of m.ram stream / 512)
            (get_affected_sectors n)
          ≡ done (ok, d', ram₂)
        → Heap.free m.heap
            (advance (copy_out n ram₂ buffer local (pos_of m.ram stream % 512) 0) stream n)
            local
          ≡ done ram₄
        → read ports patience primary_disk m d stream buffer n
          ≡ done (ok, record m { ram = ram₄ }, d')
    unfolding read read_loaded Memory.malloc Memory.free
    read-calls ram₂ ram₄ d' some given loaded freed =
        let more : (n == 0) ≡ false = ground arith in rw (more, given, loaded, freed)

    disk_of-kept :
        Clear m.heap stream 8
        → ((b : ℕ) → OffTable m.heap b → ram₁ b ≡ m.ram b)
        → disk_of ram₁ stream ≡ disk_of m.ram stream
    unfolding disk_of
    disk_of-kept clear kept = load32_congr m.ram ram₁ (stream + 4) λ b lo up. kept b (omega arith)

    local_above :
        0 < n
        → n ≤ 255 * 512
        → Heap.malloc m.heap m.ram (512 * get_affected_sectors n) ≡ done (local, ram₁)
        → m.heap.start_address ≤ local
    local_above some few given =
        let (enough, most) = get_affected_sectors_lem n (omega arith) in
        (free-Returned m.heap layout m.ram v (512 * get_affected_sectors n) local ram₁ ram₁
          (omega arith) (omega arith) given (λ b lo hi. refl)).above

    pub read-StreamRead :
        ata.Idle d
        → 0 < n
        → n ≤ 255 * 512
        → pos_of m.ram stream % 512 + n ≤ 512 * get_affected_sectors n
        → pos_of m.ram stream / 512 < 2 ^ 24
        → disk_of m.ram stream ≡ primary_disk
        → Heap.malloc m.heap m.ram (512 * get_affected_sectors n) ≡ done (local, ram₁)
        → Clear m.heap stream 8
        → Clear m.heap buffer n
        → Apart stream 8 buffer n
        → Apart stream 8 local (blocks_for (512 * get_affected_sectors n) * block_size)
        → Apart buffer n local (blocks_for (512 * get_affected_sectors n) * block_size)
        → StreamRead m d stream buffer n local
            (read ports patience primary_disk m d stream buffer n)
    read-StreamRead idle some few within low real given clear_stream clear_buffer apart apart_stream
          apart_buffer =
        let k : ℕ = get_affected_sectors n in
        let p : ℕ = pos_of m.ram stream in
        let (enough, most) = get_affected_sectors_lem n (omega arith) in
        let r =
          read_block-Read ports patience ata primary_disk d ram₁ local (p / 512) k idle low
            (omega arith) (omega arith) in
        let copied : Ram = copy_out n r.memory buffer local (p % 512) 0 in
        let ram₃ : Ram = advance copied stream n in
        let above : m.heap.start_address ≤ local = local_above some few given in
        let back =
          free-Returned m.heap layout m.ram v (512 * k) local ram₁ ram₃ (omega arith) (omega arith)
            given
            (λ b lo hi.
              advance_outside copied stream n b (omega (arith, layout.layout.below))
              ∙ copy_out_outside buffer local (p % 512) n r.memory 0 b
                  (omega (arith, layout.layout.below))
              ∙ r.loaded.outside b (omega (arith, layout.layout.below))) in
        let disk : disk_of ram₁ stream ≡ primary_disk =
          disk_of-kept clear_stream back.given ∙ real in
        record {
          ram' = back.ram₄;
          d' = r.device;
          returns =
              read-calls r.memory back.ram₄ r.device some
                (ap (Heap.malloc m.heap m.ram) (omega arith) ∙ given)
                (ap (λ q. read_block ports patience primary_disk q d ram₁ local (p / 512) k) disk
                  ∙ r.returns)
                back.returns;
          bytes = λ i hi.
              back.after (buffer + i) (omega arith) (omega arith)
              ∙ advance_outside copied stream n (buffer + i) (omega arith)
              ∙ copy_out_inside buffer local (p % 512) n r.memory 0 i (omega arith) (omega arith)
                  (omega arith) (omega arith)
              ∙ r.loaded.inside (p % 512 + i) (omega arith)
              ∙ ap (content d) (omega arith);
          position =
              pos_of-congr ram₃ back.ram₄ stream
                (λ b lo up. back.after b (omega arith) (omega arith))
              ∙ pos_of-advance copied stream n
              ∙ ap (λ q. w32 (q + n))
                  (pos_of-congr m.ram copied stream λ b lo up.
                    copy_out_outside buffer local (p % 512) n r.memory 0 b (omega arith)
                    ∙ r.loaded.outside b (omega arith)
                    ∙ back.given b (omega arith));
          table = back.table;
          same = r.same;
          idle = r.idle;
          kept = λ b off out_stream out_buffer out_local.
              back.after b off out_local
              ∙ advance_outside copied stream n b (omega arith)
              ∙ copy_out_outside buffer local (p % 512) n r.memory 0 b (omega arith)
              ∙ r.loaded.outside b (omega arith)
              ∙ back.given b off;
          restored = back.restored;
        }
