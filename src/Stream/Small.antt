-- ===== src/Stream/Small.antt =====
-- Reads of a few bytes, inside one sector, on a heap with a free block: what stays of the memory that
-- is in use.
use koko_os.Prelude.{
  ℕ, ◌+◌, ◌-◌, ◌*◌, ◌/◌, ◌%◌, ◌^◌, ◌≤◌, ◌<◌, ◌≡◌, ◌≢◌, refl, ◌∙◌, ap, ◌⊎◌, inl, inr, arith, true,
  lt-cases, done, Outcome, ℤ,
}
use koko_os.Ram.{Ram}
use koko_os.Heap
use koko_os.Heap.{Heap, block_size, get_entry, w32, entry_is_free, entry_is_taken}
use koko_os.Heap.Entries.{IsLayout, IsFreeable, OffTable}
use koko_os.Heap.Valid.{IsTable}
use koko_os.Heap.Calls.{Served, malloc_lem}
use koko_os.Heap.Reuse.{Apart, Clear}
use koko_os.Memory.{Machine}
use koko_os.Ports.{Ports}
use koko_os.Disk.{ok}
use koko_os.Disk.Ata.{Ata}
use koko_os.Stream.{pos_of, disk_of, get_affected_sectors, read}
use koko_os.Stream.Read.{read-StreamRead, get_affected_sectors_lem}

-- A byte that no free block has.
abbrev pub InUse : Heap → Ram → ℕ → Type 0
InUse heap ram b =
    (b < heap.start_address)
    ⊎ ((heap.start_address + heap.table.total * block_size ≤ b)
        ⊎ (get_entry heap ram ((b - heap.start_address) / block_size) ≢ 0))

-- A block that was free has no byte in use.
pub used-Apart :
    (heap : Heap) (ram : Ram) (s b : ℕ)
    → get_entry heap ram s ≡ 0
    → s < heap.table.total
    → InUse heap ram b
    → Apart b 1 (heap.start_address + s * block_size) block_size
used-Apart heap ram s b free hs (inl h) = omega arith
used-Apart heap ram s b free hs (inr (inl h)) = omega arith
used-Apart heap ram s b free hs (inr (inr h)) =
    elim (lt-cases b (heap.start_address + s * block_size)) [
      | inl before ↦ omega arith
      | inr from ↦ elim (lt-cases b (heap.start_address + s * block_size + block_size)) [
        | inr behind ↦ omega arith
        | inl within ↦
            let e : (b - heap.start_address) / block_size ≡ s = omega arith in
            absurd (h (ap (get_entry heap ram) e ∙ free))
      ]
    ]

free_block : (e : ℕ) → e ≡ 0 → entry_is_free e ≡ true
unfolding entry_is_free entry_is_taken
free_block e h = rw h refl

pub one_sector : (n : ℕ) → 0 < n → n ≤ 512 → get_affected_sectors n ≡ 1
one_sector n some few = omega (arith, get_affected_sectors_lem n (omega arith))

-- A heap with a free block has one to give.
pub one-Served :
    (heap : Heap) (layout : IsLayout heap) (ram : Ram)
    (v : IsTable heap.table.total (get_entry heap ram)) (k : ℕ)
    → k < heap.table.total
    → get_entry heap ram k ≡ 0
    → Served heap layout ram v 512
one-Served heap layout ram v k hk free =
    elim (malloc_lem heap layout ram v 512 (omega arith) (omega arith)) [
      | inl s ↦ s
      | inr r ↦ absurd (
          r.nowhere k (omega arith) λ j lo hi.
            free_block (get_entry heap ram j)
              (let e : j ≡ k = omega arith in ap (get_entry heap ram) e ∙ free))
    ]

module _ (ports : Ports) (patience : ℕ) (ata : Ata ports patience) (primary_disk : ℕ) where
  open ports use {Device}
  open ata use {content}

  -- What a small read leaves: the bytes, the position, and the table and the memory in use as they
  -- were.
  pub record SmallRead (m : Machine) (d : Device) (stream buffer n : ℕ)
      (run : Outcome (ℤ × Machine × Device)) : Type 0 where
    pub ram' : Ram
    pub d' : Device
    pub returns : run ≡ done (ok, record m { ram = ram' }, d')
    pub bytes : (i : ℕ) → i < n → ram' (buffer + i) ≡ content d (pos_of m.ram stream + i)
    pub table : IsTable m.heap.table.total (get_entry m.heap ram')
    pub same : content d' ≡ content d
    pub idle : ata.Idle d'
    pub entries :
        (k : ℕ) → k ≤ m.heap.table.total → get_entry m.heap ram' k ≡ get_entry m.heap m.ram k
    pub kept :
        (b : ℕ)
        → OffTable m.heap b
        → Apart b 1 stream 4
        → Apart b 1 buffer n
        → InUse m.heap m.ram b
        → ram' b ≡ m.ram b

  pub read-SmallRead :
      (m : Machine) (d : Device) (stream buffer n k : ℕ)
      → ata.Idle d
      → IsFreeable m.heap
      → IsTable m.heap.table.total (get_entry m.heap m.ram)
      → k < m.heap.table.total
      → get_entry m.heap m.ram k ≡ 0
      → 0 < n
      → pos_of m.ram stream % 512 + n ≤ 512
      → pos_of m.ram stream / 512 < 2 ^ 24
      → disk_of m.ram stream ≡ primary_disk
      → Clear m.heap stream 8
      → Clear m.heap buffer n
      → Apart stream 8 buffer n
      → InUse m.heap m.ram stream
      → InUse m.heap m.ram (stream + 7)
      → InUse m.heap m.ram buffer
      → InUse m.heap m.ram (buffer + n - 1)
      → SmallRead m d stream buffer n (read ports patience primary_disk m d stream buffer n)
  read-SmallRead m d stream buffer n k idle layout v hk free some within low real clear_stream
        clear_buffer apart use_stream use_stream' use_buffer use_buffer' =
      let one : get_affected_sectors n ≡ 1 = one_sector n some (omega arith) in
      let h = one-Served m.heap layout.layout m.ram v k hk free in
      let s : ℕ = h.block in
      let local : ℕ = m.heap.start_address + s * block_size in
      let hs : s < m.heap.table.total = omega (arith, h.allocated.inside) in
      let was_free : get_entry m.heap m.ram s ≡ 0 =
        h.allocated.were_free s (omega arith) (omega arith) in
      let off = λ (b : ℕ) (u : InUse m.heap m.ram b). used-Apart m.heap m.ram s b was_free hs u in
      let r =
        read-StreamRead ports patience ata primary_disk m d stream buffer n local h.ram' layout v
          idle some (omega arith) (omega (arith, one)) low real
          (ap (Heap.malloc m.heap m.ram) (omega (arith, one)) ∙ h.returns) clear_stream clear_buffer
          apart (omega (arith, one, off stream use_stream, off (stream + 7) use_stream'))
          (omega (arith, one, off buffer use_buffer, off (buffer + n - 1) use_buffer')) in
      record {
        ram' = r.ram';
        d' = r.d';
        returns = r.returns;
        bytes = r.bytes;
        table = r.table;
        same = r.same;
        idle = r.idle;
        entries = r.restored (omega (arith, one));
        kept = λ b off_table out_stream out_buffer used.
            r.kept b off_table out_stream out_buffer (omega (arith, one, off b used));
      }
