-- ===== src/Fat/TableRead.antt =====
-- `fat16_get_fat_entry` on a mounted disk: the 16-bit entry that stands on the disk.
use koko_os.Prelude.{
  ℕ, ◌+◌, ◌-◌, ◌*◌, ◌%◌, ◌≤◌, ◌<◌, ◌≡◌, refl, ◌∙◌, ap, arith, false, ◌==◌, done, pos,
}
use koko_os.Ram.{Ram, store32}
use koko_os.Ram.Words.{store32_outside, load32-store32_self, load32_congr}
use koko_os.Heap.{get_entry, w32}
use koko_os.Heap.Valid.{IsTable-congr}
use koko_os.Heap.Reuse.{Apart, same_entries}
use koko_os.Memory.{Machine}
use koko_os.Ports.{Ports}
use koko_os.Disk.{load16, store16, ok}
use koko_os.Disk.Ata.{Ata}
use koko_os.Stream
use koko_os.Stream.{pos_of, disk_of}
use koko_os.Stream.Small.{SmallRead, read-SmallRead}
use koko_os.Fat.{Places, is_ok}
use koko_os.Fat.Entries.{get_fat_entry}
use koko_os.Fat.Clusters.{FatTable}
use koko_os.Fat.Mounted.{
  IsPlaced, IsMounted, Frame, IsMounted-frame, Frame-trans, store16_outside, load16_bytes, even,
}

module _ (ports : Ports) (patience : ℕ) (ata : Ata ports patience) (primary_disk : ℕ)
    (places : Places) (disk private stream reserved : ℕ)
    (placed : IsPlaced disk private stream places.result) where
  open ports use {Device}
  open ata use {content, content-lt}

  -- Where the code looks for the entry of a cluster.
  abbrev pub position : (cluster : ℕ) → ℕ
  position cluster = w32 (reserved * w32 (cluster * 2))

  -- The memory before the entry is read: the stream is moved, and the result is 0.
  abbrev prepared : Ram → (cluster : ℕ) → Ram
  prepared ram cluster = store16 (store32 ram stream (position cluster)) places.result 0

  prepared-outside :
      (ram : Ram) (cluster b : ℕ)
      → Apart b 1 stream 4
      → Apart b 1 places.result 2
      → prepared ram cluster b ≡ ram b
  prepared-outside ram cluster b out_stream out_result =
      store16_outside (store32 ram stream (position cluster)) places.result 0 b (omega arith)
      ∙ store32_outside ram stream (position cluster) b (omega arith)

  prepared-pos : (ram : Ram) (cluster : ℕ) → pos_of (prepared ram cluster) stream ≡ position cluster
  unfolding pos_of
  prepared-pos ram cluster =
      load32_congr (store32 ram stream (position cluster)) (prepared ram cluster) stream (λ b lo hi.
        store16_outside (store32 ram stream (position cluster)) places.result 0 b
          (omega (arith, placed.stream_result)))
      ∙ load32-store32_self ram stream (position cluster) (omega arith)

  module _ (m : Machine) (k : IsMounted disk private stream places.result primary_disk reserved m)
      (cluster : ℕ) where
    prepared-entries :
        (i : ℕ)
        → i ≤ m.heap.table.total
        → get_entry m.heap (prepared m.ram cluster) i ≡ get_entry m.heap m.ram i
    prepared-entries = same_entries m.heap m.ram (prepared m.ram cluster) k.layout.layout λ b lo hi.
        prepared-outside m.ram cluster b (omega (arith, k.held_stream.clear))
          (omega (arith, k.held_result.clear))

    prepared-Frame :
        Frame disk private stream places.result primary_disk reserved placed m.heap m.ram
          (prepared m.ram cluster)
    prepared-Frame = record {
      entries = prepared-entries;
      kept = λ b off out_stream out_result used.
          prepared-outside m.ram cluster b out_stream out_result;
    }

    prepared-Mounted :
        IsMounted disk private stream places.result primary_disk reserved
          (record m { ram = prepared m.ram cluster })
    prepared-Mounted =
        IsMounted-frame disk private stream places.result primary_disk reserved placed m
          (prepared m.ram cluster) k
          (IsTable-congr m.heap.table.total (get_entry m.heap m.ram)
            (get_entry m.heap (prepared m.ram cluster)) prepared-entries k.table)
          prepared-Frame

    read_entry :
        (d : Device)
        → ata.Idle d
        → SmallRead ports patience ata primary_disk
            (record m { ram = prepared m.ram cluster })
            d
            stream
            places.result
            2
            (Stream.read ports patience primary_disk
              (record m { ram = prepared m.ram cluster })
              d
              stream
              places.result
              2)
    read_entry d idle =
        let p = prepared-Mounted in
        let (free, below, empty) = p.room in
        let at = prepared-pos m.ram cluster in
        let even_place : position cluster % 2 ≡ 0 = even reserved cluster in
        read-SmallRead ports patience ata primary_disk (record m { ram = prepared m.ram cluster }) d
          stream places.result 2 free idle p.layout p.table below empty (omega arith)
          (omega (arith, at, even_place)) (omega (arith, at)) p.real p.held_stream.clear
          p.held_result.clear placed.stream_result
          (p.held_stream.used stream (omega arith) (omega arith))
          (p.held_stream.used (stream + 7) (omega arith) (omega arith))
          (p.held_result.used places.result (omega arith) (omega arith))
          (p.held_result.used (places.result + 2 - 1) (omega arith) (omega arith))

    entry-run :
        (d d' : Device) (ram' : Ram)
        → Stream.read ports patience primary_disk
            (record m { ram = prepared m.ram cluster })
            d
            stream
            places.result
            2
          ≡ done (ok, record m { ram = ram' }, d')
        → get_fat_entry ports patience primary_disk places m d disk cluster
          ≡ done (pos (load16 ram' places.result), record m { ram = ram' }, d')
    unfolding get_fat_entry Stream.seek is_ok
    entry-run d d' ram' run =
        let some : (stream == 0) ≡ false = ground (arith, placed.some_stream) in
        rw (k.private_data, k.fat_stream, k.reserved_sectors, some, run) refl

  -- The entry of a cluster on a disk whose bytes are `c`.
  abbrev pub entry_at : (ℕ → ℕ) → (cluster : ℕ) → ℕ
  entry_at c cluster = c (position cluster) + 256 * c (position cluster + 1)

  abbrev pub Framed : Machine → Ram → Type 0
  Framed m ram' =
      IsMounted disk private stream places.result primary_disk reserved (record m { ram = ram' })
      × Frame disk private stream places.result primary_disk reserved placed m.heap m.ram ram'

  pub get_fat_entry-Framed :
      (m : Machine) (d : Device) (cluster : ℕ)
      → IsMounted disk private stream places.result primary_disk reserved m
      → ata.Idle d
      → (ram' : Ram) × (d' : Device) × (get_fat_entry ports patience primary_disk places m d disk
            cluster
          ≡ done (pos (entry_at (content d) cluster), record m { ram = ram' }, d'))
        × Framed m ram'
        × (content d' ≡ content d)
        × ata.Idle d'
  get_fat_entry-Framed m d cluster k idle =
      let p = prepared-Mounted m k cluster in
      let f = prepared-Frame m k cluster in
      let r = read_entry m k cluster d idle in
      let byte = λ (i : ℕ) (h : i < 2).
        r.bytes i h ∙ ap (λ q. content d (q + i)) (prepared-pos m.ram cluster) in
      let value : load16 r.ram' places.result ≡ entry_at (content d) cluster =
        load16_bytes r.ram' places.result (content d (position cluster))
          (content d (position cluster + 1)) (byte 0 (omega arith) ∙ ap (content d) (omega arith))
          (byte 1 (omega arith)) in
      (
        r.ram',
        r.d',
        entry-run m k cluster d r.d' r.ram' r.returns
            ∙ ap (λ x. done (pos x, record m { ram = r.ram' }, r.d')) value,
        (
          IsMounted-frame disk private stream places.result primary_disk reserved placed
              (record m { ram = prepared m.ram cluster }) r.ram' p r.table
              (record { entries = r.entries; kept = r.kept }),
          Frame-trans disk private stream places.result primary_disk reserved placed m.heap m.ram
              (prepared m.ram cluster) r.ram' f (record { entries = r.entries; kept = r.kept }),
        ),
        r.same,
        r.idle,
      )

  module _ (m₀ : Machine) (c : ℕ → ℕ) (c-lt : (i : ℕ) → c i < 256) where
    -- A machine that differs from `m₀` by reads of the table only.
    abbrev pub Keeping : Machine → Device → Type 0
    Keeping m d =
        (ram' : Ram) × (m ≡ record m₀ { ram = ram' })
        × Framed m₀ ram'
        × (content d ≡ c)
        × ata.Idle d

    pub answer :
        (ram' : Ram) (d : Device) (cluster : ℕ)
        → Framed m₀ ram'
        → content d ≡ c
        → ata.Idle d
        → (m' : Machine) × (d' : Device) × (get_fat_entry ports patience primary_disk places
              (record m₀ { ram = ram' })
              d
              disk
              cluster
            ≡ done (pos (entry_at c cluster), m', d'))
          × Keeping m' d'
    answer ram' d cluster (k, f) same idle =
        let (ram'', d', run, (k', f'), same', idle') =
          get_fat_entry-Framed (record m₀ { ram = ram' }) d cluster k idle in
        (
          record m₀ { ram = ram'' },
          d',
          run ∙ ap (λ x. done (pos (entry_at x cluster), record m₀ { ram = ram'' }, d')) same,
          (
            ram'',
            refl,
            (
              k',
              Frame-trans disk private stream places.result primary_disk reserved placed m₀.heap
                  m₀.ram ram' ram'' f f',
            ),
            same' ∙ same,
            idle',
          ),
        )

    -- The table of the disk.
    abbrev pub fat_table : FatTable ports patience primary_disk places disk
    fat_table = record {
      entry = entry_at c;
      entry-lt = λ cluster. omega (arith, c-lt (position cluster), c-lt (position cluster + 1));
      Keeps = Keeping;
      answers = λ m d cluster (ram', e, framed, same, idle).
          rw e (answer ram' d cluster framed same idle);
    }
