-- ===== src/Disk/Write.antt =====
-- Writing sectors: the bytes that reach the disk.
use koko_os.Prelude.{
  ℕ, zero, suc, ◌+◌, ◌*◌, ◌%◌, ◌^◌, ◌<◌, ◌≤◌, ◌≡◌, refl, ap, inl, inr, arith, lt-cases, ◌==◌, true,
  false, done,
}
use mathlib.Core.Path.{subst, subst₂}
use koko_os.Ram.{Ram}
use koko_os.Ports.{Ports}
use koko_os.Disk.{
  ok, command_port, data_port, write_mode, load16, init_disk_from_lba, write_words, write_sectors,
  write_sector, write_block,
}
use koko_os.Disk.Ata.{AtaWrite}
use koko_os.Disk.Wait.{waited}
use koko_os.Disk.Replace.{Replaced, Replaced-none, Replaced-append, Replaced-at}

module _ (ports : Ports) (patience : ℕ) (Idle : ports.Device → Type 0)
    (ata : AtaWrite ports patience Idle) (ram : Ram) where
  open ports use {Device, outb, outw}
  open ata use {content, Takes}

  -- The memory has bytes from `ptr` on.
  abbrev BytesAt : (ptr n : ℕ) → Type 0
  BytesAt ptr n = (a : ℕ) → ptr ≤ a → a < ptr + n → ram a < 256

  word-lt : (ptr : ℕ) → BytesAt ptr 2 → load16 ram ptr < 2 ^ 16
  unfolding load16
  word-lt ptr b =
      omega (arith, b ptr (omega arith) (omega arith), b (ptr + 1) (omega arith) (omega arith))

  word-Replaced :
      (d : Device) (ptr word left : ℕ)
      → Takes d word (suc left)
      → BytesAt ptr 2
      → Replaced ram (2 * word) ptr 2 (content d) (content (outw data_port (load16 ram ptr) d))
  unfolding load16
  word-Replaced d ptr word left t b =
      let b₀ : ram ptr < 256 = b ptr (omega arith) (omega arith) in
      let b₁ : ram (ptr + 1) < 256 = b (ptr + 1) (omega arith) (omega arith) in
      let step = λ (i : ℕ). ata.content-outw d word left (load16 ram ptr) i t (word-lt ptr b) in
      record {
        inside = λ i h. elim (lt-cases i 1) [
          | inl first ↦
              let z : i ≡ 0 = omega arith in
              ground (arith, step (2 * word + i), b₀, b₁, ap (λ j. ram (ptr + j)) z)
          | inr second ↦
              let z : i ≡ 1 = omega arith in
              ground (arith, step (2 * word + i), b₀, b₁, ap (λ j. ram (ptr + j)) z)
        ];
        outside = λ i h. ground (arith, step i);
      }

  -- A run that writes `words` words from the memory at `ptr` on: the device that it ends with.
  pub record Writes (d : Device) (word left ptr words : ℕ) (d' : Device) : Type 0 where
    pub takes : Takes d' (word + words) left
    pub replaced : Replaced ram (2 * word) ptr (2 * words) (content d) (content d')

  Takes-at :
      (d : Device) {word word' left left' : ℕ}
      → word ≡ word'
      → left ≡ left'
      → Takes d word left
      → Takes d word' left'
  Takes-at d p q t = subst₂ (λ w l. Takes d w l) p q t

  write_words-Writes :
      (n : ℕ) (d : Device) (ptr word left : ℕ)
      → Takes d word (n + left)
      → BytesAt ptr (2 * n)
      → Writes d word left ptr n (write_words ports patience n d ram ptr)
  unfolding write_words
  write_words-Writes zero d ptr word left t b = record {
    takes = Takes-at d (omega arith) (omega arith) t;
    replaced =
        Replaced-at ram (content d) (content d) refl refl (omega arith)
          (Replaced-none ram (2 * word) ptr (content d));
  }
  write_words-Writes (suc n) d ptr word left t b =
      let t₁ : Takes d word (suc (n + left)) = Takes-at d refl (omega arith) t in
      let next : Device = outw data_port (load16 ram ptr) d in
      let rest =
        write_words-Writes n next (ptr + 2) (word + 1) left
          (ata.Takes-outw d word (n + left) (load16 ram ptr) t₁)
          (λ a lo hi. b a (omega arith) (omega arith)) in
      let d' : Device = write_words ports patience n next ram (ptr + 2) in
      record {
        takes = Takes-at d' (omega arith) refl rest.takes;
        replaced = Replaced-at ram (content d) (content d') refl refl (omega arith) (
            Replaced-append ram (2 * word) ptr 2 (2 * n) (content d) (content next) (content d')
              (word-Replaced d ptr word (n + left) t₁ (λ a lo hi. b a (omega arith) (omega arith)))
              (Replaced-at ram (content next) (content d') (omega arith) refl refl rest.replaced));
      }

  sectors-Writes :
      (n : ℕ) (d : Device) (ptr word left : ℕ)
      → Takes d word (256 * n + left)
      → BytesAt ptr (512 * n)
      → (d' : Device) × (write_sectors ports patience n d ram ptr ≡ done d')
        × Writes d word left ptr (256 * n) d'
  unfolding write_sectors
  sectors-Writes zero d ptr word left t b = (
    d,
    refl,
    record {
      takes = Takes-at d (omega arith) (omega arith) t;
      replaced =
          Replaced-at ram (content d) (content d) refl refl (omega arith)
            (Replaced-none ram (2 * word) ptr (content d));
    },
  )
  sectors-Writes (suc n) d ptr word left t b =
      let t₁ : Takes d word (256 + (256 * n + left)) = Takes-at d refl (omega arith) t in
      let polled = ata.polled (content d) word (256 + (256 * n + left)) in
      let (d₁, run, (t₂, same)) =
        waited ports patience (λ e. Takes e word (256 + (256 * n + left)) × (content e ≡ content d))
          polled patience d (t₁, refl) (polled.patient d (t₁, refl)) in
      let first =
        write_words-Writes 256 d₁ ptr word (256 * n + left) t₂
          (λ a lo hi. b a (omega arith) (omega arith)) in
      let d₂ : Device = write_words ports patience 256 d₁ ram ptr in
      let (d₃, run', rest) =
        sectors-Writes n d₂ (ptr + 512) (word + 256) left first.takes
          (λ a lo hi. b a (omega arith) (omega arith)) in
      (
        d₃,
        rw (run, run') refl,
        record {
          takes = Takes-at d₃ (omega arith) refl rest.takes;
          replaced = Replaced-at ram (content d) (content d₃) refl refl (omega arith) (
              Replaced-append ram (2 * word) ptr 512 (512 * n) (content d) (content d₂) (content d₃)
                (subst (λ c. Replaced ram (2 * word) ptr 512 c (content d₂)) same
                  (Replaced-at ram (content d₁) (content d₂) refl refl (omega arith)
                    first.replaced))
                (Replaced-at ram (content d₂) (content d₃) (omega arith) refl (omega arith)
                  rest.replaced));
        },
      )

  -- With a disk that keeps to the ATA protocol for writing and is ready within `patience`
  -- inquiries and idle, and a buffer of bytes: writing 1 to 255 sectors whose first number is below 2^24
  -- through the real disk's pointer returns with the status ok. The disk then holds the bytes of the
  -- buffer from byte 512 * lba on, 512 for each sector, and every other byte of it is as before. It is
  -- idle when it has settled.
  pub write_block-Replaced :
      (primary_disk : ℕ) (d : Device) (buffer lba n : ℕ)
      → Idle d
      → lba < 2 ^ 24
      → 0 < n
      → n < 256
      → ((a : ℕ) → buffer ≤ a → a < buffer + 512 * n → ram a < 256)
      → (d' : Device) × (write_block ports patience primary_disk primary_disk d ram buffer lba n
          ≡ done (ok, d'))
        × Replaced ram (512 * lba) buffer (512 * n) (content d) (content d')
        × Idle (ata.settled d')
  unfolding write_block write_sector
  write_block-Replaced primary_disk d buffer lba n idle hl h0 hn b =
      let start : Device =
        outb command_port write_mode (init_disk_from_lba ports patience lba n d) in
      let (d', run, w) =
        sectors-Writes n start buffer (256 * lba) 0
          (Takes-at start refl (omega arith) (ata.command d lba n idle hl h0 hn)) b in
      let e : n % 256 ≡ n = omega (arith, hn) in
      let real : (primary_disk == primary_disk) ≡ true = ground arith in
      let more : (n == 0) ≡ false = ground (arith, h0) in
      (
        d',
        rw (real, e, more, run) refl,
        subst (λ c. Replaced ram (512 * lba) buffer (512 * n) c (content d'))
            (ata.content-command d lba n idle)
            (Replaced-at ram (content start) (content d') (omega arith) refl (omega arith)
              w.replaced),
        ata.Idle-settled d' _ w.takes,
      )
