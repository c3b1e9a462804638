-- ===== src/Disk/Read.antt =====
-- `disk_read_block` against the bytes of the disk.
use koko_os.Prelude.{
  ℕ, zero, suc, ◌+◌, ◌*◌, ◌%◌, ◌^◌, ◌<◌, ◌≡◌, refl, ◌∙◌, ap, inl, inr, arith, lt-cases, ◌==◌, true,
  false, Outcome, done, ℤ,
}
use koko_os.Ram.{Ram}
use koko_os.Ports.{Ports}
use mathlib.Core.Path.{subst, subst₂}
use koko_os.Disk.{
  command_port, data_port, read_mode, ok, invalid_argument, store16, init_disk_from_lba, read_words,
  read_sectors, read_sector, read_block,
}
use koko_os.Disk.Ata.{Ata}
use koko_os.Disk.Wait.{Polled, waited}
use koko_os.Disk.Replace.{Replaced, Replaced-none, Replaced-append, Replaced-at}

module _ (ports : Ports) (patience : ℕ) (ata : Ata ports patience) where
  open ports use {Device, insb, insw, outb}
  open ata use {content, Sends, busy}

  store16-Replaced :
      (disk : ℕ → ℕ) (pos ptr w : ℕ) (ram : Ram)
      → disk pos < 256
      → disk (pos + 1) < 256
      → w ≡ disk pos + 256 * disk (pos + 1)
      → Replaced disk ptr pos 2 ram (store16 ram ptr w)
  unfolding store16
  store16-Replaced disk pos ptr w ram lo hi e = record {
    inside = λ k hk. elim (lt-cases k 1) [
      | inl first ↦ let z : k ≡ 0 = omega arith in ground (arith, ap disk (ap (λ n. pos + n) z))
      | inr second ↦ let z : k ≡ 1 = omega arith in ground (arith, ap disk (ap (λ n. pos + n) z))
    ];
    outside = λ b h. ground arith;
  }

  sending-Polled :
      (c : ℕ → ℕ) (word left : ℕ) → Polled ports patience (λ d. Sends d word left × (content d ≡ c))
  sending-Polled c word left = record {
    busy = busy;
    patient = λ d s. ata.patient d word left s.0;
    not_ready = λ d s. ata.not_ready d word left s.0;
    ready = λ d s. ata.ready d word left s.0;
    busy-insb = λ d s. ata.busy-insb d word left s.0;
    State-insb = λ d s. (ata.Sends-insb d word left s.0, ata.content-insb d ∙ s.1);
  }

  pub record Sent (c : ℕ → ℕ) (word left : ℕ) (d : Device) : Type 0 where
    pub sends : Sends d word left
    pub same : content d ≡ c

  Sent-at :
      (c : ℕ → ℕ) (d : Device) {word word' left left' : ℕ}
      → word ≡ word'
      → left ≡ left'
      → Sent c word left d
      → Sent c word' left' d
  Sent-at c d p q s = subst₂ (λ w l. Sent c w l d) p q s

  read_words-Replaced :
      (n : ℕ) (d : Device) (ram : Ram) (ptr word left : ℕ) (c : ℕ → ℕ)
      → Sent c word (n + left) d
      → Sent c (word + n) left (read_words ports patience n d ram ptr).0
        × Replaced c ptr (2 * word) (2 * n) ram (read_words ports patience n d ram ptr).1
  unfolding read_words
  read_words-Replaced zero d ram ptr word left c s =
      (Sent-at c d (omega arith) (omega arith) s, Replaced-none c _ _ ram)
  read_words-Replaced (suc n) d ram ptr word left c s =
      let s₁ : Sent c word (suc (n + left)) d = Sent-at c d refl (omega arith) s in
      let w : ℕ = (insw data_port d).0 in
      let e : w ≡ c (2 * word) + 256 * c (2 * word + 1) =
        ata.word_sent d word (n + left) s₁.sends
        ∙ ap (λ f. f (2 * word) + 256 * f (2 * word + 1)) s₁.same in
      let lt : (i : ℕ) → c i < 256 = λ i. subst (λ f. f i < 256) s₁.same (ata.content-lt d i) in
      let s₂ : Sent c (word + 1) (n + left) (insw data_port d).1 = record {
        sends = ata.Sends-insw d word (n + left) s₁.sends;
        same = ata.content-insw d ∙ s₁.same;
      } in
      let (s₃, rest) =
        read_words-Replaced n (insw data_port d).1 (store16 ram ptr w) (ptr + 2) (word + 1) left c
          s₂ in
      (
        Sent-at c _ (omega arith) refl s₃,
        Replaced-at c ram _ refl refl (omega arith) (
            Replaced-append c ptr (2 * word) 2 (2 * n) ram _ _
              (store16-Replaced c (2 * word) ptr w ram (lt _) (lt _) e)
              (Replaced-at c _ _ refl (omega arith) refl rest)),
      )

  -- A run that reads: the device and the memory it ends with.
  pub record Reads (c : ℕ → ℕ) (word left ptr words : ℕ) (ram : Ram) (run : Outcome (Device × Ram))
      : Type 0 where
    pub device : Device
    pub memory : Ram
    pub returns : run ≡ done (device, memory)
    pub sent : Sent c (word + words) left device
    pub loaded : Replaced c ptr (2 * word) (2 * words) ram memory

  read_sectors-Reads :
      (n : ℕ) (d : Device) (ram : Ram) (ptr word left : ℕ) (c : ℕ → ℕ)
      → Sent c word (256 * n + left) d
      → Reads c word left ptr (256 * n) ram (read_sectors ports patience n d ram ptr)
  unfolding read_sectors
  read_sectors-Reads zero d ram ptr word left c s = record {
    device = d;
    memory = ram;
    returns = refl;
    sent = Sent-at c d (omega arith) (omega arith) s;
    loaded = Replaced-at c ram ram refl refl (omega arith) (Replaced-none c ptr (2 * word) ram);
  }
  read_sectors-Reads (suc n) d ram ptr word left c s =
      let s₁ : Sent c word (256 + (256 * n + left)) d = Sent-at c d refl (omega arith) s in
      let polled = sending-Polled (content d) word (256 + (256 * n + left)) in
      let (d', run, (sends, same)) =
        waited ports patience (λ e. Sends e word (256 + (256 * n + left)) × (content e ≡ content d))
          polled patience d (s₁.sends, refl) (polled.patient d (s₁.sends, refl)) in
      let s₂ : Sent c word (256 + (256 * n + left)) d' = record {
        sends = sends;
        same = same ∙ s₁.same;
      } in
      let (s₃, first) = read_words-Replaced 256 d' ram ptr word (256 * n + left) c s₂ in
      let rest =
        read_sectors-Reads n (read_words ports patience 256 d' ram ptr).0
          (read_words ports patience 256 d' ram ptr).1 (ptr + 512) (word + 256) left c s₃ in
      record {
        device = rest.device;
        memory = rest.memory;
        returns = rw (run, rest.returns);
        sent = Sent-at c _ (omega arith) refl rest.sent;
        loaded = Replaced-at c ram _ refl refl (omega arith) (
            Replaced-append c ptr (2 * word) 512 (512 * n) ram _ _
              (Replaced-at c ram _ refl refl (omega arith) first)
              (Replaced-at c _ _ refl (omega arith) (omega arith) rest.loaded));
      }

  -- The bytes of `n` sectors of the disk from sector `lba` on are loaded at `buffer`, with the
  -- status ok, and the disk keeps its bytes.
  pub record Read (d : Device) (ram : Ram) (buffer lba n : ℕ) (run : Outcome (ℤ × Device × Ram))
      : Type 0 where
    pub device : Device
    pub memory : Ram
    pub returns : run ≡ done (ok, device, memory)
    pub same : content device ≡ content d
    pub idle : ata.Idle device
    pub loaded : Replaced (content d) buffer (512 * lba) (512 * n) ram memory

  pub read_block-Read :
      (primary_disk : ℕ) (d : Device) (ram : Ram) (buffer lba n : ℕ)
      → ata.Idle d
      → lba < 2 ^ 24
      → 0 < n
      → n < 256
      → Read d ram buffer lba n
          (read_block ports patience primary_disk primary_disk d ram buffer lba n)
  unfolding read_block read_sector
  read_block-Read primary_disk d ram buffer lba n idle hl h0 hn =
      let start : Device =
        outb command_port read_mode (init_disk_from_lba ports patience lba n d) in
      let s : Sent (content d) (256 * lba) (256 * n + 0) start = record {
        sends = subst (Sends start (256 * lba)) (omega arith) (ata.command d lba n idle hl h0 hn);
        same = ata.content-command d lba n idle;
      } in
      let r = read_sectors-Reads n start ram buffer (256 * lba) 0 (content d) s in
      let e : n % 256 ≡ n = omega (arith, hn) in
      let real : (primary_disk == primary_disk) ≡ true = ground arith in
      let more : (n == 0) ≡ false = ground (arith, h0) in
      record {
        device = r.device;
        memory = r.memory;
        returns = rw (real, e, more, r.returns);
        same = r.sent.same;
        idle = ata.Idle-Sends r.device _ r.sent.sends;
        loaded = Replaced-at (content d) ram _ refl (omega arith) (omega arith) r.loaded;
      }

-- A read of a multiple of 256 sectors, none of them among these, is refused with the status
-- invalid_argument: the count is narrowed to a byte, and no port is used.
pub read_block-multiple :
    (ports : Ports) (patience primary_disk : ℕ) (d : ports.Device) (ram : Ram) (buffer lba n : ℕ)
    → read_block ports patience primary_disk primary_disk d ram buffer lba (256 * n)
      ≡ done (invalid_argument, d, ram)
unfolding read_block read_sector
read_block-multiple ports patience primary_disk d ram buffer lba n =
    let real : (primary_disk == primary_disk) ≡ true = ground arith in
    let none_left : (256 * n % 256 == 0) ≡ true = ground arith in rw (real, none_left)
