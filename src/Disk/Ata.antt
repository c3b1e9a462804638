-- ===== src/Disk/Ata.antt =====
-- What the driver relies on of an ATA disk that is read and written by polling.
use koko_os.Prelude.{ℕ, suc, ◌+◌, ◌*◌, ◌/◌, ◌%◌, ◌^◌, ◌<◌, ◌≡◌, ◌≢◌, ◌==◌, if◌then◌else◌, bit_and}
use koko_os.Ports.{Ports}
use koko_os.Disk.{command_port, data_port, read_mode, write_mode, init_disk_from_lba}
use koko_os.Disk.Wait.{Polled}

-- `content` is the disk's bytes. `Idle d` says that the disk is neither busy nor in the middle of a
-- transfer: only then it takes a command, and it is so again behind the last word that it sends.
-- After a read command the disk sends the words of the sectors in
-- order. Before each sector it answers some inquiries, less than `patience`, without the ready bit,
-- and then one with it; it asks for that again behind each sector. `Sends d word left` says that
-- the next of the `left` words to come is number `word` of the disk.
pub record Ata (ports : Ports) (patience : ℕ) : Type 1 where
  pub content : ports.Device → ℕ → ℕ
  pub content-lt : (d : ports.Device) (i : ℕ) → content d i < 256
  pub Idle : ports.Device → Type 0
  pub Sends : ports.Device → ℕ → ℕ → Type 0
  pub busy : ports.Device → ℕ
  pub command :
      (d : ports.Device) (lba n : ℕ)
      → Idle d
      → lba < 2 ^ 24
      → 0 < n
      → n < 256
      → Sends
          (ports.outb command_port read_mode (init_disk_from_lba ports patience lba n d))
          (256 * lba)
          (256 * n)
  pub content-command :
      (d : ports.Device) (lba n : ℕ)
      → Idle d
      → content (ports.outb command_port read_mode (init_disk_from_lba ports patience lba n d))
        ≡ content d
  pub patient : (d : ports.Device) (word left : ℕ) → Sends d word left → busy d < patience
  pub not_ready :
      (d : ports.Device) (word left : ℕ)
      → Sends d word left
      → 0 < busy d
      → bit_and (ports.insb command_port d).0 0x08 ≢ 0x08
  pub ready :
      (d : ports.Device) (word left : ℕ)
      → Sends d word left
      → busy d ≡ 0
      → bit_and (ports.insb command_port d).0 0x08 ≡ 0x08
  pub busy-insb :
      (d : ports.Device) (word left : ℕ)
      → Sends d word left
      → 0 < busy d
      → busy (ports.insb command_port d).1 + 1 ≡ busy d
  pub Sends-insb :
      (d : ports.Device) (word left : ℕ)
      → Sends d word left
      → Sends (ports.insb command_port d).1 word left
  pub Idle-Sends : (d : ports.Device) (word : ℕ) → Sends d word 0 → Idle d
  pub content-insb : (d : ports.Device) → content (ports.insb command_port d).1 ≡ content d
  pub word_sent :
      (d : ports.Device) (word left : ℕ)
      → Sends d word (suc left)
      → (ports.insw data_port d).0 ≡ content d (2 * word) + 256 * content d (2 * word + 1)
  pub Sends-insw :
      (d : ports.Device) (word left : ℕ)
      → Sends d word (suc left)
      → Sends (ports.insw data_port d).1 (word + 1) left
  pub content-insw : (d : ports.Device) → content (ports.insw data_port d).1 ≡ content d

-- What the driver relies on of an ATA disk that is written by polling. `content` is the disk's
-- bytes, those that it has taken included. `Takes d word left` says that the disk puts the next of
-- the `left` words to come in place of word `word`. Behind the last word the disk is busy for a
-- while, and takes no command: `settled d` is the disk when it has done with that.
pub record AtaWrite (ports : Ports) (patience : ℕ) (Idle : ports.Device → Type 0) : Type 1 where
  pub content : ports.Device → ℕ → ℕ
  pub Takes : ports.Device → ℕ → ℕ → Type 0
  pub command :
      (d : ports.Device) (lba n : ℕ)
      → Idle d
      → lba < 2 ^ 24
      → 0 < n
      → n < 256
      → Takes
          (ports.outb command_port write_mode (init_disk_from_lba ports patience lba n d))
          (256 * lba)
          (256 * n)
  pub content-command :
      (d : ports.Device) (lba n : ℕ)
      → Idle d
      → content (ports.outb command_port write_mode (init_disk_from_lba ports patience lba n d))
        ≡ content d
  pub polled :
      (c : ℕ → ℕ) (word left : ℕ) → Polled ports patience (λ d. Takes d word left × (content d ≡ c))
  pub Takes-outw :
      (d : ports.Device) (word left w : ℕ)
      → Takes d word (suc left)
      → Takes (ports.outw data_port w d) (word + 1) left
  pub content-outw :
      (d : ports.Device) (word left w i : ℕ)
      → Takes d word (suc left)
      → w < 2 ^ 16
      → content (ports.outw data_port w d) i
        ≡ (if i == 2 * word then w % 256 else if i == 2 * word + 1 then w / 256 else content d i)
  pub settled : ports.Device → ports.Device
  pub Idle-settled : (d : ports.Device) (word : ℕ) → Takes d word 0 → Idle (settled d)
  pub content-settled : (d : ports.Device) (i : ℕ) → content (settled d) i ≡ content d i
