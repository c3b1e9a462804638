-- ===== src/Disk/Drive.antt =====
-- A simulated drive that keeps to the protocol: a disk whose byte `i` is `(i / 2 + 2) % 3`, busy for
-- three inquiries after the command and for two after each word.
use koko_os.Prelude.{
  ℕ, zero, suc, ◌+◌, ◌-◌, ◌*◌, ◌/◌, ◌%◌, ◌^◌, ◌<◌, ◌≡◌, ◌≢◌, refl, ap, ◌∙◌, arith, ◌==◌,
  if◌then◌else◌, bit_and,
}
use koko_os.Bits.{bit_and_low}
use koko_os.Ports.{Ports}
use koko_os.Disk.{command_port, read_mode, init_disk_from_lba}
use koko_os.Disk.Ata.{Ata}

pub record Drive : Type 0 where
  pub count : ℕ
  pub low : ℕ
  pub mid : ℕ
  pub high : ℕ
  pub word : ℕ
  pub left : ℕ
  pub waits : ℕ

abbrev byte_at : ℕ → ℕ
byte_at i = (i / 2 + 2) % 3

abbrev write_port : (port val : ℕ) → Drive → Drive
write_port port val d =
    if port == 0x01F2
    then record d { count = val }
    else if port == 0x01F3
    then record d { low = val }
    else if port == 0x01F4
    then record d { mid = val }
    else if port == 0x01F5
    then record d { high = val }
    else if port == 0x01F7
    then record d {
      word = 256 * (d.low + 256 * d.mid + 65536 * d.high);
      left = 256 * d.count;
      waits = 3;
    }
    else d

abbrev status_of : ℕ → Drive → ℕ × Drive
status_of zero d = (0x08, d)
status_of (suc n) d = (0x80, record d { waits = n })

abbrev pub drive_ports : Ports
drive_ports = record {
  Device = Drive;
  outb = write_port;
  outw = λ port val d. d;
  insb = λ port d. status_of d.waits d;
  insw = λ port d. (
    byte_at (2 * d.word) + 256 * byte_at (2 * d.word + 1),
    record d { word = d.word + 1; left = d.left - 1; waits = 2 },
  );
}

abbrev Sending : Drive → ℕ → ℕ → Type 0
Sending d word left = (d.word ≡ word) × (d.left ≡ left) × (d.waits < 10)

abbrev addressed : Drive → (lba n : ℕ) → Drive
addressed d lba n = init_disk_from_lba drive_ports 10 lba n d

low_register : (d : Drive) (lba n : ℕ) → (addressed d lba n).low ≡ lba % 256
unfolding init_disk_from_lba
low_register d lba n =
    let split : lba ≡ lba / 256 * 256 + lba % 256 = omega arith in
    ap (λ (k : ℕ). bit_and k 0xff) split ∙ bit_and_low 8 (lba / 256) (lba % 256) (omega arith)

high_registers :
    (d : Drive) (lba n : ℕ)
    → ((addressed d lba n).mid ≡ lba / 2 ^ 8 % 256)
      × ((addressed d lba n).high ≡ lba / 2 ^ 16 % 256)
      × ((addressed d lba n).count ≡ n)
unfolding init_disk_from_lba
high_registers d lba n = (refl, refl, refl)

commanded :
    (d : Drive) (lba n : ℕ)
    → lba < 2 ^ 24
    → Sending (write_port command_port read_mode (addressed d lba n)) (256 * lba) (256 * n)
commanded d lba n h = (
  omega (arith, low_register d lba n, high_registers d lba n),
  omega (arith, high_registers d lba n),
  omega arith,
)

status_busy : (w : ℕ) (d : Drive) → 0 < w → bit_and (status_of w d).0 0x08 ≢ 0x08
status_busy zero d h e = omega arith
status_busy (suc w) d h e = omega arith

status_ready : (w : ℕ) (d : Drive) → w ≡ 0 → bit_and (status_of w d).0 0x08 ≡ 0x08
status_ready zero d e = refl
status_ready (suc w) d e = absurd (omega arith)

status_counts : (w : ℕ) (d : Drive) → 0 < w → (status_of w d).1.waits + 1 ≡ w
status_counts zero d h = absurd (omega arith)
status_counts (suc w) d h = omega arith

status-Sending :
    (w : ℕ) (d : Drive) (word left : ℕ)
    → w ≡ d.waits
    → Sending d word left
    → Sending (status_of w d).1 word left
status-Sending zero d word left e s = s
status-Sending (suc w) d word left e s = (s.0, s.1, omega (arith, s.2))

pub drive : Ata drive_ports 10
drive = record {
  content = λ d i. byte_at i;
  content-lt = λ d i. omega arith;
  Sends = Sending;
  busy = λ d. d.waits;
  Idle = λ d. d.left ≡ 0;
  Idle-Sends = λ d word s. s.1;
  command = λ d lba n idle hl h0 hn. commanded d lba n hl;
  content-command = λ d lba n idle. refl;
  patient = λ d word left s. s.2;
  not_ready = λ d word left s h. status_busy d.waits d h;
  ready = λ d word left s h. status_ready d.waits d h;
  busy-insb = λ d word left s h. status_counts d.waits d h;
  Sends-insb = λ d word left s. status-Sending d.waits d word left refl s;
  content-insb = λ d. refl;
  word_sent = λ d word left s. ap (λ w. byte_at (2 * w) + 256 * byte_at (2 * w + 1)) s.0;
  Sends-insw = λ d word left s. (omega (arith, s.0), omega (arith, s.1), omega arith);
  content-insw = λ d. refl;
}

abbrev pub fresh : Drive
fresh = record { count = 0; low = 0; mid = 0; high = 0; word = 0; left = 0; waits = 0 }

pub content-drive : (d : Drive) (i : ℕ) → drive.content d i ≡ (i / 2 + 2) % 3
unfolding drive
content-drive d i = refl

pub fresh-Idle : drive.Idle fresh
unfolding drive
fresh-Idle = refl
