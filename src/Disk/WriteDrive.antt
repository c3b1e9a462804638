-- ===== src/Disk/WriteDrive.antt =====
-- A simulated drive that keeps to the protocol for reading and for writing: its bytes are in its
-- state, and it is busy for three inquiries after the command and for two after each word. Behind
-- the words of a write it is flushing, and ignores commands until it has settled.
use koko_os.Prelude.{
  ℕ, zero, suc, ◌+◌, ◌-◌, ◌*◌, ◌/◌, ◌%◌, ◌^◌, ◌<◌, ◌≡◌, ◌≢◌, refl, ap, sym, ◌∙◌, arith, ◌==◌,
  if◌then◌else◌, bit_and,
}
use mathlib.Core.Path.{subst}
use koko_os.Bits.{bit_and_low}
use koko_os.Ports.{Ports}
use koko_os.Disk.{command_port, read_mode, write_mode, init_disk_from_lba}
use koko_os.Disk.Ata.{Ata, AtaWrite}
use koko_os.Disk.Wait.{Polled}

pub record WriteDrive : Type 0 where
  pub bytes : ℕ → ℕ
  pub count : ℕ
  pub low : ℕ
  pub mid : ℕ
  pub high : ℕ
  pub word : ℕ
  pub left : ℕ
  pub waits : ℕ
  pub flushing : ℕ

abbrev pub IsIdle : WriteDrive → Type 0
IsIdle d = d.left + d.flushing ≡ 0

abbrev started : WriteDrive → WriteDrive
started d = record d {
  word = 256 * (d.low + 256 * d.mid + 65536 * d.high);
  left = 256 * d.count;
  waits = 3;
}

abbrev start_command : WriteDrive → WriteDrive
start_command d = if d.left + d.flushing == 0 then started d else d

start_command-started : (d : WriteDrive) → IsIdle d → start_command d ≡ started d
start_command-started d idle = rw idle refl

abbrev set_register : (port val : ℕ) → WriteDrive → WriteDrive
set_register port val d =
    if port == 0x01F2
    then record d { count = val }
    else if port == 0x01F3
    then record d { low = val }
    else if port == 0x01F4
    then record d { mid = val }
    else if port == 0x01F5
    then record d { high = val }
    else if port == 0x01F7
    then start_command d
    else d

abbrev polled_status : ℕ → WriteDrive → ℕ × WriteDrive
polled_status zero d = (0x08, d)
polled_status (suc n) d = (0x80, record d { waits = n })

abbrev take_word : ℕ → WriteDrive → WriteDrive
take_word w d = record d {
  bytes =
      λ i. if i == 2 * d.word then w % 256 else if i == 2 * d.word + 1 then w / 256 else d.bytes i;
  word = d.word + 1;
  left = d.left - 1;
  waits = 2;
  flushing = 1;
}

abbrev bytes_of : WriteDrive → ℕ → ℕ
bytes_of d i = d.bytes i % 256

abbrev pub write_drive_ports : Ports
write_drive_ports = record {
  Device = WriteDrive;
  outb = set_register;
  outw = λ port val d. take_word val d;
  insb = λ port d. polled_status d.waits d;
  insw = λ port d. (
    bytes_of d (2 * d.word) + 256 * bytes_of d (2 * d.word + 1),
    record d { word = d.word + 1; left = d.left - 1; waits = 2 },
  );
}

abbrev Taking : WriteDrive → ℕ → ℕ → Type 0
Taking d word left = (d.word ≡ word) × (d.left ≡ left) × (d.waits < 10)

abbrev Sending : WriteDrive → ℕ → ℕ → Type 0
Sending d word left = Taking d word left × (d.flushing ≡ 0)

abbrev TakingTo : (ℕ → ℕ) → ℕ → ℕ → WriteDrive → Type 0
TakingTo c word left d = Taking d word left × (bytes_of d ≡ c)

abbrev addressed : WriteDrive → (lba n : ℕ) → WriteDrive
addressed d lba n = init_disk_from_lba write_drive_ports 10 lba n d

low_register : (d : WriteDrive) (lba n : ℕ) → (addressed d lba n).low ≡ lba % 256
unfolding init_disk_from_lba
low_register d lba n =
    let split : lba ≡ lba / 256 * 256 + lba % 256 = omega arith in
    ap (λ (k : ℕ). bit_and k 0xff) split ∙ bit_and_low 8 (lba / 256) (lba % 256) (omega arith)

high_registers :
    (d : WriteDrive) (lba n : ℕ)
    → ((addressed d lba n).mid ≡ lba / 2 ^ 8 % 256)
      × ((addressed d lba n).high ≡ lba / 2 ^ 16 % 256)
      × ((addressed d lba n).count ≡ n)
unfolding init_disk_from_lba
high_registers d lba n = (refl, refl, refl)

addressed-IsIdle : (d : WriteDrive) (lba n : ℕ) → IsIdle d → IsIdle (addressed d lba n)
unfolding init_disk_from_lba
addressed-IsIdle d lba n idle = idle

addressed-bytes : (d : WriteDrive) (lba n : ℕ) → bytes_of (addressed d lba n) ≡ bytes_of d
unfolding init_disk_from_lba
addressed-bytes d lba n = refl

kept_bytes :
    (mode : ℕ) (d : WriteDrive) (lba n : ℕ)
    → IsIdle d
    → bytes_of (set_register command_port mode (addressed d lba n)) ≡ bytes_of d
kept_bytes mode d lba n idle =
    ap bytes_of (start_command-started (addressed d lba n) (addressed-IsIdle d lba n idle))
    ∙ addressed-bytes d lba n

commanded :
    (mode : ℕ) (d : WriteDrive) (lba n : ℕ)
    → IsIdle d
    → lba < 2 ^ 24
    → Sending (set_register command_port mode (addressed d lba n)) (256 * lba) (256 * n)
commanded mode d lba n idle h =
    let quiet : IsIdle (addressed d lba n) = addressed-IsIdle d lba n idle in
    subst (λ e. Sending e (256 * lba) (256 * n))
      (sym (start_command-started (addressed d lba n) quiet))
      (
        (
          omega (arith, low_register d lba n, high_registers d lba n),
          omega (arith, high_registers d lba n),
          omega arith,
        ),
        omega (arith, quiet),
      )

status_busy : (w : ℕ) (d : WriteDrive) → 0 < w → bit_and (polled_status w d).0 0x08 ≢ 0x08
status_busy zero d h e = omega arith
status_busy (suc w) d h e = omega arith

status_ready : (w : ℕ) (d : WriteDrive) → w ≡ 0 → bit_and (polled_status w d).0 0x08 ≡ 0x08
status_ready zero d e = refl
status_ready (suc w) d e = absurd (omega arith)

status_counts : (w : ℕ) (d : WriteDrive) → 0 < w → (polled_status w d).1.waits + 1 ≡ w
status_counts zero d h = absurd (omega arith)
status_counts (suc w) d h = omega arith

status-TakingTo :
    (c : ℕ → ℕ) (w : ℕ) (d : WriteDrive) (word left : ℕ)
    → w ≡ d.waits
    → TakingTo c word left d
    → TakingTo c word left (polled_status w d).1
status-TakingTo c zero d word left e s = s
status-TakingTo c (suc w) d word left e s = ((s.0.0, s.0.1, omega (arith, e, s.0.2)), s.1)

drive-Polled : (c : ℕ → ℕ) (word left : ℕ) → Polled write_drive_ports 10 (TakingTo c word left)
drive-Polled c word left = record {
  busy = λ d. d.waits;
  patient = λ d s. s.0.2;
  not_ready = λ d s h. status_busy d.waits d h;
  ready = λ d s h. status_ready d.waits d h;
  busy-insb = λ d s h. status_counts d.waits d h;
  State-insb = λ d s. status-TakingTo c d.waits d word left refl s;
}

status_bytes : (w : ℕ) (d : WriteDrive) → bytes_of (polled_status w d).1 ≡ bytes_of d
status_bytes zero d = refl
status_bytes (suc w) d = refl

status_flushing : (w : ℕ) (d : WriteDrive) → (polled_status w d).1.flushing ≡ d.flushing
status_flushing zero d = refl
status_flushing (suc w) d = refl

pub read_drive : Ata write_drive_ports 10
read_drive = record {
  content = bytes_of;
  content-lt = λ d i. omega arith;
  Idle = IsIdle;
  Idle-Sends = λ d word s. omega (arith, s.0.1, s.1);
  Sends = Sending;
  busy = λ d. d.waits;
  command = λ d lba n idle hl h0 hn. commanded read_mode d lba n idle hl;
  content-command = λ d lba n idle. kept_bytes read_mode d lba n idle;
  patient = λ d word left s. s.0.2;
  not_ready = λ d word left s h. status_busy d.waits d h;
  ready = λ d word left s h. status_ready d.waits d h;
  busy-insb = λ d word left s h. status_counts d.waits d h;
  Sends-insb = λ d word left s. (
    (status-TakingTo (bytes_of d) d.waits d word left refl (s.0, refl)).0,
    status_flushing d.waits d ∙ s.1,
  );
  content-insb = λ d. status_bytes d.waits d;
  word_sent = λ d word left s. ap (λ w. bytes_of d (2 * w) + 256 * bytes_of d (2 * w + 1)) s.0.0;
  Sends-insw = λ d word left s. ((omega (arith, s.0.0), omega (arith, s.0.1), omega arith), s.1);
  content-insw = λ d. refl;
}

pub write_drive : AtaWrite write_drive_ports 10 read_drive.Idle
unfolding read_drive
write_drive = record {
  content = bytes_of;
  Takes = Taking;
  command = λ d lba n idle hl h0 hn. (commanded write_mode d lba n idle hl).0;
  content-command = λ d lba n idle. kept_bytes write_mode d lba n idle;
  polled = drive-Polled;
  Takes-outw = λ d word left w s. (omega (arith, s.0), omega (arith, s.1), omega arith);
  content-outw = λ d word left w i s h. ground (arith, s.0);
  settled = λ d. record d { flushing = 0 };
  Idle-settled = λ d word s. omega (arith, s.1);
  content-settled = λ d i. refl;
}

pub same_content : (d : WriteDrive) (i : ℕ) → read_drive.content d i ≡ write_drive.content d i
unfolding read_drive write_drive
same_content d i = refl

abbrev pub blank_drive : WriteDrive
blank_drive = record {
  bytes = λ i. 0;
  count = 0;
  low = 0;
  mid = 0;
  high = 0;
  word = 0;
  left = 0;
  waits = 0;
  flushing = 0;
}

pub blank_drive-Idle : read_drive.Idle blank_drive
unfolding read_drive
blank_drive-Idle = refl
