-- ===== src/Disk.antt =====
-- The ATA driver, src/lib/io/disk.c and src/lib/io/disk.h, over the ports. A loop that waits for
-- the disk makes at most `patience` inquiries, and hangs behind them.
pub mod Wait
pub mod Ata
pub mod Replace
pub mod Read
pub mod Write
pub mod Drive
pub mod WriteDrive
pub mod RoundTrip
pub mod Tests
use koko_os.Prelude.{
  ℕ, zero, suc, ◌+◌, ◌-◌, ◌*◌, ◌/◌, ◌%◌, ◌^◌, Bool, true, false, not, ltb, ◌==◌, if◌then◌else◌, ℤ,
  pos, minus, Outcome, done, hang, ◌>>=◌, bit_and, bit_or,
}
use koko_os.Ram.{Ram, poke}
use koko_os.Ports.{Ports}

abbrev pub command_port : ℕ
command_port = 0x01F7

abbrev pub data_port : ℕ
data_port = 0x01F0

abbrev pub read_mode : ℕ
read_mode = 0x20

abbrev pub write_mode : ℕ
write_mode = 0x30

abbrev pub sector_bytes : ℕ
sector_bytes = 512

abbrev pub sector_words : ℕ
sector_words = 256

abbrev pub ok : ℤ
ok = pos 0

abbrev pub invalid_argument : ℤ
invalid_argument = minus 50

abbrev pub invalid_disk : ℤ
invalid_disk = minus 101

-- A `uint16_t` at an address.
unfoldable pub store16 : Ram → ℕ → ℕ → Ram
store16 ram a w = poke (poke ram a (w % 256)) (a + 1) (w / 256 % 256)

unfoldable pub load16 : Ram → ℕ → ℕ
load16 ram a = ram a + 256 * ram (a + 1)

module _ (ports : Ports) (patience : ℕ) where
  open ports use {Device, outb, outw, insb, insw}

  -- The sector number and the count, register by register. A port takes a byte.
  unfoldable pub init_disk_from_lba : (lba sectors : ℕ) → Device → Device
  init_disk_from_lba lba sectors d = outb 0x01F5 (lba / 2 ^ 16 % 256) (
      outb 0x01F4 (lba / 2 ^ 8 % 256) (
        outb 0x01F3 (bit_and lba 0xff)
          (outb 0x01F2 sectors (outb 0x01F6 (bit_or (lba / 2 ^ 24) 0xE0 % 256) d))))

  -- `while (!(c & 0x08)) c = insb(COMMAND_PORT);` behind a first inquiry.
  unfoldable pub wait_ready : ℕ → Device → Outcome Device
  wait_ready zero d = hang
  wait_ready (suc n) d =
      let (c, d') = insb command_port d in
      elim (bit_and c 0x08 == 0x08) [ true ↦ done d' | false ↦ wait_ready n d' ]

  -- The words of one sector, with those that are left: `*ptr = insw(0x01F0)`.
  unfoldable pub read_words : ℕ → Device → Ram → (ptr : ℕ) → Device × Ram
  read_words zero d ram ptr = (d, ram)
  read_words (suc n) d ram ptr =
      let (w, d') = insw data_port d in read_words n d' (store16 ram ptr w) (ptr + 2)

  unfoldable pub read_sectors : ℕ → Device → Ram → (ptr : ℕ) → Outcome (Device × Ram)
  read_sectors zero d ram ptr = done (d, ram)
  read_sectors (suc n) d ram ptr = do
    d' ← wait_ready patience d
    let (d'', ram') = read_words sector_words d' ram ptr
    read_sectors n d'' ram' (ptr + 2 * sector_words)

  -- The status, the disk and the memory afterwards. The count is a `uint8_t`.
  unfoldable pub read_sector :
      Device → Ram → (buffer lba total_sectors_to_read : ℕ) → Outcome (ℤ × Device × Ram)
  read_sector d ram buffer lba total_sectors_to_read =
      if total_sectors_to_read == 0 then done (invalid_argument, d, ram) else do
        (d', ram') ←
            read_sectors total_sectors_to_read
              (outb command_port read_mode (init_disk_from_lba lba total_sectors_to_read d)) ram
              buffer
        done (ok, d', ram')

  -- `outw(0x01F0, *ptr)` for the words of one sector.
  unfoldable pub write_words : ℕ → Device → Ram → (ptr : ℕ) → Device
  write_words zero d ram ptr = d
  write_words (suc n) d ram ptr = write_words n (outw data_port (load16 ram ptr) d) ram (ptr + 2)

  unfoldable pub write_sectors : ℕ → Device → Ram → (ptr : ℕ) → Outcome Device
  write_sectors zero d ram ptr = done d
  write_sectors (suc n) d ram ptr = do
    d' ← wait_ready patience d
    write_sectors n (write_words sector_words d' ram ptr) ram (ptr + 2 * sector_words)

  unfoldable pub write_sector :
      Device → Ram → (buffer lba total_sectors_to_write : ℕ) → Outcome (ℤ × Device)
  write_sector d ram buffer lba total_sectors_to_write =
      if total_sectors_to_write == 0 then done (invalid_argument, d) else do
        d' ←
            write_sectors total_sectors_to_write
              (outb command_port write_mode (init_disk_from_lba lba total_sectors_to_write d)) ram
              buffer
        done (ok, d')

  -- `disk` is a pointer, and `primary_disk` the address of the one disk. The count is converted to a
  -- `uint8_t` by the call.
  module _ (primary_disk : ℕ) where
    -- `disk_get`: the null pointer for any type but that of the real disk.
    unfoldable pub get : (type : ℕ) → ℕ
    get type = if type == 0 then primary_disk else 0

    unfoldable pub read_block :
        (disk : ℕ)
        → Device
        → Ram
        → (buffer lba total_sectors_to_read : ℕ) → Outcome (ℤ × Device × Ram)
    read_block disk d ram buffer lba total_sectors_to_read =
        if disk == primary_disk
        then read_sector d ram buffer lba (total_sectors_to_read % 256)
        else done (invalid_disk, d, ram)

    unfoldable pub write_block :
        (disk : ℕ) → Device → Ram → (buffer lba total_sectors_to_write : ℕ) → Outcome (ℤ × Device)
    write_block disk d ram buffer lba total_sectors_to_write =
        if disk == primary_disk
        then write_sector d ram buffer lba (total_sectors_to_write % 256)
        else done (invalid_disk, d)
