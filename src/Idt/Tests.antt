-- ===== src/Idt/Tests.antt =====
-- The gate of the keyboard's interrupt, with handlers at three addresses.
use koko_os.Prelude.{◌+◌, ◌*◌, ◌≡◌, ◌==◌, if◌then◌else◌, arith, some}
use koko_os.Idt.{Tables, init, total_interrupts, keyboard_interrupt, empty_desc}
use koko_os.Idt.Gates.{handler, init_lem}

abbrev tables : Tables
tables = record {
  idt_descriptors = λ i. empty_desc;
  idtr_descriptor = record { limit = 0; base = 0 };
}

init_lem_example :
    (handler ((init 0x5000 0x100000 0x100010 0x12345678 tables).idt_descriptors 0x21)
      ≡ some (
          if 0x21 == keyboard_interrupt
          then 0x12345678
          else if 0x21 == 0
          then 0x100010
          else 0x100000))
    × ((init 0x5000 0x100000 0x100010 0x12345678 tables).idtr_descriptor.limit + 1
        ≡ 8 * total_interrupts)
    × ((init 0x5000 0x100000 0x100010 0x12345678 tables).idtr_descriptor.base ≡ 0x5000)
init_lem_example =
    init_lem 0x5000 0x100000 0x100010 0x12345678 tables 0x21 (omega arith) (omega arith)
      (omega arith) (omega arith)
