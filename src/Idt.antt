-- ===== src/Idt.antt =====
-- The interrupt descriptor table, src/idt/idt.c and src/idt/idt.h. The addresses of the assembly
-- handlers and of the table are the linker's, and are arguments. `idt_load`, the `lidt` of idt.asm,
-- is not part of it.
pub mod Gates
pub mod Handlers
pub mod Tests
use koko_os.Prelude.{ℕ, zero, suc, ◌+◌, ◌-◌, ◌*◌, ◌/◌, ◌%◌, ◌^◌, ◌==◌, if◌then◌else◌, bit_and}

abbrev pub total_interrupts : ℕ
total_interrupts = 512

abbrev pub code_selector : ℕ
code_selector = 0x08

abbrev pub keyboard_interrupt : ℕ
keyboard_interrupt = 0x21

pub record IdtDesc : Type 0 where
  pub offset_1 : ℕ
  pub selector : ℕ
  pub zero : ℕ
  pub type_attr : ℕ
  pub offset_2 : ℕ

pub record IdtrDesc : Type 0 where
  pub limit : ℕ
  pub base : ℕ

-- `idt_descriptors`, by its index, and `idtr_descriptor`.
pub record Tables : Type 0 where
  pub idt_descriptors : ℕ → IdtDesc
  pub idtr_descriptor : IdtrDesc

abbrev pub empty_desc : IdtDesc
empty_desc = record { offset_1 = 0; selector = 0; zero = 0; type_attr = 0; offset_2 = 0 }

-- What `idt_set` writes: the offsets are `uint16_t`.
unfoldable pub gate : (address : ℕ) → IdtDesc
gate address = record {
  offset_1 = bit_and address 0x0000ffff;
  selector = code_selector;
  zero = 0;
  type_attr = 0xee;
  offset_2 = address / 2 ^ 16 % 2 ^ 16;
}

unfoldable pub set : (ℕ → IdtDesc) → (interrupt_no address : ℕ) → ℕ → IdtDesc
set descriptors interrupt_no address i = if interrupt_no == i then gate address else descriptors i

-- The loop of `idt_init`, with the rounds that are left.
unfoldable pub set_all : ℕ → (ℕ → IdtDesc) → (address i : ℕ) → ℕ → IdtDesc
set_all zero descriptors address i = descriptors
set_all (suc n) descriptors address i = set_all n (set descriptors i address) address (i + 1)

-- `memset` clears the 512 descriptors of eight bytes, of which the limit is the size less one.
unfoldable pub init : (base null_interrupt zero_interrupt keyboard : ℕ) → Tables → Tables
init base null_interrupt zero_interrupt keyboard t =
    let cleared : ℕ → IdtDesc = λ i. empty_desc in
    let filled : ℕ → IdtDesc = set_all total_interrupts cleared null_interrupt 0 in
    record {
      idt_descriptors = set (set filled 0 zero_interrupt) keyboard_interrupt keyboard;
      idtr_descriptor = record { limit = (8 * total_interrupts - 1) % 2 ^ 16; base = base };
    }
