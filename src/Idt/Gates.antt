-- ===== src/Idt/Gates.antt =====
-- Which handler each interrupt has after `idt_init`.
use koko_os.Prelude.{
  ℕ, zero, suc, ◌+◌, ◌*◌, ◌^◌, ◌≤◌, ◌<◌, ◌≡◌, refl, ◌∙◌, ◌⊎◌, inl, inr, arith, lt-cases, ◌==◌,
  if◌then◌else◌, Option, none, some, ◌/◌, ◌%◌, ap,
}
use koko_os.Bits.{bit_and_half}
use koko_os.Idt.{
  IdtDesc, Tables, gate, set, set_all, init, total_interrupts, keyboard_interrupt, empty_desc,
}

-- The address that the processor calls for a descriptor: of a 32-bit interrupt gate (type 14) that
-- is present (bit 7), with the selector of the kernel's code segment, the one of its two halves.
-- Any other descriptor calls nothing.
pub handler : IdtDesc → Option ℕ
handler d =
    if d.type_attr / 2 ^ 7 == 1
    then if d.type_attr % 2 ^ 5 == 14
      then if d.selector == 0x08 then some (d.offset_2 * 2 ^ 16 + d.offset_1) else none
      else none
    else none

pub handler-gate : (address : ℕ) → address < 2 ^ 32 → handler (gate address) ≡ some address
unfolding handler gate
handler-gate address h = ap some (omega (arith, bit_and_half address))

set_all_outside :
    (n : ℕ) (descriptors : ℕ → IdtDesc) (address i k : ℕ)
    → (k < i) ⊎ (i + n ≤ k)
    → set_all n descriptors address i k ≡ descriptors k
unfolding set_all set
set_all_outside zero descriptors address i k h = refl
set_all_outside (suc n) descriptors address i k h =
    set_all_outside n (set descriptors i address) address (i + 1) k (omega arith) ∙ ground arith

set_all_inside :
    (n : ℕ) (descriptors : ℕ → IdtDesc) (address i k : ℕ)
    → i ≤ k
    → k < i + n
    → set_all n descriptors address i k ≡ gate address
unfolding set_all set
set_all_inside zero descriptors address i k lo hi = absurd (omega arith)
set_all_inside (suc n) descriptors address i k lo hi = elim (lt-cases i k) [
  | inl later ↦
      set_all_inside n (set descriptors i address) address (i + 1) k (omega arith) (omega arith)
  | inr now ↦
      set_all_outside n (set descriptors i address) address (i + 1) k (omega arith) ∙ ground arith
]

-- With handlers at 32-bit addresses, after `idt_init` the descriptors are present interrupt gates
-- with the selector 8: that of interrupt 0 calls the divide-by-zero handler, 0x21 the keyboard's,
-- and each other of the 512 the null handler. The limit covers the table of eight-byte descriptors,
-- and the base is its address.
pub init_lem :
    (base null_interrupt zero_interrupt keyboard : ℕ) (t : Tables) (k : ℕ)
    → null_interrupt < 2 ^ 32
    → zero_interrupt < 2 ^ 32
    → keyboard < 2 ^ 32
    → k < total_interrupts
    → (handler ((init base null_interrupt zero_interrupt keyboard t).idt_descriptors k)
        ≡ some (
            if k == keyboard_interrupt
            then keyboard
            else if k == 0
            then zero_interrupt
            else null_interrupt))
      × ((init base null_interrupt zero_interrupt keyboard t).idtr_descriptor.limit + 1
          ≡ 8 * total_interrupts)
      × ((init base null_interrupt zero_interrupt keyboard t).idtr_descriptor.base ≡ base)
unfolding init set
init_lem base null_interrupt zero_interrupt keyboard t k hn hz hk h = (
  ground (
    arith,
    set_all_inside total_interrupts (λ i. empty_desc) null_interrupt 0 k (omega arith) h,
    handler-gate null_interrupt hn,
    handler-gate zero_interrupt hz,
    handler-gate keyboard hk,
  ),
  refl,
  refl,
)
