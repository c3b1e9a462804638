-- ===== src/Bits.antt =====
-- Masks and joined bit fields: what `&` and `|` are where one side is a mask or the sides share no
-- bit.
pub mod Digits
use koko_os.Bits.Digits.{lowest_digit, right_zero}
use Prim.Native.Nat.{bit_and-bitwise, bit_or-bitwise, min, max}
use mathlib.Core.Path.{ap₂}
use koko_os.Prelude.{
  ℕ, zero, suc, ◌+◌, ◌-◌, ◌*◌, ◌/◌, ◌%◌, ◌^◌, ◌≤◌, ◌<◌, ◌≡◌, refl, ◌∙◌, ap, arith, bit_and, bit_or,
}

bit_or_digit : (a b : ℕ) → bit_or a b ≡ bit_or (a / 2) (b / 2) * 2 + max (a % 2) (b % 2)
bit_or_digit = lowest_digit (λ b. b) max bit_or bit_or-bitwise (λ b. omega arith)

pub bit_or-zero : (a : ℕ) → bit_or a 0 ≡ a
bit_or-zero a =
    right_zero (λ b. b) max bit_or bit_or-bitwise (λ b. omega arith) (λ a. a) refl
      (λ a. omega arith) a a (omega arith)

bit_and_digit : (a b : ℕ) → bit_and a b ≡ bit_and (a / 2) (b / 2) * 2 + min (a % 2) (b % 2)
bit_and_digit = lowest_digit (λ b. 0) min bit_and bit_and-bitwise (λ b. omega arith)

pub bit_and-zero : (a : ℕ) → bit_and a 0 ≡ 0
bit_and-zero a =
    right_zero (λ b. 0) min bit_and bit_and-bitwise (λ b. omega arith) (λ a. 0) refl
      (λ a. omega arith) a a (omega arith)

-- `2 ^ w` by doubling, in a form that the proofs step through.
abbrev pub power : ℕ → ℕ
power zero = 1
power (suc w) = power w * 2

-- Fields that share no bit are added by `|`.
pub bit_or_fields : (w k f : ℕ) → f < power w → bit_or (k * power w) f ≡ k * power w + f
bit_or_fields zero k f h = let e : f ≡ 0 = omega arith in rw e (omega (arith, bit_or-zero (k * 1)))
bit_or_fields (suc w) k f h =
    let half : k * (power w * 2) / 2 ≡ k * power w = omega arith in
    omega (
      arith,
      bit_or_digit (k * (power w * 2)) f,
      ap (λ (n : ℕ). bit_or n (f / 2)) half,
      bit_or_fields w k (f / 2) (omega arith),
    )

-- A field that is added by `|` below another one leaves the join of what is above it.
pub bit_or_above :
    (w k j f : ℕ) → f < power w → bit_or (k * power w) (j * power w + f) ≡ bit_or k j * power w + f
bit_or_above zero k j f h =
    let e : f ≡ 0 = omega arith in
    let left : k * 1 ≡ k = omega arith in
    let right : j * 1 + f ≡ j = omega arith in ap₂ bit_or left right ∙ omega arith
bit_or_above (suc w) k j f h =
    let left : k * (power w * 2) / 2 ≡ k * power w = omega arith in
    let right : (j * (power w * 2) + f) / 2 ≡ j * power w + f / 2 = omega arith in
    omega (
      arith,
      bit_or_digit (k * (power w * 2)) (j * (power w * 2) + f),
      ap₂ bit_or left right,
      bit_or_above w k j (f / 2) (omega arith),
    )

power-pos : (w : ℕ) → 0 < power w
power-pos zero = omega arith
power-pos (suc w) = omega (arith, power-pos w)

-- A mask of `w` ones keeps the low `w` bits.
pub bit_and_low : (w q r : ℕ) → r < power w → bit_and (q * power w + r) (power w - 1) ≡ r
bit_and_low zero q r h = let e : r ≡ 0 = omega arith in omega (arith, e, bit_and-zero (q * 1 + r))
bit_and_low (suc w) q r h =
    let half : (q * (power w * 2) + r) / 2 ≡ q * power w + r / 2 = omega arith in
    let mask : (power w * 2 - 1) / 2 ≡ power w - 1 = omega (arith, power-pos w) in
    omega (
      arith,
      bit_and_digit (q * (power w * 2) + r) (power w * 2 - 1),
      ap₂ bit_and half mask,
      bit_and_low w q (r / 2) (omega arith),
      power-pos w,
    )

-- Above its low `w` bits a mask whose low bits are zero acts as its high part.
pub bit_and_high :
    (w q r m : ℕ) → r < power w → bit_and (q * power w + r) (m * power w) ≡ bit_and q m * power w
bit_and_high zero q r m h =
    let e : q * 1 + r ≡ q = omega arith in
    let e' : m * 1 ≡ m = omega arith in omega (arith, ap₂ bit_and e e')
bit_and_high (suc w) q r m h =
    let half : (q * (power w * 2) + r) / 2 ≡ q * power w + r / 2 = omega arith in
    let mask : m * (power w * 2) / 2 ≡ m * power w = omega arith in
    omega (
      arith,
      bit_and_digit (q * (power w * 2) + r) (m * (power w * 2)),
      ap₂ bit_and half mask,
      bit_and_high w q (r / 2) m (omega arith),
    )

whole : (n : ℕ) → n ≡ 0 + n
whole n = omega arith

-- `e & 0xfffff000` clears the low twelve bits of a 32-bit value.
pub bit_and_page : (e : ℕ) → e < 2 ^ 32 → bit_and e 0xfffff000 ≡ e / 4096 * 4096
bit_and_page e h =
    let split : e ≡ e / 4096 * 4096 + e % 4096 = omega arith in
    let low : bit_and (e / 4096) 0xfffff ≡ e / 4096 =
      ap (λ (n : ℕ). bit_and n 0xfffff) (whole (e / 4096))
      ∙ bit_and_low 20 0 (e / 4096) (omega arith) in
    ap (λ (n : ℕ). bit_and n 0xfffff000) split
    ∙ bit_and_high 12 (e / 4096) (e % 4096) 0xfffff (omega arith)
    ∙ ap (λ (n : ℕ). n * 4096) low

-- `e & 0x0000ffff` keeps the low sixteen bits.
pub bit_and_half : (e : ℕ) → bit_and e 0x0000ffff ≡ e % 65536
bit_and_half e =
    let split : e ≡ e / 65536 * 65536 + e % 65536 = omega arith in
    ap (λ (n : ℕ). bit_and n 0x0000ffff) split
    ∙ bit_and_low 16 (e / 65536) (e % 65536) (omega arith)

-- A multiple of the page size, joined with flags.
pub bit_or_flags : (a flags : ℕ) → a % 4096 ≡ 0 → flags < 4096 → bit_or a flags ≡ a + flags
bit_or_flags a flags h small =
    let split : a ≡ a / 4096 * 4096 = omega arith in
    ap (λ (n : ℕ). bit_or n flags) split
    ∙ bit_or_fields 12 (a / 4096) flags (omega arith)
    ∙ omega arith
