-- ===== src/Number.antt =====
-- Numbers as text: `itoa` and `atoi` of src/lib/string.c, and `print_number` of src/lib/terminal.c.
-- An `int` has 32 bits.
pub mod Parse
pub mod Digits
pub mod Print
pub mod Tests
use koko_os.Prelude.{
  ℕ, zero, suc, ◌+◌, ◌-◌, ◌*◌, ◌/◌, ◌%◌, ◌^◌, ◌==◌, if◌then◌else◌, Bool, true, false, leb, ℤ, pos,
  negsuc, minus, Outcome, done, hang, kernel_panic, ◌>>=◌,
}
use koko_os.Ram.{Ram, poke}
use koko_os.Heap.{w32}
use koko_os.Memory
use koko_os.Memory.{Machine}
use koko_os.Text.{strlen, is_digit, get_digit, char_0, char_minus}
use koko_os.Terminal.{Screen, println}

-- The 32 bits of an `int`, read as one.
unfoldable pub to_int : ℕ → ℤ
to_int n = if leb (2 ^ 31) n then minus (2 ^ 32 - n) else pos n

-- The length loop of `itoa`: the digits of a 32-bit number are ten at most, so eleven rounds of
-- fuel are enough.
unfoldable pub length_loop : ℕ → (number_copy length : ℕ) → Outcome ℕ
length_loop zero number_copy length = hang
length_loop (suc n) number_copy length = elim (number_copy == 0) [
  | true ↦ done length
  | false ↦ length_loop n (number_copy / 10) (length + 1)
]

-- `while (number > 0) …` of `itoa`, which writes the digits from the last to the first.
unfoldable pub digits_loop : ℕ → Ram → (string number index : ℕ) → Outcome Ram
digits_loop zero ram string number index = hang
digits_loop (suc n) ram string number index = elim (number == 0) [
  | true ↦ done ram
  | false ↦
      digits_loop n (poke ram (string + index) (char_0 + number % 10)) string (number / 10)
        (w32 (index + 2 ^ 32 - 1))
]

-- `itoa` behind the test for zero: `number_copy` is the number without its sign as `unsigned int`,
-- and `number` the same as an `int`, or 0 where that is not positive.
unfoldable pub itoa_signed : Machine → (is_negative number_copy number : ℕ) → Outcome (ℕ × Machine)
itoa_signed m is_negative number_copy number = do
  digits ← length_loop 11 number_copy 0
  let length = digits + 1 + is_negative
  (string, m') ← Memory.malloc m length
  let signed = if is_negative == 0 then m'.ram else poke m'.ram string char_minus
  ram ← digits_loop 11 signed string number (length - 2)
  done (string, record m' { ram = poke ram (string + (length - 1)) 0 })

-- `zero_literal` is the address that the linker gives to `"0"`. The least `int` stays negative when
-- its sign is changed, so none of its digits is written.
unfoldable pub itoa : (zero_literal : ℕ) → Machine → (number : ℤ) → Outcome (ℕ × Machine)
itoa zero_literal m (pos zero) = done (zero_literal, m)
itoa zero_literal m (pos (suc n)) = itoa_signed m 0 (suc n) (suc n)
itoa zero_literal m (negsuc n) = itoa_signed m 1 (suc n) (if leb (2 ^ 31) (suc n) then 0 else suc n)

-- The loop of `atoi`, with the rounds that are left: the sign and the number at its end.
unfoldable pub atoi_loop : ℕ → Ram → (number i is_negative assembled_number : ℕ) → Outcome (ℕ × ℕ)
atoi_loop zero ram number i is_negative assembled_number = done (is_negative, assembled_number)
atoi_loop (suc n) ram number i is_negative assembled_number =
    elim (ram (number + i) == char_minus) [
      | true ↦ atoi_loop n ram number (i + 1) 1 assembled_number
      | false ↦ elim (is_digit (ram (number + i))) [
        | false ↦ kernel_panic "String is not a number!"
        | true ↦
            atoi_loop n ram number (i + 1) is_negative
              (w32 (assembled_number * 10 + get_digit (ram (number + i))))
      ]
    ]

unfoldable pub atoi : Ram → (number : ℕ) → Outcome ℤ
atoi ram number = do
  length ← strlen ram number
  if length == 0 then done (pos 0) else do
    (is_negative, assembled_number) ← atoi_loop length ram number 0 0 0
    done (to_int (if is_negative == 0 then assembled_number else w32 (2 ^ 32 - assembled_number)))

unfoldable pub print_number :
    (zero_literal : ℕ) → Machine → Screen → (number : ℤ) → Outcome (Machine × Screen)
print_number zero_literal m screen number = do
  (string, m') ← itoa zero_literal m number
  screen' ← println m'.ram screen string
  done (m', screen')
