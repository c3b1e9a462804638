-- ===== src/Text.antt =====
-- The string functions of src/lib/string.c over the memory: a `char*` is an address, and a string
-- ends at its first zero byte. `char` is signed: bytes from 128 on compare below the others.
pub mod View
pub mod Strlen
pub mod Compare
pub mod Copy
pub mod Search
pub mod Tests
use koko_os.Prelude.{
  ℕ, zero, suc, ◌+◌, ◌-◌, ◌*◌, ◌/◌, ◌%◌, ◌^◌, Bool, true, false, not, ◌&&◌, ◌||◌, ltb, leb, ◌==◌,
  if◌then◌else◌, ℤ, pos, negsuc, minus, Outcome, done, kernel_panic, hang, ◌>>=◌,
}
use koko_os.Ram.{Ram, poke}
use koko_os.Memory
use koko_os.Memory.{Machine}

-- string.h
abbrev pub char_0 : ℕ
char_0 = 48

abbrev pub char_minus : ℕ
char_minus = 45

-- A bound on the rounds of a loop that walks the address space.
abbrev pub address_space : ℕ
address_space = 2 ^ 32

-- The order of `char` values, on their bytes.
abbrev pub char_rank : ℕ → ℕ
char_rank c = (c + 128) % 256

abbrev pub char_lt : ℕ → ℕ → Bool
char_lt a b = ltb (char_rank a) (char_rank b)

abbrev pub char_le : ℕ → ℕ → Bool
char_le a b = leb (char_rank a) (char_rank b)

-- The loop of `strlen`. `len` is a `uint16_t`, so after 65536 rounds it is back at 0 and the loop
-- never ends: that many rounds of fuel are enough.
unfoldable pub strlen_loop : ℕ → Ram → (str len : ℕ) → Outcome ℕ
strlen_loop zero ram str len = hang
strlen_loop (suc n) ram str len = elim (ram (str + len) == 0) [
  | true ↦ done len
  | false ↦ strlen_loop n ram str ((len + 1) % 2 ^ 16)
]

unfoldable pub strlen : Ram → ℕ → Outcome ℕ
strlen ram str = strlen_loop (2 ^ 16) ram str 0

unfoldable pub is_digit : ℕ → Bool
is_digit c = char_le 48 c && char_le c 57

-- As an `int8_t`, by its byte.
unfoldable pub get_digit : ℕ → ℕ
get_digit c = (c + 256 - char_0) % 256

unfoldable pub str_to_lower : ℕ → ℕ
str_to_lower c =
    if char_le 97 c && char_le c 122
    then c
    else if char_lt c 65 && char_lt 90 c
    then c
    else (c + 32) % 256

-- The comparison loop of `str_cmp`, and of `str_icmp` with `key` being `str_to_lower`, with the
-- rounds that are left.
unfoldable pub cmp_loop : (key : ℕ → ℕ) → ℕ → Ram → (str1 str2 i : ℕ) → ℤ
cmp_loop key zero ram str1 str2 i = pos 0
cmp_loop key (suc n) ram str1 str2 i =
    let c1 = key (ram (str1 + i)) in
    let c2 = key (ram (str2 + i)) in
    let rest = cmp_loop key n ram str1 str2 (i + 1) in
    if char_lt c2 c1 then pos 1 else if char_lt c1 c2 then minus 1 else rest

unfoldable pub cmp_with : (key : ℕ → ℕ) → Ram → (str1 str2 : ℕ) → Outcome ℤ
cmp_with key ram str1 str2 = do
  str1_len ← strlen ram str1
  str2_len ← strlen ram str2
  done (
      if ltb str2_len str1_len
      then pos 1
      else if ltb str1_len str2_len
      then minus 1
      else cmp_loop key str1_len ram str1 str2 0)

unfoldable pub str_cmp : Ram → (str1 str2 : ℕ) → Outcome ℤ
str_cmp = cmp_with (λ c. c)

unfoldable pub str_icmp : Ram → (str1 str2 : ℕ) → Outcome ℤ
str_icmp = cmp_with str_to_lower

-- `while (*from != 0) …` of `str_ref_copy`, with the two pointers.
unfoldable pub str_ref_copy_loop : ℕ → Ram → (result from : ℕ) → Outcome Ram
str_ref_copy_loop zero ram result from = hang
str_ref_copy_loop (suc n) ram result from = elim (ram from == 0) [
  | true ↦ done (poke ram result 0)
  | false ↦ str_ref_copy_loop n (poke ram result (ram from)) (result + 1) (from + 1)
]

unfoldable pub str_ref_copy : Ram → (to from : ℕ) → Outcome Ram
str_ref_copy ram to from = str_ref_copy_loop address_space ram to from

-- The loop of `str_copy`, which writes the zero byte behind the copy.
unfoldable pub str_copy_loop : ℕ → Ram → (copy_str str index : ℕ) → Outcome Ram
str_copy_loop zero ram copy_str str index = hang
str_copy_loop (suc n) ram copy_str str index = elim (ram (str + index) == 0) [
  | true ↦ done (poke ram (copy_str + index) 0)
  | false ↦
      str_copy_loop n (poke ram (copy_str + index) (ram (str + index))) copy_str str (index + 1)
]

-- `empty_literal` is the address that the linker gives to `""`.
unfoldable pub str_copy : (empty_literal : ℕ) → Machine → (str : ℕ) → Outcome (ℕ × Machine)
str_copy empty_literal m str = do
  str_size ← strlen m.ram str
  if leb str_size 0 then done (empty_literal, m) else do
    (copy_str, m') ← Memory.malloc m (str_size + 1)
    ram ← str_copy_loop address_space m'.ram copy_str str 0
    done (copy_str, record m' { ram = ram })

-- The loop of `str_slice`, with the rounds that are left, and the zero byte behind the slice.
unfoldable pub str_slice_loop : ℕ → Ram → (output str start index : ℕ) → Ram
str_slice_loop zero ram output str start index = poke ram (output + index) 0
str_slice_loop (suc n) ram output str start index =
    str_slice_loop n (poke ram (output + index) (ram (str + start))) output str (start + 1)
      (index + 1)

-- `start` and `end` are unsigned, so the tests for negative values never hold. With `end` the
-- greatest `size_t`, `start <= end` always holds and the loop does not end.
unfoldable pub str_slice : Ram → (output str start end : ℕ) → Outcome Ram
str_slice ram output str start end =
    if ltb end start
    then str_ref_copy ram output str
    else if leb (2 ^ 32 - 1) end
    then hang
    else done (str_slice_loop (end + 1 - start) ram output str start 0)

-- The loop of `str_index_of`, with the rounds that are left.
unfoldable pub str_index_of_loop : ℕ → Ram → (str needle i : ℕ) → ℤ
str_index_of_loop zero ram str needle i = minus 1
str_index_of_loop (suc n) ram str needle i =
    let rest = str_index_of_loop n ram str needle (i + 1) in
    if ram (str + i) == needle then pos i else rest

unfoldable pub str_index_of : Ram → (str needle : ℕ) → Outcome ℤ
str_index_of ram str needle =
    if ram (str + 0) == needle
    then done (pos 0)
    else do size_of_str ← strlen ram str; done (str_index_of_loop size_of_str ram str needle 0)
