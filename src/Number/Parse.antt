-- ===== src/Number/Parse.antt =====
-- `atoi` against the value of a numeral.
use koko_os.Prelude.{
  ℕ, suc, ◌+◌, ◌-◌, ◌*◌, ◌^◌, ◌<◌, ◌≤◌, ◌≡◌, refl, ◌∙◌, ap, arith, ◌==◌, true, false, leb, pos,
  minus, done, List, [], ◌∷◌, length,
}
use koko_os.Ram.{Ram}
use koko_os.Heap.{w32}
use koko_os.Text.{is_digit, get_digit, char_minus}
use koko_os.Text.View.{IsText}
use koko_os.Text.Strlen.{strlen-length}
use koko_os.Number.{to_int, atoi, atoi_loop}

abbrev pub AllDigits : List ℕ → Type 0
AllDigits [] = Unit {0}
AllDigits (c ∷ s) = (48 ≤ c) × (c ≤ 57) × AllDigits s

-- The number of the digits `s` behind the number `acc`, in base ten.
abbrev pub value : ℕ → List ℕ → ℕ
value acc [] = acc
value acc (c ∷ s) = value (acc * 10 + (c - 48)) s

value-le : (acc : ℕ) (s : List ℕ) → acc ≤ value acc s
value-le acc [] = omega arith
value-le acc (c ∷ s) = omega (arith, value-le (acc * 10 + (c - 48)) s)

digit : (c : ℕ) → 48 ≤ c → c ≤ 57 → (is_digit c ≡ true) × (get_digit c ≡ c - 48)
unfolding is_digit get_digit
digit c lo hi = ground arith

to_int-minus : (v : ℕ) → v ≤ 2 ^ 31 → to_int (w32 (2 ^ 32 - v)) ≡ minus v
unfolding to_int
to_int-minus v h = ground arith

module _ (ram : Ram) (number : ℕ) where
  loop_digit :
      (n i sign acc c : ℕ)
      → ram (number + i) ≡ c
      → 48 ≤ c
      → c ≤ 57
      → acc * 10 + (c - 48) < 2 ^ 32
      → atoi_loop (suc n) ram number i sign acc
        ≡ atoi_loop n ram number (i + 1) sign (acc * 10 + (c - 48))
  unfolding atoi_loop
  loop_digit n i sign acc c at lo hi small =
      let not_minus : (ram (number + i) == 45) ≡ false = ground arith in
      let is : is_digit (ram (number + i)) ≡ true = ap is_digit at ∙ (digit c lo hi).0 in
      let read : get_digit (ram (number + i)) ≡ c - 48 = ap get_digit at ∙ (digit c lo hi).1 in
      let next : w32 (acc * 10 + get_digit (ram (number + i))) ≡ acc * 10 + (c - 48) =
        omega (arith, read) in
      rw (atoi_loop, not_minus, is, next)

  atoi_loop-value :
      (s : List ℕ) (i p sign acc : ℕ)
      → p ≡ number + i
      → IsText ram p s
      → AllDigits s
      → value acc s < 2 ^ 32
      → atoi_loop (length s) ram number i sign acc ≡ done (sign, value acc s)
  unfolding atoi_loop
  atoi_loop-value [] i p sign acc e t d small = refl
  atoi_loop-value (c ∷ s) i p sign acc e t d small =
      loop_digit (length s) i sign acc c (ground arith) d.0 d.1
        (omega (arith, value-le (acc * 10 + (c - 48)) s))
      ∙ atoi_loop-value s (i + 1) (p + 1) sign (acc * 10 + (c - 48)) (omega arith) t.2 d.2 small

  loop_minus :
      (n acc : ℕ)
      → ram number ≡ char_minus
      → atoi_loop (suc n) ram number 0 0 acc ≡ atoi_loop n ram number 1 1 acc
  unfolding atoi_loop
  loop_minus n acc at =
      let e : ram (number + 0) ≡ 45 = ap ram (omega arith) ∙ at in rw (atoi_loop, e)

  -- `atoi` of a text of less than 65536 decimal digits whose value is below 2^31 returns the value.
  pub atoi-value :
      (s : List ℕ)
      → IsText ram number s
      → AllDigits s
      → length s < 2 ^ 16
      → value 0 s < 2 ^ 31
      → atoi ram number ≡ done (pos (value 0 s))
  unfolding atoi to_int
  atoi-value [] t d short small = rw (strlen-length ram number [] t short)
  atoi-value (c ∷ r) t d short small =
      let s : List ℕ = c ∷ r in
      let some : (length s == 0) ≡ false = ground arith in
      let below : leb (2 ^ 31) (value 0 s) ≡ false = ground arith in
      rw (
        strlen-length ram number s t short,
        some,
        atoi_loop-value s 0 number 0 0 (omega arith) t d (omega arith),
        below,
      )

  -- `atoi` of a minus sign and less than 65535 decimal digits behind it, whose value is at most
  -- 2^31, returns the value with the sign changed.
  pub atoi-minus :
      (s : List ℕ)
      → IsText ram number (char_minus ∷ s)
      → AllDigits s
      → length s + 1 < 2 ^ 16
      → value 0 s ≤ 2 ^ 31
      → atoi ram number ≡ done (minus (value 0 s))
  unfolding atoi
  atoi-minus s t d short small =
      let text_length : length (char_minus ∷ s) < 2 ^ 16 = omega (arith, short) in
      let at : ram number ≡ char_minus = t.0 in
      let some : (length (char_minus ∷ s) == 0) ≡ false = ground arith in
      rw
        (
          strlen-length ram number (char_minus ∷ s) t text_length,
          some,
          loop_minus (length s) 0 at,
          atoi_loop-value s 1 (number + 1) 1 0 refl t.2 d (omega arith),
        )
        (ap done (to_int-minus (value 0 s) small))
