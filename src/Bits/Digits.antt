-- ===== src/Bits/Digits.antt =====
-- An operation on binary digits, `&` and `|` alike: the digits recursion `run rounds a b` may have
-- rounds to spare, so it obeys the law of the lowest digit.
use Prim.Native.Nat.{ℕ, zero, suc, ◌+◌, ◌-◌, ◌*◌, ◌/◌, ◌%◌, ◌≤◌, digits}
use mathlib.Core.Path.{◌≡◌, refl, sym, ap, ◌∙◌}
use native.Mathlib.Omega.{arith}

module _ (rest : ℕ → ℕ) (join : ℕ → ℕ → ℕ) where
  abbrev run : ℕ → ℕ → ℕ → ℕ
  run = digits rest join

  idle : (rounds b : ℕ) → run rounds 0 b ≡ rest b
  idle zero b = refl
  idle (suc rounds) b = refl

  spare : (rounds a b : ℕ) → a ≤ rounds → run (suc rounds) a b ≡ run rounds a b
  spare zero zero b h = refl
  spare zero (suc a) b h = absurd (omega arith)
  spare (suc rounds) zero b h = refl
  spare (suc rounds) (suc a) b h =
      ap (λ q. q * 2 + join (suc a % 2) (b % 2)) (spare rounds (suc a / 2) (b / 2) (omega arith))

  spare_more : (more rounds a b : ℕ) → a ≤ rounds → run (rounds + more) a b ≡ run rounds a b
  spare_more zero rounds a b h = ap (λ n. run n a b) (omega arith)
  spare_more (suc more) rounds a b h =
      let e : rounds + suc more ≡ suc (rounds + more) = omega arith in
      ap (λ n. run n a b) e ∙ spare (rounds + more) a b (omega arith) ∙ spare_more more rounds a b h

  module _ (op : ℕ → ℕ → ℕ) (by_digits : (a b : ℕ) → op a b ≡ run a a b)
      (rest_digit : (b : ℕ) → rest b ≡ rest (b / 2) * 2 + join 0 (b % 2)) where
    pub lowest_digit : (a b : ℕ) → op a b ≡ op (a / 2) (b / 2) * 2 + join (a % 2) (b % 2)
    lowest_digit zero b =
        by_digits 0 b ∙ rest_digit b ∙ ap (λ q. q * 2 + join 0 (b % 2)) (sym (by_digits 0 (b / 2)))
    lowest_digit (suc a) b =
        let e : suc a / 2 + (a - suc a / 2) ≡ a = omega arith in
        by_digits (suc a) b
        ∙ ap (λ q. q * 2 + join (suc a % 2) (b % 2))
            (ap (λ n. run n (suc a / 2) (b / 2)) (sym e)
              ∙ spare_more (a - suc a / 2) (suc a / 2) (suc a / 2) (b / 2) (omega arith)
              ∙ sym (by_digits (suc a / 2) (b / 2)))

    -- What the operation does with a zero on the right, from its law for one digit.
    pub right_zero :
        (what : ℕ → ℕ)
        → (what 0 ≡ rest 0)
        → ((a : ℕ) → what a ≡ what (a / 2) * 2 + join (a % 2) 0)
        → (bound a : ℕ) → a ≤ bound
        → op a 0 ≡ what a
    right_zero what start law bound zero h = by_digits 0 0 ∙ sym start
    right_zero what start law zero (suc a) h = absurd (omega arith)
    right_zero what start law (suc bound) (suc a) h =
        lowest_digit (suc a) 0
        ∙ ap (λ q. q * 2 + join (suc a % 2) 0)
            (right_zero what start law bound (suc a / 2) (omega arith))
        ∙ sym (law (suc a))
