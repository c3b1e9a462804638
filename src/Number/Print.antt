-- ===== src/Number/Print.antt =====
-- `itoa` followed by `atoi`.
use koko_os.Prelude.{
  ℕ, zero, suc, ◌+◌, ◌-◌, ◌*◌, ◌^◌, ◌<◌, ◌≤◌, ◌≡◌, refl, ◌∙◌, ap, ◌⊎◌, inl, inr, arith, ◌==◌, false,
  ℤ, pos, negsuc, minus, done, kernel_panic, [], ◌∷◌, length, if◌then◌else◌, leb,
}
use mathlib.Core.Path.{subst}
use koko_os.Ram.{Ram, poke}
use koko_os.Heap
use koko_os.Heap.{Heap, block_size, get_entry}
use koko_os.Heap.Entries.{IsLayout}
use koko_os.Heap.Valid.{IsTable}
use koko_os.Heap.Calls.{Served, out_of_memory, malloc_lem}
use koko_os.Memory
use koko_os.Memory.{Machine}
use koko_os.Text.{char_minus}
use koko_os.Text.View.{IsText}
use koko_os.Number.{itoa, itoa_signed, atoi, digits_loop}
use koko_os.Number.Parse.{value, atoi-value, atoi-minus}
use koko_os.Number.Digits.{
  Holds-congr, Holds-IsText, digits_of, digits_of-AllDigits, value-digits_of, length-digits_of,
  length_loop-digits_of, digits_loop-digits_of,
}

-- The numbers of an `int` but the least.
abbrev pub IsInt : ℤ → Type 0
IsInt (pos n) = n < 2 ^ 31
IsInt (negsuc n) = n + 1 < 2 ^ 31

-- What `itoa` leaves at `string` for the number `n` with `sign` bytes in front of it.
record Printed (m : Machine) (sign n : ℕ) : Type 0 where
  string : ℕ
  ram' : Ram
  returns : itoa_signed m sign n n ≡ done (string, record m { ram = ram' })
  digits : IsText ram' (string + sign) (digits_of n)
  signed : 0 < sign → ram' string ≡ char_minus

module _ (m : Machine) (sign n : ℕ) (one : sign ≤ 1) (some : 0 < n) (small : n < 2 ^ 31) where
  signed_ram : Ram → ℕ → Ram
  signed_ram ram string = if sign == 0 then ram else poke ram string char_minus

  signed_ram-minus : (ram : Ram) (string : ℕ) → 0 < sign → signed_ram ram string string ≡ char_minus
  unfolding signed_ram
  signed_ram-minus ram string h = ground arith

  itoa_signed-returns :
      (string : ℕ) (ram ram' : Ram)
      → Memory.malloc m (length (digits_of n) + 1 + sign) ≡ done (string, record m { ram = ram })
      → digits_loop 11 (signed_ram ram string) string n (length (digits_of n) + 1 + sign - 2)
        ≡ done ram'
      → itoa_signed m sign n n
        ≡ done (
          string,
          record m { ram = poke ram' (string + (length (digits_of n) + 1 + sign - 1)) 0 },
        )
  unfolding itoa_signed signed_ram
  itoa_signed-returns string ram ram' e run = rw (length_loop-digits_of n (omega arith), e, run)

  itoa_signed-panics :
      Memory.malloc m (length (digits_of n) + 1 + sign) ≡ kernel_panic out_of_memory
      → itoa_signed m sign n n ≡ kernel_panic out_of_memory
  unfolding itoa_signed
  itoa_signed-panics e = rw (length_loop-digits_of n (omega arith), e)

  Printed-served :
      (string : ℕ) (ram : Ram)
      → Memory.malloc m (length (digits_of n) + 1 + sign) ≡ done (string, record m { ram = ram })
      → Printed m sign n
  Printed-served string ram e =
      let (some_digit, few_digits) = length-digits_of n some in
      let (ram', run, held, kept) =
        digits_loop-digits_of string sign n (length (digits_of n) + 1 + sign - 2)
          (signed_ram ram string) some (omega arith) (omega arith) (omega arith) in
      let last : ℕ = string + (length (digits_of n) + 1 + sign - 1) in
      record {
        string = string;
        ram' = poke ram' last 0;
        returns = itoa_signed-returns string ram ram' e run;
        digits =
            Holds-IsText (poke ram' last 0) (string + sign) (digits_of n)
              (Holds-congr ram' (poke ram' last 0) (string + sign) (digits_of n)
                (λ b lo hi. ground arith) held)
              (digits_of-AllDigits n) (ground arith);
        signed =
            λ h. ground (arith, kept string (inl (omega arith)), signed_ram-minus ram string h);
      }

reads_unsigned :
    (m : Machine) (n : ℕ) (p : Printed m 0 n)
    → 0 < n
    → n < 2 ^ 31
    → atoi p.ram' p.string ≡ done (pos n)
reads_unsigned m n p some small =
    let same : value 0 (digits_of n) ≡ n = value-digits_of n (omega arith) in
    let few : length (digits_of n) ≤ 10 = (length-digits_of n some).1 in
    let text : IsText p.ram' p.string (digits_of n) =
      subst (λ a. IsText p.ram' a (digits_of n)) (omega arith) p.digits in
    atoi-value p.ram' p.string (digits_of n) text (digits_of-AllDigits n) (omega (arith, few))
      (omega (arith, same))
    ∙ ap (λ k. done (pos k)) same

minus-negsuc : (n k : ℕ) → k ≡ suc n → minus k ≡ negsuc n
minus-negsuc n k e = ground arith

reads_signed :
    (m : Machine) (n : ℕ) (p : Printed m 1 (suc n))
    → suc n < 2 ^ 31
    → atoi p.ram' p.string ≡ done (negsuc n)
reads_signed m n p small =
    let same : value 0 (digits_of (suc n)) ≡ suc n = value-digits_of (suc n) (omega arith) in
    let few : length (digits_of (suc n)) ≤ 10 = (length-digits_of (suc n) (omega arith)).1 in
    atoi-minus p.ram' p.string (digits_of (suc n)) (p.signed (omega arith), omega arith, p.digits)
      (digits_of-AllDigits (suc n)) (omega (arith, few)) (omega (arith, same))
    ∙ ap done (minus-negsuc n _ same)

-- `itoa` of a number returns a text that `atoi` reads as that number.
pub record Prints (zero_literal : ℕ) (m : Machine) (number : ℤ) : Type 0 where
  pub string : ℕ
  pub ram' : Ram
  pub returns : itoa zero_literal m number ≡ done (string, record m { ram = ram' })
  pub reads : atoi ram' string ≡ done number

module _ (zero_literal : ℕ) (m : Machine) (layout : IsLayout m.heap)
    (v : IsTable m.heap.table.total (get_entry m.heap m.ram)) where
  malloc-returns :
      (k : ℕ) (h : Served m.heap layout m.ram v k)
      → Memory.malloc m k
        ≡ done (m.heap.start_address + h.block * block_size, record m { ram = h.ram' })
  unfolding Memory.malloc
  malloc-returns k h = rw (Memory.malloc, h.returns)

  malloc-panics :
      (k : ℕ)
      → Heap.malloc m.heap m.ram k ≡ kernel_panic out_of_memory
      → Memory.malloc m k ≡ kernel_panic out_of_memory
  unfolding Memory.malloc
  malloc-panics k e = rw (Memory.malloc, e)

  signed-cases :
      (sign n : ℕ)
      → sign ≤ 1
      → 0 < n
      → n < 2 ^ 31
      → Printed m sign n ⊎ (itoa_signed m sign n n ≡ kernel_panic out_of_memory)
  signed-cases sign n one some small =
      let (some_digit, few_digits) = length-digits_of n some in
      elim (malloc_lem m.heap layout m.ram v (length (digits_of n) + 1 + sign) (omega arith)
        (omega arith)) [
          | inl h ↦ inl (Printed-served m sign n one some small _ h.ram' (malloc-returns _ h))
          | inr r ↦ inr (itoa_signed-panics m sign n one some small (malloc-panics _ r.panics))
        ]

  -- On a heap in the address space with a well-formed table, with the literal `"0"` in memory,
  -- `itoa` of a number of 32 bits other than the least one either returns a text that `atoi` reads
  -- as that number, or panics for lack of memory.
  pub atoi-itoa :
      (number : ℤ)
      → IsInt number
      → IsText m.ram zero_literal (48 ∷ [])
      → Prints zero_literal m number ⊎ (itoa zero_literal m number ≡ kernel_panic out_of_memory)
  unfolding itoa
  atoi-itoa (pos zero) small literal = inl (record {
    string = zero_literal;
    ram' = m.ram;
    returns = refl;
    reads =
        atoi-value m.ram zero_literal (48 ∷ []) literal (omega arith, omega arith, tt) (omega arith)
          (omega arith);
  })
  atoi-itoa (pos (suc n)) small literal =
      elim (signed-cases 0 (suc n) (omega arith) (omega arith) small) [
        | inr e ↦ inr e
        | inl p ↦ inl (record {
          string = p.string;
          ram' = p.ram';
          returns = p.returns;
          reads = reads_unsigned m (suc n) p (omega arith) small;
        })
      ]
  atoi-itoa (negsuc n) small literal =
      let e : leb (2 ^ 31) (suc n) ≡ false = ground (arith, small) in
      let same : itoa zero_literal m (negsuc n) ≡ itoa_signed m 1 (suc n) (suc n) = rw (itoa, e) in
      elim (signed-cases 1 (suc n) (omega arith) (omega arith) (omega (arith, small))) [
        | inr stop ↦ inr (same ∙ stop)
        | inl p ↦ inl (record {
          string = p.string;
          ram' = p.ram';
          returns = same ∙ p.returns;
          reads = reads_signed m n p (omega (arith, small));
        })
      ]
