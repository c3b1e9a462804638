-- ===== src/Number/Digits.antt =====
-- The two loops of `itoa` against the list of a number's digits.
use koko_os.Prelude.{
  ℕ, zero, suc, ◌+◌, ◌-◌, ◌*◌, ◌/◌, ◌%◌, ◌^◌, ◌<◌, ◌≤◌, ◌≡◌, refl, ◌∙◌, sym, ap, ◌⊎◌, inl, inr,
  arith, ◌==◌, true, false, done, List, [], ◌∷◌, length, lt-cases,
}
use mathlib.Core.Path.{subst, subst₂}
use koko_os.Ram.{Ram, poke}
use koko_os.Heap.{w32}
use koko_os.Text.View.{IsText}
use koko_os.Number.{length_loop, digits_loop}
use koko_os.Number.Parse.{AllDigits, value}

-- The decimal digits of `n`, at most as many as the first argument, in front of `s`.
abbrev pub prepend : ℕ → ℕ → List ℕ → List ℕ
prepend zero n s = s
prepend (suc f) n s = elim (n == 0) [ true ↦ s | false ↦ prepend f (n / 10) ((48 + n % 10) ∷ s) ]

abbrev pub power_of_ten : ℕ → ℕ
power_of_ten zero = 1
power_of_ten (suc f) = 10 * power_of_ten f

prepend-zero : (f : ℕ) (s : List ℕ) → prepend f 0 s ≡ s
prepend-zero zero s = refl
prepend-zero (suc f) s = refl

prepend-more :
    (f n : ℕ) (s : List ℕ) → 0 < n → prepend (suc f) n s ≡ prepend f (n / 10) ((48 + n % 10) ∷ s)
prepend-more f n s h = let e : (n == 0) ≡ false = ground arith in rw (prepend, e)

prepend-cases :
    (f n : ℕ) (s : List ℕ)
    → ((n ≡ 0) × (prepend (suc f) n s ≡ s))
      ⊎ ((0 < n) × (prepend (suc f) n s ≡ prepend f (n / 10) ((48 + n % 10) ∷ s)))
prepend-cases f n s = elim (lt-cases 0 n) [
  | inl more ↦ inr (more, prepend-more f n s more)
  | inr none_left ↦ let z : n ≡ 0 = omega arith in inl (z, ap (λ m. prepend (suc f) m s) z)
]

value-prepend : (f n : ℕ) (s : List ℕ) → n < power_of_ten f → value 0 (prepend f n s) ≡ value n s
value-prepend zero n s h = ap (λ m. value m s) (omega arith)
value-prepend (suc f) n s h = elim (prepend-cases f n s) [
  | inl (z, e) ↦ ap (value 0) e ∙ ap (λ m. value m s) (sym z)
  | inr (more, e) ↦
      ap (value 0) e
      ∙ value-prepend f (n / 10) ((48 + n % 10) ∷ s) (omega arith)
      ∙ ap (λ m. value m s) (omega arith)
]

prepend-AllDigits : (f n : ℕ) (s : List ℕ) → AllDigits s → AllDigits (prepend f n s)
prepend-AllDigits zero n s d = d
prepend-AllDigits (suc f) n s d = elim (prepend-cases f n s) [
  | inl (z, e) ↦ subst AllDigits (sym e) d
  | inr (more, e) ↦
      subst AllDigits (sym e)
        (prepend-AllDigits f (n / 10) ((48 + n % 10) ∷ s) (omega arith, omega arith, d))
]

length-prepend : (f n : ℕ) (s : List ℕ) → length s ≤ length (prepend f n s)
length-prepend zero n s = omega arith
length-prepend (suc f) n s = elim (prepend-cases f n s) [
  | inl (z, e) ↦ omega (arith, ap length e)
  | inr (more, e) ↦ omega (arith, ap length e, length-prepend f (n / 10) ((48 + n % 10) ∷ s))
]

length-prepend_most : (f n : ℕ) (s : List ℕ) → length (prepend f n s) ≤ f + length s
length-prepend_most zero n s = omega arith
length-prepend_most (suc f) n s = elim (prepend-cases f n s) [
  | inl (z, e) ↦ omega (arith, ap length e)
  | inr (more, e) ↦ omega (arith, ap length e, length-prepend_most f (n / 10) ((48 + n % 10) ∷ s))
]

length-prepend_some : (f n : ℕ) → 0 < n → 0 < length (prepend (suc f) n [])
length-prepend_some f n h = elim (prepend-cases f n []) [
  | inl (z, e) ↦ absurd (omega arith)
  | inr (more, e) ↦ omega (arith, ap length e, length-prepend f (n / 10) ((48 + n % 10) ∷ []))
]

length_loop-prepend :
    (f n : ℕ) (s : List ℕ)
    → n < power_of_ten f
    → length_loop (suc f) n (length s) ≡ done (length (prepend f n s))
unfolding length_loop
length_loop-prepend zero n s h = let z : n ≡ 0 = omega arith in rw z refl
length_loop-prepend (suc f) n s h = elim (prepend-cases f n s) [
  | inl (z, e) ↦
      ap (λ m. length_loop (suc (suc f)) m (length s)) z ∙ ap (λ t. done (length t)) (sym e)
  | inr (more, e) ↦
      let go : (n == 0) ≡ false = ground arith in
      let next : length_loop (suc (suc f)) n (length s)
          ≡ length_loop (suc f) (n / 10) (length s + 1) =
        rw (length_loop, go) in
      next
      ∙ ap (length_loop (suc f) (n / 10)) (omega arith)
      ∙ length_loop-prepend f (n / 10) ((48 + n % 10) ∷ s) (omega arith)
      ∙ ap (λ t. done (length t)) (sym e)
]

-- The memory holds the bytes `s` from `p` on.
abbrev pub Holds : Ram → ℕ → List ℕ → Type 0
Holds ram p [] = Unit {0}
Holds ram p (c ∷ s) = (ram p ≡ c) × Holds ram (p + 1) s

pub Holds-congr :
    (ram ram' : Ram) (p : ℕ) (s : List ℕ)
    → ((b : ℕ) → p ≤ b → b < p + length s → ram' b ≡ ram b)
    → Holds ram p s
    → Holds ram' p s
Holds-congr ram ram' p [] same h = tt
Holds-congr ram ram' p (c ∷ s) same h = (
  same p (omega arith) (omega arith) ∙ h.0,
  Holds-congr ram ram' (p + 1) s (λ b lo hi. same b (omega arith) (omega arith)) h.1,
)

-- Digits with a zero byte behind them are a text.
pub Holds-IsText :
    (ram : Ram) (p : ℕ) (s : List ℕ)
    → Holds ram p s
    → AllDigits s
    → ram (p + length s) ≡ 0
    → IsText ram p s
Holds-IsText ram p [] h d e = ap ram (omega arith) ∙ e
Holds-IsText ram p (c ∷ s) h d e =
    (h.0, omega (arith, d.0), Holds-IsText ram (p + 1) s h.1 d.2 (ap ram (omega arith) ∙ e))

module _ (string base : ℕ) where
  digits_loop-stop :
      (f : ℕ) (ram : Ram) (index : ℕ) → digits_loop (suc f) ram string 0 index ≡ done ram
  unfolding digits_loop
  digits_loop-stop f ram index = refl

  digits_loop-go :
      (f : ℕ) (ram : Ram) (n index : ℕ)
      → 0 < n
      → digits_loop (suc f) ram string n index
        ≡ digits_loop f
            (poke ram (string + index) (48 + n % 10))
            string
            (n / 10)
            (w32 (index + 2 ^ 32 - 1))
  unfolding digits_loop
  digits_loop-go f ram n index h = let go : (n == 0) ≡ false = ground arith in rw (digits_loop, go)

  -- The digits loop writes the digits of `n` in front of those that are there.
  digits_loop-Holds :
      (f n e index : ℕ) (ram : Ram) (s : List ℕ)
      → n < power_of_ten f
      → e < 2 ^ 32
      → index ≡ w32 (e + 2 ^ 32 - 1)
      → e + length s ≡ base + length (prepend f n s)
      → Holds ram (string + e) s
      → (ram' : Ram) × (digits_loop (suc f) ram string n index ≡ done ram')
        × Holds ram' (string + base) (prepend f n s)
        × ((b : ℕ) → (b < string + base) ⊎ (string + e ≤ b) → ram' b ≡ ram b)
  digits_loop-Holds zero n e index ram s hn he hi len held =
      let z : n ≡ 0 = omega arith in
      (
        ram,
        ap (λ m. digits_loop 1 ram string m index) z ∙ digits_loop-stop 0 ram index,
        subst (λ p. Holds ram (string + p) s) (omega arith) held,
        λ b h. refl,
      )
  digits_loop-Holds (suc f) n e index ram s hn he hi len held = elim (prepend-cases f n s) [
    | inl (z, same) ↦ (
      ram,
      ap (λ m. digits_loop (suc (suc f)) ram string m index) z ∙ digits_loop-stop (suc f) ram index,
      subst₂ (λ p t. Holds ram (string + p) t) (omega (arith, ap length same)) (sym same) held,
      λ b h. refl,
    )
    | inr (more, same) ↦
        let c : ℕ = 48 + n % 10 in
        let room : 0 < e = omega (arith, ap length same, length-prepend f (n / 10) (c ∷ s)) in
        let at : index ≡ e - 1 = omega arith in
        let ram₁ : Ram = poke ram (string + index) c in
        let (ram', run, held', kept) =
          digits_loop-Holds f (n / 10) (e - 1) (w32 (index + 2 ^ 32 - 1)) ram₁ (c ∷ s) (omega arith)
            (omega arith) (ap (λ i. w32 (i + 2 ^ 32 - 1)) at) (omega (arith, ap length same))
            (
              ground arith,
              subst (λ p. Holds ram₁ p s) (omega arith)
                  (Holds-congr ram ram₁ (string + e) s (λ b lo hi. ground arith) held),
            ) in
        (
          ram',
          digits_loop-go (suc f) ram n index more ∙ run,
          subst (Holds ram' (string + base)) (sym same) held',
          λ b h.
              kept b (omega (arith, ap length same, length-prepend f (n / 10) (c ∷ s)))
              ∙ ground (arith, ap length same, length-prepend f (n / 10) (c ∷ s)),
        )
  ]

-- The digits of a number below ten billion.
pub digits_of : ℕ → List ℕ
digits_of n = prepend 10 n []

pub digits_of-AllDigits : (n : ℕ) → AllDigits (digits_of n)
unfolding digits_of
digits_of-AllDigits n = prepend-AllDigits 10 n [] tt

pub value-digits_of : (n : ℕ) → n < 10 ^ 10 → value 0 (digits_of n) ≡ n
unfolding digits_of
value-digits_of n h = value-prepend 10 n [] h

pub length-digits_of : (n : ℕ) → 0 < n → (0 < length (digits_of n)) × (length (digits_of n) ≤ 10)
unfolding digits_of
length-digits_of n h = (length-prepend_some 9 n h, length-prepend_most 10 n [])

pub length_loop-digits_of : (n : ℕ) → n < 10 ^ 10 → length_loop 11 n 0 ≡ done (length (digits_of n))
unfolding digits_of
length_loop-digits_of n h = length_loop-prepend 10 n [] h

pub digits_loop-digits_of :
    (string base n index : ℕ) (ram : Ram)
    → 0 < n
    → n < 10 ^ 10
    → base + 11 < 2 ^ 32
    → index + 1 ≡ base + length (digits_of n)
    → (ram' : Ram) × (digits_loop 11 ram string n index ≡ done ram')
      × Holds ram' (string + base) (digits_of n)
      × ((b : ℕ)
          → (b < string + base) ⊎ (string + (base + length (digits_of n)) ≤ b)
          → ram' b ≡ ram b)
unfolding digits_of
digits_loop-digits_of string base n index ram h small low at =
    let most : length (prepend 10 n []) ≤ 10 = length-prepend_most 10 n [] in
    digits_loop-Holds string base 10 n (base + length (prepend 10 n [])) index ram [] small
      (omega (arith, most)) (omega (arith, most)) (omega arith) tt
