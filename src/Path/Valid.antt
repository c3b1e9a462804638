-- ===== src/Path/Valid.antt =====
-- `path_parser_is_path_valid` against the form of a path.
use koko_os.Prelude.{
  ℕ, zero, suc, ◌+◌, ◌≤◌, ◌<◌, ◌≡◌, ◌^◌, refl, ◌∙◌, sym, ap, ◌⊎◌, inl, inr, ◌↔◌, arith, Bool, true,
  false, ltb, done, List, [], ◌∷◌, length, ℤ, pos, negsuc, Bool-cases, get_or,
}
use koko_os.Ram.{Ram}
use koko_os.Text.{is_digit, str_slice, str_cmp}
use koko_os.Text.View.{IsText, AllBytes, IsText-congr}
use koko_os.Text.Strlen.{strlen-length}
use koko_os.Text.Copy.{str_slice_lem}
use koko_os.Text.Compare.{str_cmp-zero, cmp_with-flip}
use koko_os.Path.{is_path_valid, test_separator, is_equal, max_path_size}

-- `":/"`
abbrev pub separator : List ℕ
separator = 58 ∷ 47 ∷ []

-- A digit, a colon and a slash, and 256 bytes in all at most.
abbrev pub IsPath : (c d e : ℕ) → List ℕ → Type 0
IsPath c d e r =
    (length (c ∷ d ∷ e ∷ r) ≤ max_path_size) × (is_digit c ≡ true) × (d ≡ 58) × (e ≡ 47)

-- What the comparison of two bytes with the separator says.
abbrev Verdict : (d e : ℕ) → ℤ → Type 0
Verdict d e order =
    ((is_equal order ≡ true) × (d ≡ 58) × (e ≡ 47))
    ⊎ ((is_equal order ≡ false) × ¬ ((d ≡ 58) × (e ≡ 47)))

verdict :
    (ram : Ram) (slice literal d e : ℕ) (order : ℤ)
    → str_cmp ram slice literal ≡ done order
    → ((str_cmp ram slice literal ≡ done (pos 0)) ↔ ((d ∷ e ∷ []) ≡ separator))
    → Verdict d e order
unfolding is_equal
verdict ram slice literal d e (pos zero) run zero_just =
    let same = zero_just.0 run in
    inl (refl, ap (λ l. get_or l 0 0) same, ap (λ l. get_or l 1 0) same)
verdict ram slice literal d e (pos (suc n)) run zero_just =
    inr (refl, λ (p, q). differs n (sym run ∙ zero_just.1 (rw (p, q) refl)))
  where
    differs : (n : ℕ) → done (pos (suc n)) ≡ done (pos 0) → ⊥
    differs n h = cc
verdict ram slice literal d e (negsuc n) run zero_just =
    inr (refl, λ (p, q). differs n (sym run ∙ zero_just.1 (rw (p, q) refl)))
  where
    differs : (n : ℕ) → done (negsuc n) ≡ done (pos 0) → ⊥
    differs n h = cc

compared :
    (ram : Ram) (slice literal d e : ℕ)
    → IsText ram slice (d ∷ e ∷ [])
    → IsText ram literal separator
    → d < 256
    → e < 256
    → (order : ℤ) × (str_cmp ram slice literal ≡ done order) × Verdict d e order
unfolding str_cmp
compared ram slice literal d e t u hd he =
    let (order, run, back) =
      cmp_with-flip (λ c. c) ram slice literal (d ∷ e ∷ []) separator t u (omega arith)
        (omega arith) in
    (
      order,
      run,
      verdict ram slice literal d e order run (
          str_cmp-zero ram slice literal (d ∷ e ∷ []) separator t u (omega arith) (omega arith)
            (hd, (he, tt)) (omega arith, (omega arith, tt))),
    )

meaning_of :
    (c d e : ℕ) (r : List ℕ) (order : ℤ)
    → Verdict d e order
    → length (c ∷ d ∷ e ∷ r) ≤ max_path_size
    → is_digit c ≡ true
    → ((is_equal order ≡ true) × IsPath c d e r) ⊎ ((is_equal order ≡ false) × ¬ IsPath c d e r)
meaning_of c d e r order (inl (equal, colon, slash)) fits digit =
    inl (equal, (fits, digit, colon, slash))
meaning_of c d e r order (inr (differs, other)) fits digit =
    inr (differs, λ (f, g, colon, slash). other (colon, slash))

-- The answer of the test, and what it says of the path.
pub record Answered (ram : Ram) (path slice literal c d e : ℕ) (r : List ℕ) : Type 0 where
  pub answer : Bool
  pub ram' : Ram
  pub returns : is_path_valid ram path slice literal ≡ done (answer, ram')
  pub meaning : ((answer ≡ true) × IsPath c d e r) ⊎ ((answer ≡ false) × ¬ IsPath c d e r)
  pub kept : (b : ℕ) → (b < slice) ⊎ (slice + 2 < b) → ram' b ≡ ram b

module _ (ram : Ram) (path slice literal c d e : ℕ) (r : List ℕ)
    (t : IsText ram path (c ∷ d ∷ e ∷ r)) (short : length (c ∷ d ∷ e ∷ r) < 2 ^ 16) where
  too_long :
      ltb max_path_size (length (c ∷ d ∷ e ∷ r)) ≡ true
      → is_path_valid ram path slice literal ≡ done (false, ram)
  unfolding is_path_valid
  too_long h = rw (strlen-length ram path (c ∷ d ∷ e ∷ r) t short, h)

  no_drive :
      ltb max_path_size (length (c ∷ d ∷ e ∷ r)) ≡ false
      → is_digit (ram (path + 0)) ≡ false
      → is_path_valid ram path slice literal ≡ done (false, ram)
  unfolding is_path_valid
  no_drive h g = rw (strlen-length ram path (c ∷ d ∷ e ∷ r) t short, h, g)

  judged :
      (ram' : Ram) (order : ℤ)
      → ltb max_path_size (length (c ∷ d ∷ e ∷ r)) ≡ false
      → is_digit (ram (path + 0)) ≡ true
      → str_slice ram slice path 1 2 ≡ done ram'
      → str_cmp ram' slice literal ≡ done order
      → is_path_valid ram path slice literal ≡ done (is_equal order, ram')
  unfolding is_path_valid test_separator
  judged ram' order h g sliced run =
      rw (strlen-length ram path (c ∷ d ∷ e ∷ r) t short, h, g, sliced, run)

  first_byte : is_digit (ram (path + 0)) ≡ is_digit c
  first_byte = ap is_digit (ap ram (omega arith) ∙ t.0)

  separated :
      ltb max_path_size (length (c ∷ d ∷ e ∷ r)) ≡ false
      → is_digit (ram (path + 0)) ≡ true
      → AllBytes (c ∷ d ∷ e ∷ r)
      → IsText ram literal separator
      → (slice + 2 < literal) ⊎ (literal + 2 < slice)
      → (slice ≤ path + 1) ⊎ (path + 2 < slice)
      → Answered ram path slice literal c d e r
  separated fits digit bytes u away apart =
      let (ram', sliced, copied, end, kept) =
        str_slice_lem ram slice path 1 2 (omega arith) (omega arith) apart in
      let text : IsText ram' slice (d ∷ e ∷ []) = (
        ap ram' (omega arith) ∙ copied 0 (omega arith) ∙ ap ram (omega arith) ∙ t.2.0,
        t.2.1,
        (
          copied 1 (omega arith) ∙ ap ram (omega arith) ∙ t.2.2.0,
          t.2.2.1,
          ap ram' (omega arith) ∙ end,
        ),
      ) in
      let literal' : IsText ram' literal separator =
        IsText-congr ram ram' literal separator (λ b lo hi. kept b (omega arith)) u in
      let (order, run, says) =
        compared ram' slice literal d e text literal' bytes.1.0 bytes.1.1.0 in
      record {
        answer = is_equal order;
        ram' = ram';
        returns = judged ram' order fits digit sliced run;
        meaning = meaning_of c d e r order says (ground (arith, fits)) (sym first_byte ∙ digit);
        kept = λ b h. kept b (omega arith);
      }

  -- For a text of three bytes or more, below 65536, with the literal `":/"` in memory and a local
  -- buffer whose three bytes are apart from the text's third byte on the left and from the literal,
  -- the test returns, and answers true just if the text has 256 bytes at most and starts with a
  -- digit, a colon and a slash. It writes no byte outside the three.
  pub is_path_valid_lem :
      AllBytes (c ∷ d ∷ e ∷ r)
      → IsText ram literal separator
      → (slice + 2 < literal) ⊎ (literal + 2 < slice)
      → (slice ≤ path + 1) ⊎ (path + 2 < slice)
      → Answered ram path slice literal c d e r
  is_path_valid_lem bytes u away apart =
      elim (Bool-cases (ltb max_path_size (length (c ∷ d ∷ e ∷ r)))) [
        | inl long ↦ record {
          answer = false;
          ram' = ram;
          returns = too_long long;
          meaning = inr (refl, λ (fits, digit, colon, slash). ground arith);
          kept = λ b h. refl;
        }
        | inr fits ↦ elim (Bool-cases (is_digit (ram (path + 0)))) [
          | inr none_there ↦ record {
            answer = false;
            ram' = ram;
            returns = no_drive fits none_there;
            meaning = inr (refl, λ (some, digit, colon, slash). ground (arith, first_byte));
            kept = λ b h. refl;
          }
          | inl digit ↦ separated fits digit bytes u away apart
        ]
      ]
