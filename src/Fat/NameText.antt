-- ===== src/Fat/NameText.antt =====
-- The text that the name of a directory item becomes.
use koko_os.Prelude.{
  ℕ, ◌+◌, ◌*◌, ◌/◌, ◌≤◌, ◌<◌, ◌≡◌, refl, ◌∙◌, ◌⊎◌, List, [], ◌∷◌, ◌++◌, length, arith, true, false,
  done,
}
use koko_os.Ram.{Ram, poke, memset}
use koko_os.Ram.Memset.{memset_outside, memset_zero}
use koko_os.Text.View.{IsText}
use koko_os.Fat.{ext_of}
use koko_os.Fat.Names.{ends_field, to_proper_string, get_full_relative_filename}
use koko_os.Fat.Fields.{
  IsField, dotted, Copied, IsField-congr, field-IsText, field-IsText_end, to_proper_string-Copied,
}

-- The run with no extension, and with one.
name_only :
    (ram ram' : Ram) (item out max_len out_tmp : ℕ)
    → to_proper_string (memset ram out 0x00 max_len) out item ≡ done (ram', out_tmp)
    → ends_field (ram' (ext_of item)) ≡ true
    → get_full_relative_filename ram item out max_len ≡ done ram'
unfolding get_full_relative_filename
name_only ram ram' item out max_len out_tmp run none = rw (run, none) refl

name_dotted :
    (ram ram' ram'' : Ram) (item out max_len out_tmp last : ℕ)
    → to_proper_string (memset ram out 0x00 max_len) out item ≡ done (ram', out_tmp)
    → ends_field (ram' (ext_of item)) ≡ false
    → to_proper_string (poke ram' out_tmp 46) (out_tmp + 1) (ext_of item) ≡ done (ram'', last)
    → get_full_relative_filename ram item out max_len ≡ done ram''
unfolding get_full_relative_filename
name_dotted ram ram' ram'' item out max_len out_tmp last run some run' = rw (run, some, run') refl

module _ (ram : Ram) (item out max_len : ℕ) where
  -- The text of the name and nothing else: the memory outside the output is as before.
  pub record Named (text : List ℕ) : Type 0 where
    pub ram' : Ram
    pub returns : get_full_relative_filename ram item out max_len ≡ done ram'
    pub text_there : IsText ram' out text
    pub kept : (b : ℕ) → (b < out) ⊎ (out + max_len ≤ b) → ram' b ≡ ram b

  module _ (base : List ℕ) (name : IsField ram item base) (short : length base < 32)
      (room : length base + 28 ≤ max_len) (apart : (out + max_len ≤ item) ⊎ (item + 32 ≤ out)) where
    abbrev cleared : Ram
    cleared = memset ram out 0x00 max_len

    cleared-kept : (b : ℕ) → (b < out) ⊎ (out + max_len ≤ b) → cleared b ≡ ram b
    cleared-kept b h = memset_outside ram out 0 max_len b (omega arith)

    cleared-zero : (k : ℕ) → k < max_len / 4 * 4 → cleared (out + k) ≡ 0
    cleared-zero k h = memset_zero ram out max_len (out + k) (omega arith) (omega arith)

    first-Copied :
        (ram' : Ram) × (to_proper_string cleared out item ≡ done (ram', out + length base))
        × Copied out item (length base) cleared ram'
    first-Copied =
        to_proper_string-Copied base cleared out item
          (IsField-congr ram cleared item base (λ b lo hi. cleared-kept b (omega arith)) name)
          (omega arith) (omega arith)

    name-Named : ends_field (ram (ext_of item)) ≡ true → Named (base ++ [])
    name-Named none =
        let (ram', run, copied) = first-Copied in
        let kept = λ (b : ℕ) (h : (b < out) ⊎ (out + max_len ≤ b)).
          copied.kept b (omega arith) ∙ cleared-kept b h in
        record {
          ram' = ram';
          returns =
              name_only ram ram' item out max_len (out + length base) run
                (rw (kept (ext_of item) (omega arith)) none);
          text_there =
              field-IsText ram ram' item out base [] name
                (λ k hk. copied.bytes k hk ∙ cleared-kept (item + k) (omega arith))
                (copied.stop (cleared-zero (length base) (omega arith)));
          kept = kept;
        }

    dotted-Named :
        (c : ℕ) (s : List ℕ)
        → IsField ram (ext_of item) (c ∷ s)
        → length (c ∷ s) < 24
        → Named (base ++ dotted (c ∷ s))
    dotted-Named c s ext few =
        let (ram₁, run, copied) = first-Copied in
        let o : ℕ = out + length base in
        let kept₁ = λ (b : ℕ) (h : (b < out) ⊎ (out + max_len ≤ b)).
          copied.kept b (omega arith) ∙ cleared-kept b h in
        let dot : Ram = poke ram₁ o 46 in
        let field : IsField dot (ext_of item) (c ∷ s) =
          IsField-congr ram dot (ext_of item) (c ∷ s)
            (λ b lo hi. ground (arith, kept₁ b (omega arith))) ext in
        let (ram₂, run', copied') =
          to_proper_string-Copied (c ∷ s) dot (o + 1) (ext_of item) field (omega arith)
            (omega arith) in
        let first_char : ram₁ (ext_of item) ≡ c = kept₁ (ext_of item) (omega arith) ∙ ext.0 in
        record {
          ram' = ram₂;
          returns =
              name_dotted ram ram₁ ram₂ item out max_len o (o + 1 + length (c ∷ s)) run
                (rw first_char ext.1) run';
          text_there =
              field-IsText ram ram₂ item out base (dotted (c ∷ s)) name
                (λ k hk.
                  copied'.kept (out + k) (omega arith)
                  ∙ ground (arith, copied.bytes k hk, cleared-kept (item + k) (omega arith)))
                (
                  ground (arith, copied'.kept o (omega arith)),
                  (λ z. omega arith),
                  field-IsText_end dot ram₂ (ext_of item) (o + 1) (c ∷ s) field copied'.bytes (
                      copied'.stop (
                        ground (
                          arith,
                          copied.kept (o + 1 + length (c ∷ s)) (omega arith),
                          cleared-zero (length base + 1 + length (c ∷ s)) (omega arith),
                        ))),
                );
          kept = λ b h. copied'.kept b (omega arith) ∙ ground (arith, kept₁ b h);
        }

  -- The name of a directory item as a text, whose output of `max_len` bytes and the item lie apart.
  -- The name's field holds the bytes of `base`, fewer than 32 and at most `max_len - 28`, and
  -- the extension's field those of `ext`, fewer than 24: none of them is zero or a space, and the
  -- byte behind each field is one. Then the call returns, and the output is the text of `base`, with
  -- a dot and `ext` behind it if `ext` is not empty. No byte outside the output changes.
  pub get_full_relative_filename_lem :
      (base ext : List ℕ)
      → IsField ram item base
      → IsField ram (ext_of item) ext
      → length base < 32
      → length ext < 24
      → length base + 28 ≤ max_len
      → (out + max_len ≤ item) ⊎ (item + 32 ≤ out)
      → Named (base ++ dotted ext)
  get_full_relative_filename_lem base [] name extension short few room apart =
      name-Named base name short room apart extension
  get_full_relative_filename_lem base (c ∷ s) name extension short few room apart =
      dotted-Named base name short room apart c s extension few
