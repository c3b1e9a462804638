-- ===== src/Text/Search.antt =====
-- `str_index_of`: the first place of a byte in a text.
use koko_os.Prelude.{
  ℕ, zero, suc, ◌+◌, ◌≤◌, ◌<◌, ◌^◌, ◌≡◌, ◌≢◌, refl, List, ◌∙◌, ap, arith, length, get_or, done,
  ◌==◌, false, pos, minus, Bool-cases, inl, inr, ◌⊎◌, lt-cases,
}
use koko_os.Ram.{Ram}
use koko_os.Text.{str_index_of_loop, str_index_of}
use koko_os.Text.View.{IsText, IsText-get, IsText-end}
use koko_os.Text.Strlen.{strlen-length}

module _ (ram : Ram) (str needle : ℕ) where
  -- Of the `n` places from `i` on, the first that holds `needle`.
  record FirstAt (i n k : ℕ) : Type 0 where
    within : (i ≤ k) × (k < i + n)
    hit : ram (str + k) ≡ needle
    before : (j : ℕ) → i ≤ j → j < k → ram (str + j) ≢ needle

  index_loop-cases :
      (n i : ℕ)
      → ((k : ℕ) × (str_index_of_loop n ram str needle i ≡ pos k) × FirstAt i n k)
        ⊎ ((str_index_of_loop n ram str needle i ≡ minus 1)
            × ((j : ℕ) → i ≤ j → j < i + n → ram (str + j) ≢ needle))
  unfolding str_index_of_loop
  index_loop-cases zero i = inr (refl, λ j lo hi e. absurd (omega arith))
  index_loop-cases (suc n) i = elim (Bool-cases (ram (str + i) == needle)) [
    | inl hit ↦ inl (
      i,
      rw hit,
      record { within = omega arith; hit = ground arith; before = λ j lo hi. absurd (omega arith) },
    )
    | inr miss ↦ elim (index_loop-cases n (i + 1)) [
      | inl (k, run, f) ↦ inl (
        k,
        rw miss run,
        record {
          within = omega (arith, f.within);
          hit = f.hit;
          before = λ j lo hi e. elim (lt-cases i j) [
            | inl later ↦ f.before j (omega arith) hi e
            | inr now ↦ ground arith
          ];
        },
      )
      | inr (run, none_later) ↦ inr (
        rw miss run,
        λ j lo hi e. elim (lt-cases i j) [
          | inl later ↦ none_later j (omega arith) (omega arith) e
          | inr now ↦ ground arith
        ],
      )
    ]
  ]

  -- What `str_index_of` says of a text: the first place of the byte, or that it does not occur.
  abbrev pub IndexOf : List ℕ → Type 0
  IndexOf s =
      ((k : ℕ) × (str_index_of ram str needle ≡ done (pos k))
        × (k < length s)
        × (get_or s k 0 ≡ needle)
        × ((j : ℕ) → j < k → get_or s j 0 ≢ needle))
      ⊎ ((str_index_of ram str needle ≡ done (minus 1))
          × ((j : ℕ) → j < length s → get_or s j 0 ≢ needle))

  module _ (s : List ℕ) (t : IsText ram str s) (short : length s < 2 ^ 16) where
    index_of-loop :
        ram (str + 0) ≢ needle
        → str_index_of ram str needle ≡ done (str_index_of_loop (length s) ram str needle 0)
    unfolding str_index_of
    index_of-loop h =
        let e : (ram (str + 0) == needle) ≡ false = ground arith in
        rw (e, strlen-length ram str s t short)

    index_of-first : ram (str + 0) ≡ needle → str_index_of ram str needle ≡ done (pos 0)
    unfolding str_index_of
    index_of-first h = rw h (ground arith)

    nonempty : needle ≢ 0 → ram (str + 0) ≡ needle → 0 < length s
    nonempty nonzero hit = elim (lt-cases 0 (length s)) [
      | inl some_byte ↦ some_byte
      | inr empty ↦
          let e : str + length s ≡ str + 0 = omega arith in
          absurd (nonzero (ground (arith, ap ram e, IsText-end ram str s t)))
    ]

    -- `str_index_of` of a byte that is not zero in a text of less than 65536 bytes returns the first
    -- place of the byte if it occurs, and -1 if it does not.
    pub str_index_of_lem : needle ≢ 0 → IndexOf s
    str_index_of_lem nonzero = elim (Bool-cases (ram (str + 0) == needle)) [
      | inl hit ↦
          let hit' : ram (str + 0) ≡ needle = ground arith in
          let some_byte : 0 < length s = nonempty nonzero hit' in
          inl (
            0,
            index_of-first hit',
            some_byte,
            ground (arith, IsText-get ram str s 0 t some_byte),
            λ j lo. absurd (omega arith),
          )
      | inr miss ↦ elim (index_loop-cases (length s) 0) [
        | inl (k, run, f) ↦ inl (
          k,
          index_of-loop (ground arith) ∙ ap done run,
          omega (arith, f.within),
          ground (arith, f.hit, f.within, IsText-get ram str s k t (omega (arith, f.within))),
          λ j lo e.
              f.before j (omega arith) lo
                ((IsText-get ram str s j t (omega (arith, f.within))).0 ∙ e),
        )
        | inr (run, nowhere) ↦ inr (
          index_of-loop (ground arith) ∙ ap done run,
          λ j lo e. nowhere j (omega arith) (omega arith) ((IsText-get ram str s j t lo).0 ∙ e),
        )
      ]
    ]
