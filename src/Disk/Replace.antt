-- ===== src/Disk/Replace.antt =====
-- A range of bytes replaced by bytes from elsewhere: those of a disk by the memory's when it is
-- written, those of the memory by a disk's when it is read.
use koko_os.Prelude.{ℕ, ◌+◌, ◌-◌, ◌<◌, ◌≤◌, ◌≡◌, refl, ◌∙◌, sym, ap, ◌⊎◌, inl, inr, arith, lt-cases}

module _ (source : ℕ → ℕ) where
  -- The bytes `c'` are `c` with `n` bytes from `at` on replaced by those of the source from `ptr` on.
  pub record Replaced (at ptr n : ℕ) (c c' : ℕ → ℕ) : Type 0 where
    pub inside : (i : ℕ) → i < n → c' (at + i) ≡ source (ptr + i)
    pub outside : (i : ℕ) → (i < at) ⊎ (at + n ≤ i) → c' i ≡ c i

  pub Replaced-none : (at ptr : ℕ) (c : ℕ → ℕ) → Replaced at ptr 0 c c
  Replaced-none at ptr c = record { inside = λ i h. absurd (omega arith); outside = λ i h. refl }

  pub Replaced-append :
      (at ptr n k : ℕ) (c c' c'' : ℕ → ℕ)
      → Replaced at ptr n c c'
      → Replaced (at + n) (ptr + n) k c' c''
      → Replaced at ptr (n + k) c c''
  Replaced-append at ptr n k c c' c'' a b = record {
    inside = λ i h. elim (lt-cases i n) [
      | inl early ↦ b.outside (at + i) (omega arith) ∙ a.inside i early
      | inr late ↦
          let e : at + i ≡ at + n + (i - n) = omega arith in
          let e' : ptr + i ≡ ptr + n + (i - n) = omega arith in
          ap c'' e ∙ b.inside (i - n) (omega arith) ∙ ap source (sym e')
    ];
    outside = λ i h. b.outside i (omega arith) ∙ a.outside i (omega arith);
  }

  pub Replaced-at :
      (c c' : ℕ → ℕ) {at at' ptr ptr' n n' : ℕ}
      → at ≡ at'
      → ptr ≡ ptr'
      → n ≡ n'
      → Replaced at ptr n c c'
      → Replaced at' ptr' n' c c'
  Replaced-at c c' {at} {at'} {ptr} {ptr'} {n} {n'} p q r l = record {
    inside = λ i h.
        ap (λ x. c' (x + i)) (sym p)
        ∙ l.inside i (omega (arith, h, r))
        ∙ ap (λ x. source (x + i)) q;
    outside = λ i h. l.outside i (omega (arith, h, p, r));
  }
