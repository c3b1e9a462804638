-- ===== src/Fat/Fields.antt =====
-- `fat16_to_proper_string`: the bytes of a padded field, copied up to its end.
use koko_os.Prelude.{
  ℕ, zero, suc, ◌+◌, ◌^◌, ◌≤◌, ◌<◌, ◌≡◌, ◌≢◌, refl, ◌∙◌, sym, ap, ◌⊎◌, List, [], ◌∷◌, ◌++◌, length,
  arith, true, false, done,
}
use koko_os.Ram.{Ram, poke}
use koko_os.Text.{address_space}
use koko_os.Text.View.{IsText}
use koko_os.Fat.Names.{ends_field, end_proper_string, to_proper_string_loop, to_proper_string}

-- From address `p` on stand the bytes of `s`, none of them zero or a space, and one that is.
abbrev pub IsField : Ram → ℕ → List ℕ → Type 0
IsField ram p [] = ends_field (ram p) ≡ true
IsField ram p (c ∷ s) = (ram p ≡ c) × (ends_field c ≡ false) × IsField ram (p + 1) s

-- The extension behind its dot, where there is one.
abbrev pub dotted : List ℕ → List ℕ
dotted [] = []
dotted (c ∷ s) = 46 ∷ c ∷ s

pub IsField-congr :
    (ram ram' : Ram) (p : ℕ) (s : List ℕ)
    → ((b : ℕ) → p ≤ b → b ≤ p + length s → ram' b ≡ ram b)
    → IsField ram p s
    → IsField ram' p s
IsField-congr ram ram' p [] same f = rw (same p (omega arith) (omega arith)) f
IsField-congr ram ram' p (c ∷ s) same f = (
  same p (omega arith) (omega arith) ∙ f.0,
  f.1,
  IsField-congr ram ram' (p + 1) s (λ b lo hi. same b (omega arith) (omega arith)) f.2,
)

not_zero : (c : ℕ) → ends_field c ≡ false → c ≢ 0
unfolding ends_field
not_zero c h = ground arith

-- A field that has been copied, with a text behind it.
pub field-IsText :
    (ram ram' : Ram) (p q : ℕ) (s t : List ℕ)
    → IsField ram p s
    → ((k : ℕ) → k < length s → ram' (q + k) ≡ ram (p + k))
    → IsText ram' (q + length s) t
    → IsText ram' q (s ++ t)
field-IsText ram ram' p q [] t f same rest = let e : q + 0 ≡ q = omega arith in rw (sym e) rest
field-IsText ram ram' p q (c ∷ s) t f same rest = (
  ground (arith, same 0 (omega arith), f.0),
  not_zero c f.1,
  field-IsText ram ram' (p + 1) (q + 1) s t f.2 (λ k hk. ground (arith, same (suc k) (omega arith)))
      (let e : q + 1 + length s ≡ q + suc (length s) = omega arith in rw e rest),
)

pub field-IsText_end :
    (ram ram' : Ram) (p q : ℕ) (s : List ℕ)
    → IsField ram p s
    → ((k : ℕ) → k < length s → ram' (q + k) ≡ ram (p + k))
    → ram' (q + length s) ≡ 0
    → IsText ram' q s
field-IsText_end ram ram' p q [] f same stop = ground (arith, stop)
field-IsText_end ram ram' p q (c ∷ s) f same stop = (
  ground (arith, same 0 (omega arith), f.0),
  not_zero c f.1,
  field-IsText_end ram ram' (p + 1) (q + 1) s f.2
      (λ k hk. ground (arith, same (suc k) (omega arith)))
      (let e : q + 1 + length s ≡ q + suc (length s) = omega arith in rw e stop),
)

-- What `fat16_to_proper_string` leaves of a field of `n` bytes.
pub record Copied (out in_ n : ℕ) (ram ram' : Ram) : Type 0 where
  pub bytes : (k : ℕ) → k < n → ram' (out + k) ≡ ram (in_ + k)
  pub stop : ram (out + n) ≡ 0 → ram' (out + n) ≡ 0
  pub kept : (b : ℕ) → (b < out) ⊎ (out + n < b) → ram' b ≡ ram b

Copied-suc :
    (out in_ n : ℕ) (ram ram' : Ram)
    → (out + suc n ≤ in_) ⊎ (in_ + suc n < out)
    → Copied (out + 1) (in_ + 1) n (poke ram out (ram in_)) ram'
    → Copied out in_ (suc n) ram ram'
Copied-suc out in_ n ram ram' apart c = record {
  bytes = λ k hk. byte k hk;
  stop = λ z. ground (arith, c.stop (ground arith));
  kept = λ b h. c.kept b (omega arith) ∙ ground arith;
}
  where
    byte : (k : ℕ) → k < suc n → ram' (out + k) ≡ ram (in_ + k)
    byte zero hk = ground (arith, c.kept (out + 0) (omega arith))
    byte (suc k) hk = ground (arith, c.bytes k (omega arith))

proper_stop :
    (n : ℕ) (ram : Ram) (out in_ : ℕ)
    → ends_field (ram in_) ≡ true
    → to_proper_string_loop (suc n) ram out in_ ≡ done (end_proper_string ram out in_)
unfolding to_proper_string_loop
proper_stop n ram out in_ h = rw (h, to_proper_string_loop) refl

proper_step :
    (n : ℕ) (ram : Ram) (out in_ : ℕ)
    → ends_field (ram in_) ≡ false
    → to_proper_string_loop (suc n) ram out in_
      ≡ to_proper_string_loop n (poke ram out (ram in_)) (out + 1) (in_ + 1)
unfolding to_proper_string_loop
proper_step n ram out in_ h = rw (h, to_proper_string_loop) refl

end-Copied : (ram : Ram) (out in_ : ℕ) → Copied out in_ 0 ram (end_proper_string ram out in_).0
unfolding end_proper_string
end-Copied ram out in_ = record {
  bytes = λ k hk. absurd (omega arith);
  stop = λ z. ground arith;
  kept = λ b h. ground arith;
}

proper_end :
    (ram : Ram) (out in_ : ℕ)
    → end_proper_string ram out in_ ≡ ((end_proper_string ram out in_).0, out + 0)
unfolding end_proper_string
proper_end ram out in_ = ground arith

loop-Copied :
    (s : List ℕ) (n : ℕ) (ram : Ram) (out in_ : ℕ)
    → IsField ram in_ s
    → length s < n
    → (out + length s ≤ in_) ⊎ (in_ + length s < out)
    → (ram' : Ram) × (to_proper_string_loop n ram out in_ ≡ done (ram', out + length s))
      × Copied out in_ (length s) ram ram'
loop-Copied s zero ram out in_ f fuel apart = absurd (omega arith)
loop-Copied [] (suc n) ram out in_ f fuel apart = (
  (end_proper_string ram out in_).0,
  proper_stop n ram out in_ f ∙ ap done (proper_end ram out in_),
  end-Copied ram out in_,
)
loop-Copied (c ∷ s) (suc n) ram out in_ f fuel apart =
    let next : Ram = poke ram out (ram in_) in
    let moved : IsField next (in_ + 1) s =
      IsField-congr ram next (in_ + 1) s (λ b lo hi. ground arith) f.2 in
    let (ram', run, copied) =
      loop-Copied s n next (out + 1) (in_ + 1) moved (omega arith) (omega arith) in
    let e : out + 1 + length s ≡ out + suc (length s) = omega arith in
    (
      ram',
      proper_step n ram out in_ (rw f.0 f.1) ∙ run ∙ ap (λ q. done (ram', q)) e,
      Copied-suc out in_ (length s) ram ram' apart copied,
    )

pub to_proper_string-Copied :
    (s : List ℕ) (ram : Ram) (out in_ : ℕ)
    → IsField ram in_ s
    → length s < 2 ^ 32
    → (out + length s ≤ in_) ⊎ (in_ + length s < out)
    → (ram' : Ram) × (to_proper_string ram out in_ ≡ done (ram', out + length s))
      × Copied out in_ (length s) ram ram'
unfolding to_proper_string
to_proper_string-Copied s ram out in_ f small apart =
    loop-Copied s address_space ram out in_ f small apart
