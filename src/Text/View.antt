-- ===== src/Text/View.antt =====
-- The text that a `char*` stands for.
use koko_os.Prelude.{
  ℕ, zero, suc, ◌+◌, ◌≤◌, ◌<◌, ◌≡◌, ◌≢◌, List, [], ◌∷◌, ◌∙◌, arith, length, get_or,
}
use koko_os.Ram.{Ram}

-- From address `p` on the memory holds the bytes of `s`, none of them zero, and a zero byte.
abbrev pub IsText : Ram → ℕ → List ℕ → Type 0
IsText ram p [] = ram p ≡ 0
IsText ram p (c ∷ s) = (ram p ≡ c) × (c ≢ 0) × IsText ram (p + 1) s

-- Every byte of a text is a byte.
abbrev pub AllBytes : List ℕ → Type 0
AllBytes [] = Unit {0}
AllBytes (c ∷ s) = (c < 256) × AllBytes s

pub IsText-get :
    (ram : Ram) (p : ℕ) (s : List ℕ) (i : ℕ)
    → IsText ram p s
    → i < length s
    → (ram (p + i) ≡ get_or s i 0) × (get_or s i 0 ≢ 0)
IsText-get ram p [] i t h = absurd (omega arith)
IsText-get ram p (c ∷ s) zero t h = ground arith
IsText-get ram p (c ∷ s) (suc i) t h =
    let e : p + suc i ≡ p + 1 + i = omega arith in
    rw e (IsText-get ram (p + 1) s i t.2 (omega arith))

pub IsText-end : (ram : Ram) (p : ℕ) (s : List ℕ) → IsText ram p s → ram (p + length s) ≡ 0
IsText-end ram p [] t = ground arith
IsText-end ram p (c ∷ s) t =
    let e : p + suc (length s) ≡ p + 1 + length s = omega arith in
    rw e (IsText-end ram (p + 1) s t.2)

-- A text depends on its own bytes only.
pub IsText-congr :
    (ram ram' : Ram) (p : ℕ) (s : List ℕ)
    → ((b : ℕ) → p ≤ b → b ≤ p + length s → ram' b ≡ ram b)
    → IsText ram p s
    → IsText ram' p s
IsText-congr ram ram' p [] same t = same p (omega arith) (omega arith) ∙ t
IsText-congr ram ram' p (c ∷ s) same t = (
  same p (omega arith) (omega arith) ∙ t.0,
  t.1,
  IsText-congr ram ram' (p + 1) s (λ b lo hi. same b (omega arith) (omega arith)) t.2,
)

-- The same bytes at another place are the same text.
pub IsText-move :
    (ram ram' : Ram) (p q : ℕ) (s : List ℕ)
    → ((k : ℕ) → k ≤ length s → ram' (q + k) ≡ ram (p + k))
    → IsText ram p s
    → IsText ram' q s
IsText-move ram ram' p q [] same t = ground (arith, same 0 (omega arith))
IsText-move ram ram' p q (c ∷ s) same t = (
  ground (arith, same 0 (omega arith)),
  t.1,
  IsText-move ram ram' (p + 1) (q + 1) s (λ k hk. ground (arith, same (suc k) (omega arith))) t.2,
)
