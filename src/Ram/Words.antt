-- ===== src/Ram/Words.antt =====
-- Reading back what was stored, bytes and words.
use koko_os.Prelude.{ℕ, ◌+◌, ◌≤◌, ◌<◌, ◌^◌, ◌≡◌, ◌⊎◌, arith}
use koko_os.Ram.{Ram, store32, load32}

-- Every cell of the memory holds a byte.
abbrev pub IsBytes : Ram → Type 0
IsBytes ram = (a : ℕ) → ram a < 256

pub store32_outside : (ram : Ram) (a w b : ℕ) → (b < a) ⊎ (a + 4 ≤ b) → store32 ram a w b ≡ ram b
unfolding store32
store32_outside ram a w b h = ground arith

pub load32-store32_self : (ram : Ram) (a w : ℕ) → w < 2 ^ 32 → load32 (store32 ram a w) a ≡ w
unfolding load32 store32
load32-store32_self ram a w h = ground arith

pub load32-store32_other :
    (ram : Ram) (a w b : ℕ) → (b + 4 ≤ a) ⊎ (a + 4 ≤ b) → load32 (store32 ram a w) b ≡ load32 ram b
unfolding load32 store32
load32-store32_other ram a w b h = ground arith

-- A word read depends on its four bytes only.
pub load32_congr :
    (ram ram' : Ram) (a : ℕ)
    → ((b : ℕ) → a ≤ b → b < a + 4 → ram' b ≡ ram b)
    → load32 ram' a ≡ load32 ram a
unfolding load32
load32_congr ram ram' a h = ground (
  arith,
  h a (omega arith) (omega arith),
  h (a + 1) (omega arith) (omega arith),
  h (a + 2) (omega arith) (omega arith),
  h (a + 3) (omega arith) (omega arith),
)

pub store32-IsBytes : (ram : Ram) (a w : ℕ) → IsBytes ram → IsBytes (store32 ram a w)
unfolding store32
store32-IsBytes ram a w h b = ground (arith, h b)
