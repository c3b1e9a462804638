-- ===== src/Text/Tests.antt =====
-- The texts "Hi" at 100, "hI" at 200, and an endless one.
use koko_os.Prelude.{
  ℕ, ◌+◌, ◌-◌, ◌<◌, ◌≤◌, ◌≡◌, ◌⊎◌, ◌↔◌, inr, refl, arith, pos, done, hang, List, [], ◌∷◌,
}
use mathlib.Core.List.{map}
use koko_os.Ram.{Ram, poke}
use koko_os.Text.{strlen_loop, str_cmp, str_icmp, str_slice}
use koko_os.Text.View.{IsText, AllBytes}
use koko_os.Text.Strlen.{strlen_loop-hang}
use koko_os.Text.Compare.{fold_case, str_cmp-zero, str_icmp-zero}
use koko_os.Text.Copy.{str_slice_lem}
use koko_os.Text.Search.{IndexOf, str_index_of_lem}

abbrev texts : Ram
texts = poke (poke (poke (poke (λ b. 0) 100 72) 101 105) 200 104) 201 73

abbrev upper : List ℕ
upper = 72 ∷ 105 ∷ []

abbrev lower : List ℕ
lower = 104 ∷ 73 ∷ []

upper-IsText : IsText texts 100 upper
upper-IsText = (refl, omega arith, (refl, omega arith, refl))

lower-IsText : IsText texts 200 lower
lower-IsText = (refl, omega arith, (refl, omega arith, refl))

upper-AllBytes : AllBytes upper
upper-AllBytes = (omega arith, (omega arith, tt))

lower-AllBytes : AllBytes lower
lower-AllBytes = (omega arith, (omega arith, tt))

strlen_loop-hang_example : strlen_loop 100000 (λ b. 65) 0 0 ≡ hang
strlen_loop-hang_example = strlen_loop-hang (λ b. 65) 0 (λ k hk. omega arith) 100000 0 (omega arith)

str_cmp-zero_example : (str_cmp texts 100 200 ≡ done (pos 0)) ↔ (upper ≡ lower)
str_cmp-zero_example =
    str_cmp-zero texts 100 200 upper lower upper-IsText lower-IsText (omega arith) (omega arith)
      upper-AllBytes lower-AllBytes

str_icmp-zero_example :
    (str_icmp texts 100 200 ≡ done (pos 0)) ↔ (map fold_case upper ≡ map fold_case lower)
str_icmp-zero_example =
    str_icmp-zero texts 100 200 upper lower upper-IsText lower-IsText (omega arith) (omega arith)
      upper-AllBytes lower-AllBytes

str_slice_lem_example :
    (ram' : Ram) × (str_slice texts 300 100 0 1 ≡ done ram')
    × ((k : ℕ) → k ≤ 1 - 0 → ram' (300 + k) ≡ texts (100 + 0 + k))
    × (ram' (300 + (1 - 0 + 1)) ≡ 0)
    × ((b : ℕ) → (b < 300) ⊎ (300 + (1 - 0 + 1) < b) → ram' b ≡ texts b)
str_slice_lem_example =
    str_slice_lem texts 300 100 0 1 (omega arith) (omega arith) (inr (omega arith))

str_index_of_lem_example : IndexOf texts 100 105 upper
str_index_of_lem_example =
    str_index_of_lem texts 100 105 upper upper-IsText (omega arith) (omega arith)
