-- ===== src/Path/Tests.antt =====
-- The path "0:/a" at 0x100, the literal ":/" at 0x200 and the local buffer at 0x300.
use koko_os.Prelude.{refl, inr, arith, [], ◌∷◌}
use koko_os.Ram.{Ram, poke}
use koko_os.Text.View.{IsText}
use koko_os.Path.Valid.{separator, Answered, is_path_valid_lem}

abbrev ram : Ram
ram =
    poke (poke (poke (poke (poke (poke (λ b. 0) 0x100 48) 0x101 58) 0x102 47) 0x103 97) 0x200 58)
      0x201 47

path-IsText : IsText ram 0x100 (48 ∷ 58 ∷ 47 ∷ 97 ∷ [])
path-IsText =
    (refl, omega arith, (refl, omega arith, (refl, omega arith, (refl, omega arith, refl))))

literal-IsText : IsText ram 0x200 separator
literal-IsText = (refl, omega arith, (refl, omega arith, refl))

is_path_valid_lem_example : Answered ram 0x100 0x300 0x200 48 58 47 (97 ∷ [])
is_path_valid_lem_example =
    is_path_valid_lem ram 0x100 0x300 0x200 48 58 47 (97 ∷ []) path-IsText (omega arith)
      (omega arith, (omega arith, (omega arith, (omega arith, tt)))) literal-IsText
      (inr (omega arith)) (inr (omega arith))
