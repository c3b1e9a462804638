-- ===== src/Terminal/Tests.antt =====
-- A screen with the cursor in its second row, and the text "Hi" at 100.
use koko_os.Prelude.{ℕ, ◌<◌, ◌≤◌, ◌≡◌, refl, arith, done, List, [], ◌∷◌}
use koko_os.Ram.{Ram, poke}
use koko_os.Terminal.{Screen, clear, print, println}
use koko_os.Terminal.Cells.{IsScreen, cells, clear_lem}
use koko_os.Terminal.Print.{Shows, print-Shows, println-IsScreen}
use koko_os.Text.View.{IsText}

abbrev screen : Screen
screen = record { video_mem = λ i. 0; current_terminal_x = 3; current_terminal_y = 1 }

screen-IsScreen : IsScreen screen
screen-IsScreen = record { column = omega arith; row = omega arith }

abbrev greeting : Ram
greeting = poke (poke (λ b. 0) 100 72) 101 105

abbrev hi : List ℕ
hi = 72 ∷ 105 ∷ []

greeting-IsText : IsText greeting 100 hi
greeting-IsText = (refl, omega arith, (refl, omega arith, refl))

clear_lem_example :
    ((i : ℕ) → i < cells → (clear screen).video_mem i ≡ 0)
    × ((i : ℕ) → cells ≤ i → (clear screen).video_mem i ≡ screen.video_mem i)
    × ((clear screen).current_terminal_x ≡ 0)
    × ((clear screen).current_terminal_y ≡ 0)
clear_lem_example = clear_lem screen

print-Shows_example : (s' : Screen) × (print greeting screen 100 ≡ done s') × Shows screen s' hi
print-Shows_example =
    print-Shows greeting 100 hi screen greeting-IsText (omega arith) (omega arith) (omega arith)
      (omega arith)

println-IsScreen_example :
    (s' : Screen) × (println greeting screen 100 ≡ done s')
    × IsScreen s'
    × (s'.current_terminal_x ≡ 0)
    × ((j : ℕ) → cells ≤ j → s'.video_mem j ≡ screen.video_mem j)
println-IsScreen_example =
    println-IsScreen greeting 100 hi screen greeting-IsText (omega arith) screen-IsScreen
