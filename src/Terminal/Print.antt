-- ===== src/Terminal/Print.antt =====
-- What `print` and `println` show of a text.
use koko_os.Prelude.{
  ℕ, zero, suc, ◌+◌, ◌*◌, ◌%◌, ◌^◌, ◌≤◌, ◌<◌, ◌≡◌, ◌≢◌, refl, ◌∙◌, sym, ap, ◌⊎◌, arith, ◌==◌, leb,
  List, [], ◌∷◌, length, get_or, done, false,
}
use mathlib.Core.Path.{subst}
use koko_os.Ram.{Ram}
use koko_os.Text.{strlen}
use koko_os.Text.View.{IsText, AllBytes}
use koko_os.Text.Strlen.{strlen-length}
use koko_os.Terminal.{
  Screen, vga_width, vga_height, eol, put, make_char, place, write_char, print_loop, print, println,
  newline,
}
use koko_os.Terminal.Cells.{white_cell, make_char-white, cells, IsScreen, write_char-IsScreen}

-- No byte of the text is a line end.
abbrev pub OneLine : List ℕ → Type 0
OneLine [] = Unit {0}
OneLine (c ∷ s) = (c ≢ eol) × OneLine s

-- The screen with a character at the cursor, which has moved one column on.
abbrev with_char : Screen → (c color : ℕ) → Screen
with_char s c color = record {
  video_mem =
      put s.video_mem (s.current_terminal_y * vga_width + s.current_terminal_x) (make_char c color);
  current_terminal_x = s.current_terminal_x + 1;
  current_terminal_y = s.current_terminal_y;
}

-- A visible character on a row with room is written at the cursor.
write_char_room :
    (s : Screen) (c color : ℕ)
    → c ≢ eol
    → s.current_terminal_x < vga_width
    → s.current_terminal_y < vga_height
    → write_char s c color ≡ with_char s c color
unfolding write_char place
write_char_room s c color h hx hy =
    let visible : (c == eol) ≡ false = ground arith in
    let room : leb vga_width s.current_terminal_x ≡ false = ground arith in
    let inside : leb vga_height s.current_terminal_y ≡ false = ground arith in
    let next : (s.current_terminal_x + 1) % 2 ^ 16 ≡ s.current_terminal_x + 1 = omega arith in
    rw (visible, room, inside, next)

newline-column : (s : Screen) → (newline s).current_terminal_x ≡ 0
unfolding newline write_char
newline-column s = refl

-- What the screen shows after `text` has been written at the cursor of `s`.
pub record Shows (s s' : Screen) (text : List ℕ) : Type 0 where
  pub shown :
      (k : ℕ)
      → k < length text
      → s'.video_mem (s.current_terminal_y * vga_width + s.current_terminal_x + k)
        ≡ white_cell (get_or text k 0)
  pub kept :
      (i : ℕ)
      → (i < s.current_terminal_y * vga_width + s.current_terminal_x)
        ⊎ (s.current_terminal_y * vga_width + s.current_terminal_x + length text ≤ i)
      → s'.video_mem i ≡ s.video_mem i
  pub column : s'.current_terminal_x ≡ s.current_terminal_x + length text
  pub row : s'.current_terminal_y ≡ s.current_terminal_y

Shows-cons :
    (s s' : Screen) (c : ℕ) (text : List ℕ)
    → c < 256
    → Shows (with_char s c 0xF) s' text
    → Shows s s' (c ∷ text)
Shows-cons s s' c text byte h = record {
  shown = λ k hk. at k hk;
  kept = λ i out. h.kept i (omega arith) ∙ ground arith;
  column = omega (arith, h.column);
  row = h.row;
}
  where
    at :
        (k : ℕ)
        → k < suc (length text)
        → s'.video_mem (s.current_terminal_y * vga_width + s.current_terminal_x + k)
          ≡ white_cell (get_or {A = ℕ} (c ∷ text) k 0)
    at zero hk = ground (
      arith,
      h.kept (s.current_terminal_y * vga_width + s.current_terminal_x + 0) (omega arith),
      make_char-white c byte,
    )
    at (suc k) hk = ground (arith, h.shown k (omega arith))

module _ (ram : Ram) (msg : ℕ) where
  print_loop-Shows :
      (text : List ℕ) (s : Screen) (p i : ℕ)
      → p ≡ msg + i
      → IsText ram p text
      → OneLine text
      → AllBytes text
      → s.current_terminal_x + length text ≤ vga_width
      → s.current_terminal_y < vga_height
      → Shows s (print_loop (length text) ram s msg i) text
  unfolding print_loop
  print_loop-Shows [] s p i e t line all hx hy = record {
    shown = λ k hk. absurd (omega arith);
    kept = λ j h. refl;
    column = omega arith;
    row = refl;
  }
  print_loop-Shows (c ∷ text) s p i e t line all hx hy =
      let byte : ram (msg + i) ≡ c = ap ram (sym e) ∙ t.0 in
      let written : write_char s (ram (msg + i)) 0xF ≡ with_char s c 0xF =
        ap (λ b. write_char s b 0xF) byte ∙ write_char_room s c 0xF line.0 (omega arith) hy in
      let shown = print_loop (length text) ram (with_char s c 0xF) msg (i + 1) in
      subst (λ w. Shows s (print_loop (length text) ram w msg (i + 1)) (c ∷ text)) (sym written)
        (Shows-cons s shown c text all.0 (
          print_loop-Shows text (with_char s c 0xF) (p + 1) (i + 1) (omega arith) t.2 line.1 all.1
            (omega arith) hy))

  -- `print` of a text of bytes of one line that fits the cursor's row writes a cell for each byte
  -- from the cursor on, changes no other cell and leaves the cursor behind it. The cell of a byte
  -- below 128 is the byte, with the colour white (15) in the high half; that of any other byte has
  -- 255 there, as the sign of a `char` is extended.
  pub print-Shows :
      (text : List ℕ) (s : Screen)
      → IsText ram msg text
      → OneLine text
      → AllBytes text
      → s.current_terminal_x + length text ≤ vga_width
      → s.current_terminal_y < vga_height
      → (s' : Screen) × (print ram s msg ≡ done s') × Shows s s' text
  unfolding print
  print-Shows text s t line all hx hy = (
    print_loop (length text) ram s msg 0,
    rw (strlen-length ram msg text t (omega arith)),
    print_loop-Shows text s msg 0 (omega arith) t line all hx hy,
  )

  print_loop-IsScreen :
      (n : ℕ) (s : Screen) (i : ℕ)
      → IsScreen s
      → IsScreen (print_loop n ram s msg i)
        × ((j : ℕ) → cells ≤ j → (print_loop n ram s msg i).video_mem j ≡ s.video_mem j)
  unfolding print_loop
  print_loop-IsScreen zero s i v = (v, λ j h. refl)
  print_loop-IsScreen (suc n) s i v =
      let (v', kept) = write_char-IsScreen s (ram (msg + i)) 0xF v in
      let (v'', kept') = print_loop-IsScreen n (write_char s (ram (msg + i)) 0xF) (i + 1) v' in
      (v'', λ j h. kept' j h ∙ kept j h)

  println-run :
      (n : ℕ) (s : Screen)
      → strlen ram msg ≡ done n
      → println ram s msg ≡ done (newline (print_loop n ram s msg 0))
  unfolding println print
  println-run n s e = rw (e, println)

  -- Whatever a text of less than 65536 bytes holds, `println` returns, writes no cell outside the
  -- screen, and leaves a valid cursor in the first column.
  pub println-IsScreen :
      (text : List ℕ) (s : Screen)
      → IsText ram msg text
      → length text < 2 ^ 16
      → IsScreen s
      → (s' : Screen) × (println ram s msg ≡ done s')
        × IsScreen s'
        × (s'.current_terminal_x ≡ 0)
        × ((j : ℕ) → cells ≤ j → s'.video_mem j ≡ s.video_mem j)
  unfolding newline
  println-IsScreen text s t short v =
      let shown : Screen = print_loop (length text) ram s msg 0 in
      let (v', kept) = print_loop-IsScreen (length text) s 0 v in
      let (v'', kept') = write_char-IsScreen shown eol 0 v' in
      (
        newline shown,
        println-run (length text) s (strlen-length ram msg text t short),
        v'',
        newline-column shown,
        λ j h. kept' j h ∙ kept j h,
      )
