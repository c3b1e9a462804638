-- ===== src/Terminal.antt =====
-- The text screen of src/lib/terminal.c and src/lib/terminal.h: the 16-bit cells of the video
-- memory, row after row, and the cursor.
pub mod Cells
pub mod Print
pub mod Tests
use koko_os.Prelude.{
  ℕ, zero, suc, ◌+◌, ◌-◌, ◌*◌, ◌/◌, ◌%◌, ◌^◌, Bool, true, false, ltb, leb, ◌==◌, if◌then◌else◌,
  Outcome, done, ◌>>=◌, bit_or,
}
use koko_os.Ram.{Ram}
use koko_os.Text.{strlen}

abbrev pub vga_width : ℕ
vga_width = 80

abbrev pub vga_height : ℕ
vga_height = 20

-- `'\n'`
abbrev pub eol : ℕ
eol = 10

-- `video_mem[i]`, and the cursor. The coordinates are `uint16_t`.
pub record Screen : Type 0 where
  pub video_mem : ℕ → ℕ
  pub current_terminal_x : ℕ
  pub current_terminal_y : ℕ

abbrev pub put : (ℕ → ℕ) → ℕ → ℕ → ℕ → ℕ
put video_mem i v j = if i == j then v else video_mem j

-- A `char` as an `int`, in its low sixteen bits: the sign is extended.
abbrev pub sign_extend : ℕ → ℕ
sign_extend c = if leb 128 c then c + 0xff00 else c

unfoldable pub make_char : (character color_code : ℕ) → ℕ
make_char character color_code = bit_or (color_code * 256 % 2 ^ 16) (sign_extend character)

unfoldable pub print_char_at : Screen → (x y character color_code : ℕ) → Screen
print_char_at s x y character color_code = record s {
  video_mem = put s.video_mem (y * vga_width + x) (make_char character color_code);
}

-- The cursor before a visible character is written: at the end of a row it goes to the next one, and
-- below the last row to the first.
unfoldable pub place : (x y : ℕ) → ℕ × ℕ
place x y =
    let wrapped : Bool = leb vga_width x in
    let x' : ℕ = if wrapped then 0 else x in
    let y' : ℕ = if wrapped then (y + 1) % 2 ^ 16 else y in
    (x', if leb vga_height y' then 0 else y')

unfoldable pub write_char : Screen → (character color_code : ℕ) → Screen
write_char s character color_code =
    if character == eol
    then record s {
      current_terminal_x = 0;
      current_terminal_y = (s.current_terminal_y + 1) % 2 ^ 16;
    }
    else let (x, y) = place s.current_terminal_x s.current_terminal_y in
      record {
        video_mem = put s.video_mem (y * vga_width + x) (make_char character color_code);
        current_terminal_x = (x + 1) % 2 ^ 16;
        current_terminal_y = y;
      }

-- The two loops of `terminal_clear`, with the rounds that are left.
unfoldable pub clear_column : ℕ → Screen → (x y : ℕ) → Screen
clear_column zero s x y = s
clear_column (suc n) s x y = clear_column n (print_char_at s x y 0 0) x (y + 1)

unfoldable pub clear_columns : ℕ → Screen → (x : ℕ) → Screen
clear_columns zero s x = s
clear_columns (suc n) s x = clear_columns n (clear_column vga_height s x 0) (x + 1)

unfoldable pub clear : Screen → Screen
clear s = record (clear_columns vga_width s 0) { current_terminal_x = 0; current_terminal_y = 0 }

-- `video_mem` is set to the address of the video memory, whose cells the screen has.
unfoldable pub init : Screen → Screen
init s = clear s

unfoldable pub newline : Screen → Screen
newline s = write_char s eol 0

unfoldable pub print_char : Screen → (character : ℕ) → Screen
print_char s character = write_char s character 0xF

-- The loop of `print`, with the rounds that are left.
unfoldable pub print_loop : ℕ → Ram → Screen → (msg i : ℕ) → Screen
print_loop zero ram s msg i = s
print_loop (suc n) ram s msg i = print_loop n ram (write_char s (ram (msg + i)) 0xF) msg (i + 1)

unfoldable pub print : Ram → Screen → (msg : ℕ) → Outcome Screen
print ram s msg = do msg_len ← strlen ram msg; done (print_loop msg_len ram s msg 0)

unfoldable pub println : Ram → Screen → (msg : ℕ) → Outcome Screen
println ram s msg = do s' ← print ram s msg; done (newline s')
