-- ===== src/Terminal/Cells.antt =====
-- Which cells the screen's operations write.
use koko_os.Prelude.{
  ltb, bit_or, ap, ℕ, zero, suc, ◌+◌, ◌*◌, ◌/◌, ◌%◌, ◌^◌, ◌≤◌, ◌<◌, ◌≡◌, ◌≢◌, refl, ◌∙◌, ◌⊎◌, inl,
  inr, arith, lt-cases, ◌==◌, Bool-cases, if◌then◌else◌, leb,
}
use koko_os.Bits.{bit_or_fields, bit_or_above}
use koko_os.Terminal.{
  Screen, vga_width, vga_height, eol, make_char, print_char_at, place, write_char, clear_column,
  clear_columns, clear,
}

-- The number of cells.
abbrev pub cells : ℕ
cells = vga_width * vga_height

-- The cursor column stays within one past the end of a row.
pub record IsScreen (s : Screen) : Type 0 where
  pub column : s.current_terminal_x ≤ vga_width
  pub row : s.current_terminal_y < 2 ^ 16

-- The cell of a byte in white (15): a byte below 128 is in the low byte, and the colour in the high
-- one. The sign of a byte from 128 on fills the high byte.
abbrev pub white_cell : ℕ → ℕ
white_cell c = if ltb c 128 then 0x0F00 + c else 0xFF00 + c

pub make_char-white : (c : ℕ) → c < 256 → make_char c 0xF ≡ white_cell c
unfolding make_char
make_char-white c h = elim (lt-cases c 128) [
  | inl ascii ↦
      let low : (if leb 128 c then c + 0xff00 else c) ≡ c = ground arith in
      ap (bit_or 0x0F00) low ∙ bit_or_fields 8 0xF c (omega arith) ∙ ground arith
  | inr signed ↦
      let high : (if leb 128 c then c + 0xff00 else c) ≡ 0xff00 + c = ground arith in
      ap (bit_or 0x0F00) high ∙ bit_or_above 8 0xF 0xFF c (omega arith) ∙ ground arith
]

pub place_lem : (x y : ℕ) → x ≤ vga_width → (place x y).1 * vga_width + (place x y).0 < cells
unfolding place
place_lem x y h = ground arith

-- From a valid cursor, `terminal_write_char` keeps the cursor valid and writes no cell outside the
-- screen.
pub write_char-IsScreen :
    (s : Screen) (c color : ℕ)
    → IsScreen s
    → IsScreen (write_char s c color)
      × ((i : ℕ) → cells ≤ i → (write_char s c color).video_mem i ≡ s.video_mem i)
unfolding write_char place
write_char-IsScreen s c color v = elim (Bool-cases (c == eol)) [
  | inl newline ↦ rw newline (record { column = omega arith; row = omega arith }, λ i h. refl)
  | inr visible ↦ rw visible (
    record { column = ground (arith, v.column); row = ground (arith, v.row) },
    λ i h. ground (arith, v.column),
  )
]

abbrev blank : make_char 0 0 ≡ 0
unfolding make_char
blank = refl

module _ (x i : ℕ) where
  -- A cell of the column is blank after it has been cleared, a cell that is blank stays so, and a
  -- cell that is not in the column keeps its value.
  column-hit :
      (n : ℕ) (s : Screen) (y k : ℕ)
      → (s.video_mem i ≡ 0) ⊎ ((i ≡ k * vga_width + x) × (y ≤ k) × (k < y + n))
      → (clear_column n s x y).video_mem i ≡ 0
  unfolding clear_column print_char_at
  column-hit zero s y k (inl e) = e
  column-hit zero s y k (inr (e, lo, hi)) = absurd (omega arith)
  column-hit (suc n) s y k h =
      column-hit n (print_char_at s x y 0 0) (y + 1) k (ground (arith, blank))

  column-keep :
      (n : ℕ) (s : Screen) (y : ℕ)
      → ((k : ℕ) → y ≤ k → k < y + n → i ≢ k * vga_width + x)
      → (clear_column n s x y).video_mem i ≡ s.video_mem i
  unfolding clear_column print_char_at
  column-keep zero s y h = refl
  column-keep (suc n) s y h =
      column-keep n (print_char_at s x y 0 0) (y + 1) (λ k lo hi. h k (omega arith) (omega arith))
      ∙ ground (arith, h y (omega arith) (omega arith))

columns-hit :
    (i n : ℕ) (s : Screen) (x x0 k : ℕ)
    → (s.video_mem i ≡ 0) ⊎ ((i ≡ k * vga_width + x0) × (x ≤ x0) × (x0 < x + n) × (k < vga_height))
    → (clear_columns n s x).video_mem i ≡ 0
unfolding clear_columns
columns-hit i zero s x x0 k (inl e) = e
columns-hit i zero s x x0 k (inr (e, lo, hi, hk)) = absurd (omega arith)
columns-hit i (suc n) s x x0 k (inl e) =
    columns-hit i n (clear_column vga_height s x 0) (x + 1) x0 k
      (inl (column-hit x i vga_height s 0 k (inl e)))
columns-hit i (suc n) s x x0 k (inr (e, lo, hi, hk)) = elim (lt-cases x x0) [
  | inl later ↦
      columns-hit i n (clear_column vga_height s x 0) (x + 1) x0 k
        (inr (e, omega arith, omega arith, hk))
  | inr now ↦
      columns-hit i n (clear_column vga_height s x 0) (x + 1) x0 k
        (inl (column-hit x i vga_height s 0 k (inr (omega arith, omega arith, omega arith))))
]

columns-keep :
    (i n : ℕ) (s : Screen) (x : ℕ)
    → cells ≤ i
    → x + n ≤ vga_width
    → (clear_columns n s x).video_mem i ≡ s.video_mem i
unfolding clear_columns
columns-keep i zero s x h fits = refl
columns-keep i (suc n) s x h fits =
    columns-keep i n (clear_column vga_height s x 0) (x + 1) h (omega arith)
    ∙ column-keep x i vga_height s 0 (λ k lo hi e. omega arith)

-- `terminal_clear` blanks every cell of the screen and no other, and sets the cursor to the start.
pub clear_lem :
    (s : Screen)
    → ((i : ℕ) → i < cells → (clear s).video_mem i ≡ 0)
      × ((i : ℕ) → cells ≤ i → (clear s).video_mem i ≡ s.video_mem i)
      × ((clear s).current_terminal_x ≡ 0)
      × ((clear s).current_terminal_y ≡ 0)
unfolding clear
clear_lem s = (
  λ i h.
      columns-hit i vga_width s 0 (i % 80) (i / 80)
        (inr (omega arith, omega arith, omega arith, omega arith)),
  λ i h. columns-keep i vga_width s 0 h (omega arith),
  refl,
  refl,
)
