-- ===== src/Path.antt =====
-- Paths, src/lib/fs/path_parser.c: the test of a path such as `0:/name`. The address of the local
-- buffer and of the literal `":/"` are arguments.
pub mod Valid
pub mod Parse
pub mod Tests
use koko_os.Prelude.{
  ℕ, zero, suc, Bool, true, false, not, ltb, if◌then◌else◌, ℤ, pos, negsuc, Outcome, done, ◌>>=◌,
  ◌+◌,
}
use koko_os.Ram.{Ram}
use koko_os.Text.{strlen, is_digit, str_slice, str_cmp}

abbrev pub max_path_size : ℕ
max_path_size = 256

-- `order == 0`
unfoldable pub is_equal : ℤ → Bool
is_equal (pos zero) = true
is_equal (pos (suc n)) = false
is_equal (negsuc n) = false

-- The two bytes behind the drive's digit, in the local buffer, against the literal.
unfoldable pub test_separator : Ram → (path start_path_slice literal : ℕ) → Outcome (Bool × Ram)
test_separator ram path start_path_slice literal = do
  ram' ← str_slice ram start_path_slice path 1 2
  order ← str_cmp ram' start_path_slice literal
  done (is_equal order, ram')

-- The answer, and the memory with the local buffer.
unfoldable pub is_path_valid : Ram → (path start_path_slice literal : ℕ) → Outcome (Bool × Ram)
is_path_valid ram path start_path_slice literal = do
  length ← strlen ram path
  if ltb max_path_size length
      then done (false, ram)
      else if not (is_digit (ram (path + 0)))
      then done (false, ram)
      else test_separator ram path start_path_slice literal
