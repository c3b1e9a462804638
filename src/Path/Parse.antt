-- ===== src/Path/Parse.antt =====
-- A path as a list of parts in memory, src/lib/fs/path_parser.c. A part is the address of its name,
-- and the next part behind it; the root is the number of the drive, and the first part behind it.
use koko_os.Prelude.{
  ℕ, zero, suc, ◌+◌, ◌-◌, ◌*◌, ◌^◌, true, false, not, ltb, ◌==◌, if◌then◌else◌, ℤ, pos, negsuc,
  Outcome, done, hang, ◌>>=◌,
}
use koko_os.Ram.{Ram, poke, load32, store32}
use koko_os.Heap.{w32}
use koko_os.Memory
use koko_os.Memory.{Machine}
use koko_os.Text.{address_space, strlen, str_slice, str_copy, str_index_of, get_digit}
use koko_os.Path.{is_path_valid}

-- `'/'`
abbrev pub path_separator : ℕ
path_separator = 47

-- `sizeof(Path_Part)` and `sizeof(Path_Root)`
abbrev pub part_size : ℕ
part_size = 8

abbrev pub root_size : ℕ
root_size = 8

unfoldable pub name_of : Ram → (part : ℕ) → ℕ
name_of ram part = load32 ram part

unfoldable pub next_of : Ram → (part : ℕ) → ℕ
next_of ram part = load32 ram (part + 4)

unfoldable pub driver_no_of : Ram → (root : ℕ) → ℕ
driver_no_of ram root = ram root

unfoldable pub part_of : Ram → (root : ℕ) → ℕ
part_of ram root = load32 ram (root + 4)

-- What the loop of `path_parser_parse_path` leaves: the text behind the parts, the last part and the
-- first.
pub record Parts : Type 0 where
  pub machine : Machine
  pub rest_of_path : ℕ
  pub last : ℕ
  pub first : ℕ

-- A new part in front of its predecessor's address, not named yet.
unfoldable pub new_part : Machine → (previous_part : ℕ) → Outcome (ℕ × Machine)
new_part m previous_part = do
  (part, m') ← Memory.malloc m part_size
  done (part, record m' { ram = store32 m'.ram (part + 4) previous_part })

-- `if (previous_part) previous_part->next = part;`
unfoldable pub append : Ram → (previous_part part : ℕ) → Ram
append ram previous_part part =
    if previous_part == 0 then ram else store32 ram (previous_part + 4) part

-- The name of a part behind which the path goes on, and the rest of the path: its memory is new, and
-- that of the path before it is given back.
unfoldable pub cut_part : Machine → (part rest_of_path separator_index : ℕ) → Outcome (ℕ × Machine)
cut_part m part rest_of_path separator_index = do
  (name, m') ← Memory.malloc m (w32 (separator_index + 1))
  ram ← str_slice (store32 m'.ram part name) name rest_of_path 0 separator_index
  done (name, record m' { ram = ram })

unfoldable pub cut_rest : Machine → (rest_of_path separator_index : ℕ) → Outcome (ℕ × Machine)
cut_rest m rest_of_path separator_index = do
  rest_of_path_len ← strlen m.ram rest_of_path
  (new_path, m') ← Memory.malloc m (w32 (4 * w32 (rest_of_path_len + 2 ^ 32 - separator_index)))
  ram ← str_slice m'.ram new_path rest_of_path (separator_index + 1) rest_of_path_len
  m'' ← Memory.free (record m' { ram = ram }) rest_of_path
  done (new_path, m'')

module _ (empty_literal : ℕ) where
  -- The last round of the loop, with no separator, or one at the start: the name is all that is
  -- left, and its memory is given back.
  unfoldable pub name_rest :
      Machine → (part previous_part first_part rest_of_path : ℕ) → Outcome Parts
  name_rest m part previous_part first_part rest_of_path = do
    (name, m') ← str_copy empty_literal m rest_of_path
    let ram = append (store32 m'.ram part name) previous_part part
    m'' ← Memory.free (record m' { ram = ram }) rest_of_path
    done (record {
      machine = m'';
      rest_of_path = rest_of_path;
      last = part;
      first = if first_part == 0 then part else first_part;
    })

  -- The `do … while` of `path_parser_parse_path`, on fuel: the rest of the path gets shorter with
  -- each round.
  unfoldable pub parse_loop :
      ℕ
      → Machine
      → (rest_of_path : ℕ) (separator_index : ℤ) (previous_part first_part : ℕ) → Outcome Parts
  parse_loop zero m rest_of_path separator_index previous_part first_part = hang
  parse_loop (suc n) m rest_of_path separator_index previous_part first_part = do
    (part, m₁) ← new_part m previous_part
    let first = if first_part == 0 then part else first_part
    elim separator_index [
      | negsuc e ↦ name_rest m₁ part previous_part first_part rest_of_path
      | pos zero ↦ name_rest m₁ part previous_part first_part rest_of_path
      | pos (suc index) ↦ do
        (name, m₂) ← cut_part m₁ part rest_of_path (suc index)
        let linked = record m₂ { ram = append m₂.ram previous_part part }
        (new_path, m₃) ← cut_rest linked rest_of_path (suc index)
        following ← str_index_of m₃.ram new_path path_separator
        elim following [
          | pos next ↦ parse_loop n m₃ new_path (pos next) part first
          | negsuc e ↦
              done (record { machine = m₃; rest_of_path = new_path; last = part; first = first })
        ]
    ]

  -- Behind the loop: what is left of the path becomes the last part's successor, and the root is
  -- made.
  unfoldable pub finish_path : (drive_no : ℕ) → Parts → Outcome (ℕ × Machine)
  finish_path drive_no parts = do
    rest_length ← strlen parts.machine.ram parts.rest_of_path
    m ← if ltb 0 rest_length then append_rest else done parts.machine
    (root, m') ← Memory.malloc m root_size
    done (root, record m' { ram = store32 (poke m'.ram root drive_no) (root + 4) parts.first })
    where
      append_rest : Outcome Machine
      append_rest = do
        (part, m') ← Memory.malloc parts.machine part_size
        let ram = store32 (store32 m'.ram part parts.rest_of_path) (part + 4) 0
        done (record m' { ram = store32 ram (parts.last + 4) part })

  -- The root, or the null pointer. `sizeof(path)` is the size of a pointer.
  unfoldable pub parse_path :
      (start_path_slice literal : ℕ) → Machine → (path : ℕ) → Outcome (ℕ × Machine)
  parse_path start_path_slice literal m path = do
    (valid, ram) ← is_path_valid m.ram path start_path_slice literal
    if not valid then done (0, record m { ram = ram }) else do
      path_length ← strlen ram path
      (rest_of_path, m') ←
          Memory.malloc (record m { ram = ram }) (w32 (4 * w32 (path_length + 2 ^ 32 - 2)))
      ram' ← str_slice m'.ram rest_of_path path 3 path_length
      separator_index ← str_index_of ram' rest_of_path path_separator
      parts ← parse_loop address_space (record m' { ram = ram' }) rest_of_path separator_index 0 0
      finish_path (get_digit (ram path)) parts

-- `path_parser_free_part`, on fuel: a list of parts in the address space has less than 2^32.
unfoldable pub free_part : ℕ → Machine → (part : ℕ) → Outcome Machine
free_part zero m part = hang
free_part (suc n) m part = elim (part == 0) [
  | true ↦ done m
  | false ↦ do
    m' ← free_part n m (next_of m.ram part)
    m'' ← Memory.free m' (name_of m'.ram part)
    Memory.free m'' part
]

unfoldable pub free_root : Machine → (root : ℕ) → Outcome Machine
free_root m root =
    if root == 0
    then done m
    else do m' ← free_part address_space m (part_of m.ram root); Memory.free m' root
