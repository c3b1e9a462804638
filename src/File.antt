-- ===== src/File.antt =====
-- The tables of src/lib/fs/file.c and src/lib/fs/file.h: the file systems, the descriptors, and the
-- calls that go from a descriptor to its file system. A slot holds a pointer, 0 being the null
-- pointer. The structures that the pointers lead to are records by address, and the operations of a
-- file system are a parameter: the code calls them through function pointers.
pub mod Table
pub mod Close
pub mod Open
pub mod OpenPath
pub mod OpenTests
pub mod Init
pub mod Tests
use koko_os.Prelude.{
  ℕ, zero, suc, ◌+◌, ◌-◌, ◌%◌, ◌^◌, Bool, true, false, not, ◌||◌, leb, ◌==◌, if◌then◌else◌, ℤ, pos,
  negsuc, minus, Outcome, done, kernel_panic, ◌>>=◌, Option, none, some,
}
use koko_os.Disk.{ok, invalid_argument}

abbrev pub max_filesystems : ℕ
max_filesystems = 10

abbrev pub max_file_descriptors : ℕ
max_file_descriptors = 1024

abbrev pub system_fail : ℤ
system_fail = minus 49

abbrev pub invalid_file_descriptor : ℤ
invalid_file_descriptor = minus 503

abbrev pub null_file_descriptor : ℕ
null_file_descriptor = 0

pub data SeekMode : Type 0 where
  seek_mode_set : SeekMode
  seek_mode_cur : SeekMode
  seek_mode_end : SeekMode

pub record FileDescriptor : Type 0 where
  pub index : ℕ
  pub fs : ℕ
  pub disk : ℕ
  pub private_data : ℕ

-- `file_systems` and `file_descriptors`, by slot, and the descriptors by their addresses.
pub record Files : Type 0 where
  pub file_systems : ℕ → ℕ
  pub file_descriptors : ℕ → ℕ
  pub at : ℕ → FileDescriptor

abbrev pub update {ℓ} : {A : Type ℓ} → (ℕ → A) → ℕ → A → ℕ → A
update f i x j = if i == j then x else f j

-- The first null slot of the `n` slots from `i` on.
unfoldable pub free_slot : ℕ → (ℕ → ℕ) → (i : ℕ) → Option ℕ
free_slot zero slots i = none
free_slot (suc n) slots i = elim (slots i == 0) [
  | true ↦ some i
  | false ↦ free_slot n slots (i + 1)
]

unfoldable pub get_free_file_system : Files → ℤ
get_free_file_system s = elim (free_slot max_filesystems s.file_systems 0) [
  | some i ↦ pos i
  | none ↦ minus 1
]

unfoldable pub insert_filesystem : Files → (fs : ℕ) → Outcome Files
insert_filesystem s fs =
    if fs == 0
    then kernel_panic "No file system entered as argument!"
    else elim (get_free_file_system s) [
      | negsuc e ↦ kernel_panic "No free slot for file system available!"
      | pos slot ↦ done (record s { file_systems = update s.file_systems slot fs })
    ]

-- `fs_new_file_descriptor`, with the address that `zalloc` returns: a descriptor of zeros. The
-- address of the descriptor, or null.
unfoldable pub new_file_descriptor : (zalloc : Outcome ℕ) → Files → Outcome (ℕ × Files)
new_file_descriptor zalloc s = elim (free_slot max_file_descriptors s.file_descriptors 0) [
  | none ↦ done (0, s)
  | some i ↦ zalloc >>= λ fd. done (
    fd,
    record s {
      file_descriptors = update s.file_descriptors i fd;
      at = update s.at fd (record { index = i + 1; fs = 0; disk = 0; private_data = 0 });
    },
  )
]

unfoldable pub find_file_descriptor : Files → (index : ℕ) → ℕ
find_file_descriptor s index =
    if leb index 0 || leb max_file_descriptors index then 0 else s.file_descriptors (index - 1)

-- The calls through a file system's function pointers. `fs_of_disk` is `disk->fs`. They change a
-- state, which holds the heap of the descriptors too: `free` is `free` of src/lib/memory/memory.c.
pub record FileSystems : Type 1 where
  pub State : Type 0
  pub fs_of_disk : (disk : ℕ) → State → ℕ
  pub read : (fs disk out private_data size nmemb : ℕ) → State → Outcome (ℤ × State)
  pub write : (fs disk in_ private_data size : ℕ) → State → Outcome (ℤ × State)
  pub seek : (fs private_data offset : ℕ) → SeekMode → State → Outcome (ℤ × State)
  pub stat : (fs disk private_data stat : ℕ) → State → Outcome (ℤ × State)
  pub close : (fs private_data : ℕ) → State → Outcome (ℤ × State)
  pub free : (address : ℕ) → State → Outcome State

module _ (systems : FileSystems) where
  open systems use {State, fs_of_disk}

  unfoldable pub fs_read : Files → State → (ptr fd size nmemb : ℕ) → Outcome (ℤ × State)
  fs_read s w ptr fd size nmemb =
      let d = s.at (find_file_descriptor s fd) in
      if size == 0 || (nmemb == 0 || leb fd 0)
      then done (invalid_argument, w)
      else if find_file_descriptor s fd == 0
      then done (invalid_file_descriptor, w)
      else do (code, w') ← systems.read d.fs d.disk ptr d.private_data size nmemb w; done (ok, w')

  unfoldable pub fs_write : Files → State → (in_ fd size : ℕ) → Outcome (ℤ × State)
  fs_write s w in_ fd size =
      let d = s.at (find_file_descriptor s fd) in
      if size == 0 || leb fd 0
      then done (invalid_argument, w)
      else if find_file_descriptor s fd == 0
      then done (invalid_file_descriptor, w)
      else do (code, w') ← systems.write d.fs d.disk in_ d.private_data size w; done (ok, w')

  unfoldable pub fs_seek : Files → State → (fd offset : ℕ) → SeekMode → Outcome (ℤ × State)
  fs_seek s w fd offset mode =
      let d = s.at (find_file_descriptor s fd) in
      if find_file_descriptor s fd == 0
      then done (invalid_file_descriptor, w)
      else systems.seek (fs_of_disk d.disk w) d.private_data offset mode w

  unfoldable pub fs_stat : Files → State → (fd stat : ℕ) → Outcome (ℤ × State)
  fs_stat s w fd stat =
      let d = s.at (find_file_descriptor s fd) in
      if find_file_descriptor s fd == 0
      then done (invalid_file_descriptor, w)
      else systems.stat (fs_of_disk d.disk w) d.disk d.private_data stat w

  -- `fs_free_file_descriptor`: the memory is freed, and then the slot is cleared.
  unfoldable pub free_file_descriptor : Files → State → (fd : ℕ) → Outcome (ℤ × Files × State)
  free_file_descriptor s w fd =
      if leb fd 0
      then done (invalid_file_descriptor, s, w)
      else if s.file_descriptors (fd - 1) == 0
      then done (invalid_argument, s, w)
      else do
        w' ← systems.free (s.file_descriptors (fd - 1)) w
        done (ok, record s { file_descriptors = update s.file_descriptors (fd - 1) 0 }, w')

  -- The status, and both states.
  unfoldable pub fs_close : Files → State → (fd : ℕ) → Outcome (ℤ × Files × State)
  fs_close s w fd =
      let d = s.at (find_file_descriptor s fd) in
      if find_file_descriptor s fd == 0 then done (invalid_file_descriptor, s, w) else do
        (code, w') ← systems.close (fs_of_disk d.disk w) d.private_data w
        elim code [
          | pos zero ↦ free_file_descriptor s w' fd >>= λ r. done (ok, r.1, r.2)
          | other ↦ done (system_fail, s, w')
        ]
