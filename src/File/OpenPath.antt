-- ===== src/File/OpenPath.antt =====
-- The descriptor that `fs_open` hands out.
use koko_os.Prelude.{
  ℕ, ◌+◌, ◌^◌, ◌<◌, ◌≤◌, ◌≡◌, ◌≢◌, refl, ◌∙◌, sym, ◌⊎◌, inl, inr, arith, ◌==◌, true, false,
  if◌then◌else◌, leb, none, some, done, ◌>>=◌, Bool-cases, lt-cases,
}
use koko_os.Ram.{load32}
use koko_os.Memory
use koko_os.Memory.{Machine}
use koko_os.Ports.{Ports}
use koko_os.File.{
  Files, free_slot, new_file_descriptor, find_file_descriptor, max_file_descriptors, update,
}
use koko_os.File.Table.{IsFiles, Opened, free_slot-cases, with_descriptor, with_descriptor-Opened}
use koko_os.File.Open.{file_descriptor_size, new_descriptor, fill_descriptor, open_path}
use koko_os.Fat.{Places}
use koko_os.Fat.Files.{FileMode, open_}

-- The descriptor at `fd` is entered in the lowest slot that was null, under its number, and filled
-- in.
pub record Entered (s s' : Files) (fd fs disk file_data index : ℕ) : Type 0 where
  pub slot : ℕ
  pub below : slot < max_file_descriptors
  pub was_null : s.file_descriptors slot ≡ 0
  pub lowest : (k : ℕ) → k < slot → s.file_descriptors k ≢ 0
  pub number : index ≡ slot + 1
  pub found : find_file_descriptor s' index ≡ (if index == max_file_descriptors then 0 else fd)
  pub entry : s'.at fd ≡ record { index = index; fs = fs; disk = disk; private_data = file_data }
  pub others : (k : ℕ) → k ≢ index → find_file_descriptor s' k ≡ find_file_descriptor s k
  pub files : IsFiles s'

abbrev filled : Files → (fd fs disk file_data : ℕ) → Files
filled s fd fs disk file_data = record s {
  at =
      update s.at fd
        (record { index = (s.at fd).index; fs = fs; disk = disk; private_data = file_data });
}

module _ (s : Files) (fd fs disk file_data : ℕ) where
  filled-find :
      (k : ℕ) → find_file_descriptor (filled s fd fs disk file_data) k ≡ find_file_descriptor s k
  unfolding find_file_descriptor
  filled-find k = refl

  filled-index : (a : ℕ) → ((filled s fd fs disk file_data).at a).index ≡ (s.at a).index
  filled-index a = elim (Bool-cases (fd == a)) [
    | inl e ↦
        let z : a ≡ fd = ground arith in
        rw z (let t : (fd == fd) ≡ true = ground arith in rw t refl)
    | inr e ↦ rw e refl
  ]

  filled-IsFiles : IsFiles s → IsFiles (filled s fd fs disk file_data)
  filled-IsFiles v = record {
    numbered = λ i hi nonzero. filled-index (s.file_descriptors i) ∙ v.numbered i hi nonzero;
  }

  filled-Entered :
      (s₀ : Files)
      → Opened s₀ s fd
      → Entered s₀ (filled s fd fs disk file_data) fd fs disk file_data (s.at fd).index
  filled-Entered s₀ o =
      let self : (fd == fd) ≡ true = ground arith in
      record {
        slot = o.slot;
        below = o.below;
        was_null = o.was_null;
        lowest = o.lowest;
        number = o.index;
        found = filled-find (s.at fd).index ∙ rw o.index o.found;
        entry = rw self refl;
        others = λ k other. filled-find k ∙ o.others k (λ e. other (e ∙ sym o.index));
        files = filled-IsFiles o.files;
      }

module _ (ports : Ports) (patience primary_disk : ℕ) (places : Places) where
  open ports use {Device}

  new_descriptor-some :
      (s : Files) (m m' : Machine) (fd slot : ℕ)
      → free_slot max_file_descriptors s.file_descriptors 0 ≡ some slot
      → Memory.zalloc m file_descriptor_size ≡ done (fd, m')
      → new_descriptor ports patience primary_disk places s m
        ≡ done (fd, with_descriptor s slot fd, m')
  unfolding new_descriptor new_file_descriptor
  new_descriptor-some s m m' fd slot run given =
      rw (new_descriptor, run, given, new_file_descriptor, run) refl

  new_descriptor-none :
      (s : Files) (m : Machine)
      → free_slot max_file_descriptors s.file_descriptors 0 ≡ none
      → new_descriptor ports patience primary_disk places s m ≡ done (0, s, m)
  unfolding new_descriptor
  new_descriptor-none s m run = rw (new_descriptor, run) refl

  module _ (s : Files) (m m' : Machine) (d d' : Device) (disk part file_data : ℕ) (mode : FileMode)
      (opened : open_ ports patience primary_disk places m d disk part mode
        ≡ done (file_data, m', d')) where
    -- The file system refuses: its status is negative as an `int`.
    open_path-refused :
        2 ^ 31 ≤ file_data
        → open_path ports patience primary_disk places s m d disk part mode ≡ done (0, s, m', d')
    unfolding open_path
    open_path-refused h =
        let e : leb (2 ^ 31) file_data ≡ true = ground arith in rw (opened, ◌>>=◌, e) refl

    open_path-full :
        file_data < 2 ^ 31
        → free_slot max_file_descriptors s.file_descriptors 0 ≡ none
        → open_path ports patience primary_disk places s m d disk part mode ≡ done (0, s, m', d')
    unfolding open_path fill_descriptor
    open_path-full h run =
        let e : leb (2 ^ 31) file_data ≡ false = ground arith in
        rw (opened, ◌>>=◌, e, new_descriptor-none s m' run) refl

    open_path-some :
        (m'' : Machine) (fd slot : ℕ)
        → file_data < 2 ^ 31
        → fd ≢ 0
        → free_slot max_file_descriptors s.file_descriptors 0 ≡ some slot
        → Memory.zalloc m' file_descriptor_size ≡ done (fd, m'')
        → open_path ports patience primary_disk places s m d disk part mode
          ≡ done (
            ((with_descriptor s slot fd).at fd).index,
            filled (with_descriptor s slot fd) fd (load32 m''.ram (disk + 8)) disk file_data,
            m'',
            d',
          )
    unfolding open_path fill_descriptor
    open_path-some m'' fd slot h nonzero run given =
        let e : leb (2 ^ 31) file_data ≡ false = ground arith in
        let there : (fd == 0) ≡ false = ground arith in
        rw (opened, ◌>>=◌, e, new_descriptor-some s m' m'' fd slot run given, there) refl

    -- `fs_open` behind its checks, with a table whose descriptors carry the numbers of their slots,
    -- where the file system's open returns, and `zalloc` of a descriptor returns an address that is
    -- not null and not in the table. If the file system's answer is a status, or every slot is
    -- taken, the number 0 is returned and the table is as before. If not, the number that is
    -- returned finds the new descriptor, unless it is 1024: the descriptor holds the number, the
    -- disk and its file system, and the file system's answer. Every other number finds what it
    -- found before, and the table stays numbered.
    pub open_path-Entered :
        (m'' : Machine) (fd : ℕ)
        → IsFiles s
        → fd ≢ 0
        → ((i : ℕ) → i < max_file_descriptors → s.file_descriptors i ≢ fd)
        → Memory.zalloc m' file_descriptor_size ≡ done (fd, m'')
        → ((s' : Files) × (index : ℕ) × (open_path ports patience primary_disk places s m d disk
                part mode
              ≡ done (index, s', m'', d'))
            × (file_data < 2 ^ 31)
            × Entered s s' fd (load32 m''.ram (disk + 8)) disk file_data index)
          ⊎ ((open_path ports patience primary_disk places s m d disk part mode
                ≡ done (0, s, m', d'))
              × ((2 ^ 31 ≤ file_data)
                  ⊎ ((i : ℕ) → i < max_file_descriptors → s.file_descriptors i ≢ 0)))
    open_path-Entered m'' fd v nonzero fresh given = elim (lt-cases file_data (2 ^ 31)) [
      | inr refused ↦ inr (open_path-refused refused, inl refused)
      | inl fine ↦ elim (free_slot-cases max_file_descriptors s.file_descriptors 0) [
        | inr (run, all) ↦
            inr (open_path-full fine run, inr λ i hi. all i (omega arith) (omega arith))
        | inl (slot, run, f) ↦
            let s' : Files = with_descriptor s slot fd in
            inl (
              filled s' fd (load32 m''.ram (disk + 8)) disk file_data,
              (s'.at fd).index,
              open_path-some m'' fd slot fine nonzero run given,
              fine,
              filled-Entered s' fd (load32 m''.ram (disk + 8)) disk file_data s
                  (with_descriptor-Opened s slot fd v fresh f),
            )
      ]
    ]
