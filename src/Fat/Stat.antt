-- ===== src/Fat/Stat.antt =====
-- `fat16_stat`, and `fs_stat` over it.
use koko_os.Prelude.{
  ℕ, ◌+◌, ◌^◌, ◌<◌, ◌≤◌, ◌≡◌, ◌≢◌, refl, ◌∙◌, ◌⊎◌, inl, inr, arith, true, false, ◌==◌,
  if◌then◌else◌, Bool-cases, done, ℤ,
}
use koko_os.Ram.{Ram, load32, store32}
use koko_os.Ram.Words.{store32_outside, load32-store32_self, load32-store32_other}
use koko_os.Memory.{Machine}
use koko_os.Ports.{Ports}
use koko_os.Disk.{ok, invalid_argument}
use koko_os.File.{Files, find_file_descriptor, fs_stat}
use koko_os.Fat.{Places, filesize_of, has_attribute, attributes_of, attribute_read_only}
use koko_os.Fat.Files.{is_file, file_item_of, stat, file_stat_read_only}
use koko_os.Fat.System.{fat16_systems}

module _ (ram : Ram) (descriptor file_stat : ℕ) where
  abbrev item : ℕ
  item = file_item_of ram descriptor

  -- The flags and the size of the file, and no other byte.
  pub record Stated (ram' : Ram) : Type 0 where
    pub flags :
        load32 ram' file_stat
        ≡ (if has_attribute ram item attribute_read_only then file_stat_read_only else 0)
    pub size : load32 ram' (file_stat + 4) ≡ filesize_of ram item
    pub kept : (b : ℕ) → (b < file_stat) ⊎ (file_stat + 8 ≤ b) → ram' b ≡ ram b

  abbrev sized : Ram
  sized = store32 (store32 ram file_stat 0) (file_stat + 4) (filesize_of ram item)

  sized-kept : (b : ℕ) → (b < file_stat) ⊎ (file_stat + 8 ≤ b) → sized b ≡ ram b
  sized-kept b h =
      store32_outside (store32 ram file_stat 0) (file_stat + 4) (filesize_of ram item) b
        (omega arith)
      ∙ store32_outside ram file_stat 0 b (omega arith)

  sized-size : filesize_of ram item < 2 ^ 32 → load32 sized (file_stat + 4) ≡ filesize_of ram item
  sized-size h =
      load32-store32_self (store32 ram file_stat 0) (file_stat + 4) (filesize_of ram item) h

  module _ (size_fits : filesize_of ram item < 2 ^ 32) where
    plain : has_attribute ram item attribute_read_only ≡ false → Stated sized
    plain e = record {
      flags = rw e (
          load32-store32_other (store32 ram file_stat 0) (file_stat + 4) (filesize_of ram item)
            file_stat (omega arith)
          ∙ load32-store32_self ram file_stat 0 (omega arith));
      size = sized-size size_fits;
      kept = sized-kept;
    }

    read_only :
        has_attribute ram item attribute_read_only ≡ true
        → Stated (store32 sized file_stat file_stat_read_only)
    read_only e = record {
      flags = rw e (load32-store32_self sized file_stat 1 (omega arith));
      size =
          load32-store32_other sized file_stat 1 (file_stat + 4) (omega arith)
          ∙ sized-size size_fits;
      kept = λ b h. store32_outside sized file_stat 1 b (omega arith) ∙ sized-kept b h;
    }

    has_attribute-sized :
        (item + 32 ≤ file_stat) ⊎ (file_stat + 8 ≤ item)
        → has_attribute sized item attribute_read_only ≡ has_attribute ram item attribute_read_only
    unfolding has_attribute attributes_of
    has_attribute-sized apart = rw (sized-kept (item + 11) (omega arith)) refl

    filesize_of-kept :
        (item + 32 ≤ file_stat) ⊎ (file_stat + 8 ≤ item)
        → filesize_of (store32 ram file_stat 0) item ≡ filesize_of ram item
    unfolding filesize_of
    filesize_of-kept apart = load32-store32_other ram file_stat 0 (item + 28) (omega arith)

    stat-Stated :
        is_file ram descriptor ≡ true
        → (item + 32 ≤ file_stat) ⊎ (file_stat + 8 ≤ item)
        → (ram' : Ram) × (stat ram descriptor file_stat ≡ (ok, ram')) × Stated ram'
    unfolding stat
    stat-Stated file apart =
        let same = has_attribute-sized apart in
        elim (Bool-cases (has_attribute ram item attribute_read_only)) [
          | inl e ↦ (
            store32 sized file_stat file_stat_read_only,
            rw (file, filesize_of-kept apart, same, e) refl,
            read_only e,
          )
          | inr e ↦ (sized, rw (file, filesize_of-kept apart, same, e) refl, plain e)
        ]

  stat-no_file :
      is_file ram descriptor ≡ false → stat ram descriptor file_stat ≡ (invalid_argument, ram)
  unfolding stat
  stat-no_file h = rw h refl

module _ (ports : Ports) (patience primary_disk : ℕ) (places : Places) where
  open ports use {Device}

  -- `fs_stat` of a descriptor that is found, whose file system is FAT16, with a size in the
  -- directory item that is a 32-bit number, and that item and the result apart: it is refused as an
  -- invalid argument, with nothing changed, just if the descriptor leads to no file. Otherwise it
  -- returns the status ok and stores the size of the directory item, and as the flags 1 for a
  -- read-only item and 0 for any other; no other byte changes, nor does the disk.
  pub fs_stat-Stated :
      (s : Files) (m : Machine) (d : Device) (fd file_stat : ℕ)
      → find_file_descriptor s fd ≢ 0
      → filesize_of m.ram (file_item_of m.ram (s.at (find_file_descriptor s fd)).private_data)
        < 2 ^ 32
      → (file_item_of m.ram (s.at (find_file_descriptor s fd)).private_data + 32 ≤ file_stat)
        ⊎ (file_stat + 8 ≤ file_item_of m.ram (s.at (find_file_descriptor s fd)).private_data)
      → (ram' : Ram) × (code : ℤ) × (fs_stat
            (fat16_systems ports patience primary_disk places)
            s
            (m, d)
            fd
            file_stat
          ≡ done (code, (record m { ram = ram' }, d)))
        × (((code ≡ ok)
              × (is_file m.ram (s.at (find_file_descriptor s fd)).private_data ≡ true)
              × Stated m.ram (s.at (find_file_descriptor s fd)).private_data file_stat ram')
            ⊎ ((code ≡ invalid_argument)
                × (ram' ≡ m.ram)
                × (is_file m.ram (s.at (find_file_descriptor s fd)).private_data ≡ false)))
  unfolding fs_stat
  fs_stat-Stated s m d fd file_stat found fits apart =
      let p : ℕ = (s.at (find_file_descriptor s fd)).private_data in
      let there : (find_file_descriptor s fd == 0) ≡ false = ground arith in
      elim (Bool-cases (is_file m.ram p)) [
        | inr no_file ↦ (
          m.ram,
          invalid_argument,
          rw (there, stat-no_file m.ram p file_stat no_file) refl,
          inr (refl, refl, no_file),
        )
        | inl file ↦
            let (ram', run, stated) = stat-Stated m.ram p file_stat fits file apart in
            (ram', ok, rw (there, run) refl, inl (refl, file, stated))
      ]
