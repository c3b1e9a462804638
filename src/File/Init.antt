-- ===== src/File/Init.antt =====
-- The tables that `fs_init` leaves.
use koko_os.Prelude.{
  ℕ, ◌+◌, ◌^◌, ◌<◌, ◌≤◌, ◌≡◌, ◌≢◌, refl, ◌⊎◌, arith, ◌==◌, false, List, length, done, ◌>>=◌,
}
use koko_os.Ram.{Ram}
use koko_os.Memory.{Machine}
use koko_os.Ports.{Ports}
use koko_os.Text.{str_ref_copy}
use koko_os.Text.View.{IsText}
use koko_os.Text.Copy.{str_ref_copy-IsText}
use koko_os.File.{
  Files, free_slot, get_free_file_system, insert_filesystem, find_file_descriptor, update,
}
use koko_os.File.Table.{IsFiles}
use koko_os.File.Open.{fs_init}
use koko_os.Fat.{Places}
use koko_os.Fat.Root

abbrev cleared : Files → Files
cleared s = record s { file_systems = λ i. 0; file_descriptors = λ i. 0 }

-- Tables with one file system and no open file.
pub record Fresh (s : Files) (fs : ℕ) : Type 0 where
  pub first : s.file_systems 0 ≡ fs
  pub others : (i : ℕ) → 0 < i → s.file_systems i ≡ 0
  pub none_open : (fd : ℕ) → find_file_descriptor s fd ≡ 0
  pub files : IsFiles s

entered :
    (s : Files) (fs : ℕ)
    → fs ≢ 0
    → insert_filesystem (cleared s) fs
      ≡ done (record (cleared s) { file_systems = update (λ i. 0) 0 fs })
unfolding insert_filesystem get_free_file_system free_slot
entered s fs h = let e : (fs == 0) ≡ false = ground arith in rw e refl

no_descriptor :
    (s : Files) (fs fd : ℕ)
    → find_file_descriptor (record (cleared s) { file_systems = update (λ i. 0) 0 fs }) fd ≡ 0
unfolding find_file_descriptor
no_descriptor s fs fd = ground arith

module _ (ports : Ports) (patience primary_disk : ℕ) (places : Places) where
  init-run :
      (s : Files) (m : Machine) (ram' : Ram)
      → places.fat16_file_system ≢ 0
      → str_ref_copy m.ram (places.fat16_file_system + 28) places.name_literal ≡ done ram'
      → fs_init ports patience primary_disk places s m
        ≡ done (
          record (cleared s) { file_systems = update (λ i. 0) 0 places.fat16_file_system },
          record m { ram = ram' },
        )
  unfolding fs_init Root.init
  init-run s m ram' h copied = rw (copied, ◌>>=◌, entered s places.fat16_file_system h) refl

  -- `fs_init`, where FAT16's structure has an address that is not null and the literal with its name
  -- is a text that lies apart from the place of the name: whatever the tables were, it returns, FAT16
  -- is the one file system, in the first slot, no number finds a descriptor, and every descriptor of
  -- the table carries the number of its slot. The name stands in the structure, and no byte outside
  -- the name changes.
  pub fs_init-Fresh :
      (s : Files) (m : Machine) (name : List ℕ)
      → places.fat16_file_system ≢ 0
      → IsText m.ram places.name_literal name
      → length name < 2 ^ 32
      → (places.fat16_file_system + 28 ≤ places.name_literal)
        ⊎ (places.name_literal + length name < places.fat16_file_system + 28)
      → (s' : Files) × (ram' : Ram) × (fs_init ports patience primary_disk places s m
          ≡ done (s', record m { ram = ram' }))
        × Fresh s' places.fat16_file_system
        × IsText ram' (places.fat16_file_system + 28) name
        × ((b : ℕ)
            → (b < places.fat16_file_system + 28)
              ⊎ (places.fat16_file_system + 28 + length name < b)
            → ram' b ≡ m.ram b)
  fs_init-Fresh s m name h text short apart =
      let (ram', run, there, kept) =
        str_ref_copy-IsText name m.ram (places.fat16_file_system + 28) places.name_literal text
          short apart in
      (
        record (cleared s) { file_systems = update (λ i. 0) 0 places.fat16_file_system },
        ram',
        init-run s m ram' h run,
        record {
          first = refl;
          others = λ i hi. ground arith;
          none_open = no_descriptor s places.fat16_file_system;
          files = record { numbered = λ i hi nonzero. absurd (nonzero refl) };
        },
        there,
        kept,
      )
