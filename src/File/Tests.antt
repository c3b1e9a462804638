-- ===== src/File/Tests.antt =====
-- An empty table, and a descriptor at 0x9000.
use koko_os.Prelude.{ℕ, ◌<◌, ◌≡◌, ◌≢◌, ◌⊎◌, refl, arith, done}
use koko_os.File.{Files, new_file_descriptor, max_file_descriptors}
use koko_os.File.Table.{IsFiles, Opened, new_file_descriptor_lem}

abbrev empty : Files
empty = record {
  file_systems = λ i. 0;
  file_descriptors = λ i. 0;
  at = λ a. record { index = 0; fs = 0; disk = 0; private_data = 0 };
}

empty-IsFiles : IsFiles empty
empty-IsFiles = record { numbered = λ i hi nonzero. absurd (nonzero refl) }

new_file_descriptor_lem_example :
    ((s' : Files) × (new_file_descriptor (done 0x9000) empty ≡ done (0x9000, s'))
      × Opened empty s' 0x9000)
    ⊎ ((new_file_descriptor (done 0x9000) empty ≡ done (0, empty))
        × ((i : ℕ) → i < max_file_descriptors → empty.file_descriptors i ≢ 0))
new_file_descriptor_lem_example =
    new_file_descriptor_lem empty 0x9000 empty-IsFiles (omega arith) (λ i hi. omega arith)
