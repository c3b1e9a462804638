-- ===== src/Paging/Set.antt =====
-- `paging_set` against the two-level lookup of a page in the page tables.
use koko_os.Prelude.{ℕ, ◌+◌, ◌*◌, ◌/◌, ◌%◌, ◌^◌, ◌≡◌, ◌≢◌}
use koko_os.Ram.{Ram, load32}
use koko_os.Paging.{memory_not_aligned, page_size, set}
use koko_os.Paging.Indexes.{unaligned-is_aligned}

-- The table of a page: the directory entry without its low twelve bits. The bits for a present
-- table and for a page of 4 MB are not looked at: this is where the processor looks for an entry that
-- has the one and not the other.
unfoldable pub table_of : Ram → (directory v : ℕ) → ℕ
table_of ram directory v = load32 ram (directory + 4 * (v / 2 ^ 22)) / 4096 * 4096

-- The address of the page's own entry, and the entry.
unfoldable pub entry_address : Ram → (directory v : ℕ) → ℕ
entry_address ram directory v = table_of ram directory v + 4 * (v % 2 ^ 22 / 4096)

pub walk : Ram → (directory v : ℕ) → ℕ
walk ram directory v = load32 ram (entry_address ram directory v)

-- An address inside a page is refused, and nothing is written.
pub set-memory_not_aligned :
    (ram : Ram) (directory v flags : ℕ)
    → v % page_size ≢ 0
    → set ram directory v flags ≡ (memory_not_aligned, ram)
unfolding set
set-memory_not_aligned ram directory v flags h = rw (unaligned-is_aligned v h)
