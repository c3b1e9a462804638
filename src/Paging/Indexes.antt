-- ===== src/Paging/Indexes.antt =====
-- Where a virtual address is looked up.
use koko_os.Prelude.{ℕ, ◌+◌, ◌*◌, ◌/◌, ◌%◌, ◌^◌, ◌<◌, ◌≡◌, ◌≢◌, refl, true, false, arith}
use koko_os.Paging.{ok, memory_not_aligned, page_entries, page_size, is_aligned, get_indexes}

pub aligned-is_aligned : (a : ℕ) → a % page_size ≡ 0 → is_aligned a ≡ true
unfolding is_aligned
aligned-is_aligned a h = ground arith

pub unaligned-is_aligned : (a : ℕ) → a % page_size ≢ 0 → is_aligned a ≡ false
unfolding is_aligned
unaligned-is_aligned a h = ground arith

pub get_indexes-aligned :
    (v : ℕ)
    → v % page_size ≡ 0
    → get_indexes v ≡ record {
      error_code = ok;
      table_index = v % (page_entries * page_size) / page_size;
      directory_index = v / (page_entries * page_size);
    }
unfolding get_indexes
get_indexes-aligned v h = rw (aligned-is_aligned v h)

-- For a page of the 32-bit address space both indexes lie in their tables, and give the address back.
pub get_indexes_lem :
    (v : ℕ)
    → v < 2 ^ 32
    → v % page_size ≡ 0
    → ((get_indexes v).error_code ≡ ok)
      × ((get_indexes v).directory_index < page_entries)
      × ((get_indexes v).table_index < page_entries)
      × ((get_indexes v).directory_index * (page_entries * page_size)
            + (get_indexes v).table_index * page_size
          ≡ v)
get_indexes_lem v h a = rw (get_indexes-aligned v a) (refl, omega arith, omega arith, omega arith)

-- Any other address has the status of an unaligned one.
pub get_indexes-memory_not_aligned :
    (v : ℕ) → v % page_size ≢ 0 → (get_indexes v).error_code ≡ memory_not_aligned
unfolding get_indexes
get_indexes-memory_not_aligned v h = rw (unaligned-is_aligned v h)
