-- ===== src/Heap/Valid.antt =====
-- The shape of the table that `heap_malloc` and `heap_free` keep, and the chains of blocks in it.
use koko_os.Prelude.{◌≤◌, sym, ◌∙◌, ℕ, suc, ◌<◌, ◌≡◌, ◌≢◌, ◌⊎◌, true, false, arith}
use koko_os.Heap.{entry_has_next, entry_is_first, entry_is_free, entry_is_taken}

-- The four entries that the code writes: free; the first block of an allocation; a block between
-- the first and the last; the last block.
abbrev pub first_entry : ℕ
first_entry = 0x41

abbrev pub middle_entry : ℕ
middle_entry = 0x81

abbrev pub last_entry : ℕ
last_entry = 0x01

abbrev pub IsEntry : ℕ → Type 0
IsEntry e = (e ≡ 0) ⊎ ((e ≡ first_entry) ⊎ ((e ≡ middle_entry) ⊎ (e ≡ last_entry)))

-- The table: each entry is one of the four, a middle block follows the first or a middle block of
-- its allocation, and is followed by a middle or a last block. `behind` speaks of the word behind
-- the table, which `heap_free` reads when it frees the last block.
pub record IsTable (total : ℕ) (entry : ℕ → ℕ) : Type 0 where
  pub shape : (i : ℕ) → i < total → IsEntry (entry i)
  pub before :
      (i : ℕ)
      → suc i < total
      → entry (suc i) ≡ middle_entry
      → (entry i ≡ first_entry) ⊎ (entry i ≡ middle_entry)
  pub zeroth : entry 0 ≢ middle_entry
  pub after :
      (i : ℕ)
      → i < total
      → entry i ≡ middle_entry
      → (suc i < total) × ((entry (suc i) ≡ middle_entry) ⊎ (entry (suc i) ≡ last_entry))
  pub behind : entry_has_next (entry total) ≡ false

-- The tests of the code at the four entries.
pub has_next-middle : (e : ℕ) → IsEntry e → (entry_has_next e ≡ true) → e ≡ middle_entry
unfolding entry_has_next
has_next-middle e v = ground arith

pub is_first-first : (e : ℕ) → IsEntry e → (entry_is_first e ≡ true) → e ≡ first_entry
unfolding entry_is_first
is_first-first e v = ground arith

pub is_free-zero : (e : ℕ) → IsEntry e → (entry_is_free e ≡ true) → e ≡ 0
unfolding entry_is_free entry_is_taken
is_free-zero e v = ground arith

-- A table with the same entries, and the same word behind it, has the same shape.
pub IsTable-congr :
    (total : ℕ) (entry entry' : ℕ → ℕ)
    → ((i : ℕ) → i ≤ total → entry' i ≡ entry i)
    → IsTable total entry
    → IsTable total entry'
IsTable-congr total entry entry' same v = record {
  shape = λ i hi. rw (same i (omega arith)) (v.shape i hi);
  before =
      λ i hi e. rw (same i (omega arith)) (v.before i hi (sym (same (suc i) (omega arith)) ∙ e));
  zeroth = λ e. v.zeroth (sym (same 0 (omega arith)) ∙ e);
  after = λ i hi e.
      let (inside, next) = v.after i hi (sym (same i (omega arith)) ∙ e) in
      (inside, rw (same (suc i) (omega arith)) next);
  behind = rw (same total (omega arith)) v.behind;
}
