-- ===== src/Heap/Malloc.antt =====
-- `heap_malloc`: the blocks it gives out, and the table's shape.
use koko_os.Prelude.{
  ℕ, suc, ◌+◌, ◌-◌, ◌*◌, ◌/◌, ◌≤◌, ◌<◌, ◌^◌, ◌≡◌, ◌≢◌, ◌⊎◌, inl, inr, Bool, false, ◌∙◌, sym, ap,
  arith, lt-cases, ◌==◌, done, kernel_panic, leb, if◌then◌else◌,
}
use koko_os.Ram.{Ram}
use koko_os.Heap.{
  Heap, MemoryDetails, block_size, get_entry, entry_has_next, entry_is_free, search_loop,
  request_memory, found_memory, malloc_entry, mark_loop,
}
use koko_os.Heap.Entries.{
  OffTable, IsLayout, mark_loop_outside, mark_loop_inside, mark_loop-bytes,
  get_address_from_block_lem,
}
use koko_os.Heap.Search.{IsRun, Found}
use koko_os.Heap.Valid.{IsEntry, IsTable, first_entry, middle_entry, last_entry, is_free-zero}

-- The entry of block `k` in an allocation of the blocks from `s` to `e`.
abbrev pub chain_entry : (s e k : ℕ) → ℕ
chain_entry s e k = if k == s then first_entry else if k == e then last_entry else middle_entry

-- Whether a block is free, as the search sees it.
abbrev pub is_free : Heap → Ram → ℕ → Bool
is_free heap ram i = entry_is_free (get_entry heap ram i)

-- The outcome of the search of the whole table.
abbrev pub searched : Heap → Ram → ℕ → ℕ × ℕ
searched heap ram r = search_loop heap.table.total (is_free heap ram) r 0 0 0

-- The details of `r` blocks from `s` on, and the memory with those blocks marked.
unfoldable pub details_of : Heap → (s r : ℕ) → MemoryDetails
details_of heap s r = record {
  start_address = heap.start_address + s * block_size;
  end_block = s + r - 1;
  start_block = s;
}

unfoldable pub marked : Heap → Ram → (r s : ℕ) → Ram
marked heap ram r s = mark_loop r heap ram (details_of heap s r) s

module _ (heap : Heap) where
  -- What `heap_malloc` leaves in `ram'` when it gives out the `r` blocks from `s` on: they are the
  -- first run of `r` free blocks, their entries say so now, and nothing else of the table, nor of
  -- the blocks, has changed.
  pub record Allocated (r s : ℕ) (ram ram' : Ram) : Type 0 where
    pub some_block : 0 < r
    pub inside : s + r ≤ heap.table.total
    pub were_free : (k : ℕ) → s ≤ k → k < s + r → get_entry heap ram k ≡ 0
    pub first : (t : ℕ) → t < s → ¬ IsRun (is_free heap ram) t r
    pub marked : (k : ℕ) → s ≤ k → k < s + r → get_entry heap ram' k ≡ chain_entry s (s + r - 1) k
    pub same : (k : ℕ) → (k < s) ⊎ (s + r ≤ k) → get_entry heap ram' k ≡ get_entry heap ram k
    pub kept : (b : ℕ) → OffTable heap b → ram' b ≡ ram b

  module _ (r s : ℕ) (ram ram' : Ram) (a : Allocated r s ram ram')
      (v : IsTable heap.table.total (get_entry heap ram)) where
    -- An entry afterwards: one of the allocation, or outside it and as before.
    Allocated-entry :
        (k : ℕ)
        → ((s ≤ k)
            × (k < s + r)
            × (get_entry heap ram' k ≡ chain_entry s (s + r - 1) k)
            × (get_entry heap ram k ≡ 0))
          ⊎ (((k < s) ⊎ (s + r ≤ k)) × (get_entry heap ram' k ≡ get_entry heap ram k))
    Allocated-entry k = elim (lt-cases k s) [
      | inl before ↦ inr (inl before, a.same k (inl before))
      | inr from ↦ elim (lt-cases k (s + r)) [
        | inl within ↦ inl (from, within, a.marked k from within, a.were_free k from within)
        | inr behind ↦ inr (inr behind, a.same k (inr behind))
      ]
    ]

    Allocated-shape : (i : ℕ) → i < heap.table.total → IsEntry (get_entry heap ram' i)
    Allocated-shape i hi = elim (Allocated-entry i) [
      | inl (lo, up, mark, old) ↦ rw mark (ground arith)
      | inr (out, same) ↦ rw same (v.shape i hi)
    ]

    Allocated-before :
        (i : ℕ)
        → suc i < heap.table.total
        → get_entry heap ram' (suc i) ≡ middle_entry
        → (get_entry heap ram' i ≡ first_entry) ⊎ (get_entry heap ram' i ≡ middle_entry)
    Allocated-before i hi e = elim (Allocated-entry (suc i)) [
      | inl (lo, up, mark, old) ↦
          let lo' : s ≤ i = ground arith in ground (arith, a.marked i lo' (omega arith))
      | inr (out, same) ↦ elim (Allocated-entry i) [
        | inl (lo, up, mark, old) ↦ absurd (omega (arith, v.before i hi (sym same ∙ e)))
        | inr (out', same') ↦ rw same' (v.before i hi (sym same ∙ e))
      ]
    ]

    Allocated-zeroth : get_entry heap ram' 0 ≢ middle_entry
    Allocated-zeroth e = elim (Allocated-entry 0) [
      | inl (lo, up, mark, old) ↦ ground arith
      | inr (out, same) ↦ v.zeroth (sym same ∙ e)
    ]

    Allocated-after :
        (i : ℕ)
        → i < heap.table.total
        → get_entry heap ram' i ≡ middle_entry
        → (suc i < heap.table.total)
          × ((get_entry heap ram' (suc i) ≡ middle_entry)
              ⊎ (get_entry heap ram' (suc i) ≡ last_entry))
    Allocated-after i hi e = elim (Allocated-entry i) [
      | inl (lo, up, mark, old) ↦ elim (Allocated-entry (suc i)) [
        | inl (lo', up', mark', old') ↦ (omega (arith, a.inside), ground arith)
        | inr (out, same) ↦ absurd (ground arith)
      ]
      | inr (out, same) ↦
          let (inside, next) = v.after i hi (sym same ∙ e) in
          elim (Allocated-entry (suc i)) [
            | inl (lo, up, mark, old) ↦ absurd (omega arith)
            | inr (out', same') ↦ (inside, rw same' next)
          ]
    ]

    -- Giving out blocks keeps the shape of the table.
    pub Allocated-IsTable : IsTable heap.table.total (get_entry heap ram')
    Allocated-IsTable = record {
      shape = Allocated-shape;
      before = Allocated-before;
      zeroth = Allocated-zeroth;
      after = Allocated-after;
      behind = ap entry_has_next (a.same heap.table.total (inr a.inside)) ∙ v.behind;
    }

  module _ (layout : IsLayout heap) where
    blocks_lt : heap.table.total < 2 ^ 20
    blocks_lt = omega (arith, layout.fits)

    pub found_memory-details :
        (r c n : ℕ)
        → 0 < r
        → n ≡ r
        → c + r ≤ heap.table.total
        → found_memory heap r c n ≡ done (details_of heap c r)
    unfolding found_memory details_of
    found_memory-details r c n pos e h =
        let address = get_address_from_block_lem layout c (omega arith) in
        ground (arith, address, blocks_lt)

    pub found_memory-panic :
        (r c n : ℕ) → n ≢ r → found_memory heap r c n ≡ kernel_panic "Not enough memory"
    unfolding found_memory
    found_memory-panic r c n ne = ground arith

    module _ (ram : Ram) (r : ℕ) (pos : 0 < r) where
      not_nothing : leb (r * block_size) 0 ≡ false
      not_nothing = ground arith

      same_blocks : r * block_size / block_size ≡ r
      same_blocks = omega arith

      pub request_memory-found_memory :
          request_memory heap ram (r * block_size)
          ≡ found_memory heap r (searched heap ram r).0 (searched heap ram r).1
      unfolding request_memory
      request_memory-found_memory = rw (not_nothing, same_blocks)

      mark_entry :
          (s k : ℕ)
          → s ≤ k
          → k < s + r
          → malloc_entry (details_of heap s r) k ≡ chain_entry s (s + r - 1) k
      unfolding malloc_entry details_of
      mark_entry s k lo hi = ground arith

      pub Found-Allocated :
          Found (is_free heap ram) r heap.table.total (searched heap ram r)
          → IsTable heap.table.total (get_entry heap ram)
          → Allocated r (searched heap ram r).0 ram (marked heap ram r (searched heap ram r).0)
      unfolding marked
      Found-Allocated f v = record {
        some_block = pos;
        inside = f.inside;
        were_free = λ k lo hi.
            is_free-zero (get_entry heap ram k) (v.shape k (omega (arith, f.inside)))
              (f.run k lo hi);
        first = f.first;
        marked = λ k lo hi.
            mark_loop_inside r heap ram (details_of heap (searched heap ram r).0 r)
              (searched heap ram r).0 k lo hi
            ∙ mark_entry (searched heap ram r).0 k lo hi;
        same = λ k h.
            mark_loop_outside r heap ram (details_of heap (searched heap ram r).0 r)
              (searched heap ram r).0 k h;
        kept = λ b hb.
            mark_loop-bytes r heap ram (details_of heap (searched heap ram r).0 r)
              (searched heap ram r).0 b (omega (arith, f.inside, layout.below));
      }
