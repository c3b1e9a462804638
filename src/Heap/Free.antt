-- ===== src/Heap/Free.antt =====
-- `heap_free` on the first block of an allocation, and the table's shape.
use koko_os.Prelude.{
  ℕ, suc, ◌+◌, ◌*◌, ◌≤◌, ◌<◌, ◌≡◌, ◌≢◌, refl, ◌⊎◌, inl, inr, true, false, ◌∙◌, sym, ap, arith, ltb,
  lt-cases, done,
}
use koko_os.Ram.{Ram}
use koko_os.Heap.{
  Heap, block_size, get_entry, entry_has_next, entry_is_first, free_loop, free, start_block_of,
  signed_quotient,
}
use koko_os.Heap.Entries.{IsFreeable}
use koko_os.Heap.Valid.{IsEntry, IsTable, first_entry, last_entry, middle_entry}
use koko_os.Heap.Chain.{Freed, IsTail, free_loop-done}

module _ (heap : Heap) where
  IsTail-IsTable :
      (ram : Ram) (s : ℕ) → IsTable heap.table.total (get_entry heap ram) → IsTail heap s ram
  IsTail-IsTable ram s v = record {
    shape = λ i lo hi. v.shape i hi;
    after = λ i lo hi e. (v.after i hi e).0;
    behind = v.behind;
  }

  pub has_next_middle : entry_has_next middle_entry ≡ true
  unfolding entry_has_next
  has_next_middle = refl

  module _ (s : ℕ) (ram ram' : Ram) (first : get_entry heap ram s ≡ first_entry)
      (f : Freed heap s s ram ram') (v : IsTable heap.table.total (get_entry heap ram)) where
    -- An entry after the loop is free in the chain, and as before outside it.
    Freed-entry :
        (k : ℕ)
        → k ≤ heap.table.total
        → ((s ≤ k) × (k ≤ s + f.len) × (get_entry heap ram' k ≡ 0))
          ⊎ (((k < s) ⊎ (s + f.len < k)) × (get_entry heap ram' k ≡ get_entry heap ram k))
    Freed-entry k hk = elim (lt-cases k s) [
      | inl before ↦ inr (inl before, f.same k hk (inl before))
      | inr from ↦ elim (lt-cases (s + f.len) k) [
        | inl behind ↦ inr (inr behind, f.same k hk (inr behind))
        | inr within ↦ inl (from, within, f.zeros k from within)
      ]
    ]

    stops_before : (i : ℕ) → i ≡ s + f.len → get_entry heap ram (suc i) ≢ middle_entry
    stops_before i e m =
        let stop : entry_has_next (get_entry heap ram (suc i)) ≡ false = ground (arith, f.stops) in
        let go : entry_has_next (get_entry heap ram (suc i)) ≡ true =
          ap entry_has_next m ∙ has_next_middle in
        ground arith

    Freed-shape : (i : ℕ) → i < heap.table.total → IsEntry (get_entry heap ram' i)
    Freed-shape i hi = elim (Freed-entry i (omega arith)) [
      | inl (lo, up, zero_entry) ↦ inl zero_entry
      | inr (out, same) ↦ rw same (v.shape i hi)
    ]

    Freed-before :
        (i : ℕ)
        → suc i < heap.table.total
        → get_entry heap ram' (suc i) ≡ middle_entry
        → (get_entry heap ram' i ≡ first_entry) ⊎ (get_entry heap ram' i ≡ middle_entry)
    Freed-before i hi e = elim (Freed-entry (suc i) (omega arith)) [
      | inl (lo, up, zero_entry) ↦ absurd (omega arith)
      | inr (out, same) ↦
          let m : get_entry heap ram (suc i) ≡ middle_entry = sym same ∙ e in
          elim (Freed-entry i (omega arith)) [
            | inl (lo, up, zero_entry) ↦ absurd (stops_before i (omega arith) m)
            | inr (out', same') ↦ rw same' (v.before i hi m)
          ]
    ]

    Freed-zeroth : 0 < heap.table.total → get_entry heap ram' 0 ≢ middle_entry
    Freed-zeroth h e = elim (Freed-entry 0 (omega arith)) [
      | inl (lo, up, zero_entry) ↦ omega arith
      | inr (out, same) ↦ v.zeroth (sym same ∙ e)
    ]

    Freed-after :
        (i : ℕ)
        → i < heap.table.total
        → get_entry heap ram' i ≡ middle_entry
        → (suc i < heap.table.total)
          × ((get_entry heap ram' (suc i) ≡ middle_entry)
              ⊎ (get_entry heap ram' (suc i) ≡ last_entry))
    Freed-after i hi e = elim (Freed-entry i (omega arith)) [
      | inl (lo, up, zero_entry) ↦ absurd (omega arith)
      | inr (out, same) ↦
          let (inside, next) = v.after i hi (sym same ∙ e) in
          elim (Freed-entry (suc i) (omega arith)) [
            | inl (lo, up, zero_entry) ↦
                let e' : suc i ≡ s = omega arith in
                let first' : get_entry heap ram (suc i) ≡ first_entry = rw e' first in
                absurd (omega arith)
            | inr (out', same') ↦ (inside, rw same' next)
          ]
    ]

    -- Freeing a whole chain keeps the shape of the table.
    Freed-IsTable : IsTable heap.table.total (get_entry heap ram')
    Freed-IsTable = record {
      shape = Freed-shape;
      before = Freed-before;
      zeroth = Freed-zeroth (omega (arith, f.inside));
      after = Freed-after;
      behind = ap entry_has_next (f.same heap.table.total (omega arith) (inr f.inside)) ∙ v.behind;
    }

  pub start_block_of_lem :
      (s : ℕ)
      → IsFreeable heap
      → s < heap.table.total
      → start_block_of heap (heap.start_address + s * block_size) ≡ s
  unfolding start_block_of signed_quotient
  start_block_of_lem s layout hs = ground (arith, layout.layout.fits, layout.half)

  pub first-is_first : (e : ℕ) → e ≡ first_entry → entry_is_first e ≡ true
  unfolding entry_is_first
  first-is_first e h = rw h

  pub not_below : (a b : ℕ) → ltb (a + b) a ≡ false
  not_below a b = ground arith

  free-free_loop :
      (ram : Ram) (s : ℕ)
      → IsFreeable heap
      → s < heap.table.total
      → get_entry heap ram s ≡ first_entry
      → free heap ram (heap.start_address + s * block_size)
        ≡ free_loop (heap.table.total + 1) heap ram s s
  unfolding free
  free-free_loop ram s layout hs first =
      rw (start_block_of_lem s layout hs, not_below heap.start_address (s * block_size))
        (rw (first-is_first (get_entry heap ram s) first))

  -- On a heap of 2 GiB at most in the address space, with a well-formed table, `heap_free` of the address of a first
  -- block returns: it frees exactly the chain of that block, zeroes the first block of the chain
  -- and no other byte of the blocks, and keeps the table's shape.
  pub free-Freed :
      (ram : Ram) (s : ℕ)
      → IsFreeable heap
      → IsTable heap.table.total (get_entry heap ram)
      → s < heap.table.total
      → get_entry heap ram s ≡ first_entry
      → (ram' : Ram) × (free heap ram (heap.start_address + s * block_size) ≡ done ram')
        × Freed heap s s ram ram'
        × IsTable heap.table.total (get_entry heap ram')
  free-Freed ram s layout v hs first =
      let (ram', run, freed) =
        free_loop-done heap layout.layout s hs (heap.table.total + 1) s ram hs (omega arith)
          (IsTail-IsTable ram s v) in
      (
        ram',
        free-free_loop ram s layout hs first ∙ run,
        freed,
        Freed-IsTable s ram ram' first freed v,
      )
