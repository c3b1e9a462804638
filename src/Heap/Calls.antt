-- ===== src/Heap/Calls.antt =====
-- What a caller of `heap_malloc` and `heap_free` can rely on.
use koko_os.Prelude.{
  ℕ, suc, ◌+◌, ◌-◌, ◌*◌, ◌/◌, ◌≤◌, ◌<◌, ◌^◌, ◌≡◌, ◌⊎◌, inl, inr, true, ◌&&◌, ◌∙◌, sym, ap, arith,
  ltb, lt-cases, ◌==◌, done, kernel_panic, if◌then◌else◌, String,
}
use koko_os.Ram.{Ram}
use koko_os.Heap.{
  Heap, block_size, get_entry, entry_has_next, align_amount_of_bytes_requested, request_memory,
  found_memory, malloc,
}
use koko_os.Heap.Align.{align-blocks}
use koko_os.Heap.Entries.{IsLayout}
use koko_os.Heap.Search.{IsRun, Found, search_loop_lem}
use koko_os.Heap.Valid.{IsTable, first_entry, middle_entry, last_entry}
use koko_os.Heap.Malloc.{
  is_free, Allocated, Allocated-IsTable, details_of, found_memory-details, found_memory-panic,
  request_memory-found_memory, searched, marked, Found-Allocated,
}
use koko_os.Heap.Chain.{Freed}
use koko_os.Heap.Free.{has_next_middle}

-- The whole blocks that hold `n` bytes.
abbrev pub blocks_for : ℕ → ℕ
blocks_for n = (n + 4095) / block_size

abbrev pub out_of_memory : String
out_of_memory = "Not enough memory"

module _ (heap : Heap) (layout : IsLayout heap) where
  module _ (ram : Ram) (v : IsTable heap.table.total (get_entry heap ram)) where
    -- A request that the heap can meet.
    pub record Served (n : ℕ) : Type 0 where
      pub block : ℕ
      pub ram' : Ram
      pub returns : malloc heap ram n ≡ done (heap.start_address + block * block_size, ram')
      pub allocated : Allocated heap (blocks_for n) block ram ram'
      pub table : IsTable heap.table.total (get_entry heap ram')

    -- A request that it cannot meet.
    pub record Refused (n : ℕ) : Type 0 where
      pub panics : malloc heap ram n ≡ kernel_panic out_of_memory
      pub nowhere :
          (t : ℕ)
          → t + blocks_for n ≤ heap.table.total
          → ¬ IsRun (is_free heap ram) t (blocks_for n)

    malloc-found_memory :
        (n : ℕ)
        → 0 < n
        → n ≤ 2 ^ 32 - block_size
        → request_memory heap ram (align_amount_of_bytes_requested n)
          ≡ found_memory heap
              (blocks_for n)
              (searched heap ram (blocks_for n)).0
              (searched heap ram (blocks_for n)).1
    malloc-found_memory n pos small =
        rw (align-blocks n pos small)
          (request_memory-found_memory heap layout ram (blocks_for n) (omega arith))

    malloc-marked :
        (n s r : ℕ)
        → 0 < r
        → request_memory heap ram (align_amount_of_bytes_requested n) ≡ done (details_of heap s r)
        → malloc heap ram n ≡ done (heap.start_address + s * block_size, marked heap ram r s)
    unfolding malloc marked details_of
    malloc-marked n s r pos e =
        let rounds : s + r - 1 + 1 - s ≡ r = omega arith in rw (e, malloc, rounds)

    Served-Found :
        (n : ℕ)
        → 0 < n
        → n ≤ 2 ^ 32 - block_size
        → Found
            (is_free heap ram)
            (blocks_for n)
            heap.table.total
            (searched heap ram (blocks_for n))
        → Served n
    Served-Found n pos small f =
        let r : ℕ = blocks_for n in
        let s : ℕ = (searched heap ram r).0 in
        let some_block : 0 < blocks_for n = omega arith in
        let given = Found-Allocated heap layout ram r some_block f v in
        record {
          block = s;
          ram' = marked heap ram r s;
          returns = malloc-marked n s r some_block (
              malloc-found_memory n pos small
              ∙ found_memory-details heap layout r s (searched heap ram r).1 some_block f.count
                  f.inside);
          allocated = given;
          table = Allocated-IsTable heap r s ram (marked heap ram r s) given v;
        }

    malloc-panics :
        (n : ℕ) (m : String)
        → request_memory heap ram (align_amount_of_bytes_requested n) ≡ kernel_panic m
        → malloc heap ram n ≡ kernel_panic m
    unfolding malloc
    malloc-panics n m e = rw (e, malloc)

    -- On a heap in the address space with a well-formed table, `heap_malloc` of one byte or more,
    -- up to 2^32 - 4096: either it returns the address of the first run of free blocks that holds
    -- the request, marks just those blocks, leaves every byte of the blocks as it was and keeps the
    -- table's shape; or it panics, and no such run is there.
    pub malloc_lem : (n : ℕ) → 0 < n → n ≤ 2 ^ 32 - block_size → Served n ⊎ Refused n
    malloc_lem n pos small =
        elim (search_loop_lem (is_free heap ram) (blocks_for n) heap.table.total (omega arith)) [
          | inl f ↦ inl (Served-Found n pos small f)
          | inr m ↦ inr (record {
            panics = malloc-panics n out_of_memory (
                malloc-found_memory n pos small
                ∙ found_memory-panic heap layout (blocks_for n) (searched heap ram (blocks_for n)).0
                    (searched heap ram (blocks_for n)).1 m.count);
            nowhere = m.nowhere;
          })
        ]

  pub chain-first :
      (ram ram' : Ram) (r s : ℕ) → Allocated heap r s ram ram' → get_entry heap ram' s ≡ first_entry
  chain-first ram ram' r s a =
      ground (arith, a.marked s (omega arith) (omega (arith, a.some_block)))

  module _ (ram ram' ram'' : Ram) (r s : ℕ) (a : Allocated heap r s ram ram')
      (v : IsTable heap.table.total (get_entry heap ram)) (f : Freed heap s s ram' ram'') where
    chain_single : r ≡ 1 → 0 < f.len → ⊥
    chain_single one longer =
        let m : get_entry heap ram' (suc s) ≡ middle_entry =
          f.middles (suc s) (omega arith) (omega arith) in
        omega (
          arith,
          v.before s (omega (arith, f.inside)) (sym (a.same (suc s) (inr (omega arith))) ∙ m),
          a.were_free s (omega arith) (omega arith),
        )

    chain_long : 1 < r → r - 2 < f.len → ⊥
    chain_long several longer = ground (
      arith,
      f.middles (s + r - 1) (omega arith) (omega arith),
      a.marked (s + r - 1) (omega arith) (omega arith),
    )

    chain_short : f.len < r - 2 → ⊥
    chain_short shorter =
        let mark : get_entry heap ram' (suc (s + f.len)) ≡ middle_entry =
          ground (arith, a.marked (suc (s + f.len)) (omega arith) (omega arith)) in
        let go : entry_has_next (get_entry heap ram' (suc (s + f.len))) ≡ true =
          ap entry_has_next mark ∙ has_next_middle heap in
        ground (arith, f.stops)

    -- The chain that `heap_free` follows has all blocks of an allocation but the last of several.
    chain-len : f.len ≡ r - 2
    chain-len = elim (lt-cases f.len (r - 2)) [
      | inl shorter ↦ absurd (chain_short shorter)
      | inr enough ↦ elim (lt-cases (r - 2) f.len) [
        | inr exact ↦ omega arith
        | inl longer ↦ elim (lt-cases 1 r) [
          | inl several ↦ absurd (chain_long several longer)
          | inr single ↦ absurd (chain_single (omega (arith, a.some_block)) (omega arith))
        ]
      ]
    ]

    pub free-entry :
        (k : ℕ)
        → k ≤ heap.table.total
        → get_entry heap ram'' k
          ≡ (if ltb 1 r && (k == s + r - 1) then last_entry else get_entry heap ram k)
    free-entry k hk = elim (lt-cases k s) [
      | inl before ↦ ground (arith, f.same k hk (inl before), a.same k (inl before), a.some_block)
      | inr from ↦ elim (lt-cases (s + f.len) k) [
        | inr within ↦ ground (
          arith,
          chain-len,
          f.zeros k from within,
          a.were_free k from (omega (arith, chain-len, a.some_block)),
        )
        | inl behind ↦ elim (lt-cases k (s + r)) [
          | inl last ↦ ground (arith, chain-len, f.same k hk (inr behind), a.marked k from last)
          | inr out ↦ ground (arith, f.same k hk (inr behind), a.same k (inr out))
        ]
      ]
    ]
