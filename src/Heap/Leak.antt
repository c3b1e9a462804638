-- ===== src/Heap/Leak.antt =====
-- Sequences of `heap_malloc` and `heap_free`: what a pair of calls leaves behind.
use koko_os.Prelude.{
  ℕ, ◌+◌, ◌-◌, ◌*◌, ◌≤◌, ◌<◌, ◌^◌, ◌≡◌, refl, ◌⊎◌, inl, inr, true, ◌&&◌, ◌∙◌, sym, ap, arith, ltb,
  lt-cases, ◌==◌, done, kernel_panic, if◌then◌else◌,
}
use mathlib.Core.Path.{subst, subst₂}
use koko_os.Ram.{Ram}
use koko_os.Heap.{
  Heap, block_size, get_entry, set_entry, entry_is_first, align_amount_of_bytes_requested,
  request_memory, malloc, malloc_entry, mark_loop, free, start_block_of,
}
use koko_os.Heap.Align.{align_wraps}
use koko_os.Heap.Entries.{IsLayout, IsFreeable}
use koko_os.Heap.Valid.{IsTable, first_entry, last_entry}
use koko_os.Heap.Malloc.{Allocated}
use koko_os.Heap.Calls.{blocks_for, Served, malloc_lem, chain-first, free-entry}
use koko_os.Heap.Free.{free-Freed, start_block_of_lem, not_below}

done-injective {ℓ} : {A : Type ℓ} {a b : A} → done a ≡ done b → a ≡ b
done-injective h = cc

module _ (heap : Heap) (layout : IsFreeable heap) (ram : Ram)
    (v : IsTable heap.table.total (get_entry heap ram)) where
  -- What freeing an allocation of `n` bytes at `address` leaves of the table `ram` before it.
  pub record Leaves (n address : ℕ) (ram' : Ram) : Type 0 where
    pub ram'' : Ram
    pub returns : free heap ram' address ≡ done ram''
    pub table : IsTable heap.table.total (get_entry heap ram'')
    pub entries :
        (k : ℕ)
        → k ≤ heap.table.total
        → get_entry heap ram'' k ≡ (
            if ltb block_size n && (k == start_block_of heap address + blocks_for n - 1)
            then last_entry
            else get_entry heap ram k)

  several : (n : ℕ) → ltb 1 (blocks_for n) ≡ ltb block_size n
  several n = ground arith

  Leaves-Served :
      (n : ℕ) (h : Served heap layout.layout ram v n)
      → Leaves n (heap.start_address + h.block * block_size) h.ram'
  Leaves-Served n h =
      let s : ℕ = h.block in
      let r : ℕ = blocks_for n in
      let first = chain-first heap layout.layout ram h.ram' r s h.allocated in
      let hs : s < heap.table.total = omega (arith, h.allocated.some_block, h.allocated.inside) in
      let (ram'', run, freed, table) = free-Freed heap h.ram' s layout h.table hs first in
      record {
        ram'' = ram'';
        returns = run;
        table = table;
        entries = λ k hk.
            free-entry heap layout.layout ram h.ram' ram'' r s h.allocated v freed k hk
            ∙ rw (start_block_of_lem heap s layout hs, several n) refl;
      }

  -- On a heap of 2 GiB at most in the address space, with a well-formed table, freeing what `heap_malloc` of 1 to
  -- 2^32 - 4096 bytes has returned returns, and keeps the table well-formed. Where the request fits
  -- one block the table is as before the allocation. Of a longer request the last block stays
  -- marked as taken, and all other entries are restored.
  pub free-malloc :
      (n address : ℕ) (ram' : Ram)
      → 0 < n
      → n ≤ 2 ^ 32 - block_size
      → malloc heap ram n ≡ done (address, ram')
      → Leaves n address ram'
  free-malloc n address ram' pos small e = elim (malloc_lem heap layout.layout ram v n pos small) [
    | inr r ↦ absurd (cc)
    | inl h ↦
        subst₂ (Leaves n) (ap (λ p. p.0) (done-injective (sym h.returns ∙ e)))
          (ap (λ p. p.1) (done-injective (sym h.returns ∙ e))) (Leaves-Served n h)
  ]

free_unmarked :
    (heap : Heap) (ram : Ram) (s : ℕ)
    → IsFreeable heap
    → s < heap.table.total
    → get_entry heap ram s ≡ 0
    → free heap ram (heap.start_address + s * block_size)
      ≡ kernel_panic "Address is not the beginning of an address block!"
unfolding free
free_unmarked heap ram s layout hs e =
    rw (start_block_of_lem heap s layout hs, not_below heap heap.start_address (s * block_size), e)
      (unfold entry_is_first in refl)

-- On a heap of 2 GiB at most in the address space, with a well-formed table, a second `heap_free` of an address whose
-- first `heap_free` has returned panics.
pub free-free :
    (heap : Heap) (ram ram' : Ram) (s : ℕ)
    → IsFreeable heap
    → IsTable heap.table.total (get_entry heap ram)
    → s < heap.table.total
    → get_entry heap ram s ≡ first_entry
    → free heap ram (heap.start_address + s * block_size) ≡ done ram'
    → free heap ram' (heap.start_address + s * block_size)
      ≡ kernel_panic "Address is not the beginning of an address block!"
free-free heap ram ram' s layout v hs first e =
    let (ram'', run, freed, table) = free-Freed heap ram s layout v hs first in
    let same : ram'' ≡ ram' = done-injective (sym run ∙ e) in
    let entry : get_entry heap ram' s ≡ 0 =
      subst (λ m. get_entry heap m s ≡ 0) same (freed.zeros s (omega arith) (omega arith)) in
    free_unmarked heap ram' s layout hs entry

-- `heap_free` returns only for an address from `start_address` on whose block is marked as a first
-- block.
pub free-is_first :
    (heap : Heap) (ram ram' : Ram) (address : ℕ)
    → free heap ram address ≡ done ram'
    → (heap.start_address ≤ address)
      × (entry_is_first (get_entry heap ram (start_block_of heap address)) ≡ true)
unfolding free
free-is_first heap ram ram' address e = ground arith

-- A request of no bytes, and one of more than 2^32 - 4096 of a `size_t`, which
-- wraps to none, return the null
-- pointer, and mark block 0 as an allocation, whether it was free or taken.
pub malloc_null :
    (heap : Heap) (ram : Ram) (n : ℕ)
    → (n ≡ 0) ⊎ ((2 ^ 32 - block_size < n) × (n < 2 ^ 32))
    → malloc heap ram n ≡ done (0, set_entry heap ram 0 first_entry)
unfolding malloc request_memory mark_loop malloc_entry
malloc_null heap ram n h = rw (none h) refl
  where
    none :
        (n ≡ 0) ⊎ ((2 ^ 32 - block_size < n) × (n < 2 ^ 32)) → align_amount_of_bytes_requested n ≡ 0
    none (inl e) = rw e (unfold align_amount_of_bytes_requested in refl)
    none (inr (lo, hi)) = align_wraps n lo hi

-- Of two allocations one after the other, the blocks of the second are none of the first, and the
-- entries of the first stay.
Allocated-disjoint :
    (heap : Heap) (ram ram' ram'' : Ram) (r s r' s' : ℕ)
    → Allocated heap r s ram ram'
    → Allocated heap r' s' ram' ram''
    → ((s + r ≤ s') ⊎ (s' + r' ≤ s))
      × ((k : ℕ) → s ≤ k → k < s + r → get_entry heap ram'' k ≡ get_entry heap ram' k)
Allocated-disjoint heap ram ram' ram'' r s r' s' a b =
    let later : (k : ℕ) → s ≤ k → k < s + r → (k < s') ⊎ (s' + r' ≤ k) = λ k lo hi.
      elim (lt-cases k s') [
        | inl before ↦ inl before
        | inr from ↦ elim (lt-cases k (s' + r')) [
          | inl within ↦ absurd (ground (arith, a.marked k lo hi, b.were_free k from within))
          | inr behind ↦ inr behind
        ]
      ] in
    (
      elim (lt-cases s' s) [
        | inl before ↦ omega (arith, later s (omega arith) (omega (arith, a.some_block)))
        | inr from ↦ elim (lt-cases s' (s + r)) [
          | inl within ↦ absurd (omega (arith, later s' from within, b.some_block))
          | inr behind ↦ inl behind
        ]
      ],
      λ k lo hi. b.same k (later k lo hi),
    )

pub Served-returned :
    (heap : Heap) (layout : IsLayout heap) (ram : Ram)
    (v : IsTable heap.table.total (get_entry heap ram)) (n address : ℕ) (ram' : Ram)
    → 0 < n
    → n ≤ 2 ^ 32 - block_size
    → malloc heap ram n ≡ done (address, ram')
    → (s : ℕ) × (address ≡ heap.start_address + s * block_size)
      × Allocated heap (blocks_for n) s ram ram'
      × IsTable heap.table.total (get_entry heap ram')
Served-returned heap layout ram v n address ram' pos small e =
    elim (malloc_lem heap layout ram v n pos small) [
      | inr r ↦ absurd (cc)
      | inl h ↦
          let same = done-injective (sym h.returns ∙ e) in
          (
            h.block,
            sym (ap (λ p. p.0) same),
            subst (Allocated heap (blocks_for n) h.block ram) (ap (λ p. p.1) same) h.allocated,
            subst (λ m. IsTable heap.table.total (get_entry heap m)) (ap (λ p. p.1) same) h.table,
          )
    ]

-- On a heap in the address space with a well-formed table, two calls of `heap_malloc` in a row that
-- return, each of one byte or more and at most 2^32 - 4096, give out ranges of whole blocks that do
-- not overlap.
pub malloc-disjoint :
    (heap : Heap) (ram ram' ram'' : Ram) (n n' address address' : ℕ)
    → IsLayout heap
    → IsTable heap.table.total (get_entry heap ram)
    → 0 < n
    → n ≤ 2 ^ 32 - block_size
    → 0 < n'
    → n' ≤ 2 ^ 32 - block_size
    → malloc heap ram n ≡ done (address, ram')
    → malloc heap ram' n' ≡ done (address', ram'')
    → (address + blocks_for n * block_size ≤ address')
      ⊎ (address' + blocks_for n' * block_size ≤ address)
malloc-disjoint heap ram ram' ram'' n n' address address' layout v pos small pos' small' e e' =
    let (s, at, given, v') = Served-returned heap layout ram v n address ram' pos small e in
    let (s', at', given', v'') =
      Served-returned heap layout ram' v' n' address' ram'' pos' small' e' in
    let apart =
      (Allocated-disjoint heap ram ram' ram'' (blocks_for n) s (blocks_for n') s' given given').0 in
    omega (arith, at, at', apart)
