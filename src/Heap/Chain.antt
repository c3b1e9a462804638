-- ===== src/Heap/Chain.antt =====
-- The loop of `heap_free`, along the chain of blocks of an allocation.
use koko_os.Prelude.{
  ℕ, zero, suc, ◌+◌, ◌*◌, ◌≤◌, ◌<◌, ◌≡◌, ◌⊎◌, inl, inr, true, false, ◌∙◌, sym, ap, arith, lt-cases,
  Bool-cases, done,
}
use koko_os.Ram.{Ram}
use koko_os.Heap.{Heap, block_size, get_entry, entry_has_next, free_step, free_loop, w32}
use koko_os.Heap.Entries.{
  OffTable, IsLayout, free_step_self, free_step_ne, free_step-bytes_outside, free_step-bytes_inside,
}
use koko_os.Heap.Valid.{IsEntry, middle_entry, has_next-middle}

module _ (heap : Heap) where
  -- What the loop leaves in `ram'` when it starts at block `c` of the chain of block `s`: the chain
  -- from `c` on has `len` further blocks, all middle ones; their entries and that of `c` are free;
  -- nothing else of the table, and of the blocks only block `s`, has changed.
  pub record Freed (s c : ℕ) (ram ram' : Ram) : Type 0 where
    pub len : ℕ
    pub inside : c + len < heap.table.total
    pub middles : (k : ℕ) → c < k → k ≤ c + len → get_entry heap ram k ≡ middle_entry
    pub stops : entry_has_next (get_entry heap ram (suc (c + len))) ≡ false
    pub zeros : (k : ℕ) → c ≤ k → k ≤ c + len → get_entry heap ram' k ≡ 0
    pub same :
        (k : ℕ)
        → k ≤ heap.table.total
        → (k < c) ⊎ (c + len < k)
        → get_entry heap ram' k ≡ get_entry heap ram k
    pub zeroed :
        (b : ℕ)
        → heap.start_address + s * block_size ≤ b
        → b < heap.start_address + s * block_size + block_size
        → ram' b ≡ 0
    pub kept :
        (b : ℕ)
        → OffTable heap b
        → (b < heap.start_address + s * block_size)
          ⊎ (heap.start_address + s * block_size + block_size ≤ b)
        → ram' b ≡ ram b

  -- What the loop needs of the entries behind block `c`.
  pub record IsTail (c : ℕ) (ram : Ram) : Type 0 where
    pub shape : (i : ℕ) → c < i → i < heap.table.total → IsEntry (get_entry heap ram i)
    pub after :
        (i : ℕ)
        → c < i
        → i < heap.table.total
        → get_entry heap ram i ≡ middle_entry
        → suc i < heap.table.total
    pub behind : entry_has_next (get_entry heap ram heap.table.total) ≡ false

  module _ (layout : IsLayout heap) (s : ℕ) (hs : s < heap.table.total) where
    step-IsTail :
        (c : ℕ) (ram : Ram)
        → c < heap.table.total
        → IsTail c ram
        → IsTail (suc c) (free_step heap ram s c)
    step-IsTail c ram hc t = record {
      shape = λ i lo hi.
          rw (free_step_ne layout ram s c i hs (omega arith) (omega arith))
            (t.shape i (omega arith) hi);
      after = λ i lo hi e.
          t.after i (omega arith) hi
            (sym (free_step_ne layout ram s c i hs (omega arith) (omega arith)) ∙ e);
      behind =
          rw (free_step_ne layout ram s c heap.table.total hs (omega arith) (omega arith)) t.behind;
    }

    last-Freed :
        (c : ℕ) (ram : Ram)
        → c < heap.table.total
        → entry_has_next (get_entry heap ram (suc c)) ≡ false
        → Freed s c ram (free_step heap ram s c)
    last-Freed c ram hc e = record {
      len = 0;
      inside = omega arith;
      middles = λ k lo hi. absurd (omega arith);
      stops = ground (arith, e);
      zeros = λ k lo hi. ground (arith, free_step_self layout ram s c hs (omega arith));
      same = λ k hk h. free_step_ne layout ram s c k hs hk (omega arith);
      zeroed = λ b lo hi. free_step-bytes_inside layout ram s c b hs lo hi;
      kept = λ b hb h. free_step-bytes_outside layout ram s c b hs (omega arith) hb h;
    }

    more-Freed :
        (c : ℕ) (ram ram' : Ram)
        → c < heap.table.total
        → get_entry heap ram (suc c) ≡ middle_entry
        → Freed s (suc c) (free_step heap ram s c) ram'
        → Freed s c ram ram'
    more-Freed c ram ram' hc e f = record {
      len = suc f.len;
      inside = omega (arith, f.inside);
      middles = λ k lo hi. elim (lt-cases (suc c) k) [
        | inl later ↦
            sym (free_step_ne layout ram s c k hs (omega (arith, f.inside)) (omega arith))
            ∙ f.middles k later (omega arith)
        | inr now ↦ ground (arith, e)
      ];
      stops = ground (
        arith,
        f.stops,
        free_step_ne layout ram s c (suc (suc c + f.len)) hs (omega (arith, f.inside))
            (omega arith),
      );
      zeros = λ k lo hi. elim (lt-cases c k) [
        | inl later ↦ f.zeros k later (omega arith)
        | inr now ↦
            let same : k ≡ c = omega arith in
            rw same (
              f.same c (omega arith) (inl (omega arith))
              ∙ free_step_self layout ram s c hs (omega arith))
      ];
      same =
          λ k hk h. f.same k hk (omega arith) ∙ free_step_ne layout ram s c k hs hk (omega arith);
      zeroed = f.zeroed;
      kept =
          λ b hb h. f.kept b hb h ∙ free_step-bytes_outside layout ram s c b hs (omega arith) hb h;
    }

    free_loop-stop :
        (n c : ℕ) (ram : Ram)
        → w32 (c + 1) ≡ suc c
        → entry_has_next (get_entry heap (free_step heap ram s c) (suc c)) ≡ false
        → free_loop (suc n) heap ram s c ≡ done (free_step heap ram s c)
    unfolding free_loop
    free_loop-stop n c ram e h = rw (e, free_loop, h)

    free_loop-go :
        (n c : ℕ) (ram : Ram)
        → w32 (c + 1) ≡ suc c
        → entry_has_next (get_entry heap (free_step heap ram s c) (suc c)) ≡ true
        → free_loop (suc n) heap ram s c ≡ free_loop n heap (free_step heap ram s c) s (suc c)
    unfolding free_loop
    free_loop-go n c ram e h = rw (e, free_loop, h) (rw e)

    -- A block behind `c` that is marked as followed lies in the table, and is a middle block.
    tail-middle :
        (c : ℕ) (ram : Ram)
        → c < heap.table.total
        → IsTail c ram
        → entry_has_next (get_entry heap ram (suc c)) ≡ true
        → (suc c < heap.table.total) × (get_entry heap ram (suc c) ≡ middle_entry)
    tail-middle c ram hc t go = elim (lt-cases (suc c) heap.table.total) [
      | inl inside ↦ (
        inside,
        has_next-middle (get_entry heap ram (suc c)) (t.shape (suc c) (omega arith) inside) go,
      )
      | inr over ↦
          let e : suc c ≡ heap.table.total = omega arith in
          absurd (ground (arith, ap (get_entry heap ram) e, t.behind))
    ]

    -- The loop ends: from block `c` on, `total - c` rounds of fuel are enough.
    pub free_loop-done :
        (n c : ℕ) (ram : Ram)
        → c < heap.table.total
        → heap.table.total ≤ c + n
        → IsTail c ram
        → (ram' : Ram) × (free_loop n heap ram s c ≡ done ram') × Freed s c ram ram'
    free_loop-done zero c ram hc fuel t = absurd (omega arith)
    free_loop-done (suc n) c ram hc fuel t =
        elim (Bool-cases (entry_has_next (get_entry heap ram (suc c)))) [
          | inr stop ↦ (
            free_step heap ram s c,
            free_loop-stop n c ram next (kept ∙ stop),
            last-Freed c ram hc stop,
          )
          | inl go ↦
              let (inside, middle) = tail-middle c ram hc t go in
              let (ram', run, freed) =
                free_loop-done n (suc c) (free_step heap ram s c) inside (omega arith)
                  (step-IsTail c ram hc t) in
              (
                ram',
                free_loop-go n c ram next (kept ∙ go) ∙ run,
                more-Freed c ram ram' hc middle freed,
              )
        ]
      where
        next : w32 (c + 1) ≡ suc c
        next = omega (arith, layout.fits)

        kept :
            entry_has_next (get_entry heap (free_step heap ram s c) (suc c))
            ≡ entry_has_next (get_entry heap ram (suc c))
        kept =
            ap entry_has_next (free_step_ne layout ram s c (suc c) hs (omega arith) (omega arith))
