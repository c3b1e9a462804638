-- ===== src/Heap/Reuse.antt =====
-- Freeing an allocation after the heap's blocks have been written to.
use koko_os.Prelude.{
  sym, suc, inl, inr, lt-cases, Bool-cases, ◌==◌, ℕ, ◌+◌, ◌-◌, ◌*◌, ◌^◌, ◌<◌, ◌≤◌, ◌≡◌, ◌∙◌, ap,
  ◌⊎◌, arith, done,
}
use koko_os.Ram.{Ram}
use koko_os.Ram.Words.{load32_congr}
use koko_os.Heap.{Heap, block_size, get_entry, malloc, free}
use koko_os.Heap.Entries.{OffTable, IsLayout, IsFreeable}
use mathlib.Core.Path.{subst}
use koko_os.Heap.Malloc.{Allocated}
use koko_os.Heap.Chain.{Freed}
use koko_os.Heap.Valid.{IsTable, IsTable-congr, middle_entry}
use koko_os.Heap.Free.{free-Freed}
use koko_os.Heap.Calls.{blocks_for, chain-first}
use koko_os.Heap.Leak.{Served-returned}

-- Two ranges of bytes with no byte in common.
abbrev pub Apart : (a n b k : ℕ) → Type 0
Apart a n b k = (a + n ≤ b) ⊎ (b + k ≤ a)

-- A range of bytes clear of the table, and of the word behind it.
abbrev pub Clear : Heap → (a n : ℕ) → Type 0
Clear heap a n = Apart a n heap.table.entries (4 * (heap.table.total + 1))

-- The entries depend on the bytes of the table only.
pub same_entries :
    (heap : Heap) (ram ram' : Ram)
    → IsLayout heap
    → ((b : ℕ)
        → heap.table.entries ≤ b
        → b < heap.table.entries + 4 * (heap.table.total + 1)
        → ram' b ≡ ram b)
    → (i : ℕ) → i ≤ heap.table.total
    → get_entry heap ram' i ≡ get_entry heap ram i
unfolding get_entry
same_entries heap ram ram' layout same i hi =
    load32_congr ram ram' (heap.table.entries + 4 * i) λ b lo up. same b (omega arith) (omega arith)

-- A caller of `heap_malloc` that only writes to the heap's blocks before it frees what it was given.
pub record Returned (heap : Heap) (n local : ℕ) (ram ram' ram₃ : Ram) : Type 0 where
  pub ram₄ : Ram
  pub returns : free heap ram₃ local ≡ done ram₄
  pub table : IsTable heap.table.total (get_entry heap ram₄)
  pub above : heap.start_address ≤ local
  pub given : (b : ℕ) → OffTable heap b → ram' b ≡ ram b
  pub block : ℕ
  pub at : local ≡ heap.start_address + block * block_size
  pub inside : block + blocks_for n ≤ heap.table.total
  pub were_free : (k : ℕ) → block ≤ k → k < block + blocks_for n → get_entry heap ram k ≡ 0
  pub restored :
      n ≤ block_size → (k : ℕ) → k ≤ heap.table.total → get_entry heap ram₄ k ≡ get_entry heap ram k
  pub after :
      (b : ℕ) → OffTable heap b → Apart b 1 local (blocks_for n * block_size) → ram₄ b ≡ ram₃ b

-- Of an allocation of one block the chain is that block, and freeing it restores the table.
single_restored :
    (heap : Heap) (ram ram' ram₃ ram₄ : Ram) (s : ℕ)
    → Allocated heap 1 s ram ram'
    → IsTable heap.table.total (get_entry heap ram)
    → ((i : ℕ) → i ≤ heap.table.total → get_entry heap ram₃ i ≡ get_entry heap ram' i)
    → Freed heap s s ram₃ ram₄
    → (k : ℕ) → k ≤ heap.table.total
    → get_entry heap ram₄ k ≡ get_entry heap ram k
single_restored heap ram ram' ram₃ ram₄ s a v entries f k hk = elim (lt-cases 0 f.len) [
  | inl longer ↦
      let m : get_entry heap ram (suc s) ≡ middle_entry =
        sym (a.same (suc s) (inr (omega arith)))
        ∙ sym (entries (suc s) (omega (arith, f.inside)))
        ∙ f.middles (suc s) (omega arith) (omega arith) in
      absurd (
        omega (
          arith,
          v.before s (omega (arith, f.inside)) m,
          a.were_free s (omega arith) (omega arith),
        ))
  | inr single ↦ elim (Bool-cases (k == s)) [
    | inl e ↦
        let z : k ≡ s = ground arith in
        f.zeros k (omega arith) (omega arith) ∙ sym (a.were_free k (omega arith) (omega arith))
    | inr e ↦
        let out : (k < s) ⊎ (s + 1 ≤ k) = ground arith in
        f.same k hk (omega arith) ∙ entries k hk ∙ a.same k out
  ]
]

pub free-Returned :
    (heap : Heap) (layout : IsFreeable heap) (ram : Ram)
    (v : IsTable heap.table.total (get_entry heap ram)) (n local : ℕ) (ram' ram₃ : Ram)
    → 0 < n
    → n ≤ 2 ^ 32 - block_size
    → malloc heap ram n ≡ done (local, ram')
    → ((b : ℕ)
        → heap.table.entries ≤ b
        → b < heap.table.entries + 4 * (heap.table.total + 1)
        → ram₃ b ≡ ram' b)
    → Returned heap n local ram ram' ram₃
free-Returned heap layout ram v n local ram' ram₃ some small given low =
    let (s, at, allocated, table) =
      Served-returned heap layout.layout ram v n local ram' some small given in
    let inside : s < heap.table.total = omega (arith, allocated.some_block, allocated.inside) in
    let entries : (i : ℕ) → i ≤ heap.table.total → get_entry heap ram₃ i ≡ get_entry heap ram' i =
      same_entries heap ram' ram₃ layout.layout low in
    let (ram₄, run, freed, table₄) =
      free-Freed heap ram₃ s layout
        (IsTable-congr heap.table.total (get_entry heap ram') (get_entry heap ram₃) entries table)
        inside
        (entries s (omega arith)
          ∙ chain-first heap layout.layout ram ram' (blocks_for n) s allocated) in
    record {
      ram₄ = ram₄;
      returns = ap (free heap ram₃) at ∙ run;
      table = table₄;
      above = omega (arith, at);
      given = allocated.kept;
      block = s;
      at = at;
      inside = allocated.inside;
      were_free = allocated.were_free;
      restored = λ small_request.
          let one : blocks_for n ≡ 1 = omega arith in
          single_restored heap ram ram' ram₃ ram₄ s
            (subst (λ r. Allocated heap r s ram ram') one allocated) v entries freed;
      after = λ b hb out. freed.kept b hb (omega (arith, at, allocated.some_block));
    }
