-- ===== src/Fat/Close.antt =====
-- `fat16_close` of an open file gives back the three allocations of the file.
use koko_os.Prelude.{
  ℕ, ◌+◌, ◌*◌, ◌<◌, ◌≡◌, ◌≢◌, refl, ◌∙◌, sym, ap, inl, inr, arith, true, lt-cases, done,
}
use koko_os.Ram.{Ram}
use koko_os.Heap
use koko_os.Heap.{Heap, block_size, get_entry}
use koko_os.Heap.Entries.{IsFreeable}
use koko_os.Heap.Valid.{IsTable, first_entry}
use koko_os.Heap.Chain.{Freed}
use koko_os.Heap.Free.{free-Freed}
use koko_os.Memory
use koko_os.Memory.{Machine}
use koko_os.Disk.{ok}
use koko_os.Fat.{type_of}
use koko_os.Fat.Items.{free_item}
use koko_os.Fat.Files.{item_of, file_item_of, is_file, close}

-- A first block that is not freed stays one.
pub first_stays :
    (heap : Heap) (ram ram' : Ram) (s k : ℕ)
    → Freed heap s s ram ram'
    → k < heap.table.total
    → k ≢ s
    → get_entry heap ram k ≡ first_entry
    → get_entry heap ram' k ≡ first_entry
first_stays heap ram ram' s k f hk other first = elim (lt-cases k s) [
  | inl before ↦ f.same k (omega arith) (inl before) ∙ first
  | inr from ↦ elim (lt-cases (s + f.len) k) [
    | inl behind ↦ f.same k (omega arith) (inr behind) ∙ first
    | inr within ↦ absurd (omega (arith, f.middles k (omega arith) within))
  ]
]

close-calls :
    (m : Machine) (descriptor : ℕ) (ram₁ ram₂ ram₃ : Ram)
    → is_file m.ram descriptor ≡ true
    → Heap.free m.heap m.ram (file_item_of m.ram descriptor) ≡ done ram₁
    → Heap.free m.heap ram₁ (item_of m.ram descriptor) ≡ done ram₂
    → Heap.free m.heap ram₂ descriptor ≡ done ram₃
    → close m descriptor ≡ done (ok, record m { ram = ram₃ })
unfolding close free_item is_file file_item_of Memory.free
close-calls m descriptor ram₁ ram₂ ram₃ file first second third =
    let kind : type_of m.ram (item_of m.ram descriptor) ≡ 1 = ground arith in
    rw (kind, first, second, third) refl

-- What a close leaves of the heap: three blocks are free, and the other allocations are in place.
pub record Closed (m : Machine) (descriptor t i d : ℕ) : Type 0 where
  pub ram' : Ram
  pub returns : close m descriptor ≡ done (ok, record m { ram = ram' })
  pub table : IsTable m.heap.table.total (get_entry m.heap ram')
  pub freed :
      (get_entry m.heap ram' t ≡ 0) × (get_entry m.heap ram' i ≡ 0) × (get_entry m.heap ram' d ≡ 0)
  pub others :
      (k : ℕ)
      → k < m.heap.table.total
      → k ≢ t
      → k ≢ i
      → k ≢ d
      → get_entry m.heap m.ram k ≡ first_entry
      → get_entry m.heap ram' k ≡ first_entry

module _ (m : Machine) (layout : IsFreeable m.heap)
    (v : IsTable m.heap.table.total (get_entry m.heap m.ram)) where
  abbrev at : ℕ → ℕ
  at s = m.heap.start_address + s * block_size

  -- A free block stays free when another chain is freed.
  pub free_stays :
      (ram ram' : Ram) (s k : ℕ)
      → Freed m.heap s s ram ram'
      → k < m.heap.table.total
      → get_entry m.heap ram k ≡ 0
      → get_entry m.heap ram' k ≡ 0
  free_stays ram ram' s k f hk free = elim (lt-cases k s) [
    | inl before ↦ f.same k (omega arith) (inl before) ∙ free
    | inr from ↦ elim (lt-cases (s + f.len) k) [
      | inl behind ↦ f.same k (omega arith) (inr behind) ∙ free
      | inr within ↦ f.zeros k from within
    ]
  ]

  -- On a heap of 2 GiB at most in the address space, with a well-formed table, closing the descriptor of a file whose
  -- directory item, item and descriptor are three allocations, at the blocks `t`, `i` and `d`:
  -- the call returns the status ok and keeps the table well-formed, the three blocks are free, and
  -- every other first block of an allocation is one still.
  pub close-Closed :
      (descriptor t i d : ℕ)
      → is_file m.ram descriptor ≡ true
      → t < m.heap.table.total
      → i < m.heap.table.total
      → d < m.heap.table.total
      → t ≢ i
      → t ≢ d
      → i ≢ d
      → file_item_of m.ram descriptor ≡ m.heap.start_address + t * block_size
      → item_of m.ram descriptor ≡ m.heap.start_address + i * block_size
      → descriptor ≡ m.heap.start_address + d * block_size
      → get_entry m.heap m.ram t ≡ first_entry
      → get_entry m.heap m.ram i ≡ first_entry
      → get_entry m.heap m.ram d ≡ first_entry
      → Closed m descriptor t i d
  close-Closed descriptor t i d file ht hi hd ti td di at_t at_i at_d first_t first_i first_d =
      let (ram₁, run₁, f₁, v₁) = free-Freed m.heap m.ram t layout v ht first_t in
      let stay₁ =
        λ (k : ℕ) (hk : k < m.heap.table.total) (ne : k ≢ t)
            (e : get_entry m.heap m.ram k ≡ first_entry).
          first_stays m.heap m.ram ram₁ t k f₁ hk ne e in
      let (ram₂, run₂, f₂, v₂) =
        free-Freed m.heap ram₁ i layout v₁ hi (stay₁ i hi (λ e. ti (sym e)) first_i) in
      let stay₂ =
        λ (k : ℕ) (hk : k < m.heap.table.total) (ne : k ≢ t) (ne' : k ≢ i)
            (e : get_entry m.heap m.ram k ≡ first_entry).
          first_stays m.heap ram₁ ram₂ i k f₂ hk ne' (stay₁ k hk ne e) in
      let (ram₃, run₃, f₃, v₃) =
        free-Freed m.heap ram₂ d layout v₂ hd
          (stay₂ d hd (λ e. td (sym e)) (λ e. di (sym e)) first_d) in
      record {
        ram' = ram₃;
        returns =
            close-calls m descriptor ram₁ ram₂ ram₃ file (ap (Heap.free m.heap m.ram) at_t ∙ run₁)
              (ap (Heap.free m.heap ram₁) at_i ∙ run₂) (ap (Heap.free m.heap ram₂) at_d ∙ run₃);
        table = v₃;
        freed = (
          free_stays ram₂ ram₃ d t f₃ ht
              (free_stays ram₁ ram₂ i t f₂ ht (f₁.zeros t (omega arith) (omega arith))),
          free_stays ram₂ ram₃ d i f₃ hi (f₂.zeros i (omega arith) (omega arith)),
          f₃.zeros d (omega arith) (omega arith),
        );
        others = λ k hk kt ki kd e. first_stays m.heap ram₂ ram₃ d k f₃ hk kd (stay₂ k hk kt ki e);
      }
