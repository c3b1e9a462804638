-- ===== src/Stream/Fill.antt =====
-- The local buffer of `disk_stream_write` before it is written to the disk.
use koko_os.Prelude.{
  ℕ, ◌+◌, ◌-◌, ◌*◌, ◌/◌, ◌%◌, ◌^◌, ◌<◌, ◌≤◌, ◌≡◌, ◌∙◌, sym, ap, ◌⊎◌, inl, inr, lt-cases, arith,
}
use koko_os.Ram.{Ram}
use koko_os.Ram.Words.{IsBytes}
use koko_os.Heap.Reuse.{Apart}
use koko_os.Disk.Replace.{Replaced}
use koko_os.Stream.{copy_in}
use koko_os.Stream.Copy.{copy_in_outside, copy_in_inside}

module _ (memory : Ram) (buffer n local : ℕ) where
  -- The local buffer before it is written to the disk: the sectors that were read, with the
  -- bytes of the source in their place, and the memory besides.
  pub record Filled (c : ℕ → ℕ) (k p : ℕ) (ram : Ram) : Type 0 where
    pub source : (j : ℕ) → j < n → ram (local + (p % 512 + j)) ≡ memory (buffer + j)
    pub sectors :
        (i : ℕ)
        → i < 512 * k
        → (i < p % 512) ⊎ (p % 512 + n ≤ i)
        → ram (local + i) ≡ c (512 * (p / 512) + i)

  pub Filled-lt :
      (c : ℕ → ℕ) (k p : ℕ) (ram : Ram)
      → Filled c k p ram
      → IsBytes memory
      → ((i : ℕ) → c i < 256)
      → (a : ℕ) → local ≤ a
      → a < local + 512 * k
      → ram a < 256
  Filled-lt c k p ram f bytes lt a lo hi =
      let i : ℕ = a - local in
      let e : local + i ≡ a = omega arith in
      elim (lt-cases i (p % 512)) [
        | inl before ↦
            omega
              (arith, ap ram e, f.sectors i (omega arith) (inl before), lt (512 * (p / 512) + i))
        | inr from ↦ elim (lt-cases i (p % 512 + n)) [
          | inl within ↦
              let j : ℕ = i - p % 512 in
              let e' : local + (p % 512 + j) ≡ a = omega arith in
              omega (arith, ap ram e', f.source j (omega arith), bytes (buffer + j))
          | inr behind ↦
              omega
                (arith, ap ram e, f.sectors i (omega arith) (inr behind), lt (512 * (p / 512) + i))
        ]
      ]

  -- Writing a filled buffer replaces the bytes of the source.
  pub Filled-Replaced :
      (k p : ℕ) (ram : Ram) (c c' : ℕ → ℕ)
      → Filled c k p ram
      → p % 512 + n ≤ 512 * k
      → Replaced ram (512 * (p / 512)) local (512 * k) c c'
      → Replaced memory p buffer n c c'
  Filled-Replaced k p ram c c' f within w = record {
    inside = λ j hj.
        let e : p + j ≡ 512 * (p / 512) + (p % 512 + j) = omega arith in
        ap c' e ∙ w.inside (p % 512 + j) (omega arith) ∙ f.source j hj;
    outside = λ i h. elim (lt-cases i (512 * (p / 512))) [
      | inl before ↦ w.outside i (inl before)
      | inr from ↦ elim (lt-cases i (512 * (p / 512) + 512 * k)) [
        | inr behind ↦ w.outside i (inr behind)
        | inl sector ↦
            let j : ℕ = i - 512 * (p / 512) in
            let e : i ≡ 512 * (p / 512) + j = omega arith in
            ap c' e
            ∙ w.inside j (omega arith)
            ∙ f.sectors j (omega arith) (omega arith)
            ∙ ap c (sym e)
      ]
    ];
  }

  -- Copying the source over the sectors that were read fills the buffer.
  pub Filled-copy_in :
      (c : ℕ → ℕ) (k p : ℕ) (loaded : Ram)
      → p % 512 + n ≤ 512 * k
      → n < 2 ^ 31
      → Apart buffer n local (512 * k)
      → ((i : ℕ) → i < 512 * k → loaded (local + i) ≡ c (512 * (p / 512) + i))
      → ((j : ℕ) → j < n → loaded (buffer + j) ≡ memory (buffer + j))
      → Filled c k p (copy_in n loaded local buffer (p % 512) 0)
  Filled-copy_in c k p loaded within small apart sectors source = record {
    source = λ j hj.
        copy_in_inside buffer local (p % 512) n loaded 0 j (omega arith) (omega arith) (omega arith)
          (omega arith)
        ∙ source j hj;
    sectors = λ i hi h.
        copy_in_outside buffer local (p % 512) n loaded 0 (local + i) (omega arith) (omega arith)
        ∙ sectors i hi;
  }
