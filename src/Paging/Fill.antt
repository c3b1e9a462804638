-- ===== src/Paging/Fill.antt =====
-- The table that the inner loop of `paging_create_chunk` fills.
use koko_os.Prelude.{
  ℕ, zero, suc, ◌+◌, ◌*◌, ◌%◌, ◌^◌, ◌≤◌, ◌<◌, ◌≡◌, refl, ◌∙◌, sym, ap, ◌⊎◌, inl, inr, arith,
  lt-cases, bit_or,
}
use koko_os.Bits.{bit_or_flags}
use koko_os.Ram.{Ram, load32, store32}
use koko_os.Ram.Words.{load32-store32_self, load32-store32_other, store32_outside}
use koko_os.Paging.{page_size, fill_table}

module _ (entry offset flags : ℕ) where
  abbrev word : ℕ → ℕ
  word j = bit_or ((offset + j * page_size) % 2 ^ 32) flags

  fill_outside :
      (n : ℕ) (ram : Ram) (j b : ℕ)
      → (b < entry + 4 * j) ⊎ (entry + 4 * (j + n) ≤ b)
      → fill_table n ram entry offset flags j b ≡ ram b
  unfolding fill_table
  fill_outside zero ram j b h = refl
  fill_outside (suc n) ram j b h =
      fill_outside n (store32 ram (entry + 4 * j) (word j)) (j + 1) b (omega arith)
      ∙ store32_outside ram (entry + 4 * j) (word j) b (omega arith)

  fill_before :
      (n : ℕ) (ram : Ram) (j b : ℕ)
      → b + 4 ≤ entry + 4 * j
      → load32 (fill_table n ram entry offset flags j) b ≡ load32 ram b
  unfolding fill_table
  fill_before zero ram j b h = refl
  fill_before (suc n) ram j b h =
      fill_before n (store32 ram (entry + 4 * j) (word j)) (j + 1) b (omega arith)
      ∙ load32-store32_other ram (entry + 4 * j) (word j) b (omega arith)

  fill_inside :
      (n : ℕ) (ram : Ram) (j k : ℕ)
      → word k < 2 ^ 32
      → j ≤ k
      → k < j + n
      → load32 (fill_table n ram entry offset flags j) (entry + 4 * k) ≡ word k
  unfolding fill_table
  fill_inside zero ram j k hw lo hi = absurd (omega arith)
  fill_inside (suc n) ram j k hw lo hi = elim (lt-cases j k) [
    | inl later ↦
        fill_inside n (store32 ram (entry + 4 * j) (word j)) (j + 1) k hw (omega arith)
          (omega arith)
    | inr now ↦
        let e : k ≡ j = omega arith in
        ap
          (λ i.
            load32 (fill_table n (store32 ram (entry + 4 * j) (word j)) entry offset flags (j + 1))
              (entry + 4 * i))
          e
        ∙ fill_before n (store32 ram (entry + 4 * j) (word j)) (j + 1) (entry + 4 * j) (omega arith)
        ∙ load32-store32_self ram (entry + 4 * j) (word j) (ground (arith, ap word e))
        ∙ ap word (sym e)
  ]

  -- With the flags of a byte, and an offset of whole pages whose 4 MB fit the address space, entry
  -- `k` is the address of page `k` behind the offset, plus the flags; and only the table is
  -- written.
  fill_table_lem :
      (ram : Ram)
      → offset % page_size ≡ 0
      → flags < 256
      → offset + 1024 * page_size ≤ 2 ^ 32
      → ((k : ℕ)
          → k < 1024
          → load32 (fill_table 1024 ram entry offset flags 0) (entry + 4 * k)
            ≡ offset + k * page_size + flags)
        × ((b : ℕ)
            → (b < entry) ⊎ (entry + 4096 ≤ b)
            → fill_table 1024 ram entry offset flags 0 b ≡ ram b)
  fill_table_lem ram aligned hf fits = (
    λ k hk.
        fill_inside 1024 ram 0 k (omega (arith, joined k hk)) (omega arith) (omega arith)
        ∙ joined k hk,
    λ b h. fill_outside 1024 ram 0 b (omega arith),
  )
    where
      joined : (k : ℕ) → k < 1024 → word k ≡ offset + k * page_size + flags
      joined k hk =
          let small : (offset + k * page_size) % 2 ^ 32 ≡ offset + k * page_size = omega arith in
          ap (λ (n : ℕ). bit_or n flags) small
          ∙ bit_or_flags (offset + k * page_size) flags (omega arith) (omega arith)
