-- ===== src/Stream/Copy.antt =====
-- The copying loops of `disk_stream_read` and `disk_stream_write`, and moving the position.
use koko_os.Prelude.{
  ℕ, zero, suc, ◌+◌, ◌^◌, ◌<◌, ◌≤◌, ◌≡◌, refl, ◌∙◌, ap, ◌⊎◌, inl, inr, arith, lt-cases,
}
use koko_os.Ram.{Ram, poke}
use koko_os.Ram.Words.{store32_outside, load32-store32_self}
use koko_os.Heap.{w32}
use koko_os.Stream.{copy_out, copy_in, advance, pos_of}

module _ (temp local offset : ℕ) where
  pub copy_out_outside :
      (n : ℕ) (ram : Ram) (i b : ℕ)
      → (b < temp + i) ⊎ (temp + i + n ≤ b)
      → copy_out n ram temp local offset i b ≡ ram b
  unfolding copy_out
  copy_out_outside zero ram i b h = refl
  copy_out_outside (suc n) ram i b h =
      copy_out_outside n (poke ram (temp + i) (ram (local + w32 (offset + i)))) (i + 1) b
        (omega arith)
      ∙ ground arith

  -- The bytes are copied where the two ranges are apart.
  pub copy_out_inside :
      (n : ℕ) (ram : Ram) (i k : ℕ)
      → offset + i + n < 2 ^ 32
      → (temp + i + n ≤ local + offset + i) ⊎ (local + offset + i + n ≤ temp + i)
      → i ≤ k
      → k < i + n
      → copy_out n ram temp local offset i (temp + k) ≡ ram (local + (offset + k))
  unfolding copy_out
  copy_out_inside zero ram i k small apart lo hi = absurd (omega arith)
  copy_out_inside (suc n) ram i k small apart lo hi =
      let next : Ram = poke ram (temp + i) (ram (local + w32 (offset + i))) in
      elim (lt-cases i k) [
        | inl later ↦
            copy_out_inside n next (i + 1) k (omega arith) (omega arith) (omega arith) (omega arith)
            ∙ ground arith
        | inr now ↦
            let e : k ≡ i = omega arith in
            let w : w32 (offset + i) ≡ offset + k = omega arith in
            copy_out_outside n next (i + 1) (temp + k) (omega arith)
            ∙ ground (arith, ap (λ j. ram (local + j)) w)
      ]

module _ (temp local offset : ℕ) where
  pub copy_in_outside :
      (n : ℕ) (ram : Ram) (i b : ℕ)
      → offset + i + n < 2 ^ 32
      → (b < local + offset + i) ⊎ (local + offset + i + n ≤ b)
      → copy_in n ram local temp offset i b ≡ ram b
  unfolding copy_in
  copy_in_outside zero ram i b small h = refl
  copy_in_outside (suc n) ram i b small h =
      let w : w32 (offset + i) ≡ offset + i = omega arith in
      copy_in_outside n (poke ram (local + w32 (offset + i)) (ram (temp + i))) (i + 1) b
        (omega arith) (omega arith)
      ∙ ground (arith, w)

  -- The bytes are copied where the two ranges are apart.
  pub copy_in_inside :
      (n : ℕ) (ram : Ram) (i k : ℕ)
      → offset + i + n < 2 ^ 32
      → (temp + i + n ≤ local + offset + i) ⊎ (local + offset + i + n ≤ temp + i)
      → i ≤ k
      → k < i + n
      → copy_in n ram local temp offset i (local + (offset + k)) ≡ ram (temp + k)
  unfolding copy_in
  copy_in_inside zero ram i k small apart lo hi = absurd (omega arith)
  copy_in_inside (suc n) ram i k small apart lo hi =
      let next : Ram = poke ram (local + w32 (offset + i)) (ram (temp + i)) in
      let w : w32 (offset + i) ≡ offset + i = omega arith in
      elim (lt-cases i k) [
        | inl later ↦
            copy_in_inside n next (i + 1) k (omega arith) (omega arith) (omega arith) (omega arith)
            ∙ ground (arith, w)
        | inr now ↦
            let e : k ≡ i = omega arith in
            copy_in_outside n next (i + 1) (local + (offset + k)) (omega arith) (omega arith)
            ∙ ground (arith, w, ap (λ j. ram (temp + j)) e)
      ]

pub advance_outside :
    (ram : Ram) (stream n b : ℕ) → (b < stream) ⊎ (stream + 4 ≤ b) → advance ram stream n b ≡ ram b
unfolding advance
advance_outside ram stream n b h = store32_outside ram stream (w32 (pos_of ram stream + n)) b h

pub pos_of-advance :
    (ram : Ram) (stream n : ℕ) → pos_of (advance ram stream n) stream ≡ w32 (pos_of ram stream + n)
unfolding advance pos_of
pos_of-advance ram stream n =
    load32-store32_self ram stream (w32 (pos_of ram stream + n)) (omega arith)
