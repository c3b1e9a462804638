-- ===== src/Text/Copy.antt =====
-- `str_ref_copy`, `str_copy` and `str_slice`: the text or the bytes that they leave, and where.
use koko_os.Prelude.{
  ℕ, zero, suc, ◌+◌, ◌-◌, ◌≤◌, ◌<◌, ◌^◌, ◌≡◌, ◌≢◌, List, [], ◌∷◌, ◌∙◌, arith, length, done, ◌==◌,
  false, ltb, lt→ltb, leb, ◌⊎◌,
}
use koko_os.Ram.{Ram, poke}
use koko_os.Text.{str_ref_copy_loop, str_ref_copy, str_slice_loop, str_slice, address_space}
use koko_os.Text.View.{IsText, IsText-congr, IsText-move}

-- `ram'` is `ram` with the `n` bytes from `from` on copied to `to`.
pub record Copied (to from n : ℕ) (ram ram' : Ram) : Type 0 where
  pub bytes : (k : ℕ) → k < n → ram' (to + k) ≡ ram (from + k)
  pub kept : (b : ℕ) → (b < to) ⊎ (to + n ≤ b) → ram' b ≡ ram b

-- The first byte, and then the others.
Copied-suc :
    (to from n : ℕ) (ram ram' : Ram)
    → (to ≤ from) ⊎ (from + n < to)
    → Copied (to + 1) (from + 1) n (poke ram to (ram from)) ram'
    → Copied to from (suc n) ram ram'
Copied-suc to from n ram ram' apart c = record {
  bytes = λ k hk. first k hk;
  kept = λ b h. c.kept b (omega arith) ∙ ground arith;
}
  where
    first : (k : ℕ) → k < suc n → ram' (to + k) ≡ ram (from + k)
    first zero hk = ground (arith, c.kept (to + 0) (omega arith))
    first (suc k) hk = ground (arith, c.bytes k (omega arith))

ref_copy_stop :
    (n : ℕ) (ram : Ram) (to from : ℕ)
    → ram from ≡ 0
    → str_ref_copy_loop (suc n) ram to from ≡ done (poke ram to 0)
unfolding str_ref_copy_loop
ref_copy_stop n ram to from h = rw (h, str_ref_copy_loop)

ref_copy_step :
    (n : ℕ) (ram : Ram) (to from : ℕ)
    → ram from ≢ 0
    → str_ref_copy_loop (suc n) ram to from
      ≡ str_ref_copy_loop n (poke ram to (ram from)) (to + 1) (from + 1)
unfolding str_ref_copy_loop
ref_copy_step n ram to from h =
    let e : (ram from == 0) ≡ false = ground arith in rw (e, str_ref_copy_loop)

last_byte : (ram : Ram) (to from : ℕ) → ram from ≡ 0 → Copied to from 1 ram (poke ram to 0)
last_byte ram to from h = record { bytes = λ k hk. ground arith; kept = λ b out. ground arith }

ref_copy_loop-Copied :
    (s : List ℕ) (n : ℕ) (ram : Ram) (to from : ℕ)
    → IsText ram from s
    → length s < n
    → (to ≤ from) ⊎ (from + length s < to)
    → (ram' : Ram) × (str_ref_copy_loop n ram to from ≡ done ram')
      × Copied to from (suc (length s)) ram ram'
ref_copy_loop-Copied s zero ram to from t fuel apart = absurd (omega arith)
ref_copy_loop-Copied [] (suc n) ram to from t fuel apart =
    (poke ram to 0, ref_copy_stop n ram to from t, last_byte ram to from t)
ref_copy_loop-Copied (c ∷ s) (suc n) ram to from t fuel apart =
    let moved : IsText (poke ram to (ram from)) (from + 1) s =
      IsText-congr ram (poke ram to (ram from)) (from + 1) s (λ b lo hi. ground arith) t.2 in
    let (ram', run, copied) =
      ref_copy_loop-Copied s n (poke ram to (ram from)) (to + 1) (from + 1) moved (omega arith)
        (omega arith) in
    (
      ram',
      ref_copy_step n ram to from (ground arith) ∙ run,
      Copied-suc to from (suc (length s)) ram ram' (omega arith) copied,
    )

-- `str_ref_copy` of a text of less than 2^32 bytes returns, with the text at the destination and
-- every other byte as it was, if the destination lies before the text, or the ranges are apart.
pub str_ref_copy-IsText :
    (s : List ℕ) (ram : Ram) (to from : ℕ)
    → IsText ram from s
    → length s < 2 ^ 32
    → (to ≤ from) ⊎ (from + length s < to)
    → (ram' : Ram) × (str_ref_copy ram to from ≡ done ram')
      × IsText ram' to s
      × ((b : ℕ) → (b < to) ⊎ (to + length s < b) → ram' b ≡ ram b)
unfolding str_ref_copy
str_ref_copy-IsText s ram to from t small apart =
    let (ram', run, copied) = ref_copy_loop-Copied s address_space ram to from t small apart in
    (
      ram',
      run,
      IsText-move ram ram' from to s (λ k hk. copied.bytes k (omega arith)) t,
      λ b h. copied.kept b (omega arith),
    )

module _ (output str : ℕ) where
  -- The bytes of the loop of `str_slice`, and the zero byte behind them.
  record Sliced (n start index : ℕ) (ram ram' : Ram) : Type 0 where
    bytes : (k : ℕ) → k < n → ram' (output + index + k) ≡ ram (str + start + k)
    stop : ram' (output + index + n) ≡ 0
    kept : (b : ℕ) → (b < output + index) ⊎ (output + index + n < b) → ram' b ≡ ram b

  Sliced-suc :
      (n start index : ℕ) (ram ram' : Ram)
      → (output + index ≤ str + start) ⊎ (str + start + suc n ≤ output + index)
      → Sliced n (start + 1) (index + 1) (poke ram (output + index) (ram (str + start))) ram'
      → Sliced (suc n) start index ram ram'
  Sliced-suc n start index ram ram' apart later = record {
    bytes = λ k hk. byte k hk;
    stop = ground (arith, later.stop);
    kept = λ b h. later.kept b (omega arith) ∙ ground arith;
  }
    where
      byte : (k : ℕ) → k < suc n → ram' (output + index + k) ≡ ram (str + start + k)
      byte zero hk = ground (arith, later.kept (output + index + 0) (omega arith))
      byte (suc k) hk = ground (arith, later.bytes k (omega arith))

  slice_loop-Sliced :
      (n start index : ℕ) (ram : Ram)
      → (output + index ≤ str + start) ⊎ (str + start + n ≤ output + index)
      → Sliced n start index ram (str_slice_loop n ram output str start index)
  unfolding str_slice_loop
  slice_loop-Sliced zero start index ram apart = record {
    bytes = λ k hk. absurd (omega arith);
    stop = ground arith;
    kept = λ b h. ground arith;
  }
  slice_loop-Sliced (suc n) start index ram apart =
      let later =
        slice_loop-Sliced n (start + 1) (index + 1) (poke ram (output + index) (ram (str + start)))
          (omega arith) in
      Sliced-suc n start index ram
        (str_slice_loop n (poke ram (output + index) (ram (str + start))) output str (start + 1)
          (index + 1))
        (omega arith) later

str_slice-done :
    (ram : Ram) (output str start end : ℕ)
    → start ≤ end
    → end < 2 ^ 32 - 1
    → str_slice ram output str start end
      ≡ done (str_slice_loop (end + 1 - start) ram output str start 0)
unfolding str_slice
str_slice-done ram output str start end order small =
    let ordered : ltb end start ≡ false = ground arith in
    let ends : leb (2 ^ 32 - 1) end ≡ false = ground arith in rw (ordered, ends)

-- `str_slice` of a range that is not empty, and ends below the greatest `size_t`, copies the bytes
-- from `start` to `end`, both included, puts a zero byte behind them and changes no other byte, if
-- the output lies before the slice, or the ranges are apart.
pub str_slice_lem :
    (ram : Ram) (output str start end : ℕ)
    → start ≤ end
    → end < 2 ^ 32 - 1
    → (output ≤ str + start) ⊎ (str + end < output)
    → (ram' : Ram) × (str_slice ram output str start end ≡ done ram')
      × ((k : ℕ) → k ≤ end - start → ram' (output + k) ≡ ram (str + start + k))
      × (ram' (output + (end - start + 1)) ≡ 0)
      × ((b : ℕ) → (b < output) ⊎ (output + (end - start + 1) < b) → ram' b ≡ ram b)
str_slice_lem ram output str start end order small apart =
    let n : ℕ = end + 1 - start in
    let ram' : Ram = str_slice_loop n ram output str start 0 in
    let sliced : Sliced output str n start 0 ram ram' =
      slice_loop-Sliced output str n start 0 ram (omega arith) in
    (
      ram',
      str_slice-done ram output str start end order small,
      λ k hk. ground (arith, sliced.bytes k (omega arith)),
      ground (arith, sliced.stop),
      λ b h. sliced.kept b (omega arith),
    )

-- With `start` behind `end` the whole text is copied.
pub str_slice-str_ref_copy :
    (ram : Ram) (output str start end : ℕ)
    → end < start
    → str_slice ram output str start end ≡ str_ref_copy ram output str
unfolding str_slice
str_slice-str_ref_copy ram output str start end h = rw (lt→ltb end start h)
