-- ===== src/Ram/Memset.antt =====
-- What `memset` leaves in memory.
use koko_os.Prelude.{
  ℕ, zero, suc, ◌+◌, ◌-◌, ◌*◌, ◌/◌, ◌%◌, ◌^◌, ◌≤◌, ◌<◌, ◌≡◌, refl, ◌⊎◌, inl, inr, ◌∙◌, arith,
  lt-cases,
}
use koko_os.Ram.{Ram, store32, load32, memset_loop, memset}
use koko_os.Ram.Words.{store32_outside, load32-store32_self, load32-store32_other}

memset_loop_outside :
    (n : ℕ) (ram : Ram) (ptr c i b : ℕ)
    → (b < ptr + 4 * i) ⊎ (ptr + 4 * (i + n) ≤ b)
    → memset_loop n ram ptr c i b ≡ ram b
unfolding memset_loop
memset_loop_outside zero ram ptr c i b h = refl
memset_loop_outside (suc n) ram ptr c i b h =
    memset_loop_outside n (store32 ram (ptr + 4 * i) c) ptr c (i + 1) b (omega arith)
    ∙ store32_outside ram (ptr + 4 * i) c b (omega arith)

memset_loop_before :
    (n : ℕ) (ram : Ram) (ptr c i b : ℕ)
    → b + 4 ≤ ptr + 4 * i
    → load32 (memset_loop n ram ptr c i) b ≡ load32 ram b
unfolding memset_loop
memset_loop_before zero ram ptr c i b h = refl
memset_loop_before (suc n) ram ptr c i b h =
    memset_loop_before n (store32 ram (ptr + 4 * i) c) ptr c (i + 1) b (omega arith)
    ∙ load32-store32_other ram (ptr + 4 * i) c b (omega arith)

memset_loop_inside :
    (n : ℕ) (ram : Ram) (ptr c i j : ℕ)
    → c < 2 ^ 32
    → i ≤ j
    → j < i + n
    → load32 (memset_loop n ram ptr c i) (ptr + 4 * j) ≡ c
unfolding memset_loop
memset_loop_inside zero ram ptr c i j hc lo hi = absurd (omega arith)
memset_loop_inside (suc n) ram ptr c i j hc lo hi = elim (lt-cases i j) [
  | inl later ↦
      memset_loop_inside n (store32 ram (ptr + 4 * i) c) ptr c (i + 1) j hc (omega arith)
        (omega arith)
  | inr now ↦
      let e : j ≡ i = omega arith in
      rw e (
        memset_loop_before n (store32 ram (ptr + 4 * i) c) ptr c (i + 1) (ptr + 4 * i) (omega arith)
        ∙ load32-store32_self ram (ptr + 4 * i) c hc)
]

-- `memset` touches no byte before `ptr`, nor behind the last whole word of the range.
pub memset_outside :
    (ram : Ram) (ptr c size b : ℕ)
    → (b < ptr) ⊎ (ptr + 4 * (size / 4) ≤ b)
    → memset ram ptr c size b ≡ ram b
unfolding memset
memset_outside ram ptr c size b h = memset_loop_outside (size / 4) ram ptr c 0 b (omega arith)

-- Every whole word of the range holds the 32-bit value `c` afterwards.
pub memset_inside :
    (ram : Ram) (ptr c size j : ℕ)
    → c < 2 ^ 32
    → j < size / 4
    → load32 (memset ram ptr c size) (ptr + 4 * j) ≡ c
unfolding memset
memset_inside ram ptr c size j hc h =
    memset_loop_inside (size / 4) ram ptr c 0 j hc (omega arith) (omega arith)

word_zero : (ram : Ram) (a r : ℕ) → load32 ram a ≡ 0 → r < 4 → ram (a + r) ≡ 0
unfolding load32
word_zero ram a zero e h = ground arith
word_zero ram a (suc zero) e h = ground arith
word_zero ram a (suc (suc zero)) e h = ground arith
word_zero ram a (suc (suc (suc zero))) e h = ground arith
word_zero ram a (suc (suc (suc (suc r)))) e h = absurd (omega arith)

-- With `c` zero every byte of the whole words is zero.
pub memset_zero :
    (ram : Ram) (ptr size b : ℕ) → ptr ≤ b → b < ptr + 4 * (size / 4) → memset ram ptr 0 size b ≡ 0
memset_zero ram ptr size b lo hi =
    let e : b ≡ ptr + 4 * ((b - ptr) / 4) + (b - ptr) % 4 = omega arith in
    rw e (
      word_zero (memset ram ptr 0 size) (ptr + 4 * ((b - ptr) / 4)) ((b - ptr) % 4)
        (memset_inside ram ptr 0 size ((b - ptr) / 4) (omega arith) (omega arith)) (omega arith))
