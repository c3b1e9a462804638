-- ===== src/Ram/Memcpy.antt =====
-- What `memcpy` leaves in memory.
use koko_os.Prelude.{ℕ, zero, suc, ◌+◌, ◌≤◌, ◌<◌, ◌≡◌, refl, ◌⊎◌, ◌∙◌, arith}
use koko_os.Ram.{Ram, poke, memcpy}

-- `memcpy` writes nothing outside the destination.
pub memcpy_outside :
    (ram : Ram) (dest src n b : ℕ) → (b < dest) ⊎ (dest + n ≤ b) → memcpy ram dest src n b ≡ ram b
unfolding memcpy
memcpy_outside ram dest src zero b h = refl
memcpy_outside ram dest src (suc n) b h =
    memcpy_outside (poke ram dest (ram src)) (dest + 1) (src + 1) n b (omega arith) ∙ ground arith

-- If the ranges are apart, or the destination starts below the source, the destination holds the
-- source's bytes afterwards.
pub memcpy_inside :
    (ram : Ram) (dest src n k : ℕ)
    → (dest ≤ src) ⊎ (src + n ≤ dest)
    → k < n
    → memcpy ram dest src n (dest + k) ≡ ram (src + k)
unfolding memcpy
memcpy_inside ram dest src zero k apart h = absurd (omega arith)
memcpy_inside ram dest src (suc n) zero apart h =
    memcpy_outside (poke ram dest (ram src)) (dest + 1) (src + 1) n (dest + 0) (omega arith)
    ∙ ground arith
memcpy_inside ram dest src (suc n) (suc k) apart h =
    let ih : memcpy (poke ram dest (ram src)) (dest + 1) (src + 1) n (dest + 1 + k)
        ≡ poke ram dest (ram src) (src + 1 + k) =
      memcpy_inside (poke ram dest (ram src)) (dest + 1) (src + 1) n k (omega arith)
        (omega arith) in
    ground (arith, ih)
