-- ===== src/Ram.antt =====
-- Physical memory as src/lib/memory/memory.c uses it: a byte for each address. The kernel runs in one
-- flat address space with no protection, so every address can be read and written.
-- Words are stored little-endian, as on the x86.
pub mod Words
pub mod Memset
pub mod Memcpy
use koko_os.Prelude.{ℕ, zero, suc, ◌+◌, ◌*◌, ◌/◌, ◌%◌, ◌^◌, ◌==◌, if◌then◌else◌}

abbrev pub Ram : Type 0
Ram = ℕ → ℕ

-- `*a = v` for a byte.
abbrev pub poke : Ram → ℕ → ℕ → Ram
poke ram a v b = if a == b then v else ram b

-- `*a = w` and `*a` for a `uint32_t`.
unfoldable pub store32 : Ram → ℕ → ℕ → Ram
store32 ram a w =
    poke (poke (poke (poke ram a (w % 256)) (a + 1) (w / 256 % 256)) (a + 2) (w / 65536 % 256))
      (a + 3) (w / 16777216 % 256)

unfoldable pub load32 : Ram → ℕ → ℕ
load32 ram a = ram a + 256 * ram (a + 1) + 65536 * ram (a + 2) + 16777216 * ram (a + 3)

-- The loop of `memset`, with the rounds that are left and the index: `c_ptr[i] = c`.
unfoldable pub memset_loop : ℕ → Ram → ℕ → ℕ → ℕ → Ram
memset_loop zero ram ptr c i = ram
memset_loop (suc n) ram ptr c i = memset_loop n (store32 ram (ptr + 4 * i) c) ptr c (i + 1)

-- `memset` writes whole words, each of the value `c`, and `size / 4` of them.
unfoldable pub memset : Ram → ℕ → ℕ → ℕ → Ram
memset ram ptr c size = memset_loop (size / 4) ram ptr c 0

-- `memcpy` copies byte after byte, from the first.
unfoldable pub memcpy : Ram → ℕ → ℕ → ℕ → Ram
memcpy ram dest src zero = ram
memcpy ram dest src (suc n) = memcpy (poke ram dest (ram src)) (dest + 1) (src + 1) n
