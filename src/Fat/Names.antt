-- ===== src/Fat/Names.antt =====
-- The name of a directory item as text, src/lib/fs/fat16/fat16.c: the name and the extension
-- without their padding, with a dot between.
use koko_os.Prelude.{
  ℕ, zero, suc, ◌+◌, Bool, true, false, ◌||◌, ◌==◌, if◌then◌else◌, Outcome, done, hang, ◌>>=◌,
}
use koko_os.Ram.{Ram, poke, memset}
use koko_os.Text.{address_space}
use koko_os.Fat.{ext_of}

-- `c == 0x00 || c == 0x20`
unfoldable pub ends_field : ℕ → Bool
ends_field c = c == 0x00 || c == 0x20

-- `if (*in == 0x20)` behind the loop: the memory, and `*out`.
unfoldable pub end_proper_string : Ram → (out in_ : ℕ) → Ram × ℕ
end_proper_string ram out in_ = (if ram in_ == 0x20 then poke ram out 0x00 else ram, out)

-- The loop of `fat16_to_proper_string`, with the two pointers.
unfoldable pub to_proper_string_loop : ℕ → Ram → (out in_ : ℕ) → Outcome (Ram × ℕ)
to_proper_string_loop zero ram out in_ = hang
to_proper_string_loop (suc n) ram out in_ = elim (ends_field (ram in_)) [
  | true ↦ done (end_proper_string ram out in_)
  | false ↦ to_proper_string_loop n (poke ram out (ram in_)) (out + 1) (in_ + 1)
]

-- The memory, and `*out` afterwards.
unfoldable pub to_proper_string : Ram → (out in_ : ℕ) → Outcome (Ram × ℕ)
to_proper_string ram out in_ = to_proper_string_loop address_space ram out in_

unfoldable pub get_full_relative_filename : Ram → (item out max_len : ℕ) → Outcome Ram
get_full_relative_filename ram item out max_len = do
  (ram', out_tmp) ← to_proper_string (memset ram out 0x00 max_len) out item
  if ends_field (ram' (ext_of item)) then done ram' else do
    (ram'', out_tmp') ← to_proper_string (poke ram' out_tmp 46) (out_tmp + 1) (ext_of item)
    done ram''
