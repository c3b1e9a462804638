-- ===== src/Prelude/Int.antt =====
-- C's `int`: the integers, over the native numbers.
use Prim.Native.Nat.{ℕ, ◌-◌}
use koko_os.Prelude.Tests.{if◌then◌else◌, leb}

-- `negsuc n` is -(n + 1).
pub data ℤ : Type 0 where
  pos : ℕ → ℤ
  negsuc : ℕ → ℤ

-- The negative status codes are written as `minus 50`.
abbrev pub minus : ℕ → ℤ
minus n = if leb n 0 then pos 0 else negsuc (n - 1)
