-- ===== src/Prelude.antt =====
-- Names that every module shares: the libraries' numbers, lists and options, the Boolean tests on
-- numbers, lists measured by native numbers, C integers, and the outcome of a kernel function.
mod Tests
mod Lists
mod Int
mod Outcomes
pub use Tests.*
pub use Lists.*
pub use Int.*
pub use Outcomes.*
pub use Prim.Native.Nat.{ℕ, zero, suc, ◌+◌, ◌-◌, ◌*◌, ◌/◌, ◌%◌, ◌^◌, ◌≤◌, ◌<◌}
pub use mathlib.Core.Path.{◌≡◌, refl, sym, ap, ◌∙◌}
pub use mathlib.Core.Logic.{◌≢◌, ◌↔◌, ◌⊎◌, inl, inr}
pub use mathlib.Core.Bool.{Bool, true, false, not, ◌&&◌, ◌||◌}
pub use mathlib.Core.Option.{Option, none, some}
pub use mathlib.Core.List.{List, [], ◌∷◌, ◌++◌}
pub use native.Mathlib.Omega.{arith}
pub use Prim.Native.String.{String}
pub use Prim.Native.Nat.{bit_and, bit_or}
