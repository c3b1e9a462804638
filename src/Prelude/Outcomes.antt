-- ===== src/Prelude/Outcomes.antt =====
-- What a kernel function can do: return, or never return. `kernel_panic` is `panic(message)`, which
-- prints its message and spins for ever; `hang` is a loop that does not end within its fuel.
use Prim.Native.String.{String}

pub data Outcome {ℓ} (A : Type ℓ) : Type ℓ where
  done : A → Outcome A
  kernel_panic : String → Outcome A
  hang : Outcome A

infixl 5 ◌>>=◌ ◌>>◌
abbrev pub ◌>>=◌ {ℓ κ} : {A : Type ℓ} {B : Type κ} → Outcome A → (A → Outcome B) → Outcome B
done a >>= f = f a
kernel_panic m >>= f = kernel_panic m
hang >>= f = hang

abbrev pub ◌>>◌ {ℓ} : {B : Type ℓ} → Outcome (Unit {0}) → Outcome B → Outcome B
m >> k = m >>= λ _. k
