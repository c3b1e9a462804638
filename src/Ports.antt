-- ===== src/Ports.antt =====
-- The port instructions of src/lib/io/io.asm (`insb`, `insw`, `outb`, `outw`) reach the hardware,
-- which is no part of the repository: its state and its answers are a parameter.
use koko_os.Prelude.{ℕ}

pub record Ports : Type 1 where
  pub Device : Type 0
  pub outb : (port val : ℕ) → Device → Device
  pub outw : (port val : ℕ) → Device → Device
  pub insb : (port : ℕ) → Device → ℕ × Device
  pub insw : (port : ℕ) → Device → ℕ × Device
