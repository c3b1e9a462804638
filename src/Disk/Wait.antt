-- ===== src/Disk/Wait.antt =====
-- The wait of the driver for a disk that gets ready.
use koko_os.Prelude.{
  ℕ, zero, suc, ◌+◌, ◌<◌, ◌≡◌, ◌≢◌, refl, ◌∙◌, inl, inr, arith, lt-cases, ◌==◌, false, bit_and,
  done,
}
use koko_os.Ports.{Ports}
use koko_os.Disk.{command_port, wait_ready}

-- A disk in the state `State` that answers some inquiries, less than `patience`, without the ready
-- bit, and then one with it. An inquiry keeps the state.
pub record Polled (ports : Ports) (patience : ℕ) (State : ports.Device → Type 0) : Type 0 where
  pub busy : ports.Device → ℕ
  pub patient : (d : ports.Device) → State d → busy d < patience
  pub not_ready :
      (d : ports.Device) → State d → 0 < busy d → bit_and (ports.insb command_port d).0 0x08 ≢ 0x08
  pub ready :
      (d : ports.Device) → State d → busy d ≡ 0 → bit_and (ports.insb command_port d).0 0x08 ≡ 0x08
  pub busy-insb :
      (d : ports.Device) → State d → 0 < busy d → busy (ports.insb command_port d).1 + 1 ≡ busy d
  pub State-insb : (d : ports.Device) → State d → State (ports.insb command_port d).1

module _ (ports : Ports) (patience : ℕ) (State : ports.Device → Type 0)
    (p : Polled ports patience State) where
  open ports use {Device, insb}

  again :
      (n : ℕ) (d : Device)
      → bit_and (insb command_port d).0 0x08 ≢ 0x08
      → wait_ready ports patience (suc n) d ≡ wait_ready ports patience n (insb command_port d).1
  unfolding wait_ready
  again n d h =
      let e : (bit_and (insb command_port d).0 0x08 == 0x08) ≡ false = ground arith in
      rw (wait_ready, e) refl

  now :
      (n : ℕ) (d : Device)
      → bit_and (insb command_port d).0 0x08 ≡ 0x08
      → wait_ready ports patience (suc n) d ≡ done (insb command_port d).1
  unfolding wait_ready
  now n d h = rw (wait_ready, h) refl

  -- The wait ends, and keeps the state.
  pub waited :
      (n : ℕ) (d : Device)
      → State d
      → p.busy d < n
      → (d' : Device) × (wait_ready ports patience n d ≡ done d') × State d'
  waited zero d s h = absurd (omega arith)
  waited (suc n) d s h = elim (lt-cases 0 (p.busy d)) [
    | inl more ↦
        let (d', run, s') =
          waited n (insb command_port d).1 (p.State-insb d s)
            (omega (arith, p.busy-insb d s more)) in
        (d', again n d (p.not_ready d s more) ∙ run, s')
    | inr none_left ↦
        ((insb command_port d).1, now n d (p.ready d s (omega arith)), p.State-insb d s)
  ]
