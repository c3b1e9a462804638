-- ===== src/Idt/Handlers.antt =====
-- The handlers of src/idt/idt.c, which the wrappers of idt.asm call. The addresses of the messages
-- are the linker's.
use koko_os.Prelude.{ℕ, Outcome, done, ◌>>=◌}
use koko_os.Ram.{Ram}
use koko_os.Terminal.{Screen, println}
use koko_os.Ports.{Ports}

module _ (ports : Ports) where
  open ports use {Device, outb}

  unfoldable pub acknowledge_interrupt : Device → Device
  acknowledge_interrupt d = outb 0x20 0x20 d

  unfoldable pub null : Device → Device
  null d = acknowledge_interrupt d

  -- The interrupt is not acknowledged.
  unfoldable pub zero_error : Ram → Screen → (message : ℕ) → Outcome Screen
  zero_error ram screen message = println ram screen message

  unfoldable pub keyboard : Ram → Screen → Device → (message : ℕ) → Outcome (Screen × Device)
  keyboard ram screen d message = do
    screen' ← println ram screen message
    done (screen', acknowledge_interrupt d)
