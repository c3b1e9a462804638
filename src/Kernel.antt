-- ===== src/Kernel.antt =====
-- The start of the kernel, src/kernel.c: the parts are brought up one after the other, and then two
-- files are opened. `panic` is the outcome `kernel_panic`.
use koko_os.Prelude.{ℕ, ◌+◌, ◌==◌, Bool, true, false, if◌then◌else◌, bit_or, Outcome, done, ◌>>=◌}
use koko_os.Ram.{load32}
use koko_os.Heap.{w32}
use koko_os.Memory
use koko_os.Memory.{Machine, memory_init}
use koko_os.Text.{strlen}
use koko_os.Terminal
use koko_os.Terminal.{Screen, println}
use koko_os.Number.{print_number}
use koko_os.Paging.{create_chunk, page_is_present, page_is_writable, page_allow_access_to_all}
use koko_os.Idt
use koko_os.Idt.{Tables}
use koko_os.Ports.{Ports}
use koko_os.File.{Files, fs_read, fs_write, fs_stat, fs_close}
use koko_os.File.Open.{PathPlaces, fs_init, disk_init, fs_open}
use koko_os.Fat.{Places}
use koko_os.Fat.System.{fat16_systems}
use koko_os.Fat.Files.{FileMode, file_mode_read, file_mode_write}

-- What the privileged instructions of kernel.asm, paging.asm and idt.asm change.
pub record Cpu : Type 0 where
  pub interrupts : Bool
  pub paging : Bool
  pub page_directory : ℕ
  pub idtr : ℕ

-- The addresses that the linker and the compiler choose.
pub record KernelPlaces : Type 0 where
  pub idt_base : ℕ
  pub null_interrupt : ℕ
  pub zero_interrupt : ℕ
  pub keyboard : ℕ
  pub idtr_descriptor : ℕ
  pub main_literal : ℕ
  pub koko_literal : ℕ
  pub testing_literal : ℕ
  pub zero_literal : ℕ
  pub stat : ℕ
  pub buffer : ℕ

-- What the kernel changes.
pub record Kernel (Device : Type 0) : Type 0 where
  pub machine : Machine
  pub device : Device
  pub files : Files
  pub screen : Screen
  pub interrupt_tables : Tables
  pub cpu : Cpu

unfoldable pub init_kernel_paging : {Device : Type 0} → Kernel Device → Outcome (Kernel Device)
init_kernel_paging k = do
  let flags = bit_or (bit_or page_is_writable page_is_present) page_allow_access_to_all
  (kernel_chunk, m) ← create_chunk k.machine flags
  let cpu = record k.cpu { page_directory = load32 m.ram kernel_chunk }
  done (record k { machine = m; cpu = cpu })

module _ (ports : Ports) (patience primary_disk : ℕ) (places : Places) (paths : PathPlaces)
    (kernel_places : KernelPlaces) where
  open ports use {Device}

  -- From `kernel_disable_interrupts` to `kernel_enable_interrupts`.
  unfoldable pub bring_up : Kernel Device → Outcome (Kernel Device)
  bring_up k = do
    let screen = Terminal.init k.screen
    m₁ ← memory_init k.machine
    (files, m₂) ← fs_init ports patience primary_disk places k.files m₁
    (m₃, d) ← disk_init ports patience primary_disk places files m₂ k.device
    let tables =
        Idt.init kernel_places.idt_base kernel_places.null_interrupt kernel_places.zero_interrupt
          kernel_places.keyboard k.interrupt_tables
    let cpu = record k.cpu { interrupts = false; idtr = kernel_places.idtr_descriptor }
    paged ← init_kernel_paging (record {
      machine = m₃;
      device = d;
      files = files;
      screen = screen;
      interrupt_tables = tables;
      cpu = cpu;
    })
    done (record paged { cpu = record paged.cpu { paging = true; interrupts = true } })

  unfoldable pub open_file : Kernel Device → (filename : ℕ) → FileMode → Outcome (ℕ × Kernel Device)
  open_file k filename mode = do
    (fd, files, m, d) ←
        fs_open ports patience primary_disk places paths k.files k.machine k.device filename mode
    done (fd, record k { files = files; machine = m; device = d })

  -- The status of `fs_stat`, with the size of the file behind the flags.
  unfoldable pub stat_file : Kernel Device → (fd : ℕ) → Outcome (Kernel Device)
  stat_file k fd = do
    (code, (m, d)) ←
        fs_stat (fat16_systems ports patience primary_disk places) k.files (k.machine, k.device) fd
          kernel_places.stat
    (m', screen) ← print_number kernel_places.zero_literal m k.screen code
    done (record k { machine = m'; device = d; screen = screen })

  -- `fs_read` of one member, and the text that is printed then.
  unfoldable pub show_file : Kernel Device → (buffer fd size : ℕ) → Outcome (Kernel Device)
  show_file k buffer fd size = do
    (code, (m, d)) ←
        fs_read (fat16_systems ports patience primary_disk places) k.files (k.machine, k.device)
          buffer fd size 1
    screen ← println m.ram k.screen buffer
    done (record k { machine = m; device = d; screen = screen })

  unfoldable pub close_file : Kernel Device → (fd : ℕ) → Outcome (Kernel Device)
  close_file k fd = do
    (code, files, (m, d)) ←
        fs_close (fat16_systems ports patience primary_disk places) k.files (k.machine, k.device) fd
    done (record k { files = files; machine = m; device = d })

  -- The size that `fs_stat` has stored.
  unfoldable pub print_file : Kernel Device → (fd : ℕ) → Outcome (Kernel Device)
  print_file k fd = do
    k₁ ← stat_file k fd
    let size = load32 k₁.machine.ram (kernel_places.stat + 4)
    (buffer, m) ← Memory.zalloc k₁.machine (w32 (size + 1))
    k₂ ← show_file (record k₁ { machine = m }) buffer fd (load32 m.ram (kernel_places.stat + 4))
    m' ← Memory.free k₂.machine buffer
    stat_file (record k₂ { machine = m' }) fd

  unfoldable pub write_file : Kernel Device → (fd : ℕ) → Outcome (Kernel Device)
  write_file k fd = do
    let testing = kernel_places.testing_literal
    size ← strlen k.machine.ram testing
    (code, (m, d)) ←
        fs_write (fat16_systems ports patience primary_disk places) k.files (k.machine, k.device)
          testing fd size
    close_file (record k { machine = m; device = d }) fd

  -- The third file is opened, and the first one read.
  unfoldable pub show_again : Kernel Device → (fd fd3 : ℕ) → Outcome (Kernel Device)
  show_again k fd fd3 = do k' ← show_file k kernel_places.buffer fd 512; close_file k' fd3

  unfoldable pub kernel_main : Kernel Device → Outcome (Kernel Device)
  kernel_main k = do
    k₁ ← bring_up k
    (fd, k₂) ← open_file k₁ kernel_places.main_literal file_mode_read
    k₃ ← if fd == 0 then done k₂ else print_file k₂ fd
    (fd2, k₄) ← open_file k₃ kernel_places.koko_literal file_mode_write
    k₅ ← if fd2 == 0 then done k₄ else write_file k₄ fd2
    (fd3, k₆) ← open_file k₅ kernel_places.koko_literal file_mode_read
    if fd3 == 0 then done k₆ else show_again k₆ fd fd3
