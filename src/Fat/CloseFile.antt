-- ===== src/Fat/CloseFile.antt =====
-- `fs_close` of a file of FAT16: through `fat16_close` and the heap, down to the descriptor's memory.
use koko_os.Prelude.{ℕ, ◌+◌, ◌*◌, ◌<◌, ◌≡◌, ◌≢◌, refl, ◌∙◌, ap, true, done, ◌>>=◌, arith}
use koko_os.Ram.{Ram}
use koko_os.Heap
use koko_os.Heap.{block_size, get_entry}
use koko_os.Heap.Entries.{IsFreeable}
use koko_os.Heap.Valid.{IsTable, first_entry}
use koko_os.Heap.Free.{free-Freed}
use koko_os.Memory
use koko_os.Memory.{Machine}
use koko_os.Ports.{Ports}
use koko_os.Disk.{ok}
use koko_os.File.{Files, find_file_descriptor, fs_close}
use koko_os.File.Table.{IsFiles}
use koko_os.File.Close.{fs_close_lem}
use koko_os.Fat.{Places}
use koko_os.Fat.Files.{item_of, file_item_of, is_file}
use koko_os.Fat.Close.{close-Closed, free_stays, first_stays}
use koko_os.Fat.System.{fat16_systems}

module _ (ports : Ports) (patience primary_disk : ℕ) (places : Places) where
  open ports use {Device}

  -- What closing the file `fd` leaves: the blocks `t`, `i`, `d` and `f` are free, and the other
  -- allocations and descriptors are in place.
  pub record ClosedFile (s : Files) (m : Machine) (w : Device) (fd t i d f : ℕ) : Type 0 where
    pub s' : Files
    pub ram' : Ram
    pub returns :
        fs_close (fat16_systems ports patience primary_disk places) s (m, w) fd
        ≡ done (ok, s', (record m { ram = ram' }, w))
    pub gone : find_file_descriptor s' fd ≡ 0
    pub others : (k : ℕ) → k ≢ fd → find_file_descriptor s' k ≡ find_file_descriptor s k
    pub files : IsFiles s'
    pub table : IsTable m.heap.table.total (get_entry m.heap ram')
    pub freed :
        (get_entry m.heap ram' t ≡ 0)
        × (get_entry m.heap ram' i ≡ 0)
        × (get_entry m.heap ram' d ≡ 0)
        × (get_entry m.heap ram' f ≡ 0)
    pub allocations :
        (k : ℕ)
        → k < m.heap.table.total
        → k ≢ t
        → k ≢ i
        → k ≢ d
        → k ≢ f
        → get_entry m.heap m.ram k ≡ first_entry
        → get_entry m.heap ram' k ≡ first_entry

  free-Memory :
      (m : Machine) (w : Device) (address : ℕ) (ram' : Ram)
      → Heap.free m.heap m.ram address ≡ done ram'
      → (fat16_systems ports patience primary_disk places).free address (m, w)
        ≡ done (record m { ram = ram' }, w)
  unfolding Memory.free
  free-Memory m w address ram' run = rw run refl

  -- On a heap of 2 GiB at most in the address space, with a well-formed table, and with a table of
  -- descriptors that carry the numbers of their slots: closing a descriptor that is found, of a file
  -- of FAT16, whose directory item, item, FAT16 descriptor and descriptor are four allocations, at
  -- the blocks `t`, `i`, `d` and `f`. The call returns the status ok, the number finds nothing any
  -- more, and every other number finds what it found before. The four blocks are free, every other
  -- first block of an allocation is one still, and both tables are well-formed.
  pub fs_close-ClosedFile :
      (s : Files) (m : Machine) (w : Device) (fd descriptor t i d f : ℕ)
      → IsFiles s
      → IsFreeable m.heap
      → IsTable m.heap.table.total (get_entry m.heap m.ram)
      → find_file_descriptor s fd ≢ 0
      → (s.at (find_file_descriptor s fd)).private_data ≡ descriptor
      → is_file m.ram descriptor ≡ true
      → t < m.heap.table.total
      → i < m.heap.table.total
      → d < m.heap.table.total
      → f < m.heap.table.total
      → t ≢ i
      → t ≢ d
      → i ≢ d
      → f ≢ t
      → f ≢ i
      → f ≢ d
      → file_item_of m.ram descriptor ≡ m.heap.start_address + t * block_size
      → item_of m.ram descriptor ≡ m.heap.start_address + i * block_size
      → descriptor ≡ m.heap.start_address + d * block_size
      → find_file_descriptor s fd ≡ m.heap.start_address + f * block_size
      → get_entry m.heap m.ram t ≡ first_entry
      → get_entry m.heap m.ram i ≡ first_entry
      → get_entry m.heap m.ram d ≡ first_entry
      → get_entry m.heap m.ram f ≡ first_entry
      → ClosedFile s m w fd t i d f
  fs_close-ClosedFile s m w fd descriptor t i d f files layout v found private_data file ht hi hd hf
        ti td di ft fi fd' at_t at_i at_d at_f first_t first_i first_d first_f =
      let c =
        close-Closed m layout v descriptor t i d file ht hi hd ti td di at_t at_i at_d first_t
          first_i first_d in
      let (ram', run, freed, table) =
        free-Freed m.heap c.ram' f layout c.table hf (c.others f hf ft fi fd' first_f) in
      let g =
        fs_close_lem (fat16_systems ports patience primary_disk places) s (m, w)
          (record m { ram = c.ram' }, w) fd files found (rw (private_data, c.returns) refl) in
      let stays = λ (k : ℕ) (hk : k < m.heap.table.total) (e : get_entry m.heap c.ram' k ≡ 0).
        free_stays m layout v c.ram' ram' f k freed hk e in
      record {
        s' = g.s';
        ram' = ram';
        returns =
            g.returns
            ∙ ap (λ o. o >>= λ w''. done (ok, g.s', w''))
                (free-Memory (record m { ram = c.ram' }) w (find_file_descriptor s fd) ram'
                  (ap (Heap.free m.heap c.ram') at_f ∙ run));
        gone = g.gone;
        others = g.others;
        files = g.files;
        table = table;
        freed = (
          stays t ht c.freed.0,
          stays i hi c.freed.1,
          stays d hd c.freed.2,
          freed.zeros f (omega arith) (omega arith),
        );
        allocations = λ k hk kt ki kd kf e.
            first_stays m.heap c.ram' ram' f k freed hk kf (c.others k hk kt ki kd e);
      }
