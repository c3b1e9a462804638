-- ===== src/File/Close.antt =====
-- `fs_close` of an open descriptor.
use koko_os.Prelude.{
  ℕ, ◌-◌, ◌<◌, ◌≡◌, ◌≢◌, ◌∙◌, sym, ap, inl, inr, arith, ◌==◌, false, Outcome, hang, kernel_panic, ℤ,
  ◌>>=◌, refl, done, Bool-cases, leb,
}
use koko_os.Disk.{ok}
use koko_os.File.{
  Files, FileSystems, free_file_descriptor, find_file_descriptor, fs_close, max_file_descriptors,
  update,
}
use koko_os.File.Table.{IsFiles, find-same}

-- What `fs_close` does behind the file system's own close: the descriptor's memory is freed, and if
-- that returns, the tables are `s'`.
pub record Closed (systems : FileSystems) (s : Files) (w w' : systems.State) (fd : ℕ) : Type 0 where
  pub s' : Files
  pub returns :
      fs_close systems s w fd
      ≡ (systems.free (find_file_descriptor s fd) w' >>= λ w''. done (ok, s', w''))
  pub gone : find_file_descriptor s' fd ≡ 0
  pub others : (k : ℕ) → k ≢ fd → find_file_descriptor s' k ≡ find_file_descriptor s k
  pub files : IsFiles s'

abbrev without : Files → (fd : ℕ) → Files
without s fd = record s { file_descriptors = update s.file_descriptors (fd - 1) 0 }

found-range :
    (s : Files) (fd : ℕ)
    → find_file_descriptor s fd ≢ 0
    → (0 < fd)
      × (fd < max_file_descriptors)
      × (find_file_descriptor s fd ≡ s.file_descriptors (fd - 1))
unfolding find_file_descriptor
found-range s fd h = ground arith

without-gone : (s : Files) (fd : ℕ) → find_file_descriptor (without s fd) fd ≡ 0
unfolding find_file_descriptor
without-gone s fd = ground arith

without-IsFiles : (s : Files) (fd : ℕ) → IsFiles s → IsFiles (without s fd)
without-IsFiles s fd v = record {
  numbered = λ i hi nonzero. elim (Bool-cases (fd - 1 == i)) [
    | inl e ↦ let here : (without s fd).file_descriptors i ≡ 0 = rw e in absurd (nonzero here)
    | inr e ↦
        let there : (without s fd).file_descriptors i ≡ s.file_descriptors i = rw e in
        ap (λ a. (s.at a).index) there ∙ v.numbered i hi (λ n. nonzero (there ∙ n))
  ];
}

-- The descriptor is freed before its slot is cleared.
free_file_descriptor-found :
    (systems : FileSystems) (s : Files) (w : systems.State) (fd : ℕ)
    → find_file_descriptor s fd ≢ 0
    → free_file_descriptor systems s w fd
      ≡ (systems.free (find_file_descriptor s fd) w >>= λ w'. done (ok, without s fd, w'))
unfolding free_file_descriptor
free_file_descriptor-found systems s w fd h =
    let (some_number, below, slot) = found-range s fd h in
    let positive : leb fd 0 ≡ false = ground arith in
    let taken : (s.file_descriptors (fd - 1) == 0) ≡ false = ground arith in
    rw (positive, taken)
      (ap (λ a. systems.free a w >>= λ w'. done (ok, without s fd, w')) (sym slot))

status_dropped :
    {S : Type 0} (o : Outcome S) (s : Files) (code : ℤ)
    → ◌>>=◌ {B = ℤ × Files × S}
        (◌>>=◌ {B = ℤ × Files × S} o (λ w. done (code, s, w)))
        (λ r. done (code, r.1, r.2))
      ≡ ◌>>=◌ {B = ℤ × Files × S} o (λ w. done (code, s, w))
status_dropped (done a) s code = refl
status_dropped hang s code = refl
status_dropped (kernel_panic reason) s code = refl

-- With a table whose descriptors carry the numbers of their slots, closing a descriptor that is
-- found, where the file system's own close returns the status ok: the call frees the descriptor's
-- memory and does whatever that does, a panic included; where that returns, so does the call, with
-- the status ok. The number then finds nothing any more, every other number finds what it found
-- before, and the table stays numbered.
pub fs_close_lem :
    (systems : FileSystems) (s : Files) (w w' : systems.State) (fd : ℕ)
    → IsFiles s
    → find_file_descriptor s fd ≢ 0
    → systems.close
        (systems.fs_of_disk (s.at (find_file_descriptor s fd)).disk w)
        (s.at (find_file_descriptor s fd)).private_data
        w
      ≡ done (ok, w')
    → Closed systems s w w' fd
unfolding fs_close
fs_close_lem systems s w w' fd v found closed =
    let (some_number, below, slot) = found-range s fd found in
    let there : (find_file_descriptor s fd == 0) ≡ false = ground arith in
    record {
      s' = without s fd;
      returns =
          rw (there, closed, free_file_descriptor-found systems s w' fd found)
            (status_dropped (systems.free (find_file_descriptor s fd) w') (without s fd) ok);
      gone = without-gone s fd;
      others =
          λ k other. find-same s (without s fd) (fd - 1) k (omega arith) (λ i ne. ground arith);
      files = without-IsFiles s fd v;
    }
