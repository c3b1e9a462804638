-- ===== src/Fat/Free.antt =====
-- The search for a free cluster, against the file allocation table as a function.
use koko_os.Prelude.{
  ℕ, zero, suc, ◌+◌, ◌/◌, ◌%◌, ◌^◌, ◌≤◌, ◌<◌, ◌≡◌, ◌≢◌, refl, ◌∙◌, sym, ap, inl, inr, arith, true,
  false, ◌==◌, ltb, leb, if◌then◌else◌, Bool-cases, done, ◌>>=◌, pos,
}
use native.Mathlib.Nat.{div-le_self}
use koko_os.Memory.{Machine}
use koko_os.Text.{address_space}
use koko_os.Ports.{Ports}
use koko_os.File.{system_fail}
use koko_os.Fat.{
  Places, to_unsigned, divide, get_cluster_size, sector_to_absolute_pos, sectors_big_of, private_of,
}
use koko_os.Fat.Entries.{
  is_entry_free, int_is, get_fat_entry, end_cluster, free_cluster_loop, get_free_cluster,
}
use koko_os.Fat.Clusters.{FatTable, Yields}

free-zero : (e : ℕ) → is_entry_free (pos e) ≡ (e == 0)
unfolding is_entry_free int_is
free-zero e = refl

failed : to_unsigned system_fail % 2 ^ 16 ≡ 65487
unfolding to_unsigned
failed = refl

module _ (ports : Ports) (patience primary_disk : ℕ) (places : Places) (disk : ℕ)
    (table : FatTable ports patience primary_disk places disk) where
  open ports use {Device}
  open table use {entry, Keeps, answers}

  module _ (required last : ℕ) where
    loop_taken :
        (n : ℕ) (m m' : Machine) (d d' : Device) (c : ℕ)
        → get_fat_entry ports patience primary_disk places m d disk c ≡ done (pos (entry c), m', d')
        → entry c ≢ 0
        → c + 1 < 2 ^ 16
        → free_cluster_loop ports patience primary_disk places (suc n) m d disk required last c c
          ≡ free_cluster_loop ports patience primary_disk places n m' d' disk required last
              (c + 1)
              (c + 1)
    unfolding free_cluster_loop
    loop_taken n m m' d d' c run taken small =
        let e : (entry c == 0) ≡ false = ground arith in
        let next : (c + 1) % 2 ^ 16 ≡ c + 1 = omega arith in
        rw (run, ◌>>=◌, free-zero (entry c), e, next) refl

    -- The first cluster from `c` on that is free, `k` behind it: found, or behind the last one.
    loop_free :
        (n : ℕ) (m m' : Machine) (d d' : Device) (c : ℕ)
        → get_fat_entry ports patience primary_disk places m d disk c ≡ done (pos (entry c), m', d')
        → entry c ≡ 0
        → c + required < 2 ^ 32
        → free_cluster_loop ports patience primary_disk places (suc n) m d disk required last c c
          ≡ done (if ltb last c then 65487 else c, m', d')
    unfolding free_cluster_loop
    loop_free n m m' d d' c run free small =
        let enough : leb c ((c + required) % 2 ^ 32) ≡ true = ground arith in
        elim (Bool-cases (ltb last c)) [
          | inl e ↦ rw (run, ◌>>=◌, free-zero (entry c), free, e, failed) refl
          | inr e ↦ rw (run, ◌>>=◌, free-zero (entry c), free, e, enough) refl
        ]

    loop-Yields :
        (k n : ℕ) (m : Machine) (d : Device) (c : ℕ)
        → Keeps m d
        → k < n
        → c + k < 2 ^ 16
        → c + k + required < 2 ^ 32
        → ((j : ℕ) → j < k → entry (c + j) ≢ 0)
        → entry (c + k) ≡ 0
        → Yields ports patience primary_disk places disk table
            (if ltb last (c + k) then 65487 else c + k)
            (free_cluster_loop ports patience primary_disk places n m d disk required last c c)
    loop-Yields k zero m d c keeps fuel small fits taken free = absurd (omega arith)
    loop-Yields zero (suc n) m d c keeps fuel small fits taken free =
        let z : c + 0 ≡ c = omega arith in
        let here : entry c ≡ 0 = ap entry (sym z) ∙ free in
        let (m', d', run, k') = answers m d c keeps in
        rw z (record {
          m' = m';
          d' = d';
          returns = loop_free n m m' d d' c run here (omega arith);
          keeps = k';
        })
    loop-Yields (suc k) (suc n) m d c keeps fuel small fits taken free =
        let z : c + suc k ≡ c + 1 + k = omega arith in
        let now : entry c ≢ 0 = λ e. taken 0 (omega arith) (ap entry (omega arith) ∙ e) in
        let (m', d', run, k') = answers m d c keeps in
        let y =
          loop-Yields k n m' d' (c + 1) k' (omega arith) (omega arith) (omega arith)
            (λ j hj e. taken (suc j) (omega arith) (ap entry (omega arith) ∙ e))
            (ap entry (sym z) ∙ free) in
        rw z (record {
          m' = y.m';
          d' = y.d';
          returns = loop_taken n m m' d d' c run now (omega arith) ∙ y.returns;
          keeps = y.keeps;
        })

  -- The last cluster, by the size of the disk.
  abbrev pub last_of : Machine → (size : ℕ) → ℕ
  last_of m size =
      (sector_to_absolute_pos m.ram disk (sectors_big_of m.ram (private_of m.ram disk)) / size + 2)
      % 2 ^ 16

  sized :
      (m : Machine) (d : Device) (total size : ℕ)
      → get_cluster_size m.ram disk ≡ suc size
      → get_free_cluster ports patience primary_disk places m d disk total
        ≡ free_cluster_loop ports patience primary_disk places address_space m d disk
            (total / suc size)
            (last_of m (suc size))
            3
            3
  unfolding get_free_cluster end_cluster divide
  sized m d total size e = rw (e, ◌>>=◌) refl

  -- The search for a free cluster, where the reads of the file allocation table answer with the
  -- entries of a table and clusters have one byte or more. If cluster 3 + k, below 2^16, is the
  -- first one from 3 on whose entry is 0, the call returns it, or the number 65487 (that is -49) if
  -- it lies behind the last cluster, which follows from the size of the disk. The bytes that are
  -- asked for, below 2^31, do not matter.
  pub get_free_cluster-first :
      (m : Machine) (d : Device) (total size k : ℕ)
      → Keeps m d
      → get_cluster_size m.ram disk ≡ suc size
      → total < 2 ^ 31
      → 3 + k < 2 ^ 16
      → ((j : ℕ) → j < k → entry (3 + j) ≢ 0)
      → entry (3 + k) ≡ 0
      → Yields ports patience primary_disk places disk table
          (if ltb (last_of m (suc size)) (3 + k) then 65487 else 3 + k)
          (get_free_cluster ports patience primary_disk places m d disk total)
  get_free_cluster-first m d total size k keeps e small short taken free =
      let required : total / suc size ≤ total = div-le_self total (suc size) in
      let y =
        loop-Yields (total / suc size) (last_of m (suc size)) k address_space m d 3 keeps
          (omega arith) short (omega arith) taken free in
      record { m' = y.m'; d' = y.d'; returns = sized m d total size e ∙ y.returns; keeps = y.keeps }
