-- ===== src/Fat/Clusters.antt =====
-- The clusters of a file and the search for a free cluster, against the file allocation table as a
-- function.
use koko_os.Prelude.{
  ℕ, zero, suc, ◌/◌, ◌^◌, ◌<◌, ◌≡◌, refl, ◌∙◌, inl, inr, arith, true, false, ◌==◌, if◌then◌else◌,
  Bool, Bool-cases, Option, none, some, Outcome, done, ◌>>=◌, pos,
}
use koko_os.Memory.{Machine}
use koko_os.Ports.{Ports}
use koko_os.File.{system_fail}
use koko_os.Fat.{Places, to_unsigned, divide, get_cluster_size}
use koko_os.Fat.Entries.{
  int_is, is_entry_invalid, is_entry_free, get_fat_entry, follow_clusters, get_cluster_for_offset,
}

-- The entries that end the way through a file: a bad cluster, a free one, and the marks of an end.
abbrev pub stops : ℕ → Bool
stops e =
    if e == 0
    then true
    else if e == 0xFF0
    then true
    else if e == 0xFF6
    then true
    else if e == 0xFF7
    then true
    else if e == 0xFF8
    then true
    else e == 0xFFF

-- The cluster that is `n` entries behind `cluster`, if no entry on the way ends it.
unfoldable pub walk : (entry : ℕ → ℕ) → ℕ → (cluster : ℕ) → Option ℕ
walk entry zero cluster = some cluster
walk entry (suc n) cluster =
    let rest = walk entry n (entry cluster) in if stops (entry cluster) then none else rest

-- The `int` -49 as a cluster number.
abbrev pub cluster_or_fail : Option ℕ → ℕ
cluster_or_fail none = 4294967247
cluster_or_fail (some cluster) = cluster

invalid-stops : (e : ℕ) → is_entry_invalid (pos e) ≡ stops e
unfolding is_entry_invalid int_is
invalid-stops e = ground arith

free-zero : (e : ℕ) → is_entry_free (pos e) ≡ (e == 0)
unfolding is_entry_free int_is
free-zero e = refl

same_number : (e : ℕ) → e < 2 ^ 16 → to_unsigned (pos e) ≡ e
unfolding to_unsigned
same_number e h = omega arith

failed : to_unsigned system_fail ≡ 4294967247
unfolding to_unsigned
failed = refl

module _ (ports : Ports) (patience primary_disk : ℕ) (places : Places) (disk : ℕ) where
  open ports use {Device}

  -- `fat16_get_fat_entry` answers with the entries of a table, again and again.
  pub record FatTable : Type 1 where
    pub entry : ℕ → ℕ
    pub entry-lt : (cluster : ℕ) → entry cluster < 2 ^ 16
    pub Keeps : Machine → Device → Type 0
    pub answers :
        (m : Machine) (d : Device) (cluster : ℕ)
        → Keeps m d
        → (m' : Machine) × (d' : Device) × (get_fat_entry ports patience primary_disk places m d
              disk cluster
            ≡ done (pos (entry cluster), m', d'))
          × Keeps m' d'

  module _ (table : FatTable) where
    open table use {entry, entry-lt, Keeps, answers}

    -- A call that returns `x`, and keeps the table.
    pub record Yields (x : ℕ) (run : Outcome (ℕ × Machine × Device)) : Type 0 where
      pub m' : Machine
      pub d' : Device
      pub returns : run ≡ done (x, m', d')
      pub keeps : Keeps m' d'

    follow_end :
        (n : ℕ) (m m' : Machine) (d d' : Device) (cluster : ℕ)
        → get_fat_entry ports patience primary_disk places m d disk cluster
          ≡ done (pos (entry cluster), m', d')
        → stops (entry cluster) ≡ true
        → follow_clusters ports patience primary_disk places (suc n) m d disk cluster
          ≡ done (4294967247, m', d')
    unfolding follow_clusters
    follow_end n m m' d d' cluster run e =
        rw (run, ◌>>=◌, invalid-stops (entry cluster), e, failed) refl

    follow_on :
        (n : ℕ) (m m' : Machine) (d d' : Device) (cluster : ℕ)
        → get_fat_entry ports patience primary_disk places m d disk cluster
          ≡ done (pos (entry cluster), m', d')
        → stops (entry cluster) ≡ false
        → follow_clusters ports patience primary_disk places (suc n) m d disk cluster
          ≡ follow_clusters ports patience primary_disk places n m' d' disk (entry cluster)
    unfolding follow_clusters
    follow_on n m m' d d' cluster run e =
        rw
          (
            run,
            ◌>>=◌,
            invalid-stops (entry cluster),
            e,
            same_number (entry cluster) (entry-lt cluster),
          )
          refl

    follow-walk :
        (n : ℕ) (m : Machine) (d : Device) (cluster : ℕ)
        → Keeps m d
        → Yields
            (cluster_or_fail (walk entry n cluster))
            (follow_clusters ports patience primary_disk places n m d disk cluster)
    unfolding walk follow_clusters
    follow-walk zero m d cluster k = record { m' = m; d' = d; returns = refl; keeps = k }
    follow-walk (suc n) m d cluster k =
        let (m', d', run, k') = answers m d cluster k in
        elim (Bool-cases (stops (entry cluster))) [
          | inl e ↦ record {
            m' = m';
            d' = d';
            returns = follow_end n m m' d d' cluster run e ∙ rw e refl;
            keeps = k';
          }
          | inr e ↦
              let y = follow-walk n m' d' (entry cluster) k' in
              record {
                m' = y.m';
                d' = y.d';
                returns = follow_on n m m' d d' cluster run e ∙ y.returns ∙ rw e refl;
                keeps = y.keeps;
              }
        ]

    sized :
        (m : Machine) (d : Device) (cluster offset size : ℕ)
        → get_cluster_size m.ram disk ≡ suc size
        → get_cluster_for_offset ports patience primary_disk places m d disk cluster offset
          ≡ follow_clusters ports patience primary_disk places (offset / suc size) m d disk cluster
    unfolding get_cluster_for_offset divide
    sized m d cluster offset size e = rw (e, ◌>>=◌) refl

    -- The cluster at an offset, where the reads of the file allocation table answer with the entries
    -- of a table of 16-bit numbers, and clusters have one byte or more: the call returns the cluster
    -- that is as many entries behind the first one as whole clusters fit into the offset, or -49 if
    -- one of the entries on the way is 0 or one of 0xFF0, 0xFF6, 0xFF7, 0xFF8 and 0xFFF.
    pub get_cluster_for_offset-walk :
        (m : Machine) (d : Device) (cluster offset size : ℕ)
        → Keeps m d
        → get_cluster_size m.ram disk ≡ suc size
        → Yields
            (cluster_or_fail (walk entry (offset / suc size) cluster))
            (get_cluster_for_offset ports patience primary_disk places m d disk cluster offset)
    get_cluster_for_offset-walk m d cluster offset size k e =
        let y = follow-walk (offset / suc size) m d cluster k in
        record {
          m' = y.m';
          d' = y.d';
          returns = sized m d cluster offset size e ∙ y.returns;
          keeps = y.keeps;
        }
