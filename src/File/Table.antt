-- ===== src/File/Table.antt =====
-- The table of descriptors: finding what has been opened, and closing it.
use koko_os.Prelude.{
  ℕ, zero, suc, ◌+◌, ◌-◌, ◌≤◌, ◌<◌, ◌≡◌, ◌≢◌, refl, ◌∙◌, ap, ◌⊎◌, inl, inr, arith, ◌==◌, true,
  false, if◌then◌else◌, none, some, done, Bool-cases, lt-cases, leb,
}
use koko_os.File.{
  Files, FileDescriptor, free_slot, new_file_descriptor, find_file_descriptor, max_file_descriptors,
  update,
}

-- The first null slot of `n` slots from `i` on.
pub record FirstFree (slots : ℕ → ℕ) (n i j : ℕ) : Type 0 where
  pub from : i ≤ j
  pub below : j < i + n
  pub null : slots j ≡ 0
  pub before : (k : ℕ) → i ≤ k → k < j → slots k ≢ 0

pub free_slot-cases :
    (n : ℕ) (slots : ℕ → ℕ) (i : ℕ)
    → ((j : ℕ) × (free_slot n slots i ≡ some j) × FirstFree slots n i j)
      ⊎ ((free_slot n slots i ≡ none) × ((k : ℕ) → i ≤ k → k < i + n → slots k ≢ 0))
unfolding free_slot
free_slot-cases zero slots i = inr (refl, λ k lo hi. absurd (omega arith))
free_slot-cases (suc n) slots i = elim (Bool-cases (slots i == 0)) [
  | inl e ↦ inl (
    i,
    rw (free_slot, e),
    record {
      from = omega arith;
      below = omega arith;
      null = ground arith;
      before = λ k lo hi. absurd (omega arith);
    },
  )
  | inr e ↦
      let taken : slots i ≢ 0 = ground arith in
      let go : free_slot (suc n) slots i ≡ free_slot n slots (i + 1) = rw (free_slot, e) in
      elim (free_slot-cases n slots (i + 1)) [
        | inl (j, run, f) ↦ inl (
          j,
          go ∙ run,
          record {
            from = omega (arith, f.from);
            below = omega (arith, f.below);
            null = f.null;
            before = λ k lo hi. elim (lt-cases i k) [
              | inl later ↦ f.before k (omega arith) hi
              | inr now ↦ let z : k ≡ i = omega arith in rw z taken
            ];
          },
        )
        | inr (run, all) ↦ inr (
          go ∙ run,
          λ k lo hi. elim (lt-cases i k) [
            | inl later ↦ all k (omega arith) (omega arith)
            | inr now ↦ let z : k ≡ i = omega arith in rw z taken
          ],
        )
      ]
]

-- Each descriptor in the table carries the number of its slot, counted from 1.
pub record IsFiles (s : Files) : Type 0 where
  pub numbered :
      (i : ℕ)
      → i < max_file_descriptors
      → s.file_descriptors i ≢ 0
      → (s.at (s.file_descriptors i)).index ≡ i + 1

-- What a new descriptor at the address `fd` changes.
pub record Opened (s s' : Files) (fd : ℕ) : Type 0 where
  pub slot : ℕ
  pub below : slot < max_file_descriptors
  pub was_null : s.file_descriptors slot ≡ 0
  pub lowest : (k : ℕ) → k < slot → s.file_descriptors k ≢ 0
  pub index : (s'.at fd).index ≡ slot + 1
  pub found :
      find_file_descriptor s' (slot + 1) ≡ (if slot + 1 == max_file_descriptors then 0 else fd)
  pub others : (k : ℕ) → k ≢ slot + 1 → find_file_descriptor s' k ≡ find_file_descriptor s k
  pub files : IsFiles s'

find-slot :
    (s : Files) (k : ℕ)
    → find_file_descriptor s (k + 1)
      ≡ (if leb max_file_descriptors (k + 1) then 0 else s.file_descriptors k)
unfolding find_file_descriptor
find-slot s k = let e : k + 1 - 1 ≡ k = omega arith in ground (arith, ap s.file_descriptors e)

pub find-same :
    (s s' : Files) (slot k : ℕ)
    → k ≢ slot + 1
    → ((i : ℕ) → i ≢ slot → s'.file_descriptors i ≡ s.file_descriptors i)
    → find_file_descriptor s' k ≡ find_file_descriptor s k
unfolding find_file_descriptor
find-same s s' slot k other same = elim (lt-cases 0 k) [
  | inl more ↦ ground (arith, same (k - 1) (omega arith))
  | inr none_left ↦ ground arith
]

abbrev pub blank_descriptor : ℕ → FileDescriptor
blank_descriptor index = record { index = index; fs = 0; disk = 0; private_data = 0 }

abbrev pub with_descriptor : Files → (slot fd : ℕ) → Files
with_descriptor s slot fd = record s {
  file_descriptors = update s.file_descriptors slot fd;
  at = update s.at fd (blank_descriptor (slot + 1));
}

with_descriptor-IsFiles :
    (s : Files) (slot fd : ℕ)
    → IsFiles s
    → ((i : ℕ) → i < max_file_descriptors → s.file_descriptors i ≢ fd)
    → IsFiles (with_descriptor s slot fd)
with_descriptor-IsFiles s slot fd v fresh = record {
  numbered = λ i hi nonzero. elim (Bool-cases (slot == i)) [
    | inl e ↦
        let z : i ≡ slot = ground arith in
        let here : (with_descriptor s slot fd).file_descriptors i ≡ fd = rw e in
        ap (λ a. ((with_descriptor s slot fd).at a).index) here ∙ new_index i z
    | inr e ↦
        let there : (with_descriptor s slot fd).file_descriptors i ≡ s.file_descriptors i = rw e in
        let old : (fd == s.file_descriptors i) ≡ false = ground (arith, fresh i hi) in
        ap (λ a. ((with_descriptor s slot fd).at a).index) there
        ∙ ap (λ b. (if b then blank_descriptor (slot + 1) else s.at (s.file_descriptors i)).index)
            old
        ∙ v.numbered i hi (λ n. nonzero (there ∙ n))
  ];
}
  where
    new_index : (i : ℕ) → i ≡ slot → ((with_descriptor s slot fd).at fd).index ≡ i + 1
    new_index i z =
        let e : (fd == fd) ≡ true = ground arith in
        ap (λ b. (if b then blank_descriptor (slot + 1) else s.at fd).index) e ∙ omega arith

pub with_descriptor-Opened :
    (s : Files) (slot fd : ℕ)
    → IsFiles s
    → ((i : ℕ) → i < max_file_descriptors → s.file_descriptors i ≢ fd)
    → FirstFree s.file_descriptors max_file_descriptors 0 slot
    → Opened s (with_descriptor s slot fd) fd
with_descriptor-Opened s slot fd v fresh f =
    let self : (fd == fd) ≡ true = ground arith in
    let same_slot : (slot == slot) ≡ true = ground arith in
    let below : slot < max_file_descriptors = omega (arith, f.below) in
    record {
      slot = slot;
      below = below;
      was_null = f.null;
      lowest = λ k hk. f.before k (omega arith) hk;
      index = ap (λ b. (if b then blank_descriptor (slot + 1) else s.at fd).index) self;
      found = find-slot (with_descriptor s slot fd) slot ∙ ground arith;
      others =
          λ k other. find-same s (with_descriptor s slot fd) slot k other (λ i ne. ground arith);
      files = with_descriptor-IsFiles s slot fd v fresh;
    }

-- With a table whose descriptors carry the numbers of their slots, and an address `fd` from
-- `zalloc` that is not null and not in the table, `fs_new_file_descriptor` returns. Either it puts
-- the descriptor in the lowest null slot, with the number of the slot counted from 1: the
-- descriptor is found by that number, unless it is 1024, every other number finds what it found
-- before, and the table stays numbered. Or all slots are taken, and it returns the null pointer and
-- changes nothing.
pub new_file_descriptor_lem :
    (s : Files) (fd : ℕ)
    → IsFiles s
    → fd ≢ 0
    → ((i : ℕ) → i < max_file_descriptors → s.file_descriptors i ≢ fd)
    → ((s' : Files) × (new_file_descriptor (done fd) s ≡ done (fd, s')) × Opened s s' fd)
      ⊎ ((new_file_descriptor (done fd) s ≡ done (0, s))
          × ((i : ℕ) → i < max_file_descriptors → s.file_descriptors i ≢ 0))
unfolding new_file_descriptor
new_file_descriptor_lem s fd v nonzero fresh =
    elim (free_slot-cases max_file_descriptors s.file_descriptors 0) [
      | inr (run, all) ↦
          inr (rw (new_file_descriptor, run), λ i hi. all i (omega arith) (omega arith))
      | inl (j, run, f) ↦ inl (
        with_descriptor s j fd,
        rw (new_file_descriptor, run),
        with_descriptor-Opened s j fd v fresh f,
      )
    ]
