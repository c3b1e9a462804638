-- ===== src/Fat/Seek.antt =====
-- `fat16_seek` against a reference on numbers that do not wrap, and the position it keeps inside the
-- file.
use koko_os.Prelude.{
  ℕ, ◌+◌, ◌^◌, ◌%◌, lt-cases, lt→ltb, ◌<◌, ◌≤◌, ◌≡◌, ◌≢◌, refl, ◌⊎◌, inl, inr, arith, true, false,
  ltb, leb, if◌then◌else◌, Option, none, some,
}
use koko_os.Ram.{Ram, store32}
use koko_os.Ram.Words.{store32_outside, load32-store32_self}
use koko_os.Disk.{ok}
use koko_os.File.{SeekMode, seek_mode_set, seek_mode_cur, seek_mode_end}
use koko_os.Fat.{filesize_of}
use koko_os.Fat.Files.{position_of, file_item_of, is_file, seek_within, seek}

-- Where a file of `filesize` bytes is moved to from `position`, if the move is one.
abbrev pub goal : (position filesize offset : ℕ) → SeekMode → Option ℕ
goal position filesize offset seek_mode_set = if ltb offset filesize then some offset else none
goal position filesize offset seek_mode_cur =
    if ltb (position + offset) filesize then some (position + offset) else none
goal position filesize offset seek_mode_end = none

module _ (ram : Ram) (descriptor offset : ℕ) where
  -- What `fat16_seek` leaves, by its goal.
  abbrev pub Sought : SeekMode → Option ℕ → Type 0
  Sought mode (some p) =
      ((seek ram descriptor offset mode).0 ≡ ok)
      × (position_of (seek ram descriptor offset mode).1 descriptor ≡ p)
      × ((b : ℕ)
          → (b < descriptor + 4) ⊎ (descriptor + 8 ≤ b)
          → (seek ram descriptor offset mode).1 b ≡ ram b)
  Sought mode none =
      ((seek ram descriptor offset mode).0 ≢ ok) × ((seek ram descriptor offset mode).1 ≡ ram)

  abbrev size : ℕ
  size = filesize_of ram (file_item_of ram descriptor)

  stored : (p : ℕ) → p < 2 ^ 32 → position_of (store32 ram (descriptor + 4) p) descriptor ≡ p
  unfolding position_of
  stored p h = load32-store32_self ram (descriptor + 4) p h

  module _ (open_file : is_file ram descriptor ≡ true) where
    seek_long : (mode : SeekMode) → size ≤ offset → Sought mode none
    unfolding seek
    seek_long mode h =
        let long : leb size offset ≡ true = ground arith in rw (open_file, long) ((λ e. cc), refl)

    seek_short :
        (mode : SeekMode)
        → offset < size
        → seek ram descriptor offset mode ≡ seek_within ram descriptor offset size mode
    unfolding seek
    seek_short mode h =
        let short : leb size offset ≡ false = ground arith in rw (open_file, short) refl

    seek_set : offset < size → size ≤ 2 ^ 32 → Sought seek_mode_set (some offset)
    unfolding seek_within
    seek_set h small = rw (seek_short seek_mode_set h) (
      refl,
      stored offset (omega arith),
      λ b out. store32_outside ram (descriptor + 4) offset b (omega arith),
    )

    seek_end : offset < size → Sought seek_mode_end none
    unfolding seek_within
    seek_end h = rw (seek_short seek_mode_end h) ((λ e. cc), refl)

    seek_cur :
        offset < size
        → position_of ram descriptor + offset < size
        → size ≤ 2 ^ 32
        → Sought seek_mode_cur (some (position_of ram descriptor + offset))
    unfolding seek_within
    seek_cur h within small =
        let p : ℕ = position_of ram descriptor + offset in
        let exact : (position_of ram descriptor + offset) % 2 ^ 32 ≡ p = omega arith in
        let inside : leb size p ≡ false = ground arith in
        rw (seek_short seek_mode_cur h, exact, inside)
          (
            refl,
            stored p (omega arith),
            λ b out. store32_outside ram (descriptor + 4) p b (omega arith),
          )

    seek_past :
        offset < size
        → size ≤ position_of ram descriptor + offset
        → position_of ram descriptor + offset < 2 ^ 32
        → Sought seek_mode_cur none
    unfolding seek_within
    seek_past h past small =
        let exact : (position_of ram descriptor + offset) % 2 ^ 32
            ≡ position_of ram descriptor + offset =
          omega arith in
        let outside : leb size (position_of ram descriptor + offset) ≡ true = ground arith in
        rw (seek_short seek_mode_cur h, exact, outside) ((λ e. cc), refl)

  not_less : (a : ℕ) → size ≤ a → ltb a size ≡ false
  not_less a h = ground arith

  -- On an open file of at most 2^31 bytes whose position is inside it, `fat16_seek` does what the
  -- reference says: where that gives a position, the call returns the status ok, sets the position
  -- and changes no other byte; where it gives none, the call returns an error and changes nothing.
  -- The reference adds without wrapping: a move is one where its goal is inside the file, and there
  -- is none from the end.
  pub seek-goal :
      (mode : SeekMode)
      → is_file ram descriptor ≡ true
      → size ≤ 2 ^ 31
      → position_of ram descriptor < size
      → Sought mode (goal (position_of ram descriptor) size offset mode)
  seek-goal seek_mode_set file small inside = elim (lt-cases offset size) [
    | inl h ↦ rw (lt→ltb offset size h) (seek_set file h (omega arith))
    | inr h ↦ rw (not_less offset h) (seek_long file seek_mode_set h)
  ]
  seek-goal seek_mode_end file small inside = elim (lt-cases offset size) [
    | inl h ↦ seek_end file h
    | inr h ↦ seek_long file seek_mode_end h
  ]
  seek-goal seek_mode_cur file small inside =
      let p : ℕ = position_of ram descriptor + offset in
      elim (lt-cases p size) [
        | inl h ↦ rw (lt→ltb p size h) (seek_cur file (omega arith) h (omega arith))
        | inr h ↦ rw (not_less p h) (elim (lt-cases offset size) [
          | inl short ↦ seek_past file short h (omega arith)
          | inr long ↦ seek_long file seek_mode_cur long
        ])
      ]
