-- ===== src/Fat/Mounted.antt =====
-- An entry of the file allocation table, read from the disk: a machine with a mounted disk answers
-- `fat16_get_fat_entry` again and again.
use koko_os.Prelude.{
  ℕ, ◌+◌, ◌-◌, ◌*◌, ◌/◌, ◌%◌, ◌^◌, ◌≤◌, ◌<◌, ◌≡◌, ◌≢◌, ◌∙◌, sym, ap, ◌⊎◌, inl, inr, arith, lt-cases,
}
use native.Mathlib.Nat.{mul_assoc}
use koko_os.Ram.{Ram}
use koko_os.Ram.Words.{load32_congr}
use koko_os.Heap.{Heap, block_size, get_entry, w32}
use koko_os.Heap.Entries.{IsFreeable, OffTable}
use koko_os.Heap.Valid.{IsTable}
use koko_os.Heap.Reuse.{Apart, Clear}
use koko_os.Memory.{Machine}
use koko_os.Disk.{load16, store16}
use koko_os.Stream.{disk_of}
use koko_os.Stream.Small.{InUse}
use koko_os.Fat.{private_of, fat_read_stream_of, reserved_sectors_of}

pub store16_outside : (ram : Ram) (a w b : ℕ) → (b < a) ⊎ (a + 2 ≤ b) → store16 ram a w b ≡ ram b
unfolding store16
store16_outside ram a w b h = ground arith

pub load16_bytes :
    (ram : Ram) (a x y : ℕ) → ram (a + 0) ≡ x → ram (a + 1) ≡ y → load16 ram a ≡ x + 256 * y
unfolding load16
load16_bytes ram a x y hx hy = ground (arith, hx, hy)

load16_congr :
    (ram ram' : Ram) (a : ℕ)
    → ((b : ℕ) → a ≤ b → b < a + 2 → ram' b ≡ ram b)
    → load16 ram' a ≡ load16 ram a
unfolding load16
load16_congr ram ram' a same =
    ground (arith, same a (omega arith) (omega arith), same (a + 1) (omega arith) (omega arith))

-- A product with an even factor, modulo 2^32.
pub even : (a b : ℕ) → w32 (a * w32 (b * 2)) % 2 ≡ 0
even a b =
    let t : ℕ = b * 2 % 2 ^ 32 / 2 in
    let half : b * 2 % 2 ^ 32 ≡ t * 2 = omega arith in
    let twice : a * (b * 2 % 2 ^ 32) ≡ a * t * 2 = ap (λ x. a * x) half ∙ sym (mul_assoc a t 2) in
    omega (arith, twice)

-- The addresses of the structures that a read of the table uses, apart from one another.
pub record IsPlaced (disk private stream result : ℕ) : Type 0 where
  pub some_stream : stream ≢ 0
  pub disk_stream : Apart disk 16 stream 4
  pub disk_result : Apart disk 16 result 2
  pub private_stream : Apart private 92 stream 4
  pub private_result : Apart private 92 result 2
  pub stream_result : Apart stream 8 result 2

-- A range of bytes in use, clear of the heap's table.
pub record IsHeld (heap : Heap) (ram : Ram) (a n : ℕ) : Type 0 where
  pub clear : Clear heap a n
  pub used : (b : ℕ) → a ≤ b → b < a + n → InUse heap ram b

-- The table's entries decide what is in use.
pub IsHeld-congr :
    (heap : Heap) (ram ram' : Ram) (a n : ℕ)
    → ((k : ℕ) → k ≤ heap.table.total → get_entry heap ram' k ≡ get_entry heap ram k)
    → IsHeld heap ram a n
    → IsHeld heap ram' a n
IsHeld-congr heap ram ram' a n same h = record {
  clear = h.clear;
  used = λ b lo hi. still b (h.used b lo hi);
}
  where
    still : (b : ℕ) → InUse heap ram b → InUse heap ram' b
    still b (inl below) = inl below
    still b (inr (inl above)) = inr (inl above)
    still b (inr (inr taken)) =
        elim (lt-cases b (heap.start_address + heap.table.total * block_size)) [
          | inr above ↦ inr (inl above)
          | inl below ↦ elim (lt-cases b heap.start_address) [
            | inl under ↦ inl under
            | inr from ↦ inr (
                inr
                  λ e. taken (sym (same ((b - heap.start_address) / block_size) (omega arith)) ∙ e))
          ]
        ]

-- A machine whose disk is mounted: a well-formed heap with a free block, the private data and the
-- stream of the file allocation table, all in use, and the bytes of the disk.
pub record IsMounted (disk private stream result primary_disk reserved : ℕ) (m : Machine)
    : Type 0 where
  pub layout : IsFreeable m.heap
  pub table : IsTable m.heap.table.total (get_entry m.heap m.ram)
  pub room : (k : ℕ) × (k < m.heap.table.total) × (get_entry m.heap m.ram k ≡ 0)
  pub private_data : private_of m.ram disk ≡ private
  pub fat_stream : fat_read_stream_of m.ram private ≡ stream
  pub reserved_sectors : reserved_sectors_of m.ram private ≡ reserved
  pub real : disk_of m.ram stream ≡ primary_disk
  pub held_disk : IsHeld m.heap m.ram disk 16
  pub held_private : IsHeld m.heap m.ram private 92
  pub held_stream : IsHeld m.heap m.ram stream 8
  pub held_result : IsHeld m.heap m.ram result 2

module _ (disk private stream result primary_disk reserved : ℕ)
    (placed : IsPlaced disk private stream result) where
  -- A change of the position and of the result only, in the memory in use.
  pub record Frame (heap : Heap) (ram ram' : Ram) : Type 0 where
    pub entries : (k : ℕ) → k ≤ heap.table.total → get_entry heap ram' k ≡ get_entry heap ram k
    pub kept :
        (b : ℕ)
        → OffTable heap b
        → Apart b 1 stream 4
        → Apart b 1 result 2
        → InUse heap ram b
        → ram' b ≡ ram b

  used_trans :
      (heap : Heap) (ram ram' : Ram) (b : ℕ)
      → ((k : ℕ) → k ≤ heap.table.total → get_entry heap ram' k ≡ get_entry heap ram k)
      → OffTable heap b
      → InUse heap ram b
      → InUse heap ram' b
  used_trans heap ram ram' b same off u =
      (IsHeld-congr heap ram ram' b 1 same (record {
        clear = omega arith;
        used = λ b' lo hi. let e : b' ≡ b = omega arith in rw e u;
      })).used
        b (omega arith) (omega arith)

  pub Frame-trans :
      (heap : Heap) (ram ram' ram'' : Ram)
      → Frame heap ram ram'
      → Frame heap ram' ram''
      → Frame heap ram ram''
  Frame-trans heap ram ram' ram'' f f' = record {
    entries = λ k hk. f'.entries k hk ∙ f.entries k hk;
    kept = λ b off out_stream out_result used.
        f'.kept b off out_stream out_result (used_trans heap ram ram' b f.entries off used)
        ∙ f.kept b off out_stream out_result used;
  }

  pub held-kept :
      (heap : Heap) (ram ram' : Ram) (a n b : ℕ)
      → Frame heap ram ram'
      → IsHeld heap ram a n
      → Apart a n stream 4
      → Apart a n result 2
      → a ≤ b
      → b < a + n
      → ram' b ≡ ram b
  held-kept heap ram ram' a n b f h out_stream out_result lo hi =
      f.kept b (omega (arith, h.clear)) (omega arith) (omega arith) (h.used b lo hi)

  pub IsMounted-frame :
      (m : Machine) (ram' : Ram)
      → IsMounted disk private stream result primary_disk reserved m
      → IsTable m.heap.table.total (get_entry m.heap ram')
      → Frame m.heap m.ram ram'
      → IsMounted disk private stream result primary_disk reserved (record m { ram = ram' })
  unfolding private_of fat_read_stream_of reserved_sectors_of disk_of
  IsMounted-frame m ram' k v f =
      let (free, below, empty) = k.room in
      let in_private = λ (b : ℕ) (lo : private ≤ b) (hi : b < private + 92).
        held-kept m.heap m.ram ram' private 92 b f k.held_private placed.private_stream
          placed.private_result lo hi in
      record {
        layout = k.layout;
        table = v;
        room = (free, below, f.entries free (omega arith) ∙ empty);
        private_data =
            load32_congr m.ram ram' (disk + 12) (λ b lo hi.
              held-kept m.heap m.ram ram' disk 16 b f k.held_disk placed.disk_stream
                placed.disk_result (omega arith) (omega arith))
            ∙ k.private_data;
        fat_stream =
            load32_congr m.ram ram' (private + 84)
              (λ b lo hi. in_private b (omega arith) (omega arith))
            ∙ k.fat_stream;
        reserved_sectors =
            load16_congr m.ram ram' (private + 14)
              (λ b lo hi. in_private b (omega arith) (omega arith))
            ∙ k.reserved_sectors;
        real =
            load32_congr m.ram ram' (stream + 4) (λ b lo hi.
              f.kept b (omega (arith, k.held_stream.clear)) (omega arith)
                (omega (arith, placed.stream_result))
                (k.held_stream.used b (omega arith) (omega arith)))
            ∙ k.real;
        held_disk = IsHeld-congr m.heap m.ram ram' disk 16 f.entries k.held_disk;
        held_private = IsHeld-congr m.heap m.ram ram' private 92 f.entries k.held_private;
        held_stream = IsHeld-congr m.heap m.ram ram' stream 8 f.entries k.held_stream;
        held_result = IsHeld-congr m.heap m.ram ram' result 2 f.entries k.held_result;
      }
