-- ===== src/Heap/Tests.antt =====
-- Small heaps of two and four blocks at 0x2000, with their table at 0x1000.
use koko_os.Prelude.{
  ℕ, suc, ◌+◌, ◌<◌, ◌≤◌, ◌≡◌, ◌^◌, refl, ◌⊎◌, inl, inr, false, arith, done, kernel_panic, ap, ◌∙◌,
  lt-cases,
}
use koko_os.Ram.{Ram, load32, store32}
use koko_os.Heap.{
  Heap, HeapTable, get_entry, entry_has_next, set_entry, malloc, free, get_address_from_block,
  search_loop, search_step, request_memory, entry_is_free, entry_is_taken, found_memory, mark_loop,
  malloc_entry, align_amount_of_bytes_requested,
}
use koko_os.Heap.Entries.{IsLayout, IsFreeable, get_entry-set_entry_self, get_entry-set_entry_ne}
use koko_os.Heap.Valid.{IsTable, first_entry}
use koko_os.Heap.Chain.{Freed}
use koko_os.Heap.Free.{free-Freed}
use koko_os.Heap.Calls.{Served, Refused, malloc_lem}
use koko_os.Heap.Leak.{Leaves, free-malloc, free-free, malloc_null, malloc-disjoint}
use koko_os.Heap.Create.{heap_of, IsSilent, Zeros-IsTable}

abbrev two_blocks : HeapTable
two_blocks = record { total = 2; entries = 0x1000 }

abbrev two : Heap
two = heap_of 0x2000 two_blocks

abbrev four : Heap
four = heap_of 0x2000 (record { total = 4; entries = 0x1000 })

abbrev blank : Ram
blank = λ b. 0

-- Block 0 is taken.
abbrev taken : Ram
taken = set_entry two blank 0 first_entry

two-IsFreeable : IsFreeable two
two-IsFreeable = record { layout = omega arith; half = omega arith }

four-IsLayout : IsLayout four
four-IsLayout = omega arith

blank-zero : (heap : Heap) (i : ℕ) → get_entry heap blank i ≡ 0
unfolding get_entry load32
blank-zero heap i = refl

zero_is_silent : (e : ℕ) → e ≡ 0 → entry_has_next e ≡ false
unfolding entry_has_next
zero_is_silent e h = rw h

two-IsSilent : IsSilent two blank
two-IsSilent = zero_is_silent (get_entry two blank 2) (blank-zero two 2)

four-IsTable : IsTable 4 (get_entry four blank)
four-IsTable =
    Zeros-IsTable 4 (get_entry four blank) (λ i hi. blank-zero four i)
      (zero_is_silent (get_entry four blank 4) (blank-zero four 4))

taken-first : get_entry two taken 0 ≡ first_entry
taken-first = get_entry-set_entry_self two blank 0 first_entry (omega arith)

taken-rest : (i : ℕ) → 0 < i → get_entry two taken i ≡ 0
taken-rest i h = get_entry-set_entry_ne two blank 0 i first_entry (omega arith) ∙ blank-zero two i

taken-IsTable : IsTable 2 (get_entry two taken)
taken-IsTable = record {
  shape = λ i hi. elim (lt-cases 0 i) [
    | inl later ↦ inl (taken-rest i later)
    | inr now ↦ let e : i ≡ 0 = omega arith in inr (inl (ap (get_entry two taken) e ∙ taken-first))
  ];
  before = λ i hi e. absurd (omega (arith, taken-rest (suc i) (omega arith)));
  zeroth = λ e. omega (arith, taken-first);
  after = λ i hi e. elim (lt-cases 0 i) [
    | inl later ↦ absurd (omega (arith, taken-rest i later))
    | inr now ↦
        let z : i ≡ 0 = omega arith in
        absurd (omega (arith, ap (get_entry two taken) z, taken-first))
  ];
  behind = zero_is_silent (get_entry two taken 2) (taken-rest 2 (omega arith));
}

malloc_lem_example :
    Served four four-IsLayout blank four-IsTable 5000
    ⊎ Refused four four-IsLayout blank four-IsTable 5000
malloc_lem_example =
    malloc_lem four four-IsLayout blank four-IsTable 5000 (omega arith) (omega arith)

free-Freed_example :
    (ram' : Ram) × (free two taken 0x2000 ≡ done ram')
    × Freed two 0 0 taken ram'
    × IsTable 2 (get_entry two ram')
free-Freed_example = free-Freed two taken 0 two-IsFreeable taken-IsTable (omega arith) taken-first

two-IsTable : IsTable 2 (get_entry two blank)
two-IsTable = Zeros-IsTable 2 (get_entry two blank) (λ i hi. blank-zero two i) two-IsSilent

one_given : malloc two blank 5 ≡ done (0x2000, taken)
unfolding malloc request_memory align_amount_of_bytes_requested search_loop search_step
    entry_is_free entry_is_taken get_entry load32 found_memory mark_loop malloc_entry set_entry
    store32 get_address_from_block
one_given = refl

another_given : malloc two taken 6 ≡ done (0x3000, set_entry two taken 1 first_entry)
unfolding malloc request_memory align_amount_of_bytes_requested search_loop search_step
    entry_is_free entry_is_taken get_entry load32 found_memory mark_loop malloc_entry set_entry
    store32 get_address_from_block
another_given = refl

abbrev freed : Ram
freed = (free-Freed two taken 0 two-IsFreeable taken-IsTable (omega arith) taken-first).0

freed_once : free two taken 0x2000 ≡ done freed
freed_once = (free-Freed two taken 0 two-IsFreeable taken-IsTable (omega arith) taken-first).1

free-malloc_example : Leaves two two-IsFreeable blank two-IsTable 5 0x2000 taken
free-malloc_example =
    free-malloc two two-IsFreeable blank two-IsTable 5 0x2000 taken (omega arith) (omega arith)
      one_given

free-free_example :
    free two freed 0x2000 ≡ kernel_panic "Address is not the beginning of an address block!"
free-free_example =
    free-free two taken freed 0 two-IsFreeable taken-IsTable (omega arith) taken-first freed_once

malloc_null_example : malloc two taken 0 ≡ done (0, set_entry two taken 0 first_entry)
malloc_null_example = malloc_null two taken 0 (inl refl)

malloc-disjoint_example : (0x2000 + 4096 ≤ 0x3000) ⊎ (0x3000 + 4096 ≤ 0x2000)
malloc-disjoint_example =
    malloc-disjoint two blank taken (set_entry two taken 1 first_entry) 5 6 0x2000 0x3000
      two-IsFreeable.layout two-IsTable (omega arith) (omega arith) (omega arith) (omega arith)
      one_given another_given

abbrev huge : HeapTable
huge = record { total = 2 ^ 20; entries = 0x1000 }
