-- ===== src/Number/Tests.antt =====
-- The texts "42" at 0x200 and "-7" at 0x210, and a heap of four blocks with the literal "0" at 0x100.
use koko_os.Prelude.{ℕ, ◌≡◌, ◌⊎◌, refl, arith, negsuc, kernel_panic, false}
use koko_os.Ram.{Ram, poke, load32}
use koko_os.Heap.{HeapTable, get_entry, entry_has_next}
use koko_os.Heap.Entries.{IsLayout}
use koko_os.Heap.Valid.{IsTable}
use koko_os.Heap.Calls.{out_of_memory}
use koko_os.Heap.Create.{heap_of, Zeros-IsTable}
use koko_os.Memory.{Machine}
use koko_os.Number.{itoa}
use koko_os.Number.Print.{Prints, atoi-itoa}

abbrev texts : Ram
texts = poke (poke (poke (poke (λ b. 0) 0x200 52) 0x201 50) 0x210 45) 0x211 55

abbrev table : HeapTable
table = record { total = 4; entries = 0x1000 }

abbrev machine : Machine
machine = record { ram = poke (λ b. 0) 0x100 48; heap = heap_of 0x2000 table; heap_table = table }

machine-IsLayout : IsLayout machine.heap
machine-IsLayout = omega arith

entry_zero : (i : ℕ) → get_entry machine.heap machine.ram i ≡ 0
unfolding get_entry load32
entry_zero i = ground arith

silent : (e : ℕ) → e ≡ 0 → entry_has_next e ≡ false
unfolding entry_has_next
silent e h = rw h

machine-IsTable : IsTable 4 (get_entry machine.heap machine.ram)
machine-IsTable =
    Zeros-IsTable 4 (get_entry machine.heap machine.ram) (λ i hi. entry_zero i)
      (silent (get_entry machine.heap machine.ram 4) (entry_zero 4))

atoi-itoa_example :
    Prints 0x100 machine (negsuc 122)
    ⊎ (itoa 0x100 machine (negsuc 122) ≡ kernel_panic out_of_memory)
atoi-itoa_example =
    atoi-itoa 0x100 machine machine-IsLayout machine-IsTable (negsuc 122) (omega arith)
      (refl, omega arith, refl)
