-- ===== src/Memory/Tests.antt =====
-- The kernel's start with blank memory, and a `zalloc` behind it.
use koko_os.Prelude.{ℕ, ◌≡◌, ◌⊎◌, arith, refl, kernel_panic, done, false}
use koko_os.Ram.{load32}
use koko_os.Heap.{get_entry, entry_has_next}
use koko_os.Heap.Calls.{out_of_memory}
use koko_os.Heap.Create.{IsSilent, Zeros-IsTable}
use koko_os.Heap.Valid.{IsTable}
use koko_os.Memory.{Machine, memory_init, zalloc}
use koko_os.Memory.Init.{
  kernel_heap, kernel_heap-IsLayout, kernel_table, Started, memory_init_lem, Zeroed, zalloc_lem,
}

abbrev machine : Machine
machine = record { ram = λ b. 0; heap = kernel_heap; heap_table = kernel_table }

entry_zero : (i : ℕ) → get_entry kernel_heap machine.ram i ≡ 0
unfolding get_entry load32
entry_zero i = refl

zero_is_silent : (e : ℕ) → e ≡ 0 → entry_has_next e ≡ false
unfolding entry_has_next
zero_is_silent e h = rw h

silent : IsSilent kernel_heap machine.ram
silent = zero_is_silent (get_entry kernel_heap machine.ram 25600) (entry_zero 25600)

table : IsTable 25600 (get_entry kernel_heap machine.ram)
table = Zeros-IsTable 25600 (get_entry kernel_heap machine.ram) (λ i hi. entry_zero i) silent

memory_init_lem_example : (m' : Machine) × (memory_init machine ≡ done m') × Started machine m'
memory_init_lem_example = memory_init_lem machine silent

zalloc_lem_example :
    Zeroed machine kernel_heap-IsLayout table 10 ⊎ (zalloc machine 10 ≡ kernel_panic out_of_memory)
zalloc_lem_example = zalloc_lem machine kernel_heap-IsLayout table 10 (omega arith) (omega arith)
