-- ===== src/Kheap/Start.antt =====
-- The kernel's heap when it starts.
use vana.Prelude.{ℕ, ◌+◌, ◌/◌, ◌≡◌, some, List, length, replicate, arith, ok}
use vana.Memory.Heap.{Heap, block_size, entry_free}
use vana.Memory.Heap.Alloc.{IsValid}
use vana.Memory.Heap.Create.{create-IsValid}
use vana.Kheap.{heap_size_bytes, heap_address, kheap_init}

-- Over a table of 25600 entries, when the start of the heap succeeds, the heap is valid and every
-- entry is free.
pub kheap_init-IsValid :
    (entries : List ℕ) (heap heap' : Heap)
    → length entries ≡ 25_600
    → kheap_init entries heap ≡ some (ok tt, heap')
    → IsValid heap' × (heap'.table.entries ≡ replicate 25_600 entry_free)
unfolding kheap_init
kheap_init-IsValid entries heap heap' l h =
    let (v, f, s) =
      create-IsValid heap heap' heap_address (heap_address + heap_size_bytes)
        (record { entries = entries; total = heap_size_bytes / block_size }) l (omega arith)
        (omega arith) (omega arith) h in
    (v, f)
