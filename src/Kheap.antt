-- ===== src/Kheap.antt =====
-- The kernel's heap of src/memory/heap/kheap.c: the block allocator at the kernel's addresses, and
-- the memory that `kzalloc` clears. `none` is a write outside the heap's table.
pub mod Start
use vana.Prelude.{
  ℕ, ◌+◌, ◌-◌, ◌*◌, ◌/◌, ◌^◌, Bool, ◌&&◌, Option, none, some, List, Result, leb, ltb, ◌==◌,
  if◌then◌else◌, ◌>>=◌,
}
use vana.Memory.Heap.{Heap, HeapTable, block_size, create, malloc, free}
use vana.Paging.{Memory}

abbrev pub heap_size_bytes : ℕ
heap_size_bytes = 104_857_600

abbrev pub heap_address : ℕ
heap_address = 0x01000000

-- The kernel's heap, and the memory.
pub record Machine : Type 0 where
  pub kernel_heap : Heap
  pub memory : Memory

-- `entries` is what lies at the table's address, and `heap` the heap before. A failure is printed.
unfoldable pub kheap_init : List ℕ → Heap → Option (Result (Unit {0}) × Heap)
kheap_init entries heap =
    let table : HeapTable = record { entries = entries; total = heap_size_bytes / block_size } in
    create heap heap_address (heap_address + heap_size_bytes) table

unfoldable pub kmalloc : ℕ → Machine → Option (ℕ × Machine)
kmalloc size m = do
  (ptr, heap) ← malloc m.kernel_heap size
  some (ptr, record m { kernel_heap = heap })

-- `memset(ptr, 0, size)` over words: the last one may be cleared in part.
unfoldable pub clear : ℕ → ℕ → Memory → Memory
clear ptr size mem a =
    let part = 2 ^ (8 * (ptr + size - a)) in
    if leb ptr a && ltb a (ptr + size)
    then (if leb (a + 4) (ptr + size) then 0 else mem a / part * part)
    else mem a

-- The address, 0 for the null pointer.
unfoldable pub kzalloc : ℕ → Machine → Option (ℕ × Machine)
kzalloc size m = do
  (ptr, m') ← kmalloc size m
  some (if ptr == 0 then (0, m') else (ptr, record m' { memory = clear ptr size m'.memory }))

unfoldable pub kfree : ℕ → Machine → Option Machine
kfree ptr m = do heap ← free m.kernel_heap ptr; some (record m { kernel_heap = heap })
