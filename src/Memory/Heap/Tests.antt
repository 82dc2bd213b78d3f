-- ===== src/Memory/Heap/Tests.antt =====
-- Runs of the allocator, and the theorems at small heaps.
use vana.Prelude.{ℕ, ◌*◌, ◌+◌, ◌≡◌, refl, none, some, List, [], ◌∷◌, arith, ◌<◌, ◌≤◌, ok}
use vana.Memory.{memset}
use vana.Memory.Heap.{
  Heap, block_size, create, validate_table, validate_alignment, scan, get_start_block, mark_loop,
  next_entry, mark_blocks_taken, malloc_blocks, malloc, free, entry_type, align_value_to_upper,
  block_to_address,
}
use vana.Memory.Heap.Scan.{first_place, get_start_block-first_place}
use vana.Memory.Heap.Runs.{has_run}
use vana.Memory.Heap.Alloc.{IsValid, Allocated}
use vana.Memory.Heap.Laws.{malloc-Allocated, malloc_overrun, free-malloc}

abbrev heap_of : List ℕ → ℕ → Heap
heap_of es n = record { table = record { entries = es; total = n }; saddr = 0x0100_0000 }

-- Block 0 is taken, blocks 1 to 3 are free.
abbrev heap : Heap
heap = heap_of (0x41 ∷ 0 ∷ 0 ∷ 0 ∷ []) 4

abbrev after_malloc : Heap
after_malloc = heap_of (0x41 ∷ 0xc1 ∷ 0x01 ∷ 0 ∷ []) 4

malloc_two_blocks : malloc heap 5000 ≡ some (0x0100_1000, after_malloc)
unfolding malloc malloc_blocks get_start_block scan entry_type mark_blocks_taken mark_loop
    next_entry align_value_to_upper block_to_address
malloc_two_blocks = refl

-- The short run at the end of the table is handed to `mark_blocks_taken`.
overrun_run : malloc heap 20000 ≡ none
unfolding malloc_two_blocks
overrun_run = refl

get_start_block-first_place_example : get_start_block heap 2 ≡ ok 1
unfolding first_place entry_type
get_start_block-first_place_example = get_start_block-first_place heap 2 (omega arith)

heap-IsValid : IsValid heap
heap-IsValid = omega arith

malloc-Allocated_example :
    Allocated heap 2 (malloc heap 5000)
    × (5000 ≤ 2 * block_size)
    × (2 * block_size < 5000 + block_size)
unfolding has_run entry_type
malloc-Allocated_example = malloc-Allocated heap 5000 (omega arith) (omega arith) refl

malloc_overrun_example : malloc heap 20000 ≡ none
unfolding has_run entry_type
malloc_overrun_example =
    malloc_overrun heap 20000 0 (0x41 ∷ 0 ∷ 0 ∷ []) (omega arith) (omega arith) refl refl refl

free-malloc_example : free after_malloc 0x0100_1000 ≡ some heap
unfolding has_run entry_type malloc_two_blocks
free-malloc_example =
    free-malloc heap after_malloc 5000 0x0100_1000 heap-IsValid
      (λ e. cc, (λ e. refl, (λ e. refl, (λ e. refl, tt)))) (omega arith) (omega arith) refl refl

create_run :
    create heap 0x0100_0000 0x0100_2000 (record { entries = 7 ∷ 7 ∷ []; total = 2 })
    ≡ some (ok tt, heap_of (0 ∷ 0 ∷ []) 2)
unfolding create validate_alignment validate_table memset
create_run = refl
