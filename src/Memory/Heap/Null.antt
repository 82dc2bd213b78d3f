-- ===== src/Memory/Heap/Null.antt =====
-- The null pointer, given back to the heap.
use vana.Prelude.{ℕ, suc, ◌+◌, ◌-◌, ◌/◌, ◌%◌, ◌^◌, ◌≤◌, ◌<◌, ◌≡◌, refl, false, none, arith, ltb}
use vana.Memory.Heap.{Heap, block_size, free, address_to_block, mark_blocks_free}

null_block :
    (saddr : ℕ)
    → saddr % block_size ≡ 0
    → 0 < saddr
    → saddr ≤ 2 ^ 31
    → (d : ℕ) × ((0 + 2 ^ 32 - saddr) % 2 ^ 32 ≡ d)
      × (ltb d (2 ^ 31) ≡ false)
      × ((n : ℕ) × ((2 ^ 32 - d) / block_size ≡ suc n))
null_block saddr a p h =
    (2 ^ 32 - saddr, omega arith, ground arith, (saddr / block_size - 1, omega arith))

-- The block of the null pointer lies before the table.
pub free_null :
    (heap : Heap)
    → heap.saddr % block_size ≡ 0
    → 0 < heap.saddr
    → heap.saddr ≤ 2 ^ 31
    → free heap 0 ≡ none
unfolding free address_to_block mark_blocks_free
free_null heap a p h =
    let (d, e, l, (n, f)) = null_block heap.saddr a p h in rw (free, e, l, f) refl
