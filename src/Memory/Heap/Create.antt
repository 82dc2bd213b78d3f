-- ===== src/Memory/Heap/Create.antt =====
-- What `heap_create` guarantees for the heap that it sets up.
use vana.Prelude.{
  ℕ, zero, suc, ◌-◌, ◌*◌, ◌^◌, ◌≤◌, ◌<◌, ◌≡◌, refl, some, List, [], ◌∷◌, ok, arith, length,
  replicate, length-replicate,
}
use vana.Memory.{memset}
use vana.Memory.Heap.{
  Heap, HeapTable, entry_free, block_size, create, validate_table, validate_alignment,
}
use vana.Memory.Heap.Alloc.{IsValid}

memset-replicate : (xs : List ℕ) (n : ℕ) → length xs ≡ n → memset xs 0 n ≡ some (replicate n 0)
unfolding memset
memset-replicate [] zero h = refl
memset-replicate [] (suc n) h = absurd (omega arith)
memset-replicate (x ∷ xs) zero h = absurd (omega arith)
memset-replicate (x ∷ xs) (suc n) h = rw (memset-replicate xs n (omega arith))

-- When `create` succeeds for a table that has as many entries as it says, over memory below 2 ^ 32 of
-- less than 2 ^ 31 bytes, the heap is valid, its blocks make up exactly the given memory, and every
-- entry is free.
pub create-IsValid :
    (heap heap' : Heap) (ptr end : ℕ) (table : HeapTable)
    → length table.entries ≡ table.total
    → ptr ≤ end
    → end < 2 ^ 32
    → end - ptr < 2 ^ 31
    → create heap ptr end table ≡ some (ok tt, heap')
    → IsValid heap'
      × (heap'.table.entries ≡ replicate table.total entry_free)
      × (heap'.table.total * block_size ≡ end - ptr)
unfolding create validate_table validate_alignment
create-IsValid heap heap' ptr end table s p q r h =
    ground
      (arith, memset-replicate table.entries table.total s, length-replicate {A = ℕ} table.total 0)
