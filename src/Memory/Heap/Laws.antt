-- ===== src/Memory/Heap/Laws.antt =====
-- What `heap_malloc` and `heap_free` promise their callers, and where they fail.
use vana.Prelude.{
  ℕ, suc, ◌+◌, ◌-◌, ◌*◌, ◌/◌, ◌^◌, ◌≤◌, ◌<◌, ◌≡◌, refl, ap, sym, ◌∙◌, pos, true, false, none, some,
  List, [], ◌∷◌, ◌++◌, arith, ok, err, Result, Status, length, replicate, length-append, subst,
  some-pair,
}
use vana.Memory.Heap.{
  Heap, entry_free, block_size, mark_blocks_taken, get_start_block, malloc_blocks, malloc, free,
  align_value_to_upper, block_to_address, address_to_block, mark_loop,
}
use vana.Memory.Heap.Scan.{is_free, all_free, first_place, get_start_block-first_place}
use vana.Memory.Heap.Runs.{
  has_run, first_place-Short, first_place_last_free, first_place_last_taken,
}
use vana.Memory.Heap.Chains.{chain, with_entries}
use vana.Memory.Heap.Release.{length-chain, mark_blocks_free-chain}
use vana.Memory.Heap.Alloc.{
  IsValid, Allocated, blocks, align_value_to_upper-blocks, malloc_blocks-Run, malloc_blocks_overrun,
}

blocks-suc : (size : ℕ) → 0 < size → blocks size ≡ suc (blocks size - 1)
blocks-suc size h = omega arith

-- For a size from 1 to 2 ^ 32 - 4096, whenever the table holds a run of as many free entries as the
-- size needs blocks, the allocation succeeds: it returns the address of the first block of a free
-- run, marks exactly the entries of that run, and leaves all others alone. The blocks hold the size,
-- with less than one block to spare.
pub malloc-Allocated :
    (heap : Heap) (size : ℕ)
    → 0 < size
    → size ≤ 2 ^ 32 - 4096
    → has_run (blocks size) heap.table.entries ≡ true
    → Allocated heap (blocks size) (malloc heap size)
      × (size ≤ blocks size * block_size)
      × (blocks size * block_size < size + block_size)
unfolding malloc
malloc-Allocated heap size p q h = (
  rw (align_value_to_upper-blocks size q, blocks-suc size p)
      (malloc_blocks-Run heap (blocks size - 1) (rw (blocks-suc size p) at h)),
  omega arith,
  omega arith,
)

malloc_short :
    (heap : Heap) (size b : ℕ)
    → 0 < size
    → size ≤ 2 ^ 32 - 4096
    → has_run (blocks size) heap.table.entries ≡ false
    → first_place (blocks size) heap.table.entries 0 ≡ some b
    → malloc heap size ≡ none
unfolding malloc
malloc_short heap size b p q h f =
    rw (align_value_to_upper-blocks size q, blocks-suc size p)
      (malloc_blocks_overrun heap (blocks size - 1) b (rw (blocks-suc size p) at f) (
        first_place-Short (suc (blocks size - 1)) heap.table.entries 0 b
          (rw (blocks-suc size p) at h) (rw (blocks-suc size p) at f)))

-- For a size from 1 to 2 ^ 32 - 4096 that no run of free entries can hold, while the last entry of
-- the table is free, the allocation does not report that memory is exhausted: it writes outside the
-- table.
pub malloc_overrun :
    (heap : Heap) (size x : ℕ) (pre : List ℕ)
    → 0 < size
    → size ≤ 2 ^ 32 - 4096
    → has_run (blocks size) heap.table.entries ≡ false
    → heap.table.entries ≡ pre ++ x ∷ []
    → is_free x ≡ true
    → malloc heap size ≡ none
malloc_overrun heap size x pre p q h e free =
    let (b, found) = first_place_last_free (blocks size) pre x 0 free in
    malloc_short heap size b p q h (rw e found)

-- For a size from 1 to 2 ^ 32 - 4096 that no run of free entries can hold, while the last entry of
-- the table is taken, the allocation returns the null pointer and leaves the heap as it was.
pub malloc_exhausted :
    (heap : Heap) (size x : ℕ) (pre : List ℕ)
    → 0 < size
    → size ≤ 2 ^ 32 - 4096
    → has_run (blocks size) heap.table.entries ≡ false
    → heap.table.entries ≡ pre ++ x ∷ []
    → is_free x ≡ false
    → malloc heap size ≡ some (0, heap)
unfolding malloc malloc_blocks
malloc_exhausted heap size x pre p q h e taken =
    rw (align_value_to_upper-blocks size q, malloc_blocks, exhausted)
  where
    nowhere : first_place (blocks size) heap.table.entries 0 ≡ none
    nowhere = rw e (first_place_last_taken (blocks size) pre x 0 taken (rw e at h))

    exhausted : get_start_block heap (blocks size) ≡ err Status.enomem
    exhausted = get_start_block-first_place heap (blocks size) (omega arith) ∙ (rw nowhere)

align_value_to_upper-wraps :
    (size : ℕ) → 2 ^ 32 - 4096 < size → size < 2 ^ 32 → align_value_to_upper size / block_size ≡ 0
unfolding align_value_to_upper
align_value_to_upper-wraps size p q = ground arith

-- For a size above 2 ^ 32 - 4096 the rounding wraps to no block at all: the allocation marks no
-- entry, whatever address it returns.
pub malloc_wraps :
    (heap : Heap) (size : ℕ)
    → 2 ^ 32 - 4096 < size
    → size < 2 ^ 32
    → (address : ℕ) × (malloc heap size ≡ some (address, heap))
unfolding malloc malloc_blocks mark_blocks_taken mark_loop
malloc_wraps heap size p q =
    rw (align_value_to_upper-wraps size p q) (no_blocks (get_start_block heap 0) refl)
  where
    no_blocks :
        (r : Result ℕ)
        → get_start_block heap 0 ≡ r
        → (address : ℕ) × (malloc_blocks heap 0 ≡ some (address, heap))
    no_blocks (ok b) e = (block_to_address heap b, rw (e, malloc_blocks))
    no_blocks (err s) e = (0, rw (e, malloc_blocks))

-- Every entry that is free is 0, with no flag left in its upper bits.
abbrev pub IsClean : List ℕ → Type 0
IsClean [] = Unit
IsClean (e ∷ es) = (is_free e ≡ true → e ≡ entry_free) × IsClean es

IsClean-append : (xs ys : List ℕ) → IsClean (xs ++ ys) → IsClean ys
IsClean-append [] ys h = h
IsClean-append (x ∷ xs) ys h = IsClean-append xs ys h.1

replicate-run :
    (run ys : List ℕ)
    → IsClean (run ++ ys)
    → all_free run ≡ true
    → replicate (length run) entry_free ≡ run
replicate-run [] ys h f = refl
replicate-run (x ∷ run) ys h f =
    ground (arith, h.0 (ground arith), replicate-run run ys h.1 (ground arith))

address_to_block-to_address :
    (heap : Heap) (es : List ℕ) (b : ℕ)
    → IsValid heap
    → b < heap.table.total
    → address_to_block (with_entries heap es) (block_to_address heap b) ≡ pos b
unfolding address_to_block block_to_address
address_to_block-to_address heap es b v h = ground arith

free-chain :
    (heap : Heap) (n : ℕ) (before run after : List ℕ)
    → IsValid heap
    → IsClean heap.table.entries
    → heap.table.entries ≡ before ++ (run ++ after)
    → length run ≡ suc n
    → all_free run ≡ true
    → free
        (with_entries heap (before ++ (chain (suc n) ++ after)))
        (block_to_address heap (length before))
      ≡ some heap
unfolding free
free-chain heap n before run after v clean cut size f = rw (
  free,
  same_block,
  mark_blocks_free-chain taken n before after refl (v.size ∙ same_length),
  same_entries,
)
  where
    taken : Heap
    taken = with_entries heap (before ++ (chain (suc n) ++ after))

    same_length : length heap.table.entries ≡ length (before ++ (chain (suc n) ++ after))
    same_length = rw cut (
        omega (
          arith,
          length-append before (run ++ after),
          length-append run after,
          length-append before (chain (suc n) ++ after),
          length-append (chain (suc n)) after,
          length-chain (suc n),
        ))

    inside : length before < heap.table.total
    inside = omega (
      arith,
      v.size,
      ap (length {0}) cut,
      length-append before (run ++ after),
      length-append run after,
    )

    same_block :
        address_to_block taken (block_to_address heap (length before)) ≡ pos (length before)
    same_block = address_to_block-to_address heap _ (length before) v inside

    same_entries : before ++ (replicate (suc n) entry_free ++ after) ≡ heap.table.entries
    same_entries =
        let cleared : replicate (suc n) entry_free ≡ run =
          subst (λ k. replicate k entry_free ≡ run) size
            (replicate-run run after (IsClean-append before _ (subst IsClean cut clean)) f) in
        ap (λ r. before ++ (r ++ after)) cleared ∙ sym cut

-- In a valid heap whose free entries are 0, an allocation that a run of free entries can hold can be
-- undone: freeing the address that it returned gives back the heap as it was before.
pub free-malloc :
    (heap heap' : Heap) (size address : ℕ)
    → IsValid heap
    → IsClean heap.table.entries
    → 0 < size
    → size ≤ 2 ^ 32 - 4096
    → has_run (blocks size) heap.table.entries ≡ true
    → malloc heap size ≡ some (address, heap')
    → free heap' address ≡ some heap
free-malloc heap heap' size address v clean p q h done = undo (malloc-Allocated heap size p q h).0
  where
    undo : Allocated heap (blocks size) (malloc heap size) → free heap' address ≡ some heap
    undo a =
        let same = some-pair (sym done ∙ a.returns) in
        rw (same.0, same.1)
          (rw (blocks-suc size p) (
            free-chain heap (blocks size - 1) a.before a.run a.after v clean a.cut
              (a.size ∙ blocks-suc size p) a.free))
