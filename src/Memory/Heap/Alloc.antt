-- ===== src/Memory/Heap/Alloc.antt =====
-- `heap_malloc` and `heap_free` as their callers see them.
use vana.Prelude.{
  ℕ, zero, suc, ◌+◌, ◌-◌, ◌*◌, ◌/◌, ◌^◌, ◌≤◌, ◌<◌, ◌≡◌, ap, ◌∙◌, true, Option, none, some, List,
  ◌++◌, arith, ok, length, set, length-append, length-set,
}
use vana.Memory.Heap.{
  Heap, next_entry, block_size, mark_loop, mark_blocks_taken, get_start_block, malloc_blocks,
  align_value_to_upper, block_to_address,
}
use vana.Memory.Heap.Scan.{all_free, first_place, get_start_block-first_place}
use vana.Memory.Heap.Runs.{Found, Short, Run, has_run, first_place-Run}
use vana.Memory.Heap.Chains.{chain, with_entries, mark_blocks_taken-chain}

-- The table has one entry for each block, and the blocks lie below 2 ^ 32, in less than 2 ^ 31 bytes.
pub record IsValid (heap : Heap) : Type 0 where
  pub size : heap.table.total ≡ length heap.table.entries
  pub in_memory : heap.saddr + heap.table.total * block_size < 2 ^ 32
  pub in_int : heap.table.total * block_size < 2 ^ 31

-- The number of blocks that hold `size` bytes.
abbrev pub blocks : ℕ → ℕ
blocks size = (size + 4095) / block_size

pub align_value_to_upper-blocks :
    (size : ℕ) → size ≤ 2 ^ 32 - 4096 → align_value_to_upper size / block_size ≡ blocks size
unfolding align_value_to_upper
align_value_to_upper-blocks size h = ground arith

-- What an allocation of `n` blocks has done when it succeeds.
pub record Allocated (heap : Heap) (n : ℕ) (result : Option (ℕ × Heap)) : Type 0 where
  pub before : List ℕ
  pub run : List ℕ
  pub after : List ℕ
  pub cut : heap.table.entries ≡ before ++ (run ++ after)
  pub size : length run ≡ n
  pub free : all_free run ≡ true
  pub returns :
      result
      ≡ some
          (block_to_address heap (length before), with_entries heap (before ++ (chain n ++ after)))

start_at :
    (heap : Heap) (n b : ℕ)
    → first_place (suc n) heap.table.entries 0 ≡ some b
    → get_start_block heap (suc n) ≡ ok b
start_at heap n b found = get_start_block-first_place heap (suc n) (omega arith) ∙ (rw found)

malloc_blocks_at :
    (heap : Heap) (n b : ℕ) (p : Found (suc n) heap.table.entries 0 b)
    → first_place (suc n) heap.table.entries 0 ≡ some b
    → Run (suc n) p.after
    → Allocated heap (suc n) (malloc_blocks heap (suc n))
unfolding malloc_blocks
malloc_blocks_at heap n b p found r =
    let cut : heap.table.entries ≡ p.before ++ (r.run ++ r.rest) =
      p.cut ∙ ap (λ t. p.before ++ t) r.cut in
    let here : b ≡ length p.before = omega (arith, p.at) in
    record {
      before = p.before;
      run = r.run;
      after = r.rest;
      cut = cut;
      size = r.size;
      free = r.free;
      returns =
          rw (start_at heap n b found, malloc_blocks)
            (rw (here, mark_blocks_taken-chain heap n p.before r.run r.rest cut r.size));
    }

pub malloc_blocks-Run :
    (heap : Heap) (n : ℕ)
    → has_run (suc n) heap.table.entries ≡ true
    → Allocated heap (suc n) (malloc_blocks heap (suc n))
malloc_blocks-Run heap n h =
    let (b, p, found, r) = first_place-Run (suc n) heap.table.entries 0 (omega arith) h in
    malloc_blocks_at heap n b p found r

-- A loop that has more rounds left than the table has entries leaves the table.
mark_loop_overrun :
    (n i end_block entry : ℕ) (entries : List ℕ)
    → i ≤ length entries
    → length entries < i + n
    → mark_loop n i end_block entry entries ≡ none
unfolding mark_loop
mark_loop_overrun zero i end_block entry entries h k = absurd (omega arith)
mark_loop_overrun (suc n) i end_block entry entries h k = ground (
  arith,
  length-set entries i entry,
  mark_loop_overrun n (i + 1) end_block (next_entry i end_block) (set entries i entry),
)

pub malloc_blocks_overrun :
    (heap : Heap) (n b : ℕ)
    → first_place (suc n) heap.table.entries 0 ≡ some b
    → Short (suc n) heap.table.entries 0 b
    → malloc_blocks heap (suc n) ≡ none
unfolding malloc_blocks mark_blocks_taken
malloc_blocks_overrun heap n b found s =
    let size : length heap.table.entries ≡ length s.place.before + length s.place.after =
      rw s.place.cut (length-append s.place.before s.place.after) in
    rw (
      start_at heap n b found,
      malloc_blocks,
      mark_blocks_taken,
      mark_loop_overrun (suc n) b _ _ heap.table.entries (omega (arith, size, s.place.at))
          (omega (arith, size, s.place.at, s.short)),
    )
