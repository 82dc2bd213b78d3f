-- ===== src/Paging/Chunk.antt =====
-- Page directories of src/memory/paging/paging.c: a new one on the kernel's heap, and its end. No
-- result of the heap is tested: with the null pointer the words from the address 0 on are written.
use vana.Prelude.{ℕ, zero, suc, ◌+◌, ◌*◌, ◌%◌, ◌^◌, bit_or, Option, some, ◌>>=◌}
use vana.Paging.{Memory, store, total_entries, page_size, table_of, entry_at}
use vana.Kheap.{Machine, kzalloc, kfree}

abbrev pub is_writeable : ℕ
is_writeable = 0b10

-- `n` entries of a table are left, from the index `b` on; `offset` is the first address.
unfoldable pub fill_loop : ℕ → ℕ → ℕ → ℕ → ℕ → Memory → Memory
fill_loop zero b entry offset flags mem = mem
fill_loop (suc n) b entry offset flags mem =
    fill_loop n (b + 1) entry offset flags
      (store mem (entry_at entry b) (bit_or ((offset + b * page_size) % 2 ^ 32) flags))

-- `n` tables are left, from the index `i` on.
unfoldable pub tables_loop : ℕ → ℕ → ℕ → ℕ → ℕ → Machine → Option Machine
tables_loop zero i offset directory flags m = some m
tables_loop (suc n) i offset directory flags m = do
  (entry, m1) ← kzalloc (4 * total_entries) m
  let filled = fill_loop total_entries 0 entry offset flags m1.memory
  let word = bit_or (bit_or entry flags) is_writeable
  let m2 : Machine = record m1 { memory = store filled (entry_at directory i) word }
  tables_loop n (i + 1) ((offset + total_entries * page_size) % 2 ^ 32) directory flags m2

-- The address of the chunk, whose only word is that of the directory.
unfoldable pub paging_new_4gb : ℕ → Machine → Option (ℕ × Machine)
paging_new_4gb flags m = do
  (directory, m1) ← kzalloc (4 * total_entries) m
  m2 ← tables_loop total_entries 0 0 directory flags m1
  (chunk, m3) ← kzalloc 4 m2
  some (chunk, record m3 { memory = store m3.memory chunk directory })

unfoldable pub free_tables : ℕ → ℕ → ℕ → Machine → Option Machine
free_tables zero i directory m = some m
free_tables (suc n) i directory m = do
  m' ← kfree (table_of (m.memory (entry_at directory i))) m
  free_tables n (i + 1) directory m'

unfoldable pub paging_free_4gb : ℕ → Machine → Option Machine
paging_free_4gb chunk m = do
  m1 ← free_tables total_entries 0 (m.memory chunk) m
  m2 ← kfree (m1.memory chunk) m1
  kfree chunk m2
