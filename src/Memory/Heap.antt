-- ===== src/Memory/Heap.antt =====
-- The block allocator of src/memory/heap/heap.c and heap.h. The table is a list of entry bytes; an
-- address is a number below 2 ^ 32. `none` is a write outside the table.
pub mod Alloc
pub mod Chains
pub mod Create
pub mod Laws
pub mod Null
pub mod OneBlock
pub mod Place
pub mod Release
pub mod Runs
mod Tests
pub mod Scan
use vana.Prelude.{
  ℕ, zero, suc, ◌+◌, ◌-◌, ◌*◌, ◌/◌, ◌%◌, ◌^◌, bit_or, ℤ, pos, negsuc, neg, Bool, not, ◌||◌, Option,
  none, some, List, [], ◌∷◌, Result, ok, err, Status, ◌>>=◌, ltb, ◌==◌, if◌then◌else◌, length,
  get_elem?, set,
}
use vana.Memory.{memset}

abbrev pub block_size : ℕ
block_size = 4096

abbrev pub entry_taken : ℕ
entry_taken = 0x01

abbrev pub entry_free : ℕ
entry_free = 0x00

abbrev pub has_next : ℕ
has_next = 0x80

abbrev pub is_first : ℕ
is_first = 0x40

pub record HeapTable : Type 0 where
  pub entries : List ℕ
  pub total : ℕ

pub record Heap : Type 0 where
  pub table : HeapTable
  pub saddr : ℕ

pub validate_table : ℕ → ℕ → HeapTable → Result (Unit {0})
validate_table ptr end table =
    if table.total == ((end + 2 ^ 32 - ptr) % 2 ^ 32) / block_size
    then ok tt
    else err Status.einvarg

pub validate_alignment : ℕ → Bool
validate_alignment ptr = ptr % block_size == 0

-- `memset(table->entries, FREE, table->total)` of `create`; `none` if the array is too short.
pub create : Heap → ℕ → ℕ → HeapTable → Option (Result (Unit {0}) × Heap)
create heap ptr end table =
    let wired : Heap = record { table = table; saddr = ptr } in
    let cleared : Option (Result (Unit {0}) × Heap) = (do
      entries ← memset table.entries entry_free table.total
      some (ok tt, record { table = record table { entries = entries }; saddr = ptr })) in
    if not (validate_alignment ptr) || not (validate_alignment end)
    then some (err Status.einvarg, heap)
    else elim (validate_table ptr end table) [ err e ↦ some (err e, wired) | ok _ ↦ cleared ]

pub align_value_to_upper : ℕ → ℕ
align_value_to_upper val =
    if val % block_size == 0 then val else (val - val % block_size + block_size) % 2 ^ 32

-- `entry & 0x0f`
unfoldable pub entry_type : ℕ → ℕ
entry_type entry = entry % 16

-- `entry & HEAP_BLOCK_HAS_NEXT`
unfoldable pub entry_has_next : ℕ → Bool
entry_has_next entry = (entry / has_next) % 2 == 1

-- The loop of `get_start_block` at index `i`; `bs` is `none` where the source has -1.
scan : ℕ → List ℕ → ℕ → ℕ → Option ℕ → Option ℕ
scan total_blocks [] i bc bs = bs
scan total_blocks (e ∷ es) i bc bs =
    let bs' : Option ℕ = elim bs [ none ↦ some i | some b ↦ some b ] in
    let restart = scan total_blocks es (i + 1) 0 none in
    let go_on = scan total_blocks es (i + 1) (bc + 1) bs' in
    if not (entry_type e == entry_free)
    then restart
    else if bc + 1 == total_blocks
    then bs'
    else go_on

pub get_start_block : Heap → ℕ → Result ℕ
get_start_block heap total_blocks = elim (scan total_blocks heap.table.entries 0 0 none) [
  | none ↦ err Status.enomem
  | some b ↦ ok b
]

pub block_to_address : Heap → ℕ → ℕ
block_to_address heap block = (heap.saddr + block * block_size) % 2 ^ 32

-- The entry that the loop of `mark_blocks_taken` computes for the block after `i`.
next_entry : ℕ → ℕ → ℕ
next_entry i end_block = if i + 1 == end_block then entry_taken else bit_or entry_taken has_next

-- `n` rounds are left, and the block `i` is written next.
mark_loop : ℕ → ℕ → ℕ → ℕ → List ℕ → Option (List ℕ)
mark_loop zero i end_block entry entries = some entries
mark_loop (suc n) i end_block entry entries =
    let rest = mark_loop n (i + 1) end_block (next_entry i end_block) (set entries i entry) in
    if ltb i (length entries) then rest else none

pub mark_blocks_taken : Heap → ℕ → ℕ → Option Heap
mark_blocks_taken heap start_block total_blocks = do
  let end_block = start_block + total_blocks - 1
  let first = bit_or entry_taken is_first
  let entry = if ltb 1 total_blocks then bit_or first has_next else first
  entries ← mark_loop total_blocks start_block end_block entry heap.table.entries
  some (record heap { table = record (heap.table) { entries = entries } })

-- The address of the run, 0 for the null pointer, and the heap.
pub malloc_blocks : Heap → ℕ → Option (ℕ × Heap)
malloc_blocks heap total_blocks = elim (get_start_block heap total_blocks) [
  | err e ↦ some (0, heap)
  | ok start_block ↦ do
    heap' ← mark_blocks_taken heap start_block total_blocks
    some (block_to_address heap start_block, heap')
]

-- `n` rounds are left, and the entry `i` is read next.
free_loop : ℕ → ℕ → List ℕ → Option (List ℕ)
free_loop zero i entries = some entries
free_loop (suc n) i entries =
    let cleared = set entries i entry_free in
    let rest = free_loop n (i + 1) cleared in
    elim (get_elem? entries i) [
      | none ↦ none
      | some entry ↦ if entry_has_next entry then rest else some cleared
    ]

-- A negative block is an entry before the table.
pub mark_blocks_free : Heap → ℤ → Option Heap
mark_blocks_free heap (pos starting_block) = do
  let rounds = heap.table.total - starting_block
  entries ← free_loop rounds starting_block heap.table.entries
  some (record heap { table = record (heap.table) { entries = entries } })
mark_blocks_free heap (negsuc n) = none

-- `(int)(address - saddr) / 4096`: the difference as a signed number, divided towards zero.
pub address_to_block : Heap → ℕ → ℤ
address_to_block heap address =
    let d = (address + 2 ^ 32 - heap.saddr) % 2 ^ 32 in
    if ltb d (2 ^ 31) then pos (d / block_size) else neg ((2 ^ 32 - d) / block_size)

pub malloc : Heap → ℕ → Option (ℕ × Heap)
malloc heap size = malloc_blocks heap (align_value_to_upper size / block_size)

pub free : Heap → ℕ → Option Heap
free heap ptr = mark_blocks_free heap (address_to_block heap ptr)
