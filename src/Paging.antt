-- ===== src/Paging.antt =====
-- The page tables of src/memory/paging/paging.c. The memory gives the 32-bit word at an address,
-- through which the kernel reaches its tables. Addresses are below 2 ^ 32, and -1 is `negsuc 0`.
pub mod Chunk
pub mod Identity
pub mod Mapping
mod Tests
use vana.Prelude.{
  ℕ, zero, suc, ◌+◌, ◌-◌, ◌*◌, ◌/◌, ◌%◌, ◌^◌, bit_or, Bool, true, false, not, ◌||◌, ℤ, pos, negsuc,
  ltb, ◌==◌, if◌then◌else◌,
}

abbrev pub Memory : Type 0
Memory = ℕ → ℕ

abbrev pub store : Memory → ℕ → ℕ → Memory
store mem address val a = if a == address then val else mem a

abbrev pub total_entries : ℕ
total_entries = 1024

abbrev pub page_size : ℕ
page_size = 4096

unfoldable pub is_aligned : ℕ → Bool
is_aligned addr = addr % page_size == 0

-- The result, and the indexes, which are 0 before they are set.
unfoldable pub get_indexes : ℕ → ℤ × ℕ × ℕ
get_indexes virtual_address =
    if is_aligned virtual_address
    then (
      pos 0,
      virtual_address / (total_entries * page_size),
      virtual_address % (total_entries * page_size) / page_size,
    )
    else (negsuc 0, 0, 0)

unfoldable pub align_address : ℕ → ℕ
align_address ptr =
    if ptr % page_size == 0 then ptr else (ptr + page_size - ptr % page_size) % 2 ^ 32

unfoldable pub align_to_lower_page : ℕ → ℕ
align_to_lower_page addr = addr - addr % page_size

-- The table that an entry of a directory points to: `entry & 0xfffff000`.
unfoldable pub table_of : ℕ → ℕ
table_of entry = entry / page_size * page_size

-- The address of an entry of a table, words of 4 bytes.
unfoldable pub entry_at : ℕ → ℕ → ℕ
entry_at table index = table + 4 * index

unfoldable pub set_page : ℕ → ℕ → ℕ → Memory → ℤ × Memory
set_page directory virt val mem =
    let (res, directory_index, table_index) = get_indexes virt in
    let entry = mem (entry_at directory directory_index) in
    if is_aligned virt
    then (pos 0, store mem (entry_at (table_of entry) table_index) val)
    else (negsuc 0, mem)

-- The result of `paging_get_indexes` is not tested here.
unfoldable pub get_page : ℕ → ℕ → Memory → ℕ
get_page directory virt mem =
    let (res, directory_index, table_index) = get_indexes virt in
    let entry = mem (entry_at directory directory_index) in
    mem (entry_at (table_of entry) table_index)

unfoldable pub map_page : ℕ → ℕ → ℕ → ℕ → Memory → ℤ × Memory
map_page directory virt phys flags mem =
    if not (virt % page_size == 0) || not (phys % page_size == 0)
    then (negsuc 0, mem)
    else set_page directory virt (bit_or phys flags) mem

unfoldable pub is_failure : ℤ → Bool
is_failure (pos n) = false
is_failure (negsuc n) = true

-- `res` is the result of the round before.
unfoldable pub map_range : ℕ → ℕ → ℕ → ℕ → ℕ → ℤ → Memory → ℤ × Memory
map_range directory virt phys zero flags res mem = (res, mem)
map_range directory virt phys (suc count) flags res mem =
    let (res', mem') = map_page directory virt phys flags mem in
    let rest =
      map_range directory ((virt + page_size) % 2 ^ 32) ((phys + page_size) % 2 ^ 32) count flags
        res' mem' in
    if is_failure res' then (res', mem') else rest

unfoldable pub map_to : ℕ → ℕ → ℕ → ℕ → ℕ → Memory → ℤ × Memory
map_to directory virt phys phys_end flags mem =
    let total_pages = (phys_end - phys) / page_size in
    if not (virt % page_size == 0)
    then (negsuc 0, mem)
    else if not (phys % page_size == 0)
    then (negsuc 0, mem)
    else if not (phys_end % page_size == 0)
    then (negsuc 0, mem)
    else if ltb phys_end phys
    then (negsuc 0, mem)
    else map_range directory virt phys total_pages flags (pos 0) mem

unfoldable pub get_physical_address : ℕ → ℕ → Memory → ℕ
get_physical_address directory virt mem =
    let virt_addr_new = align_to_lower_page virt in
    (table_of (get_page directory virt_addr_new mem) + (virt - virt_addr_new)) % 2 ^ 32
