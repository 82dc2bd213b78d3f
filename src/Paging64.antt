-- ===== src/Paging64.antt =====
-- The page tables of four levels in src/memory/paging/paging64.c. The memory gives the word of 64 bits
-- at an address, as the kernel reaches it. The loads of the processor's registers are left out.
pub mod Mapped
pub mod Unmap
mod Tests
use vana.Prelude.{
  ℕ, zero, suc, ◌+◌, ◌-◌, ◌*◌, ◌/◌, ◌%◌, ◌^◌, bit_or, Bool, not, ◌&&◌, ◌||◌, ℤ, pos, negsuc, ltb,
  leb, ◌==◌, if◌then◌else◌,
}

-- The globals of paging64.c, and the memory.
pub record Paging64 : Type 0 where
  pub hhdm_offset : ℕ
  pub next_free_phys : ℕ
  pub pml4 : ℕ
  pub memory : ℕ → ℕ

abbrev pub page_size : ℕ
page_size = 0x1000

abbrev pub direct_map_pages : ℕ
direct_map_pages = 1_048_576

abbrev pub pte_p : ℕ
pte_p = 1

abbrev pub pte_rw : ℕ
pte_rw = 2

abbrev pub pte_nx : ℕ
pte_nx = 2 ^ 63

abbrev pub entries : ℕ
entries = 512

unfoldable pub store : ℕ → ℕ → Paging64 → Paging64
store address val s = record s { memory = λ a. if a == address then val else s.memory a }

-- An entry of a table, words of 8 bytes.
unfoldable pub entry_at : ℕ → ℕ → ℕ
entry_at table i = (table + 8 * i) % 2 ^ 64

-- `entry & PTE_P`
unfoldable pub is_present : ℕ → Bool
is_present entry = entry % 2 == 1

-- `entry & 0x000ffffffffff000`
unfoldable pub frame_of : ℕ → ℕ
frame_of entry = entry % 2 ^ 52 / page_size * page_size

unfoldable pub phys_to_virt : ℕ → Paging64 → ℕ
phys_to_virt phys s =
    if not (s.hhdm_offset == 0) && ltb phys (direct_map_pages * page_size)
    then (phys + s.hhdm_offset) % 2 ^ 64
    else phys

-- `n` words are left, from the index `i` on.
unfoldable pub clear_loop : ℕ → ℕ → ℕ → Paging64 → Paging64
clear_loop zero i ptr s = s
clear_loop (suc n) i ptr s = clear_loop n (i + 1) ptr (store (entry_at ptr i) 0 s)

unfoldable pub alloc_page_phys : Paging64 → ℕ × Paging64
alloc_page_phys s =
    let phys = s.next_free_phys in
    let s' : Paging64 = record s { next_free_phys = (phys + page_size) % 2 ^ 64 } in
    (phys, clear_loop entries 0 (phys_to_virt phys s') s')

unfoldable pub alloc_table : Paging64 → ℕ × Paging64
alloc_table s = let (phys, s') = alloc_page_phys s in (phys_to_virt phys s', s')

-- The table that an entry leads to.
unfoldable pub table_behind : ℕ → ℕ → Paging64 → ℕ
table_behind table i s = phys_to_virt (frame_of (s.memory (entry_at table i))) s

unfoldable pub has_table : ℕ → ℕ → Paging64 → Bool
has_table table i s = is_present (s.memory (entry_at table i))

abbrev pub pml4_index : ℕ → ℕ
pml4_index virt = virt / 2 ^ 39 % entries

abbrev pub pdpt_index : ℕ → ℕ
pdpt_index virt = virt / 2 ^ 30 % entries

abbrev pub pd_index : ℕ → ℕ
pd_index virt = virt / 2 ^ 21 % entries

abbrev pub pt_index : ℕ → ℕ
pt_index virt = virt / 2 ^ 12 % entries

unfoldable pub pdpt_of : ℕ → Paging64 → ℕ
pdpt_of virt s = table_behind s.pml4 (pml4_index virt) s

unfoldable pub pd_of : ℕ → Paging64 → ℕ
pd_of virt s = table_behind (pdpt_of virt s) (pdpt_index virt) s

unfoldable pub pt_of : ℕ → Paging64 → ℕ
pt_of virt s = table_behind (pd_of virt s) (pd_index virt) s

-- The tests on the way to the last table, which `virt_to_phys` and `unmap` make alike.
unfoldable pub has_pt : ℕ → Paging64 → Bool
has_pt virt s =
    has_table s.pml4 (pml4_index virt) s
    && (has_table (pdpt_of virt s) (pdpt_index virt) s
        && has_table (pd_of virt s) (pd_index virt) s)

unfoldable pub in_direct_map : ℕ → Paging64 → Bool
in_direct_map virt s =
    let hhdm_end = (s.hhdm_offset + direct_map_pages * page_size) % 2 ^ 64 in
    not (s.hhdm_offset == 0) && (leb s.hhdm_offset virt && ltb virt hhdm_end)

unfoldable pub virt_to_phys : ℕ → Paging64 → ℕ
virt_to_phys virt s =
    let entry = s.memory (entry_at (pt_of virt s) (pt_index virt)) in
    if in_direct_map virt s
    then virt - s.hhdm_offset
    else if not (has_pt virt s)
    then 0
    else if not (is_present entry)
    then 0
    else bit_or (frame_of entry) (virt % page_size)

-- The table behind an entry, made where there is none.
unfoldable pub ensure_table : ℕ → ℕ → Paging64 → Paging64
ensure_table table i s =
    let (new_table, s') = alloc_table s in
    let entry = bit_or (bit_or (virt_to_phys new_table s') pte_p) pte_rw in
    if has_table table i s then s else store (entry_at table i) entry s'

-- The result is always 0.
unfoldable pub map_page : ℕ → ℕ → ℕ → Paging64 → ℤ × Paging64
map_page virt phys flags s =
    let s1 = ensure_table s.pml4 (pml4_index virt) s in
    let pdpt = pdpt_of virt s1 in
    let s2 = ensure_table pdpt (pdpt_index virt) s1 in
    let pd = table_behind pdpt (pdpt_index virt) s2 in
    let s3 = ensure_table pd (pd_index virt) s2 in
    let pt = table_behind pd (pd_index virt) s3 in
    let entry = bit_or (bit_or (frame_of phys) (flags % page_size)) pte_p in
    (pos 0, store (entry_at pt (pt_index virt)) entry s3)

-- `count` pages are left, from the index `i` on. No page fails.
unfoldable pub map_range : ℕ → ℕ → ℕ → ℕ → ℕ → Paging64 → ℤ × Paging64
map_range zero i virt phys flags s = (pos 0, s)
map_range (suc count) i virt phys flags s =
    let (res, s') =
      map_page ((virt + i * page_size) % 2 ^ 64) ((phys + i * page_size) % 2 ^ 64) flags s in
    map_range count (i + 1) virt phys flags s'

unfoldable pub unmap : ℕ → Paging64 → ℤ × Paging64
unmap virt s =
    if has_pt virt s
    then (pos 0, store (entry_at (pt_of virt s) (pt_index virt)) 0 s)
    else (negsuc 0, s)

unfoldable pub paging64_init : ℕ → Paging64 → Paging64
paging64_init hhdm_base s =
    let (pml4, s1) = alloc_table (record s { hhdm_offset = hhdm_base }) in
    let (hhdm_pdpt, s2) = alloc_table (record s1 { pml4 = pml4 }) in
    let entry = bit_or (bit_or (virt_to_phys hhdm_pdpt s2) pte_p) pte_rw in
    let s3 = store (entry_at pml4 (pml4_index hhdm_base)) entry s2 in
    (map_range direct_map_pages 0 hhdm_base 0 (pte_rw + pte_nx) s3).1
