-- ===== src/Paging64/Tests.antt =====
-- Four tables behind the direct map, and the theorems at a page that they map.
use vana.Prelude.{
  ℕ, ◌+◌, ◌/◌, ◌%◌, ◌≡◌, ◌≢◌, ◌⊎◌, refl, arith, pos, negsuc, true, false, ◌==◌, if◌then◌else◌,
}
use vana.Paging64.{
  Paging64, page_size, pte_nx, frame_of, is_present, entry_at, phys_to_virt, table_behind,
  has_table, pdpt_of, pd_of, pt_of, has_pt, in_direct_map, virt_to_phys, map_page, unmap,
}
use vana.Paging64.Unmap.{Apart, last_entry, unmap-virt_to_phys}
use vana.Paging64.Mapped.{map_page-virt_to_phys}

-- The tables are at the addresses 0x200000, 0x201000, 0x202000 and 0x203000, and the page at 4 MiB
-- is mapped to the frame 0x9000.
abbrev tables : Paging64
tables = record {
  hhdm_offset = 0xffff800000000000;
  next_free_phys = 0x204000;
  pml4 = 0xffff800000200000;
  memory = λ a.
      if a == 0xffff800000200000
      then 0x201003
      else if a == 0xffff800000201000
      then 0x202003
      else if a == 0xffff800000202010
      then 0x203003
      else if a == 0xffff800000203000
      then 0x9001
      else 0;
}

first_table : pdpt_of 0x400000 tables ≡ 0xffff800000201000
unfolding pdpt_of table_behind phys_to_virt frame_of entry_at
first_table = refl

second_table : pd_of 0x400000 tables ≡ 0xffff800000202000
unfolding pd_of pdpt_of table_behind phys_to_virt frame_of entry_at
second_table = refl

last : last_entry 0x400000 tables ≡ 0xffff800000203000
unfolding pt_of pd_of pdpt_of table_behind phys_to_virt frame_of entry_at
last = refl

mapped : has_pt 0x400000 tables ≡ true
unfolding has_pt has_table is_present pd_of pdpt_of table_behind phys_to_virt frame_of entry_at
mapped = refl

frame : virt_to_phys 0x400007 tables ≡ 0x9007
unfolding virt_to_phys in_direct_map has_pt has_table is_present pt_of pd_of pdpt_of table_behind
    phys_to_virt frame_of entry_at
frame = refl

tables-Apart : Apart 0x400000 (last_entry 0x400000 tables) tables
unfolding entry_at
tables-Apart = record {
  first = rw last (λ e. omega arith);
  second = rw (last, first_table) (λ e. omega arith);
  third = rw (last, second_table) (λ e. omega arith);
}

unmap-virt_to_phys_example :
    let (res, s') = unmap 0x400000 tables in
    (((res ≡ pos 0)
        × (has_pt 0x400000 tables ≡ true)
        × (s'.memory (last_entry 0x400000 tables) ≡ 0))
      ⊎ ((res ≡ negsuc 0) × (has_pt 0x400000 tables ≡ false) × (s' ≡ tables)))
    × ((v : ℕ)
        → v / page_size ≡ 0x400000 / page_size
        → in_direct_map v tables ≡ false
        → virt_to_phys v s' ≡ 0)
    × ((v : ℕ)
        → Apart v (last_entry 0x400000 tables) tables
        → last_entry v tables ≢ last_entry 0x400000 tables
        → virt_to_phys v s' ≡ virt_to_phys v tables)
unmap-virt_to_phys_example = unmap-virt_to_phys 0x400000 tables tables-Apart

map_page-virt_to_phys_example :
    let (res, s') = map_page 0x400000 0x7000 2 tables in
    (res ≡ pos 0)
    × ((v : ℕ)
        → v / page_size ≡ 0x400000 / page_size
        → in_direct_map v tables ≡ false
        → virt_to_phys v s' ≡ frame_of 0x7000 + v % page_size)
    × ((v : ℕ)
        → Apart v (last_entry 0x400000 tables) tables
        → last_entry v tables ≢ last_entry 0x400000 tables
        → virt_to_phys v s' ≡ virt_to_phys v tables)
    × (map_page 0x400000 0x7000 (2 + pte_nx) tables ≡ map_page 0x400000 0x7000 2 tables)
map_page-virt_to_phys_example = map_page-virt_to_phys 0x400000 0x7000 2 tables mapped tables-Apart
