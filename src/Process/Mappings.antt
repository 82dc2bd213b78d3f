-- ===== src/Process/Mappings.antt =====
-- Ranges of pages: when mapping one succeeds.
use vana.Prelude.{ℕ, zero, suc, ◌+◌, ◌-◌, ◌%◌, ◌/◌, ◌^◌, ◌≤◌, ◌≡◌, refl, pos, arith, le→ltb}
use vana.Paging.{
  Memory, page_size, is_aligned, get_indexes, set_page, map_page, map_range, map_to, is_failure,
}

next_page : (virt : ℕ) → virt % page_size ≡ 0 → (virt + page_size) % 2 ^ 32 % page_size ≡ 0
next_page virt h = grind arith

set_page-ok :
    (directory virt val : ℕ) (mem : Memory)
    → virt % page_size ≡ 0
    → (set_page directory virt val mem).0 ≡ pos 0
unfolding set_page is_aligned get_indexes
set_page-ok directory virt val mem h = rw h refl

map_page-ok :
    (directory virt phys flags : ℕ) (mem : Memory)
    → virt % page_size ≡ 0
    → phys % page_size ≡ 0
    → (map_page directory virt phys flags mem).0 ≡ pos 0
unfolding map_page set_page is_aligned
map_page-ok directory virt phys flags mem h k = rw (h, k) refl

map_range-ok :
    (count directory virt phys flags : ℕ) (mem : Memory)
    → virt % page_size ≡ 0
    → phys % page_size ≡ 0
    → (map_range directory virt phys count flags (pos 0) mem).0 ≡ pos 0
unfolding map_range is_failure
map_range-ok zero directory virt phys flags mem h k = refl
map_range-ok (suc count) directory virt phys flags mem h k =
    rw (map_page-ok directory virt phys flags mem h k) (
      map_range-ok count directory ((virt + page_size) % 2 ^ 32) ((phys + page_size) % 2 ^ 32) flags
        (map_page directory virt phys flags mem).1 (next_page virt h) (next_page phys k))

-- A range of whole pages is mapped.
pub map_to-ok :
    (directory ptr end flags : ℕ) (mem : Memory)
    → ptr % page_size ≡ 0
    → end % page_size ≡ 0
    → ptr ≤ end
    → (map_to directory ptr ptr end flags mem).0 ≡ pos 0
unfolding map_to
map_to-ok directory ptr end flags mem h k l =
    rw (h, k, le→ltb end ptr l)
      (map_range-ok ((end - ptr) / page_size) directory ptr ptr flags mem h h)
