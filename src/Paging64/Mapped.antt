-- ===== src/Paging64/Mapped.antt =====
-- The translation of a page that is mapped where its tables are there.
use vana.Prelude.{
  ℕ, ◌+◌, ◌*◌, ◌/◌, ◌%◌, ◌^◌, ◌≡◌, ◌≢◌, refl, ap, ◌∙◌, arith, pos, Bool, true, false, ◌&&◌, bit_or,
  bit_or-high, bit_or-odd, bit_or-page, ==_refl,
}
use vana.Paging64.{
  Paging64, store, entry_at, is_present, frame_of, table_behind, has_table, pml4_index, pdpt_index,
  pd_index, pt_index, pdpt_of, pd_of, pt_of, has_pt, in_direct_map, virt_to_phys, ensure_table,
  map_page, page_size, pte_p, pte_nx,
}
use vana.Paging64.Unmap.{
  Apart, last_entry, store_here, same_has, same_pt, same_entry, same_tables, Apart-page,
  direct_same, translated_same,
}

abbrev entry_of : ℕ → ℕ → ℕ
entry_of phys flags = bit_or (bit_or (frame_of phys) (flags % page_size)) pte_p

frame_of-aligned : (phys : ℕ) → frame_of phys % page_size ≡ 0
unfolding frame_of
frame_of-aligned phys = omega arith

frame_of-entry : (phys flags : ℕ) → frame_of (entry_of phys flags) ≡ frame_of phys
unfolding frame_of
frame_of-entry phys flags =
    let f = phys % 2 ^ 52 / page_size * page_size in
    let high =
      bit_or-high (bit_or f (flags % page_size)) 1 (omega arith)
      ∙ bit_or-high f (flags % page_size) (omega arith) in
    omega (arith, high)

is_present-entry : (phys flags : ℕ) → is_present (entry_of phys flags) ≡ true
unfolding is_present
is_present-entry phys flags =
    rw (bit_or-odd (bit_or (frame_of phys) (flags % page_size))) (==_refl 1)

and_left : (a b : Bool) → (a && b) ≡ true → a ≡ true
and_left true b h = refl
and_left false b h = h

and_right : (a b : Bool) → (a && b) ≡ true → b ≡ true
and_right true b h = h
and_right false b h = absurd cc

ensured : (table i : ℕ) (s : Paging64) → has_table table i s ≡ true → ensure_table table i s ≡ s
unfolding ensure_table
ensured table i s h = rw h refl

-- A page whose tables are there gets its entry, and nothing else changes.
map_page-entry :
    (virt phys flags : ℕ) (s : Paging64)
    → has_pt virt s ≡ true
    → map_page virt phys flags s ≡ (pos 0, store (last_entry virt s) (entry_of phys flags) s)
unfolding map_page has_pt pd_of pt_of
map_page-entry virt phys flags s h =
    let first = and_left (has_table s.pml4 (pml4_index virt) s) _ h in
    let rest = and_right (has_table s.pml4 (pml4_index virt) s) _ h in
    let second = and_left (has_table (pdpt_of virt s) (pdpt_index virt) s) _ rest in
    let third = and_right (has_table (pdpt_of virt s) (pdpt_index virt) s) _ rest in
    rw
      (
        ensured s.pml4 (pml4_index virt) s first,
        ensured (pdpt_of virt s) (pdpt_index virt) s second,
        ensured (table_behind (pdpt_of virt s) (pdpt_index virt) s) (pd_index virt) s third,
      )
      refl

module _ (s : Paging64) (address val v : ℕ) (a : Apart v address s)
    (e : last_entry v s ≡ address) where
  read_back : (store address val s).memory (last_entry v (store address val s)) ≡ val
  read_back =
      ap (λ t. (store address val s).memory (entry_at t (pt_index v))) (same_pt s address val v a)
      ∙ ap (store address val s).memory e
      ∙ store_here s address val

  translated :
      in_direct_map v s ≡ false
      → has_pt v s ≡ true
      → is_present val ≡ true
      → virt_to_phys v (store address val s) ≡ bit_or (frame_of val) (v % page_size)
  unfolding virt_to_phys
  translated d h q =
      rw (direct_same s address val v a, d, same_has s address val v a, h, read_back, q) refl

-- Where a page has its tables, and these do not contain one another's entries, `map_page` returns 0
-- and maps the page to a frame: outside of the direct map the addresses of the page are translated
-- to those of the frame, and every address whose entries are at other places as before. The
-- no-execute flag is lost: with it and without it the same is mapped.
pub map_page-virt_to_phys :
    (virt phys flags : ℕ) (s : Paging64)
    → has_pt virt s ≡ true
    → Apart virt (last_entry virt s) s
    → let (res, s') = map_page virt phys flags s in
      (res ≡ pos 0)
      × ((v : ℕ)
          → v / page_size ≡ virt / page_size
          → in_direct_map v s ≡ false
          → virt_to_phys v s' ≡ frame_of phys + v % page_size)
      × ((v : ℕ)
          → Apart v (last_entry virt s) s
          → last_entry v s ≢ last_entry virt s
          → virt_to_phys v s' ≡ virt_to_phys v s)
      × (map_page virt phys (flags + pte_nx) s ≡ map_page virt phys flags s)
map_page-virt_to_phys virt phys flags s h a =
    let at = last_entry virt s in
    let word = entry_of phys flags in
    let cut : (flags + pte_nx) % page_size ≡ flags % page_size = omega arith in
    rw (map_page-entry virt phys flags s h, map_page-entry virt phys (flags + pte_nx) s h)
      (
        refl,
        λ v p d.
            let b = Apart-page v virt at s p a in
            translated s at word v b (same_entry v virt s p) d (same_tables v virt s p ∙ h)
              (is_present-entry phys flags)
            ∙ ap (λ f. bit_or f (v % page_size)) (frame_of-entry phys flags)
            ∙ bit_or-page (frame_of phys) (v % page_size) (frame_of-aligned phys) (omega arith),
        λ v b n. translated_same s at word v b n,
        rw cut refl,
      )
