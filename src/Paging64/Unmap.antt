-- ===== src/Paging64/Unmap.antt =====
-- What is left of a page's translation, and of the others', when the page is unmapped.
use vana.Prelude.{
  ℕ, ◌/◌, ◌≡◌, ◌≢◌, ◌⊎◌, inl, inr, refl, ap, ◌∙◌, arith, pos, negsuc, true, false, Bool-cases,
  ==_ne, ==_refl,
}
use vana.Paging64.{
  Paging64, store, entry_at, is_present, phys_to_virt, table_behind, has_table, pml4_index,
  pdpt_index, pd_index, pt_index, pdpt_of, pd_of, pt_of, has_pt, in_direct_map, virt_to_phys, unmap,
  page_size,
}

-- The three entries on the way to a page's last table are not at the address.
pub record Apart (virt address : ℕ) (s : Paging64) : Type 0 where
  pub first : entry_at s.pml4 (pml4_index virt) ≢ address
  pub second : entry_at (pdpt_of virt s) (pdpt_index virt) ≢ address
  pub third : entry_at (pd_of virt s) (pd_index virt) ≢ address

-- The address of a page's last entry.
abbrev pub last_entry : ℕ → Paging64 → ℕ
last_entry virt s = entry_at (pt_of virt s) (pt_index virt)

store_other :
    (s : Paging64) (address val x : ℕ) → x ≢ address → (store address val s).memory x ≡ s.memory x
unfolding store
store_other s address val x n = rw (==_ne x address n) refl

pub store_here : (s : Paging64) (address val : ℕ) → (store address val s).memory address ≡ val
unfolding store
store_here s address val = rw (==_refl address) refl

module _ (s : Paging64) (address val virt : ℕ) where
  behind :
      (table i : ℕ)
      → entry_at table i ≢ address
      → table_behind table i (store address val s) ≡ table_behind table i s
  unfolding table_behind phys_to_virt store
  behind table i n = rw (==_ne (entry_at table i) address n) refl

  has :
      (table i : ℕ)
      → entry_at table i ≢ address
      → has_table table i (store address val s) ≡ has_table table i s
  unfolding has_table
  has table i n = ap is_present (store_other s address val (entry_at table i) n)

  module _ (a : Apart virt address s) where
    same_pdpt : pdpt_of virt (store address val s) ≡ pdpt_of virt s
    unfolding pdpt_of store
    same_pdpt = behind s.pml4 (pml4_index virt) a.first

    same_pd : pd_of virt (store address val s) ≡ pd_of virt s
    unfolding pd_of
    same_pd =
        ap (λ t. table_behind t (pdpt_index virt) (store address val s)) same_pdpt
        ∙ behind (pdpt_of virt s) (pdpt_index virt) a.second

    pub same_pt : pt_of virt (store address val s) ≡ pt_of virt s
    unfolding pt_of
    same_pt =
        ap (λ t. table_behind t (pd_index virt) (store address val s)) same_pd
        ∙ behind (pd_of virt s) (pd_index virt) a.third

    pub same_has : has_pt virt (store address val s) ≡ has_pt virt s
    unfolding has_pt store
    same_has =
        rw
          (
            same_pdpt,
            same_pd,
            has s.pml4 (pml4_index virt) a.first,
            has (pdpt_of virt s) (pdpt_index virt) a.second,
            has (pd_of virt s) (pd_index virt) a.third,
          )
          refl

no_table :
    (virt : ℕ) (s : Paging64)
    → in_direct_map virt s ≡ false
    → has_pt virt s ≡ false
    → virt_to_phys virt s ≡ 0
unfolding virt_to_phys
no_table virt s d h = rw (d, h) refl

no_entry :
    (virt : ℕ) (s : Paging64)
    → in_direct_map virt s ≡ false
    → s.memory (last_entry virt s) ≡ 0
    → virt_to_phys virt s ≡ 0
unfolding virt_to_phys is_present
no_entry virt s d h = elim (Bool-cases (has_pt virt s)) [
  | inl e ↦ rw (d, e, h) refl
  | inr e ↦ rw (d, e) refl
]

pub same_entry :
    (v virt : ℕ) (s : Paging64)
    → v / page_size ≡ virt / page_size
    → last_entry v s ≡ last_entry virt s
unfolding pt_of pd_of pdpt_of
same_entry v virt s e =
    let a : pml4_index v ≡ pml4_index virt = omega arith in
    let b : pdpt_index v ≡ pdpt_index virt = omega arith in
    let c : pd_index v ≡ pd_index virt = omega arith in
    let d : pt_index v ≡ pt_index virt = omega arith in rw (a, b, c, d) refl

pub same_tables :
    (v virt : ℕ) (s : Paging64) → v / page_size ≡ virt / page_size → has_pt v s ≡ has_pt virt s
unfolding has_pt pd_of pdpt_of
same_tables v virt s e =
    let a : pml4_index v ≡ pml4_index virt = omega arith in
    let b : pdpt_index v ≡ pdpt_index virt = omega arith in
    let c : pd_index v ≡ pd_index virt = omega arith in rw (a, b, c) refl

pub Apart-page :
    (v virt address : ℕ) (s : Paging64)
    → v / page_size ≡ virt / page_size
    → Apart virt address s
    → Apart v address s
unfolding pd_of pdpt_of
Apart-page v virt address s e h =
    let a : pml4_index v ≡ pml4_index virt = omega arith in
    let b : pdpt_index v ≡ pdpt_index virt = omega arith in
    let c : pd_index v ≡ pd_index virt = omega arith in
    record { first = rw a h.first; second = rw (a, b) h.second; third = rw (a, b, c) h.third }

module _ (s : Paging64) (address val v : ℕ) (a : Apart v address s) where
  pub direct_same : in_direct_map v (store address val s) ≡ in_direct_map v s
  unfolding in_direct_map store
  direct_same = refl

  -- The translation of an address after a write to its last entry, or to no entry of its way.
  pub translated_same :
      last_entry v s ≢ address → virt_to_phys v (store address val s) ≡ virt_to_phys v s
  unfolding virt_to_phys store
  translated_same n =
      rw
        (
          direct_same,
          same_has s address val v a,
          same_pt s address val v a,
          store_other s address val (last_entry v s) n,
        )
        refl

  cleared_entry :
      val ≡ 0
      → last_entry v s ≡ address
      → (store address val s).memory (last_entry v (store address val s)) ≡ 0
  cleared_entry z e =
      ap (λ t. (store address val s).memory (entry_at t (pt_index v))) (same_pt s address val v a)
      ∙ ap (store address val s).memory e
      ∙ store_here s address val
      ∙ z

-- When the tables of a page do not contain one another's entries, `unmap` either clears the page's
-- entry and returns 0, where the page has a last table, or returns -1 and changes nothing. In
-- both cases no address of the page outside of the direct map is translated any more, and every
-- address whose entries are at other places is translated as before.
pub unmap-virt_to_phys :
    (virt : ℕ) (s : Paging64)
    → Apart virt (last_entry virt s) s
    → let (res, s') = unmap virt s in
      (((res ≡ pos 0) × (has_pt virt s ≡ true) × (s'.memory (last_entry virt s) ≡ 0))
        ⊎ ((res ≡ negsuc 0) × (has_pt virt s ≡ false) × (s' ≡ s)))
      × ((v : ℕ)
          → v / page_size ≡ virt / page_size
          → in_direct_map v s ≡ false
          → virt_to_phys v s' ≡ 0)
      × ((v : ℕ)
          → Apart v (last_entry virt s) s
          → last_entry v s ≢ last_entry virt s
          → virt_to_phys v s' ≡ virt_to_phys v s)
unfolding unmap
unmap-virt_to_phys virt s a = elim (Bool-cases (has_pt virt s)) [
  | inl e ↦ rw e (
    inl (refl, refl, store_here s (last_entry virt s) 0),
    λ v p d.
        let b = Apart-page v virt (last_entry virt s) s p a in
        no_entry v (store (last_entry virt s) 0 s) (direct_same s (last_entry virt s) 0 v b ∙ d)
          (cleared_entry s (last_entry virt s) 0 v b refl (same_entry v virt s p)),
    λ v b n. translated_same s (last_entry virt s) 0 v b n,
  )
  | inr e ↦
      rw e (
        inr (refl, refl, refl),
        λ v p d. no_table v s d (same_tables v virt s p ∙ e),
        λ v b n. refl,
      )
]
