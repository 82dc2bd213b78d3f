-- ===== src/Paging/Mapping.antt =====
-- Mapping a page, and the translation of the addresses in it and in the other pages.
use vana.Prelude.{
  ℕ, ◌+◌, ◌-◌, ◌*◌, ◌/◌, ◌%◌, ◌^◌, ◌<◌, ◌≡◌, ◌≢◌, refl, sym, ap, ◌∙◌, bit_or-page, pos, arith,
  ==_ne, ==_refl, true, ◌==◌,
}
use native.Mathlib.Decide.{ℕ_discrete}
use vana.Paging.{
  Memory, store, total_entries, page_size, is_aligned, get_indexes, align_to_lower_page, table_of,
  entry_at, set_page, get_page, map_page, get_physical_address,
}

-- The table of a directory's entry.
abbrev pub table_at : ℕ → Memory → ℕ → ℕ
table_at directory mem i = table_of (mem (entry_at directory i))

-- A directory on a page of its own, whose 1024 tables are different pages.
pub record IsDirectory (directory : ℕ) (mem : Memory) : Type 0 where
  pub on_page : directory % page_size ≡ 0
  pub apart : (i : ℕ) → i < total_entries → table_at directory mem i ≢ directory
  pub distinct :
      (i j : ℕ)
      → i < total_entries
      → j < total_entries
      → i ≢ j
      → table_at directory mem i ≢ table_at directory mem j

-- The address of the entry for a page.
abbrev pub entry_for : ℕ → Memory → ℕ → ℕ
entry_for directory mem page =
    entry_at (table_at directory mem (page / total_entries)) (page % total_entries)

-- Entries of different pages of memory, or of different indexes, have different addresses.
entry_at-ne :
    (s t i j : ℕ)
    → s % page_size ≡ 0
    → t % page_size ≡ 0
    → s ≢ t
    → i < total_entries
    → j < total_entries
    → entry_at s i ≢ entry_at t j
unfolding entry_at
entry_at-ne s t i j p q ne a b e = ne (omega arith)

pub table_of-aligned : (entry : ℕ) → table_of entry % page_size ≡ 0
unfolding table_of
table_of-aligned entry = omega arith

aligned : (page : ℕ) → (page * page_size % page_size == 0) ≡ true
aligned page = ground arith

dir_index : (page : ℕ) → page * page_size / (total_entries * page_size) ≡ page / total_entries
dir_index page = omega arith

tab_index :
    (page : ℕ) → page * page_size % (total_entries * page_size) / page_size ≡ page % total_entries
tab_index page = omega arith

pub get_page-entry :
    (directory page : ℕ) (mem : Memory)
    → get_page directory (page * page_size) mem ≡ mem (entry_for directory mem page)
unfolding get_page get_indexes is_aligned
get_page-entry directory page mem = rw (aligned page, dir_index page, tab_index page) refl

pub set_page-entry :
    (directory page val : ℕ) (mem : Memory)
    → set_page directory (page * page_size) val mem
      ≡ (pos 0, store mem (entry_for directory mem page) val)
unfolding set_page get_indexes is_aligned
set_page-entry directory page val mem = rw (aligned page, dir_index page, tab_index page) refl

pub store_ne : (mem : Memory) (a b v : ℕ) → b ≢ a → store mem a v b ≡ mem b
store_ne mem a b v ne = rw (==_ne b a ne) refl

pub store_self : (mem : Memory) (a v : ℕ) → store mem a v a ≡ v
store_self mem a v = rw (==_refl a) refl

abbrev pub written : ℕ → Memory → ℕ → ℕ → Memory
written directory mem page val = store mem (entry_for directory mem page) val

index_bound : (page : ℕ) → page < 2 ^ 20 → page / total_entries < total_entries
index_bound page h = omega arith

entry_bound : (page : ℕ) → page % total_entries < total_entries
entry_bound page = omega arith

same_page :
    (p q : ℕ)
    → p / total_entries ≡ q / total_entries
    → p % total_entries ≡ q % total_entries
    → p ≡ q
same_page p q a b = omega arith

lower :
    (page offset : ℕ)
    → offset < page_size
    → page * page_size + offset - (page * page_size + offset) % page_size ≡ page * page_size
lower page offset h = omega arith

rest : (page offset : ℕ) → page * page_size + offset - page * page_size ≡ offset
rest page offset = omega arith

frame_of :
    (frame flags : ℕ) → flags < page_size → table_of (frame * page_size + flags) ≡ frame * page_size
unfolding table_of
frame_of frame flags h = omega arith

entry_at_inj : (t i j : ℕ) → entry_at t i ≡ entry_at t j → i ≡ j
unfolding entry_at
entry_at_inj t i j e = omega arith

entry_index :
    (directory p q : ℕ) (mem : Memory)
    → p / total_entries ≡ q / total_entries
    → entry_for directory mem p ≡ entry_for directory mem q
    → p % total_entries ≡ q % total_entries
entry_index directory p q mem same e =
    entry_at_inj (table_at directory mem (q / total_entries)) (p % total_entries)
      (q % total_entries)
      (ap (λ i. entry_at (table_at directory mem i) (p % total_entries)) (sym same) ∙ e)

module _ (directory : ℕ) (mem : Memory) (v : IsDirectory directory mem) where
  -- A write to a page's entry leaves the entries of the directory as they are.
  pub written-table_at :
      (page val i : ℕ)
      → page < 2 ^ 20
      → i < total_entries
      → table_at directory (written directory mem page val) i ≡ table_at directory mem i
  written-table_at page val i h l =
      let table = table_at directory mem (page / total_entries) in
      ap table_of (
        store_ne mem (entry_for directory mem page) (entry_at directory i) val (
          entry_at-ne directory table i (page % total_entries) v.on_page
            (table_of-aligned (mem (entry_at directory (page / total_entries))))
            (λ e. v.apart (page / total_entries) (index_bound page h) (sym e)) l
            (entry_bound page)))

  pub entry_for-written :
      (page val other : ℕ)
      → page < 2 ^ 20
      → other < 2 ^ 20
      → entry_for directory (written directory mem page val) other ≡ entry_for directory mem other
  entry_for-written page val other h l =
      ap (λ t. entry_at t (other % total_entries))
        (written-table_at page val (other / total_entries) h (index_bound other l))

  -- The entries of different pages have different addresses.
  pub entry_for-ne :
      (p q : ℕ)
      → p < 2 ^ 20
      → q < 2 ^ 20
      → p ≢ q
      → entry_for directory mem p ≢ entry_for directory mem q
  entry_for-ne p q h l ne = elim (ℕ_discrete (p / total_entries) (q / total_entries)) [
    | yes same ↦ λ e. ne (same_page p q same (entry_index directory p q mem same e))
    | no differ ↦
        entry_at-ne (table_at directory mem (p / total_entries))
          (table_at directory mem (q / total_entries)) (p % total_entries) (q % total_entries)
          (table_of-aligned (mem (entry_at directory (p / total_entries))))
          (table_of-aligned (mem (entry_at directory (q / total_entries))))
          (v.distinct (p / total_entries) (q / total_entries) (index_bound p h) (index_bound q l)
            differ)
          (entry_bound p) (entry_bound q)
  ]

  -- Mapping a page to a frame writes the frame and the flags to the page's entry.
  pub map_page-written :
      (page frame flags : ℕ)
      → flags < page_size
      → map_page directory (page * page_size) (frame * page_size) flags mem
        ≡ (pos 0, written directory mem page (frame * page_size + flags))
  unfolding map_page
  map_page-written page frame flags h =
      rw
        (
          aligned page,
          aligned frame,
          bit_or-page (frame * page_size) flags (omega arith) h,
          set_page-entry directory page (frame * page_size + flags) mem,
        )
        refl

  -- What an address in a page is translated to.
  pub get_physical_address-entry :
      (m : Memory) (page offset : ℕ)
      → offset < page_size
      → get_physical_address directory (page * page_size + offset) m
        ≡ (table_of (m (entry_for directory m page)) + offset) % 2 ^ 32
  unfolding get_physical_address align_to_lower_page
  get_physical_address-entry m page offset h =
      rw (lower page offset h, get_page-entry directory page m, rest page offset) refl

  -- In a directory on a page of its own, whose 1024 tables are different pages, mapping the page of a
  -- number below 2 ^ 20 to the frame of such a number, with flags below 4096, succeeds. The addresses in the page are then translated to those in the frame, the addresses in
  -- every other page as before, and the tables are still a directory.
  pub map_page-translation :
      (page frame flags : ℕ)
      → page < 2 ^ 20
      → frame < 2 ^ 20
      → flags < page_size
      → let (res, mem') = map_page directory (page * page_size) (frame * page_size) flags mem in
        (res ≡ pos 0)
        × ((offset : ℕ)
            → offset < page_size
            → get_physical_address directory (page * page_size + offset) mem'
              ≡ frame * page_size + offset)
        × ((other offset : ℕ)
            → other < 2 ^ 20
            → other ≢ page
            → offset < page_size
            → get_physical_address directory (other * page_size + offset) mem'
              ≡ get_physical_address directory (other * page_size + offset) mem)
        × IsDirectory directory mem'
  map_page-translation page frame flags h l k =
      let val = frame * page_size + flags in
      let m = written directory mem page val in
      rw (map_page-written page frame flags k) (
        refl,
        λ offset o.
            get_physical_address-entry m page offset o
            ∙ rw
                (
                  entry_for-written page val page h h,
                  store_self mem (entry_for directory mem page) val,
                  frame_of frame flags k,
                )
                (omega arith),
        λ other offset q ne o.
            get_physical_address-entry m other offset o
            ∙ rw
                (
                  entry_for-written page val other h q,
                  store_ne mem (entry_for directory mem page) (entry_for directory mem other) val
                      (entry_for-ne other page q h ne),
                )
                (sym (get_physical_address-entry mem other offset o)),
        record {
          on_page = v.on_page;
          apart = λ i b. rw (written-table_at page val i h b) (v.apart i b);
          distinct = λ i j b c ne.
              rw (written-table_at page val i h b, written-table_at page val j h c)
                (v.distinct i j b c ne);
        },
      )
