-- ===== src/Paging/Identity/Built.antt =====
-- A turn of the loop of `paging_new_4gb` over the tables.
use vana.Prelude.{
  ℕ, suc, ◌+◌, ◌*◌, ◌/◌, ◌%◌, ◌^◌, ◌<◌, ◌≡◌, ◌≢◌, refl, sym, ap, ◌∙◌, bit_or, bit_or-high, arith,
  ◌==◌, if◌then◌else◌, ==_ne, ==_refl,
}
use native.Mathlib.Decide.{ℕ_discrete}
use vana.Memory.Heap.Alloc.{IsValid}
use vana.Kheap.{Machine}
use vana.Paging.{Memory, store, page_size, total_entries, table_of, entry_at}
use vana.Paging.Mapping.{store_ne, store_self}
use vana.Paging.Chunk.{fill_loop, is_writeable}
use vana.Paging.Identity.{Holds, Page, entry_at-page, fill_loop-Keeps, fill_loop-entry}

-- The first `i` tables of the directory on the page `d` are on the pages of `tables`, and map
-- their addresses to themselves.
pub record Built (d i : ℕ) (tables : ℕ → ℕ) (m : Machine) : Type 0 where
  pub valid : IsValid m.kernel_heap
  pub held : Holds m.kernel_heap d
  pub tables_held : (j : ℕ) → j < i → Holds m.kernel_heap (tables j)
  pub apart : (j : ℕ) → j < i → tables j ≢ d
  pub distinct : (j k : ℕ) → j < i → k < i → j ≢ k → tables j ≢ tables k
  pub entry :
      (j : ℕ) → j < i → table_of (m.memory (entry_at (d * page_size) j)) ≡ tables j * page_size
  pub content :
      (j b : ℕ)
      → j < i
      → b < total_entries
      → table_of (m.memory (entry_at (tables j * page_size) b))
        ≡ (j * total_entries + b) * page_size

abbrev pub offset_of : ℕ → ℕ
offset_of i = i * (total_entries * page_size) % 2 ^ 32

-- The tables with one more.
abbrev pub with_table : (ℕ → ℕ) → ℕ → ℕ → ℕ → ℕ
with_table tables i p j = if j == i then p else tables j

abbrev pub word_of : ℕ → ℕ → ℕ
word_of p flags = bit_or (bit_or (p * page_size) flags) is_writeable

table_of-word : (p flags : ℕ) → flags < page_size → table_of (word_of p flags) ≡ p * page_size
unfolding table_of
table_of-word p flags l =
    ap (λ x. x * page_size)
      (bit_or-high (bit_or (p * page_size) flags) is_writeable (omega arith)
        ∙ bit_or-high (p * page_size) flags l
        ∙ omega arith)

table_of-entry :
    (i b flags : ℕ)
    → i < total_entries
    → b < total_entries
    → flags < page_size
    → table_of (bit_or ((offset_of i + b * page_size) % 2 ^ 32) flags)
      ≡ (i * total_entries + b) * page_size
unfolding table_of
table_of-entry i b flags l h f =
    ap (λ x. x * page_size)
      (bit_or-high ((offset_of i + b * page_size) % 2 ^ 32) flags f ∙ omega arith)

pub next_offset : (i : ℕ) → (offset_of i + total_entries * page_size) % 2 ^ 32 ≡ offset_of (i + 1)
next_offset i = omega arith

-- The memory after a table: outside its page and its entry of the directory it is as before.
abbrev pub stored : ℕ → ℕ → ℕ → ℕ → Memory → Memory
stored d i p flags mem =
    store (fill_loop total_entries 0 (p * page_size) (offset_of i) flags mem)
      (entry_at (d * page_size) i) (word_of p flags)

module _ (d i p flags : ℕ) (mem : Memory) (l : i < total_entries) where
  pub stored-old :
      (x : ℕ)
      → x / page_size ≢ p
      → x ≢ entry_at (d * page_size) i
      → stored d i p flags mem x ≡ mem x
  stored-old x ne h =
      store_ne (fill_loop total_entries 0 (p * page_size) (offset_of i) flags mem)
        (entry_at (d * page_size) i) x (word_of p flags) h
      ∙ fill_loop-Keeps total_entries 0 p (offset_of i) flags mem (omega arith) x ne

  stored-new :
      (b : ℕ)
      → p ≢ d
      → b < total_entries
      → stored d i p flags mem (entry_at (p * page_size) b)
        ≡ bit_or ((offset_of i + b * page_size) % 2 ^ 32) flags
  stored-new b ne h =
      store_ne (fill_loop total_entries 0 (p * page_size) (offset_of i) flags mem)
        (entry_at (d * page_size) i) (entry_at (p * page_size) b) (word_of p flags)
        (λ e. ne (sym (entry_at-page p b h) ∙ ap (λ x. x / page_size) e ∙ entry_at-page d i l))
      ∙ fill_loop-entry total_entries 0 b (p * page_size) (offset_of i) flags mem (omega arith)
          (omega arith)

  stored-word : stored d i p flags mem (entry_at (d * page_size) i) ≡ word_of p flags
  stored-word =
      store_self (fill_loop total_entries 0 (p * page_size) (offset_of i) flags mem)
        (entry_at (d * page_size) i) (word_of p flags)

entry_at-other : (t i j : ℕ) → i ≢ j → entry_at t i ≢ entry_at t j
unfolding entry_at
entry_at-other t i j ne e = ne (omega arith)

with_table-all :
    (P : ℕ → ℕ → Type 0) (tables : ℕ → ℕ) (i p : ℕ)
    → P i p
    → ((j : ℕ) → j < i → P j (tables j))
    → (j : ℕ) → j < suc i
    → P j (with_table tables i p j)
with_table-all P tables i p base old j l = elim (ℕ_discrete j i) [
  | yes e ↦ rw (e, ==_refl i) base
  | no ne ↦ rw (==_ne j i ne) (old j (omega arith))
]

module _ (d i flags : ℕ) (tables : ℕ → ℕ) (m : Machine) (b : Built d i tables m)
    (l : i < total_entries) (f : flags < page_size) (pg : Page (4 * total_entries) m) where
  pub mem_before :
      (x : ℕ)
      → x / page_size ≢ pg.page
      → x ≢ entry_at (d * page_size) i
      → stored d i pg.page flags pg.memory x ≡ m.memory x
  mem_before x ne h = stored-old d i pg.page flags pg.memory l x ne h ∙ pg.keeps x ne

  d_fresh : d ≢ pg.page
  d_fresh = pg.fresh d b.held

  entry_old :
      (j : ℕ)
      → j < i
      → table_of (stored d i pg.page flags pg.memory (entry_at (d * page_size) j))
        ≡ tables j * page_size
  entry_old j h =
      ap table_of (
        mem_before (entry_at (d * page_size) j)
          (λ e. d_fresh (sym (entry_at-page d j (omega arith)) ∙ e))
          (entry_at-other (d * page_size) j i (λ e. omega arith)))
      ∙ b.entry j h

  content_old :
      (j : ℕ)
      → j < i
      → (c : ℕ) → c < total_entries
      → table_of (stored d i pg.page flags pg.memory (entry_at (tables j * page_size) c))
        ≡ (j * total_entries + c) * page_size
  content_old j h c k =
      ap table_of (
        mem_before (entry_at (tables j * page_size) c)
          (λ e. pg.fresh (tables j) (b.tables_held j h) (sym (entry_at-page (tables j) c k) ∙ e))
          (λ e.
            b.apart j h (
              sym (entry_at-page (tables j) c k)
              ∙ ap (λ x. x / page_size) e
              ∙ entry_at-page d i l)))
      ∙ b.content j c h k

  pub Built-next :
      Built d
        (suc i)
        (with_table tables i pg.page)
        (record { kernel_heap = pg.heap; memory = stored d i pg.page flags pg.memory })
  Built-next = record {
    valid = pg.valid;
    held = pg.kept d b.held;
    tables_held =
        with_table-all (λ j q. Holds pg.heap q) tables i pg.page pg.held
          (λ j h. pg.kept (tables j) (b.tables_held j h));
    apart = with_table-all (λ j q. q ≢ d) tables i pg.page (λ e. d_fresh (sym e)) b.apart;
    distinct = λ j k h g.
        with_table-all (λ x q. x ≢ k → q ≢ with_table tables i pg.page k) tables i pg.page
          (with_table-all (λ y r. i ≢ y → pg.page ≢ r) tables i pg.page (λ n. absurd (n refl))
            (λ y u n e. pg.fresh (tables y) (b.tables_held y u) (sym e)) k g)
          (λ x v.
            with_table-all (λ y r. x ≢ y → tables x ≢ r) tables i pg.page
              (λ n. pg.fresh (tables x) (b.tables_held x v)) (λ y u. b.distinct x y v u) k g)
          j h;
    entry =
        with_table-all
          (λ j q.
            table_of (stored d i pg.page flags pg.memory (entry_at (d * page_size) j))
            ≡ q * page_size)
          tables i pg.page
          (ap table_of (stored-word d i pg.page flags pg.memory l) ∙ table_of-word pg.page flags f)
          entry_old;
    content = λ j c h k.
        with_table-all
          (λ x q.
            table_of (stored d i pg.page flags pg.memory (entry_at (q * page_size) c))
            ≡ (x * total_entries + c) * page_size)
          tables i pg.page
          (ap table_of (stored-new d i pg.page flags pg.memory l c (λ e. d_fresh (sym e)) k)
            ∙ table_of-entry i c flags l k f)
          (λ x v. content_old x v c k) j h;
  }
