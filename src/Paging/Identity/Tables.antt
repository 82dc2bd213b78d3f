-- ===== src/Paging/Identity/Tables.antt =====
-- The loop of `paging_new_4gb` over the tables, and the directory that it leaves.
use vana.Prelude.{
  ℕ, zero, suc, ◌+◌, ◌*◌, ◌/◌, ◌≤◌, ◌<◌, ◌≡◌, ◌≢◌, refl, sym, ap, ◌∙◌, arith, some, subst,
}
use vana.Memory.Heap.OneBlock.{count_free}
use vana.Memory.Heap.Alloc.{IsValid}
use vana.Kheap.{Machine}
use vana.Paging.{Memory, store, page_size, total_entries, table_of, entry_at}
use vana.Paging.Mapping.{store_ne, store_self}
use vana.Paging.Chunk.{tables_loop, paging_new_4gb}
use vana.Paging.Identity.{Keeps, Holds, Page, kzalloc-Page, entry_at-page}
use vana.Paging.Identity.Built.{
  Built, offset_of, next_offset, with_table, stored, mem_before, Built-next,
}

-- The words on the pages that the heap holds, but for the page `d`, are the same, and the pages
-- are held as before.
record Frame (d : ℕ) (m m' : Machine) : Type 0 where
  held : (q : ℕ) → Holds m.kernel_heap q → Holds m'.kernel_heap q
  same : (q x : ℕ) → Holds m.kernel_heap q → q ≢ d → x / page_size ≡ q → m'.memory x ≡ m.memory x

record Laid (d n i flags : ℕ) (m : Machine) : Type 0 where
  machine : Machine
  tables : ℕ → ℕ
  returns : tables_loop n i (offset_of i) (d * page_size) flags m ≡ some machine
  built : Built d total_entries tables machine
  frame : Frame d m machine
  start : machine.kernel_heap.saddr ≡ m.kernel_heap.saddr
  count : count_free machine.kernel_heap.table.entries + n ≡ count_free m.kernel_heap.table.entries

-- The machine after a turn.
abbrev next : (d i flags : ℕ) (m : Machine) → Page (4 * total_entries) m → Machine
next d i flags m pg = record { kernel_heap = pg.heap; memory = stored d i pg.page flags pg.memory }

tables_loop-next :
    (n d i flags : ℕ) (m : Machine) (pg : Page (4 * total_entries) m)
    → tables_loop (suc n) i (offset_of i) (d * page_size) flags m
      ≡ tables_loop n (suc i) (offset_of (suc i)) (d * page_size) flags (next d i flags m pg)
unfolding tables_loop
tables_loop-next n d i flags m pg =
    let up : i + 1 ≡ suc i = omega arith in rw (pg.returns, next_offset i, up) refl

Frame-next :
    (d i flags : ℕ) (tables : ℕ → ℕ) (m m' : Machine)
    → Built d i tables m
    → i < total_entries
    → flags < page_size
    → (pg : Page (4 * total_entries) m) → Frame d (next d i flags m pg) m'
    → Frame d m m'
Frame-next d i flags tables m m' b l f pg fr = record {
  held = λ q h. fr.held q (pg.kept q h);
  same = λ q x h ne e.
      fr.same q x (pg.kept q h) ne e
      ∙ mem_before d i flags tables m b l f pg x (λ k. pg.fresh q h (sym e ∙ k))
          (λ k. ne (sym e ∙ ap (λ y. y / page_size) k ∙ entry_at-page d i l));
}

tables_loop-Laid :
    (n d i s flags : ℕ) (tables : ℕ → ℕ) (m : Machine)
    → Built d i tables m
    → i + n ≡ total_entries
    → flags < page_size
    → m.kernel_heap.saddr ≡ s * page_size
    → 0 < s
    → n ≤ count_free m.kernel_heap.table.entries
    → Laid d n i flags m
unfolding tables_loop
tables_loop-Laid zero d i s flags tables m b e f a p c =
    let last : i ≡ total_entries = omega arith in
    record {
      machine = m;
      tables = tables;
      returns = refl;
      built = subst (λ k. Built d k tables m) last b;
      frame = record { held = λ q h. h; same = λ q x h ne k. refl };
      start = refl;
      count = omega arith;
    }
tables_loop-Laid (suc n) d i s flags tables m b e f a p c =
    let l : i < total_entries = omega arith in
    let pg =
      kzalloc-Page (4 * total_entries) s m b.valid a p (omega arith) (omega arith) (omega arith) in
    let rest =
      tables_loop-Laid n d (suc i) s flags (with_table tables i pg.page) (next d i flags m pg)
        (Built-next d i flags tables m b l f pg) (omega arith) f (pg.start ∙ a) p
        (omega (arith, pg.count)) in
    record {
      machine = rest.machine;
      tables = rest.tables;
      returns = tables_loop-next n d i flags m pg ∙ rest.returns;
      built = rest.built;
      frame = Frame-next d i flags tables m rest.machine b l f pg rest.frame;
      start = rest.start ∙ pg.start;
      count = omega (arith, pg.count, rest.count);
    }

Built-zero :
    (d : ℕ) (m : Machine) → IsValid m.kernel_heap → Holds m.kernel_heap d → Built d 0 (λ j. j) m
Built-zero d m v h = record {
  valid = v;
  held = h;
  tables_held = λ j l. absurd (omega arith);
  apart = λ j l. absurd (omega arith);
  distinct = λ j k l. absurd (omega arith);
  entry = λ j l. absurd (omega arith);
  content = λ j c l. absurd (omega arith);
}

-- The new directory on the page `d`, and the chunk on the page `c`.
pub record Chunk (flags : ℕ) (m : Machine) : Type 0 where
  pub d : ℕ
  pub c : ℕ
  pub machine : Machine
  pub tables : ℕ → ℕ
  pub returns : paging_new_4gb flags m ≡ some (c * page_size, machine)
  pub directory : machine.memory (c * page_size) ≡ d * page_size
  pub valid : IsValid machine.kernel_heap
  pub apart : (j : ℕ) → j < total_entries → tables j ≢ d
  pub distinct : (j k : ℕ) → j < total_entries → k < total_entries → j ≢ k → tables j ≢ tables k
  pub entry :
      (j : ℕ)
      → j < total_entries
      → table_of (machine.memory (entry_at (d * page_size) j)) ≡ tables j * page_size
  pub content :
      (j b : ℕ)
      → j < total_entries
      → b < total_entries
      → table_of (machine.memory (entry_at (tables j * page_size) b))
        ≡ (j * total_entries + b) * page_size
  pub same : (q x : ℕ) → Holds m.kernel_heap q → x / page_size ≡ q → machine.memory x ≡ m.memory x
  pub count :
      count_free machine.kernel_heap.table.entries + 1026 ≡ count_free m.kernel_heap.table.entries

chunk_page : (c : ℕ) → c * page_size / page_size ≡ c
chunk_page c = omega arith

-- The machine with the cleared page.
abbrev after : (size : ℕ) (m : Machine) → Page size m → Machine
after size m pg = record { kernel_heap = pg.heap; memory = pg.memory }

module _ (flags : ℕ) (m : Machine) (pg : Page (4 * total_entries) m)
    (t : Laid pg.page total_entries 0 flags (after (4 * total_entries) m pg))
    (pc : Page 4 t.machine) where
  final : Memory
  final = store pc.memory (pc.page * page_size) (pg.page * page_size)

  final-Keeps : Keeps pc.page t.machine.memory final
  unfolding final
  final-Keeps x ne =
      store_ne pc.memory (pc.page * page_size) x (pg.page * page_size)
        (λ e. ne (ap (λ y. y / page_size) e ∙ chunk_page pc.page))
      ∙ pc.keeps x ne

  final-Holds :
      (q x : ℕ) → Holds t.machine.kernel_heap q → x / page_size ≡ q → final x ≡ t.machine.memory x
  final-Holds q x h e = final-Keeps x (λ k. pc.fresh q h (sym e ∙ k))

  Chunk-final : Chunk flags m
  unfolding paging_new_4gb final
  Chunk-final = record {
    d = pg.page;
    c = pc.page;
    machine = record { kernel_heap = pc.heap; memory = final };
    tables = t.tables;
    returns = rw (pg.returns, t.returns, pc.returns) refl;
    directory = store_self pc.memory (pc.page * page_size) (pg.page * page_size);
    valid = pc.valid;
    apart = t.built.apart;
    distinct = t.built.distinct;
    entry = λ j h.
        ap table_of (
          final-Holds pg.page (entry_at (pg.page * page_size) j) t.built.held
            (entry_at-page pg.page j h))
        ∙ t.built.entry j h;
    content = λ j i h k.
        ap table_of (
          final-Holds (t.tables j) (entry_at (t.tables j * page_size) i) (t.built.tables_held j h)
            (entry_at-page (t.tables j) i k))
        ∙ t.built.content j i h k;
    same = λ q x h e.
        final-Holds q x (t.frame.held q (pg.kept q h)) e
        ∙ t.frame.same q x (pg.kept q h) (pg.fresh q h) e
        ∙ pg.keeps x (λ k. pg.fresh q h (sym e ∙ k));
    count = omega (arith, pg.count, t.count, pc.count);
  }

pub paging_new_4gb-Chunk :
    (s flags : ℕ) (m : Machine)
    → IsValid m.kernel_heap
    → m.kernel_heap.saddr ≡ s * page_size
    → 0 < s
    → flags < page_size
    → 1026 ≤ count_free m.kernel_heap.table.entries
    → Chunk flags m
paging_new_4gb-Chunk s flags m v a p f l =
    let pg = kzalloc-Page (4 * total_entries) s m v a p (omega arith) (omega arith) (omega arith) in
    let t =
      tables_loop-Laid total_entries pg.page 0 s flags (λ j. j) (after (4 * total_entries) m pg)
        (Built-zero pg.page (after (4 * total_entries) m pg) pg.valid pg.held) refl f (pg.start ∙ a)
        p (omega (arith, pg.count)) in
    let pc =
      kzalloc-Page 4 s t.machine t.built.valid (t.start ∙ pg.start ∙ a) p (omega arith)
        (omega arith) (omega (arith, pg.count, t.count)) in
    Chunk-final flags m pg t pc
