-- ===== src/Paging/Identity.antt =====
-- The writes of `paging_new_4gb` by pages: each leaves what is on the other pages as it is.
pub mod Built
pub mod Tables
pub mod Translation
use vana.Prelude.{
  ℕ, zero, suc, ◌+◌, ◌-◌, ◌*◌, ◌/◌, ◌%◌, ◌^◌, ◌≤◌, ◌<◌, ◌≡◌, ◌≢◌, refl, sym, ap, ◌∙◌, bit_or,
  bit_or-high, arith, Option, some, leb, ltb, ◌==◌, if◌then◌else◌, ◌&&◌, true, false, Bool,
  get_elem?,
}
use native.Mathlib.Decide.{ℕ_discrete}
use vana.Memory.Heap.{Heap, free}
use vana.Memory.Heap.OneBlock.{
  count_free, IsTaken, with_block, OneBlock, IsTaken-set, IsTaken-self, free-taken-ne,
  malloc-OneBlock, IsValid-set, free-OneBlock,
}
use vana.Memory.Heap.Scan.{is_free}
use vana.Memory.Heap.Laws.{IsClean}
use vana.Memory.Heap.Alloc.{IsValid}
use vana.Kheap.{Machine, clear, kmalloc, kzalloc}
use vana.Paging.{Memory, store, page_size, total_entries, table_of, entry_at}
use vana.Paging.Mapping.{store_ne, store_self}
use vana.Paging.Chunk.{fill_loop}

-- What is outside the page `p` is the same.
abbrev pub Keeps : ℕ → Memory → Memory → Type 0
Keeps p mem mem' = (x : ℕ) → x / page_size ≢ p → mem' x ≡ mem x

pub clear-Keeps :
    (p size : ℕ) (mem : Memory) → size ≤ page_size → Keeps p mem (clear (p * page_size) size mem)
unfolding clear
clear-Keeps p size mem l x ne =
    let out : (leb (p * page_size) x && ltb x (p * page_size + size)) ≡ false =
      outside p size x l ne in
    rw out refl
  where
    outside :
        (p size x : ℕ)
        → size ≤ page_size
        → x / page_size ≢ p
        → (leb (p * page_size) x && ltb x (p * page_size + size)) ≡ false
    outside p size x l ne = ground arith

pub entry_at-page : (p j : ℕ) → j < total_entries → entry_at (p * page_size) j / page_size ≡ p
unfolding entry_at
entry_at-page p j l = omega arith

entry_at-other : (t i j : ℕ) → i ≢ j → entry_at t i ≢ entry_at t j
unfolding entry_at
entry_at-other t i j ne e = ne (omega arith)

pub fill_loop-Keeps :
    (n b p offset flags : ℕ) (mem : Memory)
    → b + n ≤ total_entries
    → Keeps p mem (fill_loop n b (p * page_size) offset flags mem)
unfolding fill_loop
fill_loop-Keeps zero b p offset flags mem l x ne = refl
fill_loop-Keeps (suc n) b p offset flags mem l x ne =
    let word = bit_or ((offset + b * page_size) % 2 ^ 32) flags in
    let at = entry_at (p * page_size) b in
    fill_loop-Keeps n (b + 1) p offset flags (store mem at word) (omega arith) x ne
    ∙ store_ne mem at x word (λ e. ne (ap (λ y. y / page_size) e ∙ entry_at-page p b (omega arith)))

fill_loop-before :
    (n b j t offset flags : ℕ) (mem : Memory)
    → j < b
    → fill_loop n b t offset flags mem (entry_at t j) ≡ mem (entry_at t j)
unfolding fill_loop
fill_loop-before zero b j t offset flags mem l = refl
fill_loop-before (suc n) b j t offset flags mem l =
    let word = bit_or ((offset + b * page_size) % 2 ^ 32) flags in
    fill_loop-before n (b + 1) j t offset flags (store mem (entry_at t b) word) (omega arith)
    ∙ store_ne mem (entry_at t b) (entry_at t j) word (entry_at-other t j b (λ e. omega arith))

pub fill_loop-entry :
    (n b j t offset flags : ℕ) (mem : Memory)
    → b ≤ j
    → j < b + n
    → fill_loop n b t offset flags mem (entry_at t j)
      ≡ bit_or ((offset + j * page_size) % 2 ^ 32) flags
unfolding fill_loop
fill_loop-entry zero b j t offset flags mem l h = absurd (omega arith)
fill_loop-entry (suc n) b j t offset flags mem l h =
    let word = bit_or ((offset + b * page_size) % 2 ^ 32) flags in
    let mem' = store mem (entry_at t b) word in
    elim (ℕ_discrete b j) [
      | yes e ↦
          fill_loop-before n (b + 1) j t offset flags mem' (omega arith)
          ∙ ap (λ k. mem' (entry_at t k)) (sym e)
          ∙ store_self mem (entry_at t b) word
          ∙ ap (λ k. bit_or ((offset + k * page_size) % 2 ^ 32) flags) e
      | no ne ↦ fill_loop-entry n (b + 1) j t offset flags mem' (omega arith) (omega arith)
    ]

-- A page that is a block of the heap, and taken.
abbrev pub Holds : Heap → ℕ → Type 0
Holds heap p = (b : ℕ) × (p * page_size ≡ heap.saddr + b * page_size) × IsTaken heap b

-- A page that is no free block of the heap.
abbrev pub NotFree : Heap → ℕ → Type 0
NotFree heap p =
    (b e : ℕ)
    → p * page_size ≡ heap.saddr + b * page_size
    → get_elem? heap.table.entries b ≡ some e
    → is_free e ≡ false

-- A page that the kernel's heap gives and clears.
pub record Page (size : ℕ) (m : Machine) : Type 0 where
  pub page : ℕ
  pub heap : Heap
  pub memory : Memory
  pub returns :
      kzalloc size m ≡ some (page * page_size, record { kernel_heap = heap; memory = memory })
  pub valid : IsValid heap
  pub start : heap.saddr ≡ m.kernel_heap.saddr
  pub count : count_free heap.table.entries + 1 ≡ count_free m.kernel_heap.table.entries
  pub held : Holds heap page
  pub kept : (q : ℕ) → Holds m.kernel_heap q → Holds heap q
  pub fresh : (q : ℕ) → Holds m.kernel_heap q → q ≢ page
  pub keeps : Keeps page m.memory memory
  pub in_memory : page < 2 ^ 20
  pub not_null : 0 < page
  pub was_free : NotFree m.kernel_heap page → ⊥
  pub undo : IsClean m.kernel_heap.table.entries → free heap (page * page_size) ≡ some m.kernel_heap

address-page : (s b saddr : ℕ) → saddr ≡ s * page_size → saddr + b * page_size ≡ (s + b) * page_size
address-page s b saddr e = omega arith

page-block :
    (saddr q b c : ℕ)
    → q * page_size ≡ saddr + b * page_size
    → q * page_size ≡ saddr + c * page_size
    → b ≡ c
page-block saddr q b c e f = omega arith

pub kzalloc-Page :
    (size s : ℕ) (m : Machine)
    → IsValid m.kernel_heap
    → m.kernel_heap.saddr ≡ s * page_size
    → 0 < s
    → 0 < size
    → size ≤ page_size
    → 0 < count_free m.kernel_heap.table.entries
    → Page size m
unfolding kzalloc kmalloc
kzalloc-Page size s m v e h p' l c =
    let o = malloc-OneBlock m.kernel_heap size v p' l c in
    let b = o.block in
    let address = address-page s b m.kernel_heap.saddr e in
    let mem' = clear ((s + b) * page_size) size m.memory in
    let not_null : ((s + b) * page_size == 0) ≡ false = ground arith in
    record {
      page = s + b;
      heap = with_block m.kernel_heap b;
      memory = mem';
      returns = rw (o.returns, address, not_null) refl;
      valid = IsValid-set m.kernel_heap b v;
      start = refl;
      count = o.count;
      held = (b, sym address, IsTaken-self m.kernel_heap b o.inside);
      kept = λ q (c, k, t). (
        c,
        k,
        IsTaken-set m.kernel_heap c b
            (free-taken-ne m.kernel_heap c b o.entry o.entry_at o.is_block_free t) t,
      );
      fresh = λ q (c, k, t) r.
          free-taken-ne m.kernel_heap c b o.entry o.entry_at o.is_block_free t
            (page-block m.kernel_heap.saddr q c b k (ap (λ x. x * page_size) r ∙ sym address));
      keeps = clear-Keeps (s + b) size m.memory l;
      in_memory = omega (arith, o.inside, v.size, v.in_memory, address);
      not_null = omega arith;
      was_free = λ n.
          let clash : true ≡ false = sym o.is_block_free ∙ n b o.entry (sym address) o.entry_at in
          cc;
      undo = λ clean. rw (← address) (free-OneBlock m.kernel_heap size v clean p' l c o);
    }
