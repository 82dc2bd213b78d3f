-- ===== src/Memory/Heap/OneBlock.antt =====
-- Allocations of one block, one after another.
use vana.Prelude.{
  ℕ, suc, ◌+◌, ◌*◌, ◌^◌, ◌≤◌, ◌<◌, ◌≡◌, ◌≢◌, refl, sym, ap, ◌∙◌, true, false, Option, some, List,
  [], ◌∷◌, ◌++◌, arith, length, length-append, get_elem?, get_elem?-append, get_elem?-set_self,
  get_elem?-set_ne, set, set-append, length-set, if◌then◌else◌, some-eq,
}
use vana.Memory.Heap.{Heap, block_size, block_to_address, entry_type, malloc, free}
use vana.Memory.Heap.Scan.{is_free, all_free}
use vana.Memory.Heap.Runs.{has_run}
use vana.Memory.Heap.Chains.{chain, with_entries}
use vana.Memory.Heap.Alloc.{IsValid, blocks}
use vana.Memory.Heap.Laws.{malloc-Allocated, IsClean, free-malloc}

abbrev pub count_free : List ℕ → ℕ
count_free [] = 0
count_free (e ∷ es) = let rest = count_free es in if is_free e then rest + 1 else rest

-- A block that is allocated.
abbrev pub IsTaken : Heap → ℕ → Type 0
IsTaken heap b = (e : ℕ) × (get_elem? heap.table.entries b ≡ some e) × (is_free e ≡ false)

-- The heap with a block taken alone.
abbrev pub with_block : Heap → ℕ → Heap
with_block heap b = with_entries heap (set heap.table.entries b 0x41)

pub record OneBlock (heap : Heap) (result : Option (ℕ × Heap)) : Type 0 where
  pub block : ℕ
  pub returns : result ≡ some (heap.saddr + block * block_size, with_block heap block)
  pub inside : block < length heap.table.entries
  pub entry : ℕ
  pub entry_at : get_elem? heap.table.entries block ≡ some entry
  pub is_block_free : is_free entry ≡ true
  pub count : count_free (set heap.table.entries block 0x41) + 1 ≡ count_free heap.table.entries

has_run-one : (es : List ℕ) → 0 < count_free es → has_run 1 es ≡ true
unfolding has_run
has_run-one [] h = absurd (omega arith)
has_run-one (e ∷ es) h = ground (arith, has_run-one es)

count_free-append : (xs ys : List ℕ) → count_free (xs ++ ys) ≡ count_free xs + count_free ys
count_free-append [] ys = omega arith
count_free-append (x ∷ xs) ys = ground (arith, count_free-append xs ys)

one_entry :
    (run : List ℕ)
    → length run ≡ 1
    → all_free run ≡ true
    → (e : ℕ) × (run ≡ e ∷ []) × (is_free e ≡ true)
one_entry [] h f = absurd (omega arith)
one_entry (e ∷ []) h f = (e, refl, ground arith)
one_entry (e ∷ d ∷ run) h f = absurd (omega arith)

taken_entry : is_free 0x41 ≡ false
unfolding entry_type
taken_entry = refl

count_taken :
    (before after : List ℕ) (e : ℕ)
    → is_free e ≡ true
    → count_free (before ++ 0x41 ∷ after) + 1 ≡ count_free (before ++ e ∷ after)
count_taken before after e f =
    rw
      (
        count_free-append before (0x41 ∷ after),
        count_free-append before (e ∷ after),
        taken_entry,
        f,
      )
      (omega arith)

one_block : (size : ℕ) → 0 < size → size ≤ block_size → blocks size ≡ 1
one_block size h l = omega arith

pub malloc-OneBlock :
    (heap : Heap) (size : ℕ)
    → IsValid heap
    → 0 < size
    → size ≤ block_size
    → 0 < count_free heap.table.entries
    → OneBlock heap (malloc heap size)
unfolding block_to_address chain
malloc-OneBlock heap size v p q c =
    let n = one_block size p q in
    let a =
      (malloc-Allocated heap size p (omega arith) (rw n (has_run-one heap.table.entries c))).0 in
    let (e, r, f) = one_entry a.run (a.size ∙ n) a.free in
    let b = length a.before in
    let cut : heap.table.entries ≡ a.before ++ e ∷ a.after =
      a.cut ∙ ap (λ t. a.before ++ (t ++ a.after)) r in
    let written : set heap.table.entries b 0x41 ≡ a.before ++ 0x41 ∷ a.after =
      ap (λ es. set es b 0x41) cut ∙ set-append a.before e 0x41 a.after in
    let total : length heap.table.entries ≡ b + suc (length a.after) =
      ap (length {0}) cut ∙ length-append a.before (e ∷ a.after) in
    let below : heap.saddr + b * block_size < 2 ^ 32 = omega (arith, total, v.size, v.in_memory) in
    record {
      block = b;
      returns = a.returns ∙ returned heap a.before a.after b (blocks size) n below (sym written);
      inside = omega (arith, total);
      entry = e;
      entry_at = ap (λ es. get_elem? es b) cut ∙ get_elem?-append a.before e a.after;
      is_block_free = f;
      count =
          ap (λ es. count_free es + 1) written
          ∙ count_taken a.before a.after e f
          ∙ ap count_free (sym cut);
    }
  where
    returned :
        (heap : Heap) (before after : List ℕ) (b n : ℕ)
        → n ≡ 1
        → heap.saddr + b * block_size < 2 ^ 32
        → before ++ 0x41 ∷ after ≡ set heap.table.entries b 0x41
        → ◌≡◌ {A = Option (ℕ × Heap)}
            (some (block_to_address heap b, with_entries heap (before ++ (chain n ++ after))))
            (some (heap.saddr + b * block_size, with_block heap b))
    returned heap before after b n e l w =
        let address : block_to_address heap b ≡ heap.saddr + b * block_size = omega arith in
        rw (e, address, w) refl

-- A taken block stays taken, and the new one is.
pub IsTaken-set : (heap : Heap) (b c : ℕ) → b ≢ c → IsTaken heap b → IsTaken (with_block heap c) b
IsTaken-set heap b c n (e, h, f) =
    (e, get_elem?-set_ne heap.table.entries c b 0x41 (λ q. n (sym q)) ∙ h, f)

pub IsTaken-self :
    (heap : Heap) (b : ℕ) → b < length heap.table.entries → IsTaken (with_block heap b) b
IsTaken-self heap b l = (0x41, get_elem?-set_self heap.table.entries b 0x41 l, taken_entry)

pub IsValid-set : (heap : Heap) (b : ℕ) → IsValid heap → IsValid (with_block heap b)
IsValid-set heap b v = record {
  size = v.size ∙ sym (length-set heap.table.entries b 0x41);
  in_memory = v.in_memory;
  in_int = v.in_int;
}

-- A free block is none of the taken ones.
pub free-taken-ne :
    (heap : Heap) (b c e : ℕ)
    → get_elem? heap.table.entries c ≡ some e
    → is_free e ≡ true
    → IsTaken heap b
    → b ≢ c
free-taken-ne heap b c e h f (e', h', f') q =
    let same : some e' ≡ some e = sym h' ∙ ap (get_elem? heap.table.entries) q ∙ h in
    let clash : true ≡ false = sym f ∙ ap is_free (sym (some-eq same)) ∙ f' in cc

-- The block that was allocated can be freed again.
pub free-OneBlock :
    (heap : Heap) (size : ℕ)
    → IsValid heap
    → IsClean heap.table.entries
    → 0 < size
    → size ≤ block_size
    → 0 < count_free heap.table.entries
    → (o : OneBlock heap (malloc heap size))
    → free (with_block heap o.block) (heap.saddr + o.block * block_size) ≡ some heap
free-OneBlock heap size v clean p q c o =
    free-malloc heap (with_block heap o.block) size (heap.saddr + o.block * block_size) v clean p
      (omega arith) (rw (one_block size p q) (has_run-one heap.table.entries c)) o.returns
