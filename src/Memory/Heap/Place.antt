-- ===== src/Memory/Heap/Place.antt =====
-- Where an allocation that succeeds lies.
use vana.Prelude.{
  ℕ, ◌+◌, ◌*◌, ◌≤◌, ◌<◌, ◌≡◌, refl, ap, ◌∙◌, true, Option, some, List, [], ◌∷◌, ◌++◌, arith, length,
  length-append, get_elem?, get_elem?-append, ◌^◌, ◌-◌,
}
use vana.Memory.Heap.{Heap, block_size, block_to_address, malloc}
use vana.Memory.Heap.Scan.{is_free, all_free}
use vana.Memory.Heap.Runs.{has_run}
use vana.Memory.Heap.Alloc.{IsValid, blocks}
use vana.Memory.Heap.Chains.{chain, with_entries}
use vana.Memory.Heap.Laws.{malloc-Allocated}

-- A block that is free before the allocation, and the room behind it.
pub record Placed (heap : Heap) (n : ℕ) (result : Option (ℕ × Heap)) : Type 0 where
  pub block : ℕ
  pub heap' : Heap
  pub entry : ℕ
  pub returns : result ≡ some (heap.saddr + block * block_size, heap')
  pub room : block + n ≤ length heap.table.entries
  pub entry_at : get_elem? heap.table.entries block ≡ some entry
  pub free : is_free entry ≡ true

first_of_run :
    (run : List ℕ)
    → 0 < length run
    → all_free run ≡ true
    → (e : ℕ) × (rest : List ℕ) × (run ≡ e ∷ rest) × (is_free e ≡ true)
first_of_run [] h f = absurd (omega arith)
first_of_run (e ∷ rest) h f = (e, rest, refl, ground arith)

some_blocks : (size : ℕ) → 0 < size → 0 < blocks size
some_blocks size h = grind arith

pub malloc-Placed :
    (heap : Heap) (size : ℕ)
    → IsValid heap
    → 0 < size
    → size ≤ 2 ^ 32 - 4096
    → has_run (blocks size) heap.table.entries ≡ true
    → Placed heap (blocks size) (malloc heap size)
unfolding block_to_address
malloc-Placed heap size v p q h =
    let a = (malloc-Allocated heap size p q h).0 in
    let b = length a.before in
    let after = with_entries heap (a.before ++ (chain (blocks size) ++ a.after)) in
    let (e, rest, r, f) = first_of_run a.run (omega (arith, a.size, some_blocks size p)) a.free in
    let total : length heap.table.entries ≡ b + (length a.run + length a.after) =
      ap (length {0}) a.cut
      ∙ length-append a.before (a.run ++ a.after)
      ∙ ap (λ k. b + k) (length-append a.run a.after) in
    let inside : heap.saddr + b * block_size < 2 ^ 32 = omega (arith, total, v.size, v.in_memory) in
    record {
      block = b;
      heap' = after;
      entry = e;
      returns = a.returns ∙ ap (λ x. some (x, after)) (grind (arith, inside));
      room = omega (arith, total, a.size);
      entry_at = rw (a.cut, r) (get_elem?-append a.before e (rest ++ a.after));
      free = f;
    }
