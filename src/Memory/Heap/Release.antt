-- ===== src/Memory/Heap/Release.antt =====
-- `heap_mark_blocks_free` clears a run that `heap_mark_blocks_taken` wrote, and no more.
use vana.Prelude.{
  ℕ, zero, suc, ◌+◌, ◌-◌, ◌≤◌, ◌≡◌, refl, pos, true, false, some, List, [], ◌∷◌, ◌++◌, arith,
  length, replicate, get_elem?-append, set-append, append-shift, length-snoc, length-append,
}
use vana.Memory.Heap.{Heap, entry_free, entry_has_next, free_loop, mark_blocks_free}
use vana.Memory.Heap.Chains.{links, chain, with_entries}

free_step :
    (n i x : ℕ) (pre tl : List ℕ)
    → length pre ≡ i
    → entry_has_next x ≡ true
    → free_loop (suc n) i (pre ++ x ∷ tl) ≡ free_loop n (i + 1) ((pre ++ entry_free ∷ []) ++ tl)
unfolding free_loop
free_step n i x pre tl h t = rw (← h) (
    rw (
      get_elem?-append pre x tl,
      free_loop,
      t,
      set-append pre x entry_free tl,
      append-shift pre entry_free tl,
    ))

free_stop :
    (n i x : ℕ) (pre tl : List ℕ)
    → length pre ≡ i
    → entry_has_next x ≡ false
    → free_loop (suc n) i (pre ++ x ∷ tl) ≡ some (pre ++ entry_free ∷ tl)
unfolding free_loop
free_stop n i x pre tl h t =
    rw (← h) (rw (get_elem?-append pre x tl, free_loop, t, set-append pre x entry_free tl))

free_loop-links :
    (n r i : ℕ) (pre post : List ℕ)
    → length pre ≡ i
    → suc n ≤ r
    → free_loop r i (pre ++ (links (suc n) ++ post))
      ≡ some (pre ++ (replicate (suc n) entry_free ++ post))
unfolding links entry_has_next
free_loop-links n zero i pre post h k = absurd (omega arith)
free_loop-links zero (suc r) i pre post h k = free_stop r i 0x01 pre post h refl
free_loop-links (suc n) (suc r) i pre post h k = rw (
  free_step r i 0x81 pre (links (suc n) ++ post) h refl,
  free_loop-links n r (i + 1) (pre ++ entry_free ∷ []) post
      (omega (arith, length-snoc pre entry_free)) (omega arith),
  append-shift pre entry_free (replicate (suc n) entry_free ++ post),
)

free_loop-chain :
    (n r : ℕ) (pre post : List ℕ)
    → suc n ≤ r
    → free_loop r (length pre) (pre ++ (chain (suc n) ++ post))
      ≡ some (pre ++ (replicate (suc n) entry_free ++ post))
unfolding chain entry_has_next
free_loop-chain n zero pre post k = absurd (omega arith)
free_loop-chain zero (suc r) pre post k = free_stop r (length pre) 0x41 pre post refl refl
free_loop-chain (suc n) (suc r) pre post k = rw (
  free_step r (length pre) 0xc1 pre (links (suc n) ++ post) refl refl,
  free_loop-links n r (length pre + 1) (pre ++ entry_free ∷ []) post (length-snoc pre entry_free)
      (omega arith),
  append-shift pre entry_free (replicate (suc n) entry_free ++ post),
)

pub length-links : (n : ℕ) → length (links n) ≡ n
unfolding links
length-links zero = refl
length-links (suc zero) = refl
length-links (suc (suc n)) = omega (arith, length-links (suc n))

pub length-chain : (n : ℕ) → length (chain n) ≡ n
unfolding chain
length-chain zero = refl
length-chain (suc zero) = refl
length-chain (suc (suc n)) = omega (arith, length-links (suc n))

-- Freeing the first block of a chain of `n` blocks clears these `n` entries, and no others.
pub mark_blocks_free-chain :
    (heap : Heap) (n : ℕ) (pre post : List ℕ)
    → heap.table.entries ≡ pre ++ (chain (suc n) ++ post)
    → heap.table.total ≡ length heap.table.entries
    → mark_blocks_free heap (pos (length pre))
      ≡ some (with_entries heap (pre ++ (replicate (suc n) entry_free ++ post)))
unfolding mark_blocks_free
mark_blocks_free-chain heap n pre post e t =
    rw e (rw (free_loop-chain n (heap.table.total - length pre) pre post rounds))
  where
    size : length heap.table.entries ≡ length pre + (suc n + length post)
    size = rw e (
        omega (
          arith,
          length-append pre (chain (suc n) ++ post),
          length-append (chain (suc n)) post,
          length-chain (suc n),
        ))

    rounds : suc n ≤ heap.table.total - length pre
    rounds = omega (arith, size)
