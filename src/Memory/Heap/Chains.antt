-- ===== src/Memory/Heap/Chains.antt =====
-- The entries of an allocated run: what `heap_mark_blocks_taken` writes and
-- `heap_mark_blocks_free` clears.
use vana.Prelude.{
  ℕ, zero, suc, ◌+◌, ◌-◌, ◌≡◌, refl, some, List, [], ◌∷◌, ◌++◌, arith, length, set-append,
  append-shift, length-snoc, length-append, lt→ltb,
}
use vana.Memory.Heap.{Heap, next_entry, mark_loop, mark_blocks_taken}

-- `n` entries behind the first: all but the last have the flag HAS_NEXT.
unfoldable pub links : ℕ → List ℕ
links zero = []
links (suc zero) = 0x01 ∷ []
links (suc (suc n)) = 0x81 ∷ links (suc n)

-- The entries of a run of `n` blocks: the first has the flag IS_FIRST.
unfoldable pub chain : ℕ → List ℕ
chain zero = []
chain (suc zero) = 0x41 ∷ []
chain (suc (suc n)) = 0xc1 ∷ links (suc n)

-- The entry of the next block, where `n` blocks are still to be written.
link_entry : ℕ → ℕ
link_entry zero = 0x01
link_entry (suc zero) = 0x01
link_entry (suc (suc n)) = 0x81

next_entry-link :
    (n i end_block : ℕ) → end_block ≡ i + suc n → next_entry i end_block ≡ link_entry (suc n)
unfolding next_entry link_entry
next_entry-link zero i end_block h = ground arith
next_entry-link (suc n) i end_block h = ground arith

mark_loop-zero :
    (i end_block entry : ℕ) (entries : List ℕ)
    → mark_loop zero i end_block entry entries ≡ some entries
unfolding mark_loop
mark_loop-zero i end_block entry entries = refl

-- One round of the loop, at the entry behind `pre`.
mark_step :
    (n i end_block entry x : ℕ) (pre tl : List ℕ)
    → length pre ≡ i
    → mark_loop (suc n) i end_block entry (pre ++ x ∷ tl)
      ≡ mark_loop n (i + 1) end_block (next_entry i end_block) ((pre ++ entry ∷ []) ++ tl)
unfolding mark_loop
mark_step n i end_block entry x pre tl h = rw (← h) (
    rw (
      lt→ltb (length pre) (length (pre ++ x ∷ tl)) (omega (arith, length-append pre (x ∷ tl))),
      set-append pre x entry tl,
      append-shift pre entry tl,
    ))

mark_loop-links :
    (n i : ℕ) (pre old post : List ℕ) (end_block entry : ℕ)
    → length pre ≡ i
    → length old ≡ suc n
    → end_block ≡ i + n
    → entry ≡ link_entry (suc n)
    → mark_loop (suc n) i end_block entry (pre ++ (old ++ post))
      ≡ some (pre ++ (links (suc n) ++ post))
unfolding links link_entry
mark_loop-links n i pre [] post end_block entry hp ho he hl = absurd (omega arith)
mark_loop-links zero i pre (x ∷ y ∷ old) post end_block entry hp ho he hl = absurd (omega arith)
mark_loop-links zero i pre (x ∷ []) post end_block entry hp ho he hl =
    rw (
      mark_step zero i end_block entry x pre post hp,
      hl,
      mark_loop-zero,
      append-shift pre 0x01 post,
    )
mark_loop-links (suc n) i pre (x ∷ old) post end_block entry hp ho he hl =
    rw
      (
        mark_step (suc n) i end_block entry x pre (old ++ post) hp,
        hl,
        append-shift pre 0x81 (links (suc n) ++ post),
      )
      (mark_loop-links n (i + 1) (pre ++ 0x81 ∷ []) old post end_block (next_entry i end_block)
        (omega (arith, length-snoc pre 0x81)) (omega arith) (omega arith)
        (next_entry-link n i end_block (omega arith)))

-- The run of `n` free blocks between `pre` and `post` becomes a chain; nothing else changes.
abbrev pub with_entries : Heap → List ℕ → Heap
with_entries heap es = record heap { table = record (heap.table) { entries = es } }

pub mark_blocks_taken-chain :
    (heap : Heap) (n : ℕ) (pre old post : List ℕ)
    → heap.table.entries ≡ pre ++ (old ++ post)
    → length old ≡ suc n
    → mark_blocks_taken heap (length pre) (suc n)
      ≡ some (with_entries heap (pre ++ (chain (suc n) ++ post)))
unfolding mark_blocks_taken chain
mark_blocks_taken-chain heap n pre [] post e h = absurd (omega arith)
mark_blocks_taken-chain heap zero pre (x ∷ []) post e h = rw (
  e,
  mark_step 0 (length pre) (length pre + 1 - 1) 0x41 x pre post refl,
  mark_loop-zero,
  append-shift pre 0x41 post,
)
mark_blocks_taken-chain heap zero pre (x ∷ y ∷ old) post e h = absurd (omega arith)
mark_blocks_taken-chain heap (suc n) pre (x ∷ old) post e h =
    let end_block = length pre + suc (suc n) - 1 in
    rw (
      e,
      lt→ltb 1 (suc (suc n)) (omega arith),
      mark_step (suc n) (length pre) end_block 0xc1 x pre (old ++ post) refl,
      mark_loop-links n (length pre + 1) (pre ++ 0xc1 ∷ []) old post end_block
          (next_entry (length pre) end_block) (length-snoc pre 0xc1) (omega arith) (omega arith)
          (next_entry-link n (length pre) end_block (omega arith)),
      append-shift pre 0xc1 (links (suc n) ++ post),
    )
