-- ===== src/Memory/Heap/Scan.antt =====
-- The search of `heap_get_start_block` against a direct description of the index that it returns.
use vana.Prelude.{
  ℕ, zero, suc, ◌+◌, ◌<◌, ◌≡◌, refl, Bool, true, false, ◌&&◌, ◌||◌, Option, none, some, List, [],
  ◌∷◌, ◌++◌, ok, err, Status, Result, arith, ◌==◌, if◌then◌else◌, length, append-shift, length-snoc,
  Bool-cases, append-nil, sym, ap, inl, inr, ◌⊎◌,
}
use vana.Memory.Heap.{Heap, entry_free, entry_type, scan, get_start_block}

abbrev pub is_free : ℕ → Bool
is_free e = entry_type e == entry_free

abbrev pub all_free : List ℕ → Bool
all_free [] = true
all_free (e ∷ es) = is_free e && all_free es

-- The list begins with `n` free entries.
abbrev pub free_prefix : ℕ → List ℕ → Bool
free_prefix zero es = true
free_prefix (suc n) [] = false
free_prefix (suc n) (e ∷ es) = is_free e && free_prefix n es

-- From the index `i` on, the first place where `n` free entries stand, or where only free entries
-- are left up to the end of the table.
unfoldable pub first_place : ℕ → List ℕ → ℕ → Option ℕ
first_place n [] i = none
first_place n (e ∷ es) i =
    if free_prefix n (e ∷ es) || all_free (e ∷ es) then some i else first_place n es (i + 1)

all_free-append : (pre es : List ℕ) → all_free (pre ++ es) ≡ (all_free pre && all_free es)
all_free-append [] es = refl
all_free-append (x ∷ pre) es = ground (arith, all_free-append pre es)

free_prefix_enough :
    (pre es : List ℕ) → all_free pre ≡ true → free_prefix (length pre) (pre ++ es) ≡ true
free_prefix_enough [] es h = refl
free_prefix_enough (x ∷ pre) es h = ground (arith, free_prefix_enough pre es)

pub free_prefix_short : (n : ℕ) (es : List ℕ) → length es < n → free_prefix n es ≡ false
free_prefix_short zero es h = absurd (omega arith)
free_prefix_short (suc n) [] h = refl
free_prefix_short (suc n) (e ∷ es) h = ground (arith, free_prefix_short n es)

-- A taken entry among the first `n` rules the prefix out.
free_prefix_broken :
    (n : ℕ) (pre : List ℕ) (e : ℕ) (es : List ℕ)
    → length pre < n
    → is_free e ≡ false
    → free_prefix n (pre ++ e ∷ es) ≡ false
free_prefix_broken zero pre e es h t = absurd (omega arith)
free_prefix_broken (suc n) [] e es h t = ground arith
free_prefix_broken (suc n) (x ∷ pre) e es h t = ground (arith, free_prefix_broken n pre e es)

first_place_skip :
    (n : ℕ) (pre : List ℕ) (e : ℕ) (es : List ℕ) (b : ℕ)
    → length pre < n
    → is_free e ≡ false
    → first_place n (pre ++ e ∷ es) b ≡ first_place n es (b + length pre + 1)
unfolding first_place
first_place_skip n [] e es b h t = ground (arith, free_prefix_broken n [] e es)
first_place_skip n (x ∷ pre) e es b h t = ground (
  arith,
  free_prefix_broken n (x ∷ pre) e es h t,
  all_free-append pre (e ∷ es),
  first_place_skip n pre e es (b + 1),
)

first_place_hit :
    (n : ℕ) (pre : List ℕ) (e : ℕ) (es : List ℕ) (b : ℕ)
    → (free_prefix n (pre ++ e ∷ es) ≡ true) ⊎ (all_free (pre ++ e ∷ es) ≡ true)
    → first_place n (pre ++ e ∷ es) b ≡ some b
unfolding first_place
first_place_hit n [] e es b h = ground arith
first_place_hit n (x ∷ pre) e es b h = ground arith

-- What `bs` holds while a run of `bc` free entries that began at `b` is being counted.
run_start : ℕ → ℕ → Option ℕ
run_start zero b = none
run_start (suc bc) b = some b

run_start_next :
    (i b bc : ℕ)
    → i ≡ b + bc
    → (let start : Option ℕ = elim (run_start bc b) [ none ↦ some i | some c ↦ some c ] in start)
      ≡ run_start (suc bc) b
unfolding run_start
run_start_next i b zero h = ap some (omega arith)
run_start_next i b (suc bc) h = refl

first_place_all :
    (n : ℕ) (pre : List ℕ) (b : ℕ)
    → all_free pre ≡ true
    → first_place n pre b ≡ run_start (length pre) b
unfolding first_place run_start
first_place_all n [] b h = refl
first_place_all n (x ∷ pre) b h = ground arith

first_place_full :
    (n : ℕ) (pre : List ℕ) (e : ℕ) (es : List ℕ)
    → length pre + 1 ≡ n
    → all_free pre ≡ true
    → is_free e ≡ true
    → free_prefix n (pre ++ e ∷ es) ≡ true
first_place_full n pre e es h p t =
    rw (append-shift pre e es, ← h, ← length-snoc pre e)
      (free_prefix_enough (pre ++ e ∷ []) es (ground (arith, all_free-append pre (e ∷ []))))

-- `pre` is the run read so far.
scan_run :
    (n : ℕ) (es pre : List ℕ) (i b bc : ℕ)
    → length pre ≡ bc
    → i ≡ b + bc
    → bc < n
    → all_free pre ≡ true
    → scan n es i bc (run_start bc b) ≡ first_place n (pre ++ es) b
unfolding scan run_start
scan_run n [] pre i b bc hl hi hn hf = rw (← hl) (rw append-nil (sym (first_place_all n pre b hf)))
scan_run n (e ∷ es) pre i b bc hl hi hn hf = elim (Bool-cases (is_free e)) [
  | inr taken ↦ ground (arith, scan_run n es [] (i + 1) (i + 1) 0, first_place_skip n pre e es b)
  | inl free ↦ elim (Bool-cases (bc + 1 == n)) [
    | inl full ↦
        ground (
          arith,
          run_start_next i b bc hi,
          first_place_hit n pre e es b,
          first_place_full n pre e es,
        )
    | inr more ↦ ground (
      arith,
      run_start_next i b bc hi,
      scan_run n es (pre ++ e ∷ []) (i + 1) b (bc + 1),
      length-snoc pre e,
      all_free-append pre (e ∷ []),
      append-shift pre e es,
    )
  ]
]

-- The search for one block or more returns the first index from which that many free entries stand,
-- or only free entries are left up to the end of the table, and -ENOMEM where there is no such index.
pub get_start_block-first_place :
    (heap : Heap) (total_blocks : ℕ)
    → 0 < total_blocks
    → get_start_block heap total_blocks ≡ (
        let found : Result ℕ = elim (first_place total_blocks heap.table.entries 0) [
          | none ↦ err Status.enomem
          | some b ↦ ok b
        ] in
        found)
unfolding get_start_block run_start
get_start_block-first_place heap total_blocks h =
    rw
      (scan_run total_blocks heap.table.entries [] 0 0 0 refl (omega arith) h refl, get_start_block)
