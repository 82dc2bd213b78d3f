-- ===== src/Process/Table.antt =====
-- The table of a process' allocations: an entry that is joined and unjoined.
use vana.Prelude.{
  ℕ, suc, ◌+◌, ◌≡◌, ◌≢◌, refl, sym, ap, ◌∙◌, true, false, Bool-cases, inl, inr, some, List, [], ◌∷◌,
  arith, ◌==◌, ==_ne, ==_eq, ==_refl, set,
}
use vana.Process.{
  ProcessAllocation, free_allocation, index_of, get_allocation_by_addr, allocation_unjoin,
}

abbrev pub IsAbsent : ℕ → List ProcessAllocation → Type 0
IsAbsent ptr [] = Unit
IsAbsent ptr (a ∷ others) = (a.ptr ≢ ptr) × IsAbsent ptr others

-- Entries without an address have no size.
abbrev pub IsTidy : List ProcessAllocation → Type 0
IsTidy [] = Unit
IsTidy (a ∷ others) = (a.ptr ≡ 0 → a ≡ free_allocation) × IsTidy others

unjoin_absent :
    (ptr : ℕ) (others : List ProcessAllocation)
    → IsAbsent ptr others
    → allocation_unjoin others ptr ≡ others
unfolding allocation_unjoin
unjoin_absent ptr [] h = refl
unjoin_absent ptr (a ∷ others) h = rw (==_ne a.ptr ptr h.0, unjoin_absent ptr others h.1) refl

-- What joining an allocation at the first free entry does.
pub record Joined (ptr size i j : ℕ) (others : List ProcessAllocation) : Type 0 where
  pub at : ℕ
  pub index : i ≡ j + at
  pub found :
      get_allocation_by_addr (set others at (record { ptr = ptr; size = size })) ptr
      ≡ some (record { ptr = ptr; size = size })
  pub undone : allocation_unjoin (set others at (record { ptr = ptr; size = size })) ptr ≡ others

pub index_of-skip :
    (a : ProcessAllocation) (others : List ProcessAllocation) (i j : ℕ)
    → (a.ptr == 0) ≡ false
    → index_of 0 (a ∷ others) j ≡ some i
    → index_of 0 others (j + 1) ≡ some i
unfolding index_of
index_of-skip a others i j e h = ground arith

index_of-here :
    (a : ProcessAllocation) (others : List ProcessAllocation) (i j : ℕ)
    → (a.ptr == 0) ≡ true
    → index_of 0 (a ∷ others) j ≡ some i
    → i ≡ j
unfolding index_of
index_of-here a others i j e h = ground arith

pub join-undone :
    (ptr size : ℕ) (others : List ProcessAllocation) (i j : ℕ)
    → IsTidy others
    → IsAbsent ptr others
    → index_of 0 others j ≡ some i
    → Joined ptr size i j others
unfolding get_allocation_by_addr allocation_unjoin index_of
join-undone ptr size [] i j t h f = absurd cc
join-undone ptr size (a ∷ others) i j t h f = elim (Bool-cases (a.ptr == 0)) [
  | inl e ↦ record {
    at = 0;
    index = index_of-here a others i j e f ∙ omega arith;
    found = rw (==_refl ptr) refl;
    undone =
        rw (==_refl ptr, unjoin_absent ptr others h.1)
          (ap (λ b. b ∷ others) (sym (t.0 (==_eq a.ptr 0 e))));
  }
  | inr e ↦
      let r = join-undone ptr size others i (j + 1) t.1 h.1 (index_of-skip a others i j e f) in
      record {
        at = suc r.at;
        index = r.index ∙ omega arith;
        found = rw (==_ne a.ptr ptr h.0) r.found;
        undone = rw (==_ne a.ptr ptr h.0) (ap (λ bs. a ∷ bs) r.undone);
      }
]
