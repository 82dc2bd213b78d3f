-- ===== src/Process/Slots/Free.antt =====
-- The slot that a new process gets.
use vana.Prelude.{
  ℕ, zero, suc, ◌+◌, ◌⊎◌, ◌<◌, ◌≡◌, ◌≢◌, refl, ap, ◌∙◌, arith, ℤ, pos, negsuc, List, [], ◌∷◌, ◌==◌,
  ==_ne, ==_refl, true, length, get_or, inl, inr,
}
use native.Mathlib.Decide.{ℕ_discrete}
use vana.Process.Slots.{
  ProcessTable, max_processes, process_get, free_slot_loop, process_get_free_slot,
}
use vana.Process.Slots.Running.{process_get-below}

abbrev FirstFree : List ℕ → ℕ → ℤ → Type 0
FirstFree ps i r =
    ((slot : ℕ) × (r ≡ pos (i + slot))
      × (slot < length ps)
      × (get_or ps slot 0 ≡ 0)
      × ((k : ℕ) → k < slot → get_or ps k 0 ≢ 0))
    ⊎ ((r ≡ negsuc 7) × ((k : ℕ) → k < length ps → get_or ps k 0 ≢ 0))

free_slot_loop-FirstFree : (ps : List ℕ) (i : ℕ) → FirstFree ps i (free_slot_loop ps i)
unfolding free_slot_loop
free_slot_loop-FirstFree [] i = inr (refl, λ k l. absurd (omega arith))
free_slot_loop-FirstFree (p ∷ ps) i = elim (ℕ_discrete p 0) [
  | yes e ↦ inl (0, here p ps i e, omega arith, e, λ k l. absurd (omega arith))
  | no n ↦ elim (free_slot_loop-FirstFree ps (i + 1)) [
    | inl (slot, r, l, z, below) ↦ inl (
      suc slot,
      rw (==_ne p 0 n) (r ∙ ap pos (shift i slot)),
      omega arith,
      z,
      not_before p ps slot n below,
    )
    | inr (r, full) ↦ inr (rw (==_ne p 0 n) r, not_before p ps (length ps) n full)
  ]
]
  where
    shift : (i slot : ℕ) → i + 1 + slot ≡ i + suc slot
    shift i slot = omega arith

    here : (p : ℕ) (ps : List ℕ) (i : ℕ) → p ≡ 0 → free_slot_loop (p ∷ ps) i ≡ pos (i + 0)
    here p ps i e =
        let tested : (p == 0) ≡ true = rw e (==_refl 0) in rw tested (ap pos (omega arith))

    not_before :
        (p : ℕ) (ps : List ℕ) (n : ℕ)
        → p ≢ 0
        → ((k : ℕ) → k < n → get_or ps k 0 ≢ 0)
        → (k : ℕ) → k < suc n
        → get_or (p ∷ ps) k 0 ≢ 0
    not_before p ps n ne h zero l = ne
    not_before p ps n ne h (suc k) l = h k (omega arith)

-- In a table of 12 processes the slot that `process_get_free_slot` returns is the first that no
-- process has, and -8 is returned exactly when every slot has one.
pub process_get_free_slot-first :
    (t : ProcessTable)
    → length t.processes ≡ max_processes
    → ((slot : ℕ) × (process_get_free_slot t ≡ pos slot)
        × (slot < max_processes)
        × (process_get (pos slot) t ≡ 0)
        × ((k : ℕ) → k < slot → process_get (pos k) t ≢ 0))
      ⊎ ((process_get_free_slot t ≡ negsuc 7)
          × ((k : ℕ) → k < max_processes → process_get (pos k) t ≢ 0))
unfolding process_get_free_slot
process_get_free_slot-first t size = elim (free_slot_loop-FirstFree t.processes 0) [
  | inl (slot, r, l, z, below) ↦ inl (
    slot,
    r ∙ ap pos (omega arith),
    omega (arith, size),
    process_get-below t slot (omega (arith, size)) ∙ z,
    λ k h. rw (process_get-below t k (omega (arith, size))) (below k h),
  )
  | inr (r, full) ↦ inr (r, λ k h. rw (process_get-below t k h) (full k (omega (arith, size))))
]
