-- ===== src/Process/Slots/Running.antt =====
-- The process that runs.
use vana.Prelude.{
  ℕ, zero, suc, ◌⊎◌, ◌<◌, ◌≡◌, ◌≢◌, refl, sym, ap, ◌∙◌, arith, pos, Option, none, some, List, [],
  ◌∷◌, leb, ltb, ◌==◌, ==_ne, ==_refl, lt→ltb, true, false, length, get_or, set, length-set,
  get_or-set_self, get_or-set_ne, inl, inr,
}
use native.Mathlib.Decide.{ℕ_discrete}
use vana.Process.Slots.{
  ProcessTable, max_processes, process_get, process_switch, switch_to_any_loop,
  process_switch_to_any, process_unlink,
}

below_max : (k : ℕ) → k < max_processes → leb max_processes k ≡ false
below_max k l = ground arith

pub process_get-below :
    (t : ProcessTable) (k : ℕ) → k < max_processes → process_get (pos k) t ≡ get_or t.processes k 0
unfolding process_get
process_get-below t k l = rw (below_max k l) refl

-- The table has 12 slots, the current process has one, and no process has two.
pub record IsRunning (t : ProcessTable) : Type 0 where
  pub size : length t.processes ≡ max_processes
  pub is_process : t.current_process ≢ 0
  pub slot : ℕ
  pub in_table : slot < max_processes
  pub current : get_or t.processes slot 0 ≡ t.current_process
  pub once :
      (i j : ℕ)
      → i ≢ j
      → get_or t.processes i 0 ≢ 0
      → get_or t.processes i 0 ≢ get_or t.processes j 0

-- A process of the list, or none is there.
abbrev Switched : List ℕ → ProcessTable → Option ProcessTable → Type 0
Switched ps t r =
    ((k : ℕ) × (k < length ps)
      × (get_or ps k 0 ≢ 0)
      × (r ≡ some (process_switch (get_or ps k 0) t)))
    ⊎ ((r ≡ none) × ((k : ℕ) → get_or ps k 0 ≡ 0))

switch_to_any_loop-Switched :
    (ps : List ℕ) (t : ProcessTable) → Switched ps t (switch_to_any_loop ps t)
unfolding switch_to_any_loop
switch_to_any_loop-Switched [] t = inr (refl, λ k. refl)
switch_to_any_loop-Switched (p ∷ ps) t = elim (ℕ_discrete p 0) [
  | yes e ↦ skipped p ps t e (switch_to_any_loop-Switched ps t)
  | no n ↦ inl (0, omega arith, n, rw (==_ne p 0 n) refl)
]
  where
    all_zero :
        (p : ℕ) (ps : List ℕ)
        → p ≡ 0
        → ((k : ℕ) → get_or ps k 0 ≡ 0)
        → (k : ℕ) → get_or (p ∷ ps) k 0 ≡ 0
    all_zero p ps e h zero = e
    all_zero p ps e h (suc k) = h k

    skipped :
        (p : ℕ) (ps : List ℕ) (t : ProcessTable)
        → p ≡ 0
        → Switched ps t (switch_to_any_loop ps t)
        → Switched (p ∷ ps) t (switch_to_any_loop (p ∷ ps) t)
    skipped p ps t e (inl (k, l, n, r)) =
        let tested : (p == 0) ≡ true = rw e (==_refl 0) in inl (suc k, omega arith, n, rw tested r)
    skipped p ps t e (inr (r, z)) =
        let tested : (p == 0) ≡ true = rw e (==_refl 0) in inr (rw tested r, all_zero p ps e z)

-- What a process that leaves its slot leaves behind.
record Unlinked (p id : ℕ) (t t' : ProcessTable) : Type 0 where
  running : IsRunning t'
  free : process_get (pos id) t' ≡ 0
  others : (k : ℕ) → k ≢ id → process_get (pos k) t' ≡ process_get (pos k) t
  stays : t.current_process ≢ p → t'.current_process ≡ t.current_process

module _ (p id : ℕ) (t : ProcessTable) (r : IsRunning t) (here : get_or t.processes id 0 ≡ p)
    (given : p ≢ 0) (inside : id < max_processes) where
  emptied : get_or (set t.processes id 0) id 0 ≡ 0
  emptied = get_or-set_self t.processes id 0 0 (omega (arith, r.size))

  kept : (k : ℕ) → k ≢ id → get_or (set t.processes id 0) k 0 ≡ get_or t.processes k 0
  kept k n = get_or-set_ne t.processes id k 0 0 (λ e. n (sym e))

  not_emptied : (k : ℕ) → get_or (set t.processes id 0) k 0 ≢ 0 → k ≢ id
  not_emptied k n e = n (ap (λ j. get_or (set t.processes id 0) j 0) e ∙ emptied)

  still_once :
      (i j : ℕ)
      → i ≢ j
      → get_or (set t.processes id 0) i 0 ≢ 0
      → get_or (set t.processes id 0) i 0 ≢ get_or (set t.processes id 0) j 0
  still_once i j n h = elim (ℕ_discrete j id) [
    | yes e ↦ λ q. h (q ∙ ap (λ x. get_or (set t.processes id 0) x 0) e ∙ emptied)
    | no m ↦
        let i_other = not_emptied i h in
        rw (kept i i_other, kept j m) (r.once i j n (λ z. h (kept i i_other ∙ z)))
  ]

  -- Any process that is left can be the current one.
  Unlinked-current :
      (k c : ℕ)
      → k < max_processes
      → c ≢ 0
      → get_or (set t.processes id 0) k 0 ≡ c
      → (t.current_process ≢ p → c ≡ t.current_process)
      → Unlinked p id t (record { processes = set t.processes id 0; current_process = c })
  unfolding process_get
  Unlinked-current k c l n e s = record {
    running = record {
      size = length-set t.processes id 0 ∙ r.size;
      is_process = n;
      slot = k;
      in_table = l;
      current = e;
      once = still_once;
    };
    free = rw (below_max id inside) emptied;
    others = λ j m. rw (kept j m) refl;
    stays = s;
  }

  in_bounds : ltb id (length t.processes) ≡ true
  in_bounds = lt→ltb id (length t.processes) (omega (arith, r.size))

  -- A process that is not the current one leaves.
  unlink_other :
      t.current_process ≢ p
      → (t' : ProcessTable) × (process_unlink p id t ≡ some t') × Unlinked p id t t'
  unfolding process_unlink
  unlink_other n =
      let differ : r.slot ≢ id =
        λ e. n (sym r.current ∙ ap (λ k. get_or t.processes k 0) e ∙ here) in
      (
        record t { processes = set t.processes id 0 },
        rw (==_ne t.current_process p n, in_bounds) refl,
        Unlinked-current r.slot t.current_process r.in_table r.is_process
            (kept r.slot differ ∙ r.current) (λ m. refl),
      )

  -- The current one leaves.
  unlink_current :
      t.current_process ≡ p
      → ((t' : ProcessTable) × (process_unlink p id t ≡ some t') × Unlinked p id t t')
        ⊎ ((process_unlink p id t ≡ none) × ((k : ℕ) → k ≢ id → get_or t.processes k 0 ≡ 0))
  unfolding process_unlink process_switch_to_any process_switch
  unlink_current e =
      let tested : (t.current_process == p) ≡ true = rw e (==_refl p) in
      let unlinked : ProcessTable = record t { processes = set t.processes id 0 } in
      elim (switch_to_any_loop-Switched (set t.processes id 0) unlinked) [
        | inl (k, l, n, s) ↦ inl (
          record {
            processes = set t.processes id 0;
            current_process = get_or (set t.processes id 0) k 0;
          },
          rw (tested, in_bounds) s,
          Unlinked-current k (get_or (set t.processes id 0) k 0)
              (omega (arith, length-set t.processes id 0, r.size)) n refl (λ m. absurd (m e)),
        )
        | inr (s, z) ↦ inr (rw (tested, in_bounds) s, λ k m. sym (kept k m) ∙ z k)
      ]

-- A process in its slot leaves the table: afterwards its slot is free, every other slot is as
-- before, the current process still has a slot, and it changes only if it was the one that left. The
-- kernel panics exactly when the current process leaves and no other is there.
pub process_unlink-IsRunning :
    (p id : ℕ) (t : ProcessTable)
    → IsRunning t
    → process_get (pos id) t ≡ p
    → p ≢ 0
    → id < max_processes
    → ((t' : ProcessTable) × (process_unlink p id t ≡ some t')
        × IsRunning t'
        × (process_get (pos id) t' ≡ 0)
        × ((k : ℕ) → k ≢ id → process_get (pos k) t' ≡ process_get (pos k) t)
        × (t.current_process ≢ p → t'.current_process ≡ t.current_process))
      ⊎ ((process_unlink p id t ≡ none)
          × (t.current_process ≡ p)
          × ((k : ℕ) → k < max_processes → k ≢ id → process_get (pos k) t ≡ 0))
process_unlink-IsRunning p id t r h given l =
    let here = sym (process_get-below t id l) ∙ h in
    elim (ℕ_discrete t.current_process p) [
      | yes e ↦ elim (unlink_current p id t r here given l e) [
        | inl (t', done, u) ↦ inl (t', done, u.running, u.free, u.others, u.stays)
        | inr (panics, z) ↦ inr (panics, e, λ k b n. process_get-below t k b ∙ z k n)
      ]
      | no n ↦
          let (t', done, u) = unlink_other p id t r here given l n in
          inl (t', done, u.running, u.free, u.others, u.stays)
    ]
