-- ===== src/Memory/Heap/Runs.antt =====
-- When a run of free blocks exists, the search finds one; otherwise it can only stop in a free end
-- of the table that is too short.
use vana.Prelude.{
  ℕ, zero, suc, ◌+◌, ◌≤◌, ◌<◌, ◌≡◌, refl, Bool, true, false, ◌||◌, none, some, List, [], ◌∷◌, ◌++◌,
  arith, ap, length, Bool-cases, inl, inr,
}
use vana.Memory.Heap.Scan.{is_free, all_free, free_prefix, first_place}

-- Somewhere in the list stand `n` free entries in a row.
unfoldable pub has_run : ℕ → List ℕ → Bool
has_run n [] = free_prefix n []
has_run n (e ∷ es) = free_prefix n (e ∷ es) || has_run n es

-- The list begins with a run of `n` free entries, `run`.
pub record Run (n : ℕ) (es : List ℕ) : Type 0 where
  pub run : List ℕ
  pub rest : List ℕ
  pub cut : es ≡ run ++ rest
  pub size : length run ≡ n
  pub free : all_free run ≡ true

pub free_prefix-Run : (n : ℕ) (es : List ℕ) → free_prefix n es ≡ true → Run n es
free_prefix-Run zero es h = record { run = []; rest = es; cut = refl; size = refl; free = refl }
free_prefix-Run (suc n) [] h = cc
free_prefix-Run (suc n) (e ∷ es) h =
    let r = free_prefix-Run n es (ground arith) in
    record {
      run = e ∷ r.run;
      rest = r.rest;
      cut = ap (λ t. e ∷ t) r.cut;
      size = ap suc r.size;
      free = ground (arith, r.free);
    }

free_prefix-all_free :
    (n : ℕ) (es : List ℕ) → all_free es ≡ true → n ≤ length es → free_prefix n es ≡ true
free_prefix-all_free zero es h k = refl
free_prefix-all_free (suc n) [] h k = absurd (omega arith)
free_prefix-all_free (suc n) (e ∷ es) h k = ground (arith, free_prefix-all_free n es)

free_prefix-le : (n : ℕ) (es : List ℕ) → free_prefix n es ≡ true → n ≤ length es
free_prefix-le zero es h = omega arith
free_prefix-le (suc n) [] h = cc
free_prefix-le (suc n) (e ∷ es) h = ground (arith, free_prefix-le n es)

has_run-le : (n : ℕ) (es : List ℕ) → has_run n es ≡ true → n ≤ length es
unfolding has_run
has_run-le n [] h = free_prefix-le n [] h
has_run-le n (e ∷ es) h = ground (arith, free_prefix-le n (e ∷ es), has_run-le n es)

-- The place that the search finds: `after` begins with the run, or is the free end of the table.
pub record Found (n : ℕ) (es : List ℕ) (i b : ℕ) : Type 0 where
  pub before : List ℕ
  pub after : List ℕ
  pub cut : es ≡ before ++ after
  pub at : b ≡ i + length before

pub record Short (n : ℕ) (es : List ℕ) (i b : ℕ) : Type 0 where
  pub place : Found n es i b
  pub free : all_free place.after ≡ true
  pub short : length place.after < n

Found-cons : {n : ℕ} {es : List ℕ} {i b : ℕ} (e : ℕ) → Found n es (i + 1) b → Found n (e ∷ es) i b
Found-cons e p = record {
  before = e ∷ p.before;
  after = p.after;
  cut = ap (λ t. e ∷ t) p.cut;
  at = omega (arith, p.at);
}

pub first_place-Run :
    (n : ℕ) (es : List ℕ) (i : ℕ)
    → 0 < n
    → has_run n es ≡ true
    → (b : ℕ) × (p : Found n es i b) × (first_place n es i ≡ some b) × Run n p.after
unfolding first_place has_run Found-cons
first_place-Run zero es i pos h = absurd (omega arith)
first_place-Run (suc n) [] i pos h = cc
first_place-Run (suc n) (e ∷ es) i pos h =
    elim (Bool-cases (free_prefix (suc n) (e ∷ es) || all_free (e ∷ es))) [
      | inl here ↦ (
        i,
        record { before = []; after = e ∷ es; cut = refl; at = omega arith },
        rw here,
        free_prefix-Run (suc n) (e ∷ es)
            (ground (arith, free_prefix-all_free (suc n) (e ∷ es), has_run-le (suc n) es)),
      )
      | inr later ↦
          let (b, p, found, run) = first_place-Run (suc n) es (i + 1) pos (ground arith) in
          (b, Found-cons e p, rw later found, run)
    ]

lt_of_not_le : {a b : ℕ} → (a ≤ b → ⊥) → b < a
lt_of_not_le h = omega arith

pub first_place-Short :
    (n : ℕ) (es : List ℕ) (i b : ℕ)
    → has_run n es ≡ false
    → first_place n es i ≡ some b
    → Short n es i b
unfolding first_place has_run Found-cons
first_place-Short n [] i b h f = cc
first_place-Short n (e ∷ es) i b h f =
    elim (Bool-cases (free_prefix n (e ∷ es) || all_free (e ∷ es))) [
      | inl here ↦ record {
        place = record { before = []; after = e ∷ es; cut = refl; at = ground arith };
        free = ground arith;
        short =
            lt_of_not_le (λ k. ground (arith, free_prefix-all_free n (e ∷ es) (ground arith) k));
      }
      | inr later ↦
          let s = first_place-Short n es (i + 1) b (ground arith) (ground arith) in
          record { place = Found-cons e s.place; free = s.free; short = s.short }
    ]

-- With a free last entry the search stops somewhere; with a taken one it needs a run.
pub first_place_last_free :
    (n : ℕ) (pre : List ℕ) (x i : ℕ)
    → is_free x ≡ true
    → (b : ℕ) × (first_place n (pre ++ x ∷ []) i ≡ some b)
unfolding first_place
first_place_last_free n [] x i h = (i, ground arith)
first_place_last_free n (y ∷ pre) x i h =
    elim (Bool-cases (free_prefix n (y ∷ pre ++ x ∷ []) || all_free (y ∷ pre ++ x ∷ []))) [
      | inl here ↦ (i, rw here)
      | inr later ↦ let (b, found) = first_place_last_free n pre x (i + 1) h in (b, rw later found)
    ]

pub all_free_last : (pre : List ℕ) (x : ℕ) → is_free x ≡ false → all_free (pre ++ x ∷ []) ≡ false
all_free_last [] x h = ground arith
all_free_last (y ∷ pre) x h = ground (arith, all_free_last pre x h)

pub first_place_last_taken :
    (n : ℕ) (pre : List ℕ) (x i : ℕ)
    → is_free x ≡ false
    → has_run n (pre ++ x ∷ []) ≡ false
    → first_place n (pre ++ x ∷ []) i ≡ none
unfolding first_place has_run
first_place_last_taken n [] x i h k = ground arith
first_place_last_taken n (y ∷ pre) x i h k =
    ground (arith, all_free_last (y ∷ pre) x h, first_place_last_taken n pre x (i + 1))
