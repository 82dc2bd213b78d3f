-- ===== src/Strings/Compare.antt =====
-- `strncmp` and `istrncmp` decide whether two strings agree on their first characters.
use vana.Prelude.{ℕ, zero, suc, ◌≡◌, refl, ◌↔◌, pos, some, List, [], ◌∷◌, ◌++◌, map, arith, take}
use vana.Strings.{tolower, strncmp, istrncmp}
use vana.Strings.Lengths.{IsText}

-- Two terminated strings compare as equal on `n` characters exactly when their first `n` characters
-- are the same.
pub strncmp_iff :
    (s t r q : List ℕ) (n : ℕ)
    → IsText s
    → IsText t
    → (strncmp (s ++ 0 ∷ r) (t ++ 0 ∷ q) n ≡ some (pos 0)) ↔ (take n s ≡ take n t)
unfolding strncmp
strncmp_iff s t r q zero h k = (λ _. refl, λ _. refl)
strncmp_iff [] [] r q (suc n) h k = (λ _. refl, λ _. refl)
strncmp_iff [] (d ∷ t) r q (suc n) h k = (λ e. ground arith, λ e. ground arith)
strncmp_iff (c ∷ s) [] r q (suc n) h k = (λ e. ground arith, λ e. ground arith)
strncmp_iff (c ∷ s) (d ∷ t) r q (suc n) h k =
    let ih = strncmp_iff s t r q n h.1 k.1 in (λ e. ground (arith, ih.0), λ e. ground (arith, ih.1))

-- Two terminated strings compare as equal on `n` characters, without regard to case, exactly when
-- their first `n` characters are the same in lower case.
pub istrncmp_iff :
    (s t r q : List ℕ) (n : ℕ)
    → IsText s
    → IsText t
    → (istrncmp (s ++ 0 ∷ r) (t ++ 0 ∷ q) n ≡ some (pos 0))
      ↔ (map tolower (take n s) ≡ map tolower (take n t))
unfolding istrncmp tolower
istrncmp_iff s t r q zero h k = (λ _. refl, λ _. refl)
istrncmp_iff [] [] r q (suc n) h k = (λ _. refl, λ _. refl)
istrncmp_iff [] (d ∷ t) r q (suc n) h k = (λ e. ground arith, λ e. ground arith)
istrncmp_iff (c ∷ s) [] r q (suc n) h k = (λ e. ground arith, λ e. ground arith)
istrncmp_iff (c ∷ s) (d ∷ t) r q (suc n) h k =
    let ih = istrncmp_iff s t r q n h.1 k.1 in
    (λ e. ground (arith, ih.0), λ e. ground (arith, ih.1))
