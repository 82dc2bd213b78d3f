-- ===== src/Strings/Lengths.antt =====
-- Lengths and copies of NUL-terminated strings.
use vana.Prelude.{
  ℕ, zero, suc, ◌+◌, ◌-◌, ◌<◌, ◌≡◌, ◌≢◌, refl, some, List, [], ◌∷◌, ◌++◌, arith, ap, ◌∙◌, ==_ne,
  length, take, min,
}
use vana.Strings.{strlen, strnlen, strcpy, strncpy, strncpy_loop}

-- A string is its characters, none of them NUL.
abbrev pub IsText : List ℕ → Type 0
IsText [] = Unit
IsText (c ∷ s) = (c ≢ 0) × IsText s

-- `strlen` of a terminated string is the number of its characters, whatever follows the NUL.
pub strlen-length : (s rest : List ℕ) → IsText s → strlen (s ++ 0 ∷ rest) ≡ some (length s)
unfolding strlen
strlen-length [] rest h = refl
strlen-length (c ∷ s) rest h = rw (==_ne c 0 h.0, strlen-length s rest h.1) (ap some (omega arith))

-- `strnlen` of a terminated string is the number of its characters, or `max` if that is less.
pub strnlen-length :
    (s rest : List ℕ) (max : ℕ) → IsText s → strnlen (s ++ 0 ∷ rest) max ≡ some (min (length s) max)
unfolding strnlen
strnlen-length s rest zero h = ap some (omega arith)
strnlen-length [] rest (suc max) h = ap some (omega arith)
strnlen-length (c ∷ s) rest (suc max) h =
    rw (==_ne c 0 h.0, strnlen-length s rest max h.1) (ap some (omega arith))

-- Copying a string with its NUL overwrites as many bytes of the destination as it has, and keeps
-- those behind them.
pub strcpy-append :
    (s rest old more : List ℕ)
    → IsText s
    → length old ≡ length s + 1
    → strcpy (old ++ more) (s ++ 0 ∷ rest) ≡ some (s ++ 0 ∷ more)
unfolding strcpy
strcpy-append s rest [] more h k = absurd (omega arith)
strcpy-append [] rest (d ∷ []) more h k = refl
strcpy-append [] rest (d ∷ e ∷ old) more h k = absurd (omega arith)
strcpy-append (c ∷ s) rest (d ∷ old) more h k =
    rw (==_ne c 0 h.0, strcpy-append s rest old more h.1 (omega arith))

-- What a copy of at most `n` characters leaves in a destination: the characters, the NUL, and the
-- bytes of the destination from there on.
abbrev pub copied : ℕ → List ℕ → List ℕ → List ℕ
copied n s [] = []
copied zero s (d ∷ dest) = 0 ∷ dest
copied (suc n) [] (d ∷ dest) = 0 ∷ dest
copied (suc n) (c ∷ s) (d ∷ dest) = c ∷ copied n s dest

strncpy_loop-copied :
    (s rest dest : List ℕ) (n : ℕ)
    → IsText s
    → n < length dest
    → strncpy_loop dest (s ++ 0 ∷ rest) n ≡ some (copied n s dest)
unfolding strncpy_loop
strncpy_loop-copied s rest [] n h k = absurd (omega arith)
strncpy_loop-copied [] rest (d ∷ dest) zero h k = refl
strncpy_loop-copied (c ∷ s) rest (d ∷ dest) zero h k = refl
strncpy_loop-copied [] rest (d ∷ dest) (suc n) h k = refl
strncpy_loop-copied (c ∷ s) rest (d ∷ dest) (suc n) h k =
    rw (==_ne c 0 h.0, strncpy_loop-copied s rest dest n h.1 (omega arith))

-- A copy with a count of at least 1 that the destination can hold stays inside it.
pub strncpy-copied :
    (s rest dest : List ℕ) (count : ℕ)
    → IsText s
    → 0 < count
    → count < length dest + 1
    → strncpy dest (s ++ 0 ∷ rest) count ≡ some (copied (count - 1) s dest)
unfolding strncpy
strncpy-copied s rest dest count h p k = strncpy_loop-copied s rest dest (count - 1) h (omega arith)

-- Reading the destination back gives the string, cut to `count - 1` characters.
strlen-copied :
    (s dest : List ℕ) (n : ℕ)
    → IsText s
    → n < length dest
    → (more : List ℕ) × (copied n s dest ≡ take n s ++ 0 ∷ more)
strlen-copied s [] n h k = absurd (omega arith)
strlen-copied s (d ∷ dest) zero h k = (dest, refl)
strlen-copied [] (d ∷ dest) (suc n) h k = (dest, refl)
strlen-copied (c ∷ s) (d ∷ dest) (suc n) h k =
    let (more, e) = strlen-copied s dest n h.1 (omega arith) in (more, ap (λ t. c ∷ t) e)

-- Copying a terminated string with a count from 1 to the size of the destination stays inside the
-- destination, and leaves there the first `count - 1` characters of the string, terminated.
pub strncpy-take :
    (s rest dest : List ℕ) (count : ℕ)
    → IsText s
    → 0 < count
    → count < length dest + 1
    → (more : List ℕ) × (strncpy dest (s ++ 0 ∷ rest) count ≡ some (take (count - 1) s ++ 0 ∷ more))
strncpy-take s rest dest count h p k =
    let (more, e) = strlen-copied s dest (count - 1) h (omega arith) in
    (more, strncpy-copied s rest dest count h p k ∙ ap some e)
