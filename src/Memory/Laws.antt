-- ===== src/Memory/Laws.antt =====
-- What memset, memcpy and memcmp do to a buffer that is large enough.
use vana.Prelude.{
  ℕ, ◌%◌, ◌≡◌, refl, pos, some, List, [], ◌∷◌, ◌++◌, arith, length, replicate, ==_refl,
}
use vana.Memory.{memset, memcmp, memcpy}

-- `memset` overwrites exactly the first `n` bytes, by the low byte of `c`.
pub memset-append :
    (xs rest : List ℕ) (c : ℕ)
    → memset (xs ++ rest) c (length xs) ≡ some (replicate (length xs) (c % 256) ++ rest)
unfolding memset
memset-append [] rest c = refl
memset-append (x ∷ xs) rest c = rw (memset-append xs rest c)

-- Copying `n` bytes and then comparing `n` bytes reports that they are equal, and the bytes of the
-- destination behind the first `n` are kept.
pub memcpy-append :
    (old rest src more : List ℕ)
    → length old ≡ length src
    → memcpy (old ++ rest) (src ++ more) (length src) ≡ some (src ++ rest)
unfolding memcpy
memcpy-append [] rest [] more h = refl
memcpy-append [] rest (b ∷ src) more h = absurd (omega arith)
memcpy-append (x ∷ old) rest [] more h = absurd (omega arith)
memcpy-append (x ∷ old) rest (b ∷ src) more h = rw (memcpy-append old rest src more (omega arith))

pub memcmp-append : (xs ys zs : List ℕ) → memcmp (xs ++ ys) (xs ++ zs) (length xs) ≡ some (pos 0)
unfolding memcmp
memcmp-append [] ys zs = refl
memcmp-append (x ∷ xs) ys zs = rw (==_refl x, memcmp-append xs ys zs)
