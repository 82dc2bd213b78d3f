-- ===== src/Memory.antt =====
-- The memory helpers of src/memory/memory.c, over a buffer that is a list of bytes, and the heap.
pub mod Heap
pub mod Laws
use vana.Prelude.{
  ℕ, zero, suc, ◌+◌, ◌%◌, ℤ, pos, negsuc, Option, none, some, List, [], ◌∷◌, ◌>>=◌, ltb, ◌==◌,
  if◌then◌else◌,
}

-- Bytes from `ptr` on. `none`: the loop leaves the buffer.
unfoldable pub memset : List ℕ → ℕ → ℕ → Option (List ℕ)
memset buf c zero = some buf
memset [] c (suc n) = none
memset (_ ∷ buf) c (suc n) = do rest ← memset buf c n; some (c % 256 ∷ rest)

-- A `char` is signed: the bytes 128 to 255 stand for -128 to -1, below all others.
abbrev pub signed_key : ℕ → ℕ
signed_key b = (b + 128) % 256

unfoldable pub memcmp : List ℕ → List ℕ → ℕ → Option ℤ
memcmp s1 s2 zero = some (pos 0)
memcmp [] s2 (suc n) = none
memcmp (a ∷ s1) [] (suc n) = none
memcmp (a ∷ s1) (b ∷ s2) (suc n) =
    if a == b
    then memcmp s1 s2 n
    else some (if ltb (signed_key a) (signed_key b) then negsuc 0 else pos 1)

unfoldable pub memcpy : List ℕ → List ℕ → ℕ → Option (List ℕ)
memcpy dest src zero = some dest
memcpy dest [] (suc n) = none
memcpy [] (b ∷ src) (suc n) = none
memcpy (_ ∷ dest) (b ∷ src) (suc n) = do rest ← memcpy dest src n; some (b ∷ rest)
