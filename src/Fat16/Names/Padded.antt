-- ===== src/Fat16/Names/Padded.antt =====
-- Names padded by spaces, and the text that they stand for.
use vana.Prelude.{
  ℕ, zero, suc, ◌+◌, ◌-◌, ◌≤◌, ◌≡◌, ◌≢◌, refl, false, ◌||◌, some, List, [], ◌∷◌, ◌++◌, append-nil,
  arith, ◌==◌, ==_ne, length, replicate,
}
use vana.Fat16.{FatDirectoryItem}
use vana.Fat16.Names.{to_proper_string, get_full_relative_filename}

-- Characters that are neither NUL nor a space.
abbrev pub IsSolid : List ℕ → Type 0
IsSolid [] = Unit
IsSolid (c ∷ s) = (c ≢ 0) × (c ≢ 0x20) × IsSolid s

abbrev pub padded : ℕ → List ℕ → List ℕ
padded n s = s ++ replicate (n - length s) 0x20

-- The extension with its dot, if there is one.
abbrev pub dotted : List ℕ → List ℕ
dotted [] = []
dotted (c ∷ ext) = b'.' ∷ c ∷ ext

solid : (c : ℕ) → c ≢ 0 → c ≢ 0x20 → (c == 0x00 || c == 0x20) ≡ false
solid c a b = ground arith

to_proper_string-append :
    (s : List ℕ) (r last : ℕ)
    → IsSolid s
    → length s + r ≡ suc last
    → to_proper_string (s ++ replicate r 0x20) last ≡ some s
unfolding to_proper_string
to_proper_string-append [] zero last h e = absurd (omega arith)
to_proper_string-append [] (suc r) zero h e = refl
to_proper_string-append [] (suc r) (suc last) h e = refl
to_proper_string-append (c ∷ []) r zero h e = rw (solid c h.0 h.1) refl
to_proper_string-append (c ∷ d ∷ s) r zero h e = absurd (omega arith)
to_proper_string-append (c ∷ s) r (suc last) h e =
    rw (solid c h.0 h.1, to_proper_string-append s r last h.2 (omega arith)) refl

pub to_proper_string-padded :
    (s : List ℕ) (last : ℕ)
    → IsSolid s
    → length s ≤ suc last
    → to_proper_string (padded (suc last) s) last ≡ some s
to_proper_string-padded s last h l =
    to_proper_string-append s (suc last - length s) last h (omega arith)

-- A name of at most 8 characters and an extension of at most 3, padded as on the disk, are read as
-- the name, a dot and the extension, or the name alone where there is no extension, with zeros
-- behind.
pub get_full_relative_filename-padded :
    (item : FatDirectoryItem) (name ext : List ℕ) (max_len : ℕ)
    → item.filename ≡ padded 8 name
    → item.ext ≡ padded 3 ext
    → IsSolid name
    → IsSolid ext
    → length name ≤ 8
    → length ext ≤ 3
    → get_full_relative_filename item max_len
      ≡ some (name ++ dotted ext ++ replicate (max_len - length (name ++ dotted ext)) 0)
unfolding get_full_relative_filename
get_full_relative_filename-padded item name [] max_len f e a b l k =
    rw (f, e, to_proper_string-padded name 7 a l) (rw (append-nil name) refl)
get_full_relative_filename-padded item name (c ∷ ext) max_len f e a b l k =
    rw
      (
        f,
        e,
        to_proper_string-padded name 7 a l,
        ==_ne c 0 b.0,
        ==_ne c 0x20 b.1,
        to_proper_string-padded (c ∷ ext) 2 b k,
      )
      refl
