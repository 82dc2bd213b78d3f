-- ===== src/Fat16/Names.antt =====
-- Names of directory entries: padded on the disk, and as text.
pub mod Padded
use vana.Prelude.{
  ℕ, zero, suc, ◌-◌, ◌||◌, Option, none, some, List, [], ◌∷◌, ◌++◌, ◌==◌, if◌then◌else◌, ◌>>=◌,
  get_or, length, replicate, not, ◌&&◌,
}
use vana.Fat16.{FatDirectoryItem}

-- The characters written to the output, and whether the loop stays in the input. `last` is how many
-- more characters may follow this one: `size - 1 - i`.
unfoldable pub to_proper_string : List ℕ → ℕ → Option (List ℕ)
to_proper_string [] last = none
to_proper_string (c ∷ source) zero = some (if c == 0x00 || c == 0x20 then [] else c ∷ [])
to_proper_string (c ∷ source) (suc last) =
    let rest = (do out ← to_proper_string source last; some (c ∷ out)) in
    if c == 0x00 || c == 0x20 then some [] else rest

-- The buffer of `max_len` bytes: the name, and zeros behind it.
unfoldable pub get_full_relative_filename : FatDirectoryItem → ℕ → Option (List ℕ)
get_full_relative_filename item max_len = do
  name ← to_proper_string item.filename 7
  let first = get_or item.ext 0 0
  let with_ext = (do ext ← to_proper_string item.ext 2; some (name ++ (b'.' ∷ ext)))
  out ← (if not (first == 0x00) && not (first == 0x20) then with_ext else some name)
  some (out ++ replicate (max_len - length out) 0)
