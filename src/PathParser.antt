-- ===== src/PathParser.antt =====
-- The path parser of src/fs/pparser.c. A path is the list of the bytes from the pointer on; the
-- outer `none` is an access outside a buffer, the inner one the null pointer. The linked list of
-- parts is a list of strings.
pub mod Leaks
pub mod RoundTrip
pub mod Safety
mod Tests
use vana.Prelude.{
  ℕ, zero, suc, ◌+◌, ◌-◌, Bool, true, false, not, ◌&&◌, ◌||◌, ℤ, pos, Option, none, some, List, [],
  ◌∷◌, Result, ok, err, Status, ◌>>=◌, ltb, leb, ◌==◌, if◌then◌else◌, length,
}
use vana.Memory.{memcmp}
use vana.Strings.{strlen, strnlen, isdigit}

abbrev pub max_path : ℕ
max_path = 108

-- The kernel heap as the parser sees it: what the next calls of `kzalloc` answer, and how many
-- allocations are live. When no answer is left, allocations succeed.
pub record Allocs : Type 0 where
  pub answers : List Bool
  pub live : ℕ

answer : List Bool → Bool × List Bool
answer [] = (true, [])
answer (a ∷ later) = (a, later)

unfoldable pub kzalloc : Allocs → Bool × Allocs
unfolding answer
kzalloc al =
    let (done, rest) = answer al.answers in
    (done, record { answers = rest; live = if done then al.live + 1 else al.live })

unfoldable pub kfree : Allocs → Allocs
kfree al = record al { live = al.live - 1 }

pub record PathRoot : Type 0 where
  pub drive_no : ℕ
  pub first : List (List ℕ)

is_pos_zero : ℤ → Bool
is_pos_zero (pos n) = n == 0
is_pos_zero d = false

-- `memcmp(&filename[1], ":/", 2) == 0`
drive_separator : List ℕ → Option Bool
drive_separator [] = none
drive_separator (_ ∷ rest) = do d ← memcmp rest (b':' ∷ b'/' ∷ []) 2; some (is_pos_zero d)

first_is_digit : List ℕ → Option Bool
first_is_digit [] = none
first_is_digit (c ∷ _) = some (isdigit c)

pub path_valid_format : List ℕ → Option Bool
path_valid_format filename = do
  len ← strnlen filename max_path
  let separated = drive_separator filename
  let checked = (do digit ← first_is_digit filename; if digit then separated else some false)
  if leb 3 len then checked else some false

-- The digit's value, and the pointer behind "<digit>:/".
skip_drive : List ℕ → Option (ℕ × List ℕ)
skip_drive (d ∷ _ ∷ _ ∷ path) = some (d - 48, path)
skip_drive _ = none

pub get_drive_by_path : List ℕ → Option (Result ℕ × List ℕ)
get_drive_by_path path = do
  valid ← path_valid_format path
  let skipped = (do (drive, rest) ← skip_drive path; some (ok drive, rest))
  if valid then skipped else some (err Status.ebadpath, path)

pub create_root : ℕ → Allocs → Option PathRoot × Allocs
create_root drive_number al =
    let (done, al') = kzalloc al in
    (if done then some (record { drive_no = drive_number; first = [] }) else none, al')

-- The loop that copies a component into the buffer of `max_path` bytes at index `i`: what it copies,
-- and where the pointer stops.
copy_part : ℕ → List ℕ → Option (List ℕ × List ℕ)
copy_part i [] = none
copy_part i (c ∷ path) =
    let go_on = (do (part, rest) ← copy_part (i + 1) path; some (c ∷ part, rest)) in
    if c == b'/' || c == 0 then some ([], c ∷ path) else if ltb i max_path then go_on else none

skip_slash : List ℕ → List ℕ
skip_slash [] = []
skip_slash (c ∷ path) = if c == b'/' then path else c ∷ path

-- An empty component gives the null pointer, and its buffer back.
finish_part : List ℕ → List ℕ → Allocs → Option (List ℕ) × List ℕ × Allocs
finish_part [] path al = (none, path, kfree al)
finish_part (c ∷ part) path al = (some (c ∷ part), path, al)

pub get_path_part : List ℕ → Allocs → Option (Option (List ℕ) × List ℕ × Allocs)
get_path_part path al =
    let (done, al') = kzalloc al in
    let read = (do
      (part, rest) ← copy_part 0 path
      some (finish_part part (skip_slash rest) al')) in
    if done then read else some (none, path, al')

-- The part, linked behind the one before it by the caller's list.
pub parse_path_part : List ℕ → Allocs → Option (Option (List ℕ) × List ℕ × Allocs)
parse_path_part path al = do
  (path_part_str, path', al') ← get_path_part path al
  let (done, al'') = kzalloc al'
  elim path_part_str [
    | none ↦ some (none, path', al')
    | some part ↦ some (if done then (some part, path', al'') else (none, path', kfree al''))
  ]

-- The `while (part)` loop. `none` at no fuel: it never comes to that from `parse`.
parse_rest : ℕ → List ℕ → Allocs → Option (List (List ℕ) × Allocs)
parse_rest zero path al = none
parse_rest (suc fuel) path al = do
  (part, path', al') ← parse_path_part path al
  elim part [
    | none ↦ some ([], al')
    | some p ↦ do (ps, al'') ← parse_rest fuel path' al'; some (p ∷ ps, al'')
  ]

-- After the drive: the root, the first part and the others, with the frees of the failed ways out.
parse_parts : ℕ → ℕ → List ℕ → Allocs → Option (Option PathRoot × Allocs)
parse_parts fuel drive path al =
    let (root, al1) = create_root drive al in
    let parts : Option (Option PathRoot × Allocs) = (do
      (first, path', al2) ← parse_path_part path al1
      elim first [
        | none ↦ some (none, kfree al2)
        | some p ↦ do
          (ps, al3) ← parse_rest fuel path' al2
          some (some (record { drive_no = drive; first = p ∷ ps }), al3)
      ]) in
    elim root [ none ↦ some (none, al1) | some _ ↦ parts ]

-- The rounds that `parse_rest` gets are more than the path has bytes.
pub parse : List ℕ → Allocs → Option (Option PathRoot × Allocs)
parse path al = do
  len ← strlen path
  let drive_and_parts = (do
    (drive, tmp_path) ← get_drive_by_path path
    elim drive [
      | err _ ↦ some (none, al)
      | ok drive_no ↦ parse_parts (len + 1) drive_no tmp_path al
    ])
  if ltb max_path len then some (none, al) else drive_and_parts

free_parts : List (List ℕ) → Allocs → Allocs
free_parts [] al = al
free_parts (_ ∷ ps) al = free_parts ps (kfree (kfree al))

pub free : PathRoot → Allocs → Allocs
free root al = kfree (free_parts root.first al)
