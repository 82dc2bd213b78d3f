-- ===== src/Stdlib/Strtok.antt =====
-- `strtok` of programs/stdlib/src/string.c. A pointer is the list of the bytes from there to the end
-- of its buffer, `none` where it is null; the delimiters are characters without their NUL. The
-- outer `none` is a read behind a buffer. `sp` stands for live bytes here: its buffer is there as long
-- as the caller that cuts it (Command).
use vana.Prelude.{
  ℕ, Bool, false, ◌||◌, Option, none, some, List, [], ◌∷◌, ◌>>=◌, ◌==◌, if◌then◌else◌,
}

unfoldable pub is_delimiter : List ℕ → ℕ → Bool
is_delimiter [] c = false
is_delimiter (d ∷ delimiters) c = c == d || is_delimiter delimiters c

-- The first loop: past the delimiters.
unfoldable pub skip_delimiters : List ℕ → List ℕ → Option (List ℕ)
skip_delimiters delimiters [] = none
skip_delimiters delimiters (c ∷ p_start) =
    let rest = skip_delimiters delimiters p_start in
    if is_delimiter delimiters c then rest else some (c ∷ p_start)

-- The second loop: the bytes from the token on, with its end written, and `sp`.
unfoldable pub find_end : List ℕ → List ℕ → Option (List ℕ × List ℕ)
find_end delimiters [] = none
find_end delimiters (c ∷ sp) =
    let rest = (do (token, sp') ← find_end delimiters sp; some (c ∷ token, sp')) in
    if c == 0
    then some (c ∷ sp, c ∷ sp)
    else if is_delimiter delimiters c
    then some (0 ∷ sp, sp)
    else rest

abbrev pub start_of : Option (List ℕ) → Option (List ℕ) → Option (List ℕ)
start_of str none = str
start_of str (some sp) = some sp

abbrev pub is_end : List ℕ → Bool
is_end [] = false
is_end (c ∷ s) = c == 0

-- The token and `sp`. A string is only taken while `sp` is null.
unfoldable pub strtok :
    Option (List ℕ) → List ℕ → Option (List ℕ) → Option (Option (List ℕ) × Option (List ℕ))
strtok str delimiters sp = elim (start_of str sp) [
  | none ↦ some (none, none)
  | some start ↦ do
    p_start ← skip_delimiters delimiters start
    let token = (do (bytes, sp') ← find_end delimiters p_start; some (some bytes, some sp'))
    if is_end p_start then some (none, none) else token
]
