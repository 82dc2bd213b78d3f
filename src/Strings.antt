-- ===== src/Strings.antt =====
-- The string routines of src/string/string.c. A pointer into a string is the list of the bytes from
-- there to the end of its buffer; `none` is a read or a write outside the buffer.
pub mod Compare
pub mod Decimal
pub mod Lengths
mod Tests
use vana.Prelude.{
  ℕ, zero, suc, ◌+◌, ◌-◌, ◌/◌, ◌%◌, Bool, true, false, not, ◌&&◌, ◌||◌, ℤ, pos, negsuc, sub_ℕ,
  Option, none, some, List, [], ◌∷◌, ◌++◌, ◌>>=◌, leb, ltb, ◌==◌, if◌then◌else◌,
}

-- The byte of the result. A `char` of 128 or more is negative and stays as it is.
unfoldable pub tolower : ℕ → ℕ
tolower s1 = if leb 65 s1 && leb s1 90 then s1 + 32 else s1

unfoldable pub strlen : List ℕ → Option ℕ
strlen [] = none
strlen (c ∷ ptr) = let rest = (do n ← strlen ptr; some (n + 1)) in if c == 0 then some 0 else rest

unfoldable pub strnlen : List ℕ → ℕ → Option ℕ
strnlen ptr zero = some 0
strnlen [] (suc max) = none
strnlen (c ∷ ptr) (suc max) =
    let rest = (do n ← strnlen ptr max; some (n + 1)) in if c == 0 then some 0 else rest

unfoldable pub strnlen_terminator : List ℕ → ℕ → ℕ → Option ℕ
strnlen_terminator str zero terminator = some 0
strnlen_terminator [] (suc max) terminator = none
strnlen_terminator (c ∷ str) (suc max) terminator =
    let rest = (do n ← strnlen_terminator str max terminator; some (n + 1)) in
    if c == 0 || c == terminator then some 0 else rest

-- Bytes are compared as `unsigned char`, and the result is the difference of the bytes as they are.
unfoldable pub istrncmp : List ℕ → List ℕ → ℕ → Option ℤ
istrncmp s1 s2 zero = some (pos 0)
istrncmp [] s2 (suc n) = none
istrncmp (u1 ∷ s1) [] (suc n) = none
istrncmp (u1 ∷ s1) (u2 ∷ s2) (suc n) =
    let rest = istrncmp s1 s2 n in
    if not (u1 == u2) && not (tolower u1 == tolower u2)
    then some (sub_ℕ u1 u2)
    else if u1 == 0
    then some (pos 0)
    else rest

unfoldable pub strncmp : List ℕ → List ℕ → ℕ → Option ℤ
strncmp str1 str2 zero = some (pos 0)
strncmp [] str2 (suc n) = none
strncmp (u1 ∷ str1) [] (suc n) = none
strncmp (u1 ∷ str1) (u2 ∷ str2) (suc n) =
    let rest = strncmp str1 str2 n in
    if not (u1 == u2) then some (sub_ℕ u1 u2) else if u1 == 0 then some (pos 0) else rest

-- The buffer of `dest` after the copy. Reads of `src` and writes of `dest` are checked in turn.
pub strcpy : List ℕ → List ℕ → Option (List ℕ)
strcpy dest [] = none
strcpy [] (c ∷ src) = none
strcpy (d ∷ dest) (c ∷ src) =
    let rest = (do copied ← strcpy dest src; some (c ∷ copied)) in
    if c == 0 then some (0 ∷ dest) else rest

-- `n` is the number of characters that may still be copied, `count - 1` at first.
strncpy_loop : List ℕ → List ℕ → ℕ → Option (List ℕ)
strncpy_loop [] src n = none
strncpy_loop (d ∷ dest) src zero = some (0 ∷ dest)
strncpy_loop (d ∷ dest) [] (suc n) = none
strncpy_loop (d ∷ dest) (c ∷ src) (suc n) =
    let rest = (do copied ← strncpy_loop dest src n; some (c ∷ copied)) in
    if c == 0 then some (0 ∷ dest) else rest

-- With a count of 0 the loop is not entered either, and the NUL is written all the same.
pub strncpy : List ℕ → List ℕ → ℕ → Option (List ℕ)
strncpy dest src count = strncpy_loop dest src (count - 1)

unfoldable pub isdigit : ℕ → Bool
isdigit c = leb 48 c && leb c 57

-- For a digit; the source subtracts 48 from any character.
unfoldable pub tonumericdigit : ℕ → ℤ
tonumericdigit c = sub_ℕ c 48

-- `temp[0]` to `temp[i - 1]`, the lowest digit first. `value` is at least 0, and `fuel` is a bound on
-- the number of its digits.
digits_loop : ℕ → ℕ → List ℕ
digits_loop zero value = []
digits_loop (suc fuel) value =
    let rest = digits_loop fuel (value / 10) in if value == 0 then [] else (value % 10 + 48) ∷ rest

-- The second loop copies `temp` backwards.
copy_back : List ℕ → List ℕ → List ℕ
copy_back [] out = out
copy_back (c ∷ temp) out = copy_back temp (c ∷ out)

-- What is written to `out`. A negative value leaves the first loop at once, with no digit written.
-- An `int` that is not negative has at most 10 digits.
pub int_to_string : ℤ → List ℕ
int_to_string (pos value) =
    if value == 0 then b'0' ∷ 0 ∷ [] else copy_back (digits_loop 10 value) (0 ∷ [])
int_to_string (negsuc n) = copy_back [] (0 ∷ [])
