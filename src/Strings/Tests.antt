-- ===== src/Strings/Tests.antt =====
-- Runs of the string routines, and the theorems at small strings.
use vana.Prelude.{ℕ, ◌≡◌, refl, pos, negsuc, some, List, [], ◌∷◌, ◌++◌, arith}
use vana.Strings.{
  tolower, strnlen, strnlen_terminator, istrncmp, int_to_string, digits_loop, copy_back,
}
use vana.Strings.Lengths.{strnlen-length}

-- "Ab" and "aB"
abbrev upper_lower : List ℕ
upper_lower = b'A' ∷ b'b' ∷ []

abbrev lower_upper : List ℕ
lower_upper = b'a' ∷ b'B' ∷ []

istrncmp_run : istrncmp (upper_lower ++ 0 ∷ []) (lower_upper ++ 0 ∷ []) 108 ≡ some (pos 0)
unfolding istrncmp tolower
istrncmp_run = refl

strnlen_terminator_run : strnlen_terminator (b'a' ∷ b'b' ∷ b'/' ∷ b'c' ∷ 0 ∷ []) 10 b'/' ≡ some 2
unfolding strnlen_terminator
strnlen_terminator_run = refl

int_to_string_run : int_to_string (pos 1205) ≡ b'1' ∷ b'2' ∷ b'0' ∷ b'5' ∷ 0 ∷ []
unfolding int_to_string digits_loop copy_back
int_to_string_run = refl

-- A negative value is written as the empty string.
int_to_string_negative : int_to_string (negsuc 4) ≡ 0 ∷ []
unfolding int_to_string copy_back
int_to_string_negative = refl

strnlen-length_example : strnlen (b'A' ∷ b'b' ∷ 0 ∷ 7 ∷ []) 108 ≡ some 2
strnlen-length_example = strnlen-length upper_lower (7 ∷ []) 108 (omega arith)
