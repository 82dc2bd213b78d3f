-- ===== src/Stdlib/Tests.antt =====
-- Numbers, formats and command lines at inputs.
use vana.Prelude.{
  ℕ, ◌≡◌, refl, true, false, negsuc, none, some, List, [], ◌∷◌, ◌++◌, map, arith, length-replicate,
  replicate,
}
use vana.Strings.Lengths.{IsText}
use vana.Stdlib.Itoa.{itoa, IsNumeral, itoa-IsNumeral}
use vana.Stdlib.Printf.{Piece}
use vana.Stdlib.Command.{Shell, parse_command}
use vana.Stdlib.Command.Ends.{parse_command-Returns}
use vana.Stdlib.Command.Parse.{argument_of, shell_at, parse_command-words}

-- -2147483648
itoa-IsNumeral_example :
    (s : List ℕ) × (itoa (negsuc 2147483647) ≡ some (s ++ 0 ∷ [])) × IsNumeral (negsuc 2147483647) s
itoa-IsNumeral_example = itoa-IsNumeral (negsuc 2147483647) (omega arith)

-- "x=%i%%" and -7
abbrev pieces : List Piece
pieces = Piece.plain b'x' ∷ Piece.plain b'=' ∷ Piece.number (negsuc 6) ∷ Piece.escaped b'%' ∷ []

-- " ab  c"
abbrev command : List ℕ
command = b' ' ∷ b'a' ∷ b'b' ∷ b' ' ∷ b' ' ∷ b'c' ∷ []

command-IsText : IsText command
command-IsText =
    (omega arith, (omega arith, (omega arith, (omega arith, (omega arith, (omega arith, tt))))))

abbrev buffer : List ℕ
buffer = replicate 1025 7

parse_command-words_example :
    parse_command 7 buffer (command ++ 0 ∷ []) 1024 (shell_at 3 none)
    ≡ some (map argument_of ((b'a' ∷ b'b' ∷ []) ∷ (b'c' ∷ []) ∷ []), shell_at 5 none)
parse_command-words_example =
    parse_command-words 7 3 1024 buffer command [] command-IsText (length-replicate {A = ℕ} 1025 7)
      (omega arith) (omega arith)

-- There is memory for one argument, and none for the next.
abbrev second_refused : Shell
second_refused = record { allocs = record { answers = true ∷ false ∷ []; live = 0 }; sp = none }

parse_command-Returns_example :
    (result : List (List ℕ) × Shell) × (parse_command 7 buffer
        (command ++ 0 ∷ [])
        1024
        second_refused
      ≡ some result)
parse_command-Returns_example =
    parse_command-Returns 7 1024 buffer command [] second_refused command-IsText
      (length-replicate {A = ℕ} 1025 7) (omega arith) refl
