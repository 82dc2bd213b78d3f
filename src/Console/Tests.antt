-- ===== src/Console/Tests.antt =====
-- The console on small inputs, and the theorems at them.
use vana.Prelude.{◌≡◌, refl, List, [], ◌∷◌, ◌++◌, ℕ, some, none, arith, replicate}
use vana.Console.{terminal_writechar, terminal_backspace, terminal_make_char}
use vana.Console.Screen.{console, cursor_at, backspace_row_start-outside}

-- A newline moves to the start of the next row and writes nothing.
newline_row : terminal_writechar 10 15 (console (7 ∷ []) 0 3) ≡ some (console (7 ∷ []) 1 0)
unfolding terminal_writechar
newline_row = refl

-- The attribute is the high byte of a cell.
white_a : terminal_make_char b'A' 15 ≡ 0x0F41
unfolding terminal_make_char
white_a = refl

abbrev last_column : List ℕ
last_column = replicate 79 0

backspace_row_start-outside_example :
    (terminal_backspace (cursor_at 80 (last_column ++ 5 ∷ []))
      ≡ some (console (last_column ++ terminal_make_char b' ' 15 ∷ []) 1 65535))
    × (terminal_writechar b'A' 15 (console (last_column ++ terminal_make_char b' ' 15 ∷ []) 1 65535)
        ≡ none)
backspace_row_start-outside_example =
    backspace_row_start-outside last_column 5 b'A' [] refl (omega arith) (omega arith) (omega arith)
