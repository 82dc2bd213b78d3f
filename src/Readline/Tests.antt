-- ===== src/Readline/Tests.antt =====
-- A line that is typed with a correction.
use vana.Prelude.{ℕ, ◌≡◌, refl, true, some, List, [], ◌∷◌, arith}
use vana.Readline.{terminal_readline}
use vana.Readline.Editing.{terminal_readline-edit}

-- a, b, backspace, no key, c, return, x
abbrev typed_keys : List ℕ
typed_keys = b'a' ∷ b'b' ∷ 8 ∷ 0 ∷ b'c' ∷ 13 ∷ b'x' ∷ []

terminal_readline-edit_example :
    (junk' shown : List ℕ) × (terminal_readline 8 typed_keys (1 ∷ 2 ∷ 3 ∷ 4 ∷ []) 4 true
      ≡ some (b'a' ∷ b'c' ∷ 0 ∷ junk', shown, b'x' ∷ []))
terminal_readline-edit_example =
    terminal_readline-edit 8 4 1 typed_keys (2 ∷ 3 ∷ 4 ∷ []) (b'c' ∷ b'a' ∷ []) (b'x' ∷ []) true
      (omega arith) (omega arith) (omega arith) refl
