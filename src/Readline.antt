-- ===== src/Readline.antt =====
-- The line reader of the user library, programs/stdlib/src/vana.c. What `vana_getkey` returns is a
-- list, with 0 while no key waits. `none`: a write outside the buffer, a key that never comes, or no
-- rounds left.
pub mod Editing
mod Tests
use vana.Prelude.{
  ℕ, zero, suc, ◌+◌, ◌-◌, Bool, ◌&&◌, Option, none, some, List, [], ◌∷◌, ◌++◌, ◌>>=◌, ltb, leb,
  ◌==◌, if◌then◌else◌, length, set,
}

unfoldable pub getkeyblock : List ℕ → Option (ℕ × List ℕ)
getkeyblock [] = none
getkeyblock (val ∷ keys) =
    let rest = getkeyblock keys in if val == 0 then rest else some (val, keys)

abbrev pub put : List ℕ → ℕ → ℕ → Option (List ℕ)
put out i c = if ltb i (length out) then some (set out i c) else none

-- The end: the terminator is written. The buffer, what was shown, and the keys that are left.
unfoldable pub readline_end : ℕ → List ℕ → List ℕ → List ℕ → Option (List ℕ × List ℕ × List ℕ)
readline_end i out shown keys = do out' ← put out i 0x00; some (out', shown, keys)

unfoldable pub readline_loop :
    ℕ → List ℕ → ℕ → Bool → ℕ → List ℕ → List ℕ → Option (List ℕ × List ℕ × List ℕ)
readline_loop zero keys max output_while_typing i out shown = none
readline_loop (suc rounds) keys max output_while_typing i out shown =
    let typed = (do
      (key, keys') ← getkeyblock keys
      let shown' = if output_while_typing then shown ++ (key ∷ []) else shown
      let erased = (do
        out' ← put out (i - 1) 0x00
        readline_loop rounds keys' max output_while_typing (i - 1) out' shown')
      let stored = (do
        out' ← put out i key
        readline_loop rounds keys' max output_while_typing (i + 1) out' shown')
      let go_on = if key == 0x08 && leb 1 i then erased else stored
      if key == 13 then readline_end i out shown keys' else go_on) in
    if ltb (i + 1) max then typed else readline_end i out shown keys

unfoldable pub terminal_readline :
    ℕ → List ℕ → List ℕ → ℕ → Bool → Option (List ℕ × List ℕ × List ℕ)
terminal_readline rounds keys out max output_while_typing =
    readline_loop rounds keys max output_while_typing 0 out []
