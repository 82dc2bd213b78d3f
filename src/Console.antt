-- ===== src/Console.antt =====
-- The text console of src/kernel.c. `video_mem` is the memory from 0xB8000 on, in cells of 16 bits;
-- a write behind its end gives none. The cursor wraps around like the code's 16-bit variables.
pub mod Clear
pub mod Screen
mod Tests
use vana.Prelude.{
  ℕ, zero, suc, ◌+◌, ◌-◌, ◌*◌, ◌%◌, ◌^◌, bit_or, Bool, ◌&&◌, Option, none, some, List, [], ◌∷◌, ltb,
  leb, ◌==◌, if◌then◌else◌, set, length, ◌>>=◌,
}
use vana.Strings.{strlen}

pub record Console : Type 0 where
  pub video_mem : List ℕ
  pub terminal_row : ℕ
  pub terminal_col : ℕ

abbrev pub vga_width : ℕ
vga_width = 80

abbrev pub vga_height : ℕ
vga_height = 20

-- The character and the colour are bytes. The code's `char` is signed: from 128 on its high bits
-- are all set, and so are those of the cell.
unfoldable pub terminal_make_char : ℕ → ℕ → ℕ
terminal_make_char c colour = bit_or (colour * 256 % 2 ^ 16) (if ltb c 128 then c else 0xFF00 + c)

unfoldable pub terminal_putchar : ℕ → ℕ → ℕ → ℕ → Console → Option Console
terminal_putchar x y c colour k =
    let cell = y * vga_width + x in
    if ltb cell (length k.video_mem)
    then some (record k { video_mem = set k.video_mem cell (terminal_make_char c colour) })
    else none

-- The end of `terminal_writechar`, behind its tests for a newline and a backspace.
unfoldable pub write_cell : ℕ → ℕ → Console → Option Console
write_cell c colour k = do
  k' ← terminal_putchar k.terminal_col k.terminal_row c colour k
  let col = (k'.terminal_col + 1) % 2 ^ 16
  some (
      if leb vga_width col
      then record k' { terminal_col = 0; terminal_row = (k'.terminal_row + 1) % 2 ^ 16 }
      else record k' { terminal_col = col })

-- The space that it writes is neither a newline nor a backspace, so `terminal_writechar` goes on to
-- its end.
unfoldable pub terminal_backspace : Console → Option Console
terminal_backspace k =
    let k' : Console =
      if k.terminal_col == 0
      then record k { terminal_row = k.terminal_row - 1; terminal_col = vga_width }
      else k in
    let erased : Option Console = (do
      k'' ← write_cell b' ' 15 (record k' { terminal_col = k'.terminal_col - 1 })
      some (record k'' { terminal_col = (k''.terminal_col + (2 ^ 16 - 1)) % 2 ^ 16 })) in
    if k.terminal_row == 0 && k.terminal_col == 0 then some k else erased

unfoldable pub terminal_writechar : ℕ → ℕ → Console → Option Console
terminal_writechar c colour k =
    if c == 10
    then some (record k { terminal_row = (k.terminal_row + 1) % 2 ^ 16; terminal_col = 0 })
    else if c == 0x08
    then terminal_backspace k
    else write_cell c colour k

-- `n` columns are left, and `x` is written next.
unfoldable pub clear_row : ℕ → ℕ → ℕ → Console → Option Console
clear_row zero x y k = some k
clear_row (suc n) x y k = do k' ← terminal_putchar x y b' ' 0 k; clear_row n (x + 1) y k'

unfoldable pub clear_rows : ℕ → ℕ → Console → Option Console
clear_rows zero y k = some k
clear_rows (suc n) y k = do k' ← clear_row vga_width 0 y k; clear_rows n (y + 1) k'

unfoldable pub terminal_initialize : List ℕ → Option Console
terminal_initialize memory =
    clear_rows vga_height 0 (record { video_mem = memory; terminal_row = 0; terminal_col = 0 })

unfoldable pub print_loop : ℕ → List ℕ → Console → Option Console
print_loop zero str k = some k
print_loop (suc n) [] k = none
print_loop (suc n) (c ∷ str) k = do k' ← terminal_writechar c 15 k; print_loop n str k'

unfoldable pub print : List ℕ → Console → Option Console
print str k = do len ← strlen str; print_loop len str k
