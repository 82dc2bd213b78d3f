-- ===== src/Console/Screen.antt =====
-- The console against positions on the screen: the cursor's is `row * 80 + col`.
use vana.Prelude.{
  ℕ, suc, ◌+◌, ◌-◌, ◌*◌, ◌/◌, ◌%◌, ◌^◌, ◌<◌, ◌≡◌, ◌≢◌, ◌==◌, ◌&&◌, refl, none, sym, ap, ap₂, ◌∙◌,
  Bool, true, false, Bool-cases, inl, inr, if◌then◌else◌, some, set, subst, List, [], ◌∷◌, ◌++◌,
  map, arith, ltb, leb, ==_ne, lt→ltb, length, length-append, set-append, append-shift, length-snoc,
}
use vana.Strings.Lengths.{strlen-length, IsText}
use vana.Console.{
  Console, vga_width, terminal_make_char, terminal_putchar, write_cell, terminal_backspace,
  terminal_writechar, print_loop, print,
}

-- The console whose cursor is at a position.
abbrev pub cursor_at : ℕ → List ℕ → Console
cursor_at p cells = record {
  video_mem = cells;
  terminal_row = p / vga_width;
  terminal_col = p % vga_width;
}

pub putchar-append :
    (pre : List ℕ) (d c colour : ℕ) (post : List ℕ) (x y : ℕ) (k : Console)
    → k.video_mem ≡ pre ++ d ∷ post
    → y * vga_width + x ≡ length pre
    → terminal_putchar x y c colour k
      ≡ some (record k { video_mem = pre ++ terminal_make_char c colour ∷ post })
unfolding terminal_putchar
putchar-append pre d c colour post x y k e p =
    rw
      (
        e,
        p,
        lt→ltb (length pre) (length (pre ++ d ∷ post))
            (omega (arith, length-append pre (d ∷ post))),
        set-append pre d (terminal_make_char c colour) post,
      )
      refl

row_end :
    (p : ℕ)
    → leb vga_width ((p % vga_width + 1) % 2 ^ 16) ≡ true
    → p + 1 < 65535 * vga_width
    → (p / vga_width + 1) % 2 ^ 16 ≡ (p + 1) / vga_width
row_end p e h = ground arith

col_end :
    (p : ℕ)
    → leb vga_width ((p % vga_width + 1) % 2 ^ 16) ≡ true
    → p + 1 < 65535 * vga_width
    → 0 ≡ (p + 1) % vga_width
col_end p e h = ground arith

row_on :
    (p : ℕ)
    → leb vga_width ((p % vga_width + 1) % 2 ^ 16) ≡ false
    → p + 1 < 65535 * vga_width
    → p / vga_width ≡ (p + 1) / vga_width
row_on p e h = ground arith

col_on :
    (p : ℕ)
    → leb vga_width ((p % vga_width + 1) % 2 ^ 16) ≡ false
    → p + 1 < 65535 * vga_width
    → (p % vga_width + 1) % 2 ^ 16 ≡ (p + 1) % vga_width
col_on p e h = ground arith

abbrev pub console : List ℕ → ℕ → ℕ → Console
console cells row col = record { video_mem = cells; terminal_row = row; terminal_col = col }

-- The cursor moves to the next position, over the end of a row too.
advance :
    (p : ℕ) (cells : List ℕ)
    → p + 1 < 65535 * vga_width
    → (if leb vga_width ((p % vga_width + 1) % 2 ^ 16)
        then console cells ((p / vga_width + 1) % 2 ^ 16) 0
        else console cells (p / vga_width) ((p % vga_width + 1) % 2 ^ 16))
      ≡ cursor_at (p + 1) cells
advance p cells h = elim (Bool-cases (leb vga_width ((p % vga_width + 1) % 2 ^ 16))) [
  | inl e ↦ rw e (ap₂ (console cells) (row_end p e h) (col_end p e h))
  | inr e ↦ rw e (ap₂ (console cells) (row_on p e h) (col_on p e h))
]

pub write_cell-append :
    (pre : List ℕ) (d c colour : ℕ) (post : List ℕ)
    → length pre + 1 < 65535 * vga_width
    → write_cell c colour (cursor_at (length pre) (pre ++ d ∷ post))
      ≡ some (cursor_at (length pre + 1) (pre ++ terminal_make_char c colour ∷ post))
unfolding write_cell
write_cell-append pre d c colour post h =
    rw
      (putchar-append pre d c colour post (length pre % vga_width) (length pre / vga_width)
        (cursor_at (length pre) (pre ++ d ∷ post)) refl (omega arith))
      (ap some (advance (length pre) (pre ++ terminal_make_char c colour ∷ post) h))

-- A character that stands for itself on the screen.
abbrev pub IsPlain : List ℕ → Type 0
IsPlain [] = Unit
IsPlain (c ∷ s) = (c ≢ 10) × (c ≢ 0x08) × IsPlain s

-- The cells that a string fills.
abbrev pub cells_of : List ℕ → List ℕ
cells_of s = map (λ c. terminal_make_char c 15) s

snoc_end : (pre : List ℕ) (d n : ℕ) → length (pre ++ d ∷ []) + n ≡ length pre + suc n
snoc_end pre d n = omega (arith, length-snoc pre d)

plus_zero : (n : ℕ) → n ≡ n + 0
plus_zero n = omega arith

print_loop-plain :
    (s rest pre old post : List ℕ)
    → IsPlain s
    → length old ≡ length s
    → length pre + length s < 65535 * vga_width
    → print_loop (length s) (s ++ rest) (cursor_at (length pre) (pre ++ (old ++ post)))
      ≡ some (cursor_at (length pre + length s) (pre ++ (cells_of s ++ post)))
unfolding print_loop terminal_writechar
print_loop-plain [] rest pre [] post h e l =
    ap (λ p. some (cursor_at p (pre ++ post))) (plus_zero (length pre))
print_loop-plain [] rest pre (d ∷ old) post h e l = absurd (omega arith)
print_loop-plain (c ∷ s) rest pre [] post h e l = absurd (omega arith)
print_loop-plain (c ∷ s) rest pre (d ∷ old) post h e l =
    let cell = terminal_make_char c 15 in
    rw (==_ne c 10 h.0, ==_ne c 0x08 h.1, write_cell-append pre d c 15 (old ++ post) (omega arith))
      (rw
        (
          append-shift pre cell (old ++ post),
          append-shift pre cell (cells_of s ++ post),
          sym (length-snoc pre cell),
        )
        (print_loop-plain s rest (pre ++ cell ∷ []) old post h.2 (omega arith)
            (omega (arith, length-snoc pre cell))
          ∙ ap (λ p. some (cursor_at p (pre ++ cell ∷ [] ++ (cells_of s ++ post))))
              (snoc_end pre cell (length s))))

-- Printing a terminated string without newlines and backspaces, where the cells behind the cursor
-- hold it, writes its characters there one after another, over the ends of rows too, and leaves the
-- cursor behind the last of them.
pub print-cells :
    (s rest pre old post : List ℕ)
    → IsText s
    → IsPlain s
    → length old ≡ length s
    → length pre + length s < 65535 * vga_width
    → print (s ++ 0 ∷ rest) (cursor_at (length pre) (pre ++ (old ++ post)))
      ≡ some (cursor_at (length pre + length s) (pre ++ (cells_of s ++ post)))
unfolding print
print-cells s rest pre old post t h e l =
    rw (strlen-length s rest t) (print_loop-plain s (0 ∷ rest) pre old post h e l)

and_false : (b : Bool) → (b && false) ≡ false
and_false true = refl
and_false false = refl

back_col : (p : ℕ) → (p + 1) % vga_width ≢ 0 → (p + 1) % vga_width - 1 ≡ p % vga_width
back_col p h = omega arith

back_row : (p : ℕ) → (p + 1) % vga_width ≢ 0 → (p + 1) / vga_width ≡ p / vga_width
back_row p h = omega arith

back_end :
    (p : ℕ)
    → (p + 1) % vga_width ≢ 0
    → ((p + 1) % vga_width + (2 ^ 16 - 1)) % 2 ^ 16 ≡ p % vga_width
back_end p h = omega arith

-- A backspace anywhere but at the start of a row clears the cell before the cursor and moves the
-- cursor there.
pub terminal_backspace-clears :
    (pre : List ℕ) (d : ℕ) (post : List ℕ)
    → (length pre + 1) % vga_width ≢ 0
    → length pre + 1 < 65535 * vga_width
    → terminal_backspace (cursor_at (length pre + 1) (pre ++ d ∷ post))
      ≡ some (cursor_at (length pre) (pre ++ terminal_make_char b' ' 15 ∷ post))
unfolding terminal_backspace
terminal_backspace-clears pre d post h l =
    let p = length pre in
    let e = write_cell-append pre d b' ' 15 post l in
    rw
      (
        ==_ne ((p + 1) % vga_width) 0 h,
        and_false ((p + 1) / vga_width == 0),
        back_row p h,
        back_col p h,
        e,
      )
      (ap₂ (λ r c. some (console (pre ++ terminal_make_char b' ' 15 ∷ post) r c)) (back_row p h)
        (back_end p h))

cursor_start : (p : ℕ) → (p + 1) % vga_width ≡ 0 → (p + 1) / vga_width - 1 ≡ p / vga_width
cursor_start p h = omega arith

col_start : (p : ℕ) → (p + 1) % vga_width ≡ 0 → vga_width - 1 ≡ p % vga_width
col_start p h = omega arith

row_pos : (p : ℕ) → (p + 1) % vga_width ≡ 0 → (p + 1) / vga_width ≢ 0
row_pos p h e = omega arith

-- A backspace at the start of a row below the first clears the last cell of the row above, but
-- leaves the cursor in the column 65535 of the row where it was.
pub terminal_backspace-row_start :
    (pre : List ℕ) (d : ℕ) (post : List ℕ)
    → (length pre + 1) % vga_width ≡ 0
    → length pre + 1 < 65535 * vga_width
    → terminal_backspace (cursor_at (length pre + 1) (pre ++ d ∷ post))
      ≡ some
          (console (pre ++ terminal_make_char b' ' 15 ∷ post) ((length pre + 1) / vga_width) 65535)
unfolding terminal_backspace
terminal_backspace-row_start pre d post h l =
    let p = length pre in
    let e = write_cell-append pre d b' ' 15 post l in
    rw (==_ne ((p + 1) / vga_width) 0 (row_pos p h), h, cursor_start p h, col_start p h, e, h) refl

-- A character written with the cursor in the column 65535 of the row that starts at a position.
write_behind :
    (p c : ℕ) (cells : List ℕ)
    → c ≢ 10
    → c ≢ 0x08
    → terminal_writechar c 15 (console cells (p / vga_width) 65535) ≡ (
        if ltb (p / vga_width * vga_width + 65535) (length cells)
        then some (
            console
              (set cells (p / vga_width * vga_width + 65535) (terminal_make_char c 15))
              (p / vga_width)
              0)
        else none)
unfolding terminal_writechar write_cell terminal_putchar
write_behind p c cells n b =
    elim (Bool-cases (ltb (p / vga_width * vga_width + 65535) (length cells))) [
      | inl e ↦ rw (==_ne c 10 n, ==_ne c 0x08 b, e) refl
      | inr e ↦ rw (==_ne c 10 n, ==_ne c 0x08 b, e) refl
    ]

start_of_row : (p : ℕ) → p % vga_width ≡ 0 → p / vga_width * vga_width + 65535 ≡ p + 65535
start_of_row p h = omega arith

-- A backspace at the start of a row below the first clears the last cell of the row above, but leaves
-- the cursor in the column 65535 of the row where it was. A plain character written next goes to the
-- cell 65535 behind the start of that row, which fails where the memory ends before it.
pub backspace_row_start-outside :
    (pre : List ℕ) (d c : ℕ) (post : List ℕ)
    → (length pre + 1) % vga_width ≡ 0
    → c ≢ 10
    → c ≢ 0x08
    → length pre + 1 < 65535 * vga_width
    → let row = (length pre + 1) / vga_width in
      let cells = pre ++ terminal_make_char b' ' 15 ∷ post in
      let behind = length pre + 1 + 65535 in
      (terminal_backspace (cursor_at (length pre + 1) (pre ++ d ∷ post))
        ≡ some (console cells row 65535))
      × (terminal_writechar c 15 (console cells row 65535) ≡ (
          if ltb behind (length cells)
          then some (console (set cells behind (terminal_make_char c 15)) row 0)
          else none))
backspace_row_start-outside pre d c post h n b l =
    let cells = pre ++ terminal_make_char b' ' 15 ∷ post in
    (
      terminal_backspace-row_start pre d post h l,
      subst
          (λ q. terminal_writechar c 15 (console cells ((length pre + 1) / vga_width) 65535) ≡ (
            if ltb q (length cells)
            then some
                (console (set cells q (terminal_make_char c 15)) ((length pre + 1) / vga_width) 0)
            else none))
          (start_of_row (length pre + 1) h) (write_behind (length pre + 1) c cells n b),
    )
