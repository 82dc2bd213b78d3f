-- ===== src/Console/Clear.antt =====
-- The initialization of the console clears the screen.
use vana.Prelude.{
  append_assoc, ℕ, zero, suc, ◌+◌, ◌*◌, ◌≡◌, refl, sym, ap, ◌∙◌, some, List, [], ◌∷◌, ◌++◌, arith,
  length, length-append, append-shift, length-snoc, length-replicate, replicate,
}
use vana.Console.{
  vga_width, vga_height, terminal_make_char, clear_row, clear_rows, terminal_initialize,
}
use vana.Console.Screen.{console, putchar-append}

abbrev pub blank : ℕ
blank = terminal_make_char b' ' 0

split_at :
    (n m : ℕ) (xs : List ℕ)
    → length xs ≡ n + m
    → (ys zs : List ℕ) × (xs ≡ ys ++ zs) × (length ys ≡ n) × (length zs ≡ m)
split_at zero m xs h = ([], xs, refl, refl, omega arith)
split_at (suc n) m [] h = absurd (omega arith)
split_at (suc n) m (x ∷ xs) h =
    let (ys, zs, e, a, b) = split_at n m xs (omega arith) in
    (x ∷ ys, zs, ap (λ t. x ∷ t) e, omega arith, b)

clear_row-blanks :
    (n : ℕ) (pre old post : List ℕ) (x y row col : ℕ)
    → y * vga_width + x ≡ length pre
    → length old ≡ n
    → clear_row n x y (console (pre ++ (old ++ post)) row col)
      ≡ some (console (pre ++ (replicate n blank ++ post)) row col)
unfolding clear_row
clear_row-blanks zero pre [] post x y row col p h = refl
clear_row-blanks zero pre (d ∷ old) post x y row col p h = absurd (omega arith)
clear_row-blanks (suc n) pre [] post x y row col p h = absurd (omega arith)
clear_row-blanks (suc n) pre (d ∷ old) post x y row col p h =
    rw
      (
        putchar-append pre d b' ' 0 (old ++ post) x y (console (pre ++ d ∷ (old ++ post)) row col)
            refl p,
        append-shift pre blank (old ++ post),
        append-shift pre blank (replicate n blank ++ post),
      )
      (clear_row-blanks n (pre ++ blank ∷ []) old post (x + 1) y row col
        (omega (arith, length-snoc pre blank)) (omega arith))

suc_plus : (m n : ℕ) → suc (m + n) ≡ suc m + n
suc_plus m n = omega arith

replicate-append : (m n v : ℕ) → replicate m v ++ replicate n v ≡ replicate (m + n) v
replicate-append zero n v = ap (λ k. replicate k v) (omega arith)
replicate-append (suc m) n v =
    ap (λ t. v ∷ t) (replicate-append m n v) ∙ ap (λ k. replicate k v) (suc_plus m n)

rows_suc : (n : ℕ) → vga_width + n * vga_width ≡ suc n * vga_width
rows_suc n = omega arith

-- A row and the rows behind it, put together.
join_rows :
    (n : ℕ) (pre post : List ℕ)
    → pre ++ replicate vga_width blank ++ (replicate (n * vga_width) blank ++ post)
      ≡ pre ++ (replicate (suc n * vga_width) blank ++ post)
join_rows n pre post =
    append_assoc pre (replicate vga_width blank) (replicate (n * vga_width) blank ++ post)
    ∙ ap (λ t. pre ++ t)
        (sym (append_assoc (replicate vga_width blank) (replicate (n * vga_width) blank) post))
    ∙ ap (λ t. pre ++ (t ++ post)) (replicate-append vga_width (n * vga_width) blank)
    ∙ ap (λ k. pre ++ (replicate k blank ++ post)) (rows_suc n)

next_row :
    (y : ℕ) (pre cells : List ℕ)
    → y * vga_width ≡ length pre
    → length cells ≡ vga_width
    → (y + 1) * vga_width ≡ length (pre ++ cells)
next_row y pre cells p h = omega (arith, length-append pre cells)

clear_rows-blanks :
    (n : ℕ) (pre old post : List ℕ) (y row col : ℕ)
    → y * vga_width ≡ length pre
    → length old ≡ n * vga_width
    → clear_rows n y (console (pre ++ (old ++ post)) row col)
      ≡ some (console (pre ++ (replicate (n * vga_width) blank ++ post)) row col)
unfolding clear_rows
clear_rows-blanks zero pre [] post y row col p h = refl
clear_rows-blanks zero pre (d ∷ old) post y row col p h = absurd (omega arith)
clear_rows-blanks (suc n) pre old post y row col p h =
    let (first, others, e, a, b) = split_at vga_width (n * vga_width) old (omega arith) in
    let cleared = replicate vga_width blank in
    rw
      (
        e,
        append_assoc first others post,
        clear_row-blanks vga_width pre first (others ++ post) 0 y row col (omega arith) a,
        sym (append_assoc pre cleared (others ++ post)),
        clear_rows-blanks n (pre ++ cleared) others post (y + 1) row col
            (next_row y pre cleared p (length-replicate vga_width blank)) b,
        join_rows n pre post,
      )
      refl

-- The initialization fills the 80 * 20 cells of the screen with blanks of the colour 0, keeps the
-- memory behind them, and puts the cursor in the first row and column.
pub terminal_initialize-blanks :
    (old post : List ℕ)
    → length old ≡ vga_height * vga_width
    → terminal_initialize (old ++ post)
      ≡ some (console (replicate (vga_height * vga_width) blank ++ post) 0 0)
unfolding terminal_initialize
terminal_initialize-blanks old post h = clear_rows-blanks vga_height [] old post 0 0 0 refl h
