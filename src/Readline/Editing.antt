-- ===== src/Readline/Editing.antt =====
-- What is typed, as a stack of characters, and the buffer that holds it.
use vana.Prelude.{
  ℕ, zero, suc, ◌+◌, ◌-◌, ◌≤◌, ◌<◌, ◌≡◌, refl, sym, ap, ◌∙◌, Bool, true, false, Bool-cases, inl,
  inr, ◌&&◌, Option, some, none, List, [], ◌∷◌, ◌++◌, arith, some-pair, subst, ltb, leb, lt→ltb,
  ◌==◌, ==_eq, if◌then◌else◌, length, length-append, length-snoc, set-append, append-shift,
}
use vana.Readline.{getkeyblock, put, readline_end, readline_loop, terminal_readline}

abbrev pub rev : List ℕ → List ℕ
rev [] = []
rev (c ∷ cs) = rev cs ++ c ∷ []

abbrev pub older : List ℕ → List ℕ
older [] = []
older (c ∷ line) = line

-- The line that the keys type, newest character first, and the keys behind it: less than `max`
-- characters, up to a carriage return. A backspace takes back the newest character; on an empty line
-- it is a character itself. A key 0 is none.
abbrev pub edit : ℕ → List ℕ → List ℕ → Option (List ℕ × List ℕ)
edit max line [] = if ltb (length line + 1) max then none else some (line, [])
edit max line (k ∷ keys) =
    let same = edit max line keys in
    let shorter = edit max (older line) keys in
    let longer = edit max (k ∷ line) keys in
    let change = if k == 0x08 && leb 1 (length line) then shorter else longer in
    let typed = if k == 0 then same else if k == 13 then some (line, keys) else change in
    if ltb (length line + 1) max then typed else some (line, k ∷ keys)

length-rev : (s : List ℕ) → length (rev s) ≡ length s
length-rev [] = refl
length-rev (c ∷ s) = length-snoc (rev s) c ∙ omega (arith, length-rev s)

-- The buffer holds the line, with something behind it.
abbrev pub holding : List ℕ → List ℕ → List ℕ
holding line junk = rev line ++ junk

put_behind :
    (line : List ℕ) (x c : ℕ) (junk : List ℕ)
    → put (holding line (x ∷ junk)) (length line) c ≡ some (holding line (c ∷ junk))
put_behind line x c junk = rw (sym (length-rev line)) (
    rw
      (lt→ltb (length (rev line)) (length (rev line ++ x ∷ junk))
        (omega (arith, length-append (rev line) (x ∷ junk))))
      (ap some (set-append (rev line) x c junk)))

-- What the loop gives when the keys type a line.
record Typed (line' keys' : List ℕ) (result : Option (List ℕ × List ℕ × List ℕ)) : Type 0 where
  junk : List ℕ
  shown : List ℕ
  returns : result ≡ some (holding line' (0 ∷ junk), shown, keys')

readline_end-Typed :
    (line : List ℕ) (x : ℕ) (junk shown keys : List ℕ)
    → Typed line keys (readline_end (length line) (holding line (x ∷ junk)) shown keys)
unfolding readline_end
readline_end-Typed line x junk shown keys = record {
  junk = junk;
  shown = shown;
  returns = rw (put_behind line x 0 junk) refl;
}

plus_one : (n : ℕ) → n + 1 ≡ suc n
plus_one n = omega arith

one_less : (n : ℕ) → suc n - 1 ≡ n
one_less n = omega arith

-- One round with a key: the buffer and the line change alike.
module _ (rounds max : ℕ) (echo : Bool) where
  loop_skips :
      (keys : List ℕ) (i : ℕ) (out shown : List ℕ)
      → ltb (i + 1) max ≡ true
      → readline_loop (suc rounds) (0 ∷ keys) max echo i out shown
        ≡ readline_loop (suc rounds) keys max echo i out shown
  unfolding readline_loop getkeyblock
  loop_skips keys i out shown h = rw h refl

  loop_ends :
      (keys line junk shown : List ℕ) (x : ℕ)
      → ltb (length line + 1) max ≡ true
      → Typed line keys (
          readline_loop
            (suc rounds)
            (13 ∷ keys)
            max
            echo
            (length line)
            (holding line (x ∷ junk))
            shown)
  unfolding readline_loop getkeyblock
  loop_ends keys line junk shown x h = rw h (readline_end-Typed line x junk shown keys)

  shown_after : ℕ → List ℕ → List ℕ
  shown_after k shown = if echo then shown ++ (k ∷ []) else shown

  loop_stores :
      (k : ℕ) (keys line junk shown : List ℕ) (x : ℕ)
      → ltb (length line + 1) max ≡ true
      → (k == 0) ≡ false
      → (k == 13) ≡ false
      → (k == 0x08 && leb 1 (length line)) ≡ false
      → readline_loop (suc rounds) (k ∷ keys) max echo (length line) (holding line (x ∷ junk)) shown
        ≡ readline_loop rounds keys max echo
            (length line + 1)
            (holding line (k ∷ junk))
            (shown_after k shown)
  unfolding readline_loop getkeyblock shown_after
  loop_stores k keys line junk shown x h z c b = rw (h, z, c, b, put_behind line x k junk) refl

  loop_erases :
      (k : ℕ) (keys line junk shown : List ℕ) (c x : ℕ)
      → ltb (length (c ∷ line) + 1) max ≡ true
      → (k == 0) ≡ false
      → (k == 13) ≡ false
      → (k == 0x08 && leb 1 (length (c ∷ line))) ≡ true
      → readline_loop
          (suc rounds)
          (k ∷ keys)
          max
          echo
          (length (c ∷ line))
          (holding line (c ∷ x ∷ junk))
          shown
        ≡ readline_loop rounds keys max echo
            (length line)
            (holding line (0 ∷ x ∷ junk))
            (shown_after k shown)
  unfolding readline_loop getkeyblock shown_after
  loop_erases k keys line junk shown c x h z r b =
      rw (h, z, r, b, one_less (length line), put_behind line c 0 (x ∷ junk)) refl

shift_in : (k : ℕ) (line rest : List ℕ) → holding (k ∷ line) rest ≡ holding line (k ∷ rest)
shift_in k line rest = sym (append-shift (rev line) k rest)

same_line :
    (line line' keys keys' : List ℕ)
    → ◌≡◌ {A = Option (List ℕ × List ℕ)} (some (line, keys)) (some (line', keys'))
    → (line ≡ line') × (keys ≡ keys')
same_line line line' keys keys' e = some-pair e

edit_none :
    (max : ℕ) (line line' keys' : List ℕ)
    → ltb (length line + 1) max ≡ true
    → edit max line [] ≡ some (line', keys')
    → ⊥
edit_none max line line' keys' h e = ground arith

module _ (max : ℕ) (echo : Bool) (line' keys' : List ℕ) where
  -- The buffer has room for `max` bytes.
  Fits : List ℕ → List ℕ → Type 0
  Fits line junk = (length line < max) × (max ≤ length line + length junk + 1)

  Reads : ℕ → List ℕ → Type 0
  Reads rounds keys =
      (line junk shown : List ℕ) (x : ℕ)
      → Fits line junk
      → edit max line keys ≡ some (line', keys')
      → Typed line' keys'
          (readline_loop rounds keys max echo (length line) (holding line (x ∷ junk)) shown)

  full :
      (rounds : ℕ) (keys line junk shown : List ℕ) (x : ℕ)
      → ltb (length line + 1) max ≡ false
      → (line ≡ line') × (keys ≡ keys')
      → Typed line' keys'
          (readline_loop (suc rounds) keys max echo (length line) (holding line (x ∷ junk)) shown)
  unfolding readline_loop
  full rounds keys line junk shown x h (e, f) = rw h (
      subst (λ l. Typed l keys' (readline_end (length line) (holding line (x ∷ junk)) shown keys)) e
        (subst
          (λ ks. Typed line ks (readline_end (length line) (holding line (x ∷ junk)) shown keys)) f
          (readline_end-Typed line x junk shown keys)))

  stored :
      (rounds k : ℕ) (keys line junk shown : List ℕ) (x : ℕ)
      → Reads rounds keys
      → Fits line junk
      → ltb (length line + 1) max ≡ true
      → (k == 0) ≡ false
      → (k == 13) ≡ false
      → (k == 0x08 && leb 1 (length line)) ≡ false
      → edit max (k ∷ line) keys ≡ some (line', keys')
      → Typed line' keys' (
          readline_loop
            (suc rounds)
            (k ∷ keys)
            max
            echo
            (length line)
            (holding line (x ∷ junk))
            shown)
  unfolding Reads Fits
  stored rounds k keys line [] shown x ih f h z r b e = absurd (ground arith)
  stored rounds k keys line (y ∷ junk) shown x ih f h z r b e =
      rw
        (
          loop_stores rounds max echo k keys line (y ∷ junk) shown x h z r b,
          sym (shift_in k line (y ∷ junk)),
          plus_one (length line),
        )
        (ih (k ∷ line) junk (shown_after rounds max echo k shown) y
          (ground arith, omega (arith, f.1)) e)

  erased :
      (rounds k : ℕ) (keys line junk shown : List ℕ) (x : ℕ)
      → Reads rounds keys
      → Fits line junk
      → ltb (length line + 1) max ≡ true
      → (k == 0) ≡ false
      → (k == 13) ≡ false
      → (k == 0x08 && leb 1 (length line)) ≡ true
      → edit max (older line) keys ≡ some (line', keys')
      → Typed line' keys' (
          readline_loop
            (suc rounds)
            (k ∷ keys)
            max
            echo
            (length line)
            (holding line (x ∷ junk))
            shown)
  unfolding Reads Fits
  erased rounds k keys [] junk shown x ih f h z r b e = absurd (ground arith)
  erased rounds k keys (c ∷ line) junk shown x ih f h z r b e =
      rw
        (shift_in c line (x ∷ junk), loop_erases rounds max echo k keys line junk shown c x h z r b)
        (ih line (x ∷ junk) (shown_after rounds max echo k shown) 0
          (omega (arith, f.0), omega (arith, f.1)) e)

  reads : (keys : List ℕ) (rounds : ℕ) → length keys < rounds → Reads rounds keys
  unfolding Reads
  reads keys zero n line junk shown x f e = absurd (omega arith)
  reads [] (suc rounds) n line junk shown x f e = elim (Bool-cases (ltb (length line + 1) max)) [
    | inl h ↦ absurd (edit_none max line line' keys' h e)
    | inr h ↦ full rounds [] line junk shown x h (same_line line line' [] keys' (rw h at e))
  ]
  reads (k ∷ keys) (suc rounds) n line junk shown x f e =
      elim (Bool-cases (ltb (length line + 1) max)) [
        | inr h ↦
            full rounds (k ∷ keys) line junk shown x h
              (same_line line line' (k ∷ keys) keys' (rw h at e))
        | inl h ↦ elim (Bool-cases (k == 0)) [
          | inl z ↦
              rw
                (
                  ==_eq k 0 z,
                  loop_skips rounds max echo keys (length line) (holding line (x ∷ junk)) shown h,
                )
                (reads keys (suc rounds) (omega arith) line junk shown x f (rw (h, z) at e))
          | inr z ↦ elim (Bool-cases (k == 13)) [
            | inl r ↦
                let (p, q) = same_line line line' keys keys' (rw (h, z, r) at e) in
                rw (==_eq k 13 r) (
                  subst
                    (λ l. Typed l keys' (
                      readline_loop (suc rounds) (13 ∷ keys) max echo (length line)
                        (holding line (x ∷ junk)) shown))
                    p
                    (subst
                      (λ ks. Typed line ks (
                        readline_loop (suc rounds) (13 ∷ keys) max echo (length line)
                          (holding line (x ∷ junk)) shown))
                      q (loop_ends rounds max echo keys line junk shown x h)))
            | inr r ↦
                let ih = reads keys rounds (omega arith) in
                elim (Bool-cases (k == 0x08 && leb 1 (length line))) [
                  | inl b ↦
                      erased rounds k keys line junk shown x ih f h z r b (rw (h, z, r, b) at e)
                  | inr b ↦
                      stored rounds k keys line junk shown x ih f h z r b (rw (h, z, r, b) at e)
                ]
          ]
        ]
      ]

-- Into a buffer of at least `max` bytes, `max` at least 1, with more rounds than keys: when the keys
-- type a line, the reader returns. The buffer then holds the line, oldest character first, with its
-- terminator, and the keys behind the line are left. No write leaves the buffer.
pub terminal_readline-edit :
    (rounds max x : ℕ) (keys junk line' keys' : List ℕ) (echo : Bool)
    → length keys < rounds
    → 0 < max
    → max ≤ length (x ∷ junk)
    → edit max [] keys ≡ some (line', keys')
    → (junk' shown : List ℕ) × (terminal_readline rounds keys (x ∷ junk) max echo
        ≡ some (rev line' ++ 0 ∷ junk', shown, keys'))
unfolding terminal_readline Reads Fits
terminal_readline-edit rounds max x keys junk line' keys' echo n p l e =
    let t = reads max echo line' keys' keys rounds n [] junk [] x (omega arith, omega arith) e in
    (t.junk, t.shown, t.returns)
