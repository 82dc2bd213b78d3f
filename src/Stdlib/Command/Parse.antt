-- ===== src/Stdlib/Command/Parse.antt =====
-- What a command line is parsed to.
use vana.Prelude.{
  ℕ, zero, suc, ◌+◌, ◌<◌, ◌≡◌, ◌≢◌, refl, ap, ◌∙◌, false, inl, inr, ◌⊎◌, Option, none, some, List,
  [], ◌∷◌, ◌++◌, map, arith, ◌==◌, ==_ne, length, replicate, length-replicate, leb, subst, take,
}
use vana.Strings.{strncpy}
use vana.Strings.Lengths.{IsText, copied, strncpy-copied, strncpy-take}
use vana.PathParser
use vana.PathParser.{Allocs}
use vana.Stdlib.Strtok.{start_of, find_end, strtok}
use vana.Stdlib.Command.{
  argument_size, command_size, Shell, next_token, first_token, new_command, parse_loop,
  parse_command,
}
use vana.Stdlib.Command.Words.{
  word_of, words, text_at, space_delimiter, Skipped, skip_spaces, Ended, end_of_word,
}

-- The buffer of an argument that holds a word, cut to 511 characters.
abbrev pub argument_of : List ℕ → List ℕ
argument_of w = copied 511 w (replicate argument_size 0)

-- A process whose allocations succeed, with `n` live ones.
abbrev pub shell_at : ℕ → Option (List ℕ) → Shell
shell_at n sp = record { allocs = record { answers = []; live = n }; sp = sp }

-- What a token of a text is: the first word, and the text behind it.
pub record Token (s r : List ℕ) (result : Option (Option (List ℕ) × Option (List ℕ))) : Type 0 where
  pub word : List ℕ
  pub behind : List ℕ
  pub junk : List ℕ
  pub returns : result ≡ some (some (text_at word junk), some (text_at behind r))
  pub first : words false s ≡ word ∷ words false behind
  pub solid : IsText behind
  pub word_solid : IsText word
  pub shorter : length behind < length s

no_token :
    (str sp : Option (List ℕ)) (s r : List ℕ)
    → start_of str sp ≡ some (text_at s r)
    → (k : Skipped s r) → k.left ≡ []
    → strtok str (b' ' ∷ []) sp ≡ some (none, none)
unfolding strtok
no_token str sp s r h k e = rw (strtok, h, k.result, e) refl

-- The word with its first character.
abbrev word_behind : ℕ → (more r : List ℕ) → Ended more r → Option (List ℕ × List ℕ)
word_behind c more r w = some (text_at (c ∷ word_of more) w.junk, text_at w.behind r)

find_end-cons :
    (c : ℕ) (more r : List ℕ)
    → c ≢ 0
    → (c == b' ') ≡ false
    → (w : Ended more r) → find_end (b' ' ∷ []) (text_at (c ∷ more) r) ≡ word_behind c more r w
unfolding find_end
find_end-cons c more r z n w = rw (==_ne c 0 z, space_delimiter c, n, w.result) refl

word-Token :
    (str sp : Option (List ℕ)) (s r more : List ℕ) (c : ℕ)
    → start_of str sp ≡ some (text_at s r)
    → (k : Skipped s r) → k.left ≡ c ∷ more
    → (c == b' ') ≡ false
    → Token s r (strtok str (b' ' ∷ []) sp)
unfolding strtok
word-Token str sp s r more c h k e n =
    let solid : IsText (c ∷ more) = subst IsText e k.solid in
    let w = end_of_word more r solid.1 in
    record {
      word = c ∷ word_of more;
      behind = w.behind;
      junk = w.junk;
      returns =
          rw (strtok, h, k.result, e, ==_ne c 0 solid.0, find_end-cons c more r solid.0 n w) refl;
      first = k.same ∙ ap (words false) e ∙ rw (n, w.same) refl;
      solid = w.solid;
      word_solid = (solid.0, w.word);
      shorter = omega (arith, w.shorter, k.shorter, ap (length {0}) e);
    }

-- A call of strtok: there is no word left, or it cuts off the first.
pub next_word :
    (str sp : Option (List ℕ)) (s r : List ℕ)
    → IsText s
    → start_of str sp ≡ some (text_at s r)
    → ((strtok str (b' ' ∷ []) sp ≡ some (none, none)) × (words false s ≡ []))
      ⊎ Token s r (strtok str (b' ' ∷ []) sp)
next_word str sp s r t h =
    let k = skip_spaces s r t in
    elim k.at [
      | inl e ↦ inl (no_token str sp s r h k e, k.same ∙ ap (words false) e)
      | inr (c, more, e, n) ↦ inr (word-Token str sp s r more c h k e n)
    ]

-- What is left to parse gives an argument for each word.
record Parsed (rounds n : ℕ) (str sp : Option (List ℕ)) (ws : List (List ℕ)) : Type 0 where
  token : Option (List ℕ)
  shell : Shell
  first : next_token str (shell_at n sp) ≡ some (token, shell)
  rest : parse_loop rounds token shell ≡ some (map argument_of ws, shell_at (n + length ws) none)

new_command-argument :
    (w junk : List ℕ) (n : ℕ) (sp : Option (List ℕ))
    → IsText w
    → new_command (text_at w junk) (shell_at n sp)
      ≡ some (some (argument_of w), shell_at (n + 1) sp)
unfolding new_command PathParser.kzalloc
new_command-argument w junk n sp h =
    rw
      (strncpy-copied w junk (replicate argument_size 0) argument_size h (omega arith)
        (omega (arith, length-replicate {A = ℕ} argument_size 0)))
      refl

none-Parsed :
    (rounds n : ℕ) (str sp : Option (List ℕ))
    → strtok str (b' ' ∷ []) sp ≡ some (none, none)
    → Parsed (suc rounds) n str sp []
unfolding next_token parse_loop
none-Parsed rounds n str sp h = record {
  token = none;
  shell = shell_at n none;
  first = rw h refl;
  rest = ap (λ l. some ([], shell_at l none)) (omega arith);
}

word-Parsed :
    (rounds n : ℕ) (str sp : Option (List ℕ)) (s r : List ℕ)
    → (t : Token s r (strtok str (b' ' ∷ []) sp))
    → Parsed rounds (n + 1) none (some (text_at t.behind r)) (words false t.behind)
    → Parsed (suc rounds) n str sp (t.word ∷ words false t.behind)
unfolding next_token parse_loop
word-Parsed rounds n str sp s r t p = record {
  token = some (text_at t.word t.junk);
  shell = shell_at n (some (text_at t.behind r));
  first = rw t.returns refl;
  rest =
      rw
        (
          parse_loop,
          new_command-argument t.word t.junk n (some (text_at t.behind r)) t.word_solid,
          p.first,
          p.rest,
        )
        (ap (λ l. some (map argument_of (t.word ∷ words false t.behind), shell_at l none))
          (omega arith));
}

parse_words :
    (rounds n : ℕ) (str sp : Option (List ℕ)) (s r : List ℕ)
    → length s < rounds
    → IsText s
    → start_of str sp ≡ some (text_at s r)
    → Parsed rounds n str sp (words false s)
parse_words zero n str sp s r l t h = absurd (omega arith)
parse_words (suc rounds) n str sp s r l t h = elim (next_word str sp s r t h) [
  | inl (e, f) ↦ rw f (none-Parsed rounds n str sp e)
  | inr k ↦ rw k.first (
      word-Parsed rounds n str sp s r k (
        parse_words rounds (n + 1) none (some (text_at k.behind r)) k.behind r
          (omega (arith, k.shorter)) k.solid refl))
]

pub IsText-take : (n : ℕ) (s : List ℕ) → IsText s → IsText (take n s)
IsText-take zero s h = tt
IsText-take (suc n) [] h = tt
IsText-take (suc n) (c ∷ s) h = (h.0, IsText-take n s h.1)

-- The copy of the command in the parser's own buffer.
pub command_copied :
    (scommand command rest : List ℕ)
    → IsText command
    → length scommand ≡ command_size
    → (more : List ℕ) × (strncpy scommand (text_at command rest) command_size
        ≡ some (text_at (take 1024 command) more))
command_copied scommand command rest h l =
    strncpy-take command rest scommand command_size h (omega arith) (omega (arith, l))

pub in_size : (max : ℕ) → max < command_size → leb command_size max ≡ false
in_size max h = ground arith

-- While no earlier string is being cut, and the allocations succeed, a command of a size below 1025
-- is parsed into an argument for each of its words, in order, each cut to 511 characters. Of the
-- command the first 1024 characters count, and more rounds than these are enough. Each argument is
-- one live allocation, and the pointer of strtok is null again.
pub parse_command-words :
    (rounds n max : ℕ) (scommand command rest : List ℕ)
    → IsText command
    → length scommand ≡ command_size
    → max < command_size
    → length (take 1024 command) < rounds
    → let ws = words false (take 1024 command) in
      parse_command rounds scommand (command ++ 0 ∷ rest) max (shell_at n none)
      ≡ some (map argument_of ws, shell_at (n + length ws) none)
unfolding parse_command first_token
parse_command-words rounds n max scommand command rest h l m r =
    let (more, e) = command_copied scommand command rest h l in
    let p =
      parse_words rounds n (some (text_at (take 1024 command) more)) none (take 1024 command) more r
        (IsText-take 1024 command h) refl in
    rw (in_size max m, e, p.first) p.rest
