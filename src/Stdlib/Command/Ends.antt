-- ===== src/Stdlib/Command/Ends.antt =====
-- The parser of command lines comes to an end, whatever the heap answers.
use vana.Prelude.{
  ℕ, zero, suc, ◌<◌, ◌≡◌, refl, ap, Bool-cases, inl, inr, Option, none, some, List, [], ◌∷◌, ◌++◌,
  arith, ◌>>=◌, if◌then◌else◌, length, length-replicate, replicate, leb, take,
}
use vana.Strings.Lengths.{IsText, strncpy-copied}
use vana.PathParser.{Allocs, kzalloc}
use vana.Stdlib.Strtok.{start_of}
use vana.Stdlib.Command.{
  argument_size, command_size, Shell, next_token, first_token, new_command, parse_loop,
  parse_command,
}
use vana.Stdlib.Command.Words.{text_at}
use vana.Stdlib.Command.Parse.{argument_of, next_word, command_copied, IsText-take}

-- A node for a word: with the word, or none.
new_command-either :
    (w junk : List ℕ) (s : Shell)
    → IsText w
    → (o : Option (List ℕ)) × (al : Allocs) × (new_command (text_at w junk) s
        ≡ some (o, record s { allocs = al }))
unfolding new_command
new_command-either w junk s h =
    let (done, al) = kzalloc s.allocs in
    elim (Bool-cases (kzalloc s.allocs).0) [
      | inl e ↦ (
        some (argument_of w),
        (kzalloc s.allocs).1,
        rw
            (
              e,
              strncpy-copied w junk (replicate argument_size 0) argument_size h (omega arith)
                  (omega (arith, length-replicate {A = ℕ} argument_size 0)),
            )
            refl,
      )
      | inr e ↦ (none, (kzalloc s.allocs).1, rw e refl)
    ]

-- What is left to parse comes to an end.
record Ends (rounds : ℕ) (str : Option (List ℕ)) (s : Shell) : Type 0 where
  token : Option (List ℕ)
  shell : Shell
  out : List (List ℕ) × Shell
  first : next_token str s ≡ some (token, shell)
  rest : parse_loop rounds token shell ≡ some out

after_node :
    (rounds : ℕ) (w junk : List ℕ) (s : Shell) (al : Allocs) (o : Option (List ℕ))
    → new_command (text_at w junk) s ≡ some (o, record s { allocs = al })
    → Ends rounds none (record s { allocs = al })
    → (out : List (List ℕ) × Shell) × (parse_loop (suc rounds) (some (text_at w junk)) s ≡ some out)
unfolding parse_loop
after_node rounds w junk s al none e k = (([], record s { allocs = al }), rw (parse_loop, e) refl)
after_node rounds w junk s al (some argument) e k =
    let (others, s3) = k.out in
    ((argument ∷ k.out.0, k.out.1), rw (parse_loop, e, k.first, k.rest) refl)

parse_ends :
    (rounds : ℕ) (str : Option (List ℕ)) (st : Shell) (s r : List ℕ)
    → length s < rounds
    → IsText s
    → start_of str st.sp ≡ some (text_at s r)
    → Ends rounds str st
unfolding next_token parse_loop
parse_ends zero str st s r l t h = absurd (omega arith)
parse_ends (suc rounds) str st s r l t h = elim (next_word str st.sp s r t h) [
  | inl (e, f) ↦ record {
    token = none;
    shell = record st { sp = none };
    out = ([], record st { sp = none });
    first = rw e refl;
    rest = refl;
  }
  | inr k ↦
      let s1 : Shell = record st { sp = some (text_at k.behind r) } in
      let (o, al, e) = new_command-either k.word k.junk s1 k.word_solid in
      let ih =
        parse_ends rounds none (record s1 { allocs = al }) k.behind r (omega (arith, k.shorter))
          k.solid refl in
      let (out, f) = after_node rounds k.word k.junk s1 al o e ih in
      record {
        token = some (text_at k.word k.junk);
        shell = s1;
        out = out;
        first = rw k.returns refl;
        rest = f;
      }
]

size_cases :
    (max : ℕ) (s : Shell) (parsed : Option (List (List ℕ) × Shell)) (out : List (List ℕ) × Shell)
    → parsed ≡ some out
    → (result : List (List ℕ) × Shell) × ((if leb command_size max then some ([], s) else parsed)
        ≡ some result)
size_cases max s parsed out h = elim (Bool-cases (leb command_size max)) [
  | inl e ↦ (([], s), rw e refl)
  | inr e ↦ (out, rw (e, h) refl)
]

first_token-null :
    (text : List ℕ) (s : Shell) → s.sp ≡ none → first_token text s ≡ next_token (some text) s
unfolding first_token
first_token-null text s h =
    ap
      (λ (o : Option (List ℕ)). elim o as (λ _. Option (Option (List ℕ) × Shell)) [
        | none ↦ next_token (some text) s
        | some dead ↦ none
      ])
      h

-- Every terminated command is parsed to the end, whatever its size and whichever allocations fail,
-- while no earlier string is being cut: no access leaves a buffer, and more rounds than the first
-- 1024 characters of the command are enough.
pub parse_command-Returns :
    (rounds max : ℕ) (scommand command rest : List ℕ) (s : Shell)
    → IsText command
    → length scommand ≡ command_size
    → length (take 1024 command) < rounds
    → s.sp ≡ none
    → (result : List (List ℕ) × Shell) × (parse_command rounds scommand (command ++ 0 ∷ rest) max s
        ≡ some result)
unfolding parse_command
parse_command-Returns rounds max scommand command rest s h l r at =
    let (junk, c) = command_copied scommand command rest h l in
    let text = text_at (take 1024 command) junk in
    let k =
      parse_ends rounds (some text) s (take 1024 command) junk r (IsText-take 1024 command h)
        (rw at refl) in
    rw (c, first_token-null text s at)
      (size_cases max s (parse_rest (some text)) k.out (rw k.first k.rest))
  where
    parse_rest : Option (List ℕ) → Option (List (List ℕ) × Shell)
    parse_rest str = do (token, s') ← next_token str s; parse_loop rounds token s'
