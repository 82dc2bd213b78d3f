-- ===== src/Stdlib/Command.antt =====
-- `vana_parse_command` of programs/stdlib/src/vana.c. The memory that `vana_malloc` gives is
-- cleared, and which calls of it succeed is a list of answers. `none`: a read or a write outside a
-- buffer, also through a pointer into the buffer of a call that has returned, or no rounds left.
pub mod Ends
pub mod Parse
pub mod Refused
pub mod Words
use vana.Prelude.{
  ℕ, zero, suc, ◌+◌, ◌≤◌, ◌<◌, Bool, Option, none, some, List, [], ◌∷◌, leb, ◌>>=◌, if◌then◌else◌,
  replicate,
}
use vana.Strings.{strncpy}
use vana.PathParser.{Allocs, kzalloc}
use vana.Stdlib.Strtok.{strtok}

-- The size of `argument`.
abbrev pub argument_size : ℕ
argument_size = 512

-- The size of `scommand`.
abbrev pub command_size : ℕ
command_size = 1025

-- What the process' heap answers, and the static pointer of `strtok`. While a command is parsed the
-- pointer leads into `scommand` of this call; one that is left at the end leads into a buffer that is
-- gone, and its bytes must not be read.
pub record Shell : Type 0 where
  pub allocs : Allocs
  pub sp : Option (List ℕ)

-- The next token of the string being cut.
unfoldable pub next_token : Option (List ℕ) → Shell → Option (Option (List ℕ) × Shell)
next_token str s = do (token, sp) ← strtok str (b' ' ∷ []) s.sp; some (token, record s { sp = sp })

-- The argument of a new node, `none` when there is no memory for it.
unfoldable pub new_command : List ℕ → Shell → Option (Option (List ℕ) × Shell)
new_command token s = do
  let (done, al) = kzalloc s.allocs
  let s' : Shell = record s { allocs = al }
  let copied = (do
    argument ← strncpy (replicate argument_size 0) token argument_size
    some (some argument, s'))
  if done then copied else some (none, s')

-- The loop over the tokens behind the first; it stops when there is no memory.
unfoldable pub parse_loop : ℕ → Option (List ℕ) → Shell → Option (List (List ℕ) × Shell)
parse_loop zero token s = none
parse_loop (suc rounds) none s = some ([], s)
parse_loop (suc rounds) (some token) s = do
  (new, s') ← new_command token s
  elim new [
    | none ↦ some ([], s')
    | some argument ↦ do
      (token', s'') ← next_token none s'
      (others, s3) ← parse_loop rounds token' s''
      some (argument ∷ others, s3)
  ]

-- The first token. A pointer that an earlier call has left is read first, although the `scommand` of
-- that call is gone.
unfoldable pub first_token : List ℕ → Shell → Option (Option (List ℕ) × Shell)
first_token text s = elim s.sp [ none ↦ next_token (some text) s | some dead ↦ none ]

-- The arguments of the list of nodes: none is the null pointer. `scommand` is what the buffer held.
unfoldable pub parse_command : ℕ → List ℕ → List ℕ → ℕ → Shell → Option (List (List ℕ) × Shell)
parse_command rounds scommand command max s =
    let parsed = (do
      text ← strncpy scommand command command_size
      (token, s') ← first_token text s
      parse_loop rounds token s') in
    if leb command_size max then some ([], s) else parsed
