-- ===== src/Stdlib/Printf.antt =====
-- `printf` of programs/stdlib/src/stdio.c: what is put on the terminal. A pointer is the list of the
-- bytes from there to the end of its buffer; `none` is a read behind it, or an argument that is
-- missing or of the other kind.
use vana.Prelude.{
  ℕ, ◌≡◌, ◌≢◌, refl, ap, ◌∙◌, ℤ, Option, none, some, List, [], ◌∷◌, ◌++◌, append_assoc, append-nil,
  ap₂, sym, ◌>>=◌, ◌==◌, ==_ne, if◌then◌else◌,
}
use vana.Strings.Lengths.{IsText}
use vana.Stdlib.Itoa.{itoa, IsInt, IsNumeral, itoa-IsNumeral}

-- What a call passes for a format: an `int`, or a pointer to a string.
pub data Argument : Type 0 where
  int : ℤ → Argument
  text : List ℕ → Argument

-- What `print` shows of a string.
unfoldable pub shown : List ℕ → Option (List ℕ)
shown [] = none
shown (c ∷ s) = let rest = (do out ← shown s; some (c ∷ out)) in if c == 0 then some [] else rest

abbrev pub next_int : List Argument → Option (ℤ × List Argument)
next_int [] = none
next_int (Argument.int i ∷ ap) = some (i, ap)
next_int (Argument.text s ∷ ap) = none

abbrev pub next_text : List Argument → Option (List ℕ × List Argument)
next_text [] = none
next_text (Argument.int i ∷ ap) = none
next_text (Argument.text s ∷ ap) = some (s, ap)

-- `shown_text` and then what `rest` gives.
abbrev pub then_show : Option (List ℕ) → Option (List ℕ) → Option (List ℕ)
then_show out rest = do a ← out; b ← rest; some (a ++ b)

unfoldable pub printf : List ℕ → List Argument → Option (List ℕ)
printf [] args = none
printf (c ∷ []) args = if c == 0 then some [] else none
printf (c ∷ d ∷ p) args =
    let plain = then_show (some (c ∷ [])) (printf (d ∷ p) args) in
    let number = (do
      (ival, args') ← next_int args
      digits ← itoa ival
      then_show (shown digits) (printf p args')) in
    let string = (do (sval, args') ← next_text args; then_show (shown sval) (printf p args')) in
    let other = then_show (some (d ∷ [])) (printf p args) in
    let directive = if d == b'i' then number else if d == b's' then string else other in
    if c == 0 then some [] else if c == b'%' then directive else plain

-- A format as its pieces: a character, a directive `%i` or `%s` with its argument, or a percent sign
-- before any other character.
pub data Piece : Type 0 where
  plain : ℕ → Piece
  number : ℤ → Piece
  string : List ℕ → Piece
  escaped : ℕ → Piece

abbrev pub format_of : List Piece → List ℕ
format_of [] = []
format_of (plain c ∷ ps) = c ∷ format_of ps
format_of (number i ∷ ps) = b'%' ∷ b'i' ∷ format_of ps
format_of (string s ∷ ps) = b'%' ∷ b's' ∷ format_of ps
format_of (escaped d ∷ ps) = b'%' ∷ d ∷ format_of ps

abbrev pub arguments_of : List Piece → List Argument
arguments_of [] = []
arguments_of (plain c ∷ ps) = arguments_of ps
arguments_of (number i ∷ ps) = Argument.int i ∷ arguments_of ps
arguments_of (string s ∷ ps) = Argument.text (s ++ 0 ∷ []) ∷ arguments_of ps
arguments_of (escaped d ∷ ps) = arguments_of ps

abbrev pub IsPiece : Piece → Type 0
IsPiece (plain c) = (c ≢ 0) × (c ≢ b'%')
IsPiece (number i) = IsInt i
IsPiece (string s) = IsText s
IsPiece (escaped d) = (d ≢ 0) × (d ≢ b'i') × (d ≢ b's')

abbrev pub AllPieces : List Piece → Type 0
AllPieces [] = Unit
AllPieces (p ∷ ps) = IsPiece p × AllPieces ps

-- What the pieces show, one after the other.
abbrev pub ShowsPiece : Piece → List ℕ → Type 0
ShowsPiece (plain c) t = t ≡ c ∷ []
ShowsPiece (number i) t = IsNumeral i t
ShowsPiece (string s) t = t ≡ s
ShowsPiece (escaped d) t = t ≡ d ∷ []

abbrev pub Shows : List Piece → List ℕ → Type 0
Shows [] out = out ≡ []
Shows (p ∷ ps) out = (t rest : List ℕ) × ShowsPiece p t × Shows ps rest × (out ≡ t ++ rest)

shown-text : (s : List ℕ) → IsText s → shown (s ++ 0 ∷ []) ≡ some s
unfolding shown
shown-text [] h = refl
shown-text (c ∷ s) h = rw (==_ne c 0 h.0, shown-text s h.1) refl

then_show-nil : (x : Option (List ℕ)) → x ≡ then_show (some []) x
then_show-nil none = refl
then_show-nil (some b) = refl

then_show-append :
    (t rest : List ℕ) (x : Option (List ℕ))
    → then_show (some t) (then_show (some rest) x) ≡ then_show (some (t ++ rest)) x
then_show-append t rest none = refl
then_show-append t rest (some b) = ap some (sym (append_assoc t rest b))

-- One piece, before any format and arguments.
abbrev Prints : List ℕ → List Argument → List ℕ → Type 0
Prints format args t =
    (tail : List ℕ) (as' : List Argument)
    → printf (format ++ tail) (args ++ as') ≡ then_show (some t) (printf tail as')

printf-plain : (c : ℕ) → c ≢ 0 → c ≢ b'%' → Prints (c ∷ []) [] (c ∷ [])
unfolding printf
printf-plain c n m [] as' = rw (==_ne c 0 n) refl
printf-plain c n m (d ∷ tail) as' = rw (==_ne c 0 n, ==_ne c b'%' m) refl

printf-escaped : (d : ℕ) → d ≢ b'i' → d ≢ b's' → Prints (b'%' ∷ d ∷ []) [] (d ∷ [])
unfolding printf
printf-escaped d n m tail as' = rw (==_ne d b'i' n, ==_ne d b's' m) refl

printf-number :
    (i : ℤ) (t : List ℕ)
    → itoa i ≡ some (t ++ 0 ∷ [])
    → IsText t
    → Prints (b'%' ∷ b'i' ∷ []) (Argument.int i ∷ []) t
unfolding printf
printf-number i t e h tail as' = rw (e, shown-text t h) refl

printf-string :
    (s : List ℕ) → IsText s → Prints (b'%' ∷ b's' ∷ []) (Argument.text (s ++ 0 ∷ []) ∷ []) s
unfolding printf
printf-string s h tail as' = rw (shown-text s h) refl

printf-piece :
    (p : Piece)
    → IsPiece p
    → (t : List ℕ) × ShowsPiece p t × Prints (format_of (p ∷ [])) (arguments_of (p ∷ [])) t
printf-piece (plain c) h = (c ∷ [], refl, printf-plain c h.0 h.1)
printf-piece (number i) h =
    let (t, e, n) = itoa-IsNumeral i h in (t, n, printf-number i t e n.solid)
printf-piece (string s) h = (s, refl, printf-string s h)
printf-piece (escaped d) h = (d ∷ [], refl, printf-escaped d h.1 h.2)

format_of-cons :
    (p : Piece) (ps : List Piece) (tail : List ℕ)
    → format_of (p ∷ ps) ++ tail ≡ format_of (p ∷ []) ++ (format_of ps ++ tail)
format_of-cons (plain c) ps tail = refl
format_of-cons (number i) ps tail = refl
format_of-cons (string s) ps tail = refl
format_of-cons (escaped d) ps tail = refl

arguments_of-cons :
    (p : Piece) (ps : List Piece) (as' : List Argument)
    → arguments_of (p ∷ ps) ++ as' ≡ arguments_of (p ∷ []) ++ (arguments_of ps ++ as')
arguments_of-cons (plain c) ps as' = refl
arguments_of-cons (number i) ps as' = refl
arguments_of-cons (string s) ps as' = refl
arguments_of-cons (escaped d) ps as' = refl

printf-pieces :
    (ps : List Piece)
    → AllPieces ps
    → (out : List ℕ) × Shows ps out × Prints (format_of ps) (arguments_of ps) out
printf-pieces [] h = ([], refl, λ tail as'. then_show-nil (printf tail as'))
printf-pieces (p ∷ ps) h =
    let (t, s, f) = printf-piece p h.0 in
    let (rest, r, g) = printf-pieces ps h.1 in
    (
      t ++ rest,
      (t, rest, s, r, refl),
      λ tail as'.
          ap₂ printf (format_of-cons p ps tail) (arguments_of-cons p ps as')
          ∙ f (format_of ps ++ tail) (arguments_of ps ++ as')
          ∙ ap (then_show (some t)) (g tail as')
          ∙ then_show-append t rest (printf tail as'),
    )

-- A format that ends in a percent sign is read behind its terminator.
pub printf_trailing :
    (ps : List Piece)
    → AllPieces ps
    → printf (format_of ps ++ b'%' ∷ 0 ∷ []) (arguments_of ps) ≡ none
unfolding printf
printf_trailing ps h =
    let (out, s, f) = printf-pieces ps h in
    ap (printf (format_of ps ++ b'%' ∷ 0 ∷ [])) (sym (append-nil (arguments_of ps)))
    ∙ f (b'%' ∷ 0 ∷ []) []
