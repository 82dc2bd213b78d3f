-- ===== src/Keyboard/Classic/Layout.antt =====
-- The layout of the keys that the table of src/keyboard/classic.c is meant to hold, written down row
-- by row as on a US keyboard.
use vana.Prelude.{
  ℕ, ◌+◌, ◌-◌, ◌<◌, ◌≡◌, ◌≢◌, refl, Bool, true, false, not, ◌||◌, ◌&&◌, pos, Option, none, some,
  List, [], ◌∷◌, ◌++◌, ◌>>=◌, ltb, leb, ◌==◌, ==_eq, ==_ne, get_elem?, length, if◌then◌else◌,
  holds_to, holds_to_at, ap,
}
use vana.Keyboard.{Keyboard, get_shift, get_capslock}
use vana.Keyboard.Classic.{
  keyboard_scan_set_one, int_equal, shift_cases, switch_on, letter_case, scancode_to_char,
}

-- A key: its scancode, and its two characters.
abbrev pub Key : Type 0
Key = ℕ × ℕ × ℕ

-- Keys side by side, from a scancode on.
abbrev pub row : ℕ → List ℕ → List ℕ → List Key
row scancode (a ∷ first) (b ∷ second) = (scancode, a, b) ∷ row (scancode + 1) first second
row scancode first second = []

-- The letters, in upper and in lower case.
abbrev pub letters : List Key
letters =
    row 0x10 (b'Q' ∷ b'W' ∷ b'E' ∷ b'R' ∷ b'T' ∷ b'Y' ∷ b'U' ∷ b'I' ∷ b'O' ∷ b'P' ∷ [])
      (b'q' ∷ b'w' ∷ b'e' ∷ b'r' ∷ b't' ∷ b'y' ∷ b'u' ∷ b'i' ∷ b'o' ∷ b'p' ∷ [])
    ++ row 0x1E (b'A' ∷ b'S' ∷ b'D' ∷ b'F' ∷ b'G' ∷ b'H' ∷ b'J' ∷ b'K' ∷ b'L' ∷ [])
        (b'a' ∷ b's' ∷ b'd' ∷ b'f' ∷ b'g' ∷ b'h' ∷ b'j' ∷ b'k' ∷ b'l' ∷ [])
    ++ row 0x2C (b'Z' ∷ b'X' ∷ b'C' ∷ b'V' ∷ b'B' ∷ b'N' ∷ b'M' ∷ [])
        (b'z' ∷ b'x' ∷ b'c' ∷ b'v' ∷ b'b' ∷ b'n' ∷ b'm' ∷ [])

-- The other keys, alone and with shift: escape, the rows of digits and signs, backspace, tab, enter,
-- the signs beside the letters, the space bar and the keypad. The keypad stands at the scancodes that
-- the driver gives it, two before those of the set 1.
abbrev pub signs : List Key
signs =
    row 0x01 (27 ∷ []) (27 ∷ [])
    ++ row 0x02
        (b'1' ∷ b'2' ∷ b'3' ∷ b'4' ∷ b'5' ∷ b'6' ∷ b'7' ∷ b'8' ∷ b'9' ∷ b'0' ∷ b'-' ∷ b'=' ∷ [])
        (b'!' ∷ b'@' ∷ b'#' ∷ b'$' ∷ b'%' ∷ b'^' ∷ b'&' ∷ b'*' ∷ b'(' ∷ b')' ∷ b'_' ∷ b'+' ∷ [])
    ++ row 0x0E (8 ∷ 9 ∷ []) (8 ∷ 9 ∷ [])
    ++ row 0x1A (b'[' ∷ b']' ∷ []) (b'{' ∷ b'}' ∷ [])
    ++ row 0x1C (13 ∷ []) (13 ∷ [])
    ++ row 0x27 (b';' ∷ 39 ∷ b'`' ∷ []) (b':' ∷ 34 ∷ b'~' ∷ [])
    ++ row 0x2B (92 ∷ []) (b'|' ∷ [])
    ++ row 0x33 (b',' ∷ b'.' ∷ b'/' ∷ []) (b'<' ∷ b'>' ∷ b'?' ∷ [])
    ++ row 0x37 (b'*' ∷ []) (b'*' ∷ [])
    ++ row 0x39 (b' ' ∷ []) (b' ' ∷ [])
    ++ row 0x45
        (b'7' ∷ b'8' ∷ b'9' ∷ b'-' ∷ b'4' ∷ b'5' ∷ b'6' ∷ b'+' ∷ b'1' ∷ b'2' ∷ b'3' ∷ b'0' ∷ b'.'
          ∷ [])
        (b'&' ∷ b'*' ∷ b'(' ∷ b'_' ∷ b'$' ∷ b'%' ∷ b'^' ∷ b'+' ∷ b'!' ∷ b'@' ∷ b'#' ∷ b')' ∷ b'>'
          ∷ [])

abbrev pub find_key : List Key → ℕ → Option (ℕ × ℕ)
find_key [] scancode = none
find_key ((code, a, b) ∷ keys) scancode =
    if scancode == code then some (a, b) else find_key keys scancode

-- The character of a key, 0 if it has none, with shift or not, and with letters in upper case or not.
abbrev pub char_of : (shifted upper : Bool) → ℕ → ℕ
char_of shifted upper scancode = elim (find_key letters scancode) [
  | some (large, small) ↦ if upper then large else small
  | none ↦ elim (find_key signs scancode) [
    | some (alone, with_shift) ↦ if shifted then with_shift else alone
    | none ↦ 0
  ]
]

-- Exactly one of caps lock and shift is on.
abbrev pub one_on : Keyboard → Bool
one_on keyboard = not (int_equal keyboard.capslock_state keyboard.shift_state)

abbrev pub shift_on : Keyboard → Bool
shift_on keyboard = not (int_equal keyboard.shift_state (pos 0))

-- The translation for the values of its two tests.
abbrev translated : (unshifted upper : Bool) → ℕ → Option ℕ
translated unshifted upper scancode =
    let cased : ℕ → ℕ = λ c.
      if leb b'A' c && leb c b'Z'
      then (if upper then c else c + 32)
      else if leb b'a' c && leb c b'z'
      then (if upper then c - 32 else c)
      else c in
    let found : Option ℕ = (do
      c ← get_elem? keyboard_scan_set_one scancode
      some (cased (if unshifted then c else switch_on c shift_cases))) in
    if ltb (length keyboard_scan_set_one) scancode then some 0 else found

abbrev gives : Option ℕ → ℕ → Bool
gives none c = false
gives (some d) c = d == c

abbrev agrees : (unshifted upper : Bool) → ℕ → Bool
agrees unshifted upper scancode =
    scancode == 82
    || gives (translated unshifted upper scancode) (char_of (not unshifted) upper scancode)

all_agree : (unshifted upper : Bool) → holds_to (agrees unshifted upper) 128 ≡ true
unfolding switch_on
all_agree true true = refl
all_agree true false = refl
all_agree false true = refl
all_agree false false = refl

gives-some : (o : Option ℕ) (c : ℕ) → gives o c ≡ true → o ≡ some c
gives-some none c h = absurd (cc)
gives-some (some d) c h = ap some (==_eq d c h)

or_true : (a b : Bool) → a ≡ false → (a || b) ≡ true → b ≡ true
or_true true b e h = absurd (cc)
or_true false b e h = h

translated-char_of :
    (unshifted upper : Bool) (scancode : ℕ)
    → scancode < 128
    → scancode ≢ 82
    → translated unshifted upper scancode ≡ some (char_of (not unshifted) upper scancode)
translated-char_of unshifted upper scancode l h =
    gives-some (translated unshifted upper scancode) (char_of (not unshifted) upper scancode) (
      or_true (scancode == 82)
        (gives (translated unshifted upper scancode) (char_of (not unshifted) upper scancode))
        (==_ne scancode 82 h)
        (holds_to_at (agrees unshifted upper) 128 scancode l (all_agree unshifted upper)))

-- Every key but that of the scancode 82, which is the number of the table's entries, is translated to
-- its character in the layout.
pub scancode_to_char-char_of :
    (keyboard : Keyboard) (scancode : ℕ)
    → scancode < 128
    → scancode ≢ 82
    → scancode_to_char keyboard scancode
      ≡ some (char_of (shift_on keyboard) (one_on keyboard) scancode)
unfolding scancode_to_char letter_case get_shift get_capslock
scancode_to_char-char_of keyboard scancode l h =
    translated-char_of (int_equal keyboard.shift_state (pos 0)) (one_on keyboard) scancode l h
