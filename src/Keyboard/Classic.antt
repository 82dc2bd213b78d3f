-- ===== src/Keyboard/Classic.antt =====
-- The PS/2 driver of src/keyboard/classic.c. A scancode is the byte that the first read of the
-- handler gives; the second read is ignored. A read behind the table gives none.
pub mod Layout
pub mod Locks
mod Tests
pub mod Typing
use vana.Prelude.{
  ◌>>=◌, ℕ, ◌+◌, ◌-◌, ◌%◌, Bool, true, false, not, ◌&&◌, ◌||◌, ℤ, pos, negsuc, Option, none, some,
  List, [], ◌∷◌, ◌++◌, ltb, leb, ◌==◌, get_elem?, length, if◌then◌else◌,
}
use vana.Disk.{PortWrite}
use vana.Keyboard.{Keyboard, KeyboardBuffer, push, set_shift, get_shift, set_capslock, get_capslock}

-- The driver's instance, the keyboard buffer, the interrupt that the handler is registered for, and
-- the bytes written to ports.
pub record Classic : Type 0 where
  pub keyboard : Keyboard
  pub kbuffer : KeyboardBuffer
  pub interrupt : Option ℕ
  pub ports : List PortWrite

abbrev pub capslock_code : ℕ
capslock_code = 0x3A

abbrev pub lshift_code : ℕ
lshift_code = 0x2A

abbrev pub rshift_code : ℕ
rshift_code = 0x36

abbrev pub keyboard_scan_set_one : List ℕ
keyboard_scan_set_one =
    0 ∷ 27 ∷ b'1' ∷ b'2' ∷ b'3' ∷ b'4' ∷ b'5' ∷ b'6' ∷ b'7' ∷ b'8' ∷ b'9' ∷ b'0' ∷ b'-' ∷ b'=' ∷ 8
    ∷ 9 ∷ b'Q' ∷ b'W' ∷ b'E' ∷ b'R' ∷ b'T' ∷ b'Y' ∷ b'U' ∷ b'I' ∷ b'O' ∷ b'P' ∷ b'[' ∷ b']' ∷ 13 ∷ 0
    ∷ b'A' ∷ b'S' ∷ b'D' ∷ b'F' ∷ b'G' ∷ b'H' ∷ b'J' ∷ b'K' ∷ b'L' ∷ b';' ∷ 39 ∷ b'`' ∷ 0 ∷ 92
    ∷ b'Z' ∷ b'X' ∷ b'C' ∷ b'V' ∷ b'B' ∷ b'N' ∷ b'M' ∷ b',' ∷ b'.' ∷ b'/' ∷ 0 ∷ b'*' ∷ 0 ∷ 32 ∷ 0
    ∷ 0 ∷ 0 ∷ 0 ∷ 0 ∷ 0 ∷ 0 ∷ 0 ∷ 0 ∷ 0 ∷ 0 ∷ b'7' ∷ b'8' ∷ b'9' ∷ b'-' ∷ b'4' ∷ b'5' ∷ b'6' ∷ b'+'
    ∷ b'1' ∷ b'2' ∷ b'3' ∷ b'0' ∷ b'.' ∷ []

unfoldable pub int_equal : ℤ → ℤ → Bool
int_equal (pos m) (pos n) = m == n
int_equal (negsuc m) (negsuc n) = m == n
int_equal m n = false

-- The cases of the `switch`.
abbrev pub shift_cases : List (ℕ × ℕ)
shift_cases =
    (b'1', b'!')
    ∷ (b'2', b'@')
    ∷ (b'3', b'#')
    ∷ (b'4', b'$')
    ∷ (b'5', b'%')
    ∷ (b'6', b'^')
    ∷ (b'7', b'&')
    ∷ (b'8', b'*')
    ∷ (b'9', b'(')
    ∷ (b'0', b')')
    ∷ (b'-', b'_')
    ∷ (b'=', b'+')
    ∷ (b'[', b'{')
    ∷ (b']', b'}')
    ∷ (b';', b':')
    ∷ (39, 34)
    ∷ (b'`', b'~')
    ∷ (92, b'|')
    ∷ (b',', b'<')
    ∷ (b'.', b'>')
    ∷ (b'/', b'?')
    ∷ []

unfoldable pub switch_on : ℕ → List (ℕ × ℕ) → ℕ
switch_on c [] = c
switch_on c ((key, shifted) ∷ cases) =
    let rest = switch_on c cases in if c == key then shifted else rest

-- The case of a letter. The exclusive or of the two states is not 0 when they differ.
unfoldable pub letter_case : Keyboard → ℕ → ℕ
letter_case keyboard c =
    let uppercase = not (int_equal (get_capslock keyboard) (get_shift keyboard)) in
    if leb b'A' c && leb c b'Z'
    then (if uppercase then c else c + 32)
    else if leb b'a' c && leb c b'z'
    then (if uppercase then c - 32 else c)
    else c

unfoldable pub scancode_to_char : Keyboard → ℕ → Option ℕ
scancode_to_char keyboard scancode =
    let found : Option ℕ = (do
      c ← get_elem? keyboard_scan_set_one scancode
      some (
          letter_case keyboard
            (if int_equal (get_shift keyboard) (pos 0) then c else switch_on c shift_cases))) in
    if ltb (length keyboard_scan_set_one) scancode then some 0 else found

unfoldable pub classic_keyboard_init : Classic → ℤ × Classic
classic_keyboard_init s = (
  pos 0,
  record s {
    keyboard = set_shift (set_capslock s.keyboard (pos 0)) (pos 0);
    interrupt = some 0x21;
    ports = s.ports ++ (record { port = 0x64; value = 0xAE } ∷ []);
  },
)

unfoldable pub handle_interrupt : ℕ → Classic → Option Classic
handle_interrupt scancode s =
    let released = leb 0x80 scancode in
    let keycode = scancode % 0x80 in
    let typed : Option Classic = (do
      c ← scancode_to_char s.keyboard scancode
      some (if c == 0 then s else record s { kbuffer = push c s.kbuffer })) in
    let shift = set_shift s.keyboard (if released then pos 0 else pos 1) in
    let caps =
      set_capslock s.keyboard
        (if int_equal (get_capslock s.keyboard) (pos 1) then pos 0 else pos 1) in
    if keycode == lshift_code || keycode == rshift_code
    then some (record s { keyboard = shift })
    else if released
    then some s
    else if scancode == capslock_code
    then some (record s { keyboard = caps })
    else typed
