-- ===== src/Keyboard/Classic/Typing.antt =====
-- What the keys of the PS/2 driver type.
use vana.Prelude.{ℕ, ◌≡◌, ◌≢◌, ◌||◌, pos, some, List, [], ◌∷◌, ◌++◌, leb, ◌==◌, if◌then◌else◌}
use vana.Keyboard.{Keyboard, push}
use vana.Keyboard.Ring.{Holds}
use vana.Keyboard.Classic.{Classic, int_equal, handle_interrupt}
use vana.Keyboard.Classic.Layout.{char_of, shift_on, one_on}

abbrev pub char_typed : ℕ → List ℕ
char_typed c = if c == 0 then [] else c ∷ []

-- What the press or release of a key adds to the queue: the character that the layout gives the key,
-- if it has one, and nothing for a release. The shift keys and caps lock have none.
abbrev pub typed : Keyboard → ℕ → List ℕ
typed keyboard scancode =
    if leb 0x80 scancode
    then []
    else char_typed (char_of (shift_on keyboard) (one_on keyboard) scancode)

-- What it does to shift and caps lock: a press of a shift key switches shift on, its release off, and
-- a press of caps lock changes it.
abbrev pub locks : Keyboard → ℕ → Keyboard
locks keyboard scancode =
    if scancode == 0x2A || scancode == 0x36
    then record keyboard { shift_state = pos 1 }
    else if scancode == 0xAA || scancode == 0xB6
    then record keyboard { shift_state = pos 0 }
    else if scancode == 0x3A
    then record keyboard {
      capslock_state = if int_equal keyboard.capslock_state (pos 1) then pos 0 else pos 1;
    }
    else keyboard

abbrev after_char : Classic → ℕ → Classic
after_char s c = if c == 0 then s else record s { kbuffer = push c s.kbuffer }

-- What a handler run leads to: a state whose buffer holds the queue with the typed character, with
-- the locks of the layout.
abbrev pub Types : ℕ → Classic → List ℕ → Type 0
Types scancode s q =
    (s' : Classic) × (handle_interrupt scancode s ≡ some s')
    × Holds s'.kbuffer (q ++ typed s.keyboard scancode)
    × (s'.keyboard ≡ locks s.keyboard scancode)

-- A scancode that leaves the locks as they are.
abbrev IsOther : ℕ → Type 0
IsOther n = (n ≢ 0x2A) × (n ≢ 0x36) × (n ≢ 0xAA) × (n ≢ 0xB6) × (n ≢ 0x3A)
