-- ===== src/Keyboard/Classic/Tests.antt =====
-- The PS/2 driver at an empty buffer, and the theorems at inputs.
use vana.Prelude.{◌≡◌, refl, pos, some, none, [], replicate}
use vana.Keyboard.{Keyboard, KeyboardBuffer, buffer_size, get_shift, get_capslock}
use vana.Keyboard.Classic.{Classic, scancode_to_char, letter_case, switch_on, int_equal}

abbrev keyboard : Keyboard
keyboard = record { init = none; capslock_state = pos 0; shift_state = pos 1 }

abbrev empty : KeyboardBuffer
empty = record { buffer = replicate buffer_size 0; head = 0; tail = 0 }

abbrev start : Classic
start = record { keyboard = keyboard; kbuffer = empty; interrupt = none; ports = [] }

-- Shift and the key 1 give an exclamation mark.
shifted_1 : scancode_to_char keyboard 2 ≡ some b'!'
unfolding scancode_to_char letter_case switch_on int_equal get_shift get_capslock
shifted_1 = refl

-- The keypad's 0 has the scancode 0x52, which is one behind the table.
keypad_0 : scancode_to_char keyboard 0x52 ≡ none
unfolding scancode_to_char
keypad_0 = refl

-- Num lock, of the scancode 0x45, types a 7, and the keypad's 7, of the scancode 0x47, types a 9.
num_lock : scancode_to_char (record keyboard { shift_state = pos 0 }) 0x45 ≡ some b'7'
unfolding scancode_to_char letter_case switch_on int_equal get_shift get_capslock
num_lock = refl

keypad_7 : scancode_to_char (record keyboard { shift_state = pos 0 }) 0x47 ≡ some b'9'
unfolding scancode_to_char letter_case switch_on int_equal get_shift get_capslock
keypad_7 = refl
