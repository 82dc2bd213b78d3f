-- ===== src/Keyboard.antt =====
-- The keyboard layer of src/keyboard/keyboard.c and keyboard.h: the ring of pending characters and
-- the list of drivers. `head` and `tail` count all pops and pushes; the slot of a count is its
-- remainder by the size of the ring.
pub mod Classic
pub mod Ring
mod Tests
use vana.Prelude.{
  ℕ, ◌+◌, ◌-◌, ◌%◌, Bool, ℤ, pos, negsuc, Option, none, some, List, [], ◌∷◌, ◌++◌, ◌==◌, set,
  get_or, if◌then◌else◌,
}

abbrev pub buffer_size : ℕ
buffer_size = 1024

-- The buffer is an array of `buffer_size` bytes, 0 where no character waits.
pub record KeyboardBuffer : Type 0 where
  pub buffer : List ℕ
  pub head : ℕ
  pub tail : ℕ

pub get_tail_index : KeyboardBuffer → ℕ
get_tail_index k = k.tail % buffer_size

pub backspace : KeyboardBuffer → KeyboardBuffer
unfolding get_tail_index
backspace k =
    let k' : KeyboardBuffer = record k { tail = k.tail - 1 } in
    if k.tail == 0 then k else record k' { buffer = set k.buffer (get_tail_index k') 0 }

pub push : ℕ → KeyboardBuffer → KeyboardBuffer
unfolding get_tail_index
push c k =
    if c == 0 then k else record k { buffer = set k.buffer (get_tail_index k) c; tail = k.tail + 1 }

pub pop : KeyboardBuffer → ℕ × KeyboardBuffer
pop k =
    let real_index = k.head % buffer_size in
    let c = get_or k.buffer real_index 0 in
    if c == 0
    then (0, k)
    else (c, record k { buffer = set k.buffer real_index 0; head = k.head + 1 })

-- A driver. `init` is what its callback returns, `none` for a driver without one.
pub record Keyboard : Type 0 where
  pub init : Option ℤ
  pub capslock_state : ℤ
  pub shift_state : ℤ

-- The drivers from `keyboard_list_head` to `keyboard_list_last`, and what `keyboard_insert` returns;
-- a null pointer is `none`. -EINVARG is -2.
run_init : Keyboard → List Keyboard → Option ℤ → ℤ × List Keyboard
run_init keyboard drivers none = (negsuc 1, drivers)
run_init keyboard drivers (some res) = (res, drivers ++ (keyboard ∷ []))

pub insert : Option Keyboard → List Keyboard → ℤ × List Keyboard
unfolding run_init
insert none drivers = (negsuc 1, drivers)
insert (some keyboard) drivers = run_init keyboard drivers keyboard.init

unfoldable pub set_capslock : Keyboard → ℤ → Keyboard
set_capslock keyboard state = record keyboard { capslock_state = state }

unfoldable pub get_capslock : Keyboard → ℤ
get_capslock keyboard = keyboard.capslock_state

unfoldable pub set_shift : Keyboard → ℤ → Keyboard
set_shift keyboard state = record keyboard { shift_state = state }

unfoldable pub get_shift : Keyboard → ℤ
get_shift keyboard = keyboard.shift_state
