-- ===== src/Keyboard/Classic/Locks.antt =====
-- The lock states of the PS/2 driver.
use vana.Prelude.{◌>>=◌, ◌≡◌, ◌⊎◌, inl, inr, refl, sym, ap, ◌∙◌, ℤ, pos, Option, some}
use vana.Keyboard.{set_capslock, get_capslock}
use vana.Keyboard.Classic.{Classic, int_equal, handle_interrupt}

abbrev pub with_caps : Classic → ℤ → Classic
with_caps s state = record s { keyboard = record (s.keyboard) { capslock_state = state } }

abbrev pub with_shift : Classic → ℤ → Classic
with_shift s state = record s { keyboard = record (s.keyboard) { shift_state = state } }

-- A press and a release of caps lock.
abbrev pub caps_stroke : Classic → Option Classic
caps_stroke s = handle_interrupt 0x3A s >>= handle_interrupt 0xBA

caps_stroke-on :
    (s : Classic) → s.keyboard.capslock_state ≡ pos 0 → caps_stroke s ≡ some (with_caps s (pos 1))
unfolding handle_interrupt set_capslock get_capslock int_equal
caps_stroke-on s h = rw h refl

caps_stroke-off :
    (s : Classic) → s.keyboard.capslock_state ≡ pos 1 → caps_stroke s ≡ some (with_caps s (pos 0))
unfolding handle_interrupt set_capslock get_capslock int_equal
caps_stroke-off s h = rw h refl

-- Two strokes of caps lock leave the driver and the buffer as they were, when the state is on or
-- off before.
pub caps_stroke-twice :
    (s : Classic)
    → (s.keyboard.capslock_state ≡ pos 0) ⊎ (s.keyboard.capslock_state ≡ pos 1)
    → (caps_stroke s >>= caps_stroke) ≡ some s
caps_stroke-twice s (inl h) =
    ap (λ o. o >>= caps_stroke) (caps_stroke-on s h)
    ∙ caps_stroke-off (with_caps s (pos 1)) refl
    ∙ ap (λ state. some (with_caps s state)) (sym h)
caps_stroke-twice s (inr h) =
    ap (λ o. o >>= caps_stroke) (caps_stroke-off s h)
    ∙ caps_stroke-on (with_caps s (pos 0)) refl
    ∙ ap (λ state. some (with_caps s state)) (sym h)
