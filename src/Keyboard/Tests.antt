-- ===== src/Keyboard/Tests.antt =====
-- The theorems on the keyboard ring at small contents.
use vana.Prelude.{ℕ, zero, suc, ◌≡◌, refl, [], ◌∷◌, arith, replicate, get_or, ◌%◌}
use vana.Keyboard.{KeyboardBuffer, push}
use vana.Keyboard.Ring.{Holds, push-Holds}

get_or-replicate : (n i : ℕ) → get_or {A = ℕ} (replicate n 0) i 0 ≡ 0
get_or-replicate zero i = refl
get_or-replicate (suc n) zero = refl
get_or-replicate (suc n) (suc i) = get_or-replicate n i

abbrev fresh : KeyboardBuffer
fresh = record { buffer = replicate 1024 0; head = 0; tail = 0 }

fresh-Holds : Holds fresh []
fresh-Holds = record {
  size = refl;
  span = refl;
  room = omega arith;
  slots = tt;
  clear = λ i p r. get_or-replicate 1024 (i % 1024);
}

push-Holds_example : Holds (push b'h' fresh) (b'h' ∷ [])
push-Holds_example = push-Holds fresh [] b'h' fresh-Holds (omega arith) (omega arith)

-- After one character has come and gone.
abbrev used : KeyboardBuffer
used = record { buffer = replicate 1024 0; head = 1; tail = 1 }

used-Holds : Holds used []
used-Holds = record {
  size = refl;
  span = refl;
  room = omega arith;
  slots = tt;
  clear = λ i p r. get_or-replicate 1024 (i % 1024);
}
