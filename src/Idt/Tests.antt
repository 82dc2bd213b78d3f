-- ===== src/Idt/Tests.antt =====
-- The set-up of the tables, and a command, at concrete functions.
use vana.Prelude.{ℕ, ◌+◌, ◌*◌, ℤ, pos, replicate}
use vana.Idt.{Idt, gate}

abbrev empty : Idt
empty = record {
  descriptors = replicate 256 (gate 0 0);
  callbacks = replicate 256 0;
  commands = replicate 1024 0;
}

-- The stub of a vector stands 16 bytes behind that of the one before.
abbrev stub : ℕ → ℕ
stub i = 0x10_0000 + 16 * i

-- Every function adds its address and the frame to the state.
abbrev call : ℕ → ℕ → ℕ → ℤ × ℕ
call func frame s = (pos func, s + frame + func)
