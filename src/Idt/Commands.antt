-- ===== src/Idt/Commands.antt =====
-- Commands: registered, and called.
use vana.Prelude.{
  ℕ, ◌<◌, ◌≡◌, ◌≢◌, refl, false, ℤ, pos, some, none, arith, leb, ==_ne, length, get_or, set,
  get_or-set_self, get_or-set_ne,
}
use vana.Idt.{Idt, max_isr80h_commands, isr80h_register_command, isr80h_handle_command}

leb_lt : (a b : ℕ) → a < b → leb b a ≡ false
leb_lt a b h = ground arith

module _ {S F : Type 0} (call : ℕ → F → S → ℤ × S) where
  -- A command of an id below 1024 that is not taken yet can be registered. It is then what the id
  -- calls, every other id calls what it did, and to register the id again panics.
  pub isr80h_register_command-handled :
      (t : Idt) (id command : ℕ)
      → length t.commands ≡ max_isr80h_commands
      → id < max_isr80h_commands
      → get_or t.commands id 0 ≡ 0
      → command ≢ 0
      → (t' : Idt) × (isr80h_register_command (pos id) command t ≡ some t')
        × ((frame : F) (s : S)
            → isr80h_handle_command call (pos id) frame t' s ≡ call command frame s)
        × ((other : ℕ) (frame : F) (s : S)
            → id ≢ other
            → isr80h_handle_command call (pos other) frame t' s
              ≡ isr80h_handle_command call (pos other) frame t s)
        × ((again : ℕ) → isr80h_register_command (pos id) again t' ≡ none)
  unfolding isr80h_register_command isr80h_handle_command
  isr80h_register_command-handled t id command l h f n =
      let here = get_or-set_self t.commands id command 0 (omega arith) in
      let below = leb_lt id max_isr80h_commands h in
      (
        record t { commands = set t.commands id command },
        rw (below, f) refl,
        λ frame s. rw (here, below, ==_ne command 0 n) refl,
        λ other frame s m. rw (get_or-set_ne t.commands id other command 0 m) refl,
        λ again. rw (below, here, ==_ne command 0 n) refl,
      )
