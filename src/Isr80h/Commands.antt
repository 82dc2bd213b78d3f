-- ===== src/Isr80h/Commands.antt =====
-- The table of the commands: what a program calls by a number.
use vana.Prelude.{
  ℕ, suc, ◌<◌, ◌≤◌, ◌≡◌, ◌≢◌, refl, sym, ap, ◌∙◌, ℤ, pos, some, arith, leb, false, ==_ne, length,
  get_or, set, length-set, get_or-set_self, get_or-set_ne,
}
use native.Mathlib.Decide.{ℕ_discrete, dec_lt}
use vana.Idt.{Idt, max_isr80h_commands, isr80h_register_command, isr80h_handle_command}
use vana.Isr80h.{isr80h_register_commands}

-- The commands below `n` are registered, and the others as in `t`.
record Registered (handlers : ℕ → ℕ) (n : ℕ) (t t' : Idt) : Type 0 where
  size : length t'.commands ≡ max_isr80h_commands
  below : (k : ℕ) → k < n → get_or t'.commands k 0 ≡ handlers k
  above : (k : ℕ) → n ≤ k → get_or t'.commands k 0 ≡ get_or t.commands k 0

leb_lt : (a b : ℕ) → a < b → leb b a ≡ false
leb_lt a b h = ground arith

module _ (handlers : ℕ → ℕ) (t : Idt) (free : (k : ℕ) → k < 10 → get_or t.commands k 0 ≡ 0) where
  Registered-next :
      (n : ℕ) (t' : Idt)
      → n < 10
      → Registered handlers n t t'
      → (t'' : Idt) × (isr80h_register_command (pos n) (handlers n) t' ≡ some t'')
        × Registered handlers (suc n) t t''
  unfolding isr80h_register_command
  Registered-next n t' l r = (
    record t' { commands = set t'.commands n (handlers n) },
    rw (leb_lt n max_isr80h_commands (omega arith), r.above n (omega arith), free n l) refl,
    record {
      size = length-set t'.commands n (handlers n) ∙ r.size;
      below = λ k h. elim (ℕ_discrete n k) [
        | yes e ↦
            ap (λ j. get_or (set t'.commands n (handlers n)) j 0) (sym e)
            ∙ get_or-set_self t'.commands n (handlers n) 0 (omega (arith, r.size))
            ∙ ap handlers e
        | no ne ↦ get_or-set_ne t'.commands n k (handlers n) 0 ne ∙ r.below k (omega arith)
      ];
      above = λ k h.
          get_or-set_ne t'.commands n k (handlers n) 0 (λ e. omega arith) ∙ r.above k (omega arith);
    },
  )

  all_Registered :
      length t.commands ≡ max_isr80h_commands
      → (t' : Idt) × (isr80h_register_commands handlers t ≡ some t') × Registered handlers 10 t t'
  unfolding isr80h_register_commands
  all_Registered size =
      let start : Registered handlers 0 t t = record {
        size = size;
        below = λ k h. absurd (omega arith);
        above = λ k h. refl;
      } in
      let (t0, e0, r0) = Registered-next 0 t (omega arith) start in
      let (t1, e1, r1) = Registered-next 1 t0 (omega arith) r0 in
      let (t2, e2, r2) = Registered-next 2 t1 (omega arith) r1 in
      let (t3, e3, r3) = Registered-next 3 t2 (omega arith) r2 in
      let (t4, e4, r4) = Registered-next 4 t3 (omega arith) r3 in
      let (t5, e5, r5) = Registered-next 5 t4 (omega arith) r4 in
      let (t6, e6, r6) = Registered-next 6 t5 (omega arith) r5 in
      let (t7, e7, r7) = Registered-next 7 t6 (omega arith) r6 in
      let (t8, e8, r8) = Registered-next 8 t7 (omega arith) r7 in
      let (t9, e9, r9) = Registered-next 9 t8 (omega arith) r8 in
      (t9, rw (e0, e1, e2, e3, e4, e5, e6, e7, e8, e9) refl, r9)

module _ {S F : Type 0} (call : ℕ → F → S → ℤ × S) where
  -- In a table of 1024 commands whose first ten are free, all system calls can be registered where
  -- none of their functions is the null pointer. The numbers 0 to 9 then call the functions, and every
  -- other number, below 0 too, does what it did before.
  pub isr80h_register_commands-handled :
      (handlers : ℕ → ℕ) (t : Idt)
      → length t.commands ≡ max_isr80h_commands
      → ((k : ℕ) → k < 10 → get_or t.commands k 0 ≡ 0)
      → ((k : ℕ) → k < 10 → handlers k ≢ 0)
      → (t' : Idt) × (isr80h_register_commands handlers t ≡ some t')
        × ((k : ℕ) (frame : F) (s : S)
            → k < 10
            → isr80h_handle_command call (pos k) frame t' s ≡ call (handlers k) frame s)
        × ((command : ℤ) (frame : F) (s : S)
            → ((k : ℕ) → k < 10 → command ≢ pos k)
            → isr80h_handle_command call command frame t' s
              ≡ isr80h_handle_command call command frame t s)
  isr80h_register_commands-handled handlers t size free given =
      let (t', e, r) = all_Registered handlers t free size in
      (
        t',
        e,
        λ k frame s l. called handlers k frame t t' s l r (given k l),
        λ command frame s other. others handlers t t' r command frame s other,
      )
    where
      called :
          (handlers : ℕ → ℕ) (k : ℕ) (frame : F) (t t' : Idt) (s : S)
          → k < 10
          → Registered handlers 10 t t'
          → handlers k ≢ 0
          → isr80h_handle_command call (pos k) frame t' s ≡ call (handlers k) frame s
      called handlers k frame t t' s l r ne =
          unfold isr80h_handle_command in
          rw (leb_lt k max_isr80h_commands (omega arith), r.below k l, ==_ne (handlers k) 0 ne) refl

      others :
          (handlers : ℕ → ℕ) (t t' : Idt)
          → Registered handlers 10 t t'
          → (command : ℤ) (frame : F) (s : S) → ((k : ℕ) → k < 10 → command ≢ pos k)
          → isr80h_handle_command call command frame t' s
            ≡ isr80h_handle_command call command frame t s
      others handlers t t' r (ℤ.negsuc n) frame s other = unfold isr80h_handle_command in refl
      others handlers t t' r (ℤ.pos k) frame s other =
          unfold isr80h_handle_command in
          elim (dec_lt k 10) [
            | yes l ↦ absurd (other k l refl)
            | no g ↦ rw (r.above k (omega arith)) refl
          ]
