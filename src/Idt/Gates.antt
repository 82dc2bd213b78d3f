-- ===== src/Idt/Gates.antt =====
-- The tables once they have been set up.
use vana.Prelude.{
  ℕ, zero, suc, ◌+◌, ◌*◌, ◌/◌, ◌%◌, ◌^◌, ◌≡◌, Bool, true, Option, some, List, [], ◌∷◌, map, arith,
  ◌==◌,
}
use vana.Idt.{IdtDesc, Idt, kernel_interrupt_gate, gate}

-- The gates of `n` vectors from `i` on.
abbrev pub gates_from : (ℕ → ℕ) → ℕ → ℕ → List IdtDesc
gates_from table zero i = []
gates_from table (suc n) i = gate (table i) kernel_interrupt_gate ∷ gates_from table n (i + 1)

-- The address that the processor reads from a gate.
abbrev pub gate_address : IdtDesc → ℕ
gate_address g = g.offset_1 + 2 ^ 16 * g.offset_2

pub gate_address-gate : (address type_attr : ℕ) → gate_address (gate address type_attr) ≡ address
unfolding gate
gate_address-gate address type_attr = omega arith

-- What the processor makes of a descriptor: the address and the selector of the code, whether the
-- gate is present, the least privileged ring whose programs may call it, and the kind of the gate.
pub record Gate : Type 0 where
  pub address : ℕ
  pub selector : ℕ
  pub present : Bool
  pub ring : ℕ
  pub kind : ℕ

-- The bits of the type byte, from the highest: present, two for the ring, a zero, four for the kind.
abbrev pub read_gate : IdtDesc → Gate
read_gate g = record {
  address = gate_address g;
  selector = g.selector;
  present = g.type_attr / 2 ^ 7 % 2 == 1;
  ring = g.type_attr / 2 ^ 5 % 4;
  kind = g.type_attr % 2 ^ 5;
}

-- A present gate of 32 bits that disables interrupts, to the code segment of the kernel, for the
-- programs of a ring and the more privileged ones.
abbrev pub interrupt_gate : ℕ → ℕ → Gate
interrupt_gate address ring = record {
  address = address;
  selector = 8;
  present = true;
  ring = ring;
  kind = 0b01110;
}

-- For each of the `n` vectors from `i` on: its stub, for the kernel only.
abbrev pub kernel_gates : (ℕ → ℕ) → ℕ → ℕ → List Gate
kernel_gates table zero i = []
kernel_gates table (suc n) i = interrupt_gate (table i) 0 ∷ kernel_gates table n (i + 1)

-- What the set-up leads to: tables that the processor reads as the gates, with the callbacks, and the
-- commands from before.
abbrev pub SetUp : Idt → List Gate → List ℕ → Option Idt → Type 0
SetUp t gates callbacks result =
    (t' : Idt) × (result ≡ some t')
    × (map read_gate t'.descriptors ≡ gates)
    × (t'.callbacks ≡ callbacks)
    × (t'.commands ≡ t.commands)
