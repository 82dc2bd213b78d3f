-- ===== src/Idt.antt =====
-- The interrupt table and its dispatch, src/idt/idt.c and idt.h, and src/pic/pic.c. Functions are known by their
-- addresses, and the null pointer is 0; what a call of one does is a parameter. `none` is a panic,
-- or a write outside a table.
pub mod Commands
pub mod Gates
mod Tests
use vana.Prelude.{
  ℕ, zero, suc, ◌+◌, ◌-◌, ◌/◌, ◌%◌, ◌^◌, Bool, not, ◌&&◌, ◌||◌, ℤ, pos, negsuc, Option, none, some,
  List, [], ◌∷◌, ◌>>=◌, ltb, leb, ◌==◌, if◌then◌else◌, length, get_or, set, replicate,
}

abbrev pub total_descriptors : ℕ
total_descriptors = 256

abbrev pub max_isr80h_commands : ℕ
max_isr80h_commands = 1024

abbrev pub kernel_code_selector : ℕ
kernel_code_selector = 0x08

-- `IDT_DESC_PRESENT | IDT_DESC_RING0 | IDT_DESC_INT_GATE`
abbrev pub kernel_interrupt_gate : ℕ
kernel_interrupt_gate = 0x8E

-- `IDT_DESC_PRESENT | IDT_DESC_RING3 | IDT_DESC_INT_GATE`
abbrev pub user_interrupt_gate : ℕ
user_interrupt_gate = 0xEE

-- `struct idt_desc`. Its field `zero` is spelled `reserved`.
pub record IdtDesc : Type 0 where
  pub offset_1 : ℕ
  pub selector : ℕ
  pub reserved : ℕ
  pub type_attr : ℕ
  pub offset_2 : ℕ

-- The tables of idt.c.
pub record Idt : Type 0 where
  pub descriptors : List IdtDesc
  pub callbacks : List ℕ
  pub commands : List ℕ

abbrev pub no_desc : IdtDesc
no_desc = record { offset_1 = 0; selector = 0; reserved = 0; type_attr = 0; offset_2 = 0 }

-- An address has 32 bits.
unfoldable pub gate : ℕ → ℕ → IdtDesc
gate address type_attr = record {
  offset_1 = address % 2 ^ 16;
  selector = kernel_code_selector;
  reserved = 0;
  type_attr = type_attr;
  offset_2 = address / 2 ^ 16;
}

unfoldable pub idt_set : ℕ → ℕ → ℕ → List IdtDesc → Option (List IdtDesc)
idt_set interrupt_no address type_attr descriptors =
    if ltb interrupt_no (length descriptors)
    then some (set descriptors interrupt_no (gate address type_attr))
    else none

-- A vector below 0 is outside too. The result is -1 or 0.
unfoldable pub idt_register_interrupt_callback : ℤ → ℕ → Idt → ℤ × Idt
idt_register_interrupt_callback (negsuc n) callback t = (negsuc 0, t)
idt_register_interrupt_callback (pos interrupt) callback t =
    if leb total_descriptors interrupt
    then (negsuc 0, t)
    else (pos 0, record t { callbacks = set t.callbacks interrupt callback })

-- `n` gates are left, from the vector `i` on; `table` gives their addresses.
unfoldable pub gates_loop : (ℕ → ℕ) → ℕ → ℕ → List IdtDesc → Option (List IdtDesc)
gates_loop table zero i descriptors = some descriptors
gates_loop table (suc n) i descriptors = do
  descriptors' ← idt_set i (table i) kernel_interrupt_gate descriptors
  gates_loop table n (i + 1) descriptors'

-- `n` vectors are left, from `i` on.
unfoldable pub exceptions_loop : ℕ → ℕ → ℕ → Idt → Idt
exceptions_loop handler zero i t = t
exceptions_loop handler (suc n) i t =
    exceptions_loop handler n (i + 1) (idt_register_interrupt_callback (pos i) handler t).1

-- `table` and `wrapper` are the stubs in assembly, `handler` and `ignore` the addresses of
-- `idt_handle_exception` and `interrupt_ignore`. The load of the table's register is left out.
unfoldable pub idt_init : (ℕ → ℕ) → ℕ → ℕ → ℕ → Idt → Option Idt
idt_init table wrapper handler ignore t = do
  gates ← gates_loop table total_descriptors 0 (replicate total_descriptors no_desc)
  descriptors ← idt_set 0x80 wrapper user_interrupt_gate gates
  let cleared : Idt = record t {
    descriptors = descriptors;
    callbacks = replicate total_descriptors 0;
  }
  let t1 = exceptions_loop handler 32 0 cleared
  let (r2, t2) = idt_register_interrupt_callback (pos 0x27) ignore t1
  let (r3, t3) = idt_register_interrupt_callback (pos 0x2E) ignore t2
  let (r4, t4) = idt_register_interrupt_callback (pos 0x2F) ignore t3
  some t4

-- A command's id may be negative.
unfoldable pub isr80h_register_command : ℤ → ℕ → Idt → Option Idt
isr80h_register_command (negsuc n) command t = none
isr80h_register_command (pos id) command t =
    if leb max_isr80h_commands id
    then none
    else if not (get_or t.commands id 0 == 0)
    then none
    else some (record t { commands = set t.commands id command })

-- `S` is the rest of the machine, and `out` writes a byte to a port of the interrupt controllers.
unfoldable pub pic_send_eoi : {S : Type 0} → (ℕ → ℕ → S → S) → ℕ → S → S
pic_send_eoi out irq s = out 0x20 0x20 (if leb 8 irq then out 0xA0 0x20 s else s)

-- `F` is the frame.
module _ {S F : Type 0} where
  -- `call` gives what the function at an address does with the frame.
  unfoldable pub isr80h_handle_command : (ℕ → F → S → ℤ × S) → ℤ → F → Idt → S → ℤ × S
  isr80h_handle_command call (negsuc n) frame t s = (pos 0, s)
  isr80h_handle_command call (pos command) frame t s =
      let func = get_or t.commands command 0 in
      if leb max_isr80h_commands command
      then (pos 0, s)
      else if func == 0
      then (pos 0, s)
      else call func frame s

  unfoldable pub interrupt_ignore : (ℕ → ℕ → S → S) → F → S → S
  interrupt_ignore out frame s = out 0x20 0x20 (out 0xA0 0x20 s)

  -- A vector without a callback panics.
  unfoldable pub interrupt_handler : (ℕ → F → S → S) → (ℕ → ℕ → S → S) → ℕ → F → Idt → S → Option S
  interrupt_handler call out interrupt frame t s =
      let callback = get_or t.callbacks interrupt 0 in
      let acknowledge : S → S = λ s'.
        if leb 0x20 interrupt && leb interrupt 0x2F
        then pic_send_eoi out (interrupt - 0x20) s'
        else s' in
      if ltb interrupt total_descriptors
      then (if callback == 0 then none else some (acknowledge (call callback frame s)))
      else some (acknowledge s)
