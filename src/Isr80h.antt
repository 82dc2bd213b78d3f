-- ===== src/Isr80h.antt =====
-- The system calls of src/isr80h/: their registration, and the commands for sums, texts, keys and
-- memory. `directory` and `esp` are the page directory and the stack pointer of the current task, and
-- a command's result is the word that it gives back. `none` is a panic or a write outside a table.
mod Tests
pub mod Commands
pub mod Print
use vana.Prelude.{
  ℕ, zero, suc, ◌+◌, ◌%◌, ◌^◌, ℤ, pos, Option, some, List, Result, ok, err, ltb, if◌then◌else◌,
  ◌>>=◌, replicate,
}
use vana.Paging.{Memory}
use vana.Kheap.{Machine}
use vana.Task.User.{task_get_stack_item, copy_string_from_task}
use vana.Process.{Process, process_malloc, process_free}
use vana.Keyboard.{KeyboardBuffer, pop}
use vana.Console.{Console, print, terminal_writechar}
use vana.Idt.{Idt, isr80h_register_command}

-- `handlers` gives the address of each command's function.
unfoldable pub isr80h_register_commands : (ℕ → ℕ) → Idt → Option Idt
isr80h_register_commands handlers t = do
  t0 ← isr80h_register_command (pos 0) (handlers 0) t
  t1 ← isr80h_register_command (pos 1) (handlers 1) t0
  t2 ← isr80h_register_command (pos 2) (handlers 2) t1
  t3 ← isr80h_register_command (pos 3) (handlers 3) t2
  t4 ← isr80h_register_command (pos 4) (handlers 4) t3
  t5 ← isr80h_register_command (pos 5) (handlers 5) t4
  t6 ← isr80h_register_command (pos 6) (handlers 6) t5
  t7 ← isr80h_register_command (pos 7) (handlers 7) t6
  t8 ← isr80h_register_command (pos 8) (handlers 8) t7
  isr80h_register_command (pos 9) (handlers 9) t8

-- The sum wraps around as the processor's does.
unfoldable pub isr80h_command0_sum : ℕ → ℕ → Memory → ℕ
isr80h_command0_sum directory esp mem =
    (task_get_stack_item directory esp 0 mem + task_get_stack_item directory esp 1 mem) % 2 ^ 32

-- `buf` is what lies in the buffer on the kernel's stack, which is printed also where nothing could
-- be copied.
unfoldable pub isr80h_command1_print :
    ℕ → ℕ → List ℕ → Machine → Console → Option (ℕ × Machine × Console)
isr80h_command1_print directory esp buf m k = do
  let user_space_msg_buffer = task_get_stack_item directory esp 0 m.memory
  (copied, m') ← copy_string_from_task directory user_space_msg_buffer buf 1024 m
  let text : List ℕ = elim copied [ ok b ↦ b | err e ↦ buf ]
  k' ← print text k
  some (0, m', k')

-- The code's `char` is signed.
unfoldable pub isr80h_command2_getkey : KeyboardBuffer → ℕ × KeyboardBuffer
isr80h_command2_getkey keyboard =
    let (c, keyboard') = pop keyboard in (if ltb c 128 then c else 0xFFFFFF00 + c, keyboard')

unfoldable pub isr80h_command3_putchar : ℕ → ℕ → Memory → Console → Option (ℕ × Console)
isr80h_command3_putchar directory esp mem k = do
  k' ← terminal_writechar (task_get_stack_item directory esp 0 mem % 256) 15 k
  some (0, k')

unfoldable pub isr80h_command4_malloc : ℕ → Process → Machine → Option (ℕ × Process × Machine)
isr80h_command4_malloc esp process m =
    process_malloc (task_get_stack_item process.directory esp 0 m.memory) process m

unfoldable pub isr80h_command5_free : ℕ → Process → Machine → Option (ℕ × Process × Machine)
isr80h_command5_free esp process m = do
  (process', m') ← process_free (task_get_stack_item process.directory esp 0 m.memory) process m
  some (0, process', m')
