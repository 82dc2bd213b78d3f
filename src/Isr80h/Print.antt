-- ===== src/Isr80h/Print.antt =====
-- The system call that prints a text of the task.
use vana.Prelude.{ℕ, ◌+◌, ◌*◌, ◌/◌, ◌<◌, ◌≡◌, refl, arith, List, ◌++◌, length, some}
use vana.Strings.Lengths.{IsText}
use vana.Memory.Heap.Alloc.{IsValid}
use vana.Memory.Heap.Laws.{IsClean}
use vana.Memory.Heap.OneBlock.{count_free}
use vana.Kheap.{Machine}
use vana.Paging.{Memory, page_size}
use vana.Paging.Identity.{NotFree}
use vana.Task.User.{task_get_stack_item}
use vana.Task.Copy.Text.{TaskText, copy_string_from_task-text}
use vana.Console.{vga_width}
use vana.Console.Screen.{cursor_at, cells_of, IsPlain, print-cells}
use vana.Isr80h.{isr80h_command1_print}

-- A program that passes the address of a terminated text of at most 1023 characters, none a newline
-- or a backspace, has its characters written behind the cursor, and is given 0. The heap is as it was,
-- and the memory too but for the heap's free blocks. The heap is valid, has a free block, and its free
-- entries are 0; neither the task's directory, its tables, nor the pages of the text are free
-- blocks, and the text lies in none of the tables; the cells behind
-- the cursor hold the text, and the cursor's row stays below 65535.
pub isr80h_command1_print-cells :
    (s d esp : ℕ) (text buf pre old post : List ℕ) (m : Machine)
    → IsValid m.kernel_heap
    → IsClean m.kernel_heap.table.entries
    → m.kernel_heap.saddr ≡ s * page_size
    → 0 < s
    → 0 < count_free m.kernel_heap.table.entries
    → IsText text
    → IsPlain text
    → length text < 1024
    → length buf ≡ 1024
    → TaskText d (task_get_stack_item (d * page_size) esp 0 m.memory) text m
    → length old ≡ length text
    → length pre + length text < 65535 * vga_width
    → (mem : Memory) × (isr80h_command1_print
          (d * page_size)
          esp
          buf
          m
          (cursor_at (length pre) (pre ++ (old ++ post)))
        ≡ some (
          0,
          record m { memory = mem },
          cursor_at (length pre + length text) (pre ++ (cells_of text ++ post)),
        ))
      × ((x : ℕ) → NotFree m.kernel_heap (x / page_size) → mem x ≡ m.memory x)
unfolding isr80h_command1_print
isr80h_command1_print-cells s d esp text buf pre old post m v clean a p c t plain fits size u room
      last =
    let virt = task_get_stack_item (d * page_size) esp 0 m.memory in
    let (junk, mem, e, same) =
      copy_string_from_task-text s d virt 1024 text buf m v clean a p c t fits (omega arith)
        (omega (arith, size)) u in
    (mem, rw (e, print-cells text junk pre old post t plain room last) refl, same)
