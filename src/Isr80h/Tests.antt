-- ===== src/Isr80h/Tests.antt =====
-- The system calls at a task whose directory maps every page to itself. The directory is on the page
-- 1, its tables are on the pages 2 to 1025, its stack on the page 1400, a text on the page 1500, and
-- the kernel's heap is the page 2000.
use vana.Prelude.{
  ℕ, zero, suc, ◌+◌, ◌-◌, ◌*◌, ◌/◌, ◌%◌, ◌^◌, ◌≤◌, ◌<◌, ◌≡◌, ◌≢◌, refl, sym, ap, ◌∙◌, arith, leb,
  ltb, ◌==◌, ◌&&◌, if◌then◌else◌, List, [], ◌∷◌, ◌++◌, get_or, some, ok, ℤ, pos, replicate,
  length-replicate, subst,
}
use vana.Memory.Heap.{Heap, entry_type}
use vana.Memory.Heap.OneBlock.{count_free}
use vana.Memory.Heap.Alloc.{IsValid}
use vana.Kheap.{Machine}
use vana.Paging.{Memory, page_size, table_of, entry_at, get_physical_address}
use vana.Paging.Mapping.{IsDirectory, table_at, get_physical_address-entry}
use vana.Paging.Identity.{NotFree}
use vana.Idt.{Idt, isr80h_handle_command}
use vana.Task.User.{byte_at, user_byte, task_get_stack_item, copy_string_from_task}
use vana.Task.Stack.{task_get_stack_item-word}
use vana.Task.Copy.Text.{TaskText, copy_string_from_task-text}
use vana.Console.Screen.{cursor_at, cells_of}
use vana.Isr80h.{isr80h_register_commands, isr80h_command1_print}
use vana.Isr80h.Commands.{isr80h_register_commands-handled}
use vana.Isr80h.Print.{isr80h_command1_print-cells}

abbrev task_memory : Memory
task_memory a =
    let page = a / 4096 in
    if page == 1
    then (2 + a % 4096 / 4) * 4096 + 7
    else if leb 2 page && ltb page 1026
    then ((page - 2) * 1024 + a % 4096 / 4) * 4096 + 7
    else if a == 5734400
    then 6144000
    else if a == 6144000
    then 26952
    else 0

abbrev one_block : Heap
one_block = record { table = record { entries = 0 ∷ []; total = 1 }; saddr = 8192000 }

abbrev machine : Machine
machine = record { kernel_heap = one_block; memory = task_memory }

abbrev hi : List ℕ
hi = b'H' ∷ b'i' ∷ []

low_NotFree : (p : ℕ) → p < 2000 → NotFree one_block p
low_NotFree p l b e q h = absurd (omega arith)

table_word : (i : ℕ) → i < 1024 → table_at 4096 task_memory i ≡ (2 + i) * 4096
unfolding table_of entry_at
table_word i l = let page : (4096 + 4 * i) / 4096 ≡ 1 = omega arith in rw page (omega arith)

in_tables :
    (page i : ℕ)
    → 2 ≤ page
    → page < 1026
    → i < 1024
    → table_of (task_memory (entry_at (page * 4096) i)) ≡ ((page - 2) * 1024 + i) * 4096
unfolding table_of entry_at
in_tables page i h l k =
    let at : (page * 4096 + 4 * i) / 4096 ≡ page = omega arith in
    let rest : (page * 4096 + 4 * i) % 4096 / 4 ≡ i = omega arith in rw (at, rest) (ground arith)

task_memory-IsDirectory : IsDirectory 4096 task_memory
task_memory-IsDirectory = record {
  on_page = omega arith;
  apart = λ i l. rw (table_word i l) (λ e. omega arith);
  distinct = λ i j l h n. rw (table_word i l, table_word j h) (λ e. n (omega arith));
}

whole : (v : ℕ) → v / 4096 * 4096 + v % 4096 ≡ v
whole v = omega arith

identity : (v : ℕ) → v < 2 ^ 32 → get_physical_address 4096 v task_memory ≡ v
identity v l =
    let i = v / 4096 / 1024 in
    let c = v / 4096 % 1024 in
    ap (λ x. get_physical_address 4096 x task_memory) (sym (whole v))
    ∙ get_physical_address-entry 4096 task_memory task_memory-IsDirectory task_memory (v / 4096)
        (v % 4096) (omega arith)
    ∙ ap (λ t. (table_of (task_memory (entry_at t c)) + v % 4096) % 2 ^ 32)
        (table_word i (omega arith))
    ∙ ap (λ w. (w + v % 4096) % 2 ^ 32)
        (in_tables (2 + i) c (omega arith) (omega arith) (omega arith))
    ∙ omega arith

hi_bytes : (i : ℕ) → i ≤ 2 → byte_at (6144000 + i) task_memory ≡ get_or hi i 0
unfolding byte_at
hi_bytes zero l = refl
hi_bytes (suc zero) l = refl
hi_bytes (suc (suc zero)) l = refl
hi_bytes (suc (suc (suc i))) l = absurd (omega arith)

hi_user_bytes : (i : ℕ) → i ≤ 2 → user_byte 4096 (6144000 + i) task_memory ≡ get_or hi i 0
unfolding user_byte
hi_user_bytes i l =
    ap (λ a. byte_at a task_memory) (identity (6144000 + i) (omega arith)) ∙ hi_bytes i l

task_text : TaskText 1 6144000 hi machine
task_text = record {
  is_directory = task_memory-IsDirectory;
  not_free = low_NotFree 1 (omega arith);
  tables_not_free = λ i l. rw (table_word i l) (low_NotFree ((2 + i) * 4096 / 4096) (omega arith));
  below = omega arith;
  virt_not_free = λ i l. low_NotFree ((6144000 + i) / 4096) (omega arith);
  phys_not_free = λ i l.
      rw (identity (6144000 + i) (omega arith)) (low_NotFree ((6144000 + i) / 4096) (omega arith));
  outside_tables =
      λ i k l h. rw (identity (6144000 + i) (omega arith), table_word k h) (λ e. omega arith);
  bytes = hi_user_bytes;
}

one_block-IsValid : IsValid one_block
one_block-IsValid = record { size = refl; in_memory = omega arith; in_int = omega arith }

one_free : 0 < count_free one_block.table.entries
unfolding entry_type
one_free = omega arith

copy_string_from_task-text_example :
    (junk : List ℕ) × (mem : Memory) × (copy_string_from_task 4096 6144000
        (replicate 100 0)
        100
        machine
      ≡ some (ok (hi ++ 0 ∷ junk), record machine { memory = mem }))
    × ((x : ℕ) → NotFree one_block (x / page_size) → mem x ≡ task_memory x)
copy_string_from_task-text_example =
    copy_string_from_task-text 2000 1 6144000 100 hi (replicate 100 0) machine one_block-IsValid
      (λ h. refl, tt) refl (omega arith) one_free (omega arith, (omega arith, tt)) (omega arith)
      (omega arith) (omega arith) task_text

stack_item : task_get_stack_item 4096 5734400 0 task_memory ≡ 6144000
stack_item =
    task_get_stack_item-word 4096 5734400 0 task_memory (omega arith) (omega arith)
      (rw (identity 5734400 (omega arith)) (omega arith))
    ∙ rw (identity 5734400 (omega arith)) refl

isr80h_command1_print-cells_example :
    (mem : Memory) × (isr80h_command1_print 4096 5734400
        (replicate 1024 0)
        machine
        (cursor_at 1 (7 ∷ 0 ∷ 0 ∷ 9 ∷ []))
      ≡ some (0, record machine { memory = mem }, cursor_at 3 (7 ∷ (cells_of hi ++ 9 ∷ []))))
    × ((x : ℕ) → NotFree one_block (x / page_size) → mem x ≡ task_memory x)
isr80h_command1_print-cells_example =
    isr80h_command1_print-cells 2000 1 5734400 hi (replicate 1024 0) (7 ∷ []) (0 ∷ 0 ∷ []) (9 ∷ [])
      machine one_block-IsValid (λ h. refl, tt) refl (omega arith) one_free
      (omega arith, (omega arith, tt)) (omega arith, omega arith, (omega arith, omega arith, tt))
      (omega arith) (length-replicate {A = ℕ} 1024 0)
      (subst (λ v. TaskText 1 v hi machine) (sym stack_item) task_text) refl (omega arith)

abbrev no_commands : Idt
no_commands = record { descriptors = []; callbacks = []; commands = replicate 1024 0 }

get_or-zeros : (n k : ℕ) → ◌≡◌ {A = ℕ} (get_or (replicate n 0) k 0) 0
get_or-zeros zero k = refl
get_or-zeros (suc n) zero = refl
get_or-zeros (suc n) (suc k) = get_or-zeros n k

abbrev traced : ℕ → ℕ → ℕ → ℤ × ℕ
traced command frame s = (pos command, s + frame)

isr80h_register_commands-handled_example :
    (t' : Idt) × (isr80h_register_commands (λ k. k + 1) no_commands ≡ some t')
    × ((k frame s : ℕ)
        → k < 10
        → isr80h_handle_command traced (pos k) frame t' s ≡ traced (k + 1) frame s)
    × ((command : ℤ) (frame s : ℕ)
        → ((k : ℕ) → k < 10 → command ≢ pos k)
        → isr80h_handle_command traced command frame t' s
          ≡ isr80h_handle_command traced command frame no_commands s)
isr80h_register_commands-handled_example =
    isr80h_register_commands-handled traced (λ k. k + 1) no_commands
      (length-replicate {A = ℕ} 1024 0) (λ k l. get_or-zeros 1024 k) (λ k l e. omega arith)
