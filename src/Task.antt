-- ===== src/Task.antt =====
-- The scheduler of src/task/task.c. A task is a node at an address; `tasks` gives the nodes that are
-- allocated, and the null pointer is 0. Pages and processes are known by their addresses. `none` is a
-- fault: a null pointer or a freed task is read or written, or the kernel panics.
pub mod Append
pub mod Queue
pub mod RoundRobin
pub mod Removal
pub mod User
pub mod Stack
pub mod Bytes
pub mod Copy
mod Tests
use vana.Prelude.{ℕ, ◌+◌, Bool, true, false, Option, none, some, List, [], ◌∷◌, ◌==◌, if◌then◌else◌}

pub record Registers : Type 0 where
  pub edi : ℕ
  pub esi : ℕ
  pub ebp : ℕ
  pub ebx : ℕ
  pub edx : ℕ
  pub ecx : ℕ
  pub eax : ℕ
  pub ip : ℕ
  pub cs : ℕ
  pub flags : ℕ
  pub esp : ℕ
  pub ss : ℕ

pub record InterruptFrame : Type 0 where
  pub edi : ℕ
  pub esi : ℕ
  pub ebp : ℕ
  pub reserved : ℕ
  pub ebx : ℕ
  pub edx : ℕ
  pub ecx : ℕ
  pub eax : ℕ
  pub ip : ℕ
  pub cs : ℕ
  pub flags : ℕ
  pub esp : ℕ
  pub ss : ℕ

pub record Task : Type 0 where
  pub page_directory : ℕ
  pub registers : Registers
  pub process : ℕ
  pub next : ℕ
  pub prev : ℕ

abbrev pub Tasks : Type 0
Tasks = ℕ → Option Task

-- The globals of the scheduler, the tasks, the directory that the processor uses, and the
-- directories that were given back.
pub record Scheduler : Type 0 where
  pub current_task : ℕ
  pub task_head : ℕ
  pub task_tail : ℕ
  pub tasks : Tasks
  pub current_directory : ℕ
  pub freed_directories : List ℕ

abbrev pub M : Type 0 → Type 0
M A = Scheduler → Option (A × Scheduler)

abbrev pub pure : {A : Type 0} → A → M A
pure a s = some (a, s)

abbrev pub fault : {A : Type 0} → M A
fault s = none

abbrev pub and_then : {A B : Type 0} → Option (A × Scheduler) → (A → M B) → Option (B × Scheduler)
and_then none f = none
and_then (some (a, s)) f = f a s

infixl 5 ◌>>=◌ ◌>>◌
abbrev pub ◌>>=◌ : {A B : Type 0} → M A → (A → M B) → M B
m >>= f = λ s. and_then (m s) f

abbrev pub ◌>>◌ : {B : Type 0} → M (Unit {0}) → M B → M B
m >> k = m >>= λ _. k

-- The scheduler's globals.
abbrev pub get : M Scheduler
get s = some (s, s)

abbrev pub put : Scheduler → M (Unit {0})
put s' s = some (tt, s')

abbrev pub write : Tasks → ℕ → Option Task → Tasks
write h p c a = if a == p then c else h a

abbrev pub deref : Option Task → M Task
deref none s = none
deref (some t) s = some (t, s)

abbrev pub load : ℕ → M Task
load p s = deref (if p == 0 then none else s.tasks p) s

abbrev pub store : ℕ → Task → M (Unit {0})
store p t s = some (tt, record s { tasks = write s.tasks p (some t) })

abbrev pub set_head : ℕ → M (Unit {0})
set_head p s = some (tt, record s { task_head = p })

abbrev pub set_tail : ℕ → M (Unit {0})
set_tail p s = some (tt, record s { task_tail = p })

abbrev pub set_current : ℕ → M (Unit {0})
set_current p s = some (tt, record s { current_task = p })

abbrev pub zero_registers : Registers
zero_registers = record {
  edi = 0;
  esi = 0;
  ebp = 0;
  ebx = 0;
  edx = 0;
  ecx = 0;
  eax = 0;
  ip = 0;
  cs = 0;
  flags = 0;
  esp = 0;
  ss = 0;
}

abbrev pub program_virtual_address : ℕ
program_virtual_address = 0x400000

abbrev pub stack_address_start : ℕ
stack_address_start = 0x3FF000

abbrev pub user_data_segment : ℕ
user_data_segment = 0x23

abbrev pub user_code_segment : ℕ
user_code_segment = 0x1B

-- `entry` is the entry point of the process' ELF file, none for a raw binary. `page_directory` is the
-- new directory, which is never null.
unfoldable pub task_init : ℕ → Option ℕ → ℕ → Task
task_init process entry page_directory = record {
  page_directory = page_directory;
  registers = record zero_registers {
    ip = elim entry [ none ↦ program_virtual_address | some e ↦ e ];
    ss = user_data_segment;
    cs = user_code_segment;
    esp = stack_address_start;
  };
  process = process;
  next = 0;
  prev = 0;
}

-- `address` is what `kzalloc` gives for the task; for a null pointer `task_free` is called with it,
-- and reads through it.
unfoldable pub task_new : ℕ → ℕ → Option ℕ → ℕ → M ℕ
task_new address process entry page_directory s =
    let task = task_init process entry page_directory in
    let first : M ℕ = (do
      store address task
      s' ← get
      put (record s' { task_head = address; task_tail = address; current_task = address })
      pure address) in
    let append : M ℕ = (do
      store address task
      last ← load s.task_tail
      store s.task_tail (record last { next = address })
      task' ← load address
      store address (record task' { prev = s.task_tail })
      s' ← get
      put (record s' { task_tail = address })
      pure address) in
    (if address == 0 then fault else if s.task_head == 0 then first else append) s

unfoldable pub task_get_next : M ℕ
task_get_next s =
    (load s.current_task >>= λ task. pure (if task.next == 0 then s.task_head else task.next)) s

-- Each step reads the task again.
unfoldable pub task_list_remove : ℕ → M (Unit {0})
task_list_remove task = do
  t ← load task
  let unlink : M (Unit {0}) = (do
    before ← load t.prev
    store t.prev (record before { next = t.next }))
  (if t.prev == 0 then pure tt else unlink)
  t' ← load task
  s ← get
  (if task == s.task_head then set_head t'.next else pure tt)
  (if task == s.task_tail then set_tail t'.prev else pure tt)
  let advance : M (Unit {0}) = (do following ← task_get_next; set_current following)
  if task == s.current_task then advance else pure tt

-- `paging_free_4gb` is recorded by its argument.
unfoldable pub task_free : ℕ → M (Unit {0})
task_free task = do
  t ← load task
  s ← get
  put (record s { freed_directories = t.page_directory ∷ s.freed_directories })
  task_list_remove task
  s' ← get
  put (record s' { tasks = write s'.tasks task none })

unfoldable pub task_switch : ℕ → M (Unit {0})
task_switch task = do
  t ← load task
  s ← get
  put (record s { current_task = task; current_directory = t.page_directory })

-- Up to the return to the task's registers.
unfoldable pub task_next : M (Unit {0})
task_next = do next_task ← task_get_next; if next_task == 0 then fault else task_switch next_task

unfoldable pub task_run_first_ever_task : M (Unit {0})
task_run_first_ever_task s = (if s.current_task == 0 then fault else task_switch s.task_head) s

unfoldable pub save_registers : InterruptFrame → Registers → Registers
save_registers frame r = record r {
  ip = frame.ip;
  cs = frame.cs;
  flags = frame.flags;
  esp = frame.esp;
  ss = frame.ss;
  eax = frame.eax;
  ebp = frame.ebp;
  ebx = frame.ebx;
  ecx = frame.ecx;
  edi = frame.edi;
  edx = frame.edx;
  esi = frame.esi;
}

unfoldable pub task_save_state : ℕ → InterruptFrame → M (Unit {0})
task_save_state task frame = do
  t ← load task
  store task (record t { registers = save_registers frame t.registers })

unfoldable pub task_current_save_state : InterruptFrame → M (Unit {0})
task_current_save_state frame s =
    (if s.current_task == 0 then fault else task_save_state s.current_task frame) s
