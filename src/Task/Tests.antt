-- ===== src/Task/Tests.antt =====
-- The scheduler's theorems at queues of two and three tasks.
use vana.Prelude.{ℕ, ◌≡◌, refl, some, none, [], ◌∷◌, ◌==◌, if◌then◌else◌, arith}
use vana.Task.{Task, Tasks, Scheduler, zero_registers, task_new}
use vana.Task.Queue.{IsQueue}
use vana.Task.RoundRobin.{running, turns, turns-round_robin}
use vana.Task.Append.{task_new-IsQueue}
use vana.Task.Removal.{SecondFails, task_free-second}

abbrev task_between : ℕ → ℕ → ℕ → Task
task_between before after directory = record {
  page_directory = directory;
  registers = zero_registers;
  process = 1;
  next = after;
  prev = before;
}

-- The tasks at the addresses 3, 5 and 7.
abbrev three_tasks : Tasks
three_tasks p =
    if p == 3
    then some (task_between 0 5 30)
    else if p == 5
    then some (task_between 3 7 50)
    else if p == 7
    then some (task_between 5 0 70)
    else none

abbrev three : Scheduler
three = record {
  current_task = 3;
  task_head = 3;
  task_tail = 7;
  tasks = three_tasks;
  current_directory = 30;
  freed_directories = [];
}

three-IsQueue : IsQueue three (3 ∷ 5 ∷ 7 ∷ [])
three-IsQueue = record {
  links = (
    omega arith,
    (task_between 0 5 30, refl, refl, refl),
    (
      omega arith,
      (task_between 3 7 50, refl, refl, refl),
      (omega arith, (task_between 5 0 70, refl, refl, refl), tt),
    ),
  );
  distinct = ((omega arith, (omega arith, tt)), ((omega arith, tt), (tt, tt)));
  head = refl;
  tail = refl;
}

-- Four turns after 5 comes 7.
turns-round_robin_example :
    (d' : ℕ) × (turns 4 (running three 5 50) ≡ some (tt, running three 7 d'))
turns-round_robin_example =
    turns-round_robin three (3 ∷ 5 ∷ 7 ∷ []) three-IsQueue 4 1 50 (omega arith)

task_new-IsQueue_example :
    (s' : Scheduler) × (task_new 9 2 (some 0x400100) 90 three ≡ some (9, s'))
    × IsQueue s' (3 ∷ 5 ∷ 7 ∷ 9 ∷ [])
task_new-IsQueue_example =
    task_new-IsQueue 9 2 (some 0x400100) 90 three (3 ∷ 5 ∷ 7 ∷ []) three-IsQueue (omega arith) refl

task_free-second_example : SecondFails three 3 5
task_free-second_example = task_free-second three 3 5 (7 ∷ []) three-IsQueue
