-- ===== src/Process/Slots.antt =====
-- The table of the processes, src/task/process.c. A process is known by its address, and the null
-- pointer is 0. `none` is a panic or a write outside the table.
pub mod Free
pub mod Running
use vana.Prelude.{
  ℕ, ◌+◌, ℤ, pos, negsuc, Option, none, some, List, [], ◌∷◌, leb, ltb, ◌==◌, if◌then◌else◌, length,
  get_or, set,
}

abbrev pub max_processes : ℕ
max_processes = 12

pub record ProcessTable : Type 0 where
  pub processes : List ℕ
  pub current_process : ℕ

unfoldable pub process_get : ℤ → ProcessTable → ℕ
process_get (negsuc n) t = 0
process_get (pos process_id) t =
    if leb max_processes process_id then 0 else get_or t.processes process_id 0

unfoldable pub process_switch : ℕ → ProcessTable → ProcessTable
process_switch process t = record t { current_process = process }

-- The slots from the index `i` on.
unfoldable pub free_slot_loop : List ℕ → ℕ → ℤ
free_slot_loop [] i = negsuc 7
free_slot_loop (p ∷ others) i =
    let rest = free_slot_loop others (i + 1) in if p == 0 then pos i else rest

-- `-EISTKN`, which is -8, where there is none.
unfoldable pub process_get_free_slot : ProcessTable → ℤ
process_get_free_slot t = free_slot_loop t.processes 0

unfoldable pub switch_to_any_loop : List ℕ → ProcessTable → Option ProcessTable
switch_to_any_loop [] t = none
switch_to_any_loop (p ∷ others) t =
    let rest = switch_to_any_loop others t in if p == 0 then rest else some (process_switch p t)

unfoldable pub process_switch_to_any : ProcessTable → Option ProcessTable
process_switch_to_any t = switch_to_any_loop t.processes t

-- `id` is that of the process.
unfoldable pub process_unlink : ℕ → ℕ → ProcessTable → Option ProcessTable
process_unlink process id t =
    let unlinked : ProcessTable = record t { processes = set t.processes id 0 } in
    let switched = process_switch_to_any unlinked in
    let next = if unlinked.current_process == process then switched else some unlinked in
    if ltb id (length t.processes) then next else none
