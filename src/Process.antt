-- ===== src/Process.antt =====
-- The memory of a process, src/task/process.c: the table of what it has allocated, its mappings, and
-- the kernel's heap. A pointer is its address. `none` is a write outside the heap's table.
pub mod Mappings
pub mod Memory
pub mod Null
pub mod Slots
pub mod Table
mod Tests
use vana.Prelude.{
  ℕ, zero, suc, ◌+◌, ◌%◌, ◌^◌, Bool, true, false, ℤ, pos, negsuc, Option, none, some, List, [], ◌∷◌,
  ◌==◌, if◌then◌else◌, ◌>>=◌, get_elem?, set,
}
use vana.Paging.{map_to, align_address, is_failure}
use vana.Kheap.{Machine, kzalloc, kfree}

abbrev pub max_program_allocations : ℕ
max_program_allocations = 1024

pub record ProcessAllocation : Type 0 where
  pub ptr : ℕ
  pub size : ℕ

-- The allocations of `struct process`, and the page directory of its task.
pub record Process : Type 0 where
  pub allocations : List ProcessAllocation
  pub directory : ℕ

-- The first entry with an address, from the index `i` on.
unfoldable pub index_of : ℕ → List ProcessAllocation → ℕ → Option ℕ
index_of ptr [] i = none
index_of ptr (a ∷ others) i =
    let rest = index_of ptr others (i + 1) in if a.ptr == ptr then some i else rest

-- `-ENOMEM` where there is none.
unfoldable pub find_free_allocation_index : Process → ℤ
find_free_allocation_index process = elim (index_of 0 process.allocations 0) [
  | none ↦ negsuc 2
  | some i ↦ pos i
]

unfoldable pub get_allocation_by_addr : List ProcessAllocation → ℕ → Option ProcessAllocation
get_allocation_by_addr [] addr = none
get_allocation_by_addr (a ∷ others) addr =
    let rest = get_allocation_by_addr others addr in if a.ptr == addr then some a else rest

abbrev pub free_allocation : ProcessAllocation
free_allocation = record { ptr = 0; size = 0 }

unfoldable pub allocation_unjoin : List ProcessAllocation → ℕ → List ProcessAllocation
allocation_unjoin [] ptr = []
allocation_unjoin (a ∷ others) ptr =
    (if a.ptr == ptr then free_allocation else a) ∷ allocation_unjoin others ptr

-- `PAGING_IS_WRITEABLE | PAGING_IS_PRESENT | PAGING_ACCESS_FROM_ALL`
abbrev pub user_flags : ℕ
user_flags = 0b111

-- The address, 0 for the null pointer.
unfoldable pub process_malloc : ℕ → Process → Machine → Option (ℕ × Process × Machine)
process_malloc size process m = do
  (ptr, m1) ← kzalloc size m
  let failed : Machine → Option (ℕ × Process × Machine) =
      λ m'. (do m'' ← kfree ptr m'; some (0, process, m''))
  let (res, memory) =
      map_to process.directory ptr ptr (align_address ((ptr + size) % 2 ^ 32)) user_flags m1.memory
  let m2 : Machine = record m1 { memory = memory }
  let keep : ℕ → Option (ℕ × Process × Machine) = λ index. some (
    ptr,
    record process {
      allocations = set process.allocations index (record { ptr = ptr; size = size });
    },
    m2,
  )
  let join : Option (ℕ × Process × Machine) = elim (find_free_allocation_index process) [
    | negsuc n ↦ failed m1
    | pos index ↦ if is_failure res then failed m2 else keep index
  ]
  if ptr == 0 then some (0, process, m1) else join

unfoldable pub process_free : ℕ → Process → Machine → Option (Process × Machine)
process_free ptr process m = elim (get_allocation_by_addr process.allocations ptr) [
  | none ↦ some (process, m)
  | some a ↦
      let (res, memory) =
        map_to process.directory a.ptr a.ptr (align_address ((a.ptr + a.size) % 2 ^ 32)) 0x00
          m.memory in
      let m' : Machine = record m { memory = memory } in
      let unjoined : Process = record process {
        allocations = allocation_unjoin process.allocations ptr;
      } in
      let release : Option (Process × Machine) = (do m'' ← kfree ptr m'; some (unjoined, m'')) in
      if is_failure res then some (process, m') else release
]

-- `n` entries are left, from the index `i` on.
unfoldable pub terminate_loop : ℕ → ℕ → Process → Machine → Option (Process × Machine)
terminate_loop zero i process m = some (process, m)
terminate_loop (suc n) i process m = elim (get_elem? process.allocations i) [
  | none ↦ none
  | some a ↦ do
    (process', m') ← (if a.ptr == 0 then some (process, m) else process_free a.ptr process m)
    terminate_loop n (i + 1) process' m'
]

unfoldable pub process_terminate_allocations : Process → Machine → Option (Process × Machine)
process_terminate_allocations process m = terminate_loop max_program_allocations 0 process m
