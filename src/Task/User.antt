-- ===== src/Task/User.antt =====
-- The kernel's reads of a task's memory, src/task/task.c. The memory gives the word at an address; the
-- processor reads its bytes through the page directory it is given, and a page that is not there, on
-- which it would fault, is read like the others.
use vana.Prelude.{
  ℕ, zero, suc, ◌+◌, ◌-◌, ◌*◌, ◌/◌, ◌%◌, ◌^◌, Option, some, List, [], ◌∷◌, Result, ok, err, Status,
  leb, ◌==◌, if◌then◌else◌, ◌>>=◌,
}
use vana.Strings.{strncpy}
use vana.Paging.{
  Memory, store, page_size, get_page, set_page, map_page, get_physical_address, is_failure,
}
use vana.Kheap.{Machine, kzalloc, kfree}

unfoldable pub byte_at : ℕ → Memory → ℕ
byte_at a mem = mem (a - a % 4) / 2 ^ (8 * (a % 4)) % 256

unfoldable pub put_byte : ℕ → ℕ → Memory → Memory
put_byte a c mem =
    let part = 2 ^ (8 * (a % 4)) in
    let word = mem (a - a % 4) in
    store mem (a - a % 4) (word / (part * 256) * (part * 256) + c * part + word % part)

-- The byte at a virtual address.
unfoldable pub user_byte : ℕ → ℕ → Memory → ℕ
user_byte directory virt mem = byte_at (get_physical_address directory virt mem) mem

-- `sp_ptr[index]`, four bytes, the lowest first.
unfoldable pub task_get_stack_item : ℕ → ℕ → ℕ → Memory → ℕ
task_get_stack_item directory esp index mem =
    let at = λ (k : ℕ). user_byte directory ((esp + 4 * index + k) % 2 ^ 32) mem in
    at 0 + 256 * at 1 + 2 ^ 16 * at 2 + 2 ^ 24 * at 3

unfoldable pub task_virtual_address_to_physical : ℕ → ℕ → Memory → ℕ
task_virtual_address_to_physical directory virt mem = get_physical_address directory virt mem

-- `strncpy(dest, src, n + 1)` between virtual addresses, from the index `i` on.
unfoldable pub strncpy_user : ℕ → ℕ → ℕ → ℕ → ℕ → Memory → Memory
strncpy_user zero i directory dest src mem =
    put_byte (get_physical_address directory ((dest + i) % 2 ^ 32) mem) 0 mem
strncpy_user (suc n) i directory dest src mem =
    let c = user_byte directory ((src + i) % 2 ^ 32) mem in
    let mem' = put_byte (get_physical_address directory ((dest + i) % 2 ^ 32) mem) c mem in
    let rest = strncpy_user n (i + 1) directory dest src mem' in if c == 0 then mem' else rest

-- The bytes at an address of the kernel, where each is at its own address.
unfoldable pub bytes_at : ℕ → ℕ → Memory → List ℕ
bytes_at zero a mem = []
bytes_at (suc n) a mem = byte_at a mem ∷ bytes_at n (a + 1) mem

-- `PAGING_IS_WRITEABLE | PAGING_IS_PRESENT | PAGING_ACCESS_FROM_ALL`
abbrev pub copy_flags : ℕ
copy_flags = 0b111

-- `phys` is the buffer to which the string is copied.
unfoldable pub copy_string_from_task :
    ℕ → ℕ → List ℕ → ℕ → Machine → Option (Result (List ℕ) × Machine)
copy_string_from_task directory virtual phys max m =
    let copied : Option (Result (List ℕ) × Machine) = (do
      (tmp, m1) ← kzalloc max m
      let old_entry = get_page directory tmp m1.memory
      let (r, mapped) = map_page directory tmp tmp copy_flags m1.memory
      let written = strncpy_user (max - 1) 0 directory tmp virtual mapped
      let (res, restored) = set_page directory tmp old_entry written
      let m2 : Machine = record m1 { memory = restored }
      let failed : Option (Result (List ℕ) × Machine) = (do
        m3 ← kfree tmp m2
        some (err Status.eio, m3))
      let done : Option (Result (List ℕ) × Machine) = (do
        phys' ← strncpy phys (bytes_at max tmp restored) max
        m3 ← kfree tmp m2
        some (ok phys', m3))
      if tmp == 0 then some (err Status.enomem, m1) else if is_failure res then failed else done) in
    if leb page_size max then some (err Status.einvarg, m) else copied
