-- ===== src/Process/Null.antt =====
-- What a process that frees the null pointer does.
use vana.Prelude.{
  ℕ, ◌+◌, ◌^◌, ◌≤◌, ◌≡◌, refl, ap, Bool-cases, inl, inr, some, none, List, [], ◌∷◌, ◌==◌, ==_eq,
}
use vana.Memory.Heap.Null.{free_null}
use vana.Paging.{map_to, map_range, align_address, is_failure}
use vana.Kheap.{Machine, kfree}
use vana.Process.{
  ProcessAllocation, Process, free_allocation, index_of, get_allocation_by_addr, process_free,
}
use vana.Process.Table.{IsTidy, index_of-skip}
use vana.Process.Memory.{OnPages, IsTable, IsTable-IsTidy}

-- A free entry is found at the address 0.
free_entry :
    (others : List ProcessAllocation) (i j : ℕ)
    → IsTidy others
    → index_of 0 others j ≡ some i
    → get_allocation_by_addr others 0 ≡ some free_allocation
unfolding get_allocation_by_addr index_of
free_entry [] i j t f = absurd cc
free_entry (a ∷ others) i j t f = elim (Bool-cases (a.ptr == 0)) [
  | inl e ↦ rw e (ap some (t.0 (==_eq a.ptr 0 e)))
  | inr e ↦ rw e (free_entry others i (j + 1) t.1 (index_of-skip a others i j e f))
]

-- A process whose table has a free entry can free the null pointer: the entry is taken for an
-- allocation at the address 0, and the heap writes before its table.
pub process_free_null :
    (process : Process) (m : Machine) (i : ℕ)
    → OnPages m.kernel_heap
    → m.kernel_heap.saddr ≤ 2 ^ 31
    → IsTable m.kernel_heap process.allocations
    → index_of 0 process.allocations 0 ≡ some i
    → process_free 0 process m ≡ none
unfolding process_free kfree map_to map_range align_address is_failure
process_free_null process m i v h table f =
    let tidy = IsTable-IsTidy m.kernel_heap process.allocations v.behind table in
    rw
      (
        process_free,
        free_entry process.allocations i 0 tidy f,
        kfree,
        free_null m.kernel_heap v.aligned v.behind h,
      )
      refl
