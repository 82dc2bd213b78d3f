-- ===== src/Process/Tests.antt =====
-- The memory of a process at a small heap.
use vana.Prelude.{
  ℕ, zero, suc, ◌<◌, ◌≡◌, ◌≢◌, ◌⊎◌, refl, inl, inr, some, none, [], ◌∷◌, arith, pos, get_or,
  replicate,
}
use vana.Process.Slots.{ProcessTable, max_processes, process_get, process_unlink}
use vana.Process.Slots.Running.{IsRunning, process_unlink-IsRunning}
use vana.Memory.Heap.{entry_type}
use vana.Memory.Heap.Runs.{has_run}
use vana.Kheap.{Machine}
use vana.Process.{Process, free_allocation, index_of, process_malloc, process_free}
use vana.Process.Memory.{OnPages, IsTable, process_free-process_malloc}
use vana.Process.Null.{process_free_null}

-- Block 0 belongs to the process, block 1 to another one, blocks 2 and 3 are free.
abbrev machine : Machine
machine = record {
  kernel_heap = record {
    table = record { entries = 0x41 ∷ 0x41 ∷ 0 ∷ 0 ∷ []; total = 4 };
    saddr = 0x0100_0000;
  };
  memory = λ a. 0;
}

abbrev process : Process
process = record {
  allocations = record { ptr = 0x0100_0000; size = 10 } ∷ free_allocation ∷ free_allocation ∷ [];
  directory = 0x0200_0000;
}

machine-OnPages : OnPages machine.kernel_heap
unfolding entry_type
machine-OnPages = record {
  valid = omega arith;
  clean = (λ h. absurd cc, (λ h. absurd cc, (λ h. refl, (λ h. refl, tt))));
  aligned = refl;
  behind = omega arith;
}

process-IsTable : IsTable machine.kernel_heap process.allocations
unfolding entry_type
process-IsTable = (inr (0, 0x41, refl, refl, refl), (inl refl, (inl refl, tt)))

process_free-process_malloc_example :
    (x : ℕ) × (process' : Process) × (m' m'' : Machine) × (x ≢ 0)
    × (process_malloc 5000 process machine ≡ some (x, process', m'))
    × (process_free x process' m' ≡ some (process, m''))
    × (m''.kernel_heap ≡ machine.kernel_heap)
unfolding index_of has_run entry_type
process_free-process_malloc_example =
    process_free-process_malloc process machine 5000 1 machine-OnPages process-IsTable refl
      (omega arith) (omega arith) refl

process_free_null_example : process_free 0 process machine ≡ none
unfolding index_of
process_free_null_example =
    process_free_null process machine 1 machine-OnPages (omega arith) process-IsTable refl

-- A table with two processes in its slots 0 and 2.
abbrev two_processes : ProcessTable
two_processes = record { processes = 500 ∷ 0 ∷ 600 ∷ replicate 9 0; current_process = 600 }

zeros : (n k : ℕ) → ◌≡◌ {A = ℕ} (get_or (replicate n 0) k 0) 0
zeros zero k = refl
zeros (suc n) zero = refl
zeros (suc n) (suc k) = zeros n k

behind : (k : ℕ) → ◌≡◌ {A = ℕ} (get_or (replicate 9 0) k 0) 0
behind k = zeros 9 k

two_processes-once :
    (i j : ℕ)
    → i ≢ j
    → get_or two_processes.processes i 0 ≢ 0
    → get_or two_processes.processes i 0 ≢ get_or two_processes.processes j 0
two_processes-once zero zero n h e = absurd (n refl)
two_processes-once zero (suc zero) n h e = omega arith
two_processes-once zero (suc (suc zero)) n h e = omega arith
two_processes-once zero (suc (suc (suc j))) n h e = omega (arith, behind j)
two_processes-once (suc zero) j n h e = absurd (h refl)
two_processes-once (suc (suc zero)) zero n h e = omega arith
two_processes-once (suc (suc zero)) (suc zero) n h e = omega arith
two_processes-once (suc (suc zero)) (suc (suc zero)) n h e = absurd (n refl)
two_processes-once (suc (suc zero)) (suc (suc (suc j))) n h e = omega (arith, behind j)
two_processes-once (suc (suc (suc i))) j n h e = absurd (h (behind i))

two_processes-IsRunning : IsRunning two_processes
two_processes-IsRunning = record {
  size = refl;
  is_process = omega arith;
  slot = 2;
  in_table = omega arith;
  current = refl;
  once = two_processes-once;
}

process_unlink-IsRunning_example :
    ((t' : ProcessTable) × (process_unlink 600 2 two_processes ≡ some t')
      × IsRunning t'
      × (process_get (pos 2) t' ≡ 0)
      × ((k : ℕ) → k ≢ 2 → process_get (pos k) t' ≡ process_get (pos k) two_processes)
      × (two_processes.current_process ≢ 600 → t'.current_process ≡ two_processes.current_process))
    ⊎ ((process_unlink 600 2 two_processes ≡ none)
        × (two_processes.current_process ≡ 600)
        × ((k : ℕ) → k < max_processes → k ≢ 2 → process_get (pos k) two_processes ≡ 0))
unfolding process_get
process_unlink-IsRunning_example =
    process_unlink-IsRunning 600 2 two_processes two_processes-IsRunning refl (omega arith)
      (omega arith)
