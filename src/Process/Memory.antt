-- ===== src/Process/Memory.antt =====
-- Allocations of a process, on the kernel's heap and in its page directory.
use vana.Prelude.{
  ℕ, ◌+◌, ◌-◌, ◌*◌, ◌%◌, ◌^◌, ◌≤◌, ◌<◌, ◌≡◌, ◌≢◌, ◌⊎◌, inl, inr, refl, sym, ap, ◌∙◌, true, false,
  some, List, [], ◌∷◌, arith, ==_ne, length, get_elem?, set, some-eq,
}
use vana.Memory.Heap.{Heap, block_size, malloc, free}
use vana.Memory.Heap.Scan.{is_free}
use vana.Memory.Heap.Runs.{has_run}
use vana.Memory.Heap.Alloc.{IsValid, blocks}
use vana.Memory.Heap.Place.{malloc-Placed}
use vana.Memory.Heap.Laws.{IsClean, free-malloc}
use vana.Paging.{Memory, page_size, align_address, map_to, is_failure}
use vana.Kheap.{Machine, kmalloc, kzalloc, kfree, clear}
use vana.Process.{
  ProcessAllocation, Process, free_allocation, user_flags, index_of, find_free_allocation_index,
  get_allocation_by_addr, allocation_unjoin, process_malloc, process_free,
}
use vana.Process.Mappings.{map_to-ok}
use vana.Process.Table.{IsAbsent, IsTidy, join-undone}

-- An entry is empty, or its address is that of a taken block of the heap.
abbrev pub IsEntry : Heap → ProcessAllocation → Type 0
IsEntry heap a =
    (a ≡ free_allocation)
    ⊎ ((b e : ℕ) × (a.ptr ≡ heap.saddr + b * block_size)
        × (get_elem? heap.table.entries b ≡ some e)
        × (is_free e ≡ false))

abbrev pub IsTable : Heap → List ProcessAllocation → Type 0
IsTable heap [] = Unit
IsTable heap (a ∷ others) = IsEntry heap a × IsTable heap others

-- The heap lies on whole pages, behind the first one.
pub record OnPages (heap : Heap) : Type 0 where
  pub valid : IsValid heap
  pub clean : IsClean heap.table.entries
  pub aligned : heap.saddr % page_size ≡ 0
  pub behind : 0 < heap.saddr

same_block : (s a b : ℕ) → s + a * block_size ≡ s + b * block_size → a ≡ b
same_block s a b h = omega arith

entry-tidy :
    (heap : Heap) (a : ProcessAllocation)
    → 0 < heap.saddr
    → IsEntry heap a
    → a.ptr ≡ 0
    → a ≡ free_allocation
entry-tidy heap a p (inl e) z = e
entry-tidy heap a p (inr (b, e, h, g, f)) z = absurd (omega (arith, h, z, p))

pub IsTable-IsTidy :
    (heap : Heap) (others : List ProcessAllocation)
    → 0 < heap.saddr
    → IsTable heap others
    → IsTidy others
IsTable-IsTidy heap [] p h = tt
IsTable-IsTidy heap (a ∷ others) p h = (entry-tidy heap a p h.0, IsTable-IsTidy heap others p h.1)

-- The address of a free block is in no entry.
entry-absent :
    (heap : Heap) (a : ProcessAllocation) (b e : ℕ)
    → 0 < heap.saddr
    → get_elem? heap.table.entries b ≡ some e
    → is_free e ≡ true
    → IsEntry heap a
    → a.ptr ≢ heap.saddr + b * block_size
entry-absent heap a b e p g f (inl q) h = absurd (omega (arith, ap (λ x. x.ptr) q, h, p))
entry-absent heap a b e p g f (inr (b', e', q, g', f')) h =
    let same = same_block heap.saddr b' b (sym q ∙ h) in
    let entry : e' ≡ e = some-eq (sym g' ∙ ap (get_elem? heap.table.entries) same ∙ g) in
    let clash : true ≡ false = sym f ∙ ap is_free (sym entry) ∙ f' in cc

IsTable-IsAbsent :
    (heap : Heap) (others : List ProcessAllocation) (b e : ℕ)
    → 0 < heap.saddr
    → get_elem? heap.table.entries b ≡ some e
    → is_free e ≡ true
    → IsTable heap others
    → IsAbsent (heap.saddr + b * block_size) others
IsTable-IsAbsent heap [] b e p g f h = tt
IsTable-IsAbsent heap (a ∷ others) b e p g f h =
    (entry-absent heap a b e p g f h.0, IsTable-IsAbsent heap others b e p g f h.1)

block_aligned : (s b : ℕ) → s % page_size ≡ 0 → (s + b * block_size) % page_size ≡ 0
block_aligned s b h = grind arith

-- Rounding up below the last page.
align_address-up :
    (x : ℕ)
    → x ≤ 2 ^ 32 - 4096
    → (align_address (x % 2 ^ 32) % page_size ≡ 0) × (x ≤ align_address (x % 2 ^ 32))
unfolding align_address
align_address-up x h = ground arith

page_end :
    (s b n total size : ℕ)
    → s % page_size ≡ 0
    → s + total * block_size < 2 ^ 32
    → b + n ≤ total
    → size ≤ n * block_size
    → s + b * block_size + size ≤ 2 ^ 32 - 4096
page_end s b n total size a h r z = omega arith

-- A block lies below the last page.
block_fits :
    (heap : Heap) (b size : ℕ)
    → OnPages heap
    → b + blocks size ≤ length heap.table.entries
    → heap.saddr + b * block_size + size ≤ 2 ^ 32 - 4096
block_fits heap b size v room =
    page_end heap.saddr b (blocks size) heap.table.total size v.aligned v.valid.in_memory
      (omega (arith, room, v.valid.size)) (omega arith)

module _ (process : Process) (m : Machine) (size : ℕ) where
  -- The process with the new allocation at an index, and the mappings of its pages.
  abbrev joined : ℕ → ℕ → Process
  joined x at = record process {
    allocations = set process.allocations at (record { ptr = x; size = size });
  }

  abbrev mapped_to : ℕ → ℕ → Memory → Memory
  mapped_to x flags mem =
      (map_to process.directory x x (align_address ((x + size) % 2 ^ 32)) flags mem).1

  kzalloc-cleared :
      (x : ℕ) (heap' : Heap)
      → malloc m.kernel_heap size ≡ some (x, heap')
      → x ≢ 0
      → kzalloc size m ≡ some (x, record { kernel_heap = heap'; memory = clear x size m.memory })
  unfolding kzalloc kmalloc
  kzalloc-cleared x heap' e x0 = rw (e, ==_ne x 0 x0) refl

  process_malloc-joined :
      (x i : ℕ) (heap' : Heap)
      → malloc m.kernel_heap size ≡ some (x, heap')
      → x ≢ 0
      → x % page_size ≡ 0
      → x + size ≤ 2 ^ 32 - 4096
      → index_of 0 process.allocations 0 ≡ some i
      → process_malloc size process m
        ≡ some (
          x,
          joined x i,
          record { kernel_heap = heap'; memory = mapped_to x user_flags (clear x size m.memory) },
        )
  unfolding process_malloc find_free_allocation_index is_failure
  process_malloc-joined x i heap' e x0 a l f =
      let (whole, up) = align_address-up (x + size) l in
      rw
        (
          process_malloc,
          kzalloc-cleared x heap' e x0,
          ==_ne x 0 x0,
          f,
          map_to-ok process.directory x (align_address ((x + size) % 2 ^ 32)) user_flags
              (clear x size m.memory) a whole (omega arith),
        )
        refl

  process_free-unjoined :
      (x : ℕ) (others : List ProcessAllocation) (heap' : Heap) (mem : Memory)
      → get_allocation_by_addr others x ≡ some (record { ptr = x; size = size })
      → allocation_unjoin others x ≡ process.allocations
      → x % page_size ≡ 0
      → x + size ≤ 2 ^ 32 - 4096
      → free heap' x ≡ some m.kernel_heap
      → process_free x
          (record process { allocations = others })
          (record { kernel_heap = heap'; memory = mem })
        ≡ some (process, record m { memory = mapped_to x 0x00 mem })
  unfolding process_free kfree is_failure
  process_free-unjoined x others heap' mem found undone a l e =
      let (whole, up) = align_address-up (x + size) l in
      rw
        (
          process_free,
          found,
          map_to-ok process.directory x (align_address ((x + size) % 2 ^ 32)) 0x00 mem a whole
              (omega arith),
          kfree,
          e,
          undone,
        )
        refl

  -- On a heap on whole pages with a run of free blocks that is long enough, a process whose table
  -- has a free entry, and holds only addresses of taken blocks, can allocate from 1 to 2 ^ 32 - 4096
  -- bytes. Freeing the address then gives back the heap and the table as they were before.
  pub process_free-process_malloc :
      (i : ℕ)
      → OnPages m.kernel_heap
      → IsTable m.kernel_heap process.allocations
      → index_of 0 process.allocations 0 ≡ some i
      → 0 < size
      → size ≤ 2 ^ 32 - 4096
      → has_run (blocks size) m.kernel_heap.table.entries ≡ true
      → (x : ℕ) × (process' : Process) × (m' m'' : Machine) × (x ≢ 0)
        × (process_malloc size process m ≡ some (x, process', m'))
        × (process_free x process' m' ≡ some (process, m''))
        × (m''.kernel_heap ≡ m.kernel_heap)
  process_free-process_malloc i v table f p q run =
      let heap = m.kernel_heap in
      let a = malloc-Placed heap size v.valid p q run in
      let x = heap.saddr + a.block * block_size in
      let absent =
        IsTable-IsAbsent heap process.allocations a.block a.entry v.behind a.entry_at a.free
          table in
      let j =
        join-undone x size process.allocations i 0
          (IsTable-IsTidy heap process.allocations v.behind table) absent f in
      let place : i ≡ j.at = j.index ∙ omega arith in
      let aligned = block_aligned heap.saddr a.block v.aligned in
      let fits : x + size ≤ 2 ^ 32 - 4096 = block_fits heap a.block size v a.room in
      let x0 : x ≢ 0 = λ e. omega (arith, e, v.behind) in
      let mem = mapped_to x user_flags (clear x size m.memory) in
      (
        x,
        joined x i,
        record { kernel_heap = a.heap'; memory = mem },
        record m { memory = mapped_to x 0x00 mem },
        x0,
        process_malloc-joined x i a.heap' a.returns x0 aligned fits f,
        process_free-unjoined x (joined x i).allocations a.heap' mem (rw place j.found)
            (rw place j.undone) aligned fits
            (free-malloc heap a.heap' size x v.valid v.clean p q run a.returns),
        refl,
      )
