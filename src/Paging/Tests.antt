-- ===== src/Paging/Tests.antt =====
-- A directory with tables behind it, and the theorems at it.
use vana.Prelude.{
  ℕ, zero, suc, ◌+◌, ◌-◌, ◌*◌, ◌/◌, ◌^◌, ◌<◌, ◌≡◌, refl, sym, arith, some, replicate,
  length-replicate,
}
use vana.Memory.Heap.{entry_type}
use vana.Memory.Heap.Alloc.{IsValid}
use vana.Memory.Heap.OneBlock.{count_free, IsTaken}
use vana.Kheap.{Machine}
use vana.Paging.Chunk.{paging_new_4gb}
use vana.Paging.Identity.Translation.{paging_new_4gb-identity}
use vana.Paging.{
  Memory, page_size, align_address, get_physical_address, map_page, entry_at, table_of,
}
use vana.Paging.Mapping.{IsDirectory, map_page-translation}

-- The entry of the index i stands at 0x400000 + 4 * i and points to the table at
-- 0x800000 + 4096 * i.
abbrev tables : Memory
tables a = (a - 0x400000) / 4 * page_size + 0x800007

tables-IsDirectory : IsDirectory 0x400000 tables
unfolding entry_at table_of
tables-IsDirectory = record {
  on_page = refl;
  apart = λ i h e. omega arith;
  distinct = λ i j h l ne e. ne (omega arith);
}

aligned_up : align_address 0x1001 ≡ 0x2000
unfolding align_address
aligned_up = refl

map_page-translation_example :
    get_physical_address 0x400000
      (3 * page_size + 5)
      (map_page 0x400000 (3 * page_size) (9 * page_size) 7 tables).1
    ≡ 9 * page_size + 5
map_page-translation_example =
    (map_page-translation 0x400000 tables tables-IsDirectory 3 9 7 (omega arith) (omega arith)
        (omega arith)).1
      5 (omega arith)

-- A heap of 1,100 free blocks at the page 16.
abbrev kernel : Machine
kernel = record {
  kernel_heap = record {
    table = record { entries = replicate 1100 0; total = 1100 };
    saddr = 65536;
  };
  memory = λ a. a;
}

count_free-zeros : (n : ℕ) → count_free (replicate n 0) ≡ n
unfolding entry_type
count_free-zeros zero = refl
count_free-zeros (suc n) = rw (count_free-zeros n) (omega arith)

kernel-IsValid : IsValid kernel.kernel_heap
kernel-IsValid = record {
  size = sym (length-replicate {A = ℕ} 1100 0);
  in_memory = omega arith;
  in_int = omega arith;
}

paging_new_4gb-identity_example :
    (chunk : ℕ) × (m' : Machine) × (paging_new_4gb 7 kernel ≡ some (chunk, m'))
    × IsDirectory (m'.memory chunk) m'.memory
    × ((page offset : ℕ)
        → page < 2 ^ 20
        → offset < page_size
        → get_physical_address (m'.memory chunk) (page * page_size + offset) m'.memory
          ≡ page * page_size + offset)
    × IsValid m'.kernel_heap
    × (count_free m'.kernel_heap.table.entries + 1026 ≡ count_free kernel.kernel_heap.table.entries)
    × ((b x : ℕ)
        → IsTaken kernel.kernel_heap b
        → x / page_size ≡ 16 + b
        → m'.memory x ≡ kernel.memory x)
paging_new_4gb-identity_example =
    paging_new_4gb-identity 16 7 kernel kernel-IsValid refl (omega arith) (omega arith)
      (rw (count_free-zeros 1100) (omega arith))
