-- ===== src/Paging/Identity/Translation.antt =====
-- What the addresses of a new directory are translated to.
use vana.Prelude.{ℕ, ◌+◌, ◌*◌, ◌/◌, ◌%◌, ◌^◌, ◌≤◌, ◌<◌, ◌≡◌, sym, ◌∙◌, arith, some}
use vana.Memory.Heap.OneBlock.{count_free, IsTaken}
use vana.Memory.Heap.Alloc.{IsValid}
use vana.Kheap.{Machine}
use vana.Paging.{page_size, total_entries, get_physical_address}
use vana.Paging.Mapping.{IsDirectory, get_physical_address-entry}
use vana.Paging.Chunk.{paging_new_4gb}
use vana.Paging.Identity.Tables.{Chunk, paging_new_4gb-Chunk}

page-inj : (p q : ℕ) → p * page_size ≡ q * page_size → p ≡ q
page-inj p q e = omega arith

on_page : (d : ℕ) → d * page_size % page_size ≡ 0
on_page d = omega arith

whole_page :
    (page : ℕ)
    → (page / total_entries * total_entries + page % total_entries) * page_size ≡ page * page_size
whole_page page = omega arith

module _ (flags : ℕ) (m : Machine) (k : Chunk flags m) where
  Chunk-IsDirectory : IsDirectory (k.d * page_size) k.machine.memory
  Chunk-IsDirectory = record {
    on_page = on_page k.d;
    apart = λ i l e. k.apart i l (page-inj (k.tables i) k.d (sym (k.entry i l) ∙ e));
    distinct = λ i j l h ne e.
        k.distinct i j l h ne
          (page-inj (k.tables i) (k.tables j) (sym (k.entry i l) ∙ e ∙ k.entry j h));
  }

  Chunk-translation :
      (page offset : ℕ)
      → page < 2 ^ 20
      → offset < page_size
      → get_physical_address (k.d * page_size) (page * page_size + offset) k.machine.memory
        ≡ page * page_size + offset
  Chunk-translation page offset h l =
      let content =
        k.content (page / total_entries) (page % total_entries) (omega arith) (omega arith) in
      get_physical_address-entry (k.d * page_size) k.machine.memory Chunk-IsDirectory
        k.machine.memory page offset l
      ∙ rw (k.entry (page / total_entries) (omega arith), content, whole_page page) (omega arith)

-- On a valid heap whose first address is a page's and not 0, with at least 1026 free blocks and flags
-- below 256, `paging_new_4gb` returns a chunk. The word in it is a directory whose tables are
-- different pages, and which translates every address of the 4 GiB to itself. The heap stays
-- valid with 1026 free blocks less, and what lies in the blocks taken before stays as it is.
pub paging_new_4gb-identity :
    (s flags : ℕ) (m : Machine)
    → IsValid m.kernel_heap
    → m.kernel_heap.saddr ≡ s * page_size
    → 0 < s
    → flags < 256
    → 1026 ≤ count_free m.kernel_heap.table.entries
    → (chunk : ℕ) × (m' : Machine) × (paging_new_4gb flags m ≡ some (chunk, m'))
      × IsDirectory (m'.memory chunk) m'.memory
      × ((page offset : ℕ)
          → page < 2 ^ 20
          → offset < page_size
          → get_physical_address (m'.memory chunk) (page * page_size + offset) m'.memory
            ≡ page * page_size + offset)
      × IsValid m'.kernel_heap
      × (count_free m'.kernel_heap.table.entries + 1026 ≡ count_free m.kernel_heap.table.entries)
      × ((b x : ℕ) → IsTaken m.kernel_heap b → x / page_size ≡ s + b → m'.memory x ≡ m.memory x)
paging_new_4gb-identity s flags m v a p f l =
    let k = paging_new_4gb-Chunk s flags m v a p (omega arith) l in
    (
      k.c * page_size,
      k.machine,
      k.returns,
      rw k.directory (Chunk-IsDirectory flags m k),
      λ page offset h o. rw k.directory (Chunk-translation flags m k page offset h o),
      k.valid,
      k.count,
      λ b x t e. k.same (s + b) x (b, omega arith, t) e,
    )
