-- ===== src/Task/Copy/Text.antt =====
-- What `copy_string_from_task` copies, and what it leaves as it was.
use vana.Prelude.{
  ℕ, zero, suc, ◌+◌, ◌-◌, ◌*◌, ◌/◌, ◌^◌, ◌≤◌, ◌<◌, ◌≡◌, ◌≢◌, refl, sym, ap, ◌∙◌, arith, List, [],
  ◌∷◌, ◌++◌, length, get_or, take, leb, ◌==◌, some, ok, subst, false,
}
use native.Mathlib.Decide.{ℕ_discrete}
use vana.Strings.Lengths.{IsText, strncpy-take}
use vana.Memory.Heap.{Heap}
use vana.Memory.Heap.Alloc.{IsValid}
use vana.Memory.Heap.Laws.{IsClean}
use vana.Memory.Heap.OneBlock.{count_free}
use vana.Kheap.{Machine, kfree}
use vana.Paging.{Memory, page_size, total_entries, get_page, is_failure, get_physical_address}
use vana.Paging.Mapping.{
  IsDirectory, table_at, entry_for, written, map_page-written, get_page-entry, set_page-entry,
  entry_for-written, store_ne, store_self,
}
use vana.Paging.Identity.{Keeps, NotFree, Page, kzalloc-Page}
use vana.Task.User.{byte_at, user_byte, strncpy_user, bytes_at, copy_string_from_task}
use vana.Task.Bytes.{byte_at-other_page}
use vana.Task.Copy.{
  Setup, UserText, Setup-Keeps, UserText-Keeps, Setup-written, UserText-written, written-buffer,
  entry_for-Keeps, entry_for-page,
}
use vana.Task.Copy.Loop.{Copied, strncpy_user-Copied}

bytes_at-text :
    (text : List ℕ) (n a : ℕ) (m : Memory)
    → ((j : ℕ) → j < suc (length text) → byte_at (a + j) m ≡ get_or text j 0)
    → length text < n
    → (junk : List ℕ) × (bytes_at n a m ≡ text ++ 0 ∷ junk)
unfolding bytes_at
bytes_at-text text zero a m h l = absurd (omega arith)
bytes_at-text [] (suc n) a m h l =
    let first : byte_at a m ≡ 0 = ap (λ x. byte_at x m) (plus_zero a) ∙ h 0 (omega arith) in
    (bytes_at n (a + 1) m, rw first refl)
  where
    plus_zero : (a : ℕ) → a ≡ a + 0
    plus_zero a = omega arith
bytes_at-text (c ∷ text) (suc n) a m h l =
    let first : byte_at a m ≡ c = ap (λ x. byte_at x m) (plus_zero a) ∙ h 0 (omega arith) in
    let (junk, e) =
      bytes_at-text text n (a + 1) m
        (λ j g. ap (λ x. byte_at x m) (shift a j) ∙ h (suc j) (omega arith)) (omega arith) in
    (junk, rw (first, e) refl)
  where
    plus_zero : (a : ℕ) → a ≡ a + 0
    plus_zero a = omega arith

    shift : (a j : ℕ) → a + 1 + j ≡ a + suc j
    shift a j = omega arith

take-all : (text : List ℕ) (n : ℕ) → length text ≤ n → take n text ≡ text
take-all [] zero l = refl
take-all [] (suc n) l = refl
take-all (c ∷ text) zero l = absurd (omega arith)
take-all (c ∷ text) (suc n) l = ap (λ t. c ∷ t) (take-all text n (omega arith))

-- What the kernel can rely on: the directory is on the page `d`, and neither it, nor its tables, nor
-- the pages of the text are free blocks of the heap.
pub record TaskText (d virt : ℕ) (text : List ℕ) (m : Machine) : Type 0 where
  pub is_directory : IsDirectory (d * page_size) m.memory
  pub not_free : NotFree m.kernel_heap d
  pub tables_not_free :
      (i : ℕ)
      → i < total_entries
      → NotFree m.kernel_heap (table_at (d * page_size) m.memory i / page_size)
  pub below : virt + length text < 2 ^ 32
  pub virt_not_free : (i : ℕ) → i ≤ length text → NotFree m.kernel_heap ((virt + i) / page_size)
  pub phys_not_free :
      (i : ℕ)
      → i ≤ length text
      → NotFree m.kernel_heap (get_physical_address (d * page_size) (virt + i) m.memory / page_size)
  pub outside_tables :
      (i k : ℕ)
      → i ≤ length text
      → k < total_entries
      → get_physical_address (d * page_size) (virt + i) m.memory / page_size
        ≢ table_at (d * page_size) m.memory k / page_size
  pub bytes :
      (i : ℕ) → i ≤ length text → user_byte (d * page_size) (virt + i) m.memory ≡ get_or text i 0

NotFree-ne : (heap : Heap) (p q : ℕ) → (NotFree heap p → ⊥) → NotFree heap q → q ≢ p
NotFree-ne heap p q f n e = f (subst (NotFree heap) e n)

page_in : (p i : ℕ) → i < page_size → (p * page_size + i) / page_size ≡ p
page_in p i l = omega arith

module _ (d virt max : ℕ) (text : List ℕ) (m : Machine) (u : TaskText d virt text m)
    (t : IsText text) (pg : Page max m) (fits : length text < max) (small : max < page_size) where
  setup : Setup d pg.page m.memory
  setup = record {
    is_directory = u.is_directory;
    apart = NotFree-ne m.kernel_heap pg.page d pg.was_free u.not_free;
    tables_apart = λ i l. NotFree-ne m.kernel_heap pg.page _ pg.was_free (u.tables_not_free i l);
  }

  user_text : UserText d pg.page virt text m.memory
  user_text = record {
    below = u.below;
    virt_apart = λ i l. NotFree-ne m.kernel_heap pg.page _ pg.was_free (u.virt_not_free i l);
    phys_apart = λ i l. NotFree-ne m.kernel_heap pg.page _ pg.was_free (u.phys_not_free i l);
    tables_apart = u.outside_tables;
    bytes = u.bytes;
  }

  cleared : Setup d pg.page pg.memory
  cleared = Setup-Keeps d pg.page m.memory setup pg.memory pg.keeps

  -- The memory with the buffer's page mapped, after the copy, and with the mapping undone.
  mapped : Memory
  mapped = written (d * page_size) pg.memory pg.page (pg.page * page_size + 7)

  filled : Memory
  filled = strncpy_user (max - 1) 0 (d * page_size) (pg.page * page_size) virt mapped

  restored : Memory
  restored =
      written (d * page_size) filled pg.page
        (get_page (d * page_size) (pg.page * page_size) pg.memory)

  mapped-Setup : Setup d pg.page mapped
  unfolding mapped
  mapped-Setup = Setup-written d pg.page pg.memory cleared (pg.page * page_size + 7) pg.in_memory

  filled-Copied : Copied pg.page text mapped (suc (length text)) filled
  unfolding filled mapped
  filled-Copied =
      strncpy_user-Copied d pg.page virt text mapped mapped-Setup
        (UserText-written d pg.page pg.memory cleared (pg.page * page_size + 7) pg.in_memory virt
          text (UserText-Keeps d pg.page m.memory setup pg.memory pg.keeps virt text user_text))
        t pg.in_memory
        (λ i l.
          written-buffer d pg.page pg.memory cleared (pg.page * page_size + 7) pg.in_memory i l
            refl)
        (max - 1) 0 mapped (record { keeps = λ x n. refl; bytes = λ j l. absurd (omega arith) })
        (omega arith) (omega arith) (omega arith)

  -- The entry of the buffer's page stays at its address.
  same_entry :
      entry_for (d * page_size) filled pg.page ≡ entry_for (d * page_size) pg.memory pg.page
  unfolding mapped
  same_entry =
      entry_for-Keeps d pg.page mapped mapped-Setup filled filled-Copied.keeps pg.page pg.in_memory
      ∙ entry_for-written (d * page_size) pg.memory cleared.is_directory pg.page
          (pg.page * page_size + 7) pg.page pg.in_memory pg.in_memory

  entry_page-ne : pg.page ≢ entry_for (d * page_size) filled pg.page / page_size
  entry_page-ne e = cleared.tables_apart (pg.page / total_entries) (omega (arith, pg.in_memory)) (
      sym (entry_for-page d pg.page pg.memory cleared pg.page pg.in_memory)
      ∙ ap (λ x. x / page_size) (sym same_entry)
      ∙ sym e)

  restored_bytes :
      (j : ℕ) → j < suc (length text) → byte_at (pg.page * page_size + j) restored ≡ get_or text j 0
  unfolding restored
  restored_bytes j l =
      byte_at-other_page (pg.page * page_size + j) (entry_for (d * page_size) filled pg.page)
        (get_page (d * page_size) (pg.page * page_size) pg.memory) filled
        (λ e. entry_page-ne (sym (page_in pg.page j (omega arith)) ∙ e))
      ∙ filled-Copied.bytes j l

  restored-Keeps : Keeps pg.page m.memory restored
  unfolding restored mapped
  restored-Keeps x n =
      let dir = d * page_size in
      let at = entry_for dir filled pg.page in
      let old = get_page dir (pg.page * page_size) pg.memory in
      elim (ℕ_discrete x at) [
        | yes e ↦
            ap (written dir filled pg.page old) e
            ∙ store_self filled at old
            ∙ get_page-entry dir pg.page pg.memory
            ∙ ap pg.memory (sym same_entry ∙ sym e)
            ∙ pg.keeps x n
        | no ne ↦
            store_ne filled at x old ne
            ∙ filled-Copied.keeps x n
            ∙ store_ne pg.memory (entry_for dir pg.memory pg.page) x (pg.page * page_size + 7)
                (λ e. ne (e ∙ sym same_entry))
            ∙ pg.keeps x n
      ]

  copied :
      (phys : List ℕ)
      → IsClean m.kernel_heap.table.entries
      → max ≤ length phys
      → (junk : List ℕ) × (copy_string_from_task (d * page_size) virt phys max m
          ≡ some (ok (text ++ 0 ∷ junk), record m { memory = restored }))
  unfolding copy_string_from_task kfree restored filled mapped is_failure
  copied phys clean room =
      let dir = d * page_size in
      let (rest, e) = bytes_at-text text max (pg.page * page_size) restored restored_bytes fits in
      let (junk, c) = strncpy-take text rest phys max t (omega arith) (omega arith) in
      let large : leb page_size max ≡ false = ground arith in
      let not_null : (pg.page * page_size == 0) ≡ false = ground (arith, pg.not_null) in
      (
        junk,
        rw
            (
              large,
              pg.returns,
              map_page-written dir pg.memory cleared.is_directory pg.page pg.page 7 (omega arith),
              set_page-entry dir pg.page (get_page dir (pg.page * page_size) pg.memory) filled,
              not_null,
              e,
              c,
              take-all text (max - 1) (omega arith),
              pg.undo clean,
            )
            refl,
      )

-- The kernel copies a task's terminated text, shorter than `max`, where `max` is below 4096, the
-- buffer has `max` bytes, the heap is valid with a free block and its free entries are 0, and where
-- neither the task's directory, its tables, nor the pages of the text, virtual or physical, are free
-- blocks, and the text lies in none of the tables. The copy then is the text and its NUL, the heap is
-- as it was, and so is the memory but for the free blocks: the page that was mapped for the copy is
-- mapped as before.
pub copy_string_from_task-text :
    (s d virt max : ℕ) (text phys : List ℕ) (m : Machine)
    → IsValid m.kernel_heap
    → IsClean m.kernel_heap.table.entries
    → m.kernel_heap.saddr ≡ s * page_size
    → 0 < s
    → 0 < count_free m.kernel_heap.table.entries
    → IsText text
    → length text < max
    → max < page_size
    → max ≤ length phys
    → TaskText d virt text m
    → (junk : List ℕ) × (mem : Memory) × (copy_string_from_task (d * page_size) virt phys max m
        ≡ some (ok (text ++ 0 ∷ junk), record m { memory = mem }))
      × ((x : ℕ) → NotFree m.kernel_heap (x / page_size) → mem x ≡ m.memory x)
copy_string_from_task-text s d virt max text phys m v clean a p c t fits small room u =
    let pg = kzalloc-Page max s m v a p (omega arith) (omega arith) c in
    let (junk, e) = copied d virt max text m u t pg fits small phys clean room in
    (
      junk,
      restored d virt max text m u t pg fits small,
      e,
      λ x n.
          restored-Keeps d virt max text m u t pg fits small x
            (NotFree-ne m.kernel_heap pg.page (x / page_size) pg.was_free n),
    )
