-- ===== src/Task/Copy.antt =====
-- The memory of `copy_string_from_task`: what a task's addresses are translated to while one page,
-- that of the kernel's buffer, is written and mapped.
pub mod Loop
pub mod Text
use vana.Prelude.{
  ℕ, suc, ◌+◌, ◌*◌, ◌/◌, ◌%◌, ◌^◌, ◌≤◌, ◌<◌, ◌≡◌, ◌≢◌, refl, sym, ap, ◌∙◌, arith, List, length,
  get_or, subst,
}
use vana.Paging.{Memory, store, page_size, total_entries, table_of, entry_at, get_physical_address}
use vana.Paging.Mapping.{
  IsDirectory, table_at, entry_for, get_physical_address-entry, table_of-aligned, written,
  written-table_at, entry_for-written, entry_for-ne, store_ne, store_self,
}
use vana.Paging.Identity.{Keeps, entry_at-page}
use vana.Task.User.{byte_at, user_byte}
use vana.Task.Bytes.{byte_at-same, byte_at-other_page}

-- A directory on the page `d` that has no part on the page `p`.
pub record Setup (d p : ℕ) (mem : Memory) : Type 0 where
  pub is_directory : IsDirectory (d * page_size) mem
  pub apart : d ≢ p
  pub tables_apart : (i : ℕ) → i < total_entries → table_at (d * page_size) mem i / page_size ≢ p

-- A terminated text at an address of the task, with none of its bytes on the page `p` nor in the
-- tables.
pub record UserText (d p virt : ℕ) (text : List ℕ) (mem : Memory) : Type 0 where
  pub below : virt + length text < 2 ^ 32
  pub virt_apart : (i : ℕ) → i ≤ length text → (virt + i) / page_size ≢ p
  pub phys_apart :
      (i : ℕ)
      → i ≤ length text
      → get_physical_address (d * page_size) (virt + i) mem / page_size ≢ p
  pub tables_apart :
      (i k : ℕ)
      → i ≤ length text
      → k < total_entries
      → get_physical_address (d * page_size) (virt + i) mem / page_size
        ≢ table_at (d * page_size) mem k / page_size
  pub bytes : (i : ℕ) → i ≤ length text → user_byte (d * page_size) (virt + i) mem ≡ get_or text i 0

split_address : (v : ℕ) → v / page_size * page_size + v % page_size ≡ v
split_address v = omega arith

page_bound : (v : ℕ) → v < 2 ^ 32 → v / page_size < 2 ^ 20
page_bound v h = omega arith

table_page :
    (t j : ℕ) → t % page_size ≡ 0 → j < total_entries → entry_at t j / page_size ≡ t / page_size
unfolding entry_at
table_page t j a l = omega arith

module _ (d p : ℕ) (mem : Memory) (s : Setup d p mem) where
  get_physical_address-word :
      (m : Memory) (v : ℕ)
      → get_physical_address (d * page_size) v m
        ≡ (table_of (m (entry_for (d * page_size) m (v / page_size))) + v % page_size) % 2 ^ 32
  get_physical_address-word m v =
      ap (λ x. get_physical_address (d * page_size) x m) (sym (split_address v))
      ∙ get_physical_address-entry (d * page_size) mem s.is_directory m (v / page_size)
          (v % page_size) (omega arith)

  pub entry_for-page :
      (q : ℕ)
      → q < 2 ^ 20
      → entry_for (d * page_size) mem q / page_size
        ≡ table_at (d * page_size) mem (q / total_entries) / page_size
  entry_for-page q h =
      table_page (table_at (d * page_size) mem (q / total_entries)) (q % total_entries)
        (table_of-aligned (mem (entry_at (d * page_size) (q / total_entries)))) (omega arith)

  module _ (mem' : Memory) (k : Keeps p mem mem') where
    table_at-Keeps :
        (i : ℕ)
        → i < total_entries
        → table_at (d * page_size) mem' i ≡ table_at (d * page_size) mem i
    table_at-Keeps i l =
        ap table_of (k (entry_at (d * page_size) i) (λ e. s.apart (sym (entry_at-page d i l) ∙ e)))

    pub entry_for-Keeps :
        (q : ℕ) → q < 2 ^ 20 → entry_for (d * page_size) mem' q ≡ entry_for (d * page_size) mem q
    entry_for-Keeps q h =
        ap (λ t. entry_at t (q % total_entries)) (table_at-Keeps (q / total_entries) (omega arith))

    -- Writes on the page change no translation.
    pub get_physical_address-Keeps :
        (v : ℕ)
        → v < 2 ^ 32
        → get_physical_address (d * page_size) v mem' ≡ get_physical_address (d * page_size) v mem
    get_physical_address-Keeps v h =
        let q = v / page_size in
        let in_table = k (entry_for (d * page_size) mem q) (λ e.
          s.tables_apart (q / total_entries) (omega arith)
            (sym (entry_for-page q (page_bound v h)) ∙ e)) in
        get_physical_address-word mem' v
        ∙ ap (λ a. (table_of (mem' a) + v % page_size) % 2 ^ 32)
            (entry_for-Keeps q (page_bound v h))
        ∙ ap (λ w. (table_of w + v % page_size) % 2 ^ 32) in_table
        ∙ sym (get_physical_address-word mem v)

    pub Setup-Keeps : Setup d p mem'
    Setup-Keeps = record {
      is_directory = record {
        on_page = s.is_directory.on_page;
        apart = λ i l. rw (table_at-Keeps i l) (s.is_directory.apart i l);
        distinct = λ i j l h.
            rw (table_at-Keeps i l, table_at-Keeps j h) (s.is_directory.distinct i j l h);
      };
      apart = s.apart;
      tables_apart = λ i l. rw (table_at-Keeps i l) (s.tables_apart i l);
    }

    pub UserText-Keeps :
        (virt : ℕ) (text : List ℕ) → UserText d p virt text mem → UserText d p virt text mem'
    unfolding user_byte
    UserText-Keeps virt text u =
        let same = λ (i : ℕ) (l : i ≤ length text).
          get_physical_address-Keeps (virt + i) (omega (arith, u.below)) in
        record {
          below = u.below;
          virt_apart = u.virt_apart;
          phys_apart = λ i l. rw (same i l) (u.phys_apart i l);
          tables_apart = λ i j l h. rw (same i l, table_at-Keeps j h) (u.tables_apart i j l h);
          bytes = λ i l.
              ap (λ a. byte_at a mem') (same i l)
              ∙ byte_at-same p (get_physical_address (d * page_size) (virt + i) mem) mem mem' k
                  (u.phys_apart i l)
              ∙ u.bytes i l;
        }

  -- The page is mapped.
  module _ (val : ℕ) (h : p < 2 ^ 20) where
    written-address :
        (v : ℕ)
        → v < 2 ^ 32
        → v / page_size ≢ p
        → get_physical_address (d * page_size) v (written (d * page_size) mem p val)
          ≡ get_physical_address (d * page_size) v mem
    written-address v l n =
        let q = v / page_size in
        let dir = d * page_size in
        get_physical_address-word (written dir mem p val) v
        ∙ ap (λ a. (table_of (written dir mem p val a) + v % page_size) % 2 ^ 32)
            (entry_for-written dir mem s.is_directory p val q h (page_bound v l))
        ∙ ap (λ w. (table_of w + v % page_size) % 2 ^ 32)
            (store_ne mem (entry_for dir mem p) (entry_for dir mem q) val
              (entry_for-ne dir mem s.is_directory q p (page_bound v l) h n))
        ∙ sym (get_physical_address-word mem v)

    pub Setup-written : Setup d p (written (d * page_size) mem p val)
    Setup-written =
        let same = written-table_at (d * page_size) mem s.is_directory p val in
        record {
          is_directory = record {
            on_page = s.is_directory.on_page;
            apart = λ i l. rw (same i h l) (s.is_directory.apart i l);
            distinct = λ i j l g. rw (same i h l, same j h g) (s.is_directory.distinct i j l g);
          };
          apart = s.apart;
          tables_apart = λ i l. rw (same i h l) (s.tables_apart i l);
        }

    pub UserText-written :
        (virt : ℕ) (text : List ℕ)
        → UserText d p virt text mem
        → UserText d p virt text (written (d * page_size) mem p val)
    unfolding user_byte
    UserText-written virt text u =
        let dir = d * page_size in
        let same = λ (i : ℕ) (l : i ≤ length text).
          written-address (virt + i) (omega (arith, u.below)) (u.virt_apart i l) in
        record {
          below = u.below;
          virt_apart = u.virt_apart;
          phys_apart = λ i l. rw (same i l) (u.phys_apart i l);
          tables_apart = λ i j l g.
              rw (same i l, written-table_at dir mem s.is_directory p val j h g)
                (u.tables_apart i j l g);
          bytes = λ i l.
              ap (λ a. byte_at a (written dir mem p val)) (same i l)
              ∙ byte_at-other_page (get_physical_address dir (virt + i) mem) (entry_for dir mem p)
                  val mem
                  (λ e.
                    u.tables_apart i (p / total_entries) l (omega arith) (e ∙ entry_for-page p h))
              ∙ u.bytes i l;
        }

    pub written-buffer :
        (i : ℕ)
        → i < page_size
        → val ≡ p * page_size + 7
        → get_physical_address
            (d * page_size)
            (p * page_size + i)
            (written (d * page_size) mem p val)
          ≡ p * page_size + i
    written-buffer i l e =
        let dir = d * page_size in
        get_physical_address-entry dir mem s.is_directory (written dir mem p val) p i l
        ∙ rw
            (
              entry_for-written dir mem s.is_directory p val p h h,
              store_self mem (entry_for dir mem p) val,
              e,
            )
            (frame p i h l)
      where
        frame :
            (p i : ℕ)
            → p < 2 ^ 20
            → i < page_size
            → (table_of (p * page_size + 7) + i) % 2 ^ 32 ≡ p * page_size + i
        frame p i h l = unfold table_of in omega arith
