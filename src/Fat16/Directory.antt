-- ===== src/Fat16/Directory.antt =====
-- Directories of fat16.c: counting and loading entries, the search by name, and the walk along a
-- path. The sectors of the disk are a parameter, and `fuel` is for loops without a bound of their own.
pub mod Count
pub mod Search
use vana.Prelude.{
  ℕ, zero, suc, ◌+◌, ◌*◌, ◌/◌, ◌%◌, Bool, not, ℤ, pos, negsuc, Option, none, some, List, [], ◌∷◌,
  ◌++◌, ltb, ◌==◌, if◌then◌else◌, get_or, get_elem?, replicate,
}
use Prim.Native.Nat.{bit_and}
use vana.Strings.{istrncmp}
use vana.PathParser.{max_path}
use vana.Disk.Streamer.{sector_size}
use vana.Fat16.{
  FatDirectoryItem, FatDirectory, Loaded, FatItem, Mount, Stream, M, ◌>>=◌, ◌>>◌, pure, fault,
  expect, get_header, item_size, read_items, kzalloc, kfree, seek_stream, read_stream, is_ok,
  minus_eio, minus_enomem,
}
use vana.Fat16.Names.{get_full_relative_filename}
use vana.Fat16.Clusters.{get_first_cluster, cluster_to_sector, sector_to_absolute, read_internal}

unfoldable pub is_subdirectory : FatDirectoryItem → Bool
is_subdirectory item = not (bit_and item.attribute 0x10 == 0)

-- A negative count stands for no entry: its loops do not run.
abbrev pub count_of : ℤ → ℕ
count_of (pos n) = n
count_of (negsuc n) = 0

unfoldable pub free_directory : Loaded → M (Unit {0})
free_directory Loaded.null = pure tt
free_directory Loaded.freed = fault
free_directory (Loaded.live d) = do kfree; kfree

-- A null pointer to a file's entry goes to the heap, which takes it for a block before the table.
unfoldable pub fat_item_free : FatItem → M (Unit {0})
fat_item_free (FatItem.directory d) = do free_directory d; kfree
fat_item_free (FatItem.file none) = fault
fat_item_free (FatItem.file (some item)) = do kfree; kfree

unfoldable pub clone_directory_item : FatDirectoryItem → ℕ → M (Option FatDirectoryItem)
clone_directory_item item size =
    if ltb size item_size
    then pure none
    else (kzalloc >>= λ done. pure (if done then some item else none))

module _ (sector : ℕ → List ℕ) (fuel : ℕ) where
  -- `i` entries are counted so far.
  unfoldable pub count_loop : ℕ → ℕ → M ℤ
  count_loop zero i = fault
  count_loop (suc rounds) i = do
    (res, bytes) ← read_stream sector fuel Stream.directory_read item_size
    let first = get_or bytes 0 0
    let rest = count_loop rounds (if first == 0xE5 then i else i + 1)
    let go_on = (if first == 0x00 then pure (pos i) else rest)
    if is_ok res then go_on else pure minus_eio

  unfoldable pub get_total_items_for_directory : ℕ → M ℤ
  get_total_items_for_directory directory_start_sector = do
    res ← seek_stream Stream.directory_read (directory_start_sector * sector_size)
    if is_ok res then count_loop fuel 0 else pure minus_eio

  -- A sector before the disk gives none.
  abbrev pub items_at : ℤ → M ℤ
  items_at (negsuc n) = fault
  items_at (pos sector) = get_total_items_for_directory sector

  unfoldable pub load_fat_directory : FatDirectoryItem → M Loaded
  load_fat_directory item m =
      let cluster = get_first_cluster item in
      let fill : ℤ → M Loaded = λ total. (do
        (res, bytes) ← read_internal sector fuel cluster 0x00 (count_of total * item_size)
        let good : M Loaded = pure (
            Loaded.live (record {
              item = read_items (count_of total) bytes;
              total = total;
              sector_pos = 0;
              ending_sector_pos = 0;
            }))
        let failed : M Loaded = (do kfree; kfree; pure Loaded.freed)
        if is_ok res then good else failed) in
      let load : M Loaded = (do
        total_items ← items_at (cluster_to_sector m cluster)
        done ← kzalloc
        let failed : M Loaded = (do kfree; pure Loaded.freed)
        if done then fill total_items else failed) in
      (if is_subdirectory item
          then (kzalloc >>= λ done. if done then load else pure Loaded.null)
          else pure Loaded.null)
        m

  unfoldable pub new_fat_item_for_directory_item : FatDirectoryItem → M (Option FatItem)
  new_fat_item_for_directory_item item =
      let as_directory : M (Option FatItem) = (do
        d ← load_fat_directory item
        pure (some (FatItem.directory d))) in
      let as_file : M (Option FatItem) = (do
        copy ← clone_directory_item item item_size
        pure (some (FatItem.file copy))) in
      kzalloc >>= λ done.
      if done then (if is_subdirectory item then as_directory else as_file) else pure none

  -- `rounds` entries from the index `i` on; `f_item` is what has been found.
  unfoldable pub find_loop :
      ℕ → ℕ → List FatDirectoryItem → List ℕ → Option FatItem → M (Option FatItem)
  find_loop zero i items name f_item = pure f_item
  find_loop (suc rounds) i items name f_item = do
    item ← expect (get_elem? items i)
    tmp_filename ← expect (get_full_relative_filename item max_path)
    order ← expect (istrncmp tmp_filename (name ++ (0 ∷ [])) max_path)
    let found = new_fat_item_for_directory_item item
    f_item' ← (if is_ok order then found else pure f_item)
    find_loop rounds (i + 1) items name f_item'

  -- The name is a part of a path, without its NUL.
  unfoldable pub find_item_in_directory : Loaded → List ℕ → M (Option FatItem)
  find_item_in_directory Loaded.null name = fault
  find_item_in_directory Loaded.freed name = fault
  find_item_in_directory (Loaded.live d) name = find_loop (count_of d.total) 0 d.item name none

  -- A part that is left needs the item before it.
  unfoldable pub walk_path : Option FatItem → List (List ℕ) → M (Option FatItem)
  walk_path current_item [] = pure current_item
  walk_path none (part ∷ next) = fault
  walk_path (some (FatItem.file item)) (part ∷ next) = pure none
  walk_path (some (FatItem.directory d)) (part ∷ next) = do
    tmp_item ← find_item_in_directory d part
    fat_item_free (FatItem.directory d)
    walk_path tmp_item next

  unfoldable pub get_directory_entry : List (List ℕ) → M (Option FatItem)
  get_directory_entry [] m = none
  get_directory_entry (part ∷ next) m =
      (find_item_in_directory (Loaded.live m.root_directory) part >>= λ root_item. elim root_item [
        | none ↦ pure none
        | some item ↦ walk_path (some item) next
      ])
        m

  -- What is read into the root directory, or the error.
  unfoldable pub get_root_directory : M ℤ
  get_root_directory m =
      let h = m.header in
      let root_dir_sector_pos = h.fat_copies * h.sectors_per_fat + h.reserved_sectors in
      let root_dir_size = h.root_dir_entries * item_size in
      let whole = root_dir_size / sector_size in
      let total_sectors = if root_dir_size % sector_size == 0 then whole else whole + 1 in
      let keep : ℤ → List ℕ → M ℤ = λ total_items bytes s. some (
        pos 0,
        record s {
          root_directory = record {
            item = read_items h.root_dir_entries bytes;
            total = total_items;
            sector_pos = root_dir_sector_pos;
            ending_sector_pos = root_dir_sector_pos + total_sectors;
          };
        },
      ) in
      let failed : M ℤ = (do kfree; pure minus_eio) in
      let fill : ℤ → M ℤ = λ total_items. (do
        (res, bytes) ← read_stream sector fuel Stream.directory_read root_dir_size
        if is_ok res then keep total_items bytes else failed) in
      let load : M ℤ = (do
        total_items ← get_total_items_for_directory root_dir_sector_pos
        done ← kzalloc
        let go_on : M ℤ = (do
          res ← seek_stream Stream.directory_read (sector_to_absolute root_dir_sector_pos)
          if is_ok res then fill total_items else failed)
        if done then go_on else pure minus_enomem) in
      load m
