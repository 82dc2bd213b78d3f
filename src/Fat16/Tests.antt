-- ===== src/Fat16/Tests.antt =====
-- The FAT16 driver on a small disk, and its theorems at inputs.
use vana.Prelude.{
  ℕ, zero, suc, ◌/◌, ◌%◌, ◌≡◌, refl, inl, inr, true, false, pos, some, List, [], ◌∷◌, ◌++◌,
  replicate, arith,
}
use vana.Strings.{istrncmp, tolower}
use vana.Fat16.{Mount, FatItem, FatDirectoryItem, Loaded}
use vana.Fat16.Names.{to_proper_string, get_full_relative_filename}
use vana.Fat16.Clusters.{ends_walk, get_first_fat_sector, read_internal, get_first_cluster}
use vana.Fat16.Clusters.Contents.{placed}
use vana.Fat16.Clusters.Chain.{ChainTo, read_internal-crossing}
use vana.Fat16.Directory.{is_subdirectory, find_item_in_directory}
use vana.Fat16.Directory.Search.{IsFileEntry, with_live, find_item_in_directory-last}
use vana.Fat16.Driver.{fat16_read}
use vana.Fat16.Driver.Files.{mounted, opened, fat16_read-file_bytes}

-- The entry of a file.
abbrev entry_bytes : List ℕ → ℕ → ℕ → ℕ → List ℕ
entry_bytes name attribute cluster size =
    name ++ (attribute ∷ replicate 14 0) ++ (cluster ∷ 0 ∷ size % 256 ∷ size / 256 ∷ 0 ∷ 0 ∷ [])

abbrev a_txt : List ℕ
a_txt = b'A' ∷ b' ' ∷ b' ' ∷ b' ' ∷ b' ' ∷ b' ' ∷ b' ' ∷ b' ' ∷ b'T' ∷ b'X' ∷ b'T' ∷ []

abbrev b_txt : List ℕ
b_txt = b' ' ∷ b' ' ∷ b' ' ∷ b' ' ∷ b' ' ∷ b' ' ∷ b' ' ∷ b'T' ∷ b'X' ∷ b'T' ∷ []

-- One sector to a cluster, the table in sector 1, the root directory in sector 2: a deleted entry,
-- and the file A.TXT, which lies in the clusters 2 and 4, which are the sectors 3 and 5.
abbrev disk : ℕ → List ℕ
disk (suc zero) = 0 ∷ 0 ∷ 0 ∷ 0 ∷ 4 ∷ 0 ∷ 0xFF ∷ 0xFF ∷ 0xFF ∷ 0xFF ∷ []
disk (suc (suc zero)) =
    entry_bytes (0xE5 ∷ b_txt) 0 9 10 ++ entry_bytes a_txt 0 2 600 ++ replicate 448 0
disk (suc (suc (suc zero))) = replicate 512 b'x'
disk (suc (suc (suc (suc zero)))) = replicate 512 b'?'
disk (suc (suc (suc (suc (suc zero))))) = replicate 512 b'y'
disk n = []

abbrev small : Mount
small = record {
  header = record {
    sectors_per_cluster = 1;
    reserved_sectors = 1;
    fat_copies = 1;
    root_dir_entries = 16;
    sectors_per_fat = 1;
    signature = 0x29;
  };
  root_directory = record { item = []; total = pos 0; sector_pos = 2; ending_sector_pos = 3 };
  cluster_read_stream = record { position = 0; disk = 0 };
  fat_read_stream = record { position = 0; disk = 0 };
  directory_stream = record { position = 0; disk = 0 };
  allocs = record { answers = []; live = 0 };
}

abbrev file_item : List ℕ → FatDirectoryItem
file_item name = record {
  filename = name ++ replicate 7 b' ';
  ext = b'T' ∷ b'X' ∷ b'T' ∷ [];
  attribute = 0;
  high_16_bits_first_cluster = 0;
  low_16_bits_first_cluster = 2;
  filesize = 600;
}

small_chain : ChainTo disk 1000 small 2 520
unfolding ends_walk get_first_fat_sector
small_chain zero h = omega arith
small_chain (suc zero) h = (omega arith, refl, omega arith)
small_chain (suc (suc n)) h = absurd (omega arith)

fat16_read-file_bytes_example :
    (p' q' : ℕ) × (fat16_read disk 1000
        (pos 1)
        4
        2
        (mounted small 0 0 (opened (file_item (b'A' ∷ [])) 512 ∷ []) small.allocs)
      ≡ some (
        pos 2,
        replicate 8 b'y',
        mounted small p' q' (opened (file_item (b'A' ∷ [])) 520 ∷ []) small.allocs,
      ))
unfolding get_first_fat_sector get_first_cluster
fat16_read-file_bytes_example =
    fat16_read-file_bytes disk 1000 small 4 (omega arith) (omega arith) 0 2 512 0 0
      (file_item (b'A' ∷ [])) (opened (file_item (b'A' ∷ [])) 512 ∷ []) small.allocs refl
      (omega arith) (omega arith) (inl refl, (inr (omega arith), tt)) small_chain

read_internal-crossing_example :
    (p' q' : ℕ) × (read_internal disk 1000 2 510 4 (placed small 0 0)
      ≡ some ((pos 0, b'x' ∷ b'x' ∷ b'?' ∷ b'?' ∷ []), placed small p' q'))
unfolding get_first_fat_sector
read_internal-crossing_example =
    read_internal-crossing disk 1000 small (omega arith) (omega arith) 2 510 4 0 0 (omega arith)
      (omega arith) (omega arith) (λ n h. small_chain n (omega arith))

a_entry : IsFileEntry (b'a' ∷ b'.' ∷ b't' ∷ b'x' ∷ b't' ∷ []) (file_item (b'A' ∷ []), true)
unfolding is_subdirectory get_full_relative_filename to_proper_string istrncmp tolower
a_entry = (refl, refl)

b_entry : IsFileEntry (b'a' ∷ b'.' ∷ b't' ∷ b'x' ∷ b't' ∷ []) (file_item (b'B' ∷ []), false)
unfolding is_subdirectory get_full_relative_filename to_proper_string istrncmp tolower
b_entry = (refl, refl)

find_item_in_directory-last_example :
    find_item_in_directory disk 1000
      (Loaded.live (record {
        item = file_item (b'A' ∷ []) ∷ file_item (b'B' ∷ []) ∷ [];
        total = pos 2;
        sector_pos = 2;
        ending_sector_pos = 3;
      }))
      (b'a' ∷ b'.' ∷ b't' ∷ b'x' ∷ b't' ∷ [])
      (with_live small 7)
    ≡ some (some (FatItem.file (some (file_item (b'A' ∷ [])))), with_live small 9)
find_item_in_directory-last_example =
    find_item_in_directory-last disk 1000 small
      ((file_item (b'A' ∷ []), true) ∷ (file_item (b'B' ∷ []), false) ∷ []) []
      (b'a' ∷ b'.' ∷ b't' ∷ b'x' ∷ b't' ∷ []) 7 2 3 (a_entry, (b_entry, tt))
