-- ===== src/Fat16.antt =====
-- The data of the FAT16 driver, src/fs/fat/fat16.c: the headers and directory entries as they are
-- read from the disk, and the state of a mounted driver with its three streams. The kernel heap is
-- what its next calls answer and a count of live allocations. `none` is a fault: a null or freed
-- pointer is read, memory is accessed out of bounds, or the fuel has run out.
pub mod Clusters
pub mod Directory
pub mod Driver
pub mod Names
mod Tests
use vana.Prelude.{
  ℕ, zero, suc, ◌+◌, ◌*◌, ◌^◌, Bool, ℤ, pos, negsuc, Option, none, some, List, [], ◌∷◌, ◌==◌,
  get_or, take, drop,
}
use vana.PathParser
use vana.PathParser.{Allocs}
use vana.Disk.Streamer.{DiskStream, diskstreamer_seek, diskstreamer_read}

-- The fields of `struct fat_header` and `struct fat_header_extended` that the driver reads.
pub record FatHeader : Type 0 where
  pub sectors_per_cluster : ℕ
  pub reserved_sectors : ℕ
  pub fat_copies : ℕ
  pub root_dir_entries : ℕ
  pub sectors_per_fat : ℕ
  pub signature : ℕ

-- The fields of `struct fat_directory_item` that the driver reads.
pub record FatDirectoryItem : Type 0 where
  pub filename : List ℕ
  pub ext : List ℕ
  pub attribute : ℕ
  pub high_16_bits_first_cluster : ℕ
  pub low_16_bits_first_cluster : ℕ
  pub filesize : ℕ

-- `item` is the array of entries. `total` is negative when counting them failed.
pub record FatDirectory : Type 0 where
  pub item : List FatDirectoryItem
  pub total : ℤ
  pub sector_pos : ℕ
  pub ending_sector_pos : ℕ

-- A pointer to a directory of its own: null, given back to the heap, or good.
pub data Loaded : Type 0 where
  null freed : Loaded
  live : FatDirectory → Loaded

-- `struct fat_item`: the constructor is the type tag. The copy of a file's entry is none when its
-- allocation failed.
pub data FatItem : Type 0 where
  directory : Loaded → FatItem
  file : Option FatDirectoryItem → FatItem

pub record FatFileDescriptor : Type 0 where
  pub item : FatItem
  pub position : ℕ

-- Which of the streams of `struct fat_private` a pointer leads to.
pub data Stream : Type 0 where
  cluster_read fat_read directory_read : Stream

-- `struct fat_private`, and the heap.
pub record Mount : Type 0 where
  pub header : FatHeader
  pub root_directory : FatDirectory
  pub cluster_read_stream : DiskStream
  pub fat_read_stream : DiskStream
  pub directory_stream : DiskStream
  pub allocs : Allocs

-- Numbers in the byte order of the disk.
abbrev pub le16 : List ℕ → ℕ → ℕ
le16 bytes i = get_or bytes i 0 + 256 * get_or bytes (i + 1) 0

abbrev pub le32 : List ℕ → ℕ → ℕ
le32 bytes i = le16 bytes i + 2 ^ 16 * le16 bytes (i + 2)

abbrev pub header_size : ℕ
header_size = 62

abbrev pub item_size : ℕ
item_size = 32

unfoldable pub read_header : List ℕ → FatHeader
read_header bytes = record {
  sectors_per_cluster = get_or bytes 13 0;
  reserved_sectors = le16 bytes 14;
  fat_copies = get_or bytes 16 0;
  root_dir_entries = le16 bytes 17;
  sectors_per_fat = le16 bytes 22;
  signature = get_or bytes 38 0;
}

unfoldable pub read_item : List ℕ → FatDirectoryItem
read_item bytes = record {
  filename = take 8 bytes;
  ext = take 3 (drop 8 bytes);
  attribute = get_or bytes 11 0;
  high_16_bits_first_cluster = le16 bytes 20;
  low_16_bits_first_cluster = le16 bytes 26;
  filesize = le32 bytes 28;
}

-- The bytes as an array of `n` entries.
unfoldable pub read_items : ℕ → List ℕ → List FatDirectoryItem
read_items zero bytes = []
read_items (suc n) bytes = read_item bytes ∷ read_items n (drop item_size bytes)

abbrev pub M : Type 0 → Type 0
M A = Mount → Option (A × Mount)

abbrev pub and_then : {A B : Type 0} → Option (A × Mount) → (A → M B) → Option (B × Mount)
and_then none f = none
and_then (some (a, s)) f = f a s

infixl 5 ◌>>=◌ ◌>>◌
abbrev pub ◌>>=◌ : {A B : Type 0} → M A → (A → M B) → M B
m >>= f = λ s. and_then (m s) f

abbrev pub ◌>>◌ : {B : Type 0} → M (Unit {0}) → M B → M B
m >> k = m >>= λ _. k

abbrev pub pure : {A : Type 0} → A → M A
pure a s = some (a, s)

abbrev pub fault : {A : Type 0} → M A
fault s = none

-- What only faults when the value is missing.
abbrev pub expect : {A : Type 0} → Option A → M A
expect none s = none
expect (some a) s = some (a, s)

abbrev pub get_header : M FatHeader
get_header s = some (s.header, s)

unfoldable pub kzalloc : M Bool
kzalloc s = let (done, al) = PathParser.kzalloc s.allocs in some (done, record s { allocs = al })

unfoldable pub kfree : M (Unit {0})
kfree s = some (tt, record s { allocs = PathParser.kfree s.allocs })

abbrev pub stream_of : Stream → Mount → DiskStream
stream_of Stream.cluster_read s = s.cluster_read_stream
stream_of Stream.fat_read s = s.fat_read_stream
stream_of Stream.directory_read s = s.directory_stream

abbrev pub with_stream : Stream → DiskStream → Mount → Mount
with_stream Stream.cluster_read d s = record s { cluster_read_stream = d }
with_stream Stream.fat_read d s = record s { fat_read_stream = d }
with_stream Stream.directory_read d s = record s { directory_stream = d }

unfoldable pub seek_stream : Stream → ℕ → M ℤ
seek_stream w p s =
    let (res, d) = diskstreamer_seek (stream_of w s) p in some (res, with_stream w d s)

-- The result and the bytes.
unfoldable pub read_stream : (ℕ → List ℕ) → ℕ → Stream → ℕ → M (ℤ × List ℕ)
read_stream sector fuel w total s = elim (diskstreamer_read sector fuel (stream_of w s) total) [
  | none ↦ none
  | some (res, bytes, d) ↦ some ((res, bytes), with_stream w d s)
]

abbrev pub is_ok : ℤ → Bool
is_ok (pos n) = n == 0
is_ok (negsuc n) = Bool.false

abbrev pub minus_eio : ℤ
minus_eio = negsuc 0

abbrev pub minus_einvarg : ℤ
minus_einvarg = negsuc 1

abbrev pub minus_enomem : ℤ
minus_enomem = negsuc 2
