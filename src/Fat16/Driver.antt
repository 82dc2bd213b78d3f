-- ===== src/Fat16/Driver.antt =====
-- The callbacks of the FAT16 driver, as a value of the file layer's record. A descriptor's pointer
-- is its index in a table plus one: addresses are never reused. The state of the driver is none
-- once a fault has happened.
pub mod Files
use vana.Prelude.{
  ℕ, zero, suc, ◌+◌, ◌-◌, ◌^◌, ◌%◌, Bool, not, ℤ, pos, negsuc, Option, none, some, List, [], ◌∷◌,
  ◌++◌, leb, ◌==◌, if◌then◌else◌, get_or, get_elem?, set, length,
}
use Prim.Native.Nat.{bit_and}
use vana.PathParser
use vana.PathParser.{Allocs}
use vana.Disk.Streamer.{DiskStream, diskstreamer_read}
use vana.Vfs.{Filesystem, FileMode, SeekMode, FileStat}
use vana.Fat16.{
  FatHeader, FatDirectoryItem, FatDirectory, FatItem, FatFileDescriptor, Mount, Stream, M, ◌>>=◌,
  ◌>>◌, pure, fault, kzalloc, kfree, read_header, header_size, read_stream, is_ok, minus_eio,
  minus_einvarg, minus_enomem,
}
use vana.Fat16.Clusters.{get_first_cluster, read_internal, is_negative}
use vana.Fat16.Directory.{fat_item_free, get_directory_entry, get_root_directory}

-- `fs_private` of the disk, the open descriptors, and the heap's answers while nothing is mounted.
pub record Driver : Type 0 where
  pub fs_private : Option Mount
  pub descriptors : List (Option FatFileDescriptor)
  pub allocs : Allocs

abbrev pub erdonly : ℤ
erdonly = negsuc 5

abbrev pub efsnotus : ℤ
efsnotus = negsuc 4

-- `-EUNIMP`
abbrev pub eunimp : ℤ
eunimp = negsuc 6

unfoldable pub is_read : FileMode → Bool
is_read FileMode.read = Bool.true
is_read mode = Bool.false

-- The descriptor behind a pointer.
abbrev pub descriptor_at : ℤ → Driver → Option FatFileDescriptor
descriptor_at (negsuc n) s = none
descriptor_at (pos zero) s = none
descriptor_at (pos (suc i)) s = elim (get_elem? s.descriptors i) [ none ↦ none | some d ↦ d ]

abbrev pub pointer_index : ℤ → ℕ
pointer_index (pos n) = n - 1
pointer_index (negsuc n) = 0

-- A new descriptor, and its pointer.
abbrev pub add_descriptor : FatFileDescriptor → Mount → Driver → ℤ × Driver
add_descriptor desc m s = (
  pos (length s.descriptors + 1),
  record s { fs_private = some m; descriptors = s.descriptors ++ (some desc ∷ []) },
)

-- The body of `fat16_stat` for an entry, and that of `fat16_seek`.
unfoldable pub stat_item : FatItem → FileStat → Option (ℤ × FileStat)
stat_item (FatItem.directory d) stat = some (minus_einvarg, stat)
stat_item (FatItem.file none) stat = none
stat_item (FatItem.file (some ritem)) stat = some (
  pos 0,
  record { flags = if bit_and ritem.attribute 0x01 == 0 then 0 else 1; filesize = ritem.filesize },
)

-- The position is a `uint32_t`.
unfoldable pub seek_mode : SeekMode → ℕ → ℕ → ℤ × ℕ
seek_mode SeekMode.seek_set offset p = (pos 0, offset)
seek_mode SeekMode.seek_end offset p = (eunimp, p)
seek_mode SeekMode.seek_cur offset p = (pos 0, (p + offset) % 2 ^ 32)

unfoldable pub seek_item : FatItem → ℕ → SeekMode → ℕ → Option (ℤ × ℕ)
seek_item (FatItem.directory d) offset mode p = some (minus_einvarg, p)
seek_item (FatItem.file none) offset mode p = none
seek_item (FatItem.file (some ritem)) offset mode p =
    some (if leb ritem.filesize offset then (minus_eio, p) else seek_mode mode offset p)

unfoldable pub fat16_close : ℤ → Driver → Option (ℤ × Driver)
fat16_close private_data s = elim (descriptor_at private_data s) [
  | none ↦ none
  | some desc ↦ elim s.fs_private [
    | none ↦ none
    | some m ↦ elim ((fat_item_free desc.item >>= λ _. kfree) m) [
      | none ↦ none
      | some (_, m') ↦ some (
        pos 0,
        record s {
          fs_private = some m';
          descriptors = set s.descriptors (pointer_index private_data) none;
        },
      )
    ]
  ]
]

unfoldable pub fat16_stat : ℤ → FileStat → Driver → Option (ℤ × FileStat × Driver)
fat16_stat private_data stat s = elim (descriptor_at private_data s) [
  | none ↦ none
  | some desc ↦ elim (stat_item desc.item stat) [
    | none ↦ none
    | some (res, stat') ↦ some (res, stat', s)
  ]
]

unfoldable pub fat16_seek : ℤ → ℕ → SeekMode → Driver → Option (ℤ × Driver)
fat16_seek private_data offset mode s = elim (descriptor_at private_data s) [
  | none ↦ none
  | some desc ↦ elim (seek_item desc.item offset mode desc.position) [
    | none ↦ none
    | some (res, p) ↦
        let moved = record desc { position = p } in
        some (
          res,
          record s { descriptors = set s.descriptors (pointer_index private_data) (some moved) },
        )
  ]
]

abbrev pub start_stream : DiskStream
start_stream = record { position = 0; disk = 0 }

-- `n` allocations that must not fail.
unfoldable pub allocate : ℕ → Allocs → Option Allocs
allocate zero al = some al
allocate (suc n) al =
    let (done, al') = PathParser.kzalloc al in if done then allocate n al' else none

-- `fat16_init_private`, once the header has been read too.
unfoldable pub new_mount : List ℕ → Allocs → Mount
new_mount bytes al = record {
  header = read_header bytes;
  root_directory = record { item = []; total = pos 0; sector_pos = 0; ending_sector_pos = 0 };
  cluster_read_stream = start_stream;
  fat_read_stream = start_stream;
  directory_stream = start_stream;
  allocs = al;
}

module _ (sector : ℕ → List ℕ) (fuel : ℕ) where
  -- The error exit of `fat16_open` with a descriptor to free.
  unfoldable pub fat16_open : List (List ℕ) → FileMode → Driver → Option (ℤ × Driver)
  fat16_open path mode s = elim s.fs_private [
    | none ↦ if is_read mode then none else some (erdonly, s)
    | some m ↦
        let keep : ℤ → Mount → Option (ℤ × Driver) =
          λ res m'. some (res, record s { fs_private = some m' }) in
        let found : Option FatItem → Mount → Option (ℤ × Driver) = λ entry m'. elim entry [
          | none ↦ elim (kfree m') [ none ↦ none | some (_, m'') ↦ keep minus_eio m'' ]
          | some item ↦ some (add_descriptor (record { item = item; position = 0 }) m' s)
        ] in
        let search : Mount → Option (ℤ × Driver) = λ m'.
          elim (get_directory_entry sector fuel path m') [
            | none ↦ none
            | some (entry, m'') ↦ found entry m''
          ] in
        let start : Option (ℤ × Driver) = elim (kzalloc m) [
          | none ↦ none
          | some (done, m') ↦ if done then search m' else keep minus_enomem m'
        ] in
        if is_read mode then start else some (erdonly, s)
  ]

  -- `nmemb` objects of `size` bytes from the offset on: the result, the bytes and the offset.
  unfoldable pub read_loop : ℕ → ℕ → ℕ → ℕ → M (ℤ × List ℕ × ℕ)
  read_loop zero size cluster offset = pure (pos 0, [], offset)
  read_loop (suc nmemb) size cluster offset = do
    (res, bytes) ← read_internal sector fuel cluster offset size
    let rest : M (ℤ × List ℕ × ℕ) = (do
      (res', more, offset') ← read_loop nmemb size cluster (offset + size)
      pure (res', bytes ++ more, offset'))
    if is_negative res then pure (res, bytes, offset) else rest

  -- An entry of a directory is taken for one of a file, and a null pointer is read.
  unfoldable pub fat16_read : ℤ → ℕ → ℕ → Driver → Option (ℤ × List ℕ × Driver)
  fat16_read descriptor size nmemb s = elim (descriptor_at descriptor s) [
    | none ↦ none
    | some desc ↦ elim desc.item [
      | FatItem.directory d ↦ none
      | FatItem.file copy ↦ elim copy [
        | none ↦ none
        | some item ↦ elim s.fs_private [
          | none ↦ none
          | some m ↦ elim (read_loop nmemb size (get_first_cluster item) desc.position m) [
            | none ↦ none
            | some ((res, bytes, offset), m') ↦
                let s' : Driver = record s { fs_private = some m' } in
                let moved = record desc { position = offset } in
                let done : Driver = record s' {
                  descriptors = set s.descriptors (pointer_index descriptor) (some moved);
                } in
                some (if is_negative res then (res, bytes, s') else (pos nmemb, bytes, done))
          ]
        ]
      ]
    ]
  ]

  -- Behind the header: its signature, and the root directory.
  unfoldable pub resolve_header : ℤ → M ℤ
  resolve_header res m =
      let loaded : M ℤ = (do
        res' ← get_root_directory sector fuel
        pure (if is_ok res' then pos 0 else minus_eio)) in
      let checked : M ℤ = if m.header.signature == 0x29 then loaded else pure efsnotus in
      (if is_ok res then checked else pure minus_eio) m

  -- The exit: the stream is freed, and after an error the private data too.
  unfoldable pub resolve_exit : Driver → ℤ → Mount → Option (ℤ × Driver)
  resolve_exit s res m = elim ((kfree >>= λ _. if is_negative res then kfree else pure tt) m) [
    | none ↦ none
    | some (_, m') ↦ some (
      res,
      if is_negative res
          then record s { fs_private = none; allocs = m'.allocs }
          else record s { fs_private = some m' },
    )
  ]

  -- A null pointer from any of the five allocations is written through.
  unfoldable pub fat16_resolve : Driver → Option (ℤ × Driver)
  fat16_resolve s = elim (allocate 5 s.allocs) [
    | none ↦ none
    | some al ↦ elim (diskstreamer_read sector fuel start_stream header_size) [
      | none ↦ none
      | some (res, bytes, stream) ↦ elim (resolve_header res (new_mount bytes al)) [
        | none ↦ none
        | some (res', m) ↦ resolve_exit s res' m
      ]
    ]
  ]

-- The machine goes on only where no fault has happened.
abbrev settle : Option (ℤ × Driver) → ℤ × Option Driver
settle none = (pos 0, none)
settle (some (res, s)) = (res, some s)

abbrev settle_with {ℓ} : {A : Type ℓ} → A → Option (ℤ × A × Driver) → ℤ × A × Option Driver
settle_with a none = (pos 0, a, none)
settle_with a (some (res, b, s)) = (res, b, some s)

abbrev running {ℓ} : {A : Type ℓ} → (Driver → Option A) → Option Driver → Option A
running f none = none
running f (some s) = f s

-- `fat16_fs`
unfoldable pub fat16_fs : (ℕ → List ℕ) → ℕ → Filesystem (Option Driver)
fat16_fs sector fuel = record {
  resolve = λ disk s. settle (running (fat16_resolve sector fuel) s);
  open_file = λ disk path mode s. settle (running (fat16_open sector fuel path mode) s);
  read_file =
      λ disk fd size nmemb s. settle_with [] (running (fat16_read sector fuel fd size nmemb) s);
  seek_file = λ fd offset mode s. settle (running (fat16_seek fd offset mode) s);
  stat_file = λ disk fd stat s. settle_with stat (running (fat16_stat fd stat) s);
  close_file = λ fd s. settle (running (fat16_close fd) s);
}
