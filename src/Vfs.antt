-- ===== src/Vfs.antt =====
-- The generic file layer of src/fs/file.c and file.h, and the disk table of src/disk/disk.c. What a
-- driver does is a parameter: `struct filesystem` is a record of its callbacks over the driver's own
-- state `S`. A `void *` that may carry an error code is a ℤ, negative for `ERROR(code)`.
pub mod Descriptors
pub mod Open
mod Tests
use vana.Prelude.{
  ℕ, zero, suc, ◌+◌, ◌-◌, Bool, true, false, ◌&&◌, ◌||◌, ℤ, pos, negsuc, Option, none, some, List,
  [], ◌∷◌, ◌>>=◌, leb, ltb, ◌==◌, if◌then◌else◌, get_elem?, set, replicate,
}
use vana.Strings.{strncmp}
use vana.PathParser
use vana.PathParser.{Allocs, PathRoot, kzalloc, kfree}

abbrev pub max_filesystems : ℕ
max_filesystems = 12

abbrev pub max_file_descriptors : ℕ
max_file_descriptors = 512

pub data FileMode : Type 0 where
  read write append invalid : FileMode

pub data SeekMode : Type 0 where
  seek_set seek_cur seek_end : SeekMode

pub record FileStat : Type 0 where
  pub flags : ℕ
  pub filesize : ℕ

-- `-EIO` and `-EINVARG`
abbrev pub minus_eio : ℤ
minus_eio = negsuc 0

abbrev pub minus_einvarg : ℤ
minus_einvarg = negsuc 1

-- ISERR
abbrev pub is_err : ℤ → Bool
is_err (pos n) = false
is_err (negsuc n) = true

abbrev pub is_null : ℤ → Bool
is_null (pos n) = n == 0
is_null (negsuc n) = false

-- The callbacks of a driver. A disk is given by its id; `read` also returns the bytes for the
-- caller's buffer, and `stat` what it has filled in.
pub record Filesystem (S : Type 0) : Type 0 where
  pub resolve : ℕ → S → ℤ × S
  pub open_file : ℕ → List (List ℕ) → FileMode → S → ℤ × S
  pub read_file : ℕ → ℤ → ℕ → ℕ → S → ℤ × List ℕ × S
  pub seek_file : ℤ → ℕ → SeekMode → S → ℤ × S
  pub stat_file : ℕ → ℤ → FileStat → S → ℤ × FileStat × S
  pub close_file : ℤ → S → ℤ × S

pub record Disk (S : Type 0) : Type 0 where
  pub id : ℕ
  pub filesystem : Option (Filesystem S)

pub record FileDescriptor (S : Type 0) : Type 0 where
  pub index : ℕ
  pub filesystem : Filesystem S
  pub private_data : ℤ
  pub disk : ℕ

-- The globals of the file layer, the one disk, the state of the drivers, and the part of the kernel
-- heap that the file layer and the path parser use. What the drivers take from the heap belongs to
-- `state`.
pub record Vfs (S : Type 0) : Type 0 where
  pub filesystems : List (Option (Filesystem S))
  pub file_descriptors : List (Option (FileDescriptor S))
  pub disk : Disk S
  pub state : S
  pub allocs : Allocs

-- The first index from `i` on whose entry is empty.
unfoldable pub first_free {ℓ} : {A : Type ℓ} → List (Option A) → ℕ → Option ℕ
first_free [] i = none
first_free (none ∷ xs) i = some i
first_free (some x ∷ xs) i = first_free xs (i + 1)

is_mode : List ℕ → ℕ → Option Bool
is_mode str c = do d ← strncmp str (c ∷ 0 ∷ []) 1; some (is_null d)

pub get_mode_by_string : List ℕ → Option FileMode
get_mode_by_string str = do
  r ← is_mode str b'r'
  w ← is_mode str b'w'
  a ← is_mode str b'a'
  some (
      if r
      then FileMode.read
      else if w
      then FileMode.write
      else if a
      then FileMode.append
      else FileMode.invalid)

below_one : ℤ → Bool
below_one (pos n) = ltb n 1
below_one (negsuc n) = true

module _ {S : Type 0} where
  -- `none`: the table is full, and the kernel stops in an endless loop.
  pub insert_filesystem : Filesystem S → Vfs S → Option (Vfs S)
  insert_filesystem filesystem v = do
    i ← first_free v.filesystems 0
    some (record v { filesystems = set v.filesystems i (some filesystem) })

  -- `fat16_init()` returns `driver`.
  pub init : Filesystem S → Vfs S → Option (Vfs S)
  init driver v = insert_filesystem driver (record v {
    file_descriptors = replicate max_file_descriptors none;
    filesystems = replicate max_filesystems none;
  })

  -- The first registered driver that answers 0, asked in turn.
  resolve_loop : ℕ → List (Option (Filesystem S)) → S → Option (Filesystem S) × S
  resolve_loop disk [] s = (none, s)
  resolve_loop disk (none ∷ fs) s = resolve_loop disk fs s
  resolve_loop disk (some f ∷ fs) s =
      let (res, s') = f.resolve disk s in
      let rest = resolve_loop disk fs s' in if is_null res then (some f, s') else rest

  pub resolve_disk : ℕ → Vfs S → Option (Filesystem S) × Vfs S
  resolve_disk disk v =
      let (found, s) = resolve_loop disk v.filesystems v.state in (found, record v { state = s })

  -- `disk_search_and_init`: the one disk gets the driver that resolves it.
  pub disk_search_and_init : Vfs S → Vfs S
  disk_search_and_init v =
      let (found, v') = resolve_disk 0 v in
      record v' { disk = record { id = 0; filesystem = found } }

  pub disk_get : ℕ → Vfs S → Option (Disk S)
  disk_get index v = if index == 0 then some v.disk else none

  pub free_descriptor : FileDescriptor S → Vfs S → Vfs S
  free_descriptor desc v = record v {
    file_descriptors = set v.file_descriptors (desc.index - 1) none;
    allocs = kfree v.allocs;
  }

  pub get_descriptor : ℤ → Vfs S → Option (FileDescriptor S)
  get_descriptor (negsuc n) v = none
  get_descriptor (pos fd) v =
      let entry : Option (FileDescriptor S) = elim (get_elem? v.file_descriptors (fd - 1)) [
        | none ↦ none
        | some d ↦ d
      ] in
      if leb fd 0 || leb max_file_descriptors fd then none else entry

  -- The error exit of `fopen`: the path is freed, and a private pointer that is not null is handed to
  -- `close`, an error code too.
  open_failed : PathRoot → Option (Filesystem S) → ℤ → Vfs S → ℤ × Vfs S
  open_failed root fs private_data v =
      let v' : Vfs S = record v { allocs = PathParser.free root v.allocs } in
      let closed : Vfs S = elim fs [
        | none ↦ v'
        | some f ↦ record v' { state = (f.close_file private_data v.state).1 }
      ] in
      (pos 0, if is_null private_data then v' else closed)

  -- `file_new_descriptor` and what follows it. A null pointer from `kzalloc` is written through.
  open_descriptor : PathRoot → Filesystem S → ℕ → ℤ → Vfs S → Option (ℤ × Vfs S)
  open_descriptor root fs disk private_data v =
      let (done, al) = kzalloc v.allocs in
      elim (first_free v.file_descriptors 0) [
        | none ↦ some (open_failed root (some fs) private_data v)
        | some i ↦
            let desc : FileDescriptor S = record {
              index = i + 1;
              filesystem = fs;
              private_data = private_data;
              disk = disk;
            } in
            if done
            then some (
              pos (i + 1),
              record v { file_descriptors = set v.file_descriptors i (some desc); allocs = al },
            )
            else none
      ]

  -- The driver's `open`, once the path, the disk and the mode are known.
  open_on : PathRoot → Filesystem S → ℕ → FileMode → Vfs S → Option (ℤ × Vfs S)
  open_on root fs disk mode v =
      let (private_data, s) = fs.open_file disk root.first mode v.state in
      let v' : Vfs S = record v { state = s } in
      if is_err private_data
      then some (open_failed root (some fs) private_data v')
      else open_descriptor root fs disk private_data v'

  open_mode : PathRoot → Filesystem S → ℕ → FileMode → Vfs S → Option (ℤ × Vfs S)
  open_mode root fs disk FileMode.invalid v = some (open_failed root (some fs) (pos 0) v)
  open_mode root fs disk mode v = open_on root fs disk mode v

  open_disk : PathRoot → List ℕ → Option (Disk S) → Vfs S → Option (ℤ × Vfs S)
  open_disk root mode_str none v = some (open_failed root none (pos 0) v)
  open_disk root mode_str (some disk) v = elim (disk.filesystem) [
    | none ↦ some (open_failed root none (pos 0) v)
    | some fs ↦ do mode ← get_mode_by_string mode_str; open_mode root fs disk.id mode v
  ]

  open_root : List ℕ → Option PathRoot → Vfs S → Option (ℤ × Vfs S)
  open_root mode_str none v = some (pos 0, v)
  open_root mode_str (some root) v = elim (root.first) [
    | [] ↦ some (open_failed root none (pos 0) v)
    | _ ∷ _ ↦ open_disk root mode_str (disk_get root.drive_no v) v
  ]

  pub fopen : List ℕ → List ℕ → Vfs S → Option (ℤ × Vfs S)
  fopen filename mode_str v = do
    (root, al) ← PathParser.parse filename v.allocs
    open_root mode_str root (record v { allocs = al })

  stat_on : FileStat → Option (FileDescriptor S) → Vfs S → ℤ × FileStat × Vfs S
  stat_on stat none v = (minus_eio, stat, v)
  stat_on stat (some desc) v =
      let (res, stat', s) = desc.filesystem.stat_file desc.disk desc.private_data stat v.state in
      (res, stat', record v { state = s })

  pub fstat : ℤ → FileStat → Vfs S → ℤ × FileStat × Vfs S
  fstat fd stat v = stat_on stat (get_descriptor fd v) v

  close_on : Option (FileDescriptor S) → Vfs S → ℤ × Vfs S
  close_on none v = (minus_eio, v)
  close_on (some desc) v =
      let (res, s) = desc.filesystem.close_file desc.private_data v.state in
      let v' : Vfs S = record v { state = s } in
      (res, if is_null res then free_descriptor desc v' else v')

  pub fclose : ℤ → Vfs S → ℤ × Vfs S
  fclose fd v = close_on (get_descriptor fd v) v

  seek_on : ℕ → SeekMode → Option (FileDescriptor S) → Vfs S → ℤ × Vfs S
  seek_on offset whence none v = (minus_eio, v)
  seek_on offset whence (some desc) v =
      let (res, s) = desc.filesystem.seek_file desc.private_data offset whence v.state in
      (res, record v { state = s })

  -- `offset` is what the driver reads as a `uint32_t`.
  pub fseek : ℤ → ℕ → SeekMode → Vfs S → ℤ × Vfs S
  fseek fd offset whence v = seek_on offset whence (get_descriptor fd v) v

  read_on : ℕ → ℕ → Option (FileDescriptor S) → Vfs S → ℤ × List ℕ × Vfs S
  read_on size nmemb none v = (minus_einvarg, [], v)
  read_on size nmemb (some desc) v =
      let (res, bytes, s) =
        desc.filesystem.read_file desc.disk desc.private_data size nmemb v.state in
      (res, bytes, record v { state = s })

  -- The bytes are what the driver writes to `ptr`.
  pub fread : ℕ → ℕ → ℤ → Vfs S → ℤ × List ℕ × Vfs S
  fread size nmemb fd v =
      if size == 0 || nmemb == 0 || below_one fd
      then (minus_einvarg, [], v)
      else read_on size nmemb (get_descriptor fd v) v
