-- ===== src/Vfs/Tests.antt =====
-- Runs of the file layer over a driver that keeps no state, and the theorems there.
use vana.Prelude.{
  ℕ, zero, suc, ◌≡◌, ◌≢◌, ◌<◌, refl, pos, Option, none, some, List, [], ◌∷◌, ◌++◌, arith, replicate,
  set, get_elem?,
}
use vana.Strings.{strncmp}
use vana.PathParser
use vana.PathParser.{Allocs, PathRoot, kzalloc, kfree}
use vana.PathParser.RoundTrip.{allocs, parse-write_path, write_path, join}
use vana.Vfs.{
  Vfs, Filesystem, FileDescriptor, FileStat, SeekMode, minus_eio, minus_einvarg, fopen, fclose,
  fread, fseek, fstat, first_free, open_descriptor, open_on, open_mode, open_disk, open_root,
  get_mode_by_string, is_mode, disk_get, get_descriptor,
}
use vana.Vfs.Open.{Outcome, fopen-Outcome}
use vana.Vfs.Descriptors.{IsValid, Numbered, fopen-IsValid, fclose-release, fopen_last_entry}

abbrev State : Type 0
State = Unit {0}

abbrev driver : Filesystem State
driver = record {
  resolve = λ disk s. (pos 0, s);
  open_file = λ disk path mode s. (pos 77, s);
  read_file = λ disk p size nmemb s. (pos nmemb, [], s);
  seek_file = λ p offset whence s. (pos 0, s);
  stat_file = λ disk p stat s. (pos 0, stat, s);
  close_file = λ p s. (pos 0, s);
}

abbrev vfs_of : List (Option (FileDescriptor State)) → ℕ → Vfs State
vfs_of fds n = record {
  filesystems = some driver ∷ replicate 11 none;
  file_descriptors = fds;
  disk = record { id = 0; filesystem = some driver };
  state = tt;
  allocs = allocs n;
}

abbrev descriptor : ℕ → FileDescriptor State
descriptor n = record { index = n; filesystem = driver; private_data = pos 77; disk = 0 }

-- "0:/a" and "r"
abbrev filename : List ℕ
filename = b'0' ∷ b':' ∷ b'/' ∷ b'a' ∷ 0 ∷ []

abbrev read_mode : List ℕ
read_mode = b'r' ∷ 0 ∷ []

abbrev empty_table : List (Option (FileDescriptor State))
empty_table = replicate 512 none

abbrev before : Vfs State
before = vfs_of empty_table 0

abbrev after : Vfs State
after = vfs_of (set empty_table 0 (some (descriptor 1))) 4

parsed :
    PathParser.parse filename (allocs 0)
    ≡ some (some (record { drive_no = 0; first = (b'a' ∷ []) ∷ [] }), allocs 3)
unfolding write_path join
parsed =
    parse-write_path 0 0 (b'a' ∷ []) [] [] (omega arith) ((λ e. cc, (omega arith)), tt)
      (omega arith)

opened_run : fopen filename read_mode before ≡ some (pos 1, after)
unfolding fopen open_root open_disk open_mode open_on open_descriptor get_mode_by_string is_mode
    strncmp disk_get first_free kzalloc
opened_run = rw (parsed, fopen)

fopen-Outcome_example : Outcome filename before (pos 1, after)
fopen-Outcome_example = fopen-Outcome before filename read_mode (pos 1, after) opened_run

replicate-numbered :
    (n k i : ℕ) (o : Option (FileDescriptor State))
    → get_elem? (replicate n none) i ≡ some o
    → Numbered k o
replicate-numbered zero k i o h = cc
replicate-numbered (suc n) k zero none h = tt
replicate-numbered (suc n) k zero (some d) h = cc
replicate-numbered (suc n) k (suc i) o h = replicate-numbered n k i o h

before-IsValid : IsValid before
before-IsValid = record { size = refl; numbered = λ i o h. replicate-numbered 512 i i o h }

fopen-IsValid_example : IsValid after
fopen-IsValid_example =
    fopen-IsValid before filename read_mode (pos 1, after) before-IsValid opened_run

fclose-release_example :
    let (res, v') = fclose (pos 1) after in
    (res ≡ pos 0)
    × (get_descriptor (pos 1) v' ≡ none)
    × ((other : ℕ) → other ≢ 1 → get_descriptor (pos other) v' ≡ get_descriptor (pos other) after)
    × IsValid v'
    × (v'.allocs.live ≡ 3)
unfolding get_descriptor
fclose-release_example = fclose-release after 1 (descriptor 1) fopen-IsValid_example refl refl

-- Only the last entry is free.
abbrev full_table : List (Option (FileDescriptor State))
full_table = replicate 511 (some (descriptor 1)) ++ none ∷ []

abbrev last : Vfs State
last = vfs_of (set full_table 511 (some (descriptor 512))) 4

last_run : fopen filename read_mode (vfs_of full_table 0) ≡ some (pos 512, last)
unfolding opened_run
last_run = rw (parsed, fopen)

fopen_last_entry_example :
    (◌≡◌ {A = ℕ} 512 512)
    × (fclose (pos 512) last ≡ (minus_eio, last))
    × ((size nmemb : ℕ)
        → 0 < size
        → 0 < nmemb
        → fread size nmemb (pos 512) last ≡ (minus_einvarg, [], last))
    × ((offset : ℕ) (whence : SeekMode) → fseek (pos 512) offset whence last ≡ (minus_eio, last))
    × ((stat : FileStat) → fstat (pos 512) stat last ≡ (minus_eio, stat, last))
unfolding first_free
fopen_last_entry_example =
    fopen_last_entry (vfs_of full_table 0) last filename read_mode 511 refl last_run
