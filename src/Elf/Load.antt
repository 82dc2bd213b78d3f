-- ===== src/Elf/Load.antt =====
-- `elf_load` of src/loader/formats/elfloader.c, over the file layer and the kernel's heap.
use vana.Prelude.{
  ℕ, ◌-◌, Bool, ◌&&◌, not, ℤ, pos, negsuc, Option, none, some, List, [], ◌∷◌, ◌++◌, ◌>>=◌, ◌==◌,
  if◌then◌else◌, length, replicate,
}
use vana.PathParser.{kzalloc, kfree}
use vana.Vfs.{Vfs, FileStat, fopen, fstat, fread, fclose}
use vana.Elf.{ElfFile, elf_file_new, elf_process_loaded, is_negative}

abbrev below_one : ℤ → Bool
below_one (pos n) = n == 0
below_one (negsuc n) = Bool.true

abbrev is_empty {ℓ} : {A : Type ℓ} → List A → Bool
is_empty [] = Bool.true
is_empty (x ∷ xs) = Bool.false

module _ {S : Type 0} where
  abbrev give_back : Vfs S → Vfs S
  give_back v = record v { allocs = kfree v.allocs }

  -- The memory and the structure.
  unfoldable elf_file_free : ElfFile → Vfs S → Vfs S
  elf_file_free file v = give_back (if file.elf_memory == 0 then v else give_back v)

  unfoldable elf_close : Option ElfFile → Vfs S → Vfs S
  elf_close none v = v
  elf_close (some file) v = give_back (give_back v)

  -- The exit: the result, the file that the caller gets, and what is freed and closed.
  unfoldable load_exit : ℤ → ℤ → ElfFile → Vfs S → Option (ℤ × Option ElfFile × Vfs S)
  load_exit res fd file v =
      let (closed, v') = fclose fd (if is_negative res then elf_file_free file v else v) in
      some (res, if is_negative res then none else some file, v')

  -- Behind the header's test of what was read. `address` is where the heap puts the file. A null
  -- pointer is written through when there is something to write.
  unfoldable load_file : ℤ → ℕ → FileStat → Vfs S → Option (ℤ × Option ElfFile × Vfs S)
  load_file fd address stat v =
      let (done, al) = kzalloc v.allocs in
      let (res, bytes, v') = fread stat.filesize 1 fd (record v { allocs = al }) in
      let file : ElfFile = record elf_file_new {
        elf_memory = if done then address else 0;
        bytes = bytes ++ replicate (stat.filesize - length bytes) 0;
      } in
      let processed : Option (ℤ × Option ElfFile × Vfs S) = (do
        (res', file') ← elf_process_loaded file
        load_exit res' fd file' v') in
      if not done && not (is_empty bytes)
      then none
      else if is_negative res
      then load_exit res fd file v'
      else if not done
      then none
      else processed

  -- Without memory for the structure, the null pointer is written through or freed.
  unfoldable elf_load : List ℕ → ℕ → Vfs S → Option (ℤ × Option ElfFile × Vfs S)
  elf_load filename address v = do
    let (done, al) = kzalloc v.allocs
    let start : FileStat = record { flags = 0; filesize = 0 }
    (fd, v1) ← fopen filename (b'r' ∷ 0 ∷ []) (record v { allocs = al })
    let (res, stat, v2) = fstat fd start v1
    let opened : Option (ℤ × Option ElfFile × Vfs S) =
        if is_negative res then load_exit res fd elf_file_new v2 else load_file fd address stat v2
    let checked = if below_one fd then load_exit (negsuc 0) (pos 0) elf_file_new v1 else opened
    if not done then none else checked
