-- ===== src/Elf/Bounds.antt =====
-- The addresses that a file's segments take up.
use vana.Prelude.{ℕ, ◌+◌, ◌%◌, ◌^◌, ◌≤◌, ◌≡◌, ◌⊎◌, ℤ, pos, Option, some, List, [], ◌∷◌}
use vana.Elf.{ElfFile, ElfHeader, Elf32Phdr, pt_load, elf_program_header}
use vana.Elf.Segments.{IsSegment, Wider, SameBase, SameEnd, EndsWith}

-- The program headers of a file from an index on.
abbrev pub HeadersAt : ElfFile → ElfHeader → ℕ → List Elf32Phdr → Type 0
HeadersAt file header i [] = Unit
HeadersAt file header i (p ∷ ps) =
    (elf_program_header file header i ≡ some p) × HeadersAt file header (i + 1) ps

abbrev pub AllSegments : List Elf32Phdr → Type 0
AllSegments [] = Unit
AllSegments (p ∷ ps) = (p.p_type ≡ pt_load → IsSegment p) × AllSegments ps

-- The virtual addresses of the file take in, of all segments to load, the `p_filesz` bytes that come
-- from the file.
abbrev pub AllCovered : ElfFile → List Elf32Phdr → Type 0
AllCovered file [] = Unit
AllCovered file (p ∷ ps) =
    (p.p_type ≡ pt_load
      → (file.virtual_base_address ≤ p.p_vaddr)
        × (p.p_vaddr + p.p_filesz ≤ file.virtual_end_address))
    × AllCovered file ps

-- The base is where one of the segments to load starts, in both kinds of addresses.
abbrev pub IsStart : ElfFile → List Elf32Phdr → Type 0
IsStart file [] = ⊥
IsStart file (p ∷ ps) =
    ((p.p_type ≡ pt_load)
      × (file.virtual_base_address ≡ p.p_vaddr)
      × (file.physical_base_address ≡ (file.elf_memory + p.p_offset) % 2 ^ 32))
    ⊎ IsStart file ps

-- The end is where the bytes from the file of one of the segments to load end, in both kinds of
-- addresses.
abbrev pub IsEnd : ElfFile → List Elf32Phdr → Type 0
IsEnd file [] = ⊥
IsEnd file (p ∷ ps) = ((p.p_type ≡ pt_load) × EndsWith file p) ⊎ IsEnd file ps

-- What the loop over the headers has done.
record Processed (file : ElfFile) (ps : List Elf32Phdr) (result : Option (ℤ × ElfFile))
    : Type 0 where
  file' : ElfFile
  returns : result ≡ some (pos 0, file')
  wider : Wider file file'
  covered : AllCovered file' ps
  start : SameBase file file' ⊎ IsStart file' ps
  last : SameEnd file file' ⊎ IsEnd file' ps
