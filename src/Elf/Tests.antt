-- ===== src/Elf/Tests.antt =====
-- The bounds of a small file.
use vana.Prelude.{ℕ, ◌/◌, ◌%◌, List, [], ◌∷◌, ◌++◌, replicate}
use vana.Elf.{ElfFile, ElfHeader, Elf32Phdr, elf_file_new}

abbrev word : ℕ → List ℕ
word n = n % 256 ∷ n / 256 % 256 ∷ n / 65536 % 256 ∷ n / 16777216 ∷ []

-- The header, with two program headers behind it.
abbrev header_bytes : List ℕ
header_bytes =
    (0x7f ∷ b'E' ∷ b'L' ∷ b'F' ∷ 1 ∷ 1 ∷ [])
    ++ replicate 10 0
    ++ (2 ∷ 0 ∷ 3 ∷ 0 ∷ 1 ∷ 0 ∷ 0 ∷ 0 ∷ [])
    ++ word 0x400010
    ++ word 52
    ++ replicate 8 0
    ++ (52 ∷ 0 ∷ 32 ∷ 0 ∷ 2 ∷ 0 ∷ [])
    ++ replicate 6 0

abbrev phdr_bytes : ℕ → ℕ → ℕ → List ℕ
phdr_bytes offset vaddr size =
    word 1
    ++ word offset
    ++ word vaddr
    ++ word vaddr
    ++ word size
    ++ word size
    ++ word 5
    ++ word 4096

abbrev file : ElfFile
file = record elf_file_new {
  elf_memory = 0x0100_0000;
  bytes = header_bytes ++ phdr_bytes 0x1000 0x402000 0x300 ++ phdr_bytes 0x2000 0x400000 0x80;
}

abbrev header : ElfHeader
header = record {
  e_ident = (0x7f ∷ b'E' ∷ b'L' ∷ b'F' ∷ 1 ∷ 1 ∷ []) ++ replicate 10 0;
  e_type = 2;
  e_entry = 0x400010;
  e_phoff = 52;
  e_phnum = 2;
}

abbrev phdr : ℕ → ℕ → ℕ → Elf32Phdr
phdr offset vaddr size = record {
  p_type = 1;
  p_offset = offset;
  p_vaddr = vaddr;
  p_filesz = size;
  p_memsz = size;
  p_flags = 5;
}

abbrev phdrs : List Elf32Phdr
phdrs = phdr 0x1000 0x402000 0x300 ∷ phdr 0x2000 0x400000 0x80 ∷ []
