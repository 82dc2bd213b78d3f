-- ===== src/Elf.antt =====
-- The ELF loader of src/loader/formats/elfloader.c and elf.h. A loaded file is the bytes at the
-- address `elf_memory`; the loader's structure has the other addresses. `none` is a read behind the
-- bytes of the file, or through a null pointer.
pub mod Bounds
pub mod Load
pub mod Segments
mod Tests
use vana.Prelude.{
  ℕ, zero, suc, ◌+◌, ◌*◌, ◌%◌, ◌^◌, Bool, not, ◌&&◌, ◌||◌, true, false, ℤ, pos, negsuc, Option,
  none, some, List, [], ◌∷◌, ◌>>=◌, leb, ◌==◌, if◌then◌else◌, get_or, length, drop, take,
}
use vana.Memory.{memcmp}

abbrev pub program_virtual_address : ℕ
program_virtual_address = 0x400000

abbrev pub pt_load : ℕ
pt_load = 1

-- The fields of `struct elf_header` that the loader reads.
pub record ElfHeader : Type 0 where
  pub e_ident : List ℕ
  pub e_type : ℕ
  pub e_entry : ℕ
  pub e_phoff : ℕ
  pub e_phnum : ℕ

-- The fields of `struct elf32_phdr` that the kernel reads.
pub record Elf32Phdr : Type 0 where
  pub p_type : ℕ
  pub p_offset : ℕ
  pub p_vaddr : ℕ
  pub p_filesz : ℕ
  pub p_memsz : ℕ
  pub p_flags : ℕ

-- `bytes` are those at `elf_memory`.
pub record ElfFile : Type 0 where
  pub elf_memory : ℕ
  pub bytes : List ℕ
  pub virtual_base_address : ℕ
  pub virtual_end_address : ℕ
  pub physical_base_address : ℕ
  pub physical_end_address : ℕ

abbrev pub le16 : List ℕ → ℕ → ℕ
le16 bytes i = get_or bytes i 0 + 256 * get_or bytes (i + 1) 0

abbrev pub le32 : List ℕ → ℕ → ℕ
le32 bytes i = le16 bytes i + 2 ^ 16 * le16 bytes (i + 2)

abbrev pub elf_header_size : ℕ
elf_header_size = 52

abbrev pub elf32_phdr_size : ℕ
elf32_phdr_size = 32

unfoldable pub elf_header : ElfFile → Option ElfHeader
elf_header file =
    if leb elf_header_size (length file.bytes)
    then some (record {
      e_ident = take 16 file.bytes;
      e_type = le16 file.bytes 16;
      e_entry = le32 file.bytes 24;
      e_phoff = le32 file.bytes 28;
      e_phnum = le16 file.bytes 44;
    })
    else none

abbrev pub read_phdr : List ℕ → Elf32Phdr
read_phdr bytes = record {
  p_type = le32 bytes 0;
  p_offset = le32 bytes 4;
  p_vaddr = le32 bytes 8;
  p_filesz = le32 bytes 16;
  p_memsz = le32 bytes 20;
  p_flags = le32 bytes 24;
}

-- The program header of an index. A header at the offset 0 is read through the null pointer.
unfoldable pub elf_program_header : ElfFile → ElfHeader → ℕ → Option Elf32Phdr
elf_program_header file header index =
    let start = header.e_phoff + elf32_phdr_size * index in
    if not (header.e_phoff == 0) && leb (start + elf32_phdr_size) (length file.bytes)
    then some (read_phdr (drop start file.bytes))
    else none

abbrev pub elf_signature : List ℕ
elf_signature = 0x7f ∷ b'E' ∷ b'L' ∷ b'F' ∷ []

abbrev pub is_zero : ℤ → Bool
is_zero (pos n) = n == 0
is_zero (negsuc n) = false

abbrev pub is_negative : ℤ → Bool
is_negative (pos n) = false
is_negative (negsuc n) = true

unfoldable pub elf_valid_signature : ElfHeader → Option Bool
elf_valid_signature header = do order ← memcmp header.e_ident elf_signature 4; some (is_zero order)

-- `ELFCLASSNONE` or `ELFCLASS32` at `EI_CLASS`.
unfoldable pub elf_valid_class : ElfHeader → Bool
elf_valid_class header = get_or header.e_ident 4 0 == 0 || get_or header.e_ident 4 0 == 1

-- `ELFDATANONE` or `ELFDATA2LSB` at `EI_DATA`.
unfoldable pub elf_valid_encoding : ElfHeader → Bool
elf_valid_encoding header = get_or header.e_ident 5 0 == 0 || get_or header.e_ident 5 0 == 1

-- `ET_EXEC`
unfoldable pub elf_is_executable : ElfHeader → Bool
elf_is_executable header = header.e_type == 2 && leb program_virtual_address header.e_entry

unfoldable pub elf_has_program_header : ElfHeader → Bool
elf_has_program_header header = not (header.e_phoff == 0)

-- `-EINFORMAT` if a test fails.
unfoldable pub elf_validate_loaded : ElfHeader → Option ℤ
elf_validate_loaded header = do
  signature ← elf_valid_signature header
  some (
      if signature
        && elf_valid_class header
        && elf_valid_encoding header
        && elf_has_program_header header
        && elf_is_executable header
      then pos 0
      else negsuc 8)

unfoldable pub elf_phdr_phys_address : ElfFile → Elf32Phdr → ℕ
elf_phdr_phys_address file phdr = (file.elf_memory + phdr.p_offset) % 2 ^ 32

-- The two halves of `elf_process_phdr_pt_load`.
unfoldable pub lower_base : ElfFile → Elf32Phdr → ElfFile
lower_base file phdr =
    if leb phdr.p_vaddr file.virtual_base_address || file.virtual_base_address == 0x00
    then record file {
      virtual_base_address = phdr.p_vaddr;
      physical_base_address = (file.elf_memory + phdr.p_offset) % 2 ^ 32;
    }
    else file

unfoldable pub raise_end : ElfFile → Elf32Phdr → ElfFile
raise_end file phdr =
    let end_virtual_address = (phdr.p_vaddr + phdr.p_filesz) % 2 ^ 32 in
    if leb file.virtual_end_address end_virtual_address || file.virtual_end_address == 0x00
    then record file {
      virtual_end_address = end_virtual_address;
      physical_end_address = (file.elf_memory + phdr.p_offset + phdr.p_filesz) % 2 ^ 32;
    }
    else file

unfoldable pub elf_process_phdr_pt_load : ElfFile → Elf32Phdr → ℤ × ElfFile
elf_process_phdr_pt_load file phdr = (pos 0, raise_end (lower_base file phdr) phdr)

unfoldable pub elf_process_pheader : ElfFile → Elf32Phdr → ℤ × ElfFile
elf_process_pheader file phdr =
    if phdr.p_type == pt_load then elf_process_phdr_pt_load file phdr else (pos 0, file)

-- `n` headers are left, from the index `i` on.
unfoldable pub pheaders_loop : ElfHeader → ℕ → ℕ → ℤ → ElfFile → Option (ℤ × ElfFile)
pheaders_loop header zero i res file = some (res, file)
pheaders_loop header (suc n) i res file = do
  phdr ← elf_program_header file header i
  let (res', file') = elf_process_pheader file phdr
  let rest = pheaders_loop header n (i + 1) res' file'
  if is_negative res' then some (res', file') else rest

unfoldable pub elf_process_pheaders : ElfFile → Option (ℤ × ElfFile)
elf_process_pheaders file = do
  header ← elf_header file
  pheaders_loop header header.e_phnum 0 (pos 0) file

unfoldable pub elf_process_loaded : ElfFile → Option (ℤ × ElfFile)
elf_process_loaded file = do
  header ← elf_header file
  res ← elf_validate_loaded header
  if is_negative res then some (res, file) else elf_process_pheaders file

-- A new file, before anything is loaded.
abbrev pub elf_file_new : ElfFile
elf_file_new = record {
  elf_memory = 0;
  bytes = [];
  virtual_base_address = 0;
  virtual_end_address = 0;
  physical_base_address = 0;
  physical_end_address = 0;
}
