-- ===== src/Gdt.antt =====
-- The encoding of segment descriptors of src/gdt/gdt.c. A field of 32 bits is a number below 2 ^ 32;
-- a descriptor is its eight bytes.
pub mod Decode
mod Tests
use vana.Prelude.{
  ℕ, ◌+◌, ◌*◌, ◌/◌, ◌%◌, ◌^◌, bit_or, not, ◌&&◌, Option, none, some, List, [], ◌∷◌, ltb, ◌==◌,
  if◌then◌else◌, ◌>>=◌,
}

-- `struct gdt_structured`. Its type is spelled `access_type`.
pub record GdtStructured : Type 0 where
  pub base : ℕ
  pub limit : ℕ
  pub access_type : ℕ

-- The eight bytes that `struct gdt` lays over, `target[0]` to `target[7]`.
pub record Gdt : Type 0 where
  pub byte_0 : ℕ
  pub byte_1 : ℕ
  pub byte_2 : ℕ
  pub byte_3 : ℕ
  pub byte_4 : ℕ
  pub byte_5 : ℕ
  pub byte_6 : ℕ
  pub byte_7 : ℕ

-- `none` is the panic, which does not return.
unfoldable pub encode_gdt_entry : GdtStructured → Option Gdt
encode_gdt_entry source =
    let large = ltb 65536 source.limit in
    let limit = if large then source.limit / 2 ^ 12 else source.limit in
    let flags = if large then 0xC0 else 0x40 in
    if large && not (source.limit % 2 ^ 12 == 0xFFF)
    then none
    else some (record {
      byte_0 = limit % 256;
      byte_1 = limit / 2 ^ 8 % 256;
      byte_2 = source.base % 256;
      byte_3 = source.base / 2 ^ 8 % 256;
      byte_4 = source.base / 2 ^ 16 % 256;
      byte_5 = source.access_type;
      byte_6 = bit_or flags (limit / 2 ^ 16 % 16);
      byte_7 = source.base / 2 ^ 24 % 256;
    })

-- All entries of the array.
unfoldable pub gdt_structured_to_gdt : List GdtStructured → Option (List Gdt)
gdt_structured_to_gdt [] = some []
gdt_structured_to_gdt (source ∷ structured_gdt) = do
  entry ← encode_gdt_entry source
  gdt ← gdt_structured_to_gdt structured_gdt
  some (entry ∷ gdt)
