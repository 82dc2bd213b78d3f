-- ===== src/Gdt/Decode.antt =====
-- What the processor reads from the bytes of a segment descriptor.
use vana.Prelude.{
  some-eq, ◌>>=◌, ℕ, ◌+◌, ◌*◌, ◌/◌, ◌%◌, ◌^◌, ◌≤◌, ◌<◌, ◌≡◌, ◌≢◌, ◌⊎◌, inl, inr, refl, true, false,
  bit_or, Option, some, none, List, [], ◌∷◌, map, arith, ltb, ◌==◌, ==_eq, ==_ne, Bool-cases,
  lt→ltb, le→ltb, if◌then◌else◌, holds_to, holds_to_at, ap₂,
}
use vana.Gdt.{GdtStructured, Gdt, encode_gdt_entry, gdt_structured_to_gdt}

-- The base, the limit and the access byte, by the layout in the processor's manual. With the
-- granularity bit, the limit counts pages and its low twelve bits are set.
unfoldable pub decode : Gdt → GdtStructured
decode g =
    let raw = g.byte_6 % 16 * 2 ^ 16 + g.byte_1 * 2 ^ 8 + g.byte_0 in
    record {
      base = g.byte_7 * 2 ^ 24 + g.byte_4 * 2 ^ 16 + g.byte_3 * 2 ^ 8 + g.byte_2;
      limit = if ltb g.byte_6 128 then raw else raw * 2 ^ 12 + 0xFFF;
      access_type = g.byte_5;
    }

byte_table : holds_to (λ x. bit_or 0x40 x == 0x40 + x) 16 ≡ true
byte_table = refl

page_table : holds_to (λ x. bit_or 0xC0 x == 0xC0 + x) 16 ≡ true
page_table = refl

byte_flags : (x : ℕ) → x < 16 → bit_or 0x40 x ≡ 0x40 + x
byte_flags x h =
    ==_eq (bit_or 0x40 x) (0x40 + x)
      (holds_to_at (λ x. bit_or 0x40 x == 0x40 + x) 16 x h byte_table)

page_flags : (x : ℕ) → x < 16 → bit_or 0xC0 x ≡ 0xC0 + x
page_flags x h =
    ==_eq (bit_or 0xC0 x) (0xC0 + x)
      (holds_to_at (λ x. bit_or 0xC0 x == 0xC0 + x) 16 x h page_table)

abbrev segment : ℕ → ℕ → ℕ → GdtStructured
segment base limit access = record { base = base; limit = limit; access_type = access }

-- A source that the encoding accepts: a limit of at most 65536, or one that ends a page.
abbrev pub IsEncodable : GdtStructured → Type 0
IsEncodable s =
    (s.base < 2 ^ 32) × (s.limit < 2 ^ 32) × ((s.limit ≤ 65536) ⊎ (s.limit % 2 ^ 12 ≡ 0xFFF))

decide_≤ : (m n : ℕ) → (m ≤ n) ⊎ (n < m)
decide_≤ m n = elim (Bool-cases (ltb n m)) [
  | inl e ↦ inr (ground arith)
  | inr e ↦ inl (ground arith)
]

base_bytes :
    (b : ℕ)
    → b < 2 ^ 32
    → b / 2 ^ 24 % 256 * 2 ^ 24 + b / 2 ^ 16 % 256 * 2 ^ 16 + b / 2 ^ 8 % 256 * 2 ^ 8 + b % 256 ≡ b
base_bytes b h = omega arith

raw_small :
    (l : ℕ)
    → l < 2 ^ 20
    → (0x40 + l / 2 ^ 16 % 16) % 16 * 2 ^ 16 + l / 2 ^ 8 % 256 * 2 ^ 8 + l % 256 ≡ l
raw_small l h = omega arith

raw_large :
    (l : ℕ)
    → l < 2 ^ 20
    → (0xC0 + l / 2 ^ 16 % 16) % 16 * 2 ^ 16 + l / 2 ^ 8 % 256 * 2 ^ 8 + l % 256 ≡ l
raw_large l h = omega arith

small_flag : (x : ℕ) → x < 16 → ltb (0x40 + x) 128 ≡ true
small_flag x h = lt→ltb (0x40 + x) 128 (omega arith)

large_flag : (x : ℕ) → ltb (0xC0 + x) 128 ≡ false
large_flag x = le→ltb (0xC0 + x) 128 (omega arith)

pages : (l : ℕ) → l % 2 ^ 12 ≡ 0xFFF → l / 2 ^ 12 * 2 ^ 12 + 0xFFF ≡ l
pages l h = omega arith

abbrev decoded : GdtStructured → Option GdtStructured
decoded s = do g ← encode_gdt_entry s; some (decode g)

decoded-bytes : (s : GdtStructured) → s.base < 2 ^ 32 → s.limit ≤ 65536 → decoded s ≡ some s
unfolding decode encode_gdt_entry
decoded-bytes s b small =
    let nibble = s.limit / 2 ^ 16 % 16 in
    rw
      (
        le→ltb 65536 s.limit small,
        byte_flags nibble (omega arith),
        small_flag nibble (omega arith),
        base_bytes s.base b,
        raw_small s.limit (omega arith),
      )
      refl

decoded-pages :
    (s : GdtStructured)
    → s.base < 2 ^ 32
    → s.limit < 2 ^ 32
    → 65536 < s.limit
    → s.limit % 2 ^ 12 ≡ 0xFFF
    → decoded s ≡ some s
unfolding decode encode_gdt_entry
decoded-pages s b l large page =
    let nibble = s.limit / 2 ^ 12 / 2 ^ 16 % 16 in
    rw
      (
        lt→ltb 65536 s.limit large,
        page,
        page_flags nibble (omega arith),
        large_flag nibble,
        base_bytes s.base b,
        raw_large (s.limit / 2 ^ 12) (omega arith),
        pages s.limit page,
      )
      refl

-- A descriptor of a 32-bit base, and of a 32-bit limit that is at most 65536 or ends a page, is
-- encoded, and the processor reads the same base, limit and access byte from the bytes.
pub encode_gdt_entry-decode : (s : GdtStructured) → IsEncodable s → decoded s ≡ some s
encode_gdt_entry-decode s (b, l, inl small) = decoded-bytes s b small
encode_gdt_entry-decode s (b, l, inr page) = elim (decide_≤ s.limit 65536) [
  | inl small ↦ decoded-bytes s b small
  | inr large ↦ decoded-pages s b l large page
]

-- Any other limit panics.
pub encode_gdt_entry-panics :
    (s : GdtStructured) → 65536 < s.limit → s.limit % 2 ^ 12 ≢ 0xFFF → encode_gdt_entry s ≡ none
unfolding encode_gdt_entry
encode_gdt_entry-panics s large page =
    rw (lt→ltb 65536 s.limit large, ==_ne (s.limit % 2 ^ 12) 0xFFF page) refl

-- All of the list.
abbrev pub AllEncodable : List GdtStructured → Type 0
AllEncodable [] = Unit
AllEncodable (s ∷ ss) = IsEncodable s × AllEncodable ss

result {ℓ κ} :
    {A : Type ℓ} {B : Type κ} (o : Option A) (f : A → B) (b : B)
    → (o >>= λ a. some (f a)) ≡ some b
    → (a : A) × (o ≡ some a) × (f a ≡ b)
result none f b h = absurd (cc)
result (some a) f b h = (a, refl, some-eq h)

-- A table of descriptors, each of a 32-bit base and a 32-bit limit that is at most 65536 or ends a
-- page, is encoded entry by entry, and the processor reads all of them back.
pub gdt_structured_to_gdt-decode :
    (ss : List GdtStructured)
    → AllEncodable ss
    → (gdt_structured_to_gdt ss >>= λ gs. some (map decode gs)) ≡ some ss
unfolding gdt_structured_to_gdt
gdt_structured_to_gdt-decode [] h = refl
gdt_structured_to_gdt-decode (s ∷ ss) h =
    let (g, e, d) = result (encode_gdt_entry s) decode s (encode_gdt_entry-decode s h.0) in
    let (gs, es, ds) =
      result (gdt_structured_to_gdt ss) (map decode) ss (gdt_structured_to_gdt-decode ss h.1) in
    rw (e, es) (ap₂ (λ t ts. some (t ∷ ts)) d ds)
