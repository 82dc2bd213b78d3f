-- ===== src/Gdt/Tests.antt =====
-- The encoding at segments of src/kernel.c.
use vana.Prelude.{◌>>=◌, ◌≡◌, inl, inr, refl, arith, [], ◌∷◌, map, some, none}
use vana.Gdt.{GdtStructured, encode_gdt_entry, gdt_structured_to_gdt}
use vana.Gdt.Decode.{decode, gdt_structured_to_gdt-decode, encode_gdt_entry-panics}

abbrev kernel_code : GdtStructured
kernel_code = record { base = 0; limit = 0xFFFFFFFF; access_type = 0x9A }

abbrev task_state : GdtStructured
task_state = record { base = 0x12345678; limit = 104; access_type = 0xE9 }

kernel_code_bytes :
    encode_gdt_entry kernel_code
    ≡ some (record {
      byte_0 = 0xFF;
      byte_1 = 0xFF;
      byte_2 = 0;
      byte_3 = 0;
      byte_4 = 0;
      byte_5 = 0x9A;
      byte_6 = 0xCF;
      byte_7 = 0;
    })
unfolding encode_gdt_entry
kernel_code_bytes = refl

gdt_structured_to_gdt-decode_example :
    (gdt_structured_to_gdt (kernel_code ∷ task_state ∷ []) >>= λ gs. some (map decode gs))
    ≡ some (kernel_code ∷ task_state ∷ [])
gdt_structured_to_gdt-decode_example =
    gdt_structured_to_gdt-decode (kernel_code ∷ task_state ∷ [])
      ((omega arith, omega arith, inr refl), ((omega arith, omega arith, inl (omega arith)), tt))

encode_gdt_entry-panics_example :
    encode_gdt_entry (record { base = 0; limit = 0x20000; access_type = 0x92 }) ≡ none
encode_gdt_entry-panics_example =
    encode_gdt_entry-panics (record { base = 0; limit = 0x20000; access_type = 0x92 }) (omega arith)
      (omega arith)
