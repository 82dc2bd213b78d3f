-- ===== src/Elf/Segments.antt =====
-- What one segment does to the addresses of a file.
use vana.Prelude.{
  ℕ, ◌+◌, ◌%◌, ◌^◌, ◌≤◌, ◌<◌, ◌≡◌, ◌≢◌, ◌⊎◌, inl, inr, refl, ◌∙◌, true, false, Bool-cases, ◌||◌,
  arith, leb, ◌==◌,
}
use vana.Elf.{ElfFile, Elf32Phdr, elf_process_phdr_pt_load, lower_base, raise_end}

-- A segment to load: it starts behind the address 0, and ends below 2 ^ 32.
abbrev pub IsSegment : Elf32Phdr → Type 0
IsSegment p = (p.p_vaddr ≢ 0) × (p.p_vaddr + p.p_filesz < 2 ^ 32)

-- What a header may change.
pub record Wider (file file' : ElfFile) : Type 0 where
  pub bytes : file'.bytes ≡ file.bytes
  pub memory : file'.elf_memory ≡ file.elf_memory
  pub base :
      file.virtual_base_address ≢ 0
      → (file'.virtual_base_address ≢ 0) × (file'.virtual_base_address ≤ file.virtual_base_address)
  pub end : file.virtual_end_address ≤ file'.virtual_end_address

-- The base as it was.
abbrev pub SameBase : ElfFile → ElfFile → Type 0
SameBase file file' =
    (file'.virtual_base_address ≡ file.virtual_base_address)
    × (file'.physical_base_address ≡ file.physical_base_address)

-- The end as it was.
abbrev pub SameEnd : ElfFile → ElfFile → Type 0
SameEnd file file' =
    (file'.virtual_end_address ≡ file.virtual_end_address)
    × (file'.physical_end_address ≡ file.physical_end_address)

-- The end is where the bytes from the file of a segment end, in both kinds of addresses.
abbrev pub EndsWith : ElfFile → Elf32Phdr → Type 0
EndsWith file p =
    (file.virtual_end_address ≡ p.p_vaddr + p.p_filesz)
    × (file.physical_end_address ≡ (file.elf_memory + p.p_offset + p.p_filesz) % 2 ^ 32)

pub record Loaded (file : ElfFile) (p : Elf32Phdr) (file' : ElfFile) : Type 0 where
  pub wider : Wider file file'
  pub behind : file'.virtual_base_address ≢ 0
  pub from : file'.virtual_base_address ≤ p.p_vaddr
  pub to : p.p_vaddr + p.p_filesz ≤ file'.virtual_end_address
  pub start :
      SameBase file file'
      ⊎ ((file'.virtual_base_address ≡ p.p_vaddr)
          × (file'.physical_base_address ≡ (file'.elf_memory + p.p_offset) % 2 ^ 32))
  pub last : SameEnd file file' ⊎ EndsWith file' p

lower_cases :
    (v b : ℕ)
    → (((leb v b || b == 0) ≡ true) × (b ≢ 0 → v ≤ b))
      ⊎ (((leb v b || b == 0) ≡ false) × (b < v) × (b ≢ 0))
lower_cases v b = elim (Bool-cases (leb v b || b == 0)) [
  | inl e ↦ inl (e, λ n. ground arith)
  | inr e ↦ inr (e, ground arith, ground arith)
]

raise_cases :
    (x e : ℕ) → (((leb x e || x == 0) ≡ true) × (x ≤ e)) ⊎ (((leb x e || x == 0) ≡ false) × (e < x))
raise_cases x e = elim (Bool-cases (leb x e || x == 0)) [
  | inl h ↦ inl (h, ground arith)
  | inr h ↦ inr (h, ground arith)
]

-- What one half has done, with the other addresses as they were.
record Lowered (file : ElfFile) (p : Elf32Phdr) (file' : ElfFile) : Type 0 where
  wider : Wider file file'
  behind : file'.virtual_base_address ≢ 0
  from : file'.virtual_base_address ≤ p.p_vaddr
  start :
      SameBase file file'
      ⊎ ((file'.virtual_base_address ≡ p.p_vaddr)
          × (file'.physical_base_address ≡ (file'.elf_memory + p.p_offset) % 2 ^ 32))
  same_end : SameEnd file file'

lower_base-Lowered :
    (file : ElfFile) (p : Elf32Phdr) → p.p_vaddr ≢ 0 → Lowered file p (lower_base file p)
unfolding lower_base
lower_base-Lowered file p z = elim (lower_cases p.p_vaddr file.virtual_base_address) [
  | inl (e, l) ↦ rw e record {
    wider = record { bytes = refl; memory = refl; base = λ n. (z, l n); end = omega arith };
    behind = z;
    from = omega arith;
    start = inr (refl, refl);
    same_end = (refl, refl);
  }
  | inr (e, l, n) ↦ rw e record {
    wider = record { bytes = refl; memory = refl; base = λ n. (n, omega arith); end = omega arith };
    behind = n;
    from = omega arith;
    start = inl (refl, refl);
    same_end = (refl, refl);
  }
]

-- The end has moved, and the base is as it was.
record Raised (file : ElfFile) (p : Elf32Phdr) (file' : ElfFile) : Type 0 where
  bytes : file'.bytes ≡ file.bytes
  memory : file'.elf_memory ≡ file.elf_memory
  base : SameBase file file'
  end : file.virtual_end_address ≤ file'.virtual_end_address
  to : p.p_vaddr + p.p_filesz ≤ file'.virtual_end_address
  last : SameEnd file file' ⊎ EndsWith file' p

no_wrap : (x : ℕ) → x < 2 ^ 32 → x % 2 ^ 32 ≡ x
no_wrap x h = omega arith

raise_end-Raised :
    (file : ElfFile) (p : Elf32Phdr)
    → p.p_vaddr + p.p_filesz < 2 ^ 32
    → Raised file p (raise_end file p)
unfolding raise_end
raise_end-Raised file p h =
    let x = p.p_vaddr + p.p_filesz in
    rw (no_wrap x h) (elim (raise_cases file.virtual_end_address x) [
      | inl (e, l) ↦ rw e record {
        bytes = refl;
        memory = refl;
        base = (refl, refl);
        end = l;
        to = omega arith;
        last = inr (refl, refl);
      }
      | inr (e, l) ↦ rw e record {
        bytes = refl;
        memory = refl;
        base = (refl, refl);
        end = omega arith;
        to = omega arith;
        last = inl (refl, refl);
      }
    ])

pub load_segment :
    (file : ElfFile) (p : Elf32Phdr)
    → IsSegment p
    → Loaded file p (elf_process_phdr_pt_load file p).1
unfolding elf_process_phdr_pt_load
load_segment file p (z, h) =
    let f1 = lower_base file p in
    let l = lower_base-Lowered file p z in
    let r = raise_end-Raised f1 p h in
    let (b, ph) = r.base in
    record {
      wider = record {
        bytes = r.bytes ∙ l.wider.bytes;
        memory = r.memory ∙ l.wider.memory;
        base = λ n. rw b (l.wider.base n);
        end = omega (arith, l.wider.end, r.end);
      };
      behind = rw b l.behind;
      from = rw b l.from;
      to = r.to;
      start = rw (b, ph, r.memory) l.start;
      last = elim r.last [
        | inl (v, w) ↦ inl (v ∙ l.same_end.0, w ∙ l.same_end.1)
        | inr there ↦ inr there
      ];
    }

pub Wider-refl : (file : ElfFile) → Wider file file
Wider-refl file = record {
  bytes = refl;
  memory = refl;
  base = λ n. (n, omega arith);
  end = omega arith;
}

pub Wider-trans : (f g h : ElfFile) → Wider f g → Wider g h → Wider f h
Wider-trans f g h v w = record {
  bytes = w.bytes ∙ v.bytes;
  memory = w.memory ∙ v.memory;
  base = λ n. let (m, l) = v.base n in let (k, o) = w.base m in (k, omega (arith, l, o));
  end = omega (arith, v.end, w.end);
}
