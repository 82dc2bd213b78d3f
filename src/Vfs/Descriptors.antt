-- ===== src/Vfs/Descriptors.antt =====
-- The descriptor table: its invariant, and what descriptors stand for.
use vana.Prelude.{
  ℕ, zero, suc, ◌+◌, ◌-◌, ◌≤◌, ◌<◌, ◌≡◌, ◌≢◌, refl, sym, ◌∙◌, ap, false, ℤ, pos, Option, none, some,
  List, [], ◌∷◌, arith, length, set, get_elem?, length-set, get_elem?-set_self, get_elem?-set_ne,
  Option-cases, inl, inr, some-eq, subst, leb,
}
use vana.PathParser.{kfree}
use vana.Vfs.{
  Vfs, FileDescriptor, FileStat, SeekMode, max_file_descriptors, minus_eio, minus_einvarg,
  first_free, get_descriptor, free_descriptor, close_on, fclose, fopen, stat_on, fstat, seek_on,
  fseek, read_on, fread,
}
use vana.Vfs.Open.{Outcome, failed, opened, fopen-Outcome}

abbrev pub Numbered : {S : Type 0} → ℕ → Option (FileDescriptor S) → Type 0
Numbered i none = Unit
Numbered i (some d) = d.index ≡ i + 1

-- The table has all its entries, and a descriptor's number is its index plus one.
pub record IsValid {S : Type 0} (v : Vfs S) : Type 0 where
  pub size : length v.file_descriptors ≡ max_file_descriptors
  pub numbered :
      (i : ℕ) (o : Option (FileDescriptor S))
      → get_elem? v.file_descriptors i ≡ some o
      → Numbered i o

-- The index that `first_free` finds is in range, and its entry is empty.
pub first_free-get_elem? {ℓ} :
    {A : Type ℓ} (xs : List (Option A)) (i j : ℕ)
    → first_free xs i ≡ some j
    → (k : ℕ) × (j ≡ i + k) × (k < length xs) × (get_elem? xs k ≡ some none)
unfolding first_free
first_free-get_elem? [] i j h = cc
first_free-get_elem? (none ∷ xs) i j h = (0, ground arith, omega arith, refl)
first_free-get_elem? (some x ∷ xs) i j h =
    let (k, e, p, q) = first_free-get_elem? xs (i + 1) j h in (suc k, omega arith, omega arith, q)

-- A property of all entries is kept by a write that has it.
set-all {ℓ κ} :
    {A : Type ℓ} (P : ℕ → A → Type κ) (xs : List A) (k : ℕ) (e : A)
    → ((i : ℕ) (a : A) → get_elem? xs i ≡ some a → P i a)
    → P k e
    → (i : ℕ) (a : A) → get_elem? (set xs k e) i ≡ some a
    → P i a
set-all P [] k e old new i a h = cc
set-all P (x ∷ xs) zero e old new zero a h = subst (P zero) (some-eq h) new
set-all P (x ∷ xs) zero e old new (suc i) a h = old (suc i) a h
set-all P (x ∷ xs) (suc k) e old new zero a h = old zero a h
set-all P (x ∷ xs) (suc k) e old new (suc i) a h =
    set-all (λ j. P (suc j)) xs k e (λ j. old (suc j)) new i a h

-- Whatever `fopen` returns, it keeps the invariant.
Outcome-IsValid :
    {S : Type 0} {filename : List ℕ} {v : Vfs S} {r : ℤ × Vfs S}
    → Outcome filename v r
    → IsValid v
    → IsValid r.1
Outcome-IsValid (failed v' same l) w = record {
  size = ap (length {0}) same ∙ w.size;
  numbered = λ i o h. w.numbered i o (ap (λ t. get_elem? t i) (sym same) ∙ h);
}
Outcome-IsValid {v} (opened i root al desc v' parsed free same n p l) w = record {
  size = ap (length {0}) same ∙ length-set v.file_descriptors i (some desc) ∙ w.size;
  numbered = λ j o h.
      set-all Numbered v.file_descriptors i (some desc) w.numbered n j o
        (ap (λ t. get_elem? t j) (sym same) ∙ h);
}

-- Whatever `fopen` returns, it keeps the invariant of the descriptor table: all 512 entries, each
-- descriptor numbered by its index plus one.
pub fopen-IsValid :
    {S : Type 0} (v : Vfs S) (filename mode_str : List ℕ) (r : ℤ × Vfs S)
    → IsValid v
    → fopen filename mode_str v ≡ some r
    → IsValid r.1
fopen-IsValid v filename mode_str r w e = Outcome-IsValid (fopen-Outcome v filename mode_str r e) w

leb-false : (a b : ℕ) → b < a → leb a b ≡ false
leb-false a b h = ground arith

-- The descriptor that a number stands for.
get_descriptor-get_elem? :
    {S : Type 0} (v : Vfs S) (fd : ℕ) (d : FileDescriptor S)
    → get_descriptor (pos fd) v ≡ some d
    → (0 < fd)
      × (fd < max_file_descriptors)
      × (get_elem? v.file_descriptors (fd - 1) ≡ some (some d))
unfolding get_descriptor
get_descriptor-get_elem? v fd d h = elim (Option-cases (get_elem? v.file_descriptors (fd - 1))) [
  | inl outside ↦ ground arith
  | inr (none, empty) ↦ ground arith
  | inr (some d', there) ↦ ground arith
]

get_descriptor_of_get_elem? :
    {S : Type 0} (v : Vfs S) (fd : ℕ) (o : Option (FileDescriptor S))
    → 0 < fd
    → fd < max_file_descriptors
    → get_elem? v.file_descriptors (fd - 1) ≡ some o
    → get_descriptor (pos fd) v ≡ o
unfolding get_descriptor
get_descriptor_of_get_elem? v fd o p q h =
    rw (get_descriptor, h, leb-false fd 0 p, leb-false max_file_descriptors fd q)

-- Two states that agree at the entry of a number agree on its descriptor.
get_descriptor_same :
    {S : Type 0} (v w : Vfs S) (fd : ℕ)
    → (0 < fd → get_elem? w.file_descriptors (fd - 1) ≡ get_elem? v.file_descriptors (fd - 1))
    → get_descriptor (pos fd) w ≡ get_descriptor (pos fd) v
unfolding get_descriptor
get_descriptor_same v w zero h = refl
get_descriptor_same v w (suc fd) h = rw (h (omega arith))

module _ {S : Type 0} (v : Vfs S) (fd : ℕ) (d : FileDescriptor S) (w : IsValid v)
    (h : get_descriptor (pos fd) v ≡ some d) where
  -- The state after the descriptor is freed; `s` is what the driver leaves.
  abbrev released : S → Vfs S
  released s = record v {
    state = s;
    file_descriptors = set v.file_descriptors (fd - 1) none;
    allocs = kfree v.allocs;
  }

  same_entry : d.index - 1 ≡ fd - 1
  same_entry =
      let at = get_descriptor-get_elem? v fd d h in omega (arith, w.numbered (fd - 1) (some d) at.2)

  fclose-released :
      (d.filesystem.close_file d.private_data v.state).0 ≡ pos 0
      → fclose (pos fd) v ≡ (pos 0, released (d.filesystem.close_file d.private_data v.state).1)
  unfolding fclose close_on free_descriptor
  fclose-released e = rw (fclose, h, close_on, e, same_entry)

  released-none : (s : S) → get_descriptor (pos fd) (released s) ≡ none
  released-none s =
      let at = get_descriptor-get_elem? v fd d h in
      get_descriptor_of_get_elem? (released s) fd none at.0 at.1
        (get_elem?-set_self v.file_descriptors (fd - 1) none (omega (arith, w.size, at.0, at.1)))

  released-other :
      (s : S) (other : ℕ)
      → other ≢ fd
      → get_descriptor (pos other) (released s) ≡ get_descriptor (pos other) v
  released-other s other ne =
      let at = get_descriptor-get_elem? v fd d h in
      get_descriptor_same v (released s) other
        (λ p. get_elem?-set_ne v.file_descriptors (fd - 1) (other - 1) none (omega (arith, at.0)))

  released-IsValid : (s : S) → IsValid (released s)
  released-IsValid s = record {
    size = length-set v.file_descriptors (fd - 1) none ∙ w.size;
    numbered = set-all Numbered v.file_descriptors (fd - 1) none w.numbered tt;
  }

-- In a valid table, closing a descriptor whose driver reports success leaves its number without a
-- descriptor and every other number with the descriptor that it had, keeps the invariant, and gives
-- one kernel allocation back.
pub fclose-release :
    {S : Type 0} (v : Vfs S) (fd : ℕ) (d : FileDescriptor S)
    → IsValid v
    → get_descriptor (pos fd) v ≡ some d
    → (d.filesystem.close_file d.private_data v.state).0 ≡ pos 0
    → let (res, v') = fclose (pos fd) v in
      (res ≡ pos 0)
      × (get_descriptor (pos fd) v' ≡ none)
      × ((other : ℕ) → other ≢ fd → get_descriptor (pos other) v' ≡ get_descriptor (pos other) v)
      × IsValid v'
      × (v'.allocs.live ≡ v.allocs.live - 1)
unfolding kfree
fclose-release v fd d w h e =
    let s = (d.filesystem.close_file d.private_data v.state).1 in
    rw (fclose-released v fd d w h e) (
      refl,
      released-none v fd d w h s,
      released-other v fd d w h s,
      released-IsValid v fd d w h s,
      refl,
    )

get_descriptor_beyond :
    {S : Type 0} (v : Vfs S) (fd : ℕ) → max_file_descriptors ≤ fd → get_descriptor (pos fd) v ≡ none
unfolding get_descriptor
get_descriptor_beyond v fd h = ground arith

Outcome-index :
    {S : Type 0} {filename : List ℕ} {v : Vfs S} {r : ℤ × Vfs S}
    → Outcome filename v r
    → (n i : ℕ) → r.0 ≡ pos (n + 1)
    → first_free v.file_descriptors 0 ≡ some i
    → n ≡ i
Outcome-index (failed v' same l) n i e f = ground arith
Outcome-index (opened j root al desc v' parsed free same k p l) n i e f =
    let index = some-eq (sym free ∙ f) in ground arith

-- When only the last entry of a valid table is free, a successful `fopen` returns 512, a number
-- for which every other call of the file layer fails and changes nothing.
pub fopen_last_entry :
    {S : Type 0} (v v' : Vfs S) (filename mode_str : List ℕ) (n : ℕ)
    → first_free v.file_descriptors 0 ≡ some 511
    → fopen filename mode_str v ≡ some (pos (n + 1), v')
    → (n + 1 ≡ 512)
      × (fclose (pos (n + 1)) v' ≡ (minus_eio, v'))
      × ((size nmemb : ℕ)
          → 0 < size
          → 0 < nmemb
          → fread size nmemb (pos (n + 1)) v' ≡ (minus_einvarg, [], v'))
      × ((offset : ℕ) (whence : SeekMode) → fseek (pos (n + 1)) offset whence v' ≡ (minus_eio, v'))
      × ((stat : FileStat) → fstat (pos (n + 1)) stat v' ≡ (minus_eio, stat, v'))
unfolding fclose fread fseek fstat close_on read_on seek_on stat_on
fopen_last_entry v v' filename mode_str n f e =
    let index =
      Outcome-index (fopen-Outcome v filename mode_str (pos (n + 1), v') e) n 511 refl f in
    let shut = get_descriptor_beyond v' (n + 1) (omega (arith, index)) in
    (
      omega (arith, index),
      rw (fclose, shut, close_on),
      λ size nmemb p q. rw (fread, shut, read_on) (ground arith),
      λ offset whence. rw (fseek, shut, seek_on),
      λ stat. rw (fstat, shut, stat_on),
    )
