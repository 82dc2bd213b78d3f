-- ===== src/Fat16/Directory/Search.antt =====
-- The search in a directory of files: which entry it gives.
use vana.Prelude.{
  negsuc, ◌≤◌, ◌<◌, ◌↔◌, map, take, replicate, length-append, ==_eq, some-eq, ℕ, suc, ◌+◌, ◌-◌, ◌≡◌,
  refl, sym, ap, ◌∙◌, Bool, true, false, ◌*◌, Option-cases, inl, inr, Option, some, none, List, [],
  ◌∷◌, ◌++◌, arith, if◌then◌else◌, length, get_elem?, get_elem?-append, append-shift, length-snoc,
  pos, ℤ,
}
use vana.Strings.{tolower, istrncmp}
use vana.Strings.Lengths.{IsText}
use vana.Strings.Compare.{istrncmp_iff}
use vana.Fat16.Names.Padded.{IsSolid, padded, dotted, get_full_relative_filename-padded}
use vana.PathParser
use vana.PathParser.{Allocs, max_path}
use vana.Fat16.{FatDirectoryItem, Loaded, FatItem, Mount, kzalloc, is_ok}
use vana.Fat16.Names.{get_full_relative_filename}
use vana.Fat16.Directory.{
  is_subdirectory, clone_directory_item, new_fat_item_for_directory_item, find_loop,
  find_item_in_directory,
}

-- Whether an entry has a name, as the search compares them: none if the comparison leaves a buffer.
abbrev pub named : FatDirectoryItem → List ℕ → Option Bool
named item name = elim (get_full_relative_filename item max_path) [
  | none ↦ none
  | some tmp ↦ elim (istrncmp tmp (name ++ (0 ∷ [])) max_path) [
    | none ↦ none
    | some order ↦ some (is_ok order)
  ]
]

-- An entry of a file, and whether it has the name.
abbrev pub IsFileEntry : List ℕ → FatDirectoryItem × Bool → Type 0
IsFileEntry name (item, b) = (is_subdirectory item ≡ false) × (named item name ≡ some b)

abbrev pub AllFiles : List ℕ → List (FatDirectoryItem × Bool) → Type 0
AllFiles name [] = Unit
AllFiles name (e ∷ es) = IsFileEntry name e × AllFiles name es

abbrev pub entries : List (FatDirectoryItem × Bool) → List FatDirectoryItem
entries [] = []
entries ((item, b) ∷ es) = item ∷ entries es

-- The last entry with the name, or what was there before.
abbrev pub last_named : List (FatDirectoryItem × Bool) → Option FatItem → Option FatItem
last_named [] found = found
last_named ((item, b) ∷ es) found =
    last_named es (if b then some (FatItem.file (some item)) else found)

-- How many have it.
abbrev pub count_named : List (FatDirectoryItem × Bool) → ℕ
count_named [] = 0
count_named ((item, b) ∷ es) = let rest = count_named es in if b then rest + 1 else rest

-- A heap on which all allocations succeed, with more allocations live than before.
abbrev pub with_live : Mount → ℕ → Mount
with_live m n = record m { allocs = record { answers = []; live = n } }

two_more : (n : ℕ) → n + 1 + 1 ≡ n + 2
two_more n = omega arith

named-none :
    (item : FatDirectoryItem) (name : List ℕ) {b : Bool}
    → get_full_relative_filename item max_path ≡ none
    → named item name ≡ some b
    → ⊥
named-none item name e h = ground arith

named-order :
    (item : FatDirectoryItem) (name : List ℕ) {tmp : List ℕ} {b : Bool}
    → get_full_relative_filename item max_path ≡ some tmp
    → istrncmp tmp (name ++ (0 ∷ [])) max_path ≡ none
    → named item name ≡ some b
    → ⊥
named-order item name e f h = ground arith

named_ok :
    (item : FatDirectoryItem) (name : List ℕ) {tmp : List ℕ} {b : Bool} {order : ℤ}
    → get_full_relative_filename item max_path ≡ some tmp
    → istrncmp tmp (name ++ (0 ∷ [])) max_path ≡ some order
    → named item name ≡ some b
    → is_ok order ≡ b
named_ok item name e f h = ground arith

-- The parts of a comparison that stays in its buffers.
named-parts :
    (item : FatDirectoryItem) (name : List ℕ) (b : Bool)
    → named item name ≡ some b
    → (tmp : List ℕ) × (order : ℤ) × (get_full_relative_filename item max_path ≡ some tmp)
      × (istrncmp tmp (name ++ (0 ∷ [])) max_path ≡ some order)
      × (is_ok order ≡ b)
named-parts item name b h = elim (Option-cases (get_full_relative_filename item max_path)) [
  | inl e ↦ absurd (named-none item name e h)
  | inr (tmp, e) ↦ elim (Option-cases (istrncmp tmp (name ++ (0 ∷ [])) max_path)) [
    | inl f ↦ absurd (named-order item name e f h)
    | inr (order, f) ↦ (tmp, order, e, f, named_ok item name e f h)
  ]
]

live_sum :
    (b : Bool) (n c : ℕ) → (if b then n + 2 else n) + 2 * c ≡ n + 2 * (if b then c + 1 else c)
live_sum true n c = omega arith
live_sum false n c = omega arith

IsSolid-IsText : (s : List ℕ) → IsSolid s → IsText s
IsSolid-IsText [] h = tt
IsSolid-IsText (c ∷ s) h = (h.0, IsSolid-IsText s h.2)

IsText-append : (s t : List ℕ) → IsText s → IsText t → IsText (s ++ t)
IsText-append [] t h k = k
IsText-append (c ∷ s) t h k = (h.0, IsText-append s t h.1 k)

dotted-IsText : (ext : List ℕ) → IsSolid ext → IsText (dotted ext)
dotted-IsText [] h = tt
dotted-IsText (c ∷ ext) h = (omega arith, IsSolid-IsText (c ∷ ext) h)

full_name-IsText : (name ext : List ℕ) → IsSolid name → IsSolid ext → IsText (name ++ dotted ext)
full_name-IsText name ext a b =
    IsText-append name (dotted ext) (IsSolid-IsText name a) (dotted-IsText ext b)

length-dotted : (ext : List ℕ) → length ext ≤ 3 → length (dotted ext) ≤ 4
length-dotted [] h = omega arith
length-dotted (c ∷ ext) h = omega arith

short_name :
    (name ext : List ℕ) → length name ≤ 8 → length ext ≤ 3 → length (name ++ dotted ext) < max_path
short_name name ext l k = omega (arith, length-append name (dotted ext), length-dotted ext k)

zero_order : (order : ℤ) → is_ok order ≡ true → order ≡ pos 0
zero_order (pos n) h = ap pos (==_eq n 0 h)
zero_order (negsuc n) h = cc

named_equal :
    (item : FatDirectoryItem) (part : List ℕ) {tmp : List ℕ}
    → get_full_relative_filename item max_path ≡ some tmp
    → named item part ≡ some true
    → istrncmp tmp (part ++ 0 ∷ []) max_path ≡ some (pos 0)
named_equal item part {tmp} read h =
    let (tmp', order, e, f, k) = named-parts item part true h in
    rw (some-eq (sym read ∙ e)) (f ∙ ap some (zero_order order k))

-- The name of an entry as text.
abbrev pub full_name : List ℕ → List ℕ → List ℕ
full_name name ext = name ++ dotted ext

buffer_room : (n : ℕ) → n < max_path → max_path - n ≡ suc (max_path - n - 1)
buffer_room n h = omega arith

buffer :
    (n : ℕ) → n < max_path → replicate {A = ℕ} (max_path - n) 0 ≡ 0 ∷ replicate (max_path - n - 1) 0
buffer n h = ap (λ k. replicate {A = ℕ} k 0) (buffer_room n h)

-- An entry whose name and extension are padded as on the disk has a name exactly when they are the
-- same without regard to case, as far as the buffer of the path goes.
pub named_iff :
    (item : FatDirectoryItem) (name ext part : List ℕ)
    → item.filename ≡ padded 8 name
    → item.ext ≡ padded 3 ext
    → IsSolid name
    → IsSolid ext
    → length name ≤ 8
    → length ext ≤ 3
    → IsText part
    → (named item part ≡ some true)
      ↔ (map tolower (take max_path (full_name name ext)) ≡ map tolower (take max_path part))
named_iff item name ext part f e a b l k t =
    let full = full_name name ext in
    let same =
      istrncmp_iff full part (replicate (max_path - length full - 1) 0) [] max_path
        (full_name-IsText name ext a b) t in
    let read =
      get_full_relative_filename-padded item name ext max_path f e a b l k
      ∙ ap (λ r. some (full ++ r)) (buffer (length full) (short_name name ext l k)) in
    (λ h. same.0 (named_equal item part read h), λ h. rw (named, read, same.1 h) refl)

module _ (sector : ℕ → List ℕ) (fuel : ℕ) (m : Mount) where
  new_fat_item-file :
      (n : ℕ) (item : FatDirectoryItem)
      → is_subdirectory item ≡ false
      → new_fat_item_for_directory_item sector fuel item (with_live m n)
        ≡ some (some (FatItem.file (some item)), with_live m (n + 2))
  unfolding new_fat_item_for_directory_item clone_directory_item kzalloc PathParser.kzalloc
  new_fat_item-file n item h =
      rw h (ap (λ l. some (some (FatItem.file (some item)), with_live m l)) (two_more n))

  -- One round of the loop.
  find_loop-step :
      (rounds n i : ℕ) (items : List FatDirectoryItem) (name : List ℕ) (item : FatDirectoryItem)
      (b : Bool) (found : Option FatItem)
      → get_elem? items i ≡ some item
      → IsFileEntry name (item, b)
      → find_loop sector fuel (suc rounds) i items name found (with_live m n)
        ≡ find_loop sector fuel rounds
            (i + 1)
            items
            name
            (if b then some (FatItem.file (some item)) else found)
            (with_live m (if b then n + 2 else n))
  unfolding find_loop
  find_loop-step rounds n i items name item true found g (f, h) =
      let (tmp, order, e, o, k) = named-parts item name true h in
      rw (g, e, o, k, new_fat_item-file n item f) refl
  find_loop-step rounds n i items name item false found g (f, h) =
      let (tmp, order, e, o, k) = named-parts item name false h in rw (g, e, o, k) refl

  find_loop-last :
      (es : List (FatDirectoryItem × Bool)) (pre more : List FatDirectoryItem) (name : List ℕ)
      (n : ℕ) (found : Option FatItem)
      → AllFiles name es
      → find_loop sector fuel
          (length es)
          (length pre)
          (pre ++ (entries es ++ more))
          name
          found
          (with_live m n)
        ≡ some (last_named es found, with_live m (n + 2 * count_named es))
  unfolding find_loop
  find_loop-last [] pre more name n found h = ap (λ l. some (found, with_live m l)) (omega arith)
  find_loop-last ((item, b) ∷ es) pre more name n found h =
      let others = entries es ++ more in
      let found' : Option FatItem = if b then some (FatItem.file (some item)) else found in
      find_loop-step (length es) n (length pre) (pre ++ (item ∷ others)) name item b found
        (get_elem?-append pre item others) h.0
      ∙ rw (append-shift pre item others, sym (length-snoc pre item))
          (find_loop-last es (pre ++ item ∷ []) more name (if b then n + 2 else n) found' h.1)
      ∙ ap (λ l. some (last_named es found', with_live m l)) (live_sum b n (count_named es))

  -- In a directory of files, on a heap whose allocations succeed, the search looks at the first
  -- `total` entries only. It gives a copy of the last of them that has the name, or nothing if none
  -- has it. Each entry with the name leaves two more allocations live, also those that are not given.
  pub find_item_in_directory-last :
      (es : List (FatDirectoryItem × Bool)) (more : List FatDirectoryItem) (name : List ℕ)
      (n sector_pos ending : ℕ)
      → AllFiles name es
      → find_item_in_directory sector fuel
          (Loaded.live (record {
            item = entries es ++ more;
            total = pos (length es);
            sector_pos = sector_pos;
            ending_sector_pos = ending;
          }))
          name
          (with_live m n)
        ≡ some (last_named es none, with_live m (n + 2 * count_named es))
  unfolding find_item_in_directory
  find_item_in_directory-last es more name n sector_pos ending h =
      find_loop-last es [] more name n none h
