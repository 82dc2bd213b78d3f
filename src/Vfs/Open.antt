-- ===== src/Vfs/Open.antt =====
-- The outcomes of `fopen`: what becomes of the descriptor table and of the kernel heap.
use vana.Prelude.{
  ℕ, ◌+◌, ◌*◌, ◌<◌, ◌≡◌, refl, ◌∙◌, ap, true, Bool, ℤ, pos, Option, none, some, List, [], ◌∷◌,
  arith, length, set, Option-cases, Bool-cases, inl, inr, if◌then◌else◌, some-eq, subst,
}
use vana.PathParser
use vana.PathParser.{Allocs, PathRoot, kzalloc, kfree}
use vana.PathParser.Leaks.{parse-live, free-live, root_held, kzalloc-live}
use vana.Vfs.{
  Vfs, Filesystem, FileDescriptor, FileMode, Disk, first_free, open_failed, open_descriptor,
  open_on, open_mode, open_disk, open_root, fopen, get_mode_by_string, is_err, is_null, disk_get,
}

done_one : (b : Bool) → b ≡ true → ◌≡◌ {A = ℕ} (if b then 1 else 0) 1
done_one b e = rw e

-- How the state after a call of `fopen` of a name relates to the state `v` before it. The allocations
-- are those of the file layer and of the path parser; what a driver takes from the heap belongs to
-- the driver's state.
pub data Outcome {S : Type 0} (filename : List ℕ) (v : Vfs S) : ℤ × Vfs S → Type 0 where
  failed :
      (v' : Vfs S)
      → v'.file_descriptors ≡ v.file_descriptors
      → v'.allocs.live ≡ v.allocs.live
      → Outcome filename v (pos 0, v')
  opened :
      (i : ℕ) (root : PathRoot) (al : Allocs) (desc : FileDescriptor S) (v' : Vfs S)
      → PathParser.parse filename v.allocs ≡ some (some root, al)
      → first_free v.file_descriptors 0 ≡ some i
      → v'.file_descriptors ≡ set v.file_descriptors i (some desc)
      → desc.index ≡ i + 1
      → 0 < length root.first
      → v'.allocs.live ≡ v.allocs.live + 2 + 2 * length root.first
      → Outcome filename v (pos (i + 1), v')

-- `r` is an outcome, or a write through the null pointer.
pub data Ends {S : Type 0} (filename : List ℕ) (v : Vfs S) : Option (ℤ × Vfs S) → Type 0 where
  fault : Ends filename v none
  ends : {r : ℤ × Vfs S} → Outcome filename v r → Ends filename v (some r)

module _ {S : Type 0} (root : PathRoot) (p : ℤ) (w : Vfs S) where
  open_failed-file_descriptors :
      (fs : Option (Filesystem S))
      → (open_failed root fs p w).1.file_descriptors ≡ w.file_descriptors
  unfolding open_failed
  open_failed-file_descriptors none = elim (Bool-cases (is_null p)) [ inl e ↦ rw e | inr e ↦ rw e ]
  open_failed-file_descriptors (some f) = elim (Bool-cases (is_null p)) [
    | inl e ↦ rw e
    | inr e ↦ rw e
  ]

  open_failed-allocs :
      (fs : Option (Filesystem S))
      → (open_failed root fs p w).1.allocs ≡ PathParser.free root w.allocs
  unfolding open_failed
  open_failed-allocs none = elim (Bool-cases (is_null p)) [ inl e ↦ rw e | inr e ↦ rw e ]
  open_failed-allocs (some f) = elim (Bool-cases (is_null p)) [ inl e ↦ rw e | inr e ↦ rw e ]

-- The path `root` is parsed: `v` is the state before, `w` the state now.
module _ {S : Type 0} (filename : List ℕ) (v : Vfs S) (root : PathRoot) where
  abbrev Parsed : Vfs S → Type 0
  Parsed w =
      (w.file_descriptors ≡ v.file_descriptors)
      × (w.allocs.live ≡ v.allocs.live + 1 + 2 * length root.first)

  open_failed-Outcome :
      (fs : Option (Filesystem S)) (p : ℤ) (w : Vfs S)
      → Parsed w
      → Outcome filename v (open_failed root fs p w)
  unfolding open_failed
  open_failed-Outcome fs p w h =
      failed (open_failed root fs p w).1 (open_failed-file_descriptors root p w fs ∙ h.0) (
        ap (λ a. a.live) (open_failed-allocs root p w fs)
        ∙ omega (arith, free-live root w.allocs, h.1))

module _ {S : Type 0} (filename : List ℕ) (v : Vfs S) (root : PathRoot) (al : Allocs)
    (parsed : PathParser.parse filename v.allocs ≡ some (some root, al))
    (some_parts : 0 < length root.first) where
  open_descriptor-Ends :
      (fs : Filesystem S) (disk : ℕ) (p : ℤ) (w : Vfs S)
      → Parsed filename v root w
      → Ends filename v (open_descriptor root fs disk p w)
  unfolding open_descriptor
  open_descriptor-Ends fs disk p w h = elim (Option-cases (first_free w.file_descriptors 0)) [
    | inl full ↦
        rw (open_descriptor, full) (ends (open_failed-Outcome filename v root (some fs) p w h))
    | inr (i, free) ↦ elim (Bool-cases (kzalloc w.allocs).0) [
      | inr failed_alloc ↦ rw (open_descriptor, free, failed_alloc) fault
      | inl done ↦
          rw (open_descriptor, free, done)
            (ends (
              opened i root al _ _ parsed (rw (h.0) at free)
                (ap
                  (λ t. set t i (
                    some
                      (record { index = i + 1; filesystem = fs; private_data = p; disk = disk })))
                  h.0)
                refl some_parts
                (omega (arith, kzalloc-live w.allocs, h.1, done_one (kzalloc w.allocs).0 done))))
    ]
  ]

  open_on-Ends :
      (fs : Filesystem S) (disk : ℕ) (mode : FileMode) (w : Vfs S)
      → Parsed filename v root w
      → Ends filename v (open_on root fs disk mode w)
  unfolding open_on
  open_on-Ends fs disk mode w h =
      let (p, s) = fs.open_file disk root.first mode w.state in
      let w' : Vfs S = record w { state = s } in
      elim (Bool-cases (is_err p)) [
        | inl bad ↦ rw (open_on, bad) (ends (open_failed-Outcome filename v root (some fs) p w' h))
        | inr good ↦ rw (open_on, good) (open_descriptor-Ends fs disk p w' h)
      ]

  open_mode-Ends :
      (fs : Filesystem S) (disk : ℕ) (mode : FileMode) (w : Vfs S)
      → Parsed filename v root w
      → Ends filename v (open_mode root fs disk mode w)
  unfolding open_mode
  open_mode-Ends fs disk FileMode.invalid w h =
      ends (open_failed-Outcome filename v root (some fs) (pos 0) w h)
  open_mode-Ends fs disk mode w h = open_on-Ends fs disk mode w h

  open_disk-Ends :
      (mode_str : List ℕ) (disk : Option (Disk S)) (w : Vfs S)
      → Parsed filename v root w
      → Ends filename v (open_disk root mode_str disk w)
  unfolding open_disk
  open_disk-Ends mode_str none w h = ends (open_failed-Outcome filename v root none (pos 0) w h)
  open_disk-Ends mode_str (some disk) w h = elim (Option-cases disk.filesystem) [
    | inl nothing ↦
        rw (open_disk, nothing) (ends (open_failed-Outcome filename v root none (pos 0) w h))
    | inr (fs, there) ↦ elim (Option-cases (get_mode_by_string mode_str)) [
      | inl outside ↦ rw (open_disk, there, outside) fault
      | inr (mode, known) ↦ rw (open_disk, there, known) (open_mode-Ends fs disk.id mode w h)
    ]
  ]

open_root-Ends :
    {S : Type 0} (filename : List ℕ) (v : Vfs S) (mode_str : List ℕ) (r : Option PathRoot)
    (al : Allocs)
    → PathParser.parse filename v.allocs ≡ some (r, al)
    → al.live ≡ v.allocs.live + root_held r
    → Ends filename v (open_root mode_str r (record v { allocs = al }))
unfolding open_root
open_root-Ends filename v mode_str none al f l =
    ends (failed (record v { allocs = al }) refl (omega arith))
open_root-Ends filename v mode_str (some root) al f l = parts root.first refl
  where
    parts :
        (ps : List (List ℕ))
        → root.first ≡ ps
        → Ends filename v (open_root mode_str (some root) (record v { allocs = al }))
    parts [] e =
        rw (open_root, e)
          (ends (
            open_failed-Outcome filename v root none (pos 0) (record v { allocs = al })
              (refl, omega arith)))
    parts (p ∷ ps) e =
        rw (open_root, e)
          (open_disk-Ends filename v root al f (rw e (omega arith)) mode_str
            (disk_get root.drive_no (record v { allocs = al })) (record v { allocs = al })
            (refl, omega arith))

Ends-some :
    {S : Type 0} {filename : List ℕ} {v : Vfs S} {o : Option (ℤ × Vfs S)} {r : ℤ × Vfs S}
    → Ends filename v o
    → o ≡ some r
    → Outcome filename v r
Ends-some fault e = cc
Ends-some {filename} {v} (ends x) e = subst (Outcome filename v) (some-eq e) x

-- A call of `fopen` that does not write through a null pointer, and that stays inside its strings,
-- ends in one of two ways. It returns 0, and then the descriptor table is as before, and so is the
-- number of live allocations of the file layer and the path parser. Or it returns `i + 1` for the
-- first free entry `i` of the table, and then that entry holds a descriptor of that number, no other
-- entry has changed, and two such allocations and two for each part of the parsed path have been
-- added: the path is not freed.
pub fopen-Outcome :
    {S : Type 0} (v : Vfs S) (filename mode_str : List ℕ) (r : ℤ × Vfs S)
    → fopen filename mode_str v ≡ some r
    → Outcome filename v r
unfolding fopen
fopen-Outcome v filename mode_str r e =
    Ends-some (all_ends (PathParser.parse filename v.allocs) refl) e
  where
    all_ends :
        (o : Option (Option PathRoot × Allocs))
        → PathParser.parse filename v.allocs ≡ o
        → Ends filename v (fopen filename mode_str v)
    all_ends none e = rw (fopen, e) fault
    all_ends (some (root, al)) e =
        rw (fopen, e)
          (open_root-Ends filename v mode_str root al e (parse-live filename v.allocs al root e))
