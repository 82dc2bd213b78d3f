-- ===== src/PathParser/Leaks.antt =====
-- The parser's allocations: what is live when it returns.
use vana.Prelude.{
  ℕ, zero, suc, ◌+◌, ◌*◌, ◌-◌, ◌≡◌, none, some, Option, List, [], ◌∷◌, ok, err, arith, length,
  Option-cases, inl, inr, if◌then◌else◌,
}
use vana.Strings.{strlen}
use vana.PathParser.{
  Allocs, PathRoot, kzalloc, kfree, create_root, finish_part, get_path_part, parse_path_part,
  parse_rest, parse_parts, parse, free, free_parts, copy_part, skip_slash, get_drive_by_path,
}

-- A part holds two allocations, its buffer and its node.
abbrev pub held : Option (List ℕ) → ℕ
held none = 0
held (some _) = 2

pub kzalloc-live : (al : Allocs) → (kzalloc al).1.live ≡ al.live + (if (kzalloc al).0 then 1 else 0)
unfolding kzalloc
kzalloc-live al = ground arith

-- The buffer of a part that has no node yet.
abbrev buffer : Option (List ℕ) → ℕ
buffer none = 0
buffer (some _) = 1

finish_part-live :
    (part path : List ℕ) (al : Allocs) (n : ℕ)
    → al.live ≡ n + 1
    → (finish_part part path al).2.live ≡ n + buffer (finish_part part path al).0
unfolding finish_part kfree
finish_part-live [] path al n h = omega arith
finish_part-live (c ∷ part) path al n h = omega arith

get_path_part-live :
    (path : List ℕ) (al al' : Allocs) (r : Option (List ℕ)) (rest : List ℕ)
    → get_path_part path al ≡ some (r, rest, al')
    → al'.live ≡ al.live + buffer r
unfolding get_path_part
get_path_part-live path al al' r rest e = elim (Option-cases (copy_part 0 path)) [
  | inl fault ↦ ground (arith, kzalloc-live al)
  | inr ((part, stop), copied) ↦
      ground
        (arith, kzalloc-live al, finish_part-live part (skip_slash stop) (kzalloc al).1 al.live)
]

parse_path_part-live :
    (path : List ℕ) (al al' : Allocs) (r : Option (List ℕ)) (rest : List ℕ)
    → parse_path_part path al ≡ some (r, rest, al')
    → al'.live ≡ al.live + held r
unfolding parse_path_part kfree
parse_path_part-live path al al' r rest e = elim (Option-cases (get_path_part path al)) [
  | inl fault ↦ ground arith
  | inr ((none, path', al1), read) ↦ ground (arith, get_path_part-live path al al1 none path' read)
  | inr ((some part, path', al1), read) ↦
      ground (arith, get_path_part-live path al al1 (some part) path' read, kzalloc-live al1)
]

parse_rest-live :
    (fuel : ℕ) (path : List ℕ) (al al' : Allocs) (ps : List (List ℕ))
    → parse_rest fuel path al ≡ some (ps, al')
    → al'.live ≡ al.live + 2 * length ps
unfolding parse_rest
parse_rest-live zero path al al' ps e = cc
parse_rest-live (suc fuel) path al al' ps e = elim (Option-cases (parse_path_part path al)) [
  | inl fault ↦ ground arith
  | inr ((none, path', al1), read) ↦
      ground (arith, parse_path_part-live path al al1 none path' read)
  | inr ((some p, path', al1), read) ↦ elim (Option-cases (parse_rest fuel path' al1)) [
    | inl fault ↦ ground arith
    | inr ((qs, al2), later) ↦ ground (
      arith,
      parse_path_part-live path al al1 (some p) path' read,
      parse_rest-live fuel path' al1 al2 qs later,
    )
  ]
]

-- What a parsed path holds: its root, and two allocations for each part.
abbrev pub root_held : Option PathRoot → ℕ
root_held none = 0
root_held (some root) = 1 + 2 * length root.first

parse_parts-live :
    (fuel drive : ℕ) (path : List ℕ) (al al' : Allocs) (r : Option PathRoot)
    → parse_parts fuel drive path al ≡ some (r, al')
    → al'.live ≡ al.live + root_held r
unfolding parse_parts create_root kfree
parse_parts-live fuel drive path al al' r e =
    elim (Option-cases (parse_path_part path (kzalloc al).1)) [
      | inl fault ↦ ground (arith, kzalloc-live al)
      | inr ((none, path', al1), read) ↦
          ground
            (arith, kzalloc-live al, parse_path_part-live path (kzalloc al).1 al1 none path' read)
      | inr ((some p, path', al1), read) ↦ elim (Option-cases (parse_rest fuel path' al1)) [
        | inl fault ↦ ground (arith, kzalloc-live al)
        | inr ((qs, al2), later) ↦ ground (
          arith,
          kzalloc-live al,
          parse_path_part-live path (kzalloc al).1 al1 (some p) path' read,
          parse_rest-live fuel path' al1 al2 qs later,
        )
      ]
    ]

pub parse-live :
    (path : List ℕ) (al al' : Allocs) (r : Option PathRoot)
    → parse path al ≡ some (r, al')
    → al'.live ≡ al.live + root_held r
unfolding parse
parse-live path al al' r e = elim (Option-cases (strlen path)) [
  | inl fault ↦ ground arith
  | inr (len, measured) ↦ elim (Option-cases (get_drive_by_path path)) [
    | inl fault ↦ ground arith
    | inr ((err s, tmp), got) ↦ ground arith
    | inr ((ok d, tmp), got) ↦ ground (arith, parse_parts-live (len + 1) d tmp al al' r)
  ]
]

free_parts-live :
    (ps : List (List ℕ)) (al : Allocs) → (free_parts ps al).live ≡ al.live - 2 * length ps
unfolding free_parts kfree
free_parts-live [] al = omega arith
free_parts-live (p ∷ ps) al = omega (arith, free_parts-live ps (kfree (kfree al)))

-- Whatever the path, and whichever allocations fail on the way: when the parser returns the null
-- pointer, it has given back all that it allocated; and when it returns a root, freeing that root
-- gives back all of it.
pub parse_no_leak :
    (path : List ℕ) (al al' : Allocs) (r : Option PathRoot)
    → parse path al ≡ some (r, al')
    → (let left : Allocs = elim r [ none ↦ al' | some root ↦ free root al' ] in left.live) ≡ al.live
unfolding free kfree
parse_no_leak path al al' none e = omega (arith, parse-live path al al' none e)
parse_no_leak path al al' (some root) e =
    omega (arith, parse-live path al al' (some root) e, free_parts-live root.first al')

pub free-live :
    (root : PathRoot) (al : Allocs) → (free root al).live ≡ al.live - (1 + 2 * length root.first)
unfolding free kfree
free-live root al = omega (arith, free_parts-live root.first al)
