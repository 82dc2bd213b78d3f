-- ===== src/PathParser/RoundTrip.antt =====
-- Parsing a written path gives back its drive and its parts.
use vana.Prelude.{
  ℕ, zero, suc, ◌+◌, ◌-◌, ◌*◌, ◌≤◌, ◌<◌, ◌≡◌, ◌≢◌, refl, ap, ◌∙◌, true, none, some, List, [], ◌∷◌,
  ◌++◌, ok, arith, length, Option-cases, inl, inr, ◌==◌, ==_ne, ◌||◌, lt→ltb, length-append,
  append_assoc, le→ltb,
}
use vana.Memory.{memcmp}
use vana.Strings.{isdigit}
use vana.Strings.Lengths.{IsText, strlen-length, strnlen-length}
use vana.PathParser.{
  Allocs, PathRoot, max_path, kzalloc, kfree, create_root, finish_part, get_path_part,
  parse_path_part, parse_rest, parse_parts, parse, copy_part, skip_slash, get_drive_by_path,
  path_valid_format, drive_separator, first_is_digit, skip_drive, is_pos_zero,
}

-- The heap where every allocation succeeds.
abbrev pub allocs : ℕ → Allocs
allocs n = record { answers = []; live = n }

abbrev pub IsName : List ℕ → Type 0
IsName [] = Unit
IsName (c ∷ p) = (c ≢ 0) × (c ≢ b'/') × IsName p

-- A part is not empty, and has neither a slash nor a NUL.
abbrev pub IsPart : List ℕ → Type 0
IsPart p = (p ≢ []) × IsName p

abbrev pub AreParts : List (List ℕ) → Type 0
AreParts [] = Unit
AreParts (p ∷ ps) = IsPart p × AreParts ps

-- The parts with a slash between each two.
unfoldable pub join : List (List ℕ) → List ℕ
join [] = []
join (p ∷ []) = p
join (p ∷ q ∷ ps) = p ++ (b'/' ∷ join (q ∷ ps))

IsName-IsText : (p : List ℕ) → IsName p → IsText p
IsName-IsText [] h = tt
IsName-IsText (x ∷ p) h = (h.0, IsName-IsText p h.2)

name-IsText : (p tl : List ℕ) → IsName p → IsText tl → IsText (p ++ tl)
name-IsText [] tl h t = t
name-IsText (x ∷ p) tl h t = (h.0, name-IsText p tl h.2 t)

-- "<drive>:/<part>/…/<part>"
unfoldable pub write_path : PathRoot → List ℕ
write_path root = (48 + root.drive_no) ∷ b':' ∷ b'/' ∷ join root.first

copy_part-name :
    (i c : ℕ) (p tl : List ℕ)
    → IsName p
    → (c == b'/' || c == 0) ≡ true
    → i + length p ≤ max_path
    → copy_part i (p ++ c ∷ tl) ≡ some (p, c ∷ tl)
unfolding copy_part
copy_part-name i c [] tl h e k = rw e
copy_part-name i c (x ∷ p) tl h e k = rw (
  ==_ne x b'/' h.1,
  ==_ne x 0 h.0,
  lt→ltb i max_path (omega arith),
  copy_part-name (i + 1) c p tl h.2 e (omega arith),
)

get_path_part-part :
    (c n : ℕ) (p tl : List ℕ)
    → IsPart p
    → (c == b'/' || c == 0) ≡ true
    → length p ≤ max_path
    → get_path_part (p ++ c ∷ tl) (allocs n) ≡ some (some p, skip_slash (c ∷ tl), allocs (n + 1))
unfolding get_path_part kzalloc finish_part
get_path_part-part c n [] tl h e k = absurd (h.0 refl)
get_path_part-part c n (x ∷ p) tl h e k =
    rw (get_path_part, copy_part-name 0 c (x ∷ p) tl h.1 e (omega arith))

parse_path_part-part :
    (c n : ℕ) (p tl : List ℕ)
    → IsPart p
    → (c == b'/' || c == 0) ≡ true
    → length p ≤ max_path
    → parse_path_part (p ++ c ∷ tl) (allocs n)
      ≡ some (some p, skip_slash (c ∷ tl), allocs (n + 1 + 1))
unfolding parse_path_part kzalloc
parse_path_part-part c n p tl h e k = rw (parse_path_part, get_path_part-part c n p tl h e k)

parse_path_part-end :
    (n : ℕ) (rest : List ℕ)
    → parse_path_part (0 ∷ rest) (allocs n) ≡ some (none, 0 ∷ rest, allocs (n + 1 - 1))
unfolding parse_path_part get_path_part kzalloc copy_part finish_part kfree skip_slash
parse_path_part-end n rest = refl

parse_rest-part :
    (fuel c n : ℕ) (p tl : List ℕ) (ps : List (List ℕ)) (al : Allocs)
    → IsPart p
    → (c == b'/' || c == 0) ≡ true
    → length p ≤ max_path
    → parse_rest fuel (skip_slash (c ∷ tl)) (allocs (n + 1 + 1)) ≡ some (ps, al)
    → parse_rest (suc fuel) (p ++ c ∷ tl) (allocs n) ≡ some (p ∷ ps, al)
unfolding parse_rest
parse_rest-part fuel c n p tl ps al h e k later =
    rw (parse_rest, parse_path_part-part c n p tl h e k, later)

same_allocs : (m n : ℕ) → m ≡ n → allocs m ≡ allocs n
same_allocs m n e = ap (λ k. allocs k) e

parse_rest-end :
    (fuel n : ℕ) (rest : List ℕ) → parse_rest (suc fuel) (0 ∷ rest) (allocs n) ≡ some ([], allocs n)
unfolding parse_rest
parse_rest-end fuel n rest =
    rw (parse_rest, parse_path_part-end n rest) (ap (λ k. some ([], allocs k)) (omega arith))

parse_rest-join :
    (fuel n : ℕ) (ps : List (List ℕ)) (rest : List ℕ)
    → AreParts ps
    → length (join ps) ≤ max_path
    → length ps < fuel
    → parse_rest fuel (join ps ++ 0 ∷ rest) (allocs n) ≡ some (ps, allocs (n + 2 * length ps))
unfolding join skip_slash
parse_rest-join zero n ps rest h k f = absurd (omega arith)
parse_rest-join (suc fuel) n [] rest h k f =
    parse_rest-end fuel n rest ∙ ap (λ k. some ([], allocs k)) (omega arith)
parse_rest-join (suc zero) n (p ∷ ps) rest h k f = absurd (omega arith)
parse_rest-join (suc (suc fuel)) n (p ∷ []) rest h k f =
    parse_rest-part (suc fuel) 0 n p rest [] _ h.0 refl k
      (parse_rest-end fuel (n + 1 + 1) rest ∙ ap (λ k. some ([], allocs k)) (omega arith))
parse_rest-join (suc (suc fuel)) n (p ∷ q ∷ ps) rest h k f =
    rw (append_assoc p (b'/' ∷ join (q ∷ ps)) (0 ∷ rest)) (
      parse_rest-part (suc fuel) b'/' n p (join (q ∷ ps) ++ 0 ∷ rest) (q ∷ ps) _ h.0 refl
        (omega (arith, length-append p (b'/' ∷ join (q ∷ ps))))
        (parse_rest-join (suc fuel) (n + 1 + 1) (q ∷ ps) rest h.1
            (omega (arith, length-append p (b'/' ∷ join (q ∷ ps)))) (omega arith)
          ∙ ap (λ k. some (q ∷ ps, allocs k)) (omega arith)))

join-IsText : (ps : List (List ℕ)) → AreParts ps → IsText (join ps)
unfolding join
join-IsText [] h = tt
join-IsText (p ∷ []) h = IsName-IsText p h.0.1
join-IsText (p ∷ q ∷ ps) h =
    name-IsText p (b'/' ∷ join (q ∷ ps)) h.0.1 (omega arith, join-IsText (q ∷ ps) h.1)

length-part : (p : List ℕ) → IsPart p → 1 ≤ length p
length-part [] h = absurd (h.0 refl)
length-part (x ∷ p) h = omega arith

length-join : (ps : List (List ℕ)) → AreParts ps → length ps ≤ length (join ps)
unfolding join
length-join [] h = omega arith
length-join (p ∷ []) h = length-part p h.0
length-join (p ∷ q ∷ ps) h =
    omega (arith, length-append p (b'/' ∷ join (q ∷ ps)), length-join (q ∷ ps) h.1)

parse_parts_of_rest :
    (fuel drive n : ℕ) (path p : List ℕ) (ps : List (List ℕ)) (al : Allocs)
    → parse_rest (suc fuel) path (allocs (n + 1)) ≡ some (p ∷ ps, al)
    → parse_parts fuel drive path (allocs n)
      ≡ some (some (record { drive_no = drive; first = p ∷ ps }), al)
unfolding parse_parts create_root kzalloc parse_rest
parse_parts_of_rest fuel drive n path p ps al e =
    elim (Option-cases (parse_path_part path (allocs (n + 1)))) [
      | inl fault ↦ ground arith
      | inr ((none, path', al1), read) ↦ ground arith
      | inr ((some q, path', al1), read) ↦ elim (Option-cases (parse_rest fuel path' al1)) [
        | inl fault ↦ ground arith
        | inr (qs, later) ↦ ground arith
      ]
    ]

prefix-IsText : (drive : ℕ) (s : List ℕ) → IsText s → IsText ((48 + drive) ∷ b':' ∷ b'/' ∷ s)
prefix-IsText drive s h = (omega arith, (omega arith, (omega arith, h)))

-- The format test and the drive of a written path.
get_drive_by_path-write :
    (drive : ℕ) (s rest : List ℕ)
    → drive < 10
    → IsText s
    → get_drive_by_path ((48 + drive) ∷ b':' ∷ b'/' ∷ (s ++ 0 ∷ rest))
      ≡ some (ok drive, s ++ 0 ∷ rest)
unfolding get_drive_by_path path_valid_format drive_separator first_is_digit skip_drive memcmp
    isdigit is_pos_zero
get_drive_by_path-write drive s rest d h =
    ground (
      arith,
      strnlen-length ((48 + drive) ∷ b':' ∷ b'/' ∷ s) rest max_path (prefix-IsText drive s h),
    )

-- A path that is written from a drive below 10 and one part or more, none of them empty or with a
-- slash or a NUL inside, and that has at most 108 characters, is parsed back to the same drive and
-- the same parts in the same order, as long as allocations succeed; what is live has grown by the
-- root and by two for each part.
pub parse-write_path :
    (drive n : ℕ) (p : List ℕ) (ps : List (List ℕ)) (rest : List ℕ)
    → drive < 10
    → AreParts (p ∷ ps)
    → length (write_path (record { drive_no = drive; first = p ∷ ps })) ≤ max_path
    → parse (write_path (record { drive_no = drive; first = p ∷ ps }) ++ 0 ∷ rest) (allocs n)
      ≡ some
          (some (record { drive_no = drive; first = p ∷ ps }), allocs (n + 1 + 2 * length (p ∷ ps)))
unfolding parse write_path
parse-write_path drive n p ps rest d h k =
    let text = prefix-IsText drive (join (p ∷ ps)) (join-IsText (p ∷ ps) h) in
    let size = length (join (p ∷ ps)) in
    rw (
      parse,
      strlen-length ((48 + drive) ∷ b':' ∷ b'/' ∷ join (p ∷ ps)) rest text,
      le→ltb max_path (suc (suc (suc size))) k,
      get_drive_by_path-write drive (join (p ∷ ps)) rest d (join-IsText (p ∷ ps) h),
      parse_parts_of_rest (suc (suc (suc size)) + 1) drive n (join (p ∷ ps) ++ 0 ∷ rest) p ps _ (
          parse_rest-join (suc (suc (suc (suc size)) + 1)) (n + 1) (p ∷ ps) rest h (omega arith)
            (omega (arith, length-join (p ∷ ps) h))),
    )
