-- ===== src/PathParser/Safety.antt =====
-- The parser stays inside the path and inside its buffers, and its loop ends.
use vana.Prelude.{
  ℕ, zero, suc, ◌+◌, ◌-◌, ◌≤◌, ◌<◌, ◌≡◌, refl, true, false, Bool, none, some, Option, List, [], ◌∷◌,
  ◌++◌, ok, err, arith, length, Bool-cases, inl, inr, ◌>>=◌, if◌then◌else◌, ◌==◌, ==_ne, lt→ltb,
  leb, Result, Status, ℤ, pos, negsuc, min, ltb,
}
use mathlib.Core.Bool.{false≢true}
use vana.Memory.{memcmp, signed_key}
use vana.Strings.{isdigit}
use vana.Strings.Lengths.{IsText, strlen-length, strnlen-length}
use vana.PathParser.{
  Allocs, PathRoot, max_path, kzalloc, kfree, create_root, finish_part, get_path_part,
  parse_path_part, parse_rest, parse_parts, parse, copy_part, skip_slash, get_drive_by_path,
  path_valid_format, drive_separator, first_is_digit, skip_drive, is_pos_zero,
}

-- The parser's pointer stands in a terminated string of `n` characters.
pub record At (n : ℕ) (path : List ℕ) : Type 0 where
  pub text : List ℕ
  pub rest : List ℕ
  pub cut : path ≡ text ++ 0 ∷ rest
  pub chars : IsText text
  pub size : length text ≡ n

-- What one call has read.
record Read (i n : ℕ) (result : Option (List ℕ × List ℕ)) : Type 0 where
  part : List ℕ
  stop : List ℕ
  left : ℕ
  returns : result ≡ some (part, stop)
  at : At left stop
  less : length part + left ≡ n

copy_part-Read :
    (i : ℕ) (s rest : List ℕ)
    → IsText s
    → i + length s ≤ max_path
    → Read i (length s) (copy_part i (s ++ 0 ∷ rest))
unfolding copy_part
copy_part-Read i [] rest h k = record {
  part = [];
  stop = 0 ∷ rest;
  left = 0;
  returns = refl;
  at = record { text = []; rest = rest; cut = refl; chars = tt; size = refl };
  less = omega arith;
}
copy_part-Read i (c ∷ s) rest h k = elim (Bool-cases (c == b'/')) [
  | inl slash ↦ record {
    part = [];
    stop = c ∷ (s ++ 0 ∷ rest);
    left = suc (length s);
    returns = rw slash;
    at = record { text = c ∷ s; rest = rest; cut = refl; chars = h; size = refl };
    less = omega arith;
  }
  | inr other ↦
      let r = copy_part-Read (i + 1) s rest h.1 (omega arith) in
      record {
        part = c ∷ r.part;
        stop = r.stop;
        left = r.left;
        returns = rw (other, ==_ne c 0 h.0, lt→ltb i max_path (omega arith), r.returns);
        at = r.at;
        less = omega (arith, r.less);
      }
]

ltb-le : (a b : ℕ) → ltb a b ≡ false → b ≤ a
ltb-le a b h = ground arith

-- The pointer after a step: it stands in a string of at most `n` characters.
record Within (n : ℕ) (path : List ℕ) : Type 0 where
  length_left : ℕ
  at : At length_left path
  le : length_left ≤ n

skip_slash-Within :
    (n : ℕ) (s rest : List ℕ) → IsText s → length s ≡ n → Within n (skip_slash (s ++ 0 ∷ rest))
unfolding skip_slash
skip_slash-Within n [] rest h k = record {
  length_left = 0;
  at = record { text = []; rest = rest; cut = refl; chars = tt; size = refl };
  le = omega arith;
}
skip_slash-Within n (c ∷ s) rest h k = elim (Bool-cases (c == b'/')) [
  | inl slash ↦ record {
    length_left = length s;
    at = record { text = s; rest = rest; cut = rw slash; chars = h.1; size = refl };
    le = omega arith;
  }
  | inr other ↦ record {
    length_left = suc (length s);
    at = record { text = c ∷ s; rest = rest; cut = rw other; chars = h; size = refl };
    le = omega arith;
  }
]

skip_slash-At : (n : ℕ) (path : List ℕ) → At n path → Within n (skip_slash path)
skip_slash-At n path a = rw a.cut (skip_slash-Within n a.text a.rest a.chars a.size)

-- A call that reads a part, if any, from a path of `n` characters: a part takes at least one.
abbrev taken : Option (List ℕ) → ℕ
taken none = 0
taken (some _) = 1

record Parsed (n : ℕ) (result : Option (Option (List ℕ) × List ℕ × Allocs)) : Type 0 where
  part : Option (List ℕ)
  path : List ℕ
  allocs : Allocs
  left : ℕ
  returns : result ≡ some (part, path, allocs)
  at : At left path
  less : left + taken part ≤ n

finish_part-Parsed :
    (n m : ℕ) (part path : List ℕ) (al : Allocs)
    → At m path
    → m + length part ≤ n
    → Parsed n (some (finish_part part path al))
unfolding finish_part
finish_part-Parsed n m [] path al a h = record {
  part = none;
  path = path;
  allocs = kfree al;
  left = m;
  returns = refl;
  at = a;
  less = omega arith;
}
finish_part-Parsed n m (c ∷ part) path al a h = record {
  part = some (c ∷ part);
  path = path;
  allocs = al;
  left = m;
  returns = refl;
  at = a;
  less = omega arith;
}

read-Parsed :
    (n : ℕ) (path : List ℕ) (al : Allocs)
    → At n path
    → n ≤ max_path
    → Parsed n (do (part, rest) ← copy_part 0 path; some (finish_part part (skip_slash rest) al))
read-Parsed n path al a h =
    let r = copy_part-Read 0 a.text a.rest a.chars (omega (arith, a.size)) in
    let w = skip_slash-At r.left r.stop r.at in
    rw (a.cut, r.returns)
      (finish_part-Parsed n w.length_left r.part (skip_slash r.stop) al w.at
        (omega (arith, w.le, r.less, a.size)))

get_path_part-Parsed :
    (n : ℕ) (path : List ℕ) (al : Allocs)
    → At n path
    → n ≤ max_path
    → Parsed n (get_path_part path al)
unfolding get_path_part
get_path_part-Parsed n path al a h = elim (Bool-cases (kzalloc al).0) [
  | inl done ↦ rw (get_path_part, done) (read-Parsed n path (kzalloc al).1 a h)
  | inr failed ↦
      rw (get_path_part, failed)
        (record {
          part = none;
          path = path;
          allocs = (kzalloc al).1;
          left = n;
          returns = refl;
          at = a;
          less = omega arith;
        })
]

-- `parse_path_part` reads what `get_path_part` reads, or less if no node can be allocated.
parse_path_part-Parsed :
    (n : ℕ) (path : List ℕ) (al : Allocs)
    → At n path
    → n ≤ max_path
    → Parsed n (parse_path_part path al)
unfolding parse_path_part
parse_path_part-Parsed n path al a h =
    let r = get_path_part-Parsed n path al a h in
    rw (parse_path_part, r.returns) (with_node r.part r.path r.allocs r.left r.at r.less)
  where
    with_node :
        (part : Option (List ℕ)) (path' : List ℕ) (al' : Allocs) (m : ℕ)
        → At m path'
        → m + taken part ≤ n
        → Parsed n (elim part [
          | none ↦ some (none, path', al')
          | some p ↦ some (
              if (kzalloc al').0
              then (some p, path', (kzalloc al').1)
              else (none, path', kfree (kzalloc al').1))
        ])
    with_node none path' al' m a' k = record {
      part = none;
      path = path';
      allocs = al';
      left = m;
      returns = refl;
      at = a';
      less = k;
    }
    with_node (some p) path' al' m a' k = elim (Bool-cases (kzalloc al').0) [
      | inl done ↦ record {
        part = some p;
        path = path';
        allocs = (kzalloc al').1;
        left = m;
        returns = rw done;
        at = a';
        less = k;
      }
      | inr failed ↦ record {
        part = none;
        path = path';
        allocs = kfree (kzalloc al').1;
        left = m;
        returns = rw failed;
        at = a';
        less = omega arith;
      }
    ]

-- The call returns: no access outside a buffer, and enough fuel.
abbrev pub Returns {ℓ} : {A : Type ℓ} → Option A → Type ℓ
Returns {A = A} r = (a : A) × (r ≡ some a)

parse_rest-Returns :
    (fuel n : ℕ) (path : List ℕ) (al : Allocs)
    → At n path
    → n ≤ max_path
    → n < fuel
    → Returns (parse_rest fuel path al)
unfolding parse_rest
parse_rest-Returns zero n path al a h k = absurd (omega arith)
parse_rest-Returns (suc fuel) n path al a h k =
    let r = parse_path_part-Parsed n path al a h in
    rw (parse_rest, r.returns)
      (go_on r.part r.path r.allocs r.left r.less (λ p.
        parse_rest-Returns fuel r.left r.path r.allocs r.at (omega (arith, r.less))
          (omega (arith, r.less, p))))
  where
    go_on :
        (part : Option (List ℕ)) (path' : List ℕ) (al' : Allocs) (m : ℕ)
        → m + taken part ≤ n
        → (taken part ≡ 1 → Returns (parse_rest fuel path' al'))
        → Returns {A = List (List ℕ) × Allocs} (elim part [
          | none ↦ some ([], al')
          | some p ↦ do (ps, al'') ← parse_rest fuel path' al'; some (p ∷ ps, al'')
        ])
    go_on none path' al' m k' ih = (([], al'), refl)
    go_on (some p) path' al' m k' ih = let (later, e) = ih refl in ((p ∷ later.0, later.1), rw e)

-- What the drive prefix leaves: an error, or a pointer into a string of at most `n` characters.
data GotDrive (n : ℕ) : Option (Result ℕ × List ℕ) → Type 0 where
  bad : (p : List ℕ) → GotDrive n (some (err Status.ebadpath, p))
  good : (d m : ℕ) (p : List ℕ) → At m p → m ≤ n → GotDrive n (some (ok d, p))

memcmp_two : (a b : ℕ) (xs : List ℕ) → (d : ℤ) × (memcmp (a ∷ b ∷ xs) (b':' ∷ b'/' ∷ []) 2 ≡ some d)
unfolding memcmp
memcmp_two a b xs = elim (Bool-cases (a == b':')) [
  | inl same ↦ elim (Bool-cases (b == b'/')) [
    | inl also ↦ (pos 0, rw (same, also))
    | inr other ↦
        (if ltb (signed_key b) (signed_key b'/') then negsuc 0 else pos 1, rw (same, other))
  ]
  | inr other ↦ (if ltb (signed_key a) (signed_key b':') then negsuc 0 else pos 1, rw other)
]

separator-some :
    (a b c : ℕ) (xs : List ℕ) → (v : Bool) × (drive_separator (a ∷ b ∷ c ∷ xs) ≡ some v)
unfolding drive_separator
separator-some a b c xs = let (d, e) = memcmp_two b c xs in (is_pos_zero d, rw e)

-- The format test reads inside the string, and accepts only strings of at least 3 characters.
format-some :
    (s rest : List ℕ)
    → IsText s
    → (v : Bool) × (path_valid_format (s ++ 0 ∷ rest) ≡ some v) × (v ≡ true → 3 ≤ length s)
unfolding path_valid_format first_is_digit
format-some [] rest h =
    (false, rw (path_valid_format, strnlen-length [] rest max_path h), λ e. absurd (false≢true e))
format-some (a ∷ []) rest h = (
  false,
  rw (path_valid_format, strnlen-length (a ∷ []) rest max_path h),
  λ e. absurd (false≢true e),
)
format-some (a ∷ b ∷ []) rest h = (
  false,
  rw (path_valid_format, strnlen-length (a ∷ b ∷ []) rest max_path h),
  λ e. absurd (false≢true e),
)
format-some (a ∷ b ∷ c ∷ s) rest h =
    let (v, e) = separator-some a b c (s ++ 0 ∷ rest) in
    (
      (if isdigit a then v else false),
      rw (path_valid_format, strnlen-length (a ∷ b ∷ c ∷ s) rest max_path h) (long v e),
      λ _. omega arith,
    )
  where
    long :
        (v : Bool)
        → drive_separator (a ∷ b ∷ c ∷ s ++ 0 ∷ rest) ≡ some v
        → ◌≡◌ {A = Option Bool}
            (if leb 3 (min (length (a ∷ b ∷ c ∷ s)) max_path)
              then (if isdigit a then drive_separator (a ∷ b ∷ c ∷ s ++ 0 ∷ rest) else some false)
              else some false)
            (some (if isdigit a then v else false))
    long v e = ground arith

get_drive_by_path-GotDrive :
    (s rest : List ℕ) → IsText s → GotDrive (length s) (get_drive_by_path (s ++ 0 ∷ rest))
unfolding get_drive_by_path skip_drive
get_drive_by_path-GotDrive s rest h =
    let (v, e, k) = format-some s rest h in rw (get_drive_by_path, e) (skipped s h v k)
  where
    skipped :
        (s : List ℕ)
        → IsText s
        → (v : Bool) → (v ≡ true → 3 ≤ length s)
        → GotDrive (length s) (
            if v
            then (do (drive, p) ← skip_drive (s ++ 0 ∷ rest); some (ok drive, p))
            else some (err Status.ebadpath, s ++ 0 ∷ rest))
    skipped s h false k = bad (s ++ 0 ∷ rest)
    skipped [] h true k = absurd (omega (arith, k refl))
    skipped (a ∷ []) h true k = absurd (omega (arith, k refl))
    skipped (a ∷ b ∷ []) h true k = absurd (omega (arith, k refl))
    skipped (a ∷ b ∷ c ∷ s) h true k =
        good (a - 48) (length s) (s ++ 0 ∷ rest)
          (record { text = s; rest = rest; cut = refl; chars = h.1.1.1; size = refl }) (omega arith)

parse_parts-Returns :
    (fuel n drive : ℕ) (path : List ℕ) (al : Allocs)
    → At n path
    → n ≤ max_path
    → n < fuel
    → Returns (parse_parts fuel drive path al)
unfolding parse_parts create_root
parse_parts-Returns fuel n drive path al a h k = elim (Bool-cases (kzalloc al).0) [
  | inr failed ↦ ((none, (kzalloc al).1), rw (parse_parts, failed))
  | inl done ↦
      let r = parse_path_part-Parsed n path (kzalloc al).1 a h in
      rw (parse_parts, done, r.returns)
        (first_part r.part r.path r.allocs (
          parse_rest-Returns fuel r.left r.path r.allocs r.at (omega (arith, r.less))
            (omega (arith, r.less))))
]
  where
    first_part :
        (part : Option (List ℕ)) (path' : List ℕ) (al' : Allocs)
        → Returns (parse_rest fuel path' al')
        → Returns {A = Option PathRoot × Allocs} (elim part [
          | none ↦ some (none, kfree al')
          | some p ↦ do
            (ps, al'') ← parse_rest fuel path' al'
            some (some (record { drive_no = drive; first = p ∷ ps }), al'')
        ])
    first_part none path' al' later = ((none, kfree al'), refl)
    first_part (some p) path' al' (later, e) =
        ((some (record { drive_no = drive; first = p ∷ later.0 }), later.1), rw e)

-- Every terminated path is parsed to the end, whichever allocations fail: no read leaves the string,
-- no write leaves a part's buffer of 108 bytes, and the loop over the parts ends.
pub parse-Returns : (s rest : List ℕ) (al : Allocs) → IsText s → Returns (parse (s ++ 0 ∷ rest) al)
unfolding parse
parse-Returns s rest al h = elim (Bool-cases (ltb max_path (length s))) [
  | inl long ↦ ((none, al), rw (parse, strlen-length s rest h, long))
  | inr short ↦
      rw (parse, strlen-length s rest h, short)
        (after_drive (get_drive_by_path (s ++ 0 ∷ rest)) (get_drive_by_path-GotDrive s rest h)
          (ltb-le max_path (length s) short))
]
  where
    after_drive :
        (r : Option (Result ℕ × List ℕ))
        → GotDrive (length s) r
        → length s ≤ max_path
        → Returns {A = Option PathRoot × Allocs} (do
          (drive, tmp_path) ← r
          elim drive [
            | err _ ↦ some (none, al)
            | ok drive_no ↦ parse_parts (length s + 1) drive_no tmp_path al
          ])
    after_drive _ (bad p) k = ((none, al), refl)
    after_drive _ (good d m p a j) k =
        parse_parts-Returns (length s + 1) m d p al a (omega arith) (omega arith)
