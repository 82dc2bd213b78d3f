-- ===== src/PathParser/Tests.antt =====
-- Runs of the parser, and the theorems at small paths.
use vana.Prelude.{ℕ, ◌≡◌, refl, true, false, Option, some, List, [], ◌∷◌, ◌++◌, arith}
use vana.Memory.{memcmp}
use vana.Strings.{strlen, strnlen, isdigit}
use vana.PathParser.{
  Allocs, PathRoot, parse, free, parse_parts, parse_rest, parse_path_part, get_path_part,
  get_drive_by_path, path_valid_format, drive_separator, first_is_digit, skip_drive, is_pos_zero,
  create_root, copy_part, finish_part, skip_slash, kzalloc, kfree, answer,
}
use vana.PathParser.Leaks.{parse_no_leak}
use vana.PathParser.Safety.{Returns, parse-Returns}
use vana.PathParser.RoundTrip.{allocs, write_path, join, parse-write_path}

-- "0:/a/bc"
abbrev path : List ℕ
path = b'0' ∷ b':' ∷ b'/' ∷ b'a' ∷ b'/' ∷ b'b' ∷ b'c' ∷ []

abbrev parts : List (List ℕ)
parts = (b'a' ∷ []) ∷ (b'b' ∷ b'c' ∷ []) ∷ []

abbrev root : PathRoot
root = record { drive_no = 0; first = parts }

parse_run : parse (path ++ 0 ∷ []) (allocs 3) ≡ some (some root, allocs 8)
unfolding parse strlen get_drive_by_path path_valid_format strnlen drive_separator memcmp
    is_pos_zero first_is_digit isdigit skip_drive parse_parts create_root parse_rest parse_path_part
    get_path_part copy_part finish_part skip_slash kzalloc kfree answer
parse_run = refl

-- When the buffer of the second part cannot be allocated, the path of its first part is returned.
parse_cut_short :
    parse (path ++ 0 ∷ []) (record { answers = true ∷ true ∷ true ∷ false ∷ []; live = 0 })
    ≡ some (some (record { drive_no = 0; first = (b'a' ∷ []) ∷ [] }), allocs 3)
unfolding parse_run
parse_cut_short = refl

parse_no_leak_example : (free root (allocs 8)).live ≡ 3
parse_no_leak_example = parse_no_leak (path ++ 0 ∷ []) (allocs 3) (allocs 8) (some root) parse_run

parse-Returns_example :
    Returns {A = Option PathRoot × Allocs}
      (parse (path ++ 0 ∷ []) (record { answers = true ∷ false ∷ []; live = 0 }))
parse-Returns_example =
    parse-Returns path [] (record { answers = true ∷ false ∷ []; live = 0 }) (omega arith)

parse-write_path_example : parse (path ++ 0 ∷ []) (allocs 3) ≡ some (some root, allocs 8)
unfolding write_path join
parse-write_path_example =
    parse-write_path 0 3 (b'a' ∷ []) ((b'b' ∷ b'c' ∷ []) ∷ []) [] (omega arith)
      ((λ e. cc, (omega arith)), ((λ e. cc, (omega arith)), tt)) (omega arith)
