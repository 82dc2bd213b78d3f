-- ===== src/Stdlib/Command/Words.antt =====
-- Command lines as words between spaces.
use vana.Prelude.{
  ℕ, ◌≤◌, ◌≡◌, refl, Bool, true, false, Bool-cases, inl, inr, ◌⊎◌, some, List, [], ◌∷◌, ◌++◌, arith,
  ◌==◌, ==_ne, if◌then◌else◌, length,
}
use vana.Strings.Lengths.{IsText}
use vana.Stdlib.Strtok.{is_delimiter, skip_delimiters, find_end}

-- The word at the start of a text, up to a space.
abbrev pub word_of : List ℕ → List ℕ
word_of [] = []
word_of (c ∷ s) = let rest = word_of s in if c == b' ' then [] else c ∷ rest

-- The words of a text: one where a character other than a space stands behind a space or at the
-- start. The flag tells that a word goes on.
abbrev pub words : Bool → List ℕ → List (List ℕ)
words inside [] = []
words true (c ∷ s) = words (if c == b' ' then false else true) s
words false (c ∷ s) =
    let blank = words false s in
    let word = (c ∷ word_of s) ∷ words true s in if c == b' ' then blank else word

-- A pointer to a text in a buffer that goes on behind it.
abbrev pub text_at : List ℕ → List ℕ → List ℕ
text_at s r = s ++ 0 ∷ r

pub space_delimiter : (c : ℕ) → is_delimiter (b' ' ∷ []) c ≡ (c == b' ')
unfolding is_delimiter
space_delimiter c = ground arith

-- What is left when the spaces before a word are skipped.
pub record Skipped (s r : List ℕ) : Type 0 where
  pub left : List ℕ
  pub solid : IsText left
  pub result : skip_delimiters (b' ' ∷ []) (text_at s r) ≡ some (text_at left r)
  pub same : words false s ≡ words false left
  pub at : (left ≡ []) ⊎ ((c : ℕ) × (more : List ℕ) × (left ≡ c ∷ more) × ((c == b' ') ≡ false))
  pub shorter : length left ≤ length s

pub skip_spaces : (s r : List ℕ) → IsText s → Skipped s r
unfolding skip_delimiters
skip_spaces [] r h = record {
  left = [];
  solid = tt;
  result = rw (space_delimiter 0) refl;
  same = refl;
  at = inl refl;
  shorter = omega arith;
}
skip_spaces (c ∷ s) r h = elim (Bool-cases (c == b' ')) [
  | inl e ↦
      let k = skip_spaces s r h.1 in
      record {
        left = k.left;
        solid = k.solid;
        result = rw (space_delimiter c, e) k.result;
        same = rw e k.same;
        at = k.at;
        shorter = omega (arith, k.shorter);
      }
  | inr e ↦ record {
    left = c ∷ s;
    solid = h;
    result = rw (space_delimiter c, e) refl;
    same = refl;
    at = inr (c, s, refl, e);
    shorter = omega arith;
  }
]

-- The end of a word, and what is behind it.
pub record Ended (s r : List ℕ) : Type 0 where
  pub behind : List ℕ
  pub solid : IsText behind
  pub junk : List ℕ
  pub result :
      find_end (b' ' ∷ []) (text_at s r) ≡ some (text_at (word_of s) junk, text_at behind r)
  pub same : words true s ≡ words false behind
  pub shorter : length behind ≤ length s
  pub word : IsText (word_of s)

pub end_of_word : (s r : List ℕ) → IsText s → Ended s r
unfolding find_end
end_of_word [] r h = record {
  behind = [];
  solid = tt;
  junk = r;
  result = refl;
  same = refl;
  shorter = omega arith;
  word = tt;
}
end_of_word (c ∷ s) r h = elim (Bool-cases (c == b' ')) [
  | inl e ↦ record {
    behind = s;
    solid = h.1;
    junk = text_at s r;
    result = rw (==_ne c 0 h.0, space_delimiter c, e) refl;
    same = rw e refl;
    shorter = omega arith;
    word = rw e tt;
  }
  | inr e ↦
      let k = end_of_word s r h.1 in
      record {
        behind = k.behind;
        solid = k.solid;
        junk = k.junk;
        result = rw (==_ne c 0 h.0, space_delimiter c, e, k.result) refl;
        same = rw e k.same;
        shorter = omega (arith, k.shorter);
        word = rw e (h.0, k.word);
      }
]
