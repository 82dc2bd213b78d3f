-- ===== src/Stdlib/Itoa.antt =====
-- `itoa` of programs/stdlib/src/stdlib.c. The text is what stands from an index `loc` of the buffer
-- of 12 bytes on; `none` is a write before the buffer, or no rounds left.
use vana.Prelude.{
  ℕ, zero, suc, ◌+◌, ◌-◌, ◌*◌, ◌/◌, ◌%◌, ◌^◌, ◌≤◌, ◌<◌, ◌≡◌, refl, sym, ap, ◌∙◌, Bool-cases, inl,
  inr, ℤ, pos, negsuc, neg, Option, none, some, List, [], ◌∷◌, arith, ◌>>=◌, ◌++◌, append-shift,
  subst, ◌==◌, ==_eq, ==_ne, ==_not, ◌≢◌, if◌then◌else◌,
}
use native.Mathlib.Decide.{ℕ_discrete}
use vana.Strings.Lengths.{IsText}
use vana.Strings.Decimal.{numeral_value, numeral_value-digit, pow-ten}

-- `text[--loc] = c`
abbrev pub put_before : ℕ → ℕ → List ℕ → Option (ℕ × List ℕ)
put_before c loc out = if loc == 0 then none else some (loc - 1, c ∷ out)

-- `i` is 0 or below, and `n` is `-i`: the digit `'0' - (i % 10)` is that of `n`.
unfoldable pub itoa_loop : ℕ → ℕ → ℕ → List ℕ → Option (ℕ × List ℕ)
itoa_loop zero n loc out = none
itoa_loop (suc rounds) n loc out =
    let rest = (do
      (loc', out') ← put_before (48 + n % 10) loc out
      itoa_loop rounds (n / 10) loc' out') in
    if n == 0 then some (loc, out) else rest

-- The index and the text, the digits and then the sign.
unfoldable pub itoa_digits : ℕ → Option (ℕ × List ℕ)
itoa_digits n = do
  (loc, out) ← itoa_loop 11 n 11 (0 ∷ [])
  if loc == 11 then put_before b'0' loc out else some (loc, out)

unfoldable pub itoa : ℤ → Option (List ℕ)
itoa (pos n) = do (loc, out) ← itoa_digits n; some out
itoa (negsuc n) = do
  (loc, out) ← itoa_digits (n + 1)
  (loc', out') ← put_before b'-' loc out
  some out'

-- The number that a numeral with a sign stands for.
unfoldable pub int_value : List ℕ → ℤ
int_value [] = pos 0
int_value (c ∷ s) = if c == b'-' then neg (numeral_value 0 s) else pos (numeral_value 0 (c ∷ s))

-- An `int` of 32 bits.
abbrev pub IsInt : ℤ → Type 0
IsInt (pos n) = n < 2 ^ 31
IsInt (negsuc n) = n < 2 ^ 31

plus_one : (n : ℕ) → n + 1 ≡ suc n
plus_one n = omega arith

last_value : (n : ℕ) → numeral_value n (0 ∷ []) ≡ n
unfolding numeral_value
last_value n = refl

neg_suc : (n : ℕ) → neg (n + 1) ≡ negsuc n
neg_suc n = ap neg (plus_one n)

abbrev pub NotMinus : List ℕ → Type 0
NotMinus [] = Unit
NotMinus (c ∷ s) = c ≢ b'-'

int_value-digits : (s : List ℕ) → NotMinus s → int_value s ≡ pos (numeral_value 0 s)
unfolding int_value numeral_value
int_value-digits [] h = refl
int_value-digits (c ∷ s) h = rw (==_ne c b'-' h) refl

IsText-snoc : (s : List ℕ) (c : ℕ) → IsText s → c ≢ 0 → IsText (s ++ c ∷ [])
IsText-snoc [] c h n = (n, tt)
IsText-snoc (d ∷ s) c h n = (h.0, IsText-snoc s c h.1 n)

-- Decimal digits and nothing else.
abbrev pub AllDigits : List ℕ → Type 0
AllDigits [] = Unit
AllDigits (c ∷ s) = (b'0' ≤ c) × (c ≤ b'9') × AllDigits s

-- There is a first character, and it is not a zero.
abbrev FirstNotZero : List ℕ → Type 0
FirstNotZero [] = ⊥
FirstNotZero (c ∷ s) = c ≢ b'0'

-- One digit or more, and the first of several is not a zero.
abbrev pub LeadsWell : List ℕ → Type 0
LeadsWell [] = ⊥
LeadsWell (c ∷ []) = Unit
LeadsWell (c ∷ d ∷ s) = c ≢ b'0'

FirstNotZero-LeadsWell : (s : List ℕ) → FirstNotZero s → LeadsWell s
FirstNotZero-LeadsWell [] h = h
FirstNotZero-LeadsWell (c ∷ []) h = tt
FirstNotZero-LeadsWell (c ∷ d ∷ s) h = h

AllDigits-snoc : (s : List ℕ) (c : ℕ) → AllDigits s → b'0' ≤ c → c ≤ b'9' → AllDigits (s ++ c ∷ [])
AllDigits-snoc [] c h l g = (l, g, tt)
AllDigits-snoc (d ∷ s) c (a, b, h) l g = (a, b, AllDigits-snoc s c h l g)

-- The first character of a numeral that goes on with the last digit of `n`.
FirstNotZero-snoc :
    (s : List ℕ) (n : ℕ)
    → n ≢ 0
    → (n / 10 ≢ 0 → FirstNotZero s)
    → (n / 10 ≡ 0 → s ≡ [])
    → FirstNotZero (s ++ (48 + n % 10) ∷ [])
FirstNotZero-snoc [] n z f e = elim (ℕ_discrete (n / 10) 0) [
  | yes d ↦ λ q. z (omega arith)
  | no m ↦ absurd (f m)
]
FirstNotZero-snoc (c ∷ s) n z f e = elim (ℕ_discrete (n / 10) 0) [
  | yes d ↦ absurd (no_cons c s (e d))
  | no m ↦ f m
]
  where
    no_cons : (c : ℕ) (s : List ℕ) → ◌≡◌ {A = List ℕ} (c ∷ s) [] → ⊥
    no_cons c s h = ground arith

-- What the loop gives: it stays in the buffer, and the digits come before what was there.
record Written (d n loc : ℕ) (out : List ℕ) (result : Option (ℕ × List ℕ)) : Type 0 where
  loc' : ℕ
  out' : List ℕ
  returns : result ≡ some (loc', out')
  room : loc ≤ loc' + d
  below : loc' ≤ loc
  value : numeral_value 0 out' ≡ numeral_value n out
  digits : NotMinus out'
  text : List ℕ
  cut : out' ≡ text ++ out
  solid : IsText text
  moved : n ≢ 0 → loc' < loc
  all_digits : AllDigits text
  first : n ≢ 0 → FirstNotZero text
  empty : n ≡ 0 → text ≡ []

none-Written : (d loc : ℕ) (out : List ℕ) → NotMinus out → Written d 0 loc out (some (loc, out))
none-Written d loc out h = record {
  loc' = loc;
  out' = out;
  returns = refl;
  room = omega arith;
  below = omega arith;
  value = refl;
  digits = h;
  text = [];
  cut = refl;
  solid = tt;
  moved = λ z. absurd (z refl);
  all_digits = tt;
  first = λ z. absurd (z refl);
  empty = λ z. refl;
}

digit-Written :
    (d n loc : ℕ) (out : List ℕ) (result : Option (ℕ × List ℕ))
    → 0 < loc
    → n ≢ 0
    → Written d (n / 10) (loc - 1) ((48 + n % 10) ∷ out) result
    → Written (suc d) n loc out result
digit-Written d n loc out result h m w = record {
  loc' = w.loc';
  out' = w.out';
  returns = w.returns;
  room = omega (arith, w.room);
  below = omega (arith, w.below);
  value = w.value ∙ digit;
  digits = w.digits;
  text = w.text ++ (48 + n % 10) ∷ [];
  cut = w.cut ∙ append-shift w.text (48 + n % 10) out;
  solid = IsText-snoc w.text (48 + n % 10) w.solid (omega arith);
  moved = λ z. omega (arith, w.below, h);
  all_digits = AllDigits-snoc w.text (48 + n % 10) w.all_digits (omega arith) (omega arith);
  first = λ z. FirstNotZero-snoc w.text n z w.first w.empty;
  empty = λ z. absurd (m z);
}
  where
    digit : numeral_value (n / 10) ((48 + n % 10) ∷ out) ≡ numeral_value n out
    digit = ap (λ c. numeral_value (n / 10) (c ∷ out)) (omega arith) ∙ numeral_value-digit n out

itoa_loop-Written :
    (d n loc : ℕ) (out : List ℕ)
    → n < 10 ^ d
    → d ≤ loc
    → NotMinus out
    → Written d n loc out (itoa_loop (suc d) n loc out)
unfolding itoa_loop
itoa_loop-Written zero n loc out h r m =
    let z : n ≡ 0 = omega arith in rw z (none-Written 0 loc out m)
itoa_loop-Written (suc d) n loc out h r m = elim (Bool-cases (n == 0)) [
  | inl z ↦ rw (==_eq n 0 z) (none-Written (suc d) loc out m)
  | inr z ↦
      rw (z, ==_ne loc 0 (omega arith))
        (digit-Written d n loc out (itoa_loop (suc d) (n / 10) (loc - 1) ((48 + n % 10) ∷ out))
          (omega arith) (==_not n 0 z)
          (itoa_loop-Written d (n / 10) (loc - 1) ((48 + n % 10) ∷ out) (pow-ten d n h)
            (omega arith) (omega arith)))
]

-- The digits of a magnitude, with a byte left before them.
record Digits (n : ℕ) (result : Option (ℕ × List ℕ)) : Type 0 where
  loc : ℕ
  text : List ℕ
  returns : result ≡ some (loc, text ++ 0 ∷ [])
  room : 0 < loc
  value : numeral_value 0 (text ++ 0 ∷ []) ≡ n
  digits : NotMinus (text ++ 0 ∷ [])
  solid : IsText text
  all_digits : AllDigits text
  leads : LeadsWell text

zero-Digits : (n : ℕ) → n ≡ 0 → Digits n (itoa_digits n)
unfolding itoa_digits itoa_loop numeral_value
zero-Digits n z = rw z record {
  loc = 10;
  text = b'0' ∷ [];
  returns = refl;
  room = omega arith;
  value = refl;
  digits = omega arith;
  solid = (omega arith, tt);
  all_digits = (omega arith, omega arith, tt);
  leads = tt;
}

itoa_digits-Digits : (n : ℕ) → n < 10 ^ 10 → Digits n (itoa_digits n)
unfolding itoa_digits
itoa_digits-Digits n h =
    let w = itoa_loop-Written 10 n 11 (0 ∷ []) h (omega arith) (omega arith) in
    elim (Bool-cases (n == 0)) [
      | inl z ↦ zero-Digits n (==_eq n 0 z)
      | inr z ↦
          rw (w.returns, ==_ne w.loc' 11 (omega (arith, w.moved (==_not n 0 z))))
            record {
              loc = w.loc';
              text = w.text;
              returns = ap (λ o. some (w.loc', o)) w.cut;
              room = omega (arith, w.room);
              value = ap (numeral_value 0) (sym w.cut) ∙ w.value ∙ last_value n;
              digits = subst NotMinus w.cut w.digits;
              solid = w.solid;
              all_digits = w.all_digits;
              leads = FirstNotZero-LeadsWell w.text (w.first (==_not n 0 z));
            }
    ]

numeral_value-text :
    (acc : ℕ) (s : List ℕ) → IsText s → numeral_value acc (s ++ 0 ∷ []) ≡ numeral_value acc s
unfolding numeral_value
numeral_value-text acc [] h = refl
numeral_value-text acc (c ∷ s) h =
    rw (==_ne c 0 h.0) (numeral_value-text (acc * 10 + (c - 48)) s h.1)

-- Decimal digits, one or more, without a leading zero; before them a minus for a number below 0.
abbrev pub IsSigned : ℤ → List ℕ → Type 0
IsSigned (pos n) s = AllDigits s × LeadsWell s
IsSigned (negsuc n) [] = ⊥
IsSigned (negsuc n) (c ∷ s) = (c ≡ b'-') × AllDigits s × LeadsWell s

-- The decimal numeral of a number.
pub record IsNumeral (i : ℤ) (s : List ℕ) : Type 0 where
  pub solid : IsText s
  pub signed : IsSigned i s
  pub value : int_value s ≡ i

NotMinus-cut : (s : List ℕ) → NotMinus (s ++ 0 ∷ []) → NotMinus s
NotMinus-cut [] h = tt
NotMinus-cut (c ∷ s) h = h

-- Every number of 32 bits with a sign, also the least, -2 ^ 31, is written in the buffer as the
-- terminated decimal numeral that stands for it: one digit or more, each from 0 to 9, of which the
-- first of several is not 0, and before them a minus exactly when the number is negative.
pub itoa-IsNumeral :
    (i : ℤ) → IsInt i → (s : List ℕ) × (itoa i ≡ some (s ++ 0 ∷ [])) × IsNumeral i s
unfolding itoa int_value
itoa-IsNumeral (pos n) h =
    let d = itoa_digits-Digits n (omega arith) in
    (
      d.text,
      rw d.returns refl,
      record {
        solid = d.solid;
        signed = (d.all_digits, d.leads);
        value =
            int_value-digits d.text (NotMinus-cut d.text d.digits)
            ∙ ap pos (sym (numeral_value-text 0 d.text d.solid) ∙ d.value);
      },
    )
itoa-IsNumeral (negsuc n) h =
    let d = itoa_digits-Digits (n + 1) (omega arith) in
    (
      b'-' ∷ d.text,
      rw (d.returns, ==_ne d.loc 0 (omega (arith, d.room))) refl,
      record {
        solid = (omega arith, d.solid);
        signed = (refl, d.all_digits, d.leads);
        value = ap neg (sym (numeral_value-text 0 d.text d.solid) ∙ d.value) ∙ neg_suc n;
      },
    )
