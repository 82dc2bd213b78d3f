-- ===== src/Strings/Decimal.antt =====
-- `int_to_string` writes decimal numerals.
use vana.Prelude.{
  ℕ, zero, suc, ◌+◌, ◌-◌, ◌*◌, ◌/◌, ◌%◌, ◌^◌, ◌<◌, ◌≡◌, refl, pos, List, [], ◌∷◌, arith, ap, sym,
  ◌∙◌, inl, inr, ◌==◌, ==_ne, ==_eq, Bool-cases, if◌then◌else◌,
}
use native.Mathlib.Nat.{pow-suc}
use vana.Strings.{digits_loop, copy_back, int_to_string}

-- The number that a terminated numeral stands for, read from the left with `acc` for what was read.
unfoldable pub numeral_value : ℕ → List ℕ → ℕ
numeral_value acc [] = acc
numeral_value acc (c ∷ s) =
    let rest = numeral_value (acc * 10 + (c - 48)) s in if c == 0 then acc else rest

pub numeral_value-digit :
    (value : ℕ) (out : List ℕ)
    → numeral_value (value / 10) ((value % 10 + 48) ∷ out) ≡ numeral_value value out
unfolding numeral_value
numeral_value-digit value out =
    rw (==_ne (value % 10 + 48) 0 (omega arith)) (ap (λ v. numeral_value v out) (omega arith))

pub pow-ten : (fuel value : ℕ) → value < 10 ^ suc fuel → value / 10 < 10 ^ fuel
pow-ten fuel value h = let h' = rw pow-suc at h in omega arith

-- Reading the digits that the second loop writes first comes to the value.
numeral_value-copy_back :
    (fuel value : ℕ) (out : List ℕ)
    → value < 10 ^ fuel
    → numeral_value 0 (copy_back (digits_loop fuel value) out) ≡ numeral_value value out
unfolding digits_loop copy_back
numeral_value-copy_back zero value out h = ap (λ v. numeral_value v out) (omega arith)
numeral_value-copy_back (suc fuel) value out h = elim (Bool-cases (value == 0)) [
  | inl done ↦
      rw (done, copy_back) (ap (λ v. numeral_value v out) (omega (arith, ==_eq value 0 done)))
  | inr more ↦
      rw (more, copy_back)
        (numeral_value-copy_back fuel (value / 10) ((value % 10 + 48) ∷ out) (pow-ten fuel value h)
          ∙ numeral_value-digit value out)
]

-- A value from 0 to 2 ^ 31 - 1 is written as a terminated decimal numeral that stands for it.
pub int_to_string-value :
    (value : ℕ) → value < 2 ^ 31 → numeral_value 0 (int_to_string (pos value)) ≡ value
unfolding int_to_string numeral_value
int_to_string-value value h = elim (Bool-cases (value == 0)) [
  | inl done ↦ rw (done, int_to_string) (zero_case value (==_eq value 0 done))
  | inr more ↦
      rw (more, int_to_string)
        (numeral_value-copy_back 10 value (0 ∷ []) (omega arith) ∙ terminated value)
]
  where
    zero_case : (v : ℕ) → v ≡ 0 → numeral_value 0 (b'0' ∷ 0 ∷ []) ≡ v
    zero_case v e = sym e

    terminated : (v : ℕ) → numeral_value v (0 ∷ []) ≡ v
    terminated v = refl
