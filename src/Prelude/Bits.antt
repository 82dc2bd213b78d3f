-- ===== src/Prelude/Bits.antt =====
-- The bitwise or of a number whose low digits are 0 and a number of so many digits is their sum.
use Prim.Native.Nat.{
  ℕ, zero, suc, ◌+◌, ◌*◌, ◌/◌, ◌%◌, ◌≤◌, ◌<◌, max, digits, bit_or, bit_or-bitwise,
}
use mathlib.Core.Path.{◌≡◌, ◌∙◌, ap, sym}
use native.Mathlib.Omega.{arith}

-- The lowest `k` digits of `m` are 0, and `b` has no others.
abbrev Apart : ℕ → ℕ → ℕ → Type 0
Apart zero m b = b ≡ 0
Apart (suc k) m b = (m % 2 ≡ 0) × Apart k (m / 2) (b / 2)

zero_digit : (d x : ℕ) → d * 2 + max (x % 2) 0 ≡ d * 2 + x % 2
zero_digit d x = omega arith

digits-sum : (n k m b : ℕ) → m ≤ n → Apart k m b → digits (λ y. y) max n m b ≡ m + b
digits-sum zero k zero b h a = omega arith
digits-sum zero k (suc m) b h a = absurd (omega arith)
digits-sum (suc n) k zero b h a = omega arith
digits-sum (suc n) zero (suc m) b h a =
    ap (λ d. d * 2 + max (suc m % 2) (b % 2))
      (digits-sum n zero (suc m / 2) (b / 2) (omega arith) (omega (arith, a)))
    ∙ (omega (arith, a))
digits-sum (suc n) (suc k) (suc m) b h a =
    ap (λ d. d * 2 + max (suc m % 2) (b % 2)) (digits-sum n k (suc m / 2) (b / 2) (omega arith) a.1)
    ∙ (omega (arith, a.0))

-- A multiple of 4096 and twelve digits.
pub bit_or-page : (m b : ℕ) → m % 4096 ≡ 0 → b < 4096 → bit_or m b ≡ m + b
bit_or-page m b h l =
    (λ i. bit_or-bitwise m b i)
    ∙ digits-sum m 12 m b (omega arith) (
      omega arith,
      (
        omega arith,
        (
          omega arith,
          (
            omega arith,
            (
              omega arith,
              (
                omega arith,
                (
                  omega arith,
                  (
                    omega arith,
                    (omega arith, (omega arith, (omega arith, (omega arith, omega arith)))),
                  ),
                ),
              ),
            ),
          ),
        ),
      ),
    )

halves : ℕ → ℕ → ℕ
halves zero x = x
halves (suc k) x = halves k (x / 2)

halves-zero : (k : ℕ) → halves k 0 ≡ 0
unfolding halves
halves-zero zero = omega arith
halves-zero (suc k) = ap (halves k) zero_half ∙ halves-zero k
  where
    zero_half : 0 / 2 ≡ 0
    zero_half = omega arith

-- Digits that `b` does not have are those of `m`.
digits-high :
    (k n m b : ℕ) → m ≤ n → halves k b ≡ 0 → halves k (digits (λ y. y) max n m b) ≡ halves k m
unfolding halves
digits-high zero n m b h z = digits-sum n zero m b h z ∙ omega (arith, z)
digits-high (suc k) zero zero b h z = z ∙ sym (halves-zero (suc k))
digits-high (suc k) zero (suc m) b h z = absurd (omega arith)
digits-high (suc k) (suc n) zero b h z = z ∙ sym (halves-zero (suc k))
digits-high (suc k) (suc n) (suc m) b h z =
    ap (halves k) (half_digit (digits (λ y. y) max n (suc m / 2) (b / 2)) (suc m) b)
    ∙ digits-high k n (suc m / 2) (b / 2) (omega arith) z
  where
    half_digit : (d x y : ℕ) → (d * 2 + max (x % 2) (y % 2)) / 2 ≡ d
    half_digit d x y = omega arith

halves-twelve : (x : ℕ) → halves 12 x ≡ x / 4096
unfolding halves
halves-twelve x = omega arith

-- What is behind the lowest twelve digits.
pub bit_or-high : (m b : ℕ) → b < 4096 → bit_or m b / 4096 ≡ m / 4096
bit_or-high m b h =
    sym (halves-twelve (bit_or m b))
    ∙ ap (halves 12) (λ i. bit_or-bitwise m b i)
    ∙ digits-high 12 m m b (omega arith) (halves-twelve b ∙ omega arith)
    ∙ halves-twelve m

digits-odd : (n m : ℕ) → m ≤ n → digits (λ y. y) max n m 1 % 2 ≡ 1
digits-odd zero zero h = omega arith
digits-odd zero (suc m) h = absurd (omega arith)
digits-odd (suc n) zero h = omega arith
digits-odd (suc n) (suc m) h = last_digit (digits (λ y. y) max n (suc m / 2) (1 / 2)) (suc m)
  where
    last_digit : (d x : ℕ) → (d * 2 + max (x % 2) (1 % 2)) % 2 ≡ 1
    last_digit d x = omega arith

-- The lowest digit is set.
pub bit_or-odd : (m : ℕ) → bit_or m 1 % 2 ≡ 1
bit_or-odd m = ap (λ x. x % 2) (λ i. bit_or-bitwise m 1 i) ∙ digits-odd m m (omega arith)
