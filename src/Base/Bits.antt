-- ===== src/Base/Bits.antt =====
-- The bit operations at variables: the law of the lowest digit, and the case of disjoint bits.
use Prim.Native.Nat.{
  ℕ, zero, suc, ◌+◌, ◌*◌, ◌/◌, ◌%◌, ◌^◌, ◌≤◌, ◌<◌, max, bit_or, digits, bit_or-bitwise,
}
use mathlib.Core.Path.{◌≡◌, refl, ap, ap₂, ◌∙◌}
use native.Mathlib.Omega.{arith}
use native.Mathlib.Nat.{pow-suc}

abbrev or_digits : ℕ → ℕ → ℕ → ℕ
or_digits n a b = digits (λ b. b) max n a b

or_digits_fuel : (n m a b : ℕ) → a ≤ n → a ≤ m → or_digits n a b ≡ or_digits m a b
or_digits_fuel zero zero a b p q = refl
or_digits_fuel zero (suc m) zero b p q = refl
or_digits_fuel zero (suc m) (suc a) b p q = absurd (omega arith)
or_digits_fuel (suc n) zero zero b p q = refl
or_digits_fuel (suc n) zero (suc a) b p q = absurd (omega arith)
or_digits_fuel (suc n) (suc m) zero b p q = refl
or_digits_fuel (suc n) (suc m) (suc a) b p q =
    omega (arith, or_digits_fuel n m (suc a / 2) (b / 2) (omega arith) (omega arith))

zero-bit_or : (b : ℕ) → bit_or 0 b ≡ b
zero-bit_or b = bit_or-bitwise 0 b

pub bit_or_step : (a b : ℕ) → bit_or a b ≡ bit_or (a / 2) (b / 2) * 2 + max (a % 2) (b % 2)
bit_or_step zero b = omega (arith, zero-bit_or b, zero-bit_or (b / 2))
bit_or_step (suc a) b = omega (
  arith,
  bit_or-bitwise (suc a) b,
  bit_or-bitwise (suc a / 2) (b / 2),
  or_digits_fuel a (suc a / 2) (suc a / 2) (b / 2) (omega arith) (omega arith),
)

bit_or-zero_fuel : (n a : ℕ) → a ≤ n → bit_or a 0 ≡ a
bit_or-zero_fuel n zero h = zero-bit_or 0
bit_or-zero_fuel zero (suc a) h = absurd (omega arith)
bit_or-zero_fuel (suc n) (suc a) h =
    omega (arith, bit_or_step (suc a) 0, bit_or-zero_fuel n (suc a / 2) (omega arith))

bit_or_zero_width : (a b p : ℕ) → p ≡ 1 → b < p → bit_or (a * p) b ≡ a * p + b
bit_or_zero_width a b p e h =
    let b_zero : b ≡ 0 = omega arith in
    let a_same : a * p ≡ a = omega (arith, ap (λ (t : ℕ). a * t) e) in
    ap₂ bit_or a_same b_zero ∙ bit_or-zero_fuel a a (omega arith) ∙ omega arith

-- The bits of a multiple of `2 ^ k` and of a number below it are disjoint: `|` is then a sum.
pub bit_or_disjoint : (k a b p : ℕ) → p ≡ 2 ^ k → b < p → bit_or (a * p) b ≡ a * p + b
bit_or_disjoint zero a b p e h = bit_or_zero_width a b p e h
bit_or_disjoint (suc k) a b p e h =
    let q : ℕ = 2 ^ k in
    let double : a * p ≡ a * q * 2 = omega (arith, ap (λ (t : ℕ). a * t) (e ∙ pow-suc 2 k)) in
    let high : a * p / 2 ≡ a * q = omega arith in
    let low : max (a * p % 2) (b % 2) ≡ b % 2 = omega arith in
    let below : b / 2 < q = omega (arith, pow-suc 2 k) in
    let rest : bit_or (a * p / 2) (b / 2) ≡ a * q + b / 2 =
      ap (λ (t : ℕ). bit_or t (b / 2)) high ∙ bit_or_disjoint k a (b / 2) q refl below in
    omega (arith, bit_or_step (a * p) b)
