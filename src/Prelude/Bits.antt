-- ===== src/Prelude/Bits.antt =====
-- `bit_or` of two numbers with no common bit is their sum.
use Prim.Native.Nat.{
  ℕ, zero, suc, ◌+◌, ◌*◌, ◌/◌, ◌%◌, ◌^◌, ◌≤◌, ◌<◌, max, bit_or, digits, bit_or-bitwise,
}
use native.Mathlib.Nat.{pow-suc}
use mathlib.Core.Path.{◌≡◌, refl, ap, ◌∙◌}
use native.Mathlib.Omega.{arith}

abbrev or_digits : ℕ → ℕ → ℕ → ℕ
or_digits n a b = digits (λ b. b) max n a b

or_digits_fuel : (n m a b : ℕ) → a ≤ n → a ≤ m → or_digits n a b ≡ or_digits m a b
or_digits_fuel zero zero x y p q = refl
or_digits_fuel (suc n) zero zero y p q = refl
or_digits_fuel (suc n) zero (suc x) y p q = absurd (omega arith)
or_digits_fuel zero (suc m) zero y p q = refl
or_digits_fuel zero (suc m) (suc x) y p q = absurd (omega arith)
or_digits_fuel (suc n) (suc m) zero y p q = refl
or_digits_fuel (suc n) (suc m) (suc x) y p q =
    omega (arith, or_digits_fuel n m (suc x / 2) (y / 2) (omega arith) (omega arith))

pub zero-bit_or : (b : ℕ) → bit_or 0 b ≡ b
zero-bit_or b = bit_or-bitwise 0 b

bit_or_step : (a b : ℕ) → bit_or a b ≡ bit_or (a / 2) (b / 2) * 2 + max (a % 2) (b % 2)
bit_or_step zero b = omega (arith, zero-bit_or b, zero-bit_or (b / 2))
bit_or_step (suc a) b = omega (
  arith,
  bit_or-bitwise (suc a) b,
  bit_or-bitwise (suc a / 2) (b / 2),
  or_digits_fuel a (suc a / 2) (suc a / 2) (b / 2) (omega arith) (omega arith),
)

mul-pow-suc : (k b : ℕ) → b * 2 ^ suc k ≡ b * 2 ^ k * 2
mul-pow-suc k b = ap (λ (t : ℕ). b * t) (pow-suc 2 k) ∙ omega arith

half-double : (k b : ℕ) → (b * 2 ^ suc k) / 2 ≡ b * 2 ^ k
half-double k b = omega (arith, mul-pow-suc k b)

pub bit_or-disjoint : (k v b : ℕ) → v < 2 ^ k → bit_or v (b * 2 ^ k) ≡ v + b * 2 ^ k
bit_or-disjoint zero zero b h = omega (arith, zero-bit_or (b * 1))
bit_or-disjoint zero (suc v) b h = absurd (omega arith)
bit_or-disjoint (suc k) v b h = omega (
  arith,
  mul-pow-suc k b,
  bit_or_step v (b * 2 ^ suc k),
  bit_or-disjoint k (v / 2) b (omega (arith, pow-suc 2 k)),
  ap (λ (t : ℕ). bit_or (v / 2) t) (half-double k b),
)
