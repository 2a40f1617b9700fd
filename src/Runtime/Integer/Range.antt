-- ===== src/Runtime/Integer/Range.antt =====
-- Every integer operation of the host services (src/minimachine/runtime.py) gives a number of its
-- width.
use minimachine.Prelude.{
  ℕ, suc, zero, ◌*◌, ◌/◌, ◌%◌, ◌^◌, ◌≤◌, ◌<◌, ◌≡◌, refl, sym, subst, arith, bit_and, bit_or,
  bit_xor, ok, le→leb, max, min,
}
use native.Mathlib.Nat.{pow-suc, mod-lt, div-le_self}
use Prim.Native.Nat.{digits, bit_and-bitwise, bit_or-bitwise, bit_xor-bitwise, differ}
use minimachine.Prelude.Int.{ℤ, pos, negsuc, mod_ℤ}
use minimachine.Runtime.Integer.{
  IntOp, int_and, int_or, int_xor, int_mul, int_shl, int_lshr, int_ashr, int_udiv, int_urem,
  int_sdiv, int_srem, compute, binary_integer, check_width, signed_div, signed_rem, signed,
  quotient,
}
use minimachine.Prelude.Int.{◌-ℤ◌, ◌*ℤ◌, floor_div}
use minimachine.Runtime.Integer.Signed.{pow-pos}

-- A digit-wise operation whose digits are at most 1 keeps within `k` digits.
digits-lt :
    (z : ℕ → ℕ) (f : ℕ → ℕ → ℕ)
    → ((b : ℕ) → z b ≤ b)
    → ((a b : ℕ) → a < 2 → b < 2 → f a b < 2)
    → (k n a b : ℕ) → a < 2 ^ k
    → b < 2 ^ k
    → digits z f n a b < 2 ^ k
digits-lt z f hz hf k zero a b p q = omega (arith, hz b)
digits-lt z f hz hf k (suc n) zero b p q = omega (arith, hz b)
digits-lt z f hz hf zero (suc n) (suc a) b p q = absurd (omega arith)
digits-lt z f hz hf (suc k) (suc n) (suc a) b p q = omega (
  arith,
  pow-suc 2 k,
  hf (suc a % 2) (b % 2) (omega arith) (omega arith),
  digits-lt z f hz hf k n (suc a / 2) (b / 2) (omega (arith, pow-suc 2 k))
      (omega (arith, pow-suc 2 k)),
)

pub bit_and-lt : (k a b : ℕ) → a < 2 ^ k → b < 2 ^ k → bit_and a b < 2 ^ k
bit_and-lt k a b p q =
    subst (λ t. t < 2 ^ k) (sym (bit_and-bitwise a b))
      (digits-lt (λ b. 0) min (λ b. omega arith) (λ a b h i. omega arith) k a a b p q)

pub bit_or-lt : (k a b : ℕ) → a < 2 ^ k → b < 2 ^ k → bit_or a b < 2 ^ k
bit_or-lt k a b p q =
    subst (λ t. t < 2 ^ k) (sym (bit_or-bitwise a b))
      (digits-lt (λ b. b) max (λ b. omega arith) (λ a b h i. omega arith) k a a b p q)

differ-lt : (a b : ℕ) → a < 2 → b < 2 → differ a b < 2
differ-lt zero b p q = q
differ-lt (suc zero) zero p q = p
differ-lt (suc zero) (suc zero) p q = omega arith
differ-lt (suc zero) (suc (suc b)) p q = absurd (omega arith)
differ-lt (suc (suc a)) b p q = absurd (omega arith)

pub bit_xor-lt : (k a b : ℕ) → a < 2 ^ k → b < 2 ^ k → bit_xor a b < 2 ^ k
bit_xor-lt k a b p q =
    subst (λ t. t < 2 ^ k) (sym (bit_xor-bitwise a b))
      (digits-lt (λ b. b) differ (λ b. omega arith) differ-lt k a a b p q)

pub mod_ℤ-lt : (z : ℤ) (m : ℕ) → 0 < m → mod_ℤ z m < m
unfolding mod_ℤ
mod_ℤ-lt (pos n) m h = mod-lt n h
mod_ℤ-lt (negsuc n) m h = omega arith

compute-lt :
    (op : IntOp) (bits a b : ℕ) → a < 2 ^ bits → b < 2 ^ bits → compute op bits a b < 2 ^ bits
unfolding compute signed_div signed_rem
compute-lt int_and bits a b p q = bit_and-lt bits a b p q
compute-lt int_or bits a b p q = bit_or-lt bits a b p q
compute-lt int_xor bits a b p q = bit_xor-lt bits a b p q
compute-lt int_mul bits a b p q = mod-lt (a * b) (pow-pos bits)
compute-lt int_shl bits a b p q = ground (arith, pow-pos bits, mod-lt (a * 2 ^ b) (pow-pos bits))
compute-lt int_lshr bits a b p q = ground (arith, pow-pos bits, div-le_self a (2 ^ b))
compute-lt int_ashr bits a b p q =
    ground
      (arith, pow-pos bits, mod_ℤ-lt (floor_div (signed a bits) (2 ^ b)) (2 ^ bits) (pow-pos bits))
compute-lt int_udiv bits a b p q = ground (arith, pow-pos bits, mod-lt (a / b) (pow-pos bits))
compute-lt int_urem bits a b p q = ground (arith, pow-pos bits, mod-lt (a % b) (pow-pos bits))
compute-lt int_sdiv bits a b p q = ground (
  arith,
  pow-pos bits,
  mod_ℤ-lt (quotient (signed a bits) (signed b bits)) (2 ^ bits) (pow-pos bits),
)
compute-lt int_srem bits a b p q = ground (
  arith,
  pow-pos bits,
  mod_ℤ-lt (signed a bits -ℤ quotient (signed a bits) (signed b bits) *ℤ signed b bits) (2 ^ bits)
      (pow-pos bits),
)

-- At every width but 0, each operation succeeds on any two numbers, division by zero and shifts
-- past the width included, and its result fits the width.
pub binary_integer-lt :
    (op : IntOp) (bits a b : ℕ)
    → 0 < bits
    → (r : ℕ) × (binary_integer op bits a b ≡ ok r) × (r < 2 ^ bits)
unfolding binary_integer check_width
binary_integer-lt op bits a b h = (
  compute op bits (a % 2 ^ bits) (b % 2 ^ bits),
  rw (le→leb 1 bits h) refl,
  compute-lt op bits (a % 2 ^ bits) (b % 2 ^ bits) (mod-lt a (pow-pos bits))
      (mod-lt b (pow-pos bits)),
)
