-- ===== src/Runtime/Integer/Signed.antt =====
-- `_signed` of src/minimachine/runtime.py is two's complement, and the signed remainder is that of
-- a division that rounds toward zero.
use minimachine.Prelude.{
  ℕ, suc, zero, ◌-◌, ◌*◌, ◌%◌, ◌^◌, ◌≤◌, ◌<◌, ◌≡◌, ap, arith, Bool-cases, inl, inr, leb,
  if◌then◌else◌,
}
use native.Mathlib.Nat.{pow-suc, mod-lt, div-add-mod, mod-eq_of_lt}
use minimachine.Prelude.Int.{
  ℤ, pos, negsuc, neg_ℤ, ◌-ℤ◌, ◌*ℤ◌, abs, is_negative, mod_ℤ, sub_ℕ, pos_part, neg_part,
}
use minimachine.Runtime.Integer.{signed, quotient}

pub pow-pos : (n : ℕ) → 0 < 2 ^ n
pow-pos zero = omega arith
pow-pos (suc n) = omega (arith, pow-suc 2 n, pow-pos n)

suc-sub_one : (n : ℕ) → suc n - 1 ≡ n
suc-sub_one n = omega arith

-- Half of the values of a width are negative.
pub pow_half : (bits : ℕ) → 0 < bits → 2 ^ bits ≡ 2 * 2 ^ (bits - 1)
pow_half zero h = absurd (omega arith)
pow_half (suc n) h = omega (arith, pow-suc 2 n, ap (λ (t : ℕ). 2 ^ t) (suc-sub_one n))

small : (p low : ℕ) → low < 2 * p → 2 * p - low - 1 < 2 * p
small p low h = omega arith

-- The integer in two's complement of a number below the modulus `2 * p`.
abbrev complement : ℕ → ℕ → ℤ
complement p low = if leb p low then sub_ℕ low (2 * p) else pos low

complement-mod_ℤ :
    (p low : ℕ)
    → low < 2 * p
    → (neg_part (complement p low) ≤ p)
      × (pos_part (complement p low) < p)
      × (mod_ℤ (complement p low) (2 * p) ≡ low)
unfolding mod_ℤ
complement-mod_ℤ p low h = elim (Bool-cases (leb p low)) [
  | inl e ↦ rw e (ground (arith, mod-eq_of_lt (small p low h)))
  | inr e ↦ rw e (ground (arith, mod-eq_of_lt h))
]

complement_of_mod_ℤ :
    (z : ℤ) (p : ℕ) → neg_part z ≤ p → pos_part z < p → complement p (mod_ℤ z (2 * p) % (2 * p)) ≡ z
unfolding mod_ℤ
complement_of_mod_ℤ (pos n) p h k =
    let e : n % (2 * p) ≡ n = mod-eq_of_lt (omega arith) in
    ground (arith, ap (λ (t : ℕ). t % (2 * p)) e)
complement_of_mod_ℤ (negsuc n) p h k =
    let e : n % (2 * p) ≡ n = mod-eq_of_lt (omega arith) in
    let low : ℕ = 2 * p - 1 - n in
    let f : low % (2 * p) ≡ low = mod-eq_of_lt (omega arith) in rw (e, f) (ground arith)

-- The signed value of a number lies in the range of its width, and is the number again when it is
-- cut to the width.
pub signed-mod_ℤ :
    (value bits : ℕ)
    → 0 < bits
    → (neg_part (signed value bits) ≤ 2 ^ (bits - 1))
      × (pos_part (signed value bits) < 2 ^ (bits - 1))
      × (mod_ℤ (signed value bits) (2 ^ bits) ≡ value % 2 ^ bits)
unfolding signed
signed-mod_ℤ value bits h = rw (pow_half bits h) (
    complement-mod_ℤ (2 ^ (bits - 1)) (value % (2 * 2 ^ (bits - 1)))
      (mod-lt value (omega (arith, pow-pos (bits - 1)))))

-- Every integer in the range of a width is the signed value of its bits.
pub signed-in_range :
    (z : ℤ) (bits : ℕ)
    → 0 < bits
    → neg_part z ≤ 2 ^ (bits - 1)
    → pos_part z < 2 ^ (bits - 1)
    → signed (mod_ℤ z (2 ^ bits)) bits ≡ z
unfolding signed
signed-in_range z bits h n p = rw (pow_half bits h) (complement_of_mod_ℤ z (2 ^ (bits - 1)) n p)

-- The remainder of the absolute values with the sign of the dividend.
pub remainder : ℤ → ℤ → ℤ
remainder sa sb = if is_negative sa then neg_ℤ (pos (abs sa % abs sb)) else pos (abs sa % abs sb)

-- What the truncating quotient leaves of the dividend is the remainder of the absolute values, with
-- the sign of the dividend.
pub quotient-remainder : (sa sb : ℤ) → sa -ℤ quotient sa sb *ℤ sb ≡ remainder sa sb
unfolding quotient remainder ◌-ℤ◌ ◌*ℤ◌
quotient-remainder (pos a) (pos b) = ground (arith, div-add-mod a b)
quotient-remainder (pos a) (negsuc b) = ground (arith, div-add-mod a (suc b))
quotient-remainder (negsuc a) (pos b) = ground (arith, div-add-mod (suc a) b)
quotient-remainder (negsuc a) (negsuc b) = ground (arith, div-add-mod (suc a) (suc b))
