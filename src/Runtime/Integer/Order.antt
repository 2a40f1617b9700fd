-- ===== src/Runtime/Integer/Order.antt =====
-- The comparisons of `_icmp` (src/minimachine/runtime.py).
use minimachine.Prelude.{
  ℕ, ◌+◌, ◌-◌, ◌*◌, ◌%◌, ◌^◌, ◌≤◌, ◌<◌, ◌≡◌, ap, ◌∙◌, arith, Bool-cases, inl, inr, leb, leb→le,
  leb-false, if◌then◌else◌,
}
use native.Mathlib.Nat.{mod-lt, mod-eq_of_lt, mod-add-mod, add-mod_right}
use minimachine.Prelude.Int.{pos, sub_ℕ, pos_part, neg_part}
use minimachine.Runtime.Integer.{
  Predicate, icmp_eq, icmp_ne, icmp_ult, icmp_ule, icmp_ugt, icmp_uge, icmp_slt, icmp_sle, icmp_sgt,
  icmp_sge, holds, icmp, signed,
}
use minimachine.Runtime.Integer.Signed.{pow-pos, pow_half}

-- The unsigned predicate of a signed one.
pub unsigned_of : Predicate → Predicate
unsigned_of icmp_slt = icmp_ult
unsigned_of icmp_sle = icmp_ule
unsigned_of icmp_sgt = icmp_ugt
unsigned_of icmp_sge = icmp_uge
unsigned_of pred = pred

abbrev pub IsSigned : Predicate → Type 0
IsSigned icmp_slt = Unit
IsSigned icmp_sle = Unit
IsSigned icmp_sgt = Unit
IsSigned icmp_sge = Unit
IsSigned pred = ⊥

-- Adding half of the modulus `2 * p` to a number below it.
biased-low : (p low : ℕ) → p ≤ low → low < 2 * p → (low + p) % (2 * p) ≡ low - p
biased-low p low h k = omega (
  arith,
  mod-eq_of_lt (below p low h k),
  add-mod_right (low - p) (2 * p),
  ap (λ (t : ℕ). t % (2 * p)) (regroup p low h),
)
  where
    below : (p low : ℕ) → p ≤ low → low < 2 * p → low - p < 2 * p
    below p low h k = omega arith

    regroup : (p low : ℕ) → p ≤ low → low + p ≡ low - p + 2 * p
    regroup p low h = omega arith

complement-biased :
    (p low : ℕ)
    → low < 2 * p
    → pos_part (if leb p low then sub_ℕ low (2 * p) else pos low) + p
      ≡ (low + p) % (2 * p) + neg_part (if leb p low then sub_ℕ low (2 * p) else pos low)
complement-biased p low h = elim (Bool-cases (leb p low)) [
  | inl e ↦ rw e (ground (arith, biased-low p low (leb→le p low e) h))
  | inr e ↦ rw e (ground (arith, mod-eq_of_lt (above p low h (leb-false p low e))))
]
  where
    above : (p low : ℕ) → low < 2 * p → low < p → low + p < 2 * p
    above p low h k = omega arith

signed-biased :
    (a bits : ℕ)
    → 0 < bits
    → pos_part (signed a bits) + 2 ^ (bits - 1)
      ≡ (a + 2 ^ (bits - 1)) % 2 ^ bits + neg_part (signed a bits)
unfolding signed
signed-biased a bits h =
    let p : ℕ = 2 ^ (bits - 1) in
    rw (pow_half bits h) (
      complement-biased p (a % (2 * p)) (mod-lt a (omega (arith, pow-pos (bits - 1))))
      ∙ ap
          (λ (t : ℕ).
            t
            + neg_part
                (if leb p (a % (2 * p)) then sub_ℕ (a % (2 * p)) (2 * p) else pos (a % (2 * p))))
          (mod-add-mod a (2 * p) p))

-- A signed comparison is the unsigned one of the numbers with half of the modulus added to each.
pub icmp-unsigned_of :
    (pred : Predicate) (bits a b : ℕ)
    → IsSigned pred
    → 0 < bits
    → icmp pred bits a b ≡ icmp (unsigned_of pred) bits (a + 2 ^ (bits - 1)) (b + 2 ^ (bits - 1))
unfolding icmp holds unsigned_of
icmp-unsigned_of icmp_slt bits a b s h =
    ground (arith, signed-biased a bits h, signed-biased b bits h)
icmp-unsigned_of icmp_sle bits a b s h =
    ground (arith, signed-biased a bits h, signed-biased b bits h)
icmp-unsigned_of icmp_sgt bits a b s h =
    ground (arith, signed-biased a bits h, signed-biased b bits h)
icmp-unsigned_of icmp_sge bits a b s h =
    ground (arith, signed-biased a bits h, signed-biased b bits h)
icmp-unsigned_of icmp_eq bits a b s h = elim s [ ]
icmp-unsigned_of icmp_ne bits a b s h = elim s [ ]
icmp-unsigned_of icmp_ult bits a b s h = elim s [ ]
icmp-unsigned_of icmp_ule bits a b s h = elim s [ ]
icmp-unsigned_of icmp_ugt bits a b s h = elim s [ ]
icmp-unsigned_of icmp_uge bits a b s h = elim s [ ]
