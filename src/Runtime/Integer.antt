-- ===== src/Runtime/Integer.antt =====
-- The integer operations of the host services (src/minimachine/runtime.py), of any width: `_signed`,
-- `_binary_integer` and `_icmp`. The operation that a symbol names is an enumeration.
pub mod Signed
pub mod Range
pub mod Order
use minimachine.Prelude.{
  ℕ, ◌+◌, ◌-◌, ◌*◌, ◌/◌, ◌%◌, ◌^◌, Bool, true, false, not, ◌&&◌, Result, ok, err, require, ◌>>=◌,
  ◌>>◌, bit_and, bit_or, bit_xor, nat_eqb, ltb, leb, if◌then◌else◌,
}
use minimachine.Prelude.Int.{
  ℤ, pos, negsuc, neg_ℤ, ◌-ℤ◌, ◌*ℤ◌, ltb_ℤ, leb_ℤ, eqb_ℤ, abs, is_negative, floor_div, mod_ℤ, sub_ℕ,
}
use minimachine.Error.{VmError, service_failed, invalid_integer_width, width_outside_word}

-- `_int_mask`: `x & mask` is `x % 2 ^ bits` in what follows.
unfoldable pub check_width : ℕ → Result VmError (Unit {0})
check_width bits = require (leb 1 bits) (service_failed (invalid_integer_width bits))

-- `_mask`, whose widths fit a word
unfoldable pub check_word_width : ℕ → Result VmError (Unit {0})
check_word_width bits =
    require (leb 1 bits && leb bits 64) (service_failed (width_outside_word bits))

-- `_signed`, at a width that is not 0: the bit `bits - 1` is set when the value cut to its width
-- is at least `2 ^ (bits - 1)`.
unfoldable pub signed : ℕ → ℕ → ℤ
signed value bits =
    let low : ℕ = value % 2 ^ bits in
    if leb (2 ^ (bits - 1)) low then sub_ℕ low (2 ^ bits) else pos low

pub data IntOp : Type 0 where
  int_and : IntOp
  int_or : IntOp
  int_xor : IntOp
  int_mul : IntOp
  int_shl : IntOp
  int_lshr : IntOp
  int_ashr : IntOp
  int_udiv : IntOp
  int_urem : IntOp
  int_sdiv : IntOp
  int_srem : IntOp

-- `abs(sa) // abs(sb)`, negated when the signs differ
unfoldable pub quotient : ℤ → ℤ → ℤ
quotient sa sb =
    let q : ℕ = abs sa / abs sb in
    if is_negative sa
    then (if is_negative sb then pos q else neg_ℤ (pos q))
    else if is_negative sb
    then neg_ℤ (pos q)
    else pos q

-- the one quotient that does not fit
unfoldable pub overflows : ℕ → ℤ → ℤ → Bool
overflows bits sa sb = eqb_ℤ sa (sub_ℕ 0 (2 ^ (bits - 1))) && eqb_ℤ sb (negsuc 0)

unfoldable pub signed_div : ℕ → ℤ → ℤ → ℕ
signed_div bits sa sb =
    if eqb_ℤ sb (pos 0)
    then 0
    else if overflows bits sa sb
    then 0
    else mod_ℤ (quotient sa sb) (2 ^ bits)

unfoldable pub signed_rem : ℕ → ℤ → ℤ → ℕ
signed_rem bits sa sb =
    if eqb_ℤ sb (pos 0)
    then 0
    else if overflows bits sa sb
    then 0
    else mod_ℤ (sa -ℤ quotient sa sb *ℤ sb) (2 ^ bits)

-- The operations on numbers that are cut to the width.
unfoldable pub compute : IntOp → ℕ → ℕ → ℕ → ℕ
compute int_and bits a b = bit_and a b
compute int_or bits a b = bit_or a b
compute int_xor bits a b = bit_xor a b
compute int_mul bits a b = a * b % 2 ^ bits
compute int_shl bits a b = if leb bits b then 0 else a * 2 ^ b % 2 ^ bits
compute int_lshr bits a b = if leb bits b then 0 else a / 2 ^ b
compute int_ashr bits a b =
    if leb bits b then 0 else mod_ℤ (floor_div (signed a bits) (2 ^ b)) (2 ^ bits)
compute int_udiv bits a b = if nat_eqb b 0 then 0 else a / b % 2 ^ bits
compute int_urem bits a b = if nat_eqb b 0 then 0 else a % b % 2 ^ bits
compute int_sdiv bits a b = signed_div bits (signed a bits) (signed b bits)
compute int_srem bits a b = signed_rem bits (signed a bits) (signed b bits)

unfoldable pub binary_integer : IntOp → ℕ → ℕ → ℕ → Result VmError ℕ
binary_integer op bits a b = do check_width bits; ok (compute op bits (a % 2 ^ bits) (b % 2 ^ bits))

pub data Predicate : Type 0 where
  icmp_eq : Predicate
  icmp_ne : Predicate
  icmp_ult : Predicate
  icmp_ule : Predicate
  icmp_ugt : Predicate
  icmp_uge : Predicate
  icmp_slt : Predicate
  icmp_sle : Predicate
  icmp_sgt : Predicate
  icmp_sge : Predicate

-- The entry of the table.
unfoldable pub holds : Predicate → ℕ → ℕ → ℤ → ℤ → Bool
holds icmp_eq ua ub sa sb = nat_eqb ua ub
holds icmp_ne ua ub sa sb = not (nat_eqb ua ub)
holds icmp_ult ua ub sa sb = ltb ua ub
holds icmp_ule ua ub sa sb = leb ua ub
holds icmp_ugt ua ub sa sb = ltb ub ua
holds icmp_uge ua ub sa sb = leb ub ua
holds icmp_slt ua ub sa sb = ltb_ℤ sa sb
holds icmp_sle ua ub sa sb = leb_ℤ sa sb
holds icmp_sgt ua ub sa sb = ltb_ℤ sb sa
holds icmp_sge ua ub sa sb = leb_ℤ sb sa

-- `int(b)`
abbrev pub int_of_bool : Bool → ℕ
int_of_bool true = 1
int_of_bool false = 0

unfoldable pub icmp : Predicate → ℕ → ℕ → ℕ → Result VmError ℕ
icmp pred bits a b = do
  check_width bits
  ok (int_of_bool (holds pred (a % 2 ^ bits) (b % 2 ^ bits) (signed a bits) (signed b bits)))
