-- ===== src/Runtime/Arithmetic.antt =====
-- The arithmetic of the helpers of src/minimachine/runtime.py on words: byte swaps, funnel shifts,
-- minima and maxima, counts of bits, absolute values and saturation.
use minimachine.Prelude.{
  ℕ, zero, suc, ◌+◌, ◌-◌, ◌*◌, ◌/◌, ◌%◌, ◌^◌, min, Bool, ◌||◌, bit_and, bit_or, nat_eqb, List, [],
  ◌∷◌, ◌++◌, if◌then◌else◌,
}
use minimachine.Prelude.Int.{ℤ, pos, ◌+ℤ◌, ◌-ℤ◌, ◌*ℤ◌, sub_ℕ, mod_ℤ, abs, ltb_ℤ}
use minimachine.Runtime.Integer.{signed}

-- `int.bit_length`, by halving; the number has no more bits than `fuel`, itself.
unfoldable pub bit_length_from : ℕ → ℕ → ℕ
bit_length_from zero n = 0
bit_length_from (suc fuel) n =
    let rest = suc (bit_length_from fuel (n / 2)) in if nat_eqb n 0 then 0 else rest

unfoldable pub bit_length : ℕ → ℕ
bit_length n = bit_length_from n n

-- `int.bit_count`
unfoldable pub bit_count_from : ℕ → ℕ → ℕ
bit_count_from zero n = 0
bit_count_from (suc fuel) n =
    let rest = n % 2 + bit_count_from fuel (n / 2) in if nat_eqb n 0 then 0 else rest

unfoldable pub bit_count : ℕ → ℕ
bit_count n = bit_count_from n n

-- `x.to_bytes(size, "little")`
unfoldable pub to_bytes : ℕ → ℕ → List ℕ
to_bytes zero x = []
to_bytes (suc size) x = x % 256 ∷ to_bytes size (x / 256)

-- `int.from_bytes(raw, "little")`
unfoldable pub from_bytes : List ℕ → ℕ
from_bytes [] = 0
from_bytes (b ∷ bs) = b + 256 * from_bytes bs

-- `raw[::-1]`
unfoldable pub reversed : List ℕ → List ℕ
reversed [] = []
reversed (b ∷ bs) = reversed bs ++ b ∷ []

unfoldable pub bswap : ℕ → ℕ → ℕ
bswap bits x = from_bytes (reversed (to_bytes (bits / 8) (x % 2 ^ bits)))

pub data Direction : Type 0 where
  fshl : Direction
  fshr : Direction

unfoldable pub funnel : Direction → ℕ → ℕ → ℕ → ℕ → ℕ
funnel fshl bits a b shift =
    let amount : ℕ = shift % bits in
    if nat_eqb amount 0
    then a % 2 ^ bits
    else bit_or (a % 2 ^ bits * 2 ^ amount) (b % 2 ^ bits / 2 ^ (bits - amount)) % 2 ^ bits
funnel fshr bits a b shift =
    let amount : ℕ = shift % bits in
    if nat_eqb amount 0
    then b % 2 ^ bits
    else bit_or (a % 2 ^ bits * 2 ^ (bits - amount)) (b % 2 ^ bits / 2 ^ amount) % 2 ^ bits

pub data Signedness : Type 0 where
  is_signed : Signedness
  is_unsigned : Signedness

pub data Extreme : Type 0 where
  take_max : Extreme
  take_min : Extreme

unfoldable pub value_of : Signedness → ℕ → ℕ → ℤ
value_of is_signed bits x = signed x bits
value_of is_unsigned bits x = pos (x % 2 ^ bits)

-- `max` and `min` keep the first of two equal values.
unfoldable pub extreme : Extreme → ℤ → ℤ → ℤ
extreme take_max a b = if ltb_ℤ a b then b else a
extreme take_min a b = if ltb_ℤ b a then b else a

unfoldable pub minmax : Signedness → Extreme → ℕ → ℕ → ℕ → ℕ
minmax s e bits x y = mod_ℤ (extreme e (value_of s bits x) (value_of s bits y)) (2 ^ bits)

-- `(value & -value).bit_length() - 1`, for a value of the width that is not 0: its negative agrees
-- with `2 ^ bits - value` in the low `bits` bits.
unfoldable pub trailing_zeros : ℕ → ℕ → ℕ
trailing_zeros bits value = bit_length (bit_and value (2 ^ bits - value)) - 1

unfoldable pub llvm_abs : ℕ → ℕ → ℕ
llvm_abs bits x = abs (signed x bits) % 2 ^ bits

pub data SatOp : Type 0 where
  uadd_sat : SatOp
  usub_sat : SatOp
  sadd_sat : SatOp
  ssub_sat : SatOp

abbrev pub signed_min : ℕ → ℤ
signed_min bits = sub_ℕ 0 (2 ^ (bits - 1))

abbrev pub signed_max : ℕ → ℤ
signed_max bits = sub_ℕ (2 ^ (bits - 1)) 1

-- `min(max(raw, signed_min), signed_max)`
unfoldable pub clamp : ℕ → ℤ → ℤ
clamp bits raw =
    let low = if ltb_ℤ raw (signed_min bits) then signed_min bits else raw in
    if ltb_ℤ (signed_max bits) low then signed_max bits else low

unfoldable pub saturating : SatOp → ℕ → ℕ → ℕ → ℕ
saturating uadd_sat bits x y = min (x % 2 ^ bits + y % 2 ^ bits) (2 ^ bits - 1)
saturating usub_sat bits x y = x % 2 ^ bits - y % 2 ^ bits
saturating sadd_sat bits x y = mod_ℤ (clamp bits (signed x bits +ℤ signed y bits)) (2 ^ bits)
saturating ssub_sat bits x y = mod_ℤ (clamp bits (signed x bits -ℤ signed y bits)) (2 ^ bits)

pub data OverflowOp : Type 0 where
  add_overflow : OverflowOp
  sub_overflow : OverflowOp
  mul_overflow : OverflowOp

unfoldable pub exact : OverflowOp → ℤ → ℤ → ℤ
exact add_overflow a b = a +ℤ b
exact sub_overflow a b = a -ℤ b
exact mul_overflow a b = a *ℤ b

-- Whether the exact result does not fit: an unsigned difference does not when it is negative.
unfoldable pub does_overflow : Signedness → ℕ → ℤ → Bool
does_overflow is_signed bits raw = ltb_ℤ raw (signed_min bits) || ltb_ℤ (signed_max bits) raw
does_overflow is_unsigned bits raw = ltb_ℤ (pos (2 ^ bits - 1)) raw || ltb_ℤ raw (pos 0)

-- `out = (out << 1) | ((value >> i) & 1)` in a loop, with `n` rounds left
unfoldable pub reverse_bits : ℕ → ℕ → ℕ → ℕ → ℕ
reverse_bits value i zero out = out
reverse_bits value i (suc n) out =
    reverse_bits value (i + 1) n (bit_or (out * 2) (value / 2 ^ i % 2))

unfoldable pub bitreverse : ℕ → ℕ → ℕ
bitreverse bits x = reverse_bits (x % 2 ^ bits) 0 bits 0 % 2 ^ bits

-- `ror32`: `(-shift) & 31` is `(32 - shift) % 32`.
unfoldable pub ror32 : ℕ → ℕ → ℕ
ror32 x shift =
    let amount : ℕ = shift % 32 in
    bit_or (x % 2 ^ 32 / 2 ^ amount) (x % 2 ^ 32 * 2 ^ ((32 - amount) % 32) % 2 ^ 32) % 2 ^ 32
