-- ===== src/Memory/Bytes.antt =====
-- The byte loops of `SparseMemory`: what a write leaves at each address, and the number that a
-- read makes of the bytes.
use minimachine.Prelude.{
  ℕ, zero, suc, ◌+◌, ◌*◌, ◌/◌, ◌%◌, ◌^◌, ◌≤◌, ◌<◌, ◌≡◌, refl, ap, ◌⊎◌, arith, ◌∙◌, bit_or, nat_eqb,
  if◌then◌else◌, nat_eq, inl, sym,
}
use native.Mathlib.Nat.{
  add_assoc, pow-suc, div-div-eq-div-mul, div-add-mod, mod-lt, mod-eq_of_lt, mul-add-mod_self_left,
}
use native.Mathlib.Numerals.{towards_suc}
use minimachine.Prelude.Dict
use minimachine.Prelude.Bits.{bit_or-disjoint}
use minimachine.Memory.{SparseMemory, byte_at, read_bytes, write_bytes}

-- Every cell holds a byte.
pub record IsByteMemory (m : SparseMemory) : Type 0 where
  pub bound : (a : ℕ) → byte_at m a < 256

-- The number that `n` bytes from `a` on spell, lowest byte first.
unfoldable pub le_value : SparseMemory → ℕ → ℕ → ℕ
le_value m a zero = 0
le_value m a (suc n) = byte_at m a + 256 * le_value m (a + 1) n

pub byte_at-put :
    (m : SparseMemory) (a v b : ℕ)
    → byte_at (record { bytes = Dict.put m.bytes a v }) b ≡ (if nat_eqb a b then v else byte_at m b)
unfolding byte_at
byte_at-put m a v b = ground (arith, Dict.get-put m.bytes a b v)

byte_at-put_self :
    (m : SparseMemory) (a v : ℕ) → byte_at (record { bytes = Dict.put m.bytes a v }) a ≡ v
byte_at-put_self m a v = ground (arith, byte_at-put m a v a)

pub byte_at-write_bytes_out :
    (m : SparseMemory) (a i n v b : ℕ)
    → (b < a + i) ⊎ (a + i + n ≤ b)
    → byte_at (write_bytes m a i n v) b ≡ byte_at m b
unfolding write_bytes
byte_at-write_bytes_out m a i zero v b h = refl
byte_at-write_bytes_out m a i (suc n) v b h = ground (
  arith,
  byte_at-put m (a + i) (v / 2 ^ (8 * i) % 256) b,
  byte_at-write_bytes_out (record { bytes = Dict.put m.bytes (a + i) (v / 2 ^ (8 * i) % 256) }) a
      (i + 1) n v b,
)

pub write_bytes-IsByteMemory :
    (m : SparseMemory) (a i n v : ℕ) → IsByteMemory m → IsByteMemory (write_bytes m a i n v)
unfolding write_bytes
write_bytes-IsByteMemory m a i zero v h = h
write_bytes-IsByteMemory m a i (suc n) v h =
    write_bytes-IsByteMemory (record { bytes = Dict.put m.bytes (a + i) (v / 2 ^ (8 * i) % 256) }) a
      (i + 1) n v
      (record {
        bound = λ b. ground (arith, byte_at-put m (a + i) (v / 2 ^ (8 * i) % 256) b, h.bound b);
      })

digit_bound : (v b p : ℕ) → v < p → b < 256 → v + b * p < 256 * p
digit_bound v b p h k = grind arith

pow-add_eight : (k : ℕ) → 2 ^ (k + 8) ≡ 256 * 2 ^ k
pow-add_eight k = simp towards_suc (omega arith)

pub pow_byte : (i : ℕ) → 2 ^ (8 * (i + 1)) ≡ 256 * 2 ^ (8 * i)
pow_byte i = ap (λ (t : ℕ). 2 ^ t) (omega arith) ∙ pow-add_eight (8 * i)

pub read_bytes_lem :
    (m : SparseMemory) (a i n v : ℕ)
    → IsByteMemory m
    → v < 2 ^ (8 * i)
    → read_bytes m a i n v ≡ v + 2 ^ (8 * i) * le_value m (a + i) n
unfolding read_bytes le_value
read_bytes_lem m a i zero v w h = omega arith
read_bytes_lem m a i (suc n) v w h =
    let b : ℕ = byte_at m (a + i) in
    read_bytes_lem m a (i + 1) n (bit_or v (b * 2 ^ (8 * i))) w (
      omega (
        arith,
        bit_or-disjoint (8 * i) v b h,
        pow_byte i,
        digit_bound v b (2 ^ (8 * i)) h (w.bound (a + i)),
      ))
    ∙ omega (
      arith,
      bit_or-disjoint (8 * i) v b h,
      ap (λ (t : ℕ). t * le_value m (a + i + 1) n) (pow_byte i),
      ap (λ (t : ℕ). 2 ^ (8 * (i + 1)) * le_value m t n) (sym (add_assoc a i 1)),
    )

pow_pos : (n : ℕ) → 0 < 256 ^ n
pow_pos zero = omega arith
pow_pos (suc n) = omega (arith, pow-suc 256 n, pow_pos n)

split_digits :
    (w n : ℕ) → w ≡ 256 ^ suc n * (w / 256 / 256 ^ n) + (w % 256 + 256 * (w / 256 % 256 ^ n))
split_digits w n = omega (
  arith,
  ap (λ (t : ℕ). t * (w / 256 / 256 ^ n)) (pow-suc 256 n),
  div-add-mod (w / 256) (256 ^ n),
)

mod_split : (w n : ℕ) → w % 256 ^ suc n ≡ w % 256 + 256 * (w / 256 % 256 ^ n)
mod_split w n =
    ap (λ (t : ℕ). t % 256 ^ suc n) (split_digits w n)
    ∙ mul-add-mod_self_left (256 ^ suc n) (w / 256 / 256 ^ n) (w % 256 + 256 * (w / 256 % 256 ^ n))
    ∙ mod-eq_of_lt (omega (arith, pow-suc 256 n, mod-lt (w / 256) (pow_pos n)))

shift_byte : (v i : ℕ) → v / 2 ^ (8 * i) / 256 ≡ v / 2 ^ (8 * (i + 1))
shift_byte v i =
    div-div-eq-div-mul v (2 ^ (8 * i)) 256 ∙ ap (λ (t : ℕ). v / t) (omega (arith, pow_byte i))

pub le_value-write_bytes :
    (m : SparseMemory) (a i n v : ℕ)
    → le_value (write_bytes m a i n v) (a + i) n ≡ v / 2 ^ (8 * i) % 256 ^ n
unfolding write_bytes le_value
le_value-write_bytes m a i zero v = omega arith
le_value-write_bytes m a i (suc n) v =
    let m' : SparseMemory = record { bytes = Dict.put m.bytes (a + i) (v / 2 ^ (8 * i) % 256) } in
    omega (
      arith,
      byte_at-write_bytes_out m' a (i + 1) n v (a + i) (inl (omega arith)),
      byte_at-put_self m (a + i) (v / 2 ^ (8 * i) % 256),
      mod_split (v / 2 ^ (8 * i)) n,
      le_value-write_bytes m' a (i + 1) n v,
      ap (λ (t : ℕ). t % 256 ^ n) (shift_byte v i),
      ap (λ (t : ℕ). le_value (write_bytes m' a (i + 1) n v) t n) (add_assoc a i 1),
    )

-- Two memories that agree on the bytes from `a` on spell the same number there.
pub le_value-congr :
    (m m' : SparseMemory) (a n : ℕ)
    → ((b : ℕ) → a ≤ b → b < a + n → byte_at m b ≡ byte_at m' b)
    → le_value m a n ≡ le_value m' a n
unfolding le_value
le_value-congr m m' a zero h = refl
le_value-congr m m' a (suc n) h = omega (
  arith,
  h a (omega arith) (omega arith),
  le_value-congr m m' (a + 1) n (λ b p q. h b (omega arith) (omega arith)),
)

pub le_value-lt : (m : SparseMemory) (a n : ℕ) → IsByteMemory m → le_value m a n < 256 ^ n
unfolding le_value
le_value-lt m a zero w = omega arith
le_value-lt m a (suc n) w = omega (arith, pow-suc 256 n, w.bound a, le_value-lt m (a + 1) n w)
