-- ===== src/Runtime/Encoded.antt =====
-- Integers wider than a word (src/minimachine/runtime.py): what `_encode_integer` stores,
-- `_decode_integer` reads.
use minimachine.Prelude.{
  subst, if◌then◌else◌, ℕ, zero, suc, ◌+◌, ◌*◌, ◌/◌, ◌%◌, ◌^◌, ◌≤◌, ◌<◌, ◌≡◌, refl, ap, ap₂, nat_eq,
  ◌∙◌, arith, bit_or, Bool-cases, inl, inr, leb, ok, ok-injective,
}
use native.Mathlib.Nat.{mod-eq_of_lt, mod-mod, add-zero, pow-suc, pow-le-pow_right}
use minimachine.Prelude.Int.{ℤ, pos, mod_ℤ}
use minimachine.Exec.{>>=-eq-ok, reading, pure}
use minimachine.Prelude.Dict
use minimachine.Memory.{SparseMemory, byte_at, read_bytes, write_bytes}
use minimachine.Memory.Bytes.{
  pow_byte, IsByteMemory, le_value, read_bytes_lem, le_value-write_bytes, write_bytes-IsByteMemory,
}
use minimachine.Memory.Laws.{load_lem}
use minimachine.Vm.{Vm}
use minimachine.Vm.Run.{alloc_bytes}
use minimachine.Runtime.Integer.{check_width}
use minimachine.Runtime.Integer.Range.{mod_ℤ-lt}
use minimachine.Runtime.Integer.Signed.{pow-pos}
use minimachine.Runtime.Blob.{
  read_byte, store_byte, read_le, write_le, bytes_of, int_abi_align, decoded, decode_integer,
  encode_wide, encode_integer,
}

pub read_byte_lem : (m : SparseMemory) (a : ℕ) → IsByteMemory m → read_byte m a ≡ byte_at m a
unfolding le_value
read_byte_lem m a w = load_lem m a 8 w ∙ omega arith

pub store_byte_lem :
    (m : SparseMemory) (a v : ℕ)
    → store_byte m a v ≡ record { bytes = Dict.put m.bytes a (v % 256) }
unfolding write_bytes
store_byte_lem m a v =
    ap₂ (λ (b w : ℕ). let r : SparseMemory = record { bytes = Dict.put m.bytes b w } in r)
      (add-zero a) (omega arith)

pub read_le_lem :
    (m : SparseMemory) (a i n v : ℕ) → IsByteMemory m → read_le m a i n v ≡ read_bytes m a i n v
unfolding read_le read_bytes
read_le_lem m a i zero v w = refl
read_le_lem m a i (suc n) v w =
    rw (read_byte_lem m (a + i) w)
      (read_le_lem m a (i + 1) n (bit_or v (byte_at m (a + i) * 2 ^ (8 * i))) w)

pub write_le_lem : (m : SparseMemory) (a i n v : ℕ) → write_le m a i n v ≡ write_bytes m a i n v
unfolding write_le write_bytes
write_le_lem m a i zero v = refl
write_le_lem m a i (suc n) v =
    rw (store_byte_lem m (a + i) (v / 2 ^ (8 * i) % 256), mod-mod (v / 2 ^ (8 * i)) 256)
      (write_le_lem (record { bytes = Dict.put m.bytes (a + i) (v / 2 ^ (8 * i) % 256) }) a (i + 1)
        n v)

whole : (v : ℕ) → v / 2 ^ (8 * 0) ≡ v
whole v = omega arith

-- The bytes of an integer, written and read back.
pub read_le-write_le :
    (m : SparseMemory) (a n v : ℕ)
    → IsByteMemory m
    → read_le (write_le m a 0 n v) a 0 n 0 ≡ v % 256 ^ n
read_le-write_le m a n v w =
    let m' : SparseMemory = write_bytes m a 0 n v in
    rw (write_le_lem m a 0 n v) (
      read_le_lem m' a 0 n 0 (write_bytes-IsByteMemory m a 0 n v w)
      ∙ read_bytes_lem m' a 0 n 0 (write_bytes-IsByteMemory m a 0 n v w) (omega arith)
      ∙ omega (arith, le_value-write_bytes m a 0 n v, ap (λ (t : ℕ). t % 256 ^ n) (whole v)))

pub alloc_bytes-memory :
    (size align b : ℕ) (vm vm' : Vm)
    → alloc_bytes (pos size) (pos align) vm ≡ (ok b, vm')
    → vm'.memory ≡ vm.memory
unfolding alloc_bytes
alloc_bytes-memory size align b vm vm' h = ground arith

pub encode_wide-decode :
    (bits v e : ℕ) (vm vm' : Vm)
    → IsByteMemory vm.memory
    → encode_wide bits v vm ≡ (ok e, vm')
    → read_le vm'.memory e 0 (bytes_of bits) 0 ≡ v % 256 ^ bytes_of bits
unfolding encode_wide
encode_wide-decode bits v e vm vm' w h =
    let (b, t, e1, h1) =
      >>=-eq-ok (alloc_bytes (pos (bytes_of bits)) (pos (int_abi_align bits))) _ vm vm' h in
    let same : t.memory ≡ vm.memory =
      alloc_bytes-memory (bytes_of bits) (int_abi_align bits) b vm t e1 in
    let here : b ≡ e = ok-injective (ap (λ r. r.0) h1) in
    let stored : write_le t.memory b 0 (bytes_of bits) v ≡ vm'.memory = ap (λ r. r.1.memory) h1 in
    rw (← stored, ← here, same) (read_le-write_le vm.memory b (bytes_of bits) v w)

pow-mul_eight : (n : ℕ) → 256 ^ n ≡ 2 ^ (8 * n)
pow-mul_eight zero = refl
pow-mul_eight (suc n) =
    omega (arith, pow-suc 256 n, pow-mul_eight n, pow_byte n, ap (λ (t : ℕ). 2 ^ t) (next n))
  where
    next : (n : ℕ) → 8 * suc n ≡ 8 * (n + 1)
    next n = omega arith

fits : (bits v : ℕ) → v < 2 ^ bits → v < 256 ^ bytes_of bits
fits bits v h =
    let below : bits ≤ 8 * bytes_of bits = omega arith in
    let two : 0 < 2 = omega arith in
    omega (arith, pow-mul_eight (bytes_of bits), pow-le-pow_right two below)

decoded-encoded :
    (bits v e : ℕ) (vm vm' : Vm)
    → IsByteMemory vm.memory
    → v < 2 ^ bits
    → (if leb bits 64 then pure v else encode_wide bits v) vm ≡ (ok e, vm')
    → decoded e bits vm' ≡ v
unfolding decoded
decoded-encoded bits v e vm vm' w lt h = elim (Bool-cases (leb bits 64)) [
  | inl small ↦
      let here : v ≡ e = ok-injective (ap (λ r. r.0) (rw small at h)) in
      rw (small, ← here) (mod-eq_of_lt lt)
  | inr large ↦
      rw
        (large, encode_wide-decode bits v e vm vm' w (rw large at h), mod-eq_of_lt (fits bits v lt))
        (mod-eq_of_lt lt)
]

-- An integer of any width that is encoded, in a word or in new bytes, is decoded to itself, cut to
-- its width, and the machine is unchanged by that.
pub decode_integer-encode_integer :
    (bits e : ℕ) (z : ℤ) (vm vm' : Vm)
    → IsByteMemory vm.memory
    → encode_integer bits z vm ≡ (ok e, vm')
    → decode_integer e bits vm' ≡ (ok (mod_ℤ z (2 ^ bits)), vm')
unfolding encode_integer decode_integer
decode_integer-encode_integer bits e z vm vm' w h =
    let (u, t, e1, h1) = >>=-eq-ok (reading (λ vm. check_width bits)) _ vm vm' h in
    let same : vm ≡ t = ap (λ r. r.1) e1 in
    let checked : check_width bits ≡ ok u = ap (λ r. r.0) e1 in
    let low : ℕ = mod_ℤ z (2 ^ bits) in
    let here : decoded e bits vm' ≡ low =
      decoded-encoded bits low e t vm' (subst (λ r. IsByteMemory r.memory) same w)
        (mod_ℤ-lt z (2 ^ bits) (pow-pos bits)) h1 in
    rw checked (ap (λ n. (ok n, vm')) here)
