-- ===== src/Memory/Laws.antt =====
-- `read` and `write` of `SparseMemory` (src/minimachine/vm.py): what is written is read back, and
-- a write changes nothing outside its bytes.
use minimachine.Prelude.{
  ◌*◌, sym, ℕ, ◌+◌, ◌/◌, ◌%◌, ◌^◌, ◌≤◌, ◌<◌, ◌≡◌, ◌⊎◌, arith, ap, ◌∙◌, ok, ◌>>=◌, true, inl, inr,
}
use native.Mathlib.Nat.{mod-mod, add-zero}
use minimachine.Memory.{SparseMemory, is_width, load, store, read, write}
use minimachine.Memory.Bytes.{
  IsByteMemory, le_value, read_bytes_lem, byte_at-write_bytes_out, write_bytes-IsByteMemory,
  le_value-write_bytes, le_value-congr, le_value-lt,
}

-- The ends of two accesses do not overlap.
abbrev pub AreDisjoint : ℕ → ℕ → ℕ → ℕ → Type 0
AreDisjoint a bits b bits' = (a + bits / 8 ≤ b) ⊎ (b + bits' / 8 ≤ a)

width-cases :
    (bits : ℕ) → is_width bits ≡ true → (bits ≡ 8) ⊎ ((bits ≡ 16) ⊎ ((bits ≡ 32) ⊎ (bits ≡ 64)))
width-cases bits h = ground arith

width_pow : (bits : ℕ) → is_width bits ≡ true → 256 ^ (bits / 8) ≡ 2 ^ bits
width_pow bits h = elim (width-cases bits h) [
  | inl e ↦ rw e
  | inr (inl e) ↦ rw e
  | inr (inr (inl e)) ↦ rw e
  | inr (inr (inr e)) ↦ rw e
]

pub load_lem :
    (m : SparseMemory) (a bits : ℕ) → IsByteMemory m → load m a bits ≡ le_value m a (bits / 8)
load_lem m a bits w =
    read_bytes_lem m a 0 (bits / 8) 0 w (omega arith)
    ∙ omega (arith, ap (λ (t : ℕ). le_value m t (bits / 8)) (add-zero a))

pub store-IsByteMemory :
    (m : SparseMemory) (a bits v : ℕ) → IsByteMemory m → IsByteMemory (store m a bits v)
store-IsByteMemory m a bits v w = write_bytes-IsByteMemory m a 0 (bits / 8) (v % 2 ^ bits) w

unshifted : (x : ℕ) → x / 2 ^ (8 * 0) ≡ x
unshifted x = omega arith

pub load-store_self :
    (m : SparseMemory) (a bits v : ℕ)
    → IsByteMemory m
    → is_width bits ≡ true
    → load (store m a bits v) a bits ≡ v % 2 ^ bits
load-store_self m a bits v w h =
    load_lem (store m a bits v) a bits (store-IsByteMemory m a bits v w)
    ∙ sym (ap (λ (t : ℕ). le_value (store m a bits v) t (bits / 8)) (add-zero a))
    ∙ le_value-write_bytes m a 0 (bits / 8) (v % 2 ^ bits)
    ∙ rw (width_pow bits h)
        (ap (λ (t : ℕ). t % 2 ^ bits) (unshifted (v % 2 ^ bits)) ∙ mod-mod v (2 ^ bits))

pub load-store_disjoint :
    (m : SparseMemory) (a bits v b bits' : ℕ)
    → IsByteMemory m
    → AreDisjoint a bits b bits'
    → load (store m a bits v) b bits' ≡ load m b bits'
load-store_disjoint m a bits v b bits' w d =
    load_lem (store m a bits v) b bits' (store-IsByteMemory m a bits v w)
    ∙ le_value-congr (store m a bits v) m b (bits' / 8)
        (λ c p q. byte_at-write_bytes_out m a 0 (bits / 8) (v % 2 ^ bits) c (omega arith))
    ∙ sym (load_lem m b bits' w)

pub load-lt :
    (m : SparseMemory) (a bits : ℕ)
    → IsByteMemory m
    → is_width bits ≡ true
    → load m a bits < 2 ^ bits
load-lt m a bits w h =
    rw (load_lem m a bits w) (rw (← width_pow bits h) (le_value-lt m a (bits / 8) w))

-- A value that is written in 8, 16, 32 or 64 bits is read back from the same address in as many
-- bits, cut to them, whatever bytes the memory held.
pub read-write_self :
    (m : SparseMemory) (a bits v : ℕ)
    → IsByteMemory m
    → is_width bits ≡ true
    → (write m a bits v >>= λ m'. read m' a bits) ≡ ok (v % 2 ^ bits)
unfolding read write
read-write_self m a bits v w h = rw h (ap ok (load-store_self m a bits v w h))

-- A write leaves every read of bytes outside its own as it was; widths of the two may differ, and
-- a read at a width that is not supported fails after the write as before.
pub read-write_disjoint :
    (m m' : SparseMemory) (a bits v b bits' : ℕ)
    → IsByteMemory m
    → write m a bits v ≡ ok m'
    → AreDisjoint a bits b bits'
    → read m' b bits' ≡ read m b bits'
unfolding read write
read-write_disjoint m m' a bits v b bits' w e d =
    ground (arith, load-store_disjoint m a bits v b bits' w d)
