-- ===== src/Memory.antt =====
-- `SparseMemory` of src/minimachine/vm.py: a dict from unbounded addresses to bytes, read and
-- written little-endian in 8, 16, 32 or 64 bits. Laws are in the modules below.
pub mod Bytes
pub mod Laws
use minimachine.Prelude.{
  ℕ, zero, suc, ◌+◌, ◌*◌, ◌/◌, ◌%◌, ◌^◌, Bool, ◌||◌, bit_or, nat_eqb, Result, ok, err,
  if◌then◌else◌, Option, none, some, nat_eq,
}
use minimachine.Prelude.Dict
use minimachine.Prelude.Dict.{Dict}
use minimachine.Error.{VmError, unsupported_memory_width}

pub record SparseMemory : Type 0 where
  pub bytes : Dict ℕ ℕ

-- `{8, 16, 32, 64}`
abbrev pub is_width : ℕ → Bool
is_width bits = nat_eqb bits 8 || nat_eqb bits 16 || nat_eqb bits 32 || nat_eqb bits 64

or_zero : Option ℕ → ℕ
or_zero none = 0
or_zero (some v) = v

-- `self.bytes.get(address, 0)`
unfoldable pub byte_at : SparseMemory → ℕ → ℕ
unfolding or_zero Dict.get
byte_at m address = or_zero (Dict.get m.bytes address)

-- The loop of `read`, with `n` rounds left.
unfoldable pub read_bytes : SparseMemory → ℕ → ℕ → ℕ → ℕ → ℕ
unfolding byte_at
read_bytes m address i zero value = value
read_bytes m address i (suc n) value =
    read_bytes m address (i + 1) n (bit_or value (byte_at m (address + i) * 2 ^ (8 * i)))

-- The loop of `write`, with `n` rounds left.
unfoldable pub write_bytes : SparseMemory → ℕ → ℕ → ℕ → ℕ → SparseMemory
unfolding Dict.put
write_bytes m address i zero value = m
write_bytes m address i (suc n) value =
    write_bytes (record { bytes = Dict.put m.bytes (address + i) (value / 2 ^ (8 * i) % 256) })
      address (i + 1) n value

abbrev pub load : SparseMemory → ℕ → ℕ → ℕ
load m address bits = read_bytes m address 0 (bits / 8) 0

abbrev pub store : SparseMemory → ℕ → ℕ → ℕ → SparseMemory
store m address bits value = write_bytes m address 0 (bits / 8) (value % 2 ^ bits)

unfoldable pub read : SparseMemory → ℕ → ℕ → Result VmError ℕ
unfolding read_bytes
read m address bits =
    if is_width bits then ok (load m address bits) else err (unsupported_memory_width bits)

unfoldable pub write : SparseMemory → ℕ → ℕ → ℕ → Result VmError SparseMemory
unfolding write_bytes
write m address bits value =
    if is_width bits then ok (store m address bits value) else err (unsupported_memory_width bits)
