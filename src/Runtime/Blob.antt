-- ===== src/Runtime/Blob.antt =====
-- Loops over bytes in the host services of src/minimachine/runtime.py, integers of any width as
-- bytes (`_decode_integer`, `_encode_integer`, `_overflow_blob`) and the caller's frames. A read or
-- a write of 8 bits is never refused, so these loops are functions of the memory.
use minimachine.Prelude.{
  ℕ, zero, suc, ◌+◌, ◌-◌, ◌*◌, ◌/◌, ◌%◌, ◌^◌, max, Bool, ◌||◌, bit_or, nat_eqb, leb, ok,
  if◌then◌else◌,
}
use minimachine.Prelude.Int.{ℤ, pos, mod_ℤ}
use minimachine.Error.{ServiceError, service_failed, depth_exceeds_chain}
use minimachine.Exec.{Exec, pure, raise, reading, modify, ◌>>=◌, ◌>>◌}
use minimachine.Memory
use minimachine.Memory.{SparseMemory}
use minimachine.Abi.Frame.{caller_sp}
use minimachine.Vm.{Vm}
use minimachine.Vm.Run.{alloc_bytes}
use minimachine.Vm.Step.{read_header, read_word}
use minimachine.Runtime.Integer.{check_width, int_of_bool}

-- `vm.memory.read(address, 8)` and `vm.memory.write(address, 8, value)`
abbrev pub read_byte : SparseMemory → ℕ → ℕ
read_byte m address = Memory.load m address 8

abbrev pub store_byte : SparseMemory → ℕ → ℕ → SparseMemory
store_byte m address value = Memory.store m address 8 value

abbrev pub on_memory : (SparseMemory → SparseMemory) → Exec Vm (Unit {0})
on_memory f = modify λ vm. record vm { memory = f vm.memory }

-- `if test: raise`
unfoldable pub refuse_if : Bool → ServiceError → Exec Vm (Unit {0})
refuse_if test e = if test then raise (service_failed e) else pure tt

-- `value |= read(a + i, 8) << (8 * i)` in a loop, with `n` rounds left
unfoldable pub read_le : SparseMemory → ℕ → ℕ → ℕ → ℕ → ℕ
read_le m a i zero value = value
read_le m a i (suc n) value =
    read_le m a (i + 1) n (bit_or value (read_byte m (a + i) * 2 ^ (8 * i)))

-- `write(a + i, 8, (value >> (8 * i)) & 0xFF)` in a loop
unfoldable pub write_le : SparseMemory → ℕ → ℕ → ℕ → ℕ → SparseMemory
write_le m a i zero value = m
write_le m a i (suc n) value =
    write_le (store_byte m (a + i) (value / 2 ^ (8 * i) % 256)) a (i + 1) n value

-- `write(a + i, 8, byte)` in a loop
unfoldable pub fill : SparseMemory → ℕ → ℕ → ℕ → ℕ → SparseMemory
fill m a i zero byte = m
fill m a i (suc n) byte = fill (store_byte m (a + i) byte) a (i + 1) n byte

-- `(bits + 7) // 8`
abbrev pub bytes_of : ℕ → ℕ
bytes_of bits = (bits + 7) / 8

unfoldable pub int_abi_align : ℕ → ℕ
int_abi_align bits =
    if leb bits 8
    then 1
    else if leb bits 16
    then 2
    else if leb bits 32
    then 4
    else if leb bits 64
    then 8
    else 16

unfoldable pub decoded : ℕ → ℕ → Vm → ℕ
decoded encoded bits vm =
    if leb bits 64
    then encoded % 2 ^ bits
    else read_le vm.memory encoded 0 (bytes_of bits) 0 % 2 ^ bits

unfoldable pub decode_integer : ℕ → ℕ → Exec Vm ℕ
decode_integer encoded bits = do
  reading λ vm. check_width bits
  reading λ vm. ok (decoded encoded bits vm)

-- An integer that does not fit a word goes to new bytes, lowest first.
unfoldable pub encode_wide : ℕ → ℕ → Exec Vm ℕ
encode_wide bits value = do
  blob ← alloc_bytes (pos (bytes_of bits)) (pos (int_abi_align bits))
  on_memory λ m. write_le m blob 0 (bytes_of bits) value
  pure blob

unfoldable pub encode_integer : ℕ → ℤ → Exec Vm ℕ
encode_integer bits value = do
  reading λ vm. check_width bits
  let low = mod_ℤ value (2 ^ bits)
  (if leb bits 64 then pure low else encode_wide bits low)

-- The size of the value with its overflow flag, rounded up to the alignment.
abbrev pub overflow_size : ℕ → ℕ
overflow_size bits =
    (max 1 (bytes_of bits) + 1 + int_abi_align bits - 1) / int_abi_align bits * int_abi_align bits

unfoldable pub overflow_blob : ℕ → ℤ → Bool → Exec Vm ℕ
overflow_blob bits value overflow = do
  let size = max 1 (bytes_of bits)
  blob ← alloc_bytes (pos (overflow_size bits)) (pos (int_abi_align bits))
  on_memory λ m. fill m blob 0 (overflow_size bits) 0
  reading λ vm. check_width bits
  on_memory λ m. write_le m blob 0 size (mod_ℤ value (2 ^ bits))
  on_memory λ m. store_byte m (blob + size) (int_of_bool overflow)
  pure blob

-- The loop of `_caller_frame`, with `depth` rounds left.
unfoldable pub walk_frames : ℕ → ℕ → Exec Vm ℕ
walk_frames frame zero = pure frame
walk_frames frame (suc depth) = do
  parent ← read_word (frame + caller_sp)
  refuse_if (nat_eqb parent 0 || nat_eqb parent frame) depth_exceeds_chain
  walk_frames parent depth

-- A depth is an argument of the machine, never negative.
unfoldable pub caller_frame : ℕ → Exec Vm ℕ
caller_frame depth = do frame ← read_header caller_sp; walk_frames frame depth
