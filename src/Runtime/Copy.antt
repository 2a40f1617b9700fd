-- ===== src/Runtime/Copy.antt =====
-- The copies, fills and aggregates of src/minimachine/runtime.py, on the memory of the Python
-- machine, which has no bulk operations.
use minimachine.Prelude.{
  ok, ℕ, zero, suc, ◌+◌, ◌%◌, true, false, ◌||◌, nat_eqb, ltb, List, [], ◌∷◌, length, word_mod,
  if◌then◌else◌,
}
use minimachine.Prelude.Int.{pos}
use minimachine.Error.{
  wrong_arguments, literal_size_outside_word, literal_exceeds_blob, extract_size_outside_word,
  insert_exceeds_aggregate, insert_size_outside_word, service_failed,
}
use minimachine.Exec.{Exec, pure, raise, reading, ◌>>=◌, ◌>>◌}
use minimachine.Memory.{SparseMemory}
use minimachine.Vm.{Vm}
use minimachine.Vm.Run.{alloc_bytes}
use minimachine.Runtime.Blob.{read_byte, store_byte, on_memory, fill, read_le, write_le, refuse_if}

-- `[read((src + i) & MASK64, 8) for i in range(length)]`, from `i` on
unfoldable pub gather : (ℕ → ℕ) → SparseMemory → ℕ → ℕ → ℕ → List ℕ
gather cut m src i zero = []
gather cut m src i (suc n) = read_byte m (cut (src + i)) ∷ gather cut m src (i + 1) n

unfoldable pub scatter : (ℕ → ℕ) → SparseMemory → ℕ → ℕ → List ℕ → SparseMemory
scatter cut m dst i [] = m
scatter cut m dst i (byte ∷ bytes) =
    scatter cut (store_byte m (cut (dst + i)) byte) dst (i + 1) bytes

-- `address & MASK64`, or the address as it is
abbrev pub wrapped : ℕ → ℕ
wrapped address = address % word_mod

abbrev pub whole : ℕ → ℕ
whole address = address

-- All bytes are read before the first is written.
unfoldable pub move_bytes : (ℕ → ℕ) → SparseMemory → ℕ → ℕ → ℕ → SparseMemory
move_bytes cut m dst src n = scatter cut m dst 0 (gather cut m src 0 n)

-- Each byte is read when it is written.
unfoldable pub copy_bytes : SparseMemory → ℕ → ℕ → ℕ → ℕ → SparseMemory
copy_bytes m dst src i zero = m
copy_bytes m dst src i (suc n) =
    copy_bytes (store_byte m (dst + i) (read_byte m (src + i))) dst src (i + 1) n

unfoldable pub fill_wrapped : SparseMemory → ℕ → ℕ → ℕ → ℕ → SparseMemory
fill_wrapped m dst i zero byte = m
fill_wrapped m dst i (suc n) byte =
    fill_wrapped (store_byte m (wrapped (dst + i)) byte) dst (i + 1) n byte

-- Bytes of a blob; address 0 stands for a blob of zeros.
unfoldable pub copy_blob : SparseMemory → ℕ → ℕ → ℕ → ℕ → SparseMemory
copy_blob m dst blob src n = if nat_eqb blob 0 then fill m dst 0 n 0 else copy_bytes m dst src 0 n

-- The triples of offset, value and size after the total.
unfoldable pub write_fields : ℕ → ℕ → List ℕ → Exec Vm (Unit {0})
write_fields total blob (offset ∷ value ∷ size ∷ rest) = do
  refuse_if (ltb size 1 || ltb 8 size) (literal_size_outside_word size)
  refuse_if (ltb total (offset + size)) literal_exceeds_blob
  on_memory λ m. write_le m (blob + offset) 0 size value
  write_fields total blob rest
write_fields total blob other = pure tt

unfoldable pub aggregate_literal : List ℕ → Exec Vm ℕ
aggregate_literal [] = raise (service_failed (wrong_arguments "__mm_aggregate_literal"))
aggregate_literal (total ∷ fields) = do
  refuse_if (if nat_eqb (length fields % 3) 0 then false else true)
      (wrong_arguments "__mm_aggregate_literal")
  blob ← alloc_bytes (pos total) (pos 8)
  on_memory λ m. fill m blob 0 total 0
  write_fields total blob fields
  pure blob

unfoldable pub load_aggregate : ℕ → ℕ → Exec Vm ℕ
load_aggregate source size = do
  blob ← alloc_bytes (pos size) (pos 8)
  on_memory λ m. copy_bytes m blob source 0 size
  pure blob

unfoldable pub extract_blob : ℕ → ℕ → ℕ → Exec Vm ℕ
extract_blob blob offset size = do
  out ← alloc_bytes (pos size) (pos 8)
  on_memory λ m. copy_blob m out blob (blob + offset) size
  pure out

unfoldable pub extract_scalar : ℕ → ℕ → ℕ → Exec Vm ℕ
extract_scalar blob offset size = do
  refuse_if (ltb size 1 || ltb 8 size) (extract_size_outside_word size)
  reading λ vm. ok (if nat_eqb blob 0 then 0 else read_le vm.memory (blob + offset) 0 size 0)

unfoldable pub extractvalue : ℕ → ℕ → ℕ → ℕ → Exec Vm ℕ
extractvalue blob offset size is_blob =
    if nat_eqb is_blob 0 then extract_scalar blob offset size else extract_blob blob offset size

unfoldable pub insert_scalar : ℕ → ℕ → ℕ → Exec Vm (Unit {0})
insert_scalar address value size = do
  refuse_if (ltb size 1 || ltb 8 size) (insert_size_outside_word size)
  on_memory λ m. write_le m address 0 size value

unfoldable pub insert_field : ℕ → ℕ → ℕ → ℕ → Exec Vm (Unit {0})
insert_field address value size is_blob =
    if nat_eqb is_blob 0
    then insert_scalar address value size
    else on_memory λ m. copy_blob m address value value size

unfoldable pub insertvalue : ℕ → ℕ → ℕ → ℕ → ℕ → ℕ → Exec Vm ℕ
insertvalue blob total offset value field_size field_is_blob = do
  refuse_if (ltb total (offset + field_size)) insert_exceeds_aggregate
  out ← alloc_bytes (pos total) (pos 8)
  on_memory λ m. copy_blob m out blob blob total
  insert_field (out + offset) value field_size field_is_blob
  pure out
