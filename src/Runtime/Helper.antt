-- ===== src/Runtime/Helper.antt =====
-- `helper_callback` of src/minimachine/runtime.py: the callback of each helper. A helper is the
-- symbol as its regular expression takes it apart; those on floats are left out. The second
-- expression for minima and maxima in the source is never reached, since the first takes the same
-- symbols.
use minimachine.Prelude.{
  ℕ, ◌+◌, ◌-◌, ◌*◌, ◌/◌, ◌%◌, ◌^◌, max, String, Bool, ◌&&◌, ◌||◌, not, bit_and, bit_or, nat_eqb,
  ltb, leb, List, [], ◌∷◌, length, word_mod, if◌then◌else◌, ok,
}
use minimachine.Prelude.Int.{ℤ, pos, eqb_ℤ}
use minimachine.Error.{
  wrong_arguments, invalid_alloca_alignment, alloca_overflow, invalid_saved_stack,
  fixed_count_exceeds, poison_input, service_failed,
}
use minimachine.Exec.{Exec, pure, raise, reading, modify, ◌>>=◌, ◌>>◌}
use minimachine.Abi.Frame.{frame_size, arg_count, caller_sp, word}
use minimachine.Vm.{Vm, Reply, nothing, one}
use minimachine.Vm.Run.{alloc_bytes}
use minimachine.Vm.Step.{write_memory, read_word, read_header}
use minimachine.Runtime.Integer.{IntOp, Predicate, signed, binary_integer, icmp}
use minimachine.Runtime.Blob.{
  on_memory, read_le, write_le, bytes_of, decode_integer, encode_integer, overflow_blob, refuse_if,
}
use minimachine.Runtime.Arithmetic.{
  Direction, Signedness, Extreme, SatOp, OverflowOp, bit_count, bit_length, trailing_zeros,
  llvm_abs, signed_min, value_of, exact, does_overflow,
}

pub data CastOp : Type 0 where
  zext : CastOp
  sext : CastOp
  trunc : CastOp

pub data CountOp : Type 0 where
  cttz : CountOp
  ctlz : CountOp
  ctpop : CountOp

pub data Helper : Type 0 where
  alloca stack_save stack_restore va_start va_copy va_end select expect is_constant prefetch :
      Helper
  returnaddress frameaddress noalias_scope_decl memset memcpy memmove : Helper
  aggregate store_aggregate freeze_aggregate extract insert load_blob : Helper
  wide_const fabs fneg ptr_add freeze add objectsize swap_bytes absolute reverse : ℕ → Helper
  integer_load integer_store : ℕ → Helper
  binary : IntOp → ℕ → Helper
  compare : Predicate → ℕ → Helper
  cast : CastOp → ℕ → ℕ → Helper
  funnel_shift : Direction → ℕ → Helper
  min_or_max : Signedness → Extreme → ℕ → Helper
  count_bits : CountOp → ℕ → Helper
  saturate : SatOp → ℕ → Helper
  with_overflow : Signedness → OverflowOp → ℕ → Helper

-- `return n`
abbrev pub answer : ℕ → Exec Vm Reply
answer n = pure (one (pos n))

abbrev pub answering : Exec Vm ℕ → Exec Vm Reply
answering m = m >>= answer

abbrev pub done : Exec Vm (Unit {0}) → Exec Vm Reply
done m = m >> pure nothing

abbrev pub refused : String → Exec Vm Reply
refused symbol = raise (service_failed (wrong_arguments symbol))

unfoldable pub allocate : ℕ → ℕ → ℕ → Exec Vm ℕ
allocate element_size count align = do
  refuse_if (nat_eqb align 0 || not (nat_eqb (bit_and align (align - 1)) 0))
      (invalid_alloca_alignment align)
  refuse_if (ltb ((word_mod - 1) / max 1 element_size) count) alloca_overflow
  alloc_bytes (pos (element_size * count)) (pos align)

-- `value |= (chunk & MASK64) << (64 * i)`, from chunk `i` on
unfoldable pub join_chunks : ℕ → List ℕ → ℕ → ℕ
join_chunks i [] value = value
join_chunks i (c ∷ cs) value = join_chunks (i + 1) cs (bit_or value (c % word_mod * 2 ^ (64 * i)))

unfoldable pub make_wide : String → ℕ → List ℕ → Exec Vm ℕ
make_wide symbol bits args = do
  refuse_if (not (nat_eqb (length args) ((bits + 63) / 64))) (wrong_arguments symbol)
  encode_integer bits (pos (join_chunks 0 args 0))

unfoldable pub restore_stack : ℕ → Exec Vm (Unit {0})
restore_stack saved = do
  next ← reading λ vm. ok vm.heap_next
  top ← reading λ vm. ok vm.stack_top
  refuse_if (ltb next saved || leb top saved) invalid_saved_stack
  modify λ vm. record vm { heap_next = saved }

unfoldable pub start_varargs : ℕ → ℕ → Exec Vm (Unit {0})
start_varargs va_list fixed_count = do
  caller ← read_header caller_sp
  size ← read_word (caller + frame_size)
  total_args ← read_word (caller + arg_count)
  refuse_if (ltb total_args fixed_count) (fixed_count_exceeds fixed_count total_args)
  write_memory va_list 64 (caller + size + fixed_count * word)

unfoldable pub run_binary : IntOp → ℕ → ℕ → ℕ → Exec Vm ℕ
run_binary op bits x y = do
  a ← decode_integer x bits
  b ← decode_integer y bits
  r ← reading λ vm. binary_integer op bits a b
  encode_integer bits (pos r)

unfoldable pub run_compare : Predicate → ℕ → ℕ → ℕ → Exec Vm ℕ
run_compare pred bits x y = do
  a ← decode_integer x bits
  b ← decode_integer y bits
  reading λ vm. icmp pred bits a b

-- Only a sign extension takes the value as signed.
unfoldable pub cast_value : CastOp → ℕ → ℕ → ℤ
cast_value sext bits v = signed v bits
cast_value zext bits v = pos v
cast_value trunc bits v = pos v

unfoldable pub run_cast : CastOp → ℕ → ℕ → ℕ → Exec Vm ℕ
run_cast op src_bits dst_bits x = do
  v ← decode_integer x src_bits
  encode_integer dst_bits (cast_value op src_bits v)

unfoldable pub run_add : ℕ → ℕ → ℕ → Exec Vm ℕ
run_add bits x y = do
  a ← decode_integer x bits
  b ← decode_integer y bits
  encode_integer bits (pos (a + b))

-- The size is not known unless the pointer is null.
unfoldable pub object_size : ℕ → ℕ → ℕ → ℕ → ℕ
object_size bits pointer minimum null_unknown =
    if nat_eqb pointer 0 && nat_eqb null_unknown 0
    then 0
    else if nat_eqb minimum 0
    then 2 ^ bits - 1
    else 0

-- The count for a value of the width that is not 0.
unfoldable pub counted : CountOp → ℕ → ℕ → ℕ
counted cttz bits v = trailing_zeros bits v
counted ctlz bits v = bits - bit_length v
counted ctpop bits v = bit_count v

unfoldable pub count_zeros : String → CountOp → ℕ → ℕ → Bool → Exec Vm ℕ
count_zeros symbol op bits x zero_is_poison = do
  let v : ℕ = x % 2 ^ bits
  refuse_if (nat_eqb v 0 && zero_is_poison) (poison_input symbol)
  pure (if nat_eqb v 0 then bits else counted op bits v)

unfoldable pub absolute_value : String → ℕ → ℕ → Bool → Exec Vm ℕ
absolute_value symbol bits x min_is_poison = do
  refuse_if (eqb_ℤ (signed x bits) (signed_min bits) && min_is_poison) (poison_input symbol)
  pure (llvm_abs bits x)

unfoldable pub run_with_overflow : Signedness → OverflowOp → ℕ → ℕ → ℕ → Exec Vm ℕ
run_with_overflow s op bits x y = do
  a ← decode_integer x bits
  b ← decode_integer y bits
  let raw = exact op (value_of s bits a) (value_of s bits b)
  overflow_blob bits raw (does_overflow s bits raw)

unfoldable pub load_integer : ℕ → ℕ → Exec Vm ℕ
load_integer bits address = do
  v ← reading λ vm. ok (read_le vm.memory address 0 (bytes_of bits) 0)
  encode_integer bits (pos v)

unfoldable pub store_integer : ℕ → ℕ → ℕ → Exec Vm (Unit {0})
store_integer bits address encoded = do
  v ← decode_integer encoded bits
  on_memory λ m. write_le m address 0 (bytes_of bits) v

-- `bool(args[1])`
abbrev pub flag : ℕ → Bool
flag n = not (nat_eqb n 0)
