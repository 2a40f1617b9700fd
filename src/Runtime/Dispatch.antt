-- ===== src/Runtime/Dispatch.antt =====
-- The callback of each helper of src/minimachine/runtime.py: its test of the number of arguments,
-- and what it returns.
use minimachine.Prelude.{
  ok, ℕ, ◌+◌, ◌-◌, ◌*◌, ◌%◌, ◌^◌, String, Bool, false, bit_and, bit_xor, nat_eqb, [], ◌∷◌, word_mod,
  if◌then◌else◌,
}
use minimachine.Prelude.Int.{pos}
use minimachine.Exec.{Exec, pure, reading, ◌>>=◌}
use minimachine.Vm.{Vm, HostService, Reply, nothing}
use minimachine.Vm.Step.{write_memory, read_word}
use minimachine.Abi.Frame.{ret_pc}
use minimachine.Runtime.Blob.{on_memory, caller_frame, decode_integer, encode_integer}
use minimachine.Runtime.Arithmetic.{bswap, funnel, minmax, bit_count, saturating, bitreverse}
use minimachine.Runtime.Copy.{
  fill_wrapped, move_bytes, copy_bytes, wrapped, aggregate_literal, load_aggregate, extractvalue,
  insertvalue,
}
use minimachine.Runtime.Helper
use minimachine.Runtime.Helper.{
  Helper, answer, answering, done, refused, flag, CountOp, cttz, ctlz, ctpop,
}

-- `if len(args) != 1: raise`, and so on.
unfoldable pub with_1 : String → (ℕ → Exec Vm Reply) → HostService
with_1 symbol f (a ∷ []) = f a
with_1 symbol f args = refused symbol

unfoldable pub with_2 : String → (ℕ → ℕ → Exec Vm Reply) → HostService
with_2 symbol f (a ∷ b ∷ []) = f a b
with_2 symbol f args = refused symbol

unfoldable pub with_3 : String → (ℕ → ℕ → ℕ → Exec Vm Reply) → HostService
with_3 symbol f (a ∷ b ∷ c ∷ []) = f a b c
with_3 symbol f args = refused symbol

unfoldable pub with_4 : String → (ℕ → ℕ → ℕ → ℕ → Exec Vm Reply) → HostService
with_4 symbol f (a ∷ b ∷ c ∷ d ∷ []) = f a b c d
with_4 symbol f args = refused symbol

unfoldable pub with_6 : String → (ℕ → ℕ → ℕ → ℕ → ℕ → ℕ → Exec Vm Reply) → HostService
with_6 symbol f (a ∷ b ∷ c ∷ d ∷ e ∷ g ∷ []) = f a b c d e g
with_6 symbol f args = refused symbol

-- One argument and perhaps a flag.
unfoldable pub with_flag : String → (ℕ → Bool → Exec Vm Reply) → HostService
with_flag symbol f (a ∷ []) = f a false
with_flag symbol f (a ∷ b ∷ []) = f a (flag b)
with_flag symbol f args = refused symbol

-- Two or three arguments, of which the first is used.
unfoldable pub with_expected : String → (ℕ → Exec Vm Reply) → HostService
with_expected symbol f (a ∷ b ∷ []) = f a
with_expected symbol f (a ∷ b ∷ c ∷ []) = f a
with_expected symbol f args = refused symbol

-- Three arguments at least.
unfoldable pub with_3_first : String → (ℕ → ℕ → ℕ → Exec Vm Reply) → HostService
with_3_first symbol f (a ∷ b ∷ c ∷ rest) = f a b c
with_3_first symbol f args = refused symbol

unfoldable pub with_none : String → Exec Vm Reply → HostService
with_none symbol m [] = m
with_none symbol m args = refused symbol

-- The population count takes no flag.
unfoldable pub run_count : String → CountOp → ℕ → HostService
run_count symbol ctpop bits = with_1 symbol λ x. answer (bit_count (x % 2 ^ bits))
run_count symbol cttz bits =
    with_flag symbol λ x poison. answering (Helper.count_zeros symbol cttz bits x poison)
run_count symbol ctlz bits =
    with_flag symbol λ x poison. answering (Helper.count_zeros symbol ctlz bits x poison)

-- `args[0] & (mask ^ sign_bit)`
abbrev pub fabs_bits : ℕ → ℕ → ℕ
fabs_bits bits x = bit_and x (bit_xor (2 ^ bits - 1) (2 ^ (bits - 1)))

unfoldable pub helper_callback : String → Helper → HostService
helper_callback s Helper.alloca = with_3 s λ size n align. answering (Helper.allocate size n align)
helper_callback s (Helper.wide_const bits) = λ args. answering (Helper.make_wide s bits args)
helper_callback s Helper.stack_save = with_none s (reading (λ vm. ok vm.heap_next) >>= answer)
helper_callback s Helper.stack_restore = with_1 s λ saved. done (Helper.restore_stack saved)
helper_callback s Helper.va_start =
    with_2 s λ va_list fixed. done (Helper.start_varargs va_list fixed)
helper_callback s Helper.va_copy =
    with_2 s λ dst src. done (read_word src >>= λ v. write_memory dst 64 v)
helper_callback s Helper.va_end = with_1 s λ va_list. pure nothing
helper_callback s (Helper.fabs bits) = with_1 s λ x. answer (fabs_bits bits x)
helper_callback s (Helper.fneg bits) = with_1 s λ x. answer (bit_xor x (2 ^ (bits - 1)) % 2 ^ bits)
helper_callback s (Helper.binary op bits) =
    with_2 s λ x y. answering (Helper.run_binary op bits x y)
helper_callback s (Helper.compare pred bits) =
    with_2 s λ x y. answering (Helper.run_compare pred bits x y)
helper_callback s (Helper.ptr_add scale) = with_2 s λ p i. answer ((p + i * scale) % word_mod)
helper_callback s Helper.select = with_3 s λ c t f. answer (if nat_eqb (c % 2) 0 then f else t)
helper_callback s (Helper.cast op src dst) = with_1 s λ x. answering (Helper.run_cast op src dst x)
helper_callback s (Helper.freeze bits) =
    with_1 s λ x. answering (decode_integer x bits >>= λ v. encode_integer bits (pos v))
helper_callback s (Helper.add bits) = with_2 s λ x y. answering (Helper.run_add bits x y)
helper_callback s (Helper.objectsize bits) =
    with_4 s λ p minimum null dynamic. answer (Helper.object_size bits p minimum null)
helper_callback s Helper.expect = with_expected s answer
helper_callback s Helper.is_constant = with_1 s λ x. answer 0
helper_callback s (Helper.swap_bytes bits) = with_1 s λ x. answer (bswap bits x)
helper_callback s (Helper.funnel_shift d bits) =
    with_3 s λ a b shift. answer (funnel d bits a b shift)
helper_callback s (Helper.min_or_max g e bits) = with_2 s λ x y. answer (minmax g e bits x y)
helper_callback s (Helper.count_bits op bits) = run_count s op bits
helper_callback s (Helper.integer_load bits) = with_1 s λ p. answering (Helper.load_integer bits p)
helper_callback s (Helper.integer_store bits) = with_2 s λ p x. done (Helper.store_integer bits p x)
helper_callback s Helper.prefetch = λ args. pure nothing
helper_callback s (Helper.absolute bits) =
    with_flag s λ x poison. answering (Helper.absolute_value s bits x poison)
helper_callback s (Helper.saturate op bits) = with_2 s λ x y. answer (saturating op bits x y)
helper_callback s (Helper.with_overflow g op bits) =
    with_2 s λ x y. answering (Helper.run_with_overflow g op bits x y)
helper_callback s (Helper.reverse bits) = with_1 s λ x. answer (bitreverse bits x)
helper_callback s Helper.returnaddress =
    with_1 s λ depth. answering (caller_frame depth >>= λ frame. read_word (frame + ret_pc))
helper_callback s Helper.frameaddress = with_1 s λ depth. answering (caller_frame depth)
helper_callback s Helper.noalias_scope_decl = λ args. pure nothing
helper_callback s Helper.memset =
    with_3_first s λ dst v n. done (on_memory (λ m. fill_wrapped m dst 0 n (v % 256)))
helper_callback s Helper.memcpy =
    with_3_first s λ dst src n. done (on_memory (λ m. move_bytes wrapped m dst src n))
helper_callback s Helper.memmove =
    with_3_first s λ dst src n. done (on_memory (λ m. move_bytes wrapped m dst src n))
helper_callback s Helper.aggregate = λ args. answering (aggregate_literal args)
helper_callback s Helper.load_blob = with_2 s λ source size. answering (load_aggregate source size)
helper_callback s Helper.store_aggregate =
    with_3 s λ dst blob size. done (on_memory (λ m. copy_bytes m dst blob 0 size))
helper_callback s Helper.freeze_aggregate = with_1 s answer
helper_callback s Helper.extract =
    with_4 s λ blob offset size is_blob. answering (extractvalue blob offset size is_blob)
helper_callback s Helper.insert =
    with_6 s
      λ blob total offset v size is_blob. answering (insertvalue blob total offset v size is_blob)
