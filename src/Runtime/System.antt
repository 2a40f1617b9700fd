-- ===== src/Runtime/System.antt =====
-- The system services of src/minimachine/runtime.py: atomics, accesses that may fault, control and
-- status registers, and the platform's own state. A service is the operation as its regular
-- expression or prefix takes it apart; the memory ordering in it has no effect.
pub mod Registers
use minimachine.Prelude.{
  ℕ, ◌+◌, ◌-◌, ◌%◌, ◌^◌, String, Bool, true, false, ◌&&◌, not, bit_and, bit_or, bit_xor, nat_eqb,
  leb, ltb, List, [], ◌∷◌, Option, none, some, word_mod, if◌then◌else◌, ok, nat_eq, string_eq,
}
use minimachine.Prelude.Int.{ℤ, pos, ltb_ℤ, leb_ℤ}
use minimachine.Prelude.Dict
use minimachine.Prelude.Dict.{Dict}
use minimachine.Error.{
  unsupported_result_count, wrong_arguments, no_ecall_handler, unknown_operation, service_failed,
}
use minimachine.Exec.{Exec, pure, raise, reading, modify, ◌>>=◌, ◌>>◌}
use minimachine.Memory
use minimachine.Abi.Frame.{result_count}
use minimachine.Vm.{Vm, Platform, HostService, Reply, nothing, one, many}
use minimachine.Vm.Step.{write_memory, read_header}
use minimachine.Runtime.Integer.{signed, int_of_bool}
use minimachine.Runtime.Helper.{answer, refused, done}
use minimachine.Runtime.Dispatch.{with_1, with_2, with_3, with_none}

pub data Amo : Type 0 where
  amo_add : Amo
  amo_or : Amo
  amo_and : Amo
  amo_xor : Amo
  amo_swap : Amo

pub data Condition : Type 0 where
  add_unless : Condition
  dec_if_positive : Condition
  add1_if_nonnegative : Condition
  sub1_if_nonpositive : Condition

pub data StateOp : Type 0 where
  state_read_clear : StateOp
  state_read_set : StateOp
  state_read : StateOp
  state_write : StateOp
  state_set : StateOp
  state_clear : StateOp
  state_swap : StateOp
  state_other : StateOp

pub data Update : Type 0 where
  to_value : Update
  set_bits : Update
  clear_bits : Update

pub data SysOp : Type 0 where
  static_branch cpu_feature ecall vector_state_snapshot vector_state_restore : SysOp
  vector_length_bytes thread_pointer ordering wait_interrupt counter csr_read : SysOp
  atomic : Amo → ℕ → SysOp
  atomic_cmpxchg : ℕ → SysOp
  atomic_conditional : Condition → ℕ → SysOp
  faultable_load faultable_store faultable_cmpxchg : ℕ → SysOp
  faultable_atomic : Amo → ℕ → SysOp
  state : StateOp → String → SysOp
  csr_mutate csr_swap : Update → SysOp

unfoldable pub expected_results : Exec Vm ℕ
expected_results = read_header result_count

-- `vm.memory.read(address, bits)`
abbrev pub read_bits : ℕ → ℕ → Exec Vm ℕ
read_bits address bits = reading λ vm. Memory.read vm.memory address bits

unfoldable pub atomic_reply : ℕ → ℕ → ℕ → Exec Vm Reply
atomic_reply old status count =
    if nat_eqb count 0
    then pure nothing
    else if nat_eqb count 1
    then answer old
    else if nat_eqb count 2
    then pure (many (pos old ∷ pos status ∷ []))
    else raise (service_failed (unsupported_result_count count))

unfoldable pub atomic_result : ℕ → ℕ → Exec Vm Reply
atomic_result old status = expected_results >>= atomic_reply old status

-- `rhs` is cut to the width.
unfoldable pub amo_value : Amo → ℕ → ℕ → ℕ → ℕ
amo_value amo_add bits old rhs = (old + rhs) % 2 ^ bits
amo_value amo_or bits old rhs = bit_or old rhs
amo_value amo_and bits old rhs = bit_and old rhs
amo_value amo_xor bits old rhs = bit_xor old rhs
amo_value amo_swap bits old rhs = rhs

unfoldable pub run_amo : Amo → ℕ → ℕ → ℕ → Exec Vm Reply
run_amo op bits address v = do
  old ← read_bits address bits
  write_memory address bits (amo_value op bits old (v % 2 ^ bits))
  atomic_result old 0

unfoldable pub write_if : Bool → ℕ → ℕ → ℕ → Exec Vm (Unit {0})
write_if test address bits v = if test then write_memory address bits v else pure tt

unfoldable pub run_cmpxchg : ℕ → ℕ → ℕ → ℕ → Exec Vm Reply
run_cmpxchg bits address expected desired = do
  old ← read_bits address bits
  let success = nat_eqb (old % 2 ^ bits) (expected % 2 ^ bits)
  write_if success address bits desired
  atomic_result old (if success then 0 else 1)

-- Whether the cell changes, and what it becomes; `sold` is its signed value.
unfoldable pub condition_holds : Condition → ℕ → ℕ → List ℕ → Bool
condition_holds add_unless bits old (delta ∷ unless ∷ []) = not (nat_eqb old (unless % 2 ^ bits))
condition_holds add_unless bits old other = false
condition_holds dec_if_positive bits old args =
    not (nat_eqb old 0) && ltb_ℤ (pos 0) (signed old bits)
condition_holds add1_if_nonnegative bits old args = leb_ℤ (pos 0) (signed old bits)
condition_holds sub1_if_nonpositive bits old args = leb_ℤ (signed old bits) (pos 0)

unfoldable pub conditional_value : Condition → ℕ → ℕ → List ℕ → ℕ
conditional_value add_unless bits old (delta ∷ unless ∷ []) = (old + delta) % 2 ^ bits
conditional_value add_unless bits old other = old
conditional_value dec_if_positive bits old args = (old + 2 ^ bits - 1) % 2 ^ bits
conditional_value add1_if_nonnegative bits old args = (old + 1) % 2 ^ bits
conditional_value sub1_if_nonpositive bits old args = (old + 2 ^ bits - 1) % 2 ^ bits

-- Only `add_unless` counts its arguments.
unfoldable pub check_arguments : String → Condition → List ℕ → Exec Vm (Unit {0})
check_arguments symbol add_unless (delta ∷ unless ∷ []) = pure tt
check_arguments symbol add_unless other = raise (service_failed (wrong_arguments symbol))
check_arguments symbol op args = pure tt

unfoldable pub run_conditional : String → Condition → ℕ → HostService
run_conditional symbol op bits [] = refused symbol
run_conditional symbol op bits (address ∷ args) = do
  old ← read_bits address bits
  check_arguments symbol op args
  let changed = condition_holds op bits old args
  write_if changed address bits (conditional_value op bits old args)
  atomic_result old (if changed then 0 else 1)

unfoldable pub loaded_reply : ℕ → ℕ → Exec Vm Reply
loaded_reply v count =
    if nat_eqb count 2
    then pure (many (pos 0 ∷ pos v ∷ []))
    else if nat_eqb count 1
    then answer v
    else raise (service_failed (unsupported_result_count count))

unfoldable pub run_faultable_load : String → ℕ → HostService
run_faultable_load symbol bits [] = refused symbol
run_faultable_load symbol bits (address ∷ args) = do
  v ← read_bits address bits
  expected_results >>= loaded_reply v

unfoldable pub stored_reply : ℕ → Exec Vm Reply
stored_reply count =
    if nat_eqb count 0
    then pure nothing
    else if nat_eqb count 1
    then answer 0
    else raise (service_failed (unsupported_result_count count))

unfoldable pub run_faultable_store : String → ℕ → HostService
run_faultable_store symbol bits (address ∷ v ∷ args) = do
  write_memory address bits v
  expected_results >>= stored_reply
run_faultable_store symbol bits other = refused symbol

-- The aggregate of an error, the old value and, for a comparison, whether it failed.
unfoldable pub fault_reply : ℕ → ℕ → ℕ → Exec Vm Reply
fault_reply old status count =
    if nat_eqb count 2
    then pure (many (pos 0 ∷ pos old ∷ []))
    else if nat_eqb count 3
    then pure (many (pos 0 ∷ pos old ∷ pos status ∷ []))
    else if nat_eqb count 1
    then answer old
    else if nat_eqb count 0
    then pure nothing
    else raise (service_failed (unsupported_result_count count))

-- The address is read before the arguments are counted.
unfoldable pub run_faultable_amo : String → Amo → ℕ → HostService
run_faultable_amo symbol op bits [] = refused symbol
run_faultable_amo symbol op bits (address ∷ args) = do
  old ← read_bits address bits
  with_1 symbol
      (λ v. write_memory address bits (amo_value op bits old (v % 2 ^ bits)) >> pure nothing) args
  expected_results >>= fault_reply old 0

unfoldable pub fault_exchange : ℕ → ℕ → ℕ → ℕ → ℕ → Exec Vm Reply
fault_exchange bits address old expected desired = do
  let success = nat_eqb old (expected % 2 ^ bits)
  write_if success address bits desired
  expected_results >>= fault_reply old (if success then 0 else 1)

unfoldable pub run_faultable_cmpxchg : String → ℕ → HostService
run_faultable_cmpxchg symbol bits [] = refused symbol
run_faultable_cmpxchg symbol bits (address ∷ args) = do
  old ← read_bits address bits
  with_2 symbol (fault_exchange bits address old) args
