-- ===== src/Runtime/System/Registers.antt =====
-- The platform's own registers in src/minimachine/runtime.py, and `system_callback`.
use minimachine.Prelude.{
  ℕ, ◌-◌, ◌%◌, String, Bool, false, bit_and, bit_or, nat_eqb, List, [], ◌∷◌, Option, none, some,
  word_mod, if◌then◌else◌, ok, nat_eq, string_eq, ◌||◌,
}
use minimachine.Prelude.Int.{pos}
use minimachine.Prelude.Dict
use minimachine.Prelude.Dict.{Dict}
use minimachine.Error.{no_ecall_handler, unknown_operation, service_failed}
use minimachine.Exec.{Exec, pure, raise, reading, modify, ◌>>=◌, ◌>>◌}
use minimachine.Vm.{Vm, Platform, HostService, Reply, nothing, many}
use minimachine.Runtime.Integer.{int_of_bool}
use minimachine.Runtime.Helper.{answer, done}
use minimachine.Runtime.Dispatch.{with_1, with_2, with_3, with_4, with_none}
use minimachine.Runtime.System.{
  SysOp, StateOp, Update, state_read_clear, state_read_set, state_read, state_write, state_set,
  state_clear, state_swap, state_other, to_value, set_bits, clear_bits, run_amo, run_cmpxchg,
  run_conditional, run_faultable_load, run_faultable_store, run_faultable_amo,
  run_faultable_cmpxchg,
}

-- `d.get(k, 0)`
abbrev pub or_zero : Option ℕ → ℕ
or_zero none = 0
or_zero (some v) = v

unfoldable pub system_value : String → Platform → ℕ
unfolding Dict.get
system_value key p = or_zero (Dict.get p.system_state key)

unfoldable pub csr_value : ℕ → Platform → ℕ
unfolding Dict.get
csr_value csr p = or_zero (Dict.get p.csr csr)

abbrev pub on_platform : (Platform → Platform) → Exec Vm (Unit {0})
on_platform f = modify λ vm. record vm { platform = f vm.platform }

unfoldable pub set_system : String → ℕ → Exec Vm (Unit {0})
unfolding Dict.put
set_system key v = on_platform λ p. record p { system_state = Dict.put p.system_state key v }

unfoldable pub set_csr : ℕ → ℕ → Exec Vm (Unit {0})
unfolding Dict.put
set_csr csr v = on_platform λ p. record p { csr = Dict.put p.csr csr v }

-- `old | value` and `old & ~value`, cut to a word
unfoldable pub updated : Update → ℕ → ℕ → ℕ
updated to_value old v = v % word_mod
updated set_bits old v = bit_or old v % word_mod
updated clear_bits old v = (old - bit_and old v) % word_mod

-- The operations that return the old value, and those that return nothing.
unfoldable pub answering_old : String → String → Update → ℕ → HostService
answering_old symbol key u old = with_1 symbol λ v. set_system key (updated u old v) >> answer old

unfoldable pub silent : String → String → Update → ℕ → HostService
silent symbol key u old = with_1 symbol λ v. done (set_system key (updated u old v))

unfoldable pub run_kind : String → String → StateOp → ℕ → HostService
run_kind symbol key state_read_clear old = answering_old symbol key clear_bits old
run_kind symbol key state_read_set old = answering_old symbol key set_bits old
run_kind symbol key state_read old = λ args. answer old
run_kind symbol key state_write old = silent symbol key to_value old
run_kind symbol key state_set old = silent symbol key set_bits old
run_kind symbol key state_clear old = silent symbol key clear_bits old
run_kind symbol key state_swap old = answering_old symbol key to_value old
run_kind symbol key state_other old = λ args. raise (service_failed (unknown_operation symbol))

unfoldable pub run_state : String → StateOp → String → HostService
run_state symbol op key args = do
  old ← reading λ vm. ok (system_value key vm.platform)
  run_kind symbol key op old args

unfoldable pub mutate_csr : Update → ℕ → ℕ → Exec Vm (Unit {0})
mutate_csr u csr v = do
  old ← reading λ vm. ok (csr_value csr vm.platform)
  set_csr csr (updated u old v)

unfoldable pub swap_csr : Update → ℕ → ℕ → Exec Vm Reply
swap_csr u csr v = do
  old ← reading λ vm. ok (csr_value csr vm.platform)
  set_csr csr (updated u old v)
  answer old

unfoldable pub has_feature : ℕ → List ℕ → Bool
has_feature n [] = false
has_feature n (f ∷ fs) = nat_eqb f n || has_feature n fs

-- `int(bool(vm.static_keys.get(key, 0)))`
unfoldable pub branch_taken : ℕ → Platform → ℕ
unfolding Dict.get
branch_taken key p = if nat_eqb (or_zero (Dict.get p.static_keys key)) 0 then 0 else 1

unfoldable pub snapshot_vector : Platform → Reply
snapshot_vector p = many (
    pos p.vector_state.0
    ∷ pos p.vector_state.1
    ∷ pos p.vector_state.2
    ∷ pos p.vector_state.3
    ∷ pos p.vector_state.4
    ∷ [])

unfoldable pub restore_vector : ℕ → ℕ → ℕ → ℕ → Platform → Platform
restore_vector vstart vtype vl vcsr p = record p {
  vector_state =
      (vstart % word_mod, vtype % word_mod, vl % word_mod, vcsr % word_mod, p.vector_state.4);
}

unfoldable pub run_ecall : Option HostService → HostService
run_ecall none args = raise (service_failed no_ecall_handler)
run_ecall (some handler) args = handler args

-- The handler of environment calls is set by the embedder, if at all.
unfoldable pub system_callback : Option HostService → String → SysOp → HostService
system_callback h s (SysOp.atomic op bits) = with_2 s (run_amo op bits)
system_callback h s (SysOp.atomic_cmpxchg bits) = with_3 s (run_cmpxchg bits)
system_callback h s (SysOp.atomic_conditional op bits) = run_conditional s op bits
system_callback h s (SysOp.faultable_load bits) = run_faultable_load s bits
system_callback h s (SysOp.faultable_store bits) = run_faultable_store s bits
system_callback h s (SysOp.faultable_cmpxchg bits) = run_faultable_cmpxchg s bits
system_callback h s (SysOp.faultable_atomic op bits) = run_faultable_amo s op bits
system_callback h s SysOp.static_branch =
    with_1 s λ key. reading (λ vm. ok (branch_taken key vm.platform)) >>= answer
system_callback h s SysOp.cpu_feature =
    with_1 s
      λ n. reading (λ vm. ok (int_of_bool (has_feature n vm.platform.cpu_features))) >>= answer
system_callback h s SysOp.ecall = run_ecall h
system_callback h s SysOp.vector_state_snapshot =
    with_none s (reading λ vm. ok (snapshot_vector vm.platform))
system_callback h s SysOp.vector_state_restore =
    with_4 s λ vstart vtype vl vcsr. done (on_platform (restore_vector vstart vtype vl vcsr))
system_callback h s SysOp.vector_length_bytes =
    with_none s (reading (λ vm. ok vm.platform.vector_state.4) >>= answer)
system_callback h s SysOp.thread_pointer =
    with_none s (reading (λ vm. ok (system_value "thread_pointer" vm.platform)) >>= answer)
system_callback h s SysOp.ordering = λ args. pure nothing
system_callback h s SysOp.wait_interrupt = λ args. pure nothing
system_callback h s SysOp.counter = λ args. reading (λ vm. ok (vm.steps % word_mod)) >>= answer
system_callback h s (SysOp.state op key) = run_state s op key
system_callback h s SysOp.csr_read =
    with_1 s λ csr. reading (λ vm. ok (csr_value csr vm.platform)) >>= answer
system_callback h s (SysOp.csr_mutate u) = with_2 s λ csr v. done (mutate_csr u csr v)
system_callback h s (SysOp.csr_swap u) = with_2 s (swap_csr u)
