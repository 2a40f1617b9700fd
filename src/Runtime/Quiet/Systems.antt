-- ===== src/Runtime/Quiet/Systems.antt =====
-- Every system service of src/minimachine/runtime.py leaves the control state of the machine alone.
use minimachine.Prelude.{
  ℕ, Bool, true, String, List, [], ◌∷◌, ok, Option, none, some, ◌≡◌, refl, fun_ext, subst,
}
use minimachine.Exec.{◌>>=◌}
use minimachine.Memory
use minimachine.Memory.{is_width}
use minimachine.Vm.{Vm, Platform, HostService}
use minimachine.Vm.Step.{write_memory}
use minimachine.Runtime.System
use minimachine.Runtime.System.{
  Amo, Condition, SysOp, StateOp, Update, add_unless, read_bits, write_if, expected_results,
  atomic_reply, atomic_result, run_amo, run_cmpxchg, check_arguments, run_conditional, loaded_reply,
  run_faultable_load, stored_reply, run_faultable_store, fault_reply, run_faultable_amo,
  fault_exchange, run_faultable_cmpxchg,
}
use minimachine.Runtime.System.Registers.{
  on_platform, set_system, set_csr, answering_old, silent, run_kind, run_state, mutate_csr,
  swap_csr, snapshot_vector, run_ecall, system_callback,
}
use minimachine.Runtime.Dispatch.{with_1}
use minimachine.Runtime.Quiet.{
  on_memory, Quiet, Any, Answers, Quiet-bind, Quiet-reading, Quiet-modify, Quiet-on_memory,
  Quiet-Answers, quiet_rules,
}
use minimachine.Runtime.Quiet.Helpers.{
  with_1-Quiet, done-Quiet, QuietService, refused-Quiet, arities,
}

-- The width of every access is one that the memory supports.
abbrev pub HasWidth : SysOp → Type 0
HasWidth (SysOp.atomic op bits) = is_width bits ≡ true
HasWidth (SysOp.atomic_cmpxchg bits) = is_width bits ≡ true
HasWidth (SysOp.atomic_conditional op bits) = is_width bits ≡ true
HasWidth (SysOp.faultable_load bits) = is_width bits ≡ true
HasWidth (SysOp.faultable_store bits) = is_width bits ≡ true
HasWidth (SysOp.faultable_cmpxchg bits) = is_width bits ≡ true
HasWidth (SysOp.faultable_atomic op bits) = is_width bits ≡ true
HasWidth op = Unit

pub read_bits-Quiet : (a bits : ℕ) → is_width bits ≡ true → Quiet Any (read_bits a bits)
unfolding Memory.read
read_bits-Quiet a bits w = Quiet-reading Any _ (λ vm. rw w tt)

write-ok :
    (m : Memory.SparseMemory) (a bits v : ℕ)
    → is_width bits ≡ true
    → Memory.write m a bits v ≡ ok (Memory.store m a bits v)
unfolding Memory.write
write-ok m a bits v w = rw w refl

write_memory-ok :
    (a bits v : ℕ) (vm : Vm)
    → is_width bits ≡ true
    → on_memory (λ m. Memory.store m a bits v) vm ≡ write_memory a bits v vm
unfolding write_memory
write_memory-ok a bits v vm w = rw (write-ok vm.memory a bits v w, write_memory) refl

pub write_bits-Quiet : (a bits v : ℕ) → is_width bits ≡ true → Quiet Any (write_memory a bits v)
write_bits-Quiet a bits v w =
    subst (Quiet Any) (fun_ext (λ vm. write_memory-ok a bits v vm w))
      (Quiet-on_memory (λ m. Memory.store m a bits v))

on_platform-Quiet : (f : Platform → Platform) → Quiet Any (on_platform f)
on_platform-Quiet f = Quiet-modify _ (λ vm. record {
  stack_top = refl;
  sp = refl;
  current_function = refl;
  current_block = refl;
  ip = refl;
  halted = refl;
  steps = refl;
})

write_if-Quiet : (b : Bool) (a bits v : ℕ) → is_width bits ≡ true → Quiet Any (write_if b a bits v)
unfolding write_if
write_if-Quiet b a bits v w = search (quiet_rules, write_bits-Quiet)

ruleset system_rules =
    (quiet_rules, read_bits-Quiet, write_bits-Quiet, write_if-Quiet, refused-Quiet, Quiet-Answers)

atomic_reply-Quiet : (old status count : ℕ) → Quiet Answers (atomic_reply old status count)
unfolding atomic_reply
atomic_reply-Quiet old status count = search (quiet_rules)

atomic_result-Quiet : (old status : ℕ) → Quiet Answers (atomic_result old status)
unfolding atomic_result expected_results
atomic_result-Quiet old status = search (quiet_rules, atomic_reply-Quiet)

run_amo-Quiet :
    (op : Amo) (bits a v : ℕ) → is_width bits ≡ true → Quiet Answers (run_amo op bits a v)
unfolding run_amo
run_amo-Quiet op bits a v w = search (system_rules, atomic_result-Quiet)

run_cmpxchg-Quiet : (bits a e d : ℕ) → is_width bits ≡ true → Quiet Answers (run_cmpxchg bits a e d)
unfolding run_cmpxchg
run_cmpxchg-Quiet bits a e d w = search (system_rules, atomic_result-Quiet)

check_arguments-Quiet :
    (s : String) (op : Condition) (args : List ℕ) → Quiet Any (check_arguments s op args)
unfolding check_arguments
check_arguments-Quiet s add_unless [] = search (quiet_rules)
check_arguments-Quiet s add_unless (a ∷ []) = search (quiet_rules)
check_arguments-Quiet s add_unless (a ∷ b ∷ []) = search (quiet_rules)
check_arguments-Quiet s add_unless (a ∷ b ∷ c ∷ args) = search (quiet_rules)
check_arguments-Quiet s op args = search (quiet_rules)

run_conditional-Quiet :
    (s : String) (op : Condition) (bits : ℕ)
    → is_width bits ≡ true
    → QuietService (run_conditional s op bits)
unfolding run_conditional
run_conditional-Quiet s op bits w [] = refused-Quiet s
run_conditional-Quiet s op bits w (a ∷ args) =
    search (system_rules, atomic_result-Quiet, check_arguments-Quiet)

loaded-Quiet : (v : ℕ) → Quiet Answers (expected_results >>= loaded_reply v)
unfolding expected_results loaded_reply
loaded-Quiet v = search (quiet_rules) depth 8

stored-Quiet : Quiet Answers (expected_results >>= stored_reply)
unfolding expected_results stored_reply
stored-Quiet = search (quiet_rules) depth 8

run_faultable_load-Quiet :
    (s : String) (bits : ℕ) → is_width bits ≡ true → QuietService (run_faultable_load s bits)
unfolding run_faultable_load
run_faultable_load-Quiet s bits w [] = refused-Quiet s
run_faultable_load-Quiet s bits w (a ∷ args) = search (system_rules, loaded-Quiet)

run_faultable_store-Quiet :
    (s : String) (bits : ℕ) → is_width bits ≡ true → QuietService (run_faultable_store s bits)
unfolding run_faultable_store
run_faultable_store-Quiet s bits w [] = refused-Quiet s
run_faultable_store-Quiet s bits w (a ∷ []) = refused-Quiet s
run_faultable_store-Quiet s bits w (a ∷ v ∷ args) = search (system_rules, stored-Quiet)

fault_reply-Quiet : (old status count : ℕ) → Quiet Answers (fault_reply old status count)
unfolding fault_reply
fault_reply-Quiet old status count = search (quiet_rules) depth 7

fault_result-Quiet : (old status : ℕ) → Quiet Answers (expected_results >>= fault_reply old status)
unfolding expected_results
fault_result-Quiet old status = search (quiet_rules, fault_reply-Quiet)

run_faultable_amo-Quiet :
    (s : String) (op : Amo) (bits : ℕ)
    → is_width bits ≡ true
    → QuietService (run_faultable_amo s op bits)
unfolding run_faultable_amo
run_faultable_amo-Quiet s op bits w [] = refused-Quiet s
run_faultable_amo-Quiet s op bits w (a ∷ args) =
    Quiet-bind Answers _ (read_bits a bits) (read_bits-Quiet a bits w) (λ old.
      Quiet-bind Answers _ (with_1 s _ args)
        (Quiet-Answers (with_1-Quiet s _ (λ v. done-Quiet _ (write_bits-Quiet a bits _ w)) args))
        (λ r. fault_result-Quiet old 0))

fault_exchange-Quiet :
    (bits a old e d : ℕ) → is_width bits ≡ true → Quiet Answers (fault_exchange bits a old e d)
unfolding fault_exchange
fault_exchange-Quiet bits a old e d w = search (system_rules, fault_result-Quiet)

run_faultable_cmpxchg-Quiet :
    (s : String) (bits : ℕ) → is_width bits ≡ true → QuietService (run_faultable_cmpxchg s bits)
unfolding run_faultable_cmpxchg
run_faultable_cmpxchg-Quiet s bits w [] = refused-Quiet s
run_faultable_cmpxchg-Quiet s bits w (a ∷ args) =
    search (system_rules, arities, fault_exchange-Quiet)

set_system-Quiet : (key : String) (v : ℕ) → Quiet Any (set_system key v)
unfolding set_system
set_system-Quiet key v = on_platform-Quiet _

set_csr-Quiet : (csr v : ℕ) → Quiet Any (set_csr csr v)
unfolding set_csr
set_csr-Quiet csr v = on_platform-Quiet _

run_kind-Quiet : (s key : String) (op : StateOp) (old : ℕ) → QuietService (run_kind s key op old)
unfolding run_kind answering_old silent
run_kind-Quiet s key System.state_read_clear old = search (quiet_rules, arities, set_system-Quiet)
run_kind-Quiet s key op old = search (quiet_rules, arities, set_system-Quiet)

run_state-Quiet : (s : String) (op : StateOp) (key : String) → QuietService (run_state s op key)
unfolding run_state
run_state-Quiet s op key args = search (quiet_rules, run_kind-Quiet)

mutate_csr-Quiet : (u : Update) (csr v : ℕ) → Quiet Any (mutate_csr u csr v)
unfolding mutate_csr
mutate_csr-Quiet u csr v = search (quiet_rules, set_csr-Quiet)

swap_csr-Quiet : (u : Update) (csr v : ℕ) → Quiet Answers (swap_csr u csr v)
unfolding swap_csr
swap_csr-Quiet u csr v = search (quiet_rules, arities, set_csr-Quiet)

-- The embedder's handler of environment calls, if there is one, is such a service.
abbrev pub QuietHandler : Option HostService → Type 0
QuietHandler none = Unit
QuietHandler (some handler) = QuietService handler

run_ecall-Quiet : (h : Option HostService) → QuietHandler h → QuietService (run_ecall h)
unfolding run_ecall
run_ecall-Quiet none q args = search (quiet_rules)
run_ecall-Quiet (some handler) q args = q args

-- No system service on accesses of a supported width, given any arguments, changes where the
-- machine stands, its stack or its counter of steps; it answers, or raises an exception that the
-- verifier is not there to exclude. The embedder's handler of environment calls, if any, must be so.
pub system_callback-QuietService :
    (h : Option HostService) (s : String) (op : SysOp)
    → QuietHandler h
    → HasWidth op
    → QuietService (system_callback h s op)
unfolding system_callback snapshot_vector
system_callback-QuietService h s (SysOp.atomic op bits) q w =
    search (arities, λ (a v : ℕ). run_amo-Quiet op bits a v w)
system_callback-QuietService h s (SysOp.atomic_cmpxchg bits) q w =
    search (arities, λ (a e d : ℕ). run_cmpxchg-Quiet bits a e d w)
system_callback-QuietService h s (SysOp.atomic_conditional op bits) q w =
    run_conditional-Quiet s op bits w
system_callback-QuietService h s (SysOp.faultable_load bits) q w = run_faultable_load-Quiet s bits w
system_callback-QuietService h s (SysOp.faultable_store bits) q w =
    run_faultable_store-Quiet s bits w
system_callback-QuietService h s (SysOp.faultable_cmpxchg bits) q w =
    run_faultable_cmpxchg-Quiet s bits w
system_callback-QuietService h s (SysOp.faultable_atomic op bits) q w =
    run_faultable_amo-Quiet s op bits w
system_callback-QuietService h s SysOp.ecall q w = run_ecall-Quiet h q
system_callback-QuietService h s op q w =
    search
      (quiet_rules, arities, on_platform-Quiet, run_state-Quiet, mutate_csr-Quiet, swap_csr-Quiet)
