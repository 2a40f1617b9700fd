-- ===== src/Vm/Run.antt =====
-- Running a machine (src/minimachine/vm.py): `run`, `run_function`, `enter_function` and
-- `alloc_bytes`.
use minimachine.Prelude.{
  pair_eq, ℕ, zero, suc, ◌+◌, ◌-◌, ◌*◌, String, false, Option, none, some, List, [], ◌∷◌, max, map,
  if◌then◌else◌, ok, err, Result, nat_eqb, leb, string_eq, word_mod, length, bit_and, ◌||◌, not,
}
use minimachine.Prelude.Int.{ℤ, pos, negsuc, sub_ℕ, mod_ℤ}
use minimachine.Prelude.Dict
use minimachine.Error.{
  VmError, unknown_transfer_target, unknown_entry_function, no_entry_block, negative_result_count,
  step_limit_exceeded, heap_collided_with_stack, negative_allocation_size, allocation_alignment,
}
use minimachine.Exec.{Exec, pure, raise, reading, modify, ◌>>=◌, ◌>>◌}
use minimachine.P3
use minimachine.Abi.Frame
use minimachine.Abi.Frame.{word}
use minimachine.Vm.{Vm}
use minimachine.Vm.Read.{or_raise}
use minimachine.Vm.Step.{write_memory, read_words, step}
use minimachine.Program.{Program}

-- An exception ends the run.
unfoldable pub continue_run :
    (Vm → Option (Result VmError (Unit {0}) × Vm))
    → Result VmError (Unit {0}) × Vm
    → Option (Result VmError (Unit {0}) × Vm)
continue_run go (ok u, vm) = go vm
continue_run go (err e, vm) = some (err e, vm)

-- `while not self.halted`, with the step limit tested before each step. The loop runs on fuel, and
-- `none` means that the fuel ran out.
unfoldable pub run_loop : Program → ℕ → ℕ → ℕ → Vm → Option (Result VmError (Unit {0}) × Vm)
run_loop p depth max_steps zero vm = none
run_loop p depth max_steps (suc fuel) vm =
    let next = continue_run (run_loop p depth max_steps fuel) (step p depth vm) in
    if vm.halted
    then some (ok tt, vm)
    else if leb max_steps vm.steps
    then some (err (step_limit_exceeded max_steps), vm)
    else next

-- Each step counts, so the limit bounds the rounds.
unfoldable pub run : Program → ℕ → ℕ → Vm → Option (Result VmError (Unit {0}) × Vm)
run p depth max_steps vm = run_loop p depth max_steps (max_steps + 1) vm

abbrev pub labelled_code : String → Option ℕ → Result VmError (ℕ × String)
labelled_code label (some code) = ok (code, label)
labelled_code label none = err no_entry_block

-- `self.block_code[(name, linked.function.blocks[0].label)]`, with the label.
unfoldable pub entry_block : Program → String → List P3.Block → Result VmError (ℕ × String)
entry_block p name [] = err no_entry_block
entry_block p name (b ∷ bs) = labelled_code b.label (Dict.get p.block_code (name, b.label))

unfoldable pub count_of : ℤ → Exec Vm ℕ
count_of (pos n) = pure n
count_of (negsuc n) = raise negative_result_count

-- The arguments of a new frame.
unfoldable pub write_args : ℕ → List ℕ → Exec Vm (Unit {0})
write_args address [] = pure tt
write_args address (v ∷ vs) = do write_memory address 64 v; write_args (address + word) vs

-- The size of a frame with its arguments and at least one word for results.
abbrev pub frame_bytes : ℕ → List ℕ → ℕ → ℕ
frame_bytes size argv n = size + length argv * word + max 1 n * word

-- `(top - total) & MASK64`
abbrev pub sp_below : ℕ → ℕ → ℕ
sp_below top total = mod_ℤ (sub_ℕ top total) word_mod

abbrev pub words : List ℤ → List ℕ
words args = map (λ v. mod_ℤ v word_mod) args

unfoldable pub start_at : String → String → ℕ → Exec Vm (Unit {0})
start_at name label callee_sp = modify λ vm. record vm {
  sp = callee_sp;
  current_function = some name;
  current_block = some label;
  ip = 0;
  halted = false;
}

unfoldable pub enter_function : Program → String → List ℤ → ℕ → ℤ → Exec Vm (Unit {0})
enter_function p name args stack_top result_count = do
  linked ← reading λ vm. or_raise (Dict.get p.functions name) (unknown_transfer_target name)
  n ← count_of result_count
  (entry, label) ← reading λ vm. entry_block p name linked.function.blocks
  let argv = words args
  let callee_sp = sp_below stack_top (frame_bytes linked.frame_size argv n)
  let arg_base : ℕ = callee_sp + linked.frame_size
  let result_base : ℕ = arg_base + length argv * word
  write_memory (callee_sp + Frame.caller_sp) 64 callee_sp
  write_memory (callee_sp + Frame.ret_pc) 64 p.halt_code
  write_memory (callee_sp + Frame.entry) 64 entry
  write_memory (callee_sp + Frame.frame_size) 64 linked.frame_size
  write_memory (callee_sp + Frame.result_ptr) 64 result_base
  write_memory (callee_sp + Frame.result_count) 64 n
  write_memory (callee_sp + Frame.resume_pc) 64 p.halt_code
  write_memory (callee_sp + Frame.arg_count) 64 (length argv)
  write_args arg_base argv
  start_at name label callee_sp

-- What `run_function` sets up before its `run`: the address of the results.
unfoldable pub start_function : Program → String → List ℤ → ℕ → Exec Vm ℕ
start_function p name args n = do
  linked ← reading λ vm. or_raise (Dict.get p.functions name) (unknown_entry_function name)
  (entry, label) ← reading λ vm. entry_block p name linked.function.blocks
  top ← reading λ vm. ok vm.stack_top
  let argv = words args
  let callee_sp = sp_below top (frame_bytes linked.frame_size argv n)
  let arg_base : ℕ = callee_sp + linked.frame_size
  let result_base : ℕ = arg_base + length argv * word
  write_memory (callee_sp + Frame.caller_sp) 64 top
  write_memory (callee_sp + Frame.ret_pc) 64 p.halt_code
  write_memory (callee_sp + Frame.entry) 64 entry
  write_memory (callee_sp + Frame.frame_size) 64 linked.frame_size
  write_memory (callee_sp + Frame.result_ptr) 64 result_base
  write_memory (callee_sp + Frame.result_count) 64 n
  write_memory (callee_sp + Frame.arg_count) 64 (length argv)
  write_args arg_base argv
  start_at name label callee_sp
  modify λ vm. record vm { steps = 0 }
  pure result_base

-- The reads of the results after a run.
unfoldable pub finish :
    ℕ → ℕ → Option (Result VmError (Unit {0}) × Vm) → Option (Result VmError (List ℕ) × Vm)
finish result_base n none = none
finish result_base n (some (ok u, vm)) = some (read_words result_base n vm)
finish result_base n (some (err e, vm)) = some (err e, vm)

unfoldable pub run_started :
    Program → ℕ → ℕ → ℕ → Result VmError ℕ × Vm → Option (Result VmError (List ℕ) × Vm)
run_started p depth max_steps n (ok result_base, vm) =
    finish result_base n (run p depth max_steps vm)
run_started p depth max_steps n (err e, vm) = some (err e, vm)

-- A count that is negative raises after the test of the name.
unfoldable pub run_function :
    Program → ℕ → ℕ → String → List ℤ → ℤ → Vm → Option (Result VmError (List ℕ) × Vm)
run_function p depth max_steps name args (pos n) vm =
    run_started p depth max_steps n (start_function p name args n vm)
run_function p depth max_steps name args (negsuc n) vm = some (elim (Dict.get p.functions name) [
  | some linked ↦ (err negative_result_count, vm)
  | none ↦ (err (unknown_entry_function name), vm)
])

-- `align & (align - 1)` is 0 for a power of two; `x & ~(align - 1)` is `x` less its bits there.
unfoldable pub alloc_bytes : ℤ → ℤ → Exec Vm ℕ
alloc_bytes (negsuc n) align vm = (err negative_allocation_size, vm)
alloc_bytes (pos size) (negsuc n) vm = (err allocation_alignment, vm)
alloc_bytes (pos size) (pos align) vm =
    if nat_eqb align 0 || not (nat_eqb (bit_and align (align - 1)) 0)
    then (err allocation_alignment, vm)
    else let top : ℕ = vm.heap_next + align - 1 in
      let address : ℕ = top - bit_and top (align - 1) in
      let vm' = record vm { heap_next = address + max 1 size } in
      if leb vm.stack_top vm'.heap_next
      then (err heap_collided_with_stack, vm')
      else (ok address, vm')
