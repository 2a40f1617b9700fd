-- ===== src/Vm/Step.antt =====
-- The parts of `VM` (src/minimachine/vm.py) that change the machine: operands, control transfer
-- with host services, and one step.
use minimachine.Prelude.{
  ℕ, zero, suc, ◌+◌, ◌%◌, ◌^◌, String, true, Option, none, some, List, [], ◌∷◌, if◌then◌else◌, ok,
  err, Result, nat_eqb, string_eq, nat_eq, ◌==◌, word_mod, length, get_elem?, ◌>>=◌ as ◌>>>◌,
}
use minimachine.Prelude.Int.{ℤ, sub_ℕ, mod_ℤ}
use minimachine.Prelude.Dict
use minimachine.Error.{
  VmError, illegal_mov_destination, invalid_code_address, host_service_not_registered,
  wrong_result_count, no_current_block, unknown_block, fell_off_block, recursion_limit,
}
use minimachine.Exec.{Exec, pure, raise, reading, modify, ◌>>=◌, ◌>>◌}
use minimachine.Muir.{width_bits, slot, sp, Operand, value, mem}
use minimachine.P3
use minimachine.Memory
use minimachine.Abi.Frame.{frame_size, arg_count, result_count, result_ptr, caller_sp, ret_pc, word}
use minimachine.Vm.{Vm, HostService, Reply, nothing, one, many, control_transfer}
use minimachine.Vm.Read.{
  or_raise, linked, slot_address, address_of, read_value, mov_value, condition, target_code,
}
use minimachine.Program.{Program}

-- `self.memory.write`, and the read of a word.
unfoldable pub write_memory : ℕ → ℕ → ℕ → Exec Vm (Unit {0})
write_memory address bits v vm = elim (Memory.write vm.memory address bits v) [
  | ok m ↦ (ok tt, record vm { memory = m })
  | err e ↦ (err e, vm)
]

unfoldable pub read_word : ℕ → Exec Vm ℕ
read_word address = reading λ vm. Memory.read vm.memory address 64

-- `self.memory.read(self.sp + offset, 64)`: the address is not cut to 64 bits.
unfoldable pub read_header : ℕ → Exec Vm ℕ
read_header offset = reading λ vm. Memory.read vm.memory (vm.sp + offset) 64

-- The arguments, with `n` left to read.
unfoldable pub read_words : ℕ → ℕ → Exec Vm (List ℕ)
read_words address zero = pure []
read_words address (suc n) = do
  first ← read_word address
  rest ← read_words (address + word) n
  pure (first ∷ rest)

-- The results; a negative int is cut to its 64 bits.
unfoldable pub write_words : ℕ → List ℤ → Exec Vm (Unit {0})
write_words address [] = pure tt
write_words address (v ∷ vs) = do
  write_memory address 64 (mod_ℤ v word_mod)
  write_words (address + word) vs

unfoldable pub set_sp : ℕ → Exec Vm (Unit {0})
set_sp v = modify λ vm. record vm { sp = v }

unfoldable pub halt : Exec Vm (Unit {0})
halt = modify λ vm. record vm { halted = true }

unfoldable pub write_operand : Program → Operand → ℕ → ℕ → Exec Vm (Unit {0})
write_operand p (mem a w) v bits = do
  address ← reading λ vm. address_of p vm a
  write_memory address (width_bits w) (v % 2 ^ bits)
write_operand p (value (slot name)) v bits = do
  address ← reading λ vm. slot_address p vm name
  write_memory address 64 (v % 2 ^ bits)
write_operand p (value sp) v bits = set_sp (v % 2 ^ bits % word_mod)
write_operand p (value v') v bits = raise illegal_mov_destination

unfoldable pub results_of : Reply → List ℤ
results_of nothing = []
results_of (one v) = v ∷ []
results_of (many vs) = vs
results_of control_transfer = []

unfoldable pub check_count : String → ℕ → ℕ → Exec Vm (Unit {0})
check_count symbol n expected =
    if nat_eqb n expected then pure tt else raise (wrong_result_count symbol n expected)

-- What `_invoke_host` does with the results of the callback, up to the final `_set_code`.
unfoldable pub return_results : String → List ℤ → Exec Vm ℕ
return_results symbol results = do
  expected ← read_header result_count
  check_count symbol (length results) expected
  pointer ← read_header result_ptr
  write_words pointer results
  caller ← read_header caller_sp
  target ← read_header ret_pc
  set_sp caller
  pure target

-- The call of the service, with the arguments from its frame.
unfoldable pub call_service : String → Option HostService → Exec Vm Reply
call_service symbol none = raise (host_service_not_registered symbol)
call_service symbol (some callback) = do
  size ← read_header frame_size
  argc ← read_header arg_count
  base ← reading λ vm. ok (vm.sp + size)
  args ← read_words base argc
  callback args

unfoldable pub enter_block : ℕ → Option (String × String) → Exec Vm (Unit {0})
enter_block code none = raise (invalid_code_address code)
enter_block code (some (f, b)) =
    modify λ vm. record vm { current_function = some f; current_block = some b; ip = 0 }

-- After the callback: nothing more if it transferred control itself.
unfoldable pub after_reply : (ℕ → Exec Vm (Unit {0})) → String → Reply → Exec Vm (Unit {0})
after_reply go symbol control_transfer = pure tt
after_reply go symbol reply = do target ← return_results symbol (results_of reply); go target

-- `_invoke_host`, whose last call is `_set_code`.
unfoldable pub invoke_host : (ℕ → Exec Vm (Unit {0})) → Program → String → Exec Vm (Unit {0})
invoke_host go p symbol = do
  reply ← call_service symbol (Dict.get p.host_services symbol)
  after_reply go symbol reply

-- The code address is not the halt address: a host code or a block.
unfoldable pub dispatch :
    (ℕ → Exec Vm (Unit {0})) → Program → ℕ → Option String → Exec Vm (Unit {0})
dispatch go p code none = enter_block code (Dict.get p.code_block code)
dispatch go p code (some symbol) = if symbol == "__halt__" then halt else invoke_host go p symbol

-- `_set_code` and `_invoke_host` call one another when a service returns to another service's
-- code; `depth` is what the interpreter's recursion limit leaves of that chain.
unfoldable pub set_code : Program → ℕ → ℕ → Exec Vm (Unit {0})
set_code p zero code = raise recursion_limit
set_code p (suc depth) code =
    let go = λ (target : ℕ). set_code p depth target in
    if nat_eqb code p.halt_code then halt else dispatch go p code (Dict.get p.host_code code)

unfoldable pub advance : Exec Vm (Unit {0})
advance = modify λ vm. record vm { ip = vm.ip + 1 }

-- `a - b`, cut to the width.
abbrev pub difference : ℕ → ℕ → ℕ → ℕ
difference a b bits = mod_ℤ (sub_ℕ a b) (2 ^ bits)

unfoldable pub run_instr : Program → ℕ → P3.Instr → Exec Vm (Unit {0})
run_instr p depth (P3.Instr.mov i) = do
  v ← reading λ vm. mov_value p vm i
  write_operand p i.dst v (width_bits i.width)
  advance
run_instr p depth (P3.Instr.sub i) = do
  a ← reading λ vm. read_value p vm i.a
  b ← reading λ vm. read_value p vm i.b
  write_operand p (value (slot i.dst)) (difference a b (width_bits i.width)) (width_bits i.width)
  advance
run_instr p depth (P3.Instr.br i) = do
  taken ← reading λ vm. condition p vm i
  code ← reading λ vm. target_code p vm (if taken then i.true_target else i.false_target)
  set_code p depth code

-- The instruction at `self.ip`.
unfoldable pub fetch : Program → Vm → Result VmError P3.Instr
fetch p vm = linked p vm >>> λ f. or_raise vm.current_block no_current_block >>> λ name.
    or_raise (Dict.get f.block_map name) (unknown_block name) >>> λ block.
    or_raise (get_elem? block.instructions vm.ip) fell_off_block

unfoldable pub step : Program → ℕ → Exec Vm (Unit {0})
step p depth vm =
    if vm.halted
    then (ok tt, vm)
    else (do
      inst ← reading (fetch p)
      modify λ vm. record vm { steps = vm.steps + 1 }
      run_instr p depth inst)
        vm
