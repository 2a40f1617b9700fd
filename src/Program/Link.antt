-- ===== src/Program/Link.antt =====
-- The operations of `Program` (src/minimachine/vm.py) that link functions, services and data.
use minimachine.Prelude.{
  ◌==◌, ℕ, ◌+◌, ◌-◌, ◌*◌, ◌/◌, String, Bool, true, false, ◌||◌, none, some, List, [], ◌∷◌, length,
  ◌+++◌, if◌then◌else◌, ok, err, Result, string_eq, nat_eq, pair_eq,
}
use minimachine.Prelude.Dict
use minimachine.Abi.Names.{tag}
use minimachine.Prelude.Dict.{Dict, contains}
use minimachine.Error.{
  empty_system_operation, VmError, verify_failed, duplicate_program_symbol, no_entry_block,
  cannot_replace_non_function, host_service_already_registered, empty_system_operation,
}
use minimachine.Exec.{Exec, pure, raise, reading, modify, ◌>>=◌, ◌>>◌}
use minimachine.P3
use minimachine.Verify.{verify_p3}
use minimachine.Memory
use minimachine.Memory.{SparseMemory}
use minimachine.Abi.Frame.{header_size, word}
use minimachine.Vm.{Vm, HostService, init_vm}
use minimachine.Program.{Program, LinkedFunction}
use minimachine.Program.Slots.{slot_offsets_of}

abbrev pub code_base : ℕ
code_base = 0x8000_0000_0000_0000

abbrev pub data_base : ℕ
data_base = 0x0000_0000_0001_0000

-- `Program.__init__` up to its loop: the halt address is the first code address.
unfoldable pub empty_program : Program
empty_program = record {
  functions = [];
  block_code = [];
  code_block = [];
  host_code = (code_base, "__halt__") ∷ [];
  host_services = [];
  symbol_addresses = [];
  initial_memory = record { bytes = [] };
  next_code = code_base + 8;
  next_data = data_base;
  halt_code = code_base;
}

unfoldable pub alloc_code : Exec Program ℕ
alloc_code p = (ok p.next_code, record p { next_code = p.next_code + 8 })

unfoldable pub alloc_data : ℕ → ℕ → Exec Program ℕ
alloc_data size align p =
    let start : ℕ = (p.next_data + align - 1) / align * align in
    (ok start, record p { next_data = start + size })

-- A write to the initial memory.
unfoldable pub write_initial : ℕ → ℕ → ℕ → Exec Program (Unit {0})
write_initial address bits value p = elim (Memory.write p.initial_memory address bits value) [
  | ok m ↦ (ok tt, record p { initial_memory = m })
  | err e ↦ (err e, p)
]

unfoldable pub define_symbol : String → ℕ → Exec Program (Unit {0})
define_symbol symbol address =
    modify λ p. record p { symbol_addresses = Dict.put p.symbol_addresses symbol address }

-- One round of the loop over a function's blocks.
unfoldable pub place_block : String → P3.Block → Exec Program (Unit {0})
place_block name block = do
  code ← alloc_code
  modify λ p. record p {
    block_code = Dict.put p.block_code (name, block.label) code;
    code_block = Dict.put p.code_block code (name, block.label);
  }

unfoldable pub place_blocks : String → List P3.Block → Exec Program (Unit {0})
place_blocks name [] = pure tt
place_blocks name (b ∷ bs) = do place_block name b; place_blocks name bs

-- `{block.label: block for block in blocks}`
unfoldable pub block_map_from : Dict String P3.Block → List P3.Block → Dict String P3.Block
block_map_from d [] = d
block_map_from d (b ∷ bs) = block_map_from (Dict.put d b.label b) bs

unfoldable pub link : P3.Function → LinkedFunction
link f =
    let offsets = slot_offsets_of f.frame_slots in
    record {
      function = f;
      slot_offsets = offsets;
      frame_size = header_size + length offsets * word;
      block_map = block_map_from [] f.blocks;
    }

unfoldable pub check_function : P3.Function → Exec Program (Unit {0})
check_function f p = elim (verify_p3 f) [ ok u ↦ (ok tt, p) | err e ↦ (err (verify_failed e), p) ]

-- `self.block_code[(function.name, function.blocks[0].label)]`
unfoldable pub entry_code : String → List P3.Block → Program → Result VmError ℕ
entry_code name [] p = err no_entry_block
entry_code name (b ∷ bs) p = elim (Dict.get p.block_code (name, b.label)) [
  | some code ↦ ok code
  | none ↦ err no_entry_block
]

unfoldable pub refuse_if : Bool → VmError → Exec Program (Unit {0})
refuse_if true e = raise e
refuse_if false e = pure tt

unfoldable pub add_function : P3.Function → Exec Program (Unit {0})
add_function f p =
    (do
      check_function f
      refuse_if (contains p.functions f.name || contains p.symbol_addresses f.name)
          (duplicate_program_symbol f.name)
      let linked = link f
      modify λ p. record p { functions = Dict.put p.functions f.name linked }
      place_blocks f.name f.blocks
      descriptor ← alloc_data 16 8
      define_symbol f.name descriptor
      entry ← reading (entry_code f.name f.blocks)
      write_initial (descriptor + 0) 64 entry
      write_initial (descriptor + 8) 64 linked.frame_size)
      p

-- `Program(functions)`
unfoldable pub add_functions : List P3.Function → Exec Program (Unit {0})
add_functions [] = pure tt
add_functions (f ∷ fs) = do add_function f; add_functions fs

unfoldable pub register_service : String → HostService → Exec Program (Unit {0})
register_service symbol callback p =
    (do
      refuse_if (contains p.symbol_addresses symbol) (duplicate_program_symbol symbol)
      code ← alloc_code
      modify λ p. record p {
        host_code = Dict.put p.host_code code symbol;
        host_services = Dict.put p.host_services symbol callback;
      }
      descriptor ← alloc_data 16 8
      define_symbol symbol descriptor
      write_initial (descriptor + 0) 64 code
      write_initial (descriptor + 8) 64 header_size)
      p

-- `re.sub(...)` here is that of src/minimachine/abi.py.
unfoldable pub register_system : String → HostService → Exec Program (Unit {0})
register_system op callback =
    if tag op == ""
    then raise empty_system_operation
    else register_service ("__mm_sys_" +++ tag op) callback

-- `self.symbol_addresses[symbol]` of a linked function.
unfoldable pub descriptor_of : String → Program → Result VmError ℕ
descriptor_of symbol p = elim (Dict.get p.symbol_addresses symbol) [
  | some d ↦ ok d
  | none ↦ err (cannot_replace_non_function symbol)
]

unfoldable pub replace_function_with_service : String → HostService → Exec Program (Unit {0})
replace_function_with_service symbol callback p =
    (do
      refuse_if (if contains p.functions symbol then false else true)
          (cannot_replace_non_function symbol)
      descriptor ← reading (descriptor_of symbol)
      let host_symbol : String = "__mm_fast_" +++ symbol
      refuse_if (contains p.host_services host_symbol) (host_service_already_registered host_symbol)
      code ← alloc_code
      modify λ p. record p {
        host_code = Dict.put p.host_code code host_symbol;
        host_services = Dict.put p.host_services host_symbol callback;
      }
      write_initial (descriptor + 0) 64 code
      write_initial (descriptor + 8) 64 header_size)
      p

-- The loop that copies the bytes of a data symbol, from index `i` on.
unfoldable pub write_data : ℕ → ℕ → List ℕ → Exec Program (Unit {0})
write_data address i [] = pure tt
write_data address i (byte ∷ rest) = do
  write_initial (address + i) 8 byte
  write_data address (i + 1) rest

unfoldable pub define_data_symbol : String → List ℕ → ℕ → Exec Program ℕ
define_data_symbol symbol bytes align p =
    (do
      refuse_if (contains p.symbol_addresses symbol) (duplicate_program_symbol symbol)
      address ← alloc_data (length bytes) align
      define_symbol symbol address
      write_data address 0 bytes
      pure address)
      p

unfoldable pub new_vm : Program → ℕ → Vm
new_vm p stack_top = init_vm p.initial_memory stack_top
