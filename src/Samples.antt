-- ===== src/Samples.antt =====
-- A small program of the machine, on which the theorems are applied and the operations run.
use minimachine.Prelude.{
  err, ok, ◌+◌, ℕ, String, none, some, List, [], ◌∷◌, Result, nat_eq, string_eq, pair_eq,
}
use minimachine.Prelude.Int.{pos, negsuc}
use minimachine.Muir
use minimachine.Muir.{i8, i64, slot, imm, sp, Operand, value, mem, Target, eq}
use minimachine.P3
use minimachine.Vm.{default_stack_top}
use minimachine.Program.{Program}
use minimachine.Abi.Builder.{Builder, init_builder, AbiStats, no_stats}
use minimachine.Abi.Expand.{expand_blocks, expand_function}
use minimachine.Lower.{lower_function}
use minimachine.Checkpoint.{Host}
use minimachine.Linker.{LinkerContract}
use minimachine.Memory.{SparseMemory, write_bytes}
use minimachine.Vm.{Vm, Reply, nothing, one}
use minimachine.Exec.{Exec, pure}
use minimachine.Program.Link.{register_service, empty_program, add_functions, new_vm}

abbrev pub to_label : String → Target
to_label l = record { label = some l; symbol = none; slot = none; address = none }

abbrev pub to_symbol : String → Target
to_symbol s = record { label = none; symbol = some s; slot = none; address = none }

abbrev pub always : Target → P3.Instr
always t = P3.Instr.br (record {
  width = i8;
  cond = eq;
  a = imm (pos 0);
  b = imm (pos 0);
  true_target = t;
  false_target = t;
})

abbrev pub move : Operand → Operand → P3.Instr
move dst src =
    P3.Instr.mov (record { width = i64; dst = dst; src = src; extend = none; src_bits = none })

abbrev pub at_sp : ℕ → Operand
at_sp n = mem (record { base = sp; offset = pos n }) i64

abbrev pub at_slot : String → Operand
at_slot name = mem (record { base = slot name; offset = pos 0 }) i64

-- r = x + 7, stored through the result pointer
abbrev pub main_block : P3.Block
main_block = record {
  label = "entry";
  instructions =
      move (value (slot "x")) (at_sp 96)
      ∷ P3.Instr.sub (record { width = i64; dst = "r"; a = slot "x"; b = imm (negsuc 6) })
      ∷ move (value (slot "p")) (at_sp 32)
      ∷ move (at_slot "p") (value (slot "r"))
      ∷ always (to_label "out")
      ∷ [];
}

abbrev pub out_block : P3.Block
out_block = record { label = "out"; instructions = always (to_symbol "__halt__") ∷ [] }

abbrev pub main : P3.Function
main = record {
  name = "main";
  blocks = main_block ∷ out_block ∷ [];
  frame_slots = "x" ∷ "r" ∷ "p" ∷ "q" ∷ [];
}

-- A service that gives back one more than its argument.
abbrev pub increment : List ℕ → Exec Vm Reply
increment [] = pure nothing
increment (n ∷ ns) = pure (one (pos (n + 1)))

abbrev pub linked : Program
linked = (add_functions (main ∷ []) empty_program).1

abbrev pub sample : Program
sample = (register_service "increment" increment linked).1

abbrev pub sample_vm : Vm
sample_vm = new_vm sample default_stack_top

abbrev pub call_callee : Muir.Instr
call_callee =
    Muir.Instr.call (record { symbol = some "callee"; slot = none }) (imm (pos 5) ∷ []) ("r" ∷ [])

-- A function of the intermediate representation with a call and a return.
abbrev pub caller : Muir.Function
caller = record {
  name = "caller";
  blocks =
      record { label = "entry"; instructions = call_callee ∷ Muir.Instr.ret (some (slot "r")) ∷ [] }
      ∷ [];
  frame_slots = "r" ∷ [];
  args = "x" ∷ [];
}

-- A function that needs no expansion, with a value of no fixed content.
abbrev pub plain : Muir.Function
plain = record {
  name = "plain";
  blocks =
      record {
        label = "entry";
        instructions =
            Muir.Instr.mov (record {
              width = i64;
              dst = value (slot "r");
              src = value (Muir.arbitrary "undef");
              extend = none;
              src_bits = none;
            })
            ∷ Muir.Instr.br (record {
              width = i8;
              cond = eq;
              a = imm (pos 0);
              b = imm (pos 0);
              true_target = to_symbol "__halt__";
              false_target = to_symbol "__halt__";
            })
            ∷ [];
      }
      ∷ [];
  frame_slots = "r" ∷ [];
  args = [];
}

abbrev pub result_or : {E A : Type 0} → A → Result E A → A
result_or a (ok b) = b
result_or a (err e) = a

abbrev pub expanded : Muir.Function × AbiStats
expanded = result_or (caller, no_stats) (expand_function caller)

abbrev pub chained : List Muir.Block × Builder
chained =
    result_or ([], init_builder caller)
      (expand_blocks "entry" caller.args caller.blocks (init_builder caller))

abbrev pub lowered : P3.Function
lowered = result_or main (lower_function plain)

-- Two groups, the second anchored after the first.
abbrev pub contract : LinkerContract
contract = record {
  aliases = [];
  groups =
      record { name = "text"; sections = ".text" ∷ []; align = pos 1; empty_after = none }
      ∷ record { name = "tail"; sections = ".tail" ∷ []; align = pos 8; empty_after = some "text" }
      ∷ [];
  boundaries = [];
  semantic_boundaries = [];
}

abbrev pub memory : SparseMemory
memory = write_bytes (record { bytes = [] }) 100 0 2 2047

abbrev pub baseline : SparseMemory
baseline = record { bytes = (100, 1) ∷ (102, 3) ∷ [] }

abbrev pub saved : Host ℕ
saved = record {
  vm = record sample_vm {
    memory = record { bytes = (100, 255) ∷ (102, 3) ∷ [] };
    sp = 4096;
    steps = 12;
  };
  attributes = [];
}

abbrev pub fresh : Host ℕ
fresh = record { vm = sample_vm; attributes = [] }
