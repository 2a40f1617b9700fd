-- ===== src/Abi/Sequences.antt =====
-- The instruction sequences of the calling convention (src/minimachine/abi.py): `_prologue`,
-- `_call_sequence` and `_return_sequence`.
use minimachine.Prelude.{
  ℕ, ◌+◌, ◌*◌, max, String, ◌+++◌, Option, none, some, List, [], ◌∷◌, ◌++◌, length, ◌==◌, string_eq,
  if◌then◌else◌,
}
use minimachine.Prelude.Int.{pos, sub_ℕ}
use minimachine.Muir
use minimachine.Muir.{
  Value, slot, imm, symbol, block_addr, sp, Operand, value, mem, Target, Callee, i8, i64, eq,
  callee_is_direct, callee_is_indirect,
}
use minimachine.Abi.Frame
use minimachine.Abi.Frame.{word}
use minimachine.Abi.Names.{tag}
use minimachine.Abi.Builder.{
  Build, ◌>>=◌, ◌>>◌, pure, raise, counting, declare, temp, invalid_callee_variant,
  empty_system_operation,
}

unfoldable pub mem_at : Value → ℕ → Operand
mem_at base offset = mem (record { base = base; offset = pos offset }) i64

unfoldable pub indirect_from_sp : ℕ → Target
indirect_from_sp offset = record {
  label = none;
  symbol = none;
  slot = none;
  address = some (record { base = sp; offset = pos offset });
}

unfoldable pub symbol_target : String → Target
symbol_target s = record { label = none; symbol = some s; slot = none; address = none }

unfoldable pub system_symbol : String → String
system_symbol reason = "__mm_trap_" +++ (if tag reason == "" then "unknown" else tag reason)

unfoldable pub sysop_symbol : String → Build String
sysop_symbol op =
    if tag op == "" then raise empty_system_operation else pure ("__mm_sys_" +++ tag op)

unfoldable pub uncond : Target → Muir.Instr
uncond t = Muir.Instr.br (record {
  width = i8;
  cond = eq;
  a = imm (pos 0);
  b = imm (pos 0);
  true_target = t;
  false_target = t;
})

-- `muir.Mov(Width.I64, dst, src)` and `muir.Sub(Width.I64, dst, a, b)`
unfoldable pub mov : Operand → Operand → Muir.Instr
mov dst src =
    Muir.Instr.mov (record { width = i64; dst = dst; src = src; extend = none; src_bits = none })

unfoldable pub sub : String → Value → Value → Muir.Instr
sub dst a b = Muir.Instr.sub (record { width = i64; dst = dst; a = a; b = b })

-- `muir.Imm(-n)`
abbrev pub minus : ℕ → Value
minus n = imm (sub_ℕ 0 n)

-- The tests `is_direct` and `is_indirect` of a callee tell its variants apart.
unfoldable pub descriptor_of : Option String → Option String → Build Value
descriptor_of (some s) none = pure (symbol s)
descriptor_of none (some s) = pure (slot s)
descriptor_of none none = raise invalid_callee_variant
descriptor_of (some s) (some t) = raise invalid_callee_variant

unfoldable pub descriptor : Callee → Build Value
descriptor callee = descriptor_of callee.symbol callee.slot

-- The loads of the arguments, from the one with index `i`.
unfoldable pub load_args : String → ℕ → List String → Build (List Muir.Instr)
load_args arg_base i [] = pure []
load_args arg_base i (name ∷ names) = do
  declare name
  counting λ s. record s { argument_loads = s.argument_loads + 1 }
  rest ← load_args arg_base (i + 1) names
  pure (mov (value (slot name)) (mem_at (slot arg_base) (i * word)) ∷ rest)

-- The base of the arguments is `sp - (0 - frame_size)`.
unfoldable pub prologue_code : String → String → String → List Muir.Instr → List Muir.Instr
prologue_code frame_size neg_size arg_base loads =
    mov (value (slot frame_size)) (mem_at sp Frame.frame_size)
    ∷ sub neg_size (imm (pos 0)) (slot frame_size)
    ∷ sub arg_base sp (slot neg_size)
    ∷ loads

unfoldable pub prologue : List String → Build (List Muir.Instr)
prologue [] = pure []
prologue (a ∷ args) = do
  frame_size ← temp "frame_size"
  neg_size ← temp "neg_frame_size"
  arg_base ← temp "arg_base"
  loads ← load_args arg_base 0 (a ∷ args)
  pure (prologue_code frame_size neg_size arg_base loads)

-- The stores of the arguments, from the one with index `i`.
unfoldable pub store_args : String → ℕ → List Value → List Muir.Instr
store_args arg_base i [] = []
store_args arg_base i (v ∷ vs) =
    mov (mem_at (slot arg_base) (i * word)) (value v) ∷ store_args arg_base (i + 1) vs

-- The temporaries of a call.
pub record CallSlots : Type 0 where
  pub frame_size : String
  pub entry : String
  pub total_size : String
  pub new_sp : String
  pub neg_frame_size : String
  pub arg_base : String
  pub result_base : String

-- The tail of the callee's frame: its arguments, and at least one word for its results.
abbrev pub tail_bytes : ℕ → ℕ → ℕ
tail_bytes args results = args * word + max 1 results * word

-- The frame of the callee and its header.
unfoldable pub call_header : CallSlots → Value → Value → ℕ → ℕ → List Muir.Instr
call_header t desc resume args results =
    mov (value (slot t.entry)) (mem_at desc Frame.desc_entry)
    ∷ mov (value (slot t.frame_size)) (mem_at desc Frame.desc_frame_size)
    ∷ sub t.total_size (slot t.frame_size) (minus (tail_bytes args results))
    ∷ sub t.new_sp sp (slot t.total_size)
    ∷ mov (mem_at (slot t.new_sp) Frame.caller_sp) (value sp)
    ∷ mov (mem_at (slot t.new_sp) Frame.ret_pc) (value resume)
    ∷ mov (mem_at (slot t.new_sp) Frame.entry) (value (slot t.entry))
    ∷ mov (mem_at (slot t.new_sp) Frame.frame_size) (value (slot t.frame_size))
    ∷ mov (mem_at (slot t.new_sp) Frame.arg_count) (value (imm (pos args)))
    ∷ mov (mem_at (slot t.new_sp) Frame.result_count) (value (imm (pos results)))
    ∷ sub t.neg_frame_size (imm (pos 0)) (slot t.frame_size)
    ∷ sub t.arg_base (slot t.new_sp) (slot t.neg_frame_size)
    ∷ sub t.result_base (slot t.arg_base) (minus (args * word))
    ∷ mov (mem_at (slot t.new_sp) Frame.result_ptr) (value (slot t.result_base))
    ∷ []

-- The switch to the callee's frame and the branch to its entry.
unfoldable pub call_code : CallSlots → Value → Value → List Value → ℕ → List Muir.Instr
call_code t desc resume args results =
    call_header t desc resume (length args) results
    ++ store_args t.arg_base 0 args
    ++ (mov (value sp) (value (slot t.new_sp)) ∷ uncond (indirect_from_sp Frame.entry) ∷ [])

unfoldable pub call_slots : Build CallSlots
call_slots = do
  frame_size ← temp "callee_frame_size"
  entry ← temp "callee_entry"
  total_size ← temp "call_size"
  new_sp ← temp "new_sp"
  neg_frame_size ← temp "neg_callee_frame_size"
  arg_base ← temp "arg_base"
  result_base ← temp "result_base"
  pure (record {
    frame_size = frame_size;
    entry = entry;
    total_size = total_size;
    new_sp = new_sp;
    neg_frame_size = neg_frame_size;
    arg_base = arg_base;
    result_base = result_base;
  })

-- With the slot that holds the base of the results.
unfoldable pub call_sequence :
    String → Callee → List Value → String → ℕ → Build (List Muir.Instr × String)
call_sequence function callee args continuation results = do
  desc ← descriptor callee
  t ← call_slots
  pure (call_code t desc (block_addr function continuation) args results, t.result_base)

unfoldable pub save_caller : String → List Muir.Instr
save_caller caller_sp =
    mov (value (slot caller_sp)) (mem_at sp Frame.caller_sp)
    ∷ mov (mem_at (slot caller_sp) Frame.resume_pc) (mem_at sp Frame.ret_pc)
    ∷ []

unfoldable pub resume_caller : String → List Muir.Instr
resume_caller caller_sp =
    mov (value sp) (value (slot caller_sp)) ∷ uncond (indirect_from_sp Frame.resume_pc) ∷ []

unfoldable pub store_result : String → Value → List Muir.Instr
store_result result_ptr v =
    mov (value (slot result_ptr)) (mem_at sp Frame.result_ptr)
    ∷ mov (mem_at (slot result_ptr) 0) (value v)
    ∷ []

unfoldable pub return_sequence : Option Value → Build (List Muir.Instr)
return_sequence none = do
  caller_sp ← temp "caller_sp"
  pure (save_caller caller_sp ++ resume_caller caller_sp)
return_sequence (some v) = do
  caller_sp ← temp "caller_sp"
  result_ptr ← temp "result_ptr"
  pure (save_caller caller_sp ++ store_result result_ptr v ++ resume_caller caller_sp)
