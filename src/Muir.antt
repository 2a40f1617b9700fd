-- ===== src/Muir.antt =====
-- The legalized μIR (src/minimachine/muir.py): values, addresses, targets, instructions, functions.
-- A Python `str | None` field is an `Option String`; an `int` that may be negative is a `ℤ`.
use minimachine.Prelude.{ℕ, String, Bool, true, false, ◌&&◌, not, Option, none, some, List}
use minimachine.Prelude.Int.{ℤ}

pub data Width : Type 0 where
  i8 i16 i32 i64 : Width

-- `Width.value`
abbrev pub width_bits : Width → ℕ
width_bits i8 = 8
width_bits i16 = 16
width_bits i32 = 32
width_bits i64 = 64

pub data Cond : Type 0 where
  eq slt ult : Cond

-- `Value`: the union of Slot, Imm, Symbol, Reloc, Arbitrary, BlockAddr and Special, whose only
-- member is SP.
pub data Value : Type 0 where
  slot : String → Value
  imm : ℤ → Value
  symbol : String → Value
  reloc : String → ℤ → Value
  arbitrary : String → Value
  block_addr : String → String → Value
  sp : Value

pub record Address : Type 0 where
  pub base : Value
  pub offset : ℤ

pub data Operand : Type 0 where
  value : Value → Operand
  mem : Address → Width → Operand

pub record Target : Type 0 where
  pub label : Option String
  pub symbol : Option String
  pub slot : Option String
  pub address : Option Address

abbrev pub is_none {ℓ} : {A : Type ℓ} → Option A → Bool
is_none none = true
is_none (some a) = false

abbrev pub is_direct : Target → Bool
is_direct t = not (is_none t.label) && is_none t.symbol && is_none t.slot && is_none t.address

abbrev pub is_external : Target → Bool
is_external t = not (is_none t.symbol) && is_none t.label && is_none t.slot && is_none t.address

abbrev pub differ : Bool → Bool → Bool
differ true b = not b
differ false b = b

abbrev pub is_indirect : Target → Bool
is_indirect t =
    is_none t.label && is_none t.symbol && differ (not (is_none t.slot)) (not (is_none t.address))

-- The fields of `Mov`, `Sub` and `Br`, which μIR and P3 share.
pub record MovFields : Type 0 where
  pub width : Width
  pub dst : Operand
  pub src : Operand
  pub extend : Option String
  pub src_bits : Option ℕ

pub record SubFields : Type 0 where
  pub width : Width
  pub dst : String
  pub a : Value
  pub b : Value

pub record BrFields : Type 0 where
  pub width : Width
  pub cond : Cond
  pub a : Value
  pub b : Value
  pub true_target : Target
  pub false_target : Target

pub record Callee : Type 0 where
  pub symbol : Option String
  pub slot : Option String

abbrev pub callee_is_direct : Callee → Bool
callee_is_direct c = not (is_none c.symbol) && is_none c.slot

abbrev pub callee_is_indirect : Callee → Bool
callee_is_indirect c = not (is_none c.slot) && is_none c.symbol

-- `Instr`. The results of a call are the slots' names: none, one or several.
pub data Instr : Type 0 where
  mov : MovFields → Instr
  sub : SubFields → Instr
  br : BrFields → Instr
  call : Callee → List Value → List String → Instr
  ret : Option Value → Instr
  helper : String → List Value → List String → Instr
  sys : String → List Value → List String → Instr
  trap : String → Instr
  arch_escape : String → String → List Target → Instr

pub record Block : Type 0 where
  pub label : String
  pub instructions : List Instr

-- `frame_slots` is a Python set: a list without repetitions.
pub record Function : Type 0 where
  pub name : String
  pub blocks : List Block
  pub frame_slots : List String
  pub args : List String
