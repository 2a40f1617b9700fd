-- ===== src/Vm/Read.antt =====
-- The parts of `VM` (src/minimachine/vm.py) that read the machine and may raise: slots, values,
-- addresses, operands, the value of a move, the condition and the target of a branch.
use minimachine.Prelude.{
  ℕ, ◌+◌, ◌-◌, ◌%◌, ◌^◌, String, Bool, ◌&&◌, Option, none, some, [], ◌∷◌, if◌then◌else◌, ok, err,
  Result, ◌>>=◌, ◌>>◌, nat_eqb, string_eq, nat_eq, pair_eq, ◌==◌, ltb, leb, word_mod, require,
}
use minimachine.Prelude.Int.{ℤ, pos, sub_ℕ, ◌+ℤ◌, mod_ℤ, ltb_ℤ}
use minimachine.Prelude.Dict
use minimachine.Prelude.Dict.{Dict}
use minimachine.Error.{
  VmError, no_current_function, unknown_function, unknown_slot, unresolved_symbol,
  unresolved_block_address, unsupported_value, missing_source_width, invalid_source_width,
  unknown_extension_mode, local_branch_without_function, unknown_local_target,
  unresolved_external_branch, invalid_branch_target,
}
use minimachine.Muir.{
  width_bits, Cond, eq, slt, ult, Value, slot, imm, symbol, reloc, arbitrary, block_addr, sp,
  Address, Operand, value, mem, Target, is_direct, is_external, MovFields, BrFields,
}
use minimachine.Memory
use minimachine.Vm.{Vm}
use minimachine.Program.{Program, LinkedFunction}

abbrev pub Reads : Type 0 → Type 0
Reads A = Result VmError A

-- `d[k]`, with the exception that the code raises for a `KeyError`.
abbrev pub or_raise : {A : Type 0} → Option A → VmError → Reads A
or_raise (some a) e = ok a
or_raise none e = err e

-- The number that the low `bits` bits of a value stand for in two's complement.
unfoldable pub signed : ℕ → ℕ → ℤ
signed v bits =
    let low : ℕ = v % 2 ^ bits in if leb (2 ^ (bits - 1)) low then sub_ℕ low (2 ^ bits) else pos low

-- `inst.src_bits`, or the width of a memory operand.
unfoldable pub source_bits : String → Option ℕ → Operand → Reads ℕ
source_bits extend (some n) src = ok n
source_bits extend none (mem a w) = ok (width_bits w)
source_bits extend none (value v) = err (missing_source_width extend)

-- `raw` is cut to its `n` bits already.
unfoldable pub extended : String → ℕ → ℕ → ℕ → Reads ℕ
extended extend n raw bits =
    if extend == "zext"
    then ok (raw % 2 ^ bits)
    else if extend == "sext"
    then ok (mod_ℤ (signed raw n) (2 ^ bits))
    else if extend == "trunc"
    then ok (raw % 2 ^ bits)
    else err (unknown_extension_mode extend)

unfoldable pub moved : Option String → Option ℕ → Operand → ℕ → ℕ → Reads ℕ
moved none src_bits src raw bits = ok (raw % 2 ^ bits)
moved (some extend) src_bits src raw bits = do
  n ← source_bits extend src_bits src
  require (leb 1 n && leb n 64) (invalid_source_width n)
  extended extend n (raw % 2 ^ n) bits

-- The first host code of a symbol.
unfoldable pub find_host : String → Dict ℕ String → Reads ℕ
find_host s [] = err (unresolved_external_branch s)
find_host s ((code, name) ∷ rest) = if name == s then ok code else find_host s rest

unfoldable pub holds : Cond → ℕ → ℕ → ℕ → Bool
holds eq bits a b = nat_eqb a b
holds ult bits a b = ltb a b
holds slt bits a b = ltb_ℤ (signed a bits) (signed b bits)

module _ (p : Program) (vm : Vm) where
  unfoldable pub linked : Reads LinkedFunction
  linked = do
    name ← or_raise vm.current_function no_current_function
    or_raise (Dict.get p.functions name) (unknown_function name)

  unfoldable pub slot_address : String → Reads ℕ
  slot_address name = do
    f ← linked
    offset ← or_raise (Dict.get f.slot_offsets name) (unknown_slot name)
    ok ((vm.sp + offset) % word_mod)

  unfoldable pub resolve_symbol : String → Reads ℕ
  resolve_symbol s = or_raise (Dict.get p.symbol_addresses s) (unresolved_symbol s)

  unfoldable pub read_value : Value → Reads ℕ
  read_value (imm n) = ok (mod_ℤ n word_mod)
  read_value (slot name) = do a ← slot_address name; Memory.read vm.memory a 64
  read_value sp = ok vm.sp
  read_value (symbol s) = resolve_symbol s
  read_value (reloc s addend) = do a ← resolve_symbol s; ok (mod_ℤ (pos a +ℤ addend) word_mod)
  read_value (block_addr f l) =
      or_raise (Dict.get p.block_code (f, l)) (unresolved_block_address f l)
  read_value (arbitrary kind) = err unsupported_value

  unfoldable pub address_of : Address → Reads ℕ
  address_of a = do base ← read_value a.base; ok (mod_ℤ (pos base +ℤ a.offset) word_mod)

  unfoldable pub read_operand : Operand → Reads ℕ
  read_operand (mem a w) = do address ← address_of a; Memory.read vm.memory address (width_bits w)
  read_operand (value v) = read_value v

  unfoldable pub mov_value : MovFields → Reads ℕ
  mov_value i = do
    raw ← read_operand i.src
    moved i.extend i.src_bits i.src raw (width_bits i.width)

  unfoldable pub condition : BrFields → Reads Bool
  condition i = do
    let bits = width_bits i.width
    a ← read_value i.a
    b ← read_value i.b
    ok (holds i.cond bits (a % 2 ^ bits) (b % 2 ^ bits))

  unfoldable pub local_code : Option String → Reads ℕ
  local_code none = err invalid_branch_target
  local_code (some label) = do
    name ← or_raise vm.current_function local_branch_without_function
    or_raise (Dict.get p.block_code (name, label)) (unknown_local_target label)

  unfoldable pub external_code : Option String → Reads ℕ
  external_code none = err invalid_branch_target
  external_code (some s) = find_host s p.host_code

  unfoldable pub indirect_code : Option String → Option Address → Reads ℕ
  indirect_code (some name) address = read_value (slot name)
  indirect_code none (some a) = do address ← address_of a; Memory.read vm.memory address 64
  indirect_code none none = err invalid_branch_target

  unfoldable pub target_code : Target → Reads ℕ
  target_code t =
      if is_direct t
      then local_code t.label
      else if is_external t
      then external_code t.symbol
      else indirect_code t.slot t.address
