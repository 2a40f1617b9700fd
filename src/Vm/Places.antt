-- ===== src/Vm/Places.antt =====
-- Where a machine of src/minimachine/vm.py stands in a linked program, and that its reads raise
-- run-time faults only.
use minimachine.Prelude.{
  [], ◌∷◌, ok-injective, subst, not, ◌≤◌, pair_eq, ℕ, ◌<◌, ◌%◌, ◌^◌, String, ◌≡◌, ◌⊎◌, inl, inr,
  Option, none, some, length, get_elem?, get_elem?-lt, Bool, true, false, Bool-cases, ok, string_eq,
  ◌==◌, ◌&&◌, leb, arith,
}
use minimachine.Prelude.Dict
use minimachine.Prelude.Dict.{Dict}
use minimachine.Error.{VmError, unknown_slot, unresolved_symbol, unresolved_block_address}
use minimachine.Muir.{
  differ, Width, i8, i16, i32, i64, width_bits, Value, slot, imm, symbol, reloc, arbitrary,
  block_addr, sp, Address, Operand, value, mem, Target, is_external, is_none, MovFields, BrFields,
}
use minimachine.P3
use minimachine.Verify.{p3_labels}
use minimachine.Verify.Strict.{IsStrictBlock, IsTarget, IsLabelIn, IsSourceWidth, IsExtension}
use minimachine.Memory
use minimachine.Program.{Program, LinkedFunction}
use minimachine.Program.Linked.{IsLinked}
use minimachine.Vm.{Vm}
use minimachine.Vm.Step.{fetch}
use minimachine.Program.Blocks.{link-strict}
use minimachine.Vm.Faults.{IsFault, IsSafe, IsSafe-bind}
use minimachine.Vm.Read.{
  or_raise, linked, slot_address, resolve_symbol, read_value, address_of, read_operand, source_bits,
  extended, moved, mov_value, condition, local_code, find_host, external_code, indirect_code,
  target_code,
}

-- The machine stands before an instruction of a block of a linked function.
pub record IsAt (p : Program) (vm : Vm) : Type 0 where
  pub name : String
  pub lf : LinkedFunction
  pub label : String
  pub block : P3.Block
  pub at_function : vm.current_function ≡ some name
  pub has_function : Dict.get p.functions name ≡ some lf
  pub at_block : vm.current_block ≡ some label
  pub has_block : Dict.get lf.block_map label ≡ some block
  pub in_range : vm.ip < length block.instructions

or_raise-IsSafe : {A : Type 0} (o : Option A) (e : VmError) → IsFault e → IsSafe (or_raise o e)
or_raise-IsSafe none e f = f
or_raise-IsSafe (some a) e f = tt

pub read_64-IsSafe : (m : Memory.SparseMemory) (a : ℕ) → IsSafe (Memory.read m a 64)
unfolding Memory.read
read_64-IsSafe m a = tt

read_width-IsSafe :
    (m : Memory.SparseMemory) (a : ℕ) (w : Width) → IsSafe (Memory.read m a (width_bits w))
unfolding Memory.read
read_width-IsSafe m a i8 = tt
read_width-IsSafe m a i16 = tt
read_width-IsSafe m a i32 = tt
read_width-IsSafe m a i64 = tt

extended-IsSafe :
    (x : String) (n raw bits : ℕ)
    → (x ≡ "zext") ⊎ ((x ≡ "sext") ⊎ (x ≡ "trunc"))
    → IsSafe (extended x n raw bits)
unfolding extended
extended-IsSafe x n raw bits (inl e) = rw e tt
extended-IsSafe x n raw bits (inr (inl e)) = rw e tt
extended-IsSafe x n raw bits (inr (inr e)) = rw e tt

source_bits-ok :
    (x : String) (n : Option ℕ) (src : Operand)
    → IsSourceWidth n
    → IsSafe (source_bits x n src) × ((m : ℕ) → source_bits x n src ≡ ok m → (1 ≤ m) × (m ≤ 64))
unfolding source_bits
source_bits-ok x (some n) src w = (tt, λ m e. subst (λ m. (1 ≤ m) × (m ≤ 64)) (ok-injective e) w)
source_bits-ok x none (mem a i8) w =
    (tt, λ m e. subst (λ m. (1 ≤ m) × (m ≤ 64)) (ok-injective e) (omega arith))
source_bits-ok x none (mem a i16) w =
    (tt, λ m e. subst (λ m. (1 ≤ m) × (m ≤ 64)) (ok-injective e) (omega arith))
source_bits-ok x none (mem a i32) w =
    (tt, λ m e. subst (λ m. (1 ≤ m) × (m ≤ 64)) (ok-injective e) (omega arith))
source_bits-ok x none (mem a i64) w =
    (tt, λ m e. subst (λ m. (1 ≤ m) × (m ≤ 64)) (ok-injective e) (omega arith))
source_bits-ok x none (value v) w = (λ h. h, λ m e. absurd (cc))

in_range-true : (m : ℕ) → (1 ≤ m) × (m ≤ 64) → (leb 1 m && leb m 64) ≡ true
in_range-true m h = ground arith

moved-IsSafe :
    (x : Option String) (n : Option ℕ) (src : Operand) (raw bits : ℕ)
    → IsSourceWidth n
    → IsExtension x
    → IsSafe (moved x n src raw bits)
unfolding moved
moved-IsSafe none n src raw bits w x = tt
moved-IsSafe (some e) n src raw bits w x =
    let (safe, bound) = source_bits-ok e n src w in
    IsSafe-bind (source_bits e n src) _ safe
      (λ m q. rw (in_range-true m (bound m q)) (extended-IsSafe e m (raw % 2 ^ m) bits x))

find_host-IsSafe : (s : String) (d : Dict ℕ String) → IsSafe (find_host s d)
unfolding find_host
find_host-IsSafe s [] = λ h. h
find_host-IsSafe s ((code, name) ∷ rest) = elim (Bool-cases (name == s)) [
  | inl e ↦ rw e tt
  | inr e ↦ rw e (find_host-IsSafe s rest)
]

module _ (p : Program) (vm : Vm) (at : IsAt p vm) where
  pub linked_at : linked p vm ≡ ok at.lf
  unfolding linked
  linked_at = rw at.at_function (rw at.has_function)

  pub slot_address-IsSafe : (s : String) → IsSafe (slot_address p vm s)
  unfolding slot_address
  slot_address-IsSafe s = rw linked_at (
      IsSafe-bind (or_raise (Dict.get at.lf.slot_offsets s) (unknown_slot s)) _
        (or_raise-IsSafe (Dict.get at.lf.slot_offsets s) (unknown_slot s) (λ h. h)) (λ a e. tt))

  resolve_symbol-IsSafe : (s : String) → IsSafe (resolve_symbol p vm s)
  unfolding resolve_symbol
  resolve_symbol-IsSafe s =
      or_raise-IsSafe (Dict.get p.symbol_addresses s) (unresolved_symbol s) (λ h. h)

  pub read_value-IsSafe : (v : Value) → IsSafe (read_value p vm v)
  unfolding read_value
  read_value-IsSafe (imm n) = tt
  read_value-IsSafe sp = tt
  read_value-IsSafe (arbitrary k) = λ h. h
  read_value-IsSafe (symbol s) = resolve_symbol-IsSafe s
  read_value-IsSafe (reloc s n) =
      IsSafe-bind (resolve_symbol p vm s) _ (resolve_symbol-IsSafe s) (λ a e. tt)
  read_value-IsSafe (block_addr f l) =
      or_raise-IsSafe (Dict.get p.block_code (f, l)) (unresolved_block_address f l) (λ h. h)
  read_value-IsSafe (slot s) =
      IsSafe-bind (slot_address p vm s) _ (slot_address-IsSafe s)
        (λ a e. read_64-IsSafe vm.memory a)

  pub address_of-IsSafe : (a : Address) → IsSafe (address_of p vm a)
  unfolding address_of
  address_of-IsSafe a =
      IsSafe-bind (read_value p vm a.base) _ (read_value-IsSafe a.base) (λ b e. tt)

  pub read_operand-IsSafe : (o : Operand) → IsSafe (read_operand p vm o)
  unfolding read_operand
  read_operand-IsSafe (value v) = read_value-IsSafe v
  read_operand-IsSafe (mem a w) =
      IsSafe-bind (address_of p vm a) _ (address_of-IsSafe a)
        (λ b e. read_width-IsSafe vm.memory b w)

  pub mov_value-IsSafe :
      (i : MovFields) → IsSourceWidth i.src_bits → IsExtension i.extend → IsSafe (mov_value p vm i)
  unfolding mov_value
  mov_value-IsSafe i w x =
      IsSafe-bind (read_operand p vm i.src) _ (read_operand-IsSafe i.src)
        (λ raw e. moved-IsSafe i.extend i.src_bits i.src raw (width_bits i.width) w x)

  pub condition-IsSafe : (i : BrFields) → IsSafe (condition p vm i)
  unfolding condition
  condition-IsSafe i =
      IsSafe-bind (read_value p vm i.a) _ (read_value-IsSafe i.a)
        (λ a e. IsSafe-bind (read_value p vm i.b) _ (read_value-IsSafe i.b) (λ b e'. tt))

  indirect_code-IsSafe :
      (s : Option String) (a : Option Address)
      → differ (not (is_none s)) (not (is_none a)) ≡ true
      → IsSafe (indirect_code p vm s a)
  unfolding indirect_code
  indirect_code-IsSafe (some s) a h = read_value-IsSafe (slot s)
  indirect_code-IsSafe none (some a) h =
      IsSafe-bind (address_of p vm a) _ (address_of-IsSafe a) (λ b e. read_64-IsSafe vm.memory b)
  indirect_code-IsSafe none none h = absurd (cc)

  external_code-IsSafe : (s : Option String) → is_none s ≡ false → IsSafe (external_code p vm s)
  unfolding external_code
  external_code-IsSafe none h = absurd (cc)
  external_code-IsSafe (some s) h = find_host-IsSafe s p.host_code

external-symbol : (a b c d : Bool) → (not a && b && c && d) ≡ true → a ≡ false
external-symbol a b c d h = ground arith

last_of : (a b c : Bool) → (a && b && c) ≡ true → c ≡ true
last_of a b c h = ground arith

module _ (p : Program) (vm : Vm) (at : IsAt p vm) (l : IsLinked p) where
  -- The block that the machine is in passed the verifier.
  pub at-strict : IsStrictBlock (p3_labels at.lf.function) at.block
  at-strict =
      let (v, same) = l.verified at.name at.lf at.has_function in
      link-strict at.lf.function v at.label at.block (
        subst (λ (lf : LinkedFunction). Dict.get lf.block_map at.label ≡ some at.block) same
          at.has_block)

  local_code-IsSafe :
      (label : Option String)
      → IsLabelIn label (p3_labels at.lf.function)
      → IsSafe (local_code p vm label)
  unfolding local_code
  local_code-IsSafe none h = absurd h
  local_code-IsSafe (some label) h =
      let (code, e) = l.labelled at.name at.lf label at.has_function h in
      rw at.at_function (rw e tt)

  -- A branch of the current function has its target.
  pub target_code-IsSafe :
      (t : Target) → IsTarget (p3_labels at.lf.function) t → IsSafe (target_code p vm t)
  unfolding target_code
  target_code-IsSafe t (inl (d, m)) = rw d (local_code-IsSafe t.label m)
  target_code-IsSafe t (inr (d, inl e)) = rw d (
      rw e (
        external_code-IsSafe p vm at t.symbol (
          external-symbol (is_none t.symbol) (is_none t.label) (is_none t.slot) (is_none t.address)
            e)))
  target_code-IsSafe t (inr (d, inr i)) = elim (Bool-cases (is_external t)) [
    | inl e ↦ rw d (
        rw e (
          external_code-IsSafe p vm at t.symbol (
            external-symbol (is_none t.symbol) (is_none t.label) (is_none t.slot)
              (is_none t.address) e)))
    | inr e ↦ rw d (
        rw e (
          indirect_code-IsSafe p vm at t.slot t.address (
            last_of (is_none t.label) (is_none t.symbol)
              (differ (not (is_none t.slot)) (not (is_none t.address))) i)))
  ]

  -- The instruction that the machine stands before.
  pub fetch_at :
      (i : P3.Instr) × (fetch p vm ≡ ok i) × (get_elem? at.block.instructions vm.ip ≡ some i)
  unfolding fetch
  fetch_at =
      let (i, e) = get_elem?-lt at.block.instructions vm.ip at.in_range in
      (i, rw (linked_at p vm at) (rw at.at_block (rw at.has_block (rw e))), e)
