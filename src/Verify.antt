-- ===== src/Verify.antt =====
-- The two verifiers (src/minimachine/verify.py), with an error for each `raise VerifyError`.
pub mod Sets
pub mod Strict
use minimachine.Prelude.{
  ℕ, String, Bool, true, false, ◌&&◌, ◌||◌, not, Option, none, some, List, [], ◌∷◌, map, length,
  get_last?, leb, nat_eqb, ◌==◌, string_eq, if◌then◌else◌, Result, ok, err, ◌>>◌, require,
}
use minimachine.Muir
use minimachine.Muir.{Target, MovFields, BrFields, is_none, is_direct, is_external, is_indirect}
use minimachine.P3

pub data VerifyError : Type 0 where
  unknown_direct_target : Option String → VerifyError
  invalid_target : VerifyError
  duplicate_label : VerifyError
  empty_block : String → VerifyError
  invalid_callee : VerifyError
  helper_without_symbol : VerifyError
  sys_without_operation : VerifyError
  non_terminating_escape : String → VerifyError
  no_terminator : String → VerifyError
  invalid_source_width : ℕ → VerifyError
  invalid_extension : String → VerifyError
  not_ending_in_br : String → VerifyError
  abi_pseudo_survived : String → String → VerifyError

abbrev pub Check : Type 0
Check = Result VerifyError Unit

-- `for x in xs: check(x)`
unfoldable pub check_all {ℓ} : {A : Type ℓ} → (A → Check) → List A → Check
check_all check [] = ok tt
check_all check (x ∷ xs) = do check x; check_all check xs

unfoldable pub elem : String → List String → Bool
elem x [] = false
elem x (y ∷ ys) = y == x || elem x ys

-- The set `{block.label for ...}`, as a list without repetitions.
unfoldable pub to_set : List String → List String
unfolding elem
to_set [] = []
to_set (x ∷ xs) = let rest = to_set xs in elim (elem x rest) [ true ↦ rest | false ↦ x ∷ rest ]

-- `target.label not in labels`
unfoldable pub label_known : Option String → List String → Bool
unfolding elem
label_known none labels = false
label_known (some l) labels = elem l labels

unfoldable pub check_target : List String → Target → Check
unfolding label_known
check_target labels t =
    if is_direct t
    then require (label_known t.label labels) (unknown_direct_target t.label)
    else require (is_external t || is_indirect t) invalid_target

check_targets : List String → BrFields → Check
unfolding check_target
check_targets labels i = do check_target labels i.true_target; check_target labels i.false_target

-- The test of one instruction in `verify_muir`. A name is false when it is empty.
unfoldable pub check_muir_instr : List String → Muir.Instr → Check
unfolding check_targets check_all
check_muir_instr labels (Muir.Instr.br i) = check_targets labels i
check_muir_instr labels (Muir.Instr.call callee args result) =
    require (Muir.callee_is_direct callee || Muir.callee_is_indirect callee) invalid_callee
check_muir_instr labels (Muir.Instr.helper symbol args result) =
    require (not (symbol == "")) helper_without_symbol
check_muir_instr labels (Muir.Instr.sys op args result) =
    require (not (op == "")) sys_without_operation
check_muir_instr labels (Muir.Instr.arch_escape kind text targets) =
    check_all (check_target labels) targets
check_muir_instr labels _ = ok tt

unfoldable pub is_nil {ℓ} : {A : Type ℓ} → List A → Bool
is_nil [] = true
is_nil (x ∷ xs) = false

-- The test of `block.instructions[-1]`.
unfoldable pub check_muir_terminator : String → Option Muir.Instr → Check
unfolding is_nil
check_muir_terminator label (some (Muir.Instr.arch_escape kind text targets)) =
    require (not (is_nil targets)) (non_terminating_escape label)
check_muir_terminator label (some (Muir.Instr.br i)) = ok tt
check_muir_terminator label (some (Muir.Instr.ret v)) = ok tt
check_muir_terminator label (some (Muir.Instr.trap r)) = ok tt
check_muir_terminator label _ = err (no_terminator label)

unfoldable pub check_muir_block : List String → Muir.Block → Check
unfolding check_muir_instr check_muir_terminator
check_muir_block labels block = do
  require (not (is_nil block.instructions)) (empty_block block.label)
  check_all (check_muir_instr labels) block.instructions
  check_muir_terminator block.label (get_last? block.instructions)

unfoldable pub muir_labels : Muir.Function → List String
muir_labels f = map (λ b. b.label) f.blocks

unfoldable pub verify_muir : Muir.Function → Check
unfolding check_muir_block muir_labels to_set
verify_muir f = do
  let labels = to_set (muir_labels f)
  require (nat_eqb (length labels) (length f.blocks)) duplicate_label
  check_all (check_muir_block labels) f.blocks

check_src_bits : Option ℕ → Check
check_src_bits none = ok tt
check_src_bits (some n) = require (leb 1 n && leb n 64) (invalid_source_width n)

check_extend : Option String → Check
check_extend none = ok tt
check_extend (some e) = require (e == "zext" || e == "sext" || e == "trunc") (invalid_extension e)

-- That an instruction is one of the three is its type.
unfoldable pub check_p3_instr : List String → P3.Instr → Check
unfolding check_src_bits check_extend check_targets
check_p3_instr labels (P3.Instr.mov i) = do check_src_bits i.src_bits; check_extend i.extend
check_p3_instr labels (P3.Instr.sub i) = ok tt
check_p3_instr labels (P3.Instr.br i) = check_targets labels i

unfoldable pub check_p3_terminator : String → Option P3.Instr → Check
check_p3_terminator label (some (P3.Instr.br i)) = ok tt
check_p3_terminator label _ = err (not_ending_in_br label)

unfoldable pub check_p3_block : List String → P3.Block → Check
unfolding check_p3_instr check_p3_terminator is_nil
check_p3_block labels block = do
  require (not (is_nil block.instructions)) (empty_block block.label)
  check_all (check_p3_instr labels) block.instructions
  check_p3_terminator block.label (get_last? block.instructions)

unfoldable pub p3_labels : P3.Function → List String
p3_labels f = map (λ b. b.label) f.blocks

unfoldable pub verify_p3 : P3.Function → Check
unfolding check_p3_block p3_labels to_set
verify_p3 f = do
  let labels = to_set (p3_labels f)
  require (nat_eqb (length labels) (length f.blocks)) duplicate_label
  check_all (check_p3_block labels) f.blocks
