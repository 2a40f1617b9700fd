-- ===== src/Lower.antt =====
-- `lower_function` (src/minimachine/lower_p3.py): legalized μIR, with its pseudo-instructions
-- expanded, becomes strict P3, between the two verifiers.
pub mod Laws
pub mod Total
use minimachine.Prelude.{String, List, [], ◌∷◌, Result, ok, err, ◌>>=◌, ◌>>◌}
use minimachine.Prelude.Int.{ℤ, pos}
use minimachine.Muir
use minimachine.Muir.{
  Value, slot, imm, symbol, reloc, arbitrary, block_addr, sp, Address, Operand, value, mem,
}
use minimachine.P3
use minimachine.Verify.{VerifyError, verify_muir, verify_p3}

pub data LowerError : Type 0 where
  -- a `VerifyError` of either verifier
  verify_error : VerifyError → LowerError
  -- `MachineLoweringError`
  pseudo_must_be_expanded : Muir.Instr → LowerError

abbrev pub Lowered {ℓ} : Type ℓ → Type ℓ
Lowered A = Result LowerError A

-- A verifier's exception passes through.
abbrev pub verified {ℓ} : {A : Type ℓ} → Result VerifyError A → Lowered A
verified (ok a) = ok a
verified (err e) = err (verify_error e)

unfoldable pub lower_value : Value → Value
lower_value (arbitrary kind) = imm (pos 0)
lower_value (slot n) = slot n
lower_value (imm n) = imm n
lower_value (symbol s) = symbol s
lower_value (reloc s n) = reloc s n
lower_value (block_addr f l) = block_addr f l
lower_value sp = sp

unfoldable pub lower_operand : Operand → Operand
unfolding lower_value
lower_operand (mem address width) =
    mem (record { base = lower_value address.base; offset = address.offset }) width
lower_operand (value v) = value (lower_value v)

unfoldable pub lower_instr : Muir.Instr → Lowered P3.Instr
unfolding lower_operand
lower_instr (Muir.Instr.mov i) =
    ok (P3.Instr.mov (record i { dst = lower_operand i.dst; src = lower_operand i.src }))
lower_instr (Muir.Instr.sub i) =
    ok (P3.Instr.sub (record i { a = lower_value i.a; b = lower_value i.b }))
lower_instr (Muir.Instr.br i) =
    ok (P3.Instr.br (record i { a = lower_value i.a; b = lower_value i.b }))
lower_instr pseudo = err (pseudo_must_be_expanded pseudo)

unfoldable pub lower_instrs : List Muir.Instr → Lowered (List P3.Instr)
unfolding lower_instr
lower_instrs [] = ok []
lower_instrs (i ∷ is) = do j ← lower_instr i; js ← lower_instrs is; ok (j ∷ js)

unfoldable pub lower_block : Muir.Block → Lowered P3.Block
unfolding lower_instrs
lower_block block = do
  out ← lower_instrs block.instructions
  ok (record { label = block.label; instructions = out })

unfoldable pub lower_blocks : List Muir.Block → Lowered (List P3.Block)
unfolding lower_block
lower_blocks [] = ok []
lower_blocks (b ∷ bs) = do c ← lower_block b; cs ← lower_blocks bs; ok (c ∷ cs)

unfoldable pub lower_function : Muir.Function → Lowered P3.Function
unfolding lower_blocks
lower_function f = do
  verified (verify_muir f)
  blocks ← lower_blocks f.blocks
  let result : P3.Function = record { name = f.name; blocks = blocks; frame_slots = f.frame_slots }
  verified (verify_p3 result)
  ok result
