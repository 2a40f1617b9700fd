-- ===== src/P3.antt =====
-- Strict P3 (src/minimachine/p3.py): the three machine instructions. Values, addresses and targets
-- are those of μIR; `Arbitrary` is no P3 value, which `Lower` shows of its results.
use minimachine.Prelude.{String, List}
use minimachine.Muir.{MovFields, SubFields, BrFields}

pub data Instr : Type 0 where
  mov : MovFields → Instr
  sub : SubFields → Instr
  br : BrFields → Instr

pub record Block : Type 0 where
  pub label : String
  pub instructions : List Instr

pub record Function : Type 0 where
  pub name : String
  pub blocks : List Block
  pub frame_slots : List String
