-- ===== src/Image.antt =====
-- The data image of a module (src/minimachine/image.py): objects, their relocations and aliases.
pub mod Aliases
pub mod Resolved
use minimachine.Prelude.{ℕ, String, Bool, Option, List}
use minimachine.Prelude.Int.{ℤ}

pub record SymbolExpr : Type 0 where
  pub symbol : String
  pub addend : ℤ

pub record BlockExpr : Type 0 where
  pub function : String
  pub label : String
  pub addend : ℤ

-- `SymbolExpr | BlockExpr`
pub data ImageTarget : Type 0 where
  symbol_target : SymbolExpr → ImageTarget
  block_target : BlockExpr → ImageTarget

pub record Relocation : Type 0 where
  pub offset : ℤ
  pub size : ℤ
  pub target : ImageTarget

pub record ImageObject : Type 0 where
  pub name : String
  pub ty : String
  pub data_bytes : List ℕ
  pub align : ℤ
  pub section_name : Option String
  pub constant : Bool
  pub relocations : List Relocation

pub record ImageAlias : Type 0 where
  pub name : String
  pub target : SymbolExpr

pub record ModuleImage : Type 0 where
  pub objects : List ImageObject
  pub aliases : List ImageAlias
  pub external_data : List String
  pub external_functions : List String
  pub skipped_linker_metadata : List String
  pub undef_bytes : ℤ
