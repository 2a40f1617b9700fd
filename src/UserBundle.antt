-- ===== src/UserBundle.antt =====
-- Bundles of user programs (src/minimachine/user_bundle.py): the symbols of a program renamed into
-- a namespace. The building of a program from LLVM text is left out.
pub mod Renamed
pub mod Mapped
pub mod Namespaced
use minimachine.Prelude.{
  String, ◌+++◌, Option, none, some, List, [], ◌∷◌, map, Result, ok, err, ◌>>=◌, ◌>>◌, ◌==◌,
  string_eq,
}
use minimachine.Prelude.Dict
use minimachine.Prelude.Dict.{Dict}
use minimachine.Muir
use minimachine.Muir.{Value, Address, Operand, Target}
use minimachine.P3
use minimachine.Verify.{VerifyError, verify_p3, to_set}
use minimachine.Image.{
  SymbolExpr, BlockExpr, ImageTarget, symbol_target, block_target, Relocation, ImageObject,
  ImageAlias, ModuleImage,
}
use minimachine.UserImage.{UserImageError, UserProgramImage, make_program}

pub data BundleError : Type 0 where
  cannot_rewrite_empty_target : BundleError
  rewritten_fails : VerifyError → BundleError
  bad_image : UserImageError → BundleError

abbrev pub Mapping : Type 0
Mapping = Dict String String

abbrev or_same : String → Option String → String
or_same name none = name
or_same name (some other) = other

-- `mapping.get(name, name)`
abbrev pub rename : Mapping → String → String
rename mapping name = or_same name (Dict.get mapping name)

-- A loop over a list whose body may raise.
unfoldable pub for_each {ℓ κ} :
    {A : Type ℓ} {B : Type κ} → (A → Result BundleError B) → List A → Result BundleError (List B)
for_each f [] = ok []
for_each f (x ∷ xs) = do y ← f x; ys ← for_each f xs; ok (y ∷ ys)

abbrev pub checked : Result VerifyError (Unit {0}) → P3.Function → Result BundleError P3.Function
checked (ok u) f = ok f
checked (err e) f = err (rewritten_fails e)

abbrev as_bundle : Result UserImageError UserProgramImage → Result BundleError UserProgramImage
as_bundle (ok p) = ok p
as_bundle (err e) = err (bad_image e)

module _ (mapping : Mapping) where
  unfoldable pub rewrite_value : Value → Value
  rewrite_value (Value.symbol name) = Value.symbol (rename mapping name)
  rewrite_value (Value.reloc symbol addend) = Value.reloc (rename mapping symbol) addend
  rewrite_value (Value.block_addr function label) = Value.block_addr (rename mapping function) label
  rewrite_value (Value.slot name) = Value.slot name
  rewrite_value (Value.imm n) = Value.imm n
  rewrite_value (Value.arbitrary kind) = Value.arbitrary kind
  rewrite_value Value.sp = Value.sp

  unfoldable pub rewrite_address : Address → Address
  rewrite_address a = record { base = rewrite_value a.base; offset = a.offset }

  unfoldable pub rewrite_operand : Operand → Operand
  rewrite_operand (Operand.mem a w) = Operand.mem (rewrite_address a) w
  rewrite_operand (Operand.value v) = Operand.value (rewrite_value v)

  unfoldable pub rewrite_target : Target → Result BundleError Target
  rewrite_target t = elim t.label [
    | some l ↦ ok (record { label = some l; symbol = none; slot = none; address = none })
    | none ↦ elim t.symbol [
      | some s ↦
          ok
            (record { label = none; symbol = some (rename mapping s); slot = none; address = none })
      | none ↦ elim t.slot [
        | some s ↦ ok (record { label = none; symbol = none; slot = some s; address = none })
        | none ↦ elim t.address [
          | some a ↦ ok (record {
            label = none;
            symbol = none;
            slot = none;
            address = some (rewrite_address a);
          })
          | none ↦ err cannot_rewrite_empty_target
        ]
      ]
    ]
  ]

  unfoldable pub rewrite_instruction : P3.Instr → Result BundleError P3.Instr
  rewrite_instruction (P3.Instr.mov i) =
      ok (P3.Instr.mov (record i { dst = rewrite_operand i.dst; src = rewrite_operand i.src }))
  rewrite_instruction (P3.Instr.sub i) =
      ok (P3.Instr.sub (record i { a = rewrite_value i.a; b = rewrite_value i.b }))
  rewrite_instruction (P3.Instr.br i) = do
    taken ← rewrite_target i.true_target
    other ← rewrite_target i.false_target
    ok (
        P3.Instr.br (record i {
          a = rewrite_value i.a;
          b = rewrite_value i.b;
          true_target = taken;
          false_target = other;
        }))

  unfoldable pub rewrite_block : P3.Block → Result BundleError P3.Block
  rewrite_block b = do
    is ← for_each rewrite_instruction b.instructions
    ok (record { label = b.label; instructions = is })

  unfoldable pub rewrite_function : P3.Function → Result BundleError P3.Function
  rewrite_function f = do
    blocks ← for_each rewrite_block f.blocks
    let g : P3.Function = record {
      name = rename mapping f.name;
      blocks = blocks;
      frame_slots = f.frame_slots;
    }
    checked (verify_p3 g) g

  unfoldable pub rewrite_symbol : SymbolExpr → SymbolExpr
  rewrite_symbol t = record { symbol = rename mapping t.symbol; addend = t.addend }

  unfoldable pub rewrite_image_target : ImageTarget → ImageTarget
  rewrite_image_target (symbol_target t) = symbol_target (rewrite_symbol t)
  rewrite_image_target (block_target t) =
      block_target (record t { function = rename mapping t.function })

  unfoldable pub rewrite_relocation : Relocation → Relocation
  rewrite_relocation r = record r { target = rewrite_image_target r.target }

  unfoldable pub rewrite_object : ImageObject → ImageObject
  rewrite_object o = record o {
    name = rename mapping o.name;
    relocations = map rewrite_relocation o.relocations;
  }

  unfoldable pub rewrite_alias : ImageAlias → ImageAlias
  rewrite_alias a = record { name = rename mapping a.name; target = rewrite_symbol a.target }

  unfoldable pub rewrite_image : Option ModuleImage → Option ModuleImage
  rewrite_image none = none
  rewrite_image (some image) = some (record image {
    objects = map rewrite_object image.objects;
    aliases = map rewrite_alias image.aliases;
    external_data = map (rename mapping) image.external_data;
    external_functions = map (rename mapping) image.external_functions;
  })

  -- The program with every name rewritten.
  unfoldable pub rewrite_program : UserProgramImage → Result BundleError UserProgramImage
  rewrite_program p = do
    functions ← for_each rewrite_function p.functions
    as_bundle (
        make_program (record p {
          entry = rename mapping p.entry;
          functions = functions;
          image = rewrite_image p.image;
        }))

-- `mapping[name] = prefix + name` for each name.
unfoldable pub put_all : String → List String → Mapping → Mapping
put_all prefix [] mapping = mapping
put_all prefix (name ∷ names) mapping =
    put_all prefix names (Dict.put mapping name (prefix +++ name))

-- `mapping.setdefault(name, prefix + name)`
unfoldable pub default_one : String → String → Mapping → Mapping
default_one prefix name mapping = elim (Dict.get mapping name) [
  | some other ↦ mapping
  | none ↦ Dict.put mapping name (prefix +++ name)
]

unfoldable pub default_all : String → List String → Mapping → Mapping
default_all prefix [] mapping = mapping
default_all prefix (name ∷ names) mapping =
    default_all prefix names (default_one prefix name mapping)

abbrev pub of_image : String → String → Option ModuleImage → Mapping → Mapping
of_image internal external none mapping = mapping
of_image internal external (some image) mapping = default_all external image.external_functions (
    default_all external image.external_data (
      default_all internal (map (λ a. a.name) image.aliases)
        (default_all internal (map (λ o. o.name) image.objects) mapping)))

unfoldable pub namespace_mapping : String → String → UserProgramImage → Mapping
namespace_mapping internal external p =
    of_image internal external p.image (put_all internal (map (λ f. f.name) p.functions) [])

-- The prefixes default to "__mm_user_" and "__mm_user_ext_".
unfoldable pub namespace_user_program :
    String → String → UserProgramImage → Result BundleError UserProgramImage
namespace_user_program internal external p =
    rewrite_program (namespace_mapping internal external p) p
