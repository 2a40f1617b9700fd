-- ===== src/UserImage/Encode.antt =====
-- Functions and images as JSON objects (src/minimachine/user_image.py, the `_to_obj` functions).
use minimachine.Prelude.{ℕ, String, Option, none, some, List, [], ◌∷◌, Result, ok, err, ◌>>=◌}
use minimachine.Prelude.Int.{pos}
use minimachine.Muir.{Width, width_bits, Cond, Value, Address, Operand, Target}
use minimachine.P3
use minimachine.Program.Slots.{sorted}
use minimachine.Json.{
  Json, Items, Entries, null, bool, int, text, list, dict, nil, item, end, entry,
}
use minimachine.Image.{
  ImageTarget, symbol_target, block_target, Relocation, ImageObject, ImageAlias, ModuleImage,
}
use minimachine.UserImage.{UserImageError, unsupported_value, empty_target, UserProgramImage}

abbrev pub Encoded : Type 0
Encoded = Result UserImageError Json

-- A list comprehension.
unfoldable pub items_to_obj {ℓ} :
    {A : Type ℓ} → (A → Encoded) → List A → Result UserImageError Items
items_to_obj f [] = ok nil
items_to_obj f (x ∷ xs) = do j ← f x; is ← items_to_obj f xs; ok (item j is)

abbrev pub names_to_obj : List String → Items
names_to_obj [] = nil
names_to_obj (s ∷ ss) = item (text s) (names_to_obj ss)

unfoldable pub cond_name : Cond → String
cond_name Cond.eq = "eq"
cond_name Cond.slt = "slt"
cond_name Cond.ult = "ult"

unfoldable pub value_to_obj : Value → Encoded
value_to_obj (Value.slot name) =
    ok (dict (entry "kind" (text "slot") (entry "name" (text name) end)))
value_to_obj (Value.imm n) = ok (dict (entry "kind" (text "imm") (entry "value" (int n) end)))
value_to_obj (Value.symbol name) =
    ok (dict (entry "kind" (text "symbol") (entry "name" (text name) end)))
value_to_obj (Value.reloc symbol addend) = ok (
    dict (
      entry "addend" (int addend) (entry "kind" (text "reloc") (entry "symbol" (text symbol) end))))
value_to_obj (Value.block_addr function label) = ok (
    dict (
      entry "function" (text function)
        (entry "kind" (text "block_addr") (entry "label" (text label) end))))
value_to_obj Value.sp = ok (dict (entry "kind" (text "special") (entry "name" (text "sp") end)))
value_to_obj (Value.arbitrary kind) = err unsupported_value

unfoldable pub address_to_obj : Address → Encoded
address_to_obj a = do
  base ← value_to_obj a.base
  ok (dict (entry "base" base (entry "offset" (int a.offset) end)))

abbrev pub width_to_obj : Width → Json
width_to_obj w = int (pos (width_bits w))

unfoldable pub operand_to_obj : Operand → Encoded
operand_to_obj (Operand.mem a w) = do
  address ← address_to_obj a
  ok (
      dict
        (entry "address" address (entry "kind" (text "mem") (entry "width" (width_to_obj w) end))))
operand_to_obj (Operand.value v) = do
  j ← value_to_obj v
  ok (dict (entry "kind" (text "value") (entry "value" j end)))

unfoldable pub address_target_to_obj : Option Address → Encoded
address_target_to_obj none = err empty_target
address_target_to_obj (some a) = do
  j ← address_to_obj a
  ok (dict (entry "address" j (entry "kind" (text "address") end)))

unfoldable pub target_to_obj : Target → Encoded
target_to_obj t = elim t.label [
  | some l ↦ ok (dict (entry "kind" (text "label") (entry "label" (text l) end)))
  | none ↦ elim t.symbol [
    | some s ↦ ok (dict (entry "kind" (text "symbol") (entry "symbol" (text s) end)))
    | none ↦ elim t.slot [
      | some s ↦ ok (dict (entry "kind" (text "slot") (entry "slot" (text s) end)))
      | none ↦ address_target_to_obj t.address
    ]
  ]
]

-- A key that is written when there is a value.
unfoldable pub optional : String → Option Json → Entries → Entries
optional key none es = es
optional key (some j) es = entry key j es

abbrev pub text_of : Option String → Option Json
text_of none = none
text_of (some s) = some (text s)

abbrev pub number_of : Option ℕ → Option Json
number_of none = none
number_of (some n) = some (int (pos n))

-- The object of a move whose operands are encoded.
abbrev pub mov_object : Width → Option String → Option ℕ → Json → Json → Json
mov_object width extend src_bits dst src = dict (
    entry "dst" dst (
      optional "extend" (text_of extend) (
        entry "op" (text "mov") (
          entry "src" src
            (optional "src_bits" (number_of src_bits) (entry "width" (width_to_obj width) end))))))

unfoldable pub instr_to_obj : P3.Instr → Encoded
instr_to_obj (P3.Instr.mov i) = do
  dst ← operand_to_obj i.dst
  src ← operand_to_obj i.src
  ok (mov_object i.width i.extend i.src_bits dst src)
instr_to_obj (P3.Instr.sub i) = do
  a ← value_to_obj i.a
  b ← value_to_obj i.b
  ok (
      dict (
        entry "a" a (
          entry "b" b (
            entry "dst" (text i.dst)
              (entry "op" (text "sub") (entry "width" (width_to_obj i.width) end))))))
instr_to_obj (P3.Instr.br i) = do
  a ← value_to_obj i.a
  b ← value_to_obj i.b
  taken ← target_to_obj i.true_target
  other ← target_to_obj i.false_target
  ok (
      dict (
        entry "a" a (
          entry "b" b (
            entry "cond" (text (cond_name i.cond)) (
              entry "false" other (
                entry "op" (text "br")
                  (entry "true" taken (entry "width" (width_to_obj i.width) end))))))))

unfoldable pub block_to_obj : P3.Block → Encoded
block_to_obj b = do
  is ← items_to_obj instr_to_obj b.instructions
  ok (dict (entry "instructions" (list is) (entry "label" (text b.label) end)))

-- The dict under the key "function".
unfoldable pub body_to_obj : P3.Function → Encoded
body_to_obj f = do
  blocks ← items_to_obj block_to_obj f.blocks
  ok (
      dict (
        entry "blocks" (list blocks) (
          entry "frame_slots" (list (names_to_obj (sorted f.frame_slots)))
            (entry "name" (text f.name) end))))

abbrev pub format : String
format = "minimachine-p3-v1"

unfoldable pub function_to_obj : P3.Function → Encoded
function_to_obj f = do
  body ← body_to_obj f
  ok (dict (entry "format" (text format) (entry "function" body end)))

unfoldable pub image_target_to_obj : ImageTarget → Json
image_target_to_obj (symbol_target t) = dict (
    entry "addend" (int t.addend)
      (entry "kind" (text "symbol") (entry "symbol" (text t.symbol) end)))
image_target_to_obj (block_target t) = dict (
    entry "addend" (int t.addend) (
      entry "function" (text t.function)
        (entry "kind" (text "block") (entry "label" (text t.label) end))))

unfoldable pub relocation_to_obj : Relocation → Encoded
relocation_to_obj r = ok (
    dict (
      entry "offset" (int r.offset)
        (entry "size" (int r.size) (entry "target" (image_target_to_obj r.target) end))))

abbrev pub text_or_null : Option String → Json
text_or_null none = null
text_or_null (some s) = text s

unfoldable pub alias_to_obj : ImageAlias → Encoded
alias_to_obj a = ok (
    dict (
      entry "name" (text a.name)
        (entry "target" (image_target_to_obj (symbol_target a.target)) end)))

abbrev pub program_format : String
program_format = "minimachine-p3-program-v1"

-- `b64encode` is a parameter.
module _ (b64encode : List ℕ → String) where
  unfoldable pub object_to_obj : ImageObject → Encoded
  object_to_obj o = do
    relocations ← items_to_obj relocation_to_obj o.relocations
    ok (
        dict (
          entry "align" (int o.align) (
            entry "constant" (bool o.constant) (
              entry "data" (text (b64encode o.data_bytes)) (
                entry "name" (text o.name) (
                  entry "relocations" (list relocations) (
                    entry "section" (text_or_null o.section_name)
                      (entry "ty" (text o.ty) end))))))))

  unfoldable pub module_image_to_obj : Option ModuleImage → Encoded
  module_image_to_obj none = ok null
  module_image_to_obj (some image) = do
    objects ← items_to_obj object_to_obj image.objects
    aliases ← items_to_obj alias_to_obj image.aliases
    ok (
        dict (
          entry "aliases" (list aliases) (
            entry "external_data" (list (names_to_obj image.external_data)) (
              entry "external_functions" (list (names_to_obj image.external_functions)) (
                entry "objects" (list objects) (
                  entry "skipped_linker_metadata"
                    (list (names_to_obj image.skipped_linker_metadata))
                    (entry "undef_bytes" (int image.undef_bytes) end)))))))

  unfoldable pub program_to_obj : UserProgramImage → Encoded
  program_to_obj p = do
    functions ← items_to_obj body_to_obj p.functions
    image ← module_image_to_obj p.image
    ok (
        dict (
          entry "entry" (text p.entry) (
            entry "entry_args" (text p.entry_args) (
              entry "format" (text program_format) (
                entry "functions" (list functions) (
                  entry "image" image
                    (entry "runtime_helpers" (list (names_to_obj p.runtime_helpers)) end)))))))
