-- ===== src/UserImage/DecodeImage.antt =====
-- Data images and programs from JSON objects (src/minimachine/user_image.py, `_module_image_from_obj`
-- and `program_from_obj`).
use minimachine.Prelude.{
  ℕ, String, Bool, false, ◌==◌, string_eq, if◌then◌else◌, Option, none, some, List, [], ◌∷◌, ok,
  err, ◌>>=◌, ◌>>◌, require,
}
use minimachine.Prelude.Int.{ℤ}
use minimachine.Json.{Json, Items, null, text, list, dict, lookup, truth}
use minimachine.Image.{
  ImageTarget, symbol_target, block_target, Relocation, ImageObject, ImageAlias, ModuleImage,
}
use minimachine.UserImage.{
  unsupported_kind, unsupported_format, alias_not_symbol, invalid_object_data, functions_not_list,
  invalid_entry, type_error, UserProgramImage, make_program, not_an_object,
}
use minimachine.UserImage.Encode.{program_format}
use minimachine.UserImage.Decode.{
  Decoded, get_key, field, as_text, as_int, int_or_zero, items_from_obj, list_from_obj, text_field,
  is_kind, optional_text, function_body,
}

unfoldable pub image_target_from_obj : Json → Decoded ImageTarget
image_target_from_obj obj = do
  kind ← get_key obj "kind"
  (if is_kind "symbol" kind
      then (do
        symbol ← text_field obj "symbol"
        addend ← get_key obj "addend" >>= int_or_zero
        ok (symbol_target (record { symbol = symbol; addend = addend })))
      else if is_kind "block" kind
      then (do
        function ← text_field obj "function"
        label ← text_field obj "label"
        addend ← get_key obj "addend" >>= int_or_zero
        ok (block_target (record { function = function; label = label; addend = addend })))
      else err unsupported_kind)

unfoldable pub int_field : Json → String → Decoded ℤ
int_field obj key = field obj key >>= as_int

unfoldable pub relocation_from_obj : Json → Decoded Relocation
relocation_from_obj obj = do
  offset ← int_field obj "offset"
  size ← int_field obj "size"
  target ← field obj "target" >>= image_target_from_obj
  ok (record { offset = offset; size = size; target = target })

-- The target must be a symbol, which is tested when all aliases are read.
unfoldable pub alias_from_obj : Json → Decoded (String × ImageTarget)
alias_from_obj obj = do
  name ← text_field obj "name"
  target ← field obj "target" >>= image_target_from_obj
  ok (name, target)

unfoldable pub check_aliases : List (String × ImageTarget) → Decoded (List ImageAlias)
check_aliases [] = ok []
check_aliases ((name, symbol_target t) ∷ rest) = do
  aliases ← check_aliases rest
  ok (record { name = name; target = t } ∷ aliases)
check_aliases ((name, block_target t) ∷ rest) = err alias_not_symbol

abbrev pub truth_or_false : Option Json → Bool
truth_or_false none = false
truth_or_false (some j) = truth j

abbrev pub bytes_or_error : Option (List ℕ) → Decoded (List ℕ)
bytes_or_error none = err invalid_object_data
bytes_or_error (some bytes) = ok bytes

-- The text of `raw["data"]`, whose absence is caught.
unfoldable pub data_text : Json → Decoded String
data_text (dict es) = elim (lookup es "data") [
  | none ↦ err invalid_object_data
  | some j ↦ as_text j
]
data_text _ = err type_error

abbrev pub text_or : String → Option Json → Decoded String
text_or other none = ok other
text_or other (some j) = as_text j

unfoldable pub texts_from_obj : Json → String → Decoded (List String)
texts_from_obj obj key = get_key obj key >>= list_from_obj as_text

-- A text that is not empty.
abbrev pub entry_name : Option Json → Decoded String
entry_name (some (text s)) = if s == "" then err invalid_entry else ok s
entry_name _ = err invalid_entry

abbrev pub listed : Option Json → Decoded Items
listed (some (list is)) = ok is
listed _ = err functions_not_list

-- `b64decode` is a parameter.
module _ (b64decode : String → Option (List ℕ)) where
  unfoldable pub object_from_obj : Json → Decoded ImageObject
  object_from_obj obj = do
    encoded ← data_text obj
    bytes ← bytes_or_error (b64decode encoded)
    name ← text_field obj "name"
    ty ← text_field obj "ty"
    align ← int_field obj "align"
    section_name ← get_key obj "section" >>= optional_text
    constant ← get_key obj "constant"
    relocations ← get_key obj "relocations" >>= list_from_obj relocation_from_obj
    ok (record {
      name = name;
      ty = ty;
      data_bytes = bytes;
      align = align;
      section_name = section_name;
      constant = truth_or_false constant;
      relocations = relocations;
    })

  unfoldable pub image_from_obj : Json → Decoded ModuleImage
  image_from_obj obj = do
    objects ← get_key obj "objects" >>= list_from_obj object_from_obj
    targets ← get_key obj "aliases" >>= list_from_obj alias_from_obj
    aliases ← check_aliases targets
    external_data ← texts_from_obj obj "external_data"
    external_functions ← texts_from_obj obj "external_functions"
    skipped ← texts_from_obj obj "skipped_linker_metadata"
    undef_bytes ← get_key obj "undef_bytes" >>= int_or_zero
    ok (record {
      objects = objects;
      aliases = aliases;
      external_data = external_data;
      external_functions = external_functions;
      skipped_linker_metadata = skipped;
      undef_bytes = undef_bytes;
    })

  unfoldable pub module_image_from_obj : Option Json → Decoded (Option ModuleImage)
  module_image_from_obj none = ok none
  module_image_from_obj (some null) = ok none
  module_image_from_obj (some (dict es)) = do image ← image_from_obj (dict es); ok (some image)
  module_image_from_obj (some _) = err not_an_object

  unfoldable pub program_from_obj : Json → Decoded UserProgramImage
  program_from_obj obj = do
    found_format ← get_key obj "format"
    require (is_kind program_format found_format) unsupported_format
    raw ← get_key obj "functions" >>= listed
    functions ← items_from_obj (λ fn. function_body (some fn)) raw
    entry_point ← get_key obj "entry" >>= entry_name
    image ← get_key obj "image" >>= module_image_from_obj
    entry_args ← get_key obj "entry_args" >>= text_or "none"
    runtime_helpers ← texts_from_obj obj "runtime_helpers"
    make_program (record {
      entry = entry_point;
      functions = functions;
      image = image;
      entry_args = entry_args;
      runtime_helpers = runtime_helpers;
    })
