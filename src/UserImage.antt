-- ===== src/UserImage.antt =====
-- Images of user programs (src/minimachine/user_image.py): what an image is and which are refused.
pub mod Encode
pub mod Decode
pub mod DecodeImage
pub mod Payload
pub mod Flat
pub mod Codec
pub mod Packed
pub mod Extracted
use minimachine.Prelude.{
  ℕ, String, Bool, not, ◌||◌, ◌==◌, string_eq, nat_eqb, Option, List, [], ◌∷◌, map, length, Result,
  ok, err, require, ◌>>◌,
}
use minimachine.Prelude.Int.{ℤ}
use minimachine.P3
use minimachine.Image.{ModuleImage}
use minimachine.Verify.{elem, to_set, is_nil}

-- `UserImageError`, with a constructor for each raise, and the exceptions of Python that the code
-- does not catch: a key that is missing, and a value of another type.
pub data UserImageError : Type 0 where
  no_functions : UserImageError
  duplicate_function_names : UserImageError
  entry_missing : String → UserImageError
  unsupported_entry_args : String → UserImageError
  unsupported_width : ℤ → UserImageError
  unsupported_value : UserImageError
  unsupported_special : String → UserImageError
  unsupported_kind : UserImageError
  empty_target : UserImageError
  unsupported_condition : String → UserImageError
  unsupported_op : UserImageError
  unsupported_format : UserImageError
  missing_function : UserImageError
  no_blocks : UserImageError
  invalid_json : UserImageError
  not_an_object : UserImageError
  alias_not_symbol : UserImageError
  invalid_object_data : UserImageError
  functions_not_list : UserImageError
  invalid_entry : UserImageError
  invalid_alignment : UserImageError
  truncated_payload : UserImageError
  bad_payload_magic : UserImageError
  unsupported_payload_version : ℕ → UserImageError
  truncated_body : UserImageError
  invalid_compressed : UserImageError
  invalid_stack_size : ℤ → UserImageError
  truncated_flat_image : UserImageError
  bad_flat_magic : UserImageError
  unsupported_flat_version : ℕ → UserImageError
  unexpected_entry : ℕ → UserImageError
  invalid_section_bounds : UserImageError
  not_relocation_free : UserImageError
  key_error : String → UserImageError
  type_error : UserImageError
  struct_error : UserImageError

pub record UserProgramImage : Type 0 where
  pub entry : String
  pub functions : List P3.Function
  pub image : Option ModuleImage
  pub entry_args : String
  pub runtime_helpers : List String

abbrev pub function_names : List P3.Function → List String
function_names functions = map (λ f. f.name) functions

-- `__post_init__`
unfoldable pub check_program : UserProgramImage → Result UserImageError (Unit {0})
check_program p = do
  let names = function_names p.functions
  require (not (is_nil names)) no_functions
  require (nat_eqb (length (to_set names)) (length names)) duplicate_function_names
  require (elem p.entry names) (entry_missing p.entry)
  require (p.entry_args == "none" || p.entry_args == "linux-main")
      (unsupported_entry_args p.entry_args)

-- The constructor of the dataclass.
unfoldable pub make_program : UserProgramImage → Result UserImageError UserProgramImage
make_program p = do check_program p; ok p
