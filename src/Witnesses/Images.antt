-- ===== src/Witnesses/Images.antt =====
-- The images of user programs (src/minimachine/user_image.py) of a sample function.
use minimachine.Prelude.{
  List, ◌≡◌, refl, true, not, none, some, [], ◌∷◌, ok, ok-injective, ap, sym, nat_eq, string_eq,
  ◌∙◌,
}
use minimachine.P3
use minimachine.Prelude.Int.{pos}
use minimachine.Verify
use minimachine.Verify.Strict.{IsStrict, verify_p3-IsStrict}
use minimachine.Json.{Json, has_sorted_keys}
use minimachine.UserImage.Encode
use minimachine.UserImage.Encode.{function_to_obj}
use minimachine.UserImage.Decode.{function_from_obj}
use minimachine.UserImage.Codec.{with_sorted_slots, function_from_obj-function_to_obj}
use minimachine.UserImage.Payload
use minimachine.UserImage.Payload.{Bytes, Library}
use minimachine.UserImage.Packed.{ReadsBack}
use minimachine.UserImage.Flat
use minimachine.UserImage.Flat.{build_flat, extract_flat_payload}
use minimachine.UserImage.Extracted.{extract_flat_payload-build_flat}
use minimachine.UserBundle.{rename, rewrite_function}
use minimachine.UserBundle.Renamed.{rewrite_function-IsStrict}
use minimachine.Prelude.{◌+++◌}
use minimachine.UserImage.{UserProgramImage, function_names, check_program}
use minimachine.UserBundle.{namespace_user_program}
use minimachine.UserBundle.Mapped.{prefixed}
use minimachine.UserBundle.Namespaced.{namespace_user_program-prefixed}
use minimachine.Prelude.{Result, arith}
use minimachine.Image.{ImageAlias}
use minimachine.Image.Aliases.{AliasError, Table, resolve_aliases, resolve_aliases-ends}
use minimachine.Image.Aliases
use minimachine.Image.Resolved.{Extends, IsResolved, resolve_aliases-IsResolved}
use minimachine.Prelude.{All}
use minimachine.Prelude.Dict
use minimachine.Prelude.Int.{mod_ℤ, ◌+ℤ◌}
use minimachine.Samples.{main, result_or}

main-IsStrict : IsStrict main
main-IsStrict = (verify_p3-IsStrict main).0 (unfold Verify.verify_p3 Verify.check_all in refl)

abbrev main_object : Json
main_object = result_or Json.null (function_to_obj main)

main_encodes : function_to_obj main ≡ ok main_object
unfolding function_to_obj Encode.body_to_obj Encode.items_to_obj Encode.block_to_obj
    Encode.instr_to_obj Encode.operand_to_obj Encode.value_to_obj Encode.address_to_obj
    Encode.target_to_obj Encode.cond_name
main_encodes = refl

main_has_block : not (Verify.is_nil main.blocks) ≡ true
unfolding Verify.is_nil
main_has_block = refl

function_from_obj-function_to_obj_example :
    (has_sorted_keys main_object ≡ true)
    × (function_from_obj main_object ≡ ok (with_sorted_slots main))
function_from_obj-function_to_obj_example =
    function_from_obj-function_to_obj main main_object main-IsStrict main_has_block main_encodes

-- Libraries that know the one object.
abbrev sample_library : Library
sample_library = record {
  dumps = λ j. 123 ∷ 125 ∷ [];
  loads = λ bs. some main_object;
  compress = λ bs. bs;
  decompress = λ bs. some bs;
  b64encode = λ bs. "";
  b64decode = λ s. none;
}

sample-ReadsBack : ReadsBack sample_library main
sample-ReadsBack = record {
  loads-dumps = λ j e. ap some (ok-injective (sym main_encodes ∙ e));
  decompress-compress = λ bs. refl;
}

abbrev main_file : Bytes
main_file = result_or [] (build_flat sample_library main (pos 65536) true true)

main_builds : build_flat sample_library main (pos 65536) true true ≡ ok main_file
unfolding build_flat Payload.pack_user_payload Payload.dumps_function Payload.with_header
    Payload.pack_words Payload.pack_word Flat.wrap_payload Flat.align_up Flat.is_power
    Flat.check_stack_size Flat.zeros function_to_obj Encode.body_to_obj Encode.items_to_obj
    Encode.block_to_obj Encode.instr_to_obj Encode.operand_to_obj Encode.value_to_obj
    Encode.address_to_obj Encode.target_to_obj Encode.cond_name
main_builds = refl

extract_flat_payload-build_flat_example :
    extract_flat_payload sample_library main_file ≡ ok (with_sorted_slots main)
extract_flat_payload-build_flat_example =
    extract_flat_payload-build_flat sample_library main (pos 65536) true true main_file
      sample-ReadsBack main-IsStrict main_has_block main_builds

rewrite_function-IsStrict_example :
    (g : P3.Function) × (rewrite_function (("main", "__mm_user_main") ∷ []) main ≡ ok g)
    × IsStrict g
    × (Verify.p3_labels g ≡ Verify.p3_labels main)
    × (g.name ≡ rename (("main", "__mm_user_main") ∷ []) main.name)
    × (g.frame_slots ≡ main.frame_slots)
rewrite_function-IsStrict_example =
    rewrite_function-IsStrict (("main", "__mm_user_main") ∷ []) main main-IsStrict

-- A program with one function and a data image.
abbrev bundle : UserProgramImage
bundle = record {
  entry = "main";
  functions = main ∷ [];
  image = some (record {
    objects = [];
    aliases = [];
    external_data = "stdout" ∷ [];
    external_functions = "puts" ∷ [];
    skipped_linker_metadata = [];
    undef_bytes = pos 0;
  });
  entry_args = "none";
  runtime_helpers = [];
}

bundle_ok : check_program bundle ≡ ok tt
unfolding check_program Verify.is_nil Verify.to_set Verify.elem
bundle_ok = refl

namespace_user_program-prefixed_example :
    (q : UserProgramImage) × (namespace_user_program "__mm_user_" "__mm_user_ext_" bundle ≡ ok q)
    × (function_names q.functions ≡ prefixed "__mm_user_" (function_names bundle.functions))
    × (q.entry ≡ "__mm_user_" +++ bundle.entry)
namespace_user_program-prefixed_example =
    namespace_user_program-prefixed "__mm_user_" "__mm_user_ext_" bundle bundle_ok
      (main-IsStrict, tt)

-- An alias that stands before the one it goes through.
abbrev chained_aliases : List ImageAlias
chained_aliases =
    record { name = "b"; target = record { symbol = "a"; addend = pos 4 } }
    ∷ record { name = "a"; target = record { symbol = "main"; addend = pos 0 } }
    ∷ []

resolve_aliases-ends_example :
    (r : Result AliasError Table) × (resolve_aliases 2 chained_aliases (("main", 4096) ∷ [])
      ≡ some r)
resolve_aliases-ends_example =
    resolve_aliases-ends 2 chained_aliases (("main", 4096) ∷ []) (omega arith)

abbrev resolved_table : Table
resolved_table = ("main", 4096) ∷ ("a", 4096) ∷ ("b", 4100) ∷ []

aliases_resolved :
    resolve_aliases 2 chained_aliases (("main", 4096) ∷ []) ≡ some (ok resolved_table)
unfolding resolve_aliases Aliases.round Dict.get Dict.put mod_ℤ ◌+ℤ◌
aliases_resolved = refl

resolve_aliases-IsResolved_example :
    Extends (("main", 4096) ∷ []) resolved_table × All (IsResolved resolved_table) chained_aliases
resolve_aliases-IsResolved_example =
    resolve_aliases-IsResolved 2 chained_aliases (("main", 4096) ∷ []) resolved_table
      aliases_resolved
