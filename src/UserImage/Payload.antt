-- ===== src/UserImage/Payload.antt =====
-- Packed payloads and bFLT files of user programs (src/minimachine/user_image.py). The libraries
-- json, zlib and base64 are parameters.
use minimachine.Prelude.{
  ℕ, suc, zero, ◌+◌, ◌*◌, ◌/◌, ◌%◌, ◌^◌, String, Bool, true, false, ◌&&◌, ◌||◌, leb, ltb, nat_eqb,
  string_eq, if◌then◌else◌, Option, none, some, List, [], ◌∷◌, ◌++◌, length, ok, err, ◌>>=◌, ◌>>◌,
  require,
}
use minimachine.P3
use minimachine.Json.{Json, dict}
use minimachine.UserImage.{
  UserProgramImage, make_program, invalid_json, not_an_object, struct_error, truncated_payload,
  bad_payload_magic, unsupported_payload_version, truncated_body, invalid_compressed,
}
use minimachine.UserImage.Encode.{function_to_obj, program_to_obj}
use minimachine.UserImage.Decode.{Decoded, function_from_obj}
use minimachine.UserImage.DecodeImage.{program_from_obj}

abbrev pub Bytes : Type 0
Bytes = List ℕ

-- What the code uses of json, zlib and base64. `dumps` sorts the keys and encodes in UTF-8.
pub record Library : Type 0 where
  pub dumps : Json → Bytes
  pub loads : Bytes → Option Json
  pub compress : Bytes → Bytes
  pub decompress : Bytes → Option Bytes
  pub b64encode : Bytes → String
  pub b64decode : String → Option Bytes

abbrev pub is_object : Json → Bool
is_object (dict es) = true
is_object _ = false

-- A result of json that must be a dict.
unfoldable pub as_object : Option Json → Decoded Json
as_object none = err invalid_json
as_object (some j) = do require (is_object j) not_an_object; ok j

-- `data[:n]` and `data[n:]`
unfoldable pub take : ℕ → Bytes → Bytes
take zero bs = []
take (suc n) [] = []
take (suc n) (b ∷ bs) = b ∷ take n bs

unfoldable pub drop : ℕ → Bytes → Bytes
drop zero bs = bs
drop (suc n) [] = []
drop (suc n) (b ∷ bs) = drop n bs

-- One `I` of a big-endian `struct.pack`.
unfoldable pub pack_word : ℕ → Decoded Bytes
pack_word n =
    if ltb n (2 ^ 32)
    then ok (n / 2 ^ 24 ∷ n / 2 ^ 16 % 256 ∷ n / 2 ^ 8 % 256 ∷ n % 256 ∷ [])
    else err struct_error

unfoldable pub pack_words : List ℕ → Decoded Bytes
pack_words [] = ok []
pack_words (n ∷ ns) = do bs ← pack_word n; rest ← pack_words ns; ok (bs ++ rest)

-- The words of a big-endian `struct.unpack`.
unfoldable pub unpack_words : Bytes → List ℕ
unpack_words (a ∷ b ∷ c ∷ d ∷ bs) = (((a * 2 ^ 8 + b) * 2 ^ 8 + c) * 2 ^ 8 + d) ∷ unpack_words bs
unpack_words _ = []

unfoldable pub same_bytes : Bytes → Bytes → Bool
same_bytes [] [] = true
same_bytes (a ∷ xs) (b ∷ ys) = nat_eqb a b && same_bytes xs ys
same_bytes _ _ = false

-- b"MMP3" and b"bFLT"
abbrev pub payload_magic : Bytes
payload_magic = 77 ∷ 77 ∷ 80 ∷ 51 ∷ []

abbrev pub flat_magic : Bytes
flat_magic = 98 ∷ 70 ∷ 76 ∷ 84 ∷ []

abbrev pub payload_header_size : ℕ
payload_header_size = 12

abbrev pub flat_header_size : ℕ
flat_header_size = 64

abbrev pub flat_version : ℕ
flat_version = 4

abbrev pub data_align : ℕ
data_align = 32

abbrev pub flag_ktrace : ℕ
flag_ktrace = 16

unfoldable pub with_header : ℕ → Bytes → Decoded Bytes
with_header version body = do
  header ← pack_words (version ∷ length body ∷ [])
  ok (payload_magic ++ header ++ body)

abbrev pub inflated : Option Bytes → Decoded Bytes
inflated none = err invalid_compressed
inflated (some raw) = ok raw

module _ (lib : Library) where
  unfoldable pub dumps_function : P3.Function → Decoded Bytes
  dumps_function f = do j ← function_to_obj f; ok (lib.dumps j)

  unfoldable pub loads_function : Bytes → Decoded P3.Function
  loads_function bytes = do j ← as_object (lib.loads bytes); function_from_obj j

  unfoldable pub dumps_program : UserProgramImage → Decoded Bytes
  dumps_program p = do j ← program_to_obj lib.b64encode p; ok (lib.dumps j)

  unfoldable pub loads_program : Bytes → Decoded UserProgramImage
  loads_program bytes = do j ← as_object (lib.loads bytes); program_from_obj lib.b64decode j

  -- Versions 1 and 2 hold a function, 3 and 4 a program; 2 and 4 are compressed.
  unfoldable pub pack_user_payload : P3.Function → Bool → Decoded Bytes
  pack_user_payload f compress = do
    raw ← dumps_function f
    (if compress then with_header 2 (lib.compress raw) else with_header 1 raw)

  unfoldable pub pack_user_program : UserProgramImage → Bool → Decoded Bytes
  pack_user_program p compress = do
    raw ← dumps_program p
    (if compress then with_header 4 (lib.compress raw) else with_header 3 raw)

  unfoldable pub inflate : Bytes → Decoded Bytes
  inflate body = inflated (lib.decompress body)

  -- The body, decompressed in versions 2 and 4.
  unfoldable pub body_of : ℕ → Bytes → Decoded Bytes
  body_of version body = if nat_eqb version 2 || nat_eqb version 4 then inflate body else ok body

  unfoldable pub read_body : (ℕ → Bool) → Bytes → List ℕ → Decoded (ℕ × Bytes)
  read_body allowed bytes (version ∷ size ∷ []) = do
    require (allowed version) (unsupported_payload_version version)
    require (leb (payload_header_size + size) (length bytes)) truncated_body
    body ← body_of version (take size (drop payload_header_size bytes))
    ok (version, body)
  read_body allowed bytes _ = err struct_error

  -- The version and the body of a payload whose version is allowed.
  unfoldable pub read_payload : (ℕ → Bool) → Bytes → Decoded (ℕ × Bytes)
  read_payload allowed bytes = do
    require (leb payload_header_size (length bytes)) truncated_payload
    require (same_bytes (take 4 bytes) payload_magic) bad_payload_magic
    read_body allowed bytes (unpack_words (take 8 (drop 4 bytes)))

  unfoldable pub unpack_user_image : Bytes → Decoded UserProgramImage
  unpack_user_image bytes = do
    payload ← read_payload (λ v. leb 1 v && leb v 4) bytes
    (if leb payload.0 2
        then (do
          f ← loads_function payload.1
          make_program (record {
            entry = f.name;
            functions = f ∷ [];
            image = none;
            entry_args = "none";
            runtime_helpers = [];
          }))
        else loads_program payload.1)

  unfoldable pub unpack_user_payload : Bytes → Decoded P3.Function
  unpack_user_payload bytes = do
    payload ← read_payload (λ v. leb 1 v && leb v 2) bytes
    loads_function payload.1
