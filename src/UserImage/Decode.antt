-- ===== src/UserImage/Decode.antt =====
-- Functions and images from JSON objects (src/minimachine/user_image.py, the `_from_obj`
-- functions). Where Python would build a value with a field of another type, or with a negative
-- `src_bits`, which `verify_p3` refuses, this model raises `type_error`.
use Prim.Native.Char.{code}
use minimachine.Prelude.{
  ℕ, ◌+◌, ◌*◌, ◌-◌, String, Bool, true, false, not, ◌&&◌, ◌||◌, leb, nat_eqb, ◌==◌, string_eq,
  if◌then◌else◌, Option, none, some, List, [], ◌∷◌, Result, ok, err, ◌>>=◌, ◌>>◌, require,
}
use minimachine.Prelude.Int.{ℤ, pos, negsuc, neg_ℤ}
use minimachine.Muir.{Width, Cond, Value, Address, Operand, Target, i8, i16, i32, i64}
use minimachine.P3
use minimachine.Verify.{to_set, is_nil}
use minimachine.Json.{Json, Items, null, bool, int, text, list, dict, nil, item, lookup}
use minimachine.UserImage.{
  UserImageError, unsupported_width, unsupported_special, unsupported_kind, unsupported_condition,
  unsupported_op, unsupported_format, missing_function, no_blocks, key_error, type_error,
}
use minimachine.UserImage.Encode.{format}

abbrev pub Decoded : Type 0 → Type 0
Decoded A = Result UserImageError A

-- `obj.get(key)`
unfoldable pub get_key : Json → String → Decoded (Option Json)
get_key (dict es) key = ok (lookup es key)
get_key _ key = err type_error

abbrev found : String → Option Json → Decoded Json
found key none = err (key_error key)
found key (some j) = ok j

-- `obj[key]`
unfoldable pub field : Json → String → Decoded Json
field (dict es) key = found key (lookup es key)
field _ key = err type_error

unfoldable pub as_text : Json → Decoded String
as_text (text s) = ok s
as_text _ = err type_error

abbrev pub is_space : ℕ → Bool
is_space c = (leb 9 c && leb c 13) || nat_eqb c 32

unfoldable pub skip_spaces : String → String
skip_spaces String.[] = ""
skip_spaces (String.◌∷◌ c s) =
    let rest = skip_spaces s in if is_space (code c) then rest else String.◌∷◌ c s

-- The digits of a number, with `_` between two of them, and spaces at the end. The flag says that a
-- digit came last.
unfoldable pub read_digits : Bool → ℕ → String → Option ℕ
read_digits seen n String.[] = if seen then some n else none
read_digits seen n (String.◌∷◌ c s) =
    let next = read_digits true (n * 10 + (code c - 48)) s in
    let after = read_digits false n s in
    if leb 48 (code c) && leb (code c) 57
    then next
    else if nat_eqb (code c) 95 && seen
    then after
    else if seen && skip_spaces (String.◌∷◌ c s) == ""
    then some n
    else none

abbrev pub number_or_error : Option ℕ → (ℕ → ℤ) → Decoded ℤ
number_or_error none f = err type_error
number_or_error (some n) f = ok (f n)

unfoldable pub signed_number : String → Decoded ℤ
signed_number String.[] = err type_error
signed_number (String.◌∷◌ c s) =
    if nat_eqb (code c) 45
    then number_or_error (read_digits false 0 s) (λ n. neg_ℤ (pos n))
    else if nat_eqb (code c) 43
    then number_or_error (read_digits false 0 s) pos
    else number_or_error (read_digits false 0 (String.◌∷◌ c s)) pos

-- `int(j)`, with the decimal digits of ASCII in a text.
unfoldable pub as_int : Json → Decoded ℤ
as_int (int n) = ok n
as_int (bool true) = ok (pos 1)
as_int (bool false) = ok (pos 0)
as_int (text s) = signed_number (skip_spaces s)
as_int _ = err type_error

abbrev pub int_or_zero : Option Json → Decoded ℤ
int_or_zero none = ok (pos 0)
int_or_zero (some j) = as_int j

-- `[f(x) for x in items]`
unfoldable pub items_from_obj : {A : Type 0} → (Json → Decoded A) → Items → Decoded (List A)
items_from_obj f nil = ok []
items_from_obj f (item j is) = do x ← f j; xs ← items_from_obj f is; ok (x ∷ xs)

-- A list, or nothing when the key is missing.
unfoldable pub list_from_obj : {A : Type 0} → (Json → Decoded A) → Option Json → Decoded (List A)
list_from_obj f none = ok []
list_from_obj f (some (list is)) = items_from_obj f is
list_from_obj f (some _) = err type_error

unfoldable pub width_from : ℤ → Decoded Width
width_from (negsuc n) = err (unsupported_width (negsuc n))
width_from (pos n) =
    if nat_eqb n 8
    then ok i8
    else if nat_eqb n 16
    then ok i16
    else if nat_eqb n 32
    then ok i32
    else if nat_eqb n 64
    then ok i64
    else err (unsupported_width (pos n))

unfoldable pub width_field : Json → Decoded Width
width_field obj = do j ← field obj "width"; n ← as_int j; width_from n

unfoldable pub text_field : Json → String → Decoded String
text_field obj key = do j ← field obj key; as_text j

unfoldable pub special_from : String → Decoded Value
special_from name = if name == "sp" then ok Value.sp else err (unsupported_special name)

abbrev pub is_kind : String → Option Json → Bool
is_kind name (some (text s)) = s == name
is_kind name _ = false

unfoldable pub value_from_obj : Json → Decoded Value
value_from_obj obj = do
  kind ← get_key obj "kind"
  (if is_kind "slot" kind
      then (do name ← text_field obj "name"; ok (Value.slot name))
      else if is_kind "imm" kind
      then (do j ← field obj "value"; n ← as_int j; ok (Value.imm n))
      else if is_kind "symbol" kind
      then (do name ← text_field obj "name"; ok (Value.symbol name))
      else if is_kind "reloc" kind
      then (do
        name ← text_field obj "symbol"
        addend ← get_key obj "addend" >>= int_or_zero
        ok (Value.reloc name addend))
      else if is_kind "block_addr" kind
      then (do
        function ← text_field obj "function"
        label ← text_field obj "label"
        ok (Value.block_addr function label))
      else if is_kind "special" kind
      then text_field obj "name" >>= special_from
      else err unsupported_kind)

unfoldable pub address_from_obj : Json → Decoded Address
address_from_obj obj = do
  base ← field obj "base" >>= value_from_obj
  offset ← get_key obj "offset" >>= int_or_zero
  ok (record { base = base; offset = offset })

unfoldable pub operand_from_obj : Json → Decoded Operand
operand_from_obj obj = do
  kind ← get_key obj "kind"
  (if is_kind "mem" kind
      then (do
        address ← field obj "address" >>= address_from_obj
        width ← width_field obj
        ok (Operand.mem address width))
      else if is_kind "value" kind
      then (do v ← field obj "value" >>= value_from_obj; ok (Operand.value v))
      else err unsupported_kind)

abbrev pub no_target : Target
no_target = record { label = none; symbol = none; slot = none; address = none }

unfoldable pub target_from_obj : Json → Decoded Target
target_from_obj obj = do
  kind ← get_key obj "kind"
  (if is_kind "label" kind
      then (do l ← text_field obj "label"; ok (record no_target { label = some l }))
      else if is_kind "symbol" kind
      then (do s ← text_field obj "symbol"; ok (record no_target { symbol = some s }))
      else if is_kind "slot" kind
      then (do s ← text_field obj "slot"; ok (record no_target { slot = some s }))
      else if is_kind "address" kind
      then (do
        a ← field obj "address" >>= address_from_obj
        ok (record no_target { address = some a }))
      else err unsupported_kind)

unfoldable pub cond_from : String → Decoded Cond
cond_from name =
    if name == "eq"
    then ok Cond.eq
    else if name == "slt"
    then ok Cond.slt
    else if name == "ult"
    then ok Cond.ult
    else err (unsupported_condition name)

unfoldable pub optional_text : Option Json → Decoded (Option String)
optional_text none = ok none
optional_text (some null) = ok none
optional_text (some (text s)) = ok (some s)
optional_text (some _) = err type_error

abbrev not_negative : ℤ → Decoded (Option ℕ)
not_negative (pos n) = ok (some n)
not_negative (negsuc n) = err type_error

unfoldable pub optional_bits : Option Json → Decoded (Option ℕ)
optional_bits none = ok none
optional_bits (some null) = ok none
optional_bits (some j) = as_int j >>= not_negative

unfoldable pub mov_from_obj : Json → Decoded P3.Instr
mov_from_obj obj = do
  width ← width_field obj
  dst ← field obj "dst" >>= operand_from_obj
  src ← field obj "src" >>= operand_from_obj
  extend ← get_key obj "extend" >>= optional_text
  src_bits ← get_key obj "src_bits" >>= optional_bits
  ok (
      P3.Instr.mov
        (record { width = width; dst = dst; src = src; extend = extend; src_bits = src_bits }))

unfoldable pub sub_from_obj : Json → Decoded P3.Instr
sub_from_obj obj = do
  width ← width_field obj
  dst ← text_field obj "dst"
  a ← field obj "a" >>= value_from_obj
  b ← field obj "b" >>= value_from_obj
  ok (P3.Instr.sub (record { width = width; dst = dst; a = a; b = b }))

unfoldable pub br_from_obj : Json → Decoded P3.Instr
br_from_obj obj = do
  cond ← text_field obj "cond" >>= cond_from
  width ← width_field obj
  a ← field obj "a" >>= value_from_obj
  b ← field obj "b" >>= value_from_obj
  true_target ← field obj "true" >>= target_from_obj
  false_target ← field obj "false" >>= target_from_obj
  ok (
      P3.Instr.br (record {
        width = width;
        cond = cond;
        a = a;
        b = b;
        true_target = true_target;
        false_target = false_target;
      }))

unfoldable pub instr_from_obj : Json → Decoded P3.Instr
instr_from_obj obj = do
  op ← get_key obj "op"
  (if is_kind "mov" op
      then mov_from_obj obj
      else if is_kind "sub" op
      then sub_from_obj obj
      else if is_kind "br" op
      then br_from_obj obj
      else err unsupported_op)

unfoldable pub block_from_obj : Json → Decoded P3.Block
block_from_obj obj = do
  label ← text_field obj "label"
  instructions ← get_key obj "instructions" >>= list_from_obj instr_from_obj
  ok (record { label = label; instructions = instructions })

-- The function under the key "function".
unfoldable pub body_from_obj : Json → Decoded P3.Function
body_from_obj obj = do
  blocks ← get_key obj "blocks" >>= list_from_obj block_from_obj
  require (not (is_nil blocks)) no_blocks
  name ← text_field obj "name"
  slots ← get_key obj "frame_slots" >>= list_from_obj as_text
  ok (record { name = name; blocks = blocks; frame_slots = to_set slots })

-- `isinstance(fn, dict)`
unfoldable pub function_body : Option Json → Decoded P3.Function
function_body (some (dict es)) = body_from_obj (dict es)
function_body _ = err missing_function

unfoldable pub function_from_obj : Json → Decoded P3.Function
function_from_obj obj = do
  found_format ← get_key obj "format"
  require (is_kind format found_format) unsupported_format
  body ← get_key obj "function"
  function_body body
