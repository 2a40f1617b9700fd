-- ===== src/Kallsyms.antt =====
-- The kernel symbol tables (src/minimachine/kallsyms.py): the bytes that describe the entry
-- addresses of the functions of a linked program.
pub mod Length
pub mod Install
pub mod Installed
use Prim.Native.Char.{Char, code}
use minimachine.Prelude.{
  ℕ, zero, suc, ◌+◌, ◌-◌, ◌*◌, ◌/◌, ◌%◌, ◌^◌, min, String, ◌+++◌, Bool, true, false, ◌&&◌, ◌||◌,
  Option, none, some, List, [], ◌∷◌, ◌++◌, map, length, leb, ltb, nat_eqb, nat_eq, string_eq,
  pair_eq, ◌==◌, if◌then◌else◌, word_mod, Result, ok, err, ◌>>=◌, ◌>>◌, require,
}
use minimachine.Prelude.Dict
use minimachine.Prelude.Dict.{Dict}
use minimachine.P3
use minimachine.Program.{Program, LinkedFunction}
use minimachine.Program.Slots.{str_leb}

-- The `VMError`s of this file, and the `KeyError` of a block without a code.
pub data KallsymsError : Type 0 where
  empty_encoded_name : KallsymsError
  encoding_too_large : ℕ → KallsymsError
  no_functions : KallsymsError
  span_exceeds_u32 : String → KallsymsError
  nul_in_name : String → KallsymsError
  token_table_too_large : KallsymsError
  too_many_symbols : KallsymsError
  no_block_code : KallsymsError

abbrev pub Built {ℓ} : Type ℓ → Type ℓ
Built A = Result KallsymsError A

pub record KallsymsImage : Type 0 where
  pub symbols : List (String × ℕ)
  pub relative_base : ℕ
  pub offsets : List ℕ
  pub names : List ℕ
  pub markers : List ℕ
  pub token_table : List ℕ
  pub token_index : List ℕ
  pub seqs_of_names : List ℕ

-- `length & 0x7F` is `length % 128`, and `| 0x80` adds 128 to it.
unfoldable pub encode_len : ℕ → Built (List ℕ)
encode_len n =
    if leb n 0
    then err empty_encoded_name
    else if leb n 0x7F
    then ok (n ∷ [])
    else if ltb 0x3FFF n
    then err (encoding_too_large n)
    else ok ((n % 128 + 128) ∷ (n / 128 % 128) ∷ [])

-- The entry of a function that has blocks.
unfoldable pub entry_of :
    Program → String → List P3.Block → List (String × ℕ) → Built (List (String × ℕ))
entry_of p name [] rest = ok rest
entry_of p name (b ∷ bs) rest = with_code (Dict.get p.block_code (name, b.label))
  where
    with_code : Option ℕ → Built (List (String × ℕ))
    with_code (some entry) = ok ((name, entry % word_mod) ∷ rest)
    with_code none = err no_block_code

unfoldable pub entries : Program → Dict String LinkedFunction → Built (List (String × ℕ))
entries p [] = ok []
entries p ((name, lf) ∷ fs) = do rest ← entries p fs; entry_of p name lf.function.blocks rest

-- The order by address, then name.
unfoldable pub symbol_leb : String × ℕ → String × ℕ → Bool
symbol_leb (m, a) (n, b) = ltb a b || (nat_eqb a b && str_leb m n)

unfoldable pub insert_by {ℓ} : {A : Type ℓ} → (A → A → Bool) → A → List A → List A
insert_by leq x [] = x ∷ []
insert_by leq x (y ∷ ys) = let rest = insert_by leq x ys in if leq x y then x ∷ y ∷ ys else y ∷ rest

unfoldable pub sort_by {ℓ} : {A : Type ℓ} → (A → A → Bool) → List A → List A
sort_by leq [] = []
sort_by leq (x ∷ xs) = insert_by leq x (sort_by leq xs)

unfoldable pub function_symbols : Program → Built (List (String × ℕ))
function_symbols p = do es ← entries p p.functions; ok (sort_by symbol_leb es)

-- `struct.pack` little-endian, in `n` bytes.
unfoldable pub pack : ℕ → ℕ → List ℕ
pack zero v = []
pack (suc n) v = v % 256 ∷ pack n (v / 256)

-- The smallest address.
unfoldable pub base_of : List (String × ℕ) → ℕ → ℕ
base_of [] least = least
base_of ((n, a) ∷ es) least = base_of es (min a least)

-- No address lies below the base.
unfoldable pub pack_offsets : ℕ → List (String × ℕ) → Built (List ℕ)
pack_offsets base [] = ok []
pack_offsets base ((n, a) ∷ es) = do
  require (leb (a - base) 0xFFFF_FFFF) (span_exceeds_u32 n)
  rest ← pack_offsets base es
  ok (pack 4 (a - base) ++ rest)

-- The bytes of one character in UTF-8.
unfoldable pub utf8_char : ℕ → List ℕ
utf8_char c =
    if ltb c 128
    then c ∷ []
    else if ltb c 2048
    then (192 + c / 64) ∷ (128 + c % 64) ∷ []
    else if ltb c 65536
    then (224 + c / 4096) ∷ (128 + c / 64 % 64) ∷ (128 + c % 64) ∷ []
    else (240 + c / 262144) ∷ (128 + c / 4096 % 64) ∷ (128 + c / 64 % 64) ∷ (128 + c % 64) ∷ []

unfoldable pub utf8 : String → List ℕ
utf8 String.[] = []
utf8 (String.◌∷◌ c s) = utf8_char (code c) ++ utf8 s

unfoldable pub has_nul : List ℕ → Bool
has_nul [] = false
has_nul (b ∷ bs) = nat_eqb b 0 || has_nul bs

unfoldable pub encode_names : List (String × ℕ) → Built (List (List ℕ))
encode_names [] = ok []
encode_names ((n, a) ∷ es) = do
  require (if has_nul (utf8 ("t" +++ n)) then false else true) (nul_in_name n)
  rest ← encode_names es
  ok (utf8 ("t" +++ n) ∷ rest)

unfoldable pub has_byte : ℕ → List ℕ → Bool
has_byte b [] = false
has_byte b (c ∷ cs) = nat_eqb c b || has_byte b cs

unfoldable pub is_used : ℕ → List (List ℕ) → Bool
is_used b [] = nat_eqb b 0x74
is_used b (r ∷ rs) = has_byte b r || is_used b rs

-- The token table after its first byte and the offset of each byte's token, for the `n` bytes from
-- `b` on, when the table has `offset` bytes.
unfoldable pub tokens_from : ℕ → ℕ → ℕ → List (List ℕ) → List ℕ × List ℕ
tokens_from zero b offset raws = ([], [])
tokens_from (suc n) b offset raws =
    let used = tokens_from n (b + 1) (offset + 2) raws in
    let unused = tokens_from n (b + 1) offset raws in
    if is_used b raws then (b ∷ 0 ∷ used.0, offset ∷ used.1) else (unused.0, 0 ∷ unused.1)

unfoldable pub pack_index : List ℕ → Built (List ℕ)
pack_index [] = ok []
pack_index (o ∷ os) = do
  require (leb o 0xFFFF) token_table_too_large
  rest ← pack_index os
  ok (pack 2 o ++ rest)

-- The names, and a marker for each 256th of them: the number of bytes before it.
unfoldable pub pack_names : ℕ → ℕ → List (List ℕ) → Built (List ℕ × List ℕ)
pack_names index size [] = ok ([], [])
pack_names index size (raw ∷ raws) = do
  len ← encode_len (length raw)
  (names, markers) ← pack_names (index + 1) (size + length len + length raw) raws
  ok (len ++ raw ++ names, (if nat_eqb (index % 256) 0 then pack 4 size ++ markers else markers))

-- `enumerate`, from index `i` on
unfoldable pub numbered : ℕ → List (String × ℕ) → List (ℕ × String)
numbered i [] = []
numbered i ((n, a) ∷ es) = (i, n) ∷ numbered (i + 1) es

unfoldable pub name_leb : ℕ × String → ℕ × String → Bool
name_leb (i, m) (j, n) = str_leb m n

-- The sequence number in three bytes, highest first.
unfoldable pub pack_seqs : List (ℕ × String) → List ℕ
pack_seqs [] = []
pack_seqs ((i, n) ∷ es) = (i / 65536 % 256) ∷ (i / 256 % 256) ∷ (i % 256) ∷ pack_seqs es

unfoldable pub first_address : List (String × ℕ) → Built ℕ
first_address [] = err no_functions
first_address ((n, a) ∷ es) = ok (base_of es a)

unfoldable pub build_p3_kallsyms : Program → Built KallsymsImage
build_p3_kallsyms p = do
  symbols ← function_symbols p
  base ← first_address symbols
  offsets ← pack_offsets base symbols
  raws ← encode_names symbols
  let table = tokens_from 256 0 1 raws
  token_index ← pack_index table.1
  (names, markers) ← pack_names 0 0 raws
  require (leb (length symbols) 0xFF_FFFF) too_many_symbols
  ok (record {
    symbols = symbols;
    relative_base = base;
    offsets = offsets;
    names = names;
    markers = markers;
    token_table = 0 ∷ table.0;
    token_index = token_index;
    seqs_of_names = pack_seqs (sort_by name_leb (numbered 0 symbols));
  })
