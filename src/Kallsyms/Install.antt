-- ===== src/Kallsyms/Install.antt =====
-- `install_p3_kallsyms` (src/minimachine/kallsyms.py): the tables become data of the program.
use minimachine.Prelude.{
  ℕ, String, Bool, true, false, List, [], ◌∷◌, ◌++◌, ◌==◌, ◌||◌, length, Result, ok, err,
  if◌then◌else◌, string_eq,
}
use minimachine.Prelude.Dict.{contains}
use minimachine.Error.{VmError}
use minimachine.Exec.{Exec, pure, ◌>>=◌}
use minimachine.Program.{Program}
use minimachine.Program.Slots.{sorted}
use minimachine.Program.Link
use minimachine.Kallsyms.{KallsymsError, KallsymsImage, build_p3_kallsyms, pack}

abbrev pub kallsyms_required : List String
kallsyms_required =
    "kallsyms_num_syms" ∷ "kallsyms_offsets" ∷ "kallsyms_names" ∷ "kallsyms_relative_base"
    ∷ "kallsyms_token_table" ∷ "kallsyms_token_index" ∷ "kallsyms_markers"
    ∷ "kallsyms_seqs_of_names" ∷ []

-- `VMError` of the tables, or of the program that takes them.
pub data InstallError : Type 0 where
  building : KallsymsError → InstallError
  defining : VmError → InstallError

-- The name, bytes and alignment of each table.
unfoldable pub payloads : KallsymsImage → List (String × List ℕ × ℕ)
payloads image =
    ("kallsyms_num_syms", pack 4 (length image.symbols), 4)
    ∷ ("kallsyms_offsets", image.offsets, 4)
    ∷ ("kallsyms_names", image.names, 1)
    ∷ ("kallsyms_relative_base", pack 8 image.relative_base, 8)
    ∷ ("kallsyms_token_table", image.token_table, 1)
    ∷ ("kallsyms_token_index", image.token_index, 2)
    ∷ ("kallsyms_markers", image.markers, 4)
    ∷ ("kallsyms_seqs_of_names", image.seqs_of_names, 1)
    ∷ []

unfoldable pub install_one : String → List ℕ → ℕ → Exec Program (List String)
install_one name bytes align p = elim (contains p.symbol_addresses name) [
  | true ↦ pure [] p
  | false ↦ (Link.define_data_symbol name bytes align >>= λ address. pure (name ∷ [])) p
]

-- The loop over the payloads.
unfoldable pub install_all : List (String × List ℕ × ℕ) → Exec Program (List String)
install_all [] = pure []
install_all ((name, bytes, align) ∷ rest) =
    install_one name bytes align >>= λ one. install_all rest >>= λ names. pure (one ++ names)

unfoldable pub has_all : Program → List String → Bool
has_all p [] = true
has_all p (name ∷ names) = if contains p.symbol_addresses name then has_all p names else false

-- An error of the program is one of the installation.
unfoldable pub as_defining :
    Result VmError (List String) × Program → Result InstallError (List String) × Program
as_defining (ok names, q) = (ok names, q)
as_defining (err e, q) = (err (defining e), q)

unfoldable pub install_image :
    Result KallsymsError KallsymsImage → Program → Result InstallError (List String) × Program
install_image (err e) p = (err (building e), p)
install_image (ok image) p = as_defining (install_all (payloads image) p)

unfoldable pub is_member : String → List String → Bool
is_member x [] = false
is_member x (y ∷ ys) = (y == x) || is_member x ys

unfoldable pub install_p3_kallsyms :
    List String → Program → Result InstallError (List String) × Program
install_p3_kallsyms external_data p = elim (is_member "kallsyms_num_syms" external_data) [
  | false ↦ (ok [], p)
  | true ↦ elim (has_all p kallsyms_required) [
    | true ↦ (ok (sorted kallsyms_required), p)
    | false ↦ install_image (build_p3_kallsyms p) p
  ]
]
