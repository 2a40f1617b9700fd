-- ===== src/Abi/Builder.antt =====
-- What the expansion keeps (src/minimachine/abi.py): `_Builder` and `AbiStats`, and the names of
-- temporaries and labels.
use minimachine.Prelude.{ℕ, ◌+◌, String, ◌+++◌, List, [], ◌∷◌, Result, ok, err, if◌then◌else◌}
use minimachine.Muir
use minimachine.Verify.{elem, VerifyError}
use minimachine.Abi.Names.{decimal}

pub data AbiError : Type 0 where
  invalid_callee_variant : AbiError
  empty_system_operation : AbiError
  verify_error : VerifyError → AbiError
  -- `assert`
  assertion_failed : AbiError

pub record AbiStats : Type 0 where
  pub calls : ℕ
  pub helpers : ℕ
  pub system_ops : ℕ
  pub returns : ℕ
  pub continuation_blocks : ℕ
  pub argument_loads : ℕ

abbrev pub no_stats : AbiStats
no_stats = record {
  calls = 0;
  helpers = 0;
  system_ops = 0;
  returns = 0;
  continuation_blocks = 0;
  argument_loads = 0;
}

-- `AbiStats.as_dict`
unfoldable pub as_dict : AbiStats → List (String × ℕ)
as_dict s =
    ("calls", s.calls)
    ∷ ("helpers", s.helpers)
    ∷ ("system_ops", s.system_ops)
    ∷ ("returns", s.returns)
    ∷ ("continuation_blocks", s.continuation_blocks)
    ∷ ("argument_loads", s.argument_loads)
    ∷ []

-- The set of slots is a list without repetitions.
pub record Builder : Type 0 where
  pub function : Muir.Function
  pub frame_slots : List String
  pub serial : ℕ
  pub stats : AbiStats

-- The pass changes the builder and the statistics, and an exception ends it: what it had built is
-- lost then.
abbrev pub Build {ℓ} : Type ℓ → Type ℓ
Build A = Builder → Result AbiError (A × Builder)

abbrev pub continue {ℓ κ} :
    {A : Type ℓ} {B : Type κ}
    → Result AbiError (A × Builder)
    → (A → Build B)
    → Result AbiError (B × Builder)
continue (ok (a, s)) f = f a s
continue (err e) f = err e

infixl 10 ◌>>=◌ ◌>>◌
abbrev pub ◌>>=◌ {ℓ κ} : {A : Type ℓ} {B : Type κ} → Build A → (A → Build B) → Build B
◌>>=◌ m f s = continue (m s) f

abbrev pub ◌>>◌ {ℓ κ} : {A : Type ℓ} {B : Type κ} → Build A → Build B → Build B
m >> n = m >>= λ _. n

abbrev pub pure {ℓ} : {A : Type ℓ} → A → Build A
pure a s = ok (a, s)

abbrev pub raise {ℓ} : {A : Type ℓ} → AbiError → Build A
raise e s = err e

abbrev pub counting : (AbiStats → AbiStats) → Build (Unit {0})
counting f s = ok (tt, record s { stats = f s.stats })

unfoldable pub init_builder : Muir.Function → Builder
init_builder f = record { function = f; frame_slots = f.frame_slots; serial = 0; stats = no_stats }

-- `set.add`
unfoldable pub add_slot : String → List String → List String
add_slot name slots = if elem name slots then slots else name ∷ slots

-- `self.frame_slots.add(name)`
unfoldable pub declare : String → Build (Unit {0})
declare name s = ok (tt, record s { frame_slots = add_slot name s.frame_slots })

-- The name of a new slot.
unfoldable pub temp : String → Build String
temp stem s =
    let name = "__abi_" +++ stem +++ decimal (s.serial + 1) in
    ok (name, record s { serial = s.serial + 1; frame_slots = add_slot name s.frame_slots })

unfoldable pub new_label : String → String → Build String
new_label block stem s =
    ok (block +++ ".__abi_" +++ stem +++ decimal (s.serial + 1), record s { serial = s.serial + 1 })

-- `builder.function.name`
abbrev pub function_name : Build String
function_name s = ok (s.function.name, s)
