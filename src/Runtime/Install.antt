-- ===== src/Runtime/Install.antt =====
-- `install_direct_runtime`, `accelerate_direct_runtime` and `install_runtime`
-- (src/minimachine/runtime.py): the loops that give a program its host services. A symbol comes
-- with the callback that the source finds for it, if any.
pub mod Installed
use minimachine.Prelude.{
  ℕ, String, Bool, true, false, List, [], ◌∷◌, ◌++◌, Option, none, some, ok, err, if◌then◌else◌,
  string_eq,
}
use minimachine.Prelude.Dict
use minimachine.Prelude.Dict.{contains}
use minimachine.Exec.{Exec, pure, ◌>>=◌, ◌>>◌}
use minimachine.Vm.{HostService}
use minimachine.Program.{Program}
use minimachine.Program.Link
use minimachine.Program.Link.{register_service, register_system, replace_function_with_service}

abbrev pub Found : Type 0
Found = List (String × Option HostService)

-- `if symbol in program.symbol_addresses: continue`
unfoldable pub register_new : String → HostService → Exec Program (Unit {0})
register_new symbol callback p = elim (contains p.symbol_addresses symbol) [
  | true ↦ (ok tt, p)
  | false ↦ register_service symbol callback p
]

-- `if symbol not in program.functions: continue`
unfoldable pub accelerate_one : String → HostService → Exec Program (List String)
accelerate_one symbol callback p = elim (contains p.functions symbol) [
  | false ↦ (ok [], p)
  | true ↦ (replace_function_with_service symbol callback >> pure (symbol ∷ [])) p
]

unfoldable pub install_direct_runtime : Found → Exec Program (Unit {0})
install_direct_runtime [] = pure tt
install_direct_runtime ((symbol, none) ∷ rest) = install_direct_runtime rest
install_direct_runtime ((symbol, some callback) ∷ rest) = do
  register_new symbol callback
  install_direct_runtime rest

-- The symbols that the program has bodies for, and which are accelerated.
unfoldable pub accelerate_direct_runtime : Found → Exec Program (List String)
accelerate_direct_runtime [] = pure []
accelerate_direct_runtime ((symbol, none) ∷ rest) = accelerate_direct_runtime rest
accelerate_direct_runtime ((symbol, some callback) ∷ rest) = do
  done ← accelerate_one symbol callback
  others ← accelerate_direct_runtime rest
  pure (done ++ others)

-- The loop over the helpers, which collects those without a callback.
unfoldable pub install_helpers : Found → Exec Program (List String)
install_helpers [] = pure []
install_helpers ((symbol, none) ∷ rest) = do missing ← install_helpers rest; pure (symbol ∷ missing)
install_helpers ((symbol, some callback) ∷ rest) = do
  register_service symbol callback
  install_helpers rest

unfoldable pub install_systems : Found → Exec Program (List String)
install_systems [] = pure []
install_systems ((op, none) ∷ rest) = do missing ← install_systems rest; pure (op ∷ missing)
install_systems ((op, some callback) ∷ rest) = do register_system op callback; install_systems rest

-- The helpers and the operations come sorted; those that are missing are returned.
unfoldable pub install_runtime : Found → Found → Found → Exec Program (List String × List String)
install_runtime direct helpers systems = do
  install_direct_runtime direct
  missing_helpers ← install_helpers helpers
  missing_systems ← install_systems systems
  pure (missing_helpers, missing_systems)
