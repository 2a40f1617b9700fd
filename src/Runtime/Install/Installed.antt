-- ===== src/Runtime/Install/Installed.antt =====
-- After `install_runtime` (src/minimachine/runtime.py) every host service of a program is one that
-- leaves the control state alone, so that the machine needs no further hypothesis on them.
use minimachine.Prelude.{nat_eq, String, ◌≡◌, [], ◌∷◌, none, some, string_eq}
use minimachine.Prelude.Dict
use minimachine.Vm.{Vm, HostService}
use minimachine.Program.{Program}
use minimachine.P3
use minimachine.Program.Linked.{IsLinked}
use minimachine.Runtime.Quiet.Helpers.{QuietService}
use minimachine.Runtime.Install.{Found}

-- Every host service of the program.
abbrev pub AllQuiet : Program → Type 0
AllQuiet p =
    (symbol : String) (callback : HostService)
    → Dict.get p.host_services symbol ≡ some callback
    → QuietService callback

-- Every callback that was found.
abbrev pub FoundQuiet : Found → Type 0
FoundQuiet [] = Unit
FoundQuiet ((symbol, none) ∷ rest) = FoundQuiet rest
FoundQuiet ((symbol, some callback) ∷ rest) = QuietService callback × FoundQuiet rest

-- A program whose tables agree and whose services are all quiet.
abbrev pub IsReady : Program → Type 0
IsReady p = IsLinked p × AllQuiet p
