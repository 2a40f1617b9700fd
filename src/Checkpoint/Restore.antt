-- ===== src/Checkpoint/Restore.antt =====
-- A snapshot that is loaded again (src/minimachine/checkpoint.py) gives back the machine.
use minimachine.Prelude.{ℕ, ◌≡◌, Option, none, some, [], ◌∷◌, nat_eq, string_eq}
use minimachine.Prelude.Dict
use minimachine.Prelude.Dict.{Dict}
use minimachine.Memory.{SparseMemory}

-- No key twice.
abbrev pub HasUniqueKeys : Dict ℕ ℕ → Type 0
HasUniqueKeys [] = Unit
HasUniqueKeys ((a, v) ∷ d) = (Dict.get d a ≡ none) × HasUniqueKeys d

abbrev or_else : Option ℕ → Option ℕ → Option ℕ
or_else none o = o
or_else (some v) o = some v

-- A cell that is not there holds 0.
abbrev number : Option ℕ → ℕ
number none = 0
number (some v) = v

module _ (baseline : SparseMemory) where
  -- What is found in the cells that differ, or else in the baseline.
  abbrev found : Dict ℕ ℕ → ℕ → Option ℕ
  found cells a = or_else (Dict.get cells a) (Dict.get baseline.bytes a)
