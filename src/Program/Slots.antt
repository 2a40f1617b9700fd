-- ===== src/Program/Slots.antt =====
-- The frame layout of a function: `sorted(function.frame_slots)` and the offset of each slot
-- (`add_function` of src/minimachine/vm.py).
use Prim.Native.Nat.{Ordering}
use Prim.Native.String.{compare}
use minimachine.Prelude.{ℕ, suc, ◌+◌, ◌*◌, String, Bool, true, false, List, [], ◌∷◌, if◌then◌else◌}
use minimachine.Prelude.Dict.{Dict}
use minimachine.Abi.Frame.{header_size, word}

-- `a <= b` on texts, by code points.
abbrev pub str_leb : String → String → Bool
str_leb a b = elim (compare a b) [ Ordering.gt ↦ false | _ ↦ true ]

unfoldable pub insert_sorted : String → List String → List String
insert_sorted x [] = x ∷ []
insert_sorted x (y ∷ ys) =
    let rest = insert_sorted x ys in if str_leb x y then x ∷ y ∷ ys else y ∷ rest

unfoldable pub sorted : List String → List String
unfolding insert_sorted
sorted [] = []
sorted (x ∷ xs) = insert_sorted x (sorted xs)

-- `{name: HEADER_SIZE + i * WORD for i, name in enumerate(names)}`, from index `i` on.
unfoldable pub offsets_from : ℕ → List String → Dict String ℕ
offsets_from i [] = []
offsets_from i (name ∷ names) = (name, header_size + i * word) ∷ offsets_from (suc i) names

unfoldable pub slot_offsets_of : List String → Dict String ℕ
unfolding sorted offsets_from
slot_offsets_of frame_slots = offsets_from 0 (sorted frame_slots)
