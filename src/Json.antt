-- ===== src/Json.antt =====
-- JSON as Python's json module reads and writes it, as far as the program's files use it: a number
-- is an integer. A dict is listed in the order of its keys, which is how `sort_keys=True` writes it.
use Prim.Native.Nat.{Ordering}
use Prim.Native.String.{compare}
use minimachine.Prelude.{
  String, Bool, true, false, ◌&&◌, not, Option, none, some, if◌then◌else◌, nat_eqb, ◌==◌, string_eq,
}
use minimachine.Prelude.Int.{ℤ, pos, negsuc}

mutual
  pub data Json : Type 0 where
    null : Json
    bool : Bool → Json
    int : ℤ → Json
    text : String → Json
    list : Items → Json
    dict : Entries → Json

  pub data Items : Type 0 where
    nil : Items
    item : Json → Items → Items

  pub data Entries : Type 0 where
    end : Entries
    entry : String → Json → Entries → Entries

unfoldable pub lookup : Entries → String → Option Json
lookup end key = none
lookup (entry k j es) key = if k == key then some j else lookup es key

abbrev pub is_less : String → String → Bool
is_less a b = elim (compare a b) [ Ordering.lt ↦ true | _ ↦ false ]

-- Whether the first key, if any, comes after a key.
unfoldable pub follows : String → Entries → Bool
follows key end = true
follows key (entry k j es) = is_less key k

unfoldable mutual
  pub has_sorted_keys : Json → Bool
  has_sorted_keys null = true
  has_sorted_keys (bool b) = true
  has_sorted_keys (int n) = true
  has_sorted_keys (text s) = true
  has_sorted_keys (list is) = are_items_sorted is
  has_sorted_keys (dict es) = are_entries_sorted es

  pub are_items_sorted : Items → Bool
  are_items_sorted nil = true
  are_items_sorted (item j is) = has_sorted_keys j && are_items_sorted is

  pub are_entries_sorted : Entries → Bool
  are_entries_sorted end = true
  are_entries_sorted (entry k j es) = follows k es && has_sorted_keys j && are_entries_sorted es

-- `bool(j)`
unfoldable pub truth : Json → Bool
truth null = false
truth (bool b) = b
truth (int (pos n)) = not (nat_eqb n 0)
truth (int (negsuc n)) = true
truth (text s) = not (s == "")
truth (list nil) = false
truth (list (item j is)) = true
truth (dict end) = false
truth (dict (entry k j es)) = true
