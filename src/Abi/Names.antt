-- ===== src/Abi/Names.antt =====
-- The names that the expansion makes (src/minimachine/abi.py): symbols of traps and of system
-- operations, and the decimal numbers of temporaries and labels.
use Prim.Native.String.{slice}
use Prim.Native.Char.{code}
use minimachine.Prelude.{
  ℕ, zero, suc, ◌+◌, ◌/◌, ◌%◌, String, ◌+++◌, Bool, true, false, ◌&&◌, ◌||◌, leb, nat_eqb,
  if◌then◌else◌,
}

-- `[A-Za-z0-9_]`
abbrev pub is_word : ℕ → Bool
is_word c =
    (leb 65 c && leb c 90) || (leb 97 c && leb c 122) || (leb 48 c && leb c 57) || nat_eqb c 95

-- `re.sub(r"[^A-Za-z0-9_]+", "_", s)`: a run of other characters becomes one `_`. The flag says that
-- the character before belongs to such a run.
unfoldable pub sub_runs : Bool → String → String
sub_runs inside String.[] = ""
sub_runs inside (String.◌∷◌ c s) =
    let after = sub_runs false s in
    let within = sub_runs true s in
    if is_word (code c) then String.◌∷◌ c after else if inside then within else "_" +++ within

unfoldable pub strip_left : String → String
strip_left String.[] = ""
strip_left (String.◌∷◌ c s) =
    let rest = strip_left s in if nat_eqb (code c) 95 then rest else String.◌∷◌ c s

unfoldable pub is_empty : String → Bool
is_empty String.[] = true
is_empty (String.◌∷◌ c s) = false

unfoldable pub strip_right : String → String
strip_right String.[] = ""
strip_right (String.◌∷◌ c s) =
    let rest = strip_right s in
    if nat_eqb (code c) 95 && is_empty rest then "" else String.◌∷◌ c rest

-- `.strip("_")` of the substitution
unfoldable pub tag : String → String
unfolding sub_runs strip_left strip_right
tag s = strip_right (strip_left (sub_runs false s))

abbrev digit : ℕ → String
digit n = slice "0123456789" n (n + 1)

-- The decimal digits of a number below `10 ^ fuel`.
unfoldable pub digits : ℕ → ℕ → String
digits zero n = ""
digits (suc fuel) n =
    let rest = digits fuel (n / 10) in if leb n 9 then digit n else rest +++ digit (n % 10)

-- A number as an f-string prints it; it has no more digits than it counts, plus one.
unfoldable pub decimal : ℕ → String
unfolding digits
decimal n = digits (n + 1) n
