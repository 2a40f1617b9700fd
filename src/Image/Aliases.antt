-- ===== src/Image/Aliases.antt =====
-- Aliases of a module image (src/minimachine/image.py, `install_module_image`): they may chain, and
-- are resolved round by round in the table of symbols.
use minimachine.Prelude.{
  subst, ℕ, zero, suc, ◌≤◌, ◌<◌, ◌≡◌, refl, String, Bool, true, false, Option, none, some, List, [],
  ◌∷◌, length, nat_eqb, if◌then◌else◌, Result, ok, err, ◌>>=◌, >>=-eq-ok, ok-injective,
  Result-cases, Option-cases, Bool-cases, inl, inr, arith, string_eq, word_mod,
}
use minimachine.Prelude.Int.{pos, ◌+ℤ◌, mod_ℤ}
use minimachine.Prelude.Dict
use minimachine.Prelude.Dict.{Dict}
use minimachine.Image.{ImageAlias}

pub data AliasError : Type 0 where
  duplicate_alias : String → AliasError
  unresolved_aliases : List ImageAlias → AliasError

abbrev pub Table : Type 0
Table = Dict String ℕ

abbrev pub put_alias : Table → String → ℕ → Option ℕ → Result AliasError Table
put_alias table name value none = ok (Dict.put table name value)
put_alias table name value (some known) =
    if nat_eqb known value then ok table else err (duplicate_alias name)

-- `(symbol_addresses[target.symbol] + target.addend) & MASK64`
abbrev pub alias_value : ImageAlias → ℕ → ℕ
alias_value a address = mod_ℤ (pos address +ℤ a.target.addend) word_mod

-- A round over the pending aliases: the table, those that are left, and whether one was resolved.
pub record Round : Type 0 where
  pub table : Table
  pub left : List ImageAlias
  pub progress : Bool

abbrev pub keeping : ImageAlias → Round → Round
keeping a r = record r { left = a ∷ r.left }

unfoldable pub round : List ImageAlias → Table → Result AliasError Round
round [] table = ok (record { table = table; left = []; progress = false })
round (a ∷ as_left) table = elim (Dict.get table a.target.symbol) [
  | none ↦ do r ← round as_left table; ok (keeping a r)
  | some address ↦ do
    placed ← put_alias table a.name (alias_value a address) (Dict.get table a.name)
    r ← round as_left placed
    ok (record r { progress = true })
]

-- `while pending`, with fuel.
unfoldable pub resolve_aliases : ℕ → List ImageAlias → Table → Option (Result AliasError Table)
resolve_aliases fuel [] table = some (ok table)
resolve_aliases zero (a ∷ pending) table = none
resolve_aliases (suc fuel) (a ∷ pending) table = elim (round (a ∷ pending) table) [
  | err e ↦ some (err e)
  | ok r ↦ elim r.progress [
    | false ↦ some (err (unresolved_aliases r.left))
    | true ↦ resolve_aliases fuel r.left r.table
  ]
]

-- No round makes more aliases, and one that resolves some leaves fewer.
round-fewer :
    (pending : List ImageAlias) (table : Table) (r : Round)
    → round pending table ≡ ok r
    → (length r.left ≤ length pending) × (r.progress ≡ true → length r.left < length pending)
unfolding round
round-fewer [] table r h =
    subst (λ (r : Round). (length r.left ≤ 0) × (r.progress ≡ true → length r.left < 0))
      (ok-injective h) (omega arith, λ e. absurd (cc))
round-fewer (a ∷ rest) table r h = elim (Option-cases (Dict.get table a.target.symbol)) [
  | inl e ↦
      let (s, f, g) = >>=-eq-ok (round rest table) _ (rw (e, round) at h) in
      let ih = round-fewer rest table s f in
      subst
        (λ (r : Round).
          (length r.left ≤ length (a ∷ rest))
          × (r.progress ≡ true → length r.left < length (a ∷ rest)))
        (ok-injective g) (omega (arith, ih.0), λ p. let lt = ih.1 p in omega (arith, lt))
  | inr (address, e) ↦
      let (placed, f, g) =
        >>=-eq-ok (put_alias table a.name (alias_value a address) (Dict.get table a.name)) _
          (rw (e, round) at h) in
      let (s, f', g') = >>=-eq-ok (round rest placed) _ g in
      let ih = round-fewer rest placed s f' in
      subst
        (λ (r : Round).
          (length r.left ≤ length (a ∷ rest))
          × (r.progress ≡ true → length r.left < length (a ∷ rest)))
        (ok-injective g') (omega (arith, ih.0), λ p. omega (arith, ih.0))
]

-- As many rounds as there are aliases are enough: the loop ends, with a table or with an exception.
pub resolve_aliases-ends :
    (fuel : ℕ) (pending : List ImageAlias) (table : Table)
    → length pending ≤ fuel
    → (r : Result AliasError Table) × (resolve_aliases fuel pending table ≡ some r)
unfolding resolve_aliases
resolve_aliases-ends fuel [] table h = (ok table, refl)
resolve_aliases-ends zero (a ∷ pending) table h = absurd (omega arith)
resolve_aliases-ends (suc fuel) (a ∷ pending) table h =
    elim (Result-cases (round (a ∷ pending) table)) [
      | inr (e, f) ↦ (err e, rw (f, resolve_aliases) refl)
      | inl (r, f) ↦ elim (Bool-cases r.progress) [
        | inr q ↦ (err (unresolved_aliases r.left), rw (f, q, resolve_aliases) refl)
        | inl q ↦
            let fewer = (round-fewer (a ∷ pending) table r f).1 q in
            let (s, e) = resolve_aliases-ends fuel r.left r.table (omega (arith, fewer)) in
            (s, rw (f, q, resolve_aliases) e)
      ]
    ]
