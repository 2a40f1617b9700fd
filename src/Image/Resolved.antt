-- ===== src/Image/Resolved.antt =====
-- What the resolved aliases of a module image are (src/minimachine/image.py).
use minimachine.Prelude.Dict.{some_inj}
use minimachine.Image.Aliases.{keeping}
use minimachine.Prelude.{
  All, All-map, ℕ, zero, suc, ◌≡◌, refl, sym, ap, subst, ◌∙◌, String, true, none, some, List, [],
  ◌∷◌, nat_eqb, nat_eqb_iff, ok, err, >>=-eq-ok, ok-injective, Result-cases, Option-cases,
  Bool-cases, inl, inr, ◌⊎◌, string_eq, ◌==◌, ==_iff,
}
use minimachine.Prelude.Dict
use minimachine.Prelude.Dict.{Dict, get-put, get-put_self}
use minimachine.Image.{ImageAlias}
use minimachine.Image.Aliases.{
  AliasError, Table, Round, put_alias, alias_value, round, resolve_aliases,
}

-- Every symbol of a table keeps its address.
abbrev pub Extends : Table → Table → Type 0
Extends t u = (n : String) (v : ℕ) → Dict.get t n ≡ some v → Dict.get u n ≡ some v

-- The alias has the address of its target with the addend.
abbrev pub IsResolved : Table → ImageAlias → Type 0
IsResolved t a =
    (v : ℕ) × (Dict.get t a.target.symbol ≡ some v) × (Dict.get t a.name ≡ some (alias_value a v))

put_alias-Extends :
    (t u : Table) (name : String) (v : ℕ)
    → put_alias t name v (Dict.get t name) ≡ ok u
    → Extends t u × (Dict.get u name ≡ some v)
put_alias-Extends t u name v h = elim (Option-cases (Dict.get t name)) [
  | inl e ↦
      subst (λ (u : Table). Extends t u × (Dict.get u name ≡ some v)) (ok-injective (rw e at h))
        (
          λ n w k. elim (Bool-cases (name == n)) [
            | inl same ↦
                absurd
                  (clash (sym e ∙ ap (λ (s : String). Dict.get t s) ((==_iff name n).0 same) ∙ k))
            | inr other ↦ get-put t name n v ∙ rw other k
          ],
          get-put_self t name v,
        )
  | inr (w, e) ↦ elim (Bool-cases (nat_eqb w v)) [
    | inl same ↦
        subst (λ (u : Table). Extends t u × (Dict.get u name ≡ some v))
          (ok-injective (rw (e, same) at h)) (λ n w k. k, e ∙ ap some ((nat_eqb_iff w v).0 same))
    | inr other ↦ absurd (not_ok (rw (e, other) at h))
  ]
]
  where
    clash : {v : ℕ} → none ≡ some v → ⊥
    clash h = cc

    not_ok : {e : AliasError} {u : Table} → err e ≡ ok u → ⊥
    not_ok h = cc

abbrev pub IsIn : ImageAlias → List ImageAlias → Type 0
IsIn a [] = ⊥
IsIn a (b ∷ bs) = (b ≡ a) ⊎ IsIn a bs

-- Resolved in a table, or still to be resolved.
abbrev IsDone : Round → ImageAlias → Type 0
IsDone r a = IsResolved r.table a ⊎ IsIn a r.left

IsResolved-Extends : (t u : Table) (a : ImageAlias) → Extends t u → IsResolved t a → IsResolved u a
IsResolved-Extends t u a ext (v, e, f) =
    (v, ext a.target.symbol v e, ext a.name (alias_value a v) f)

abbrev Outcome : Table → List ImageAlias → Round → Type 0
Outcome t pending r = Extends t r.table × All (IsDone r) pending

keep-IsDone : (b a : ImageAlias) (r : Round) → IsDone r a → IsDone (keeping b r) a
keep-IsDone b a r (inl h) = inl h
keep-IsDone b a r (inr h) = inr (inr h)

progress-IsDone :
    (a : ImageAlias) (r : Round) → IsDone r a → IsDone (record r { progress = true }) a
progress-IsDone a r h = h

round-Outcome :
    (pending : List ImageAlias) (t : Table) (r : Round)
    → round pending t ≡ ok r
    → Outcome t pending r
unfolding round
round-Outcome [] t r h = subst (λ (r : Round). Outcome t [] r) (ok-injective h) (λ n v k. k, tt)
round-Outcome (a ∷ rest) t r h = elim (Option-cases (Dict.get t a.target.symbol)) [
  | inl e ↦
      let (s, f, g) = >>=-eq-ok (round rest t) _ (rw (e, round) at h) in
      let ih = round-Outcome rest t s f in
      subst (λ (r : Round). Outcome t (a ∷ rest) r) (ok-injective g)
        (ih.0, (inr (inl refl), All-map (λ b. keep-IsDone a b s) rest ih.1))
  | inr (v, e) ↦
      let (u, f, g) =
        >>=-eq-ok (put_alias t a.name (alias_value a v) (Dict.get t a.name)) _
          (rw (e, round) at h) in
      let (s, f', g') = >>=-eq-ok (round rest u) _ g in
      let ih = round-Outcome rest u s f' in
      let placed = put_alias-Extends t u a.name (alias_value a v) f in
      let here : IsResolved u a = (v, placed.0 a.target.symbol v e, placed.1) in
      subst (λ (r : Round). Outcome t (a ∷ rest) r) (ok-injective g')
        (
          λ n w k. ih.0 n w (placed.0 n w k),
          (
            inl (IsResolved-Extends u s.table a ih.0 here),
            All-map (λ b. progress-IsDone b s) rest ih.1,
          ),
        )
]

All-IsIn :
    (P : ImageAlias → Type 0) (a : ImageAlias) (bs : List ImageAlias) → All P bs → IsIn a bs → P a
All-IsIn P a [] h m = absurd m
All-IsIn P a (b ∷ bs) h (inl e) = subst P e h.0
All-IsIn P a (b ∷ bs) h (inr m) = All-IsIn P a bs h.1 m

-- When the loop gives a table, every symbol has kept its address, and each alias has the address of
-- its target in that table with the addend, cut to 64 bits.
pub resolve_aliases-IsResolved :
    (fuel : ℕ) (pending : List ImageAlias) (t u : Table)
    → resolve_aliases fuel pending t ≡ some (ok u)
    → Extends t u × All (IsResolved u) pending
unfolding resolve_aliases
resolve_aliases-IsResolved fuel [] t u h =
    subst (λ (u : Table). Extends t u × Unit) (ok-injective (some_inj _ _ h)) (λ n v k. k, tt)
resolve_aliases-IsResolved zero (a ∷ pending) t u h = absurd (cc)
resolve_aliases-IsResolved (suc fuel) (a ∷ pending) t u h =
    elim (Result-cases (round (a ∷ pending) t)) [
      | inr (e, f) ↦ absurd (not_ok (some_inj _ _ (rw (f, resolve_aliases) at h)))
      | inl (r, f) ↦ elim (Bool-cases r.progress) [
        | inr q ↦ absurd (not_ok (some_inj _ _ (rw (f, q, resolve_aliases) at h)))
        | inl q ↦
            let ih =
              resolve_aliases-IsResolved fuel r.left r.table u (rw (f, q, resolve_aliases) at h) in
            let o = round-Outcome (a ∷ pending) t r f in
            (λ n v k. ih.0 n v (o.0 n v k), All-map (λ b d. finish r b ih d) (a ∷ pending) o.1)
      ]
    ]
  where
    not_ok : {e : AliasError} {u : Table} → err e ≡ ok u → ⊥
    not_ok h = cc

    finish :
        (r : Round) (b : ImageAlias)
        → Extends r.table u × All (IsResolved u) r.left
        → IsDone r b
        → IsResolved u b
    finish r b ih (inl d) = IsResolved-Extends r.table u b ih.0 d
    finish r b ih (inr m) = All-IsIn (IsResolved u) b r.left ih.1 m
