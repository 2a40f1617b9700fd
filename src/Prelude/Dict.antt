-- ===== src/Prelude/Dict.antt =====
-- Python's `dict` as an association list in insertion order: writing an existing key replaces its
-- value in place, and a new key goes to the end.
use mathlib.Core.Path.{◌≡◌, refl}
use mathlib.Core.Logic.{◌≢◌}
use mathlib.Core.Bool.{Bool, true, false}
use mathlib.Core.Option.{Option, none, some}
use mathlib.Core.List.{List, [], ◌∷◌}
use native.Mathlib.Omega.{arith}
use mathlib.Core.Path.{◌∙◌, sym, subst}
use mathlib.Core.Logic.{◌⊎◌, inl, inr}
use minimachine.Prelude.Tests.{if◌then◌else◌, Bool-cases}
use minimachine.Prelude.Classes.{Eq, ◌==◌, ==_iff, ==_refl}

abbrev pub Dict {ℓ κ} : Type ℓ → Type κ → Type (ℓ ⊔ κ)
Dict K V = List (K × V)

abbrev pub is_some {ℓ} : {A : Type ℓ} → Option A → Bool
is_some none = false
is_some (some v) = true

pub some_inj {ℓ} : {V : Type ℓ} (v w : V) → some v ≡ some w → v ≡ w
some_inj v w h = cc

module _ {ℓ κ} {K : Type ℓ} {V : Type κ} ⦃e : Eq K⦄ where
  unfoldable pub get : Dict K V → K → Option V
  get [] k = none
  get ((j, v) ∷ d) k = if j == k then some v else get d k

  unfoldable pub put : Dict K V → K → V → Dict K V
  put [] k v = (k, v) ∷ []
  put ((j, w) ∷ d) k v = let rest = put d k v in if j == k then (j, v) ∷ d else (j, w) ∷ rest

  -- `k in d`
  abbrev pub contains : Dict K V → K → Bool
  contains d k = is_some (get d k)

  pub get-put :
      (d : Dict K V) (k j : K) (v : V) → get (put d k v) j ≡ (if k == j then some v else get d j)
  unfolding get put
  get-put [] k j v = refl
  get-put ((i, w) ∷ d) k j v = ground (arith, ==_iff i k, ==_iff i j, ==_iff k j, get-put d k j v)

  pub get-put_self : (d : Dict K V) (k : K) (v : V) → get (put d k v) k ≡ some v
  get-put_self d k v = rw (get-put, ==_refl)

  pub get-put_ne : (d : Dict K V) (k j : K) (v : V) → k ≢ j → get (put d k v) j ≡ get d j
  get-put_ne d k j v h = ground (arith, get-put d k j v, ==_iff k j)

  -- A key that had a value keeps one.
  pub get-put_keeps :
      (d : Dict K V) (k j : K) (v w : V) → get d j ≡ some w → (u : V) × (get (put d k v) j ≡ some u)
  get-put_keeps d k j v w h = elim (Bool-cases (k == j)) [
    | inl e ↦ (v, get-put d k j v ∙ rw e)
    | inr e ↦ (w, get-put d k j v ∙ rw e h)
  ]

  -- What is found after a write was written, or was there before.
  pub get-put_cases :
      (d : Dict K V) (k j : K) (v w : V)
      → get (put d k v) j ≡ some w
      → ((k ≡ j) × (v ≡ w)) ⊎ (get d j ≡ some w)
  get-put_cases d k j v w h = elim (Bool-cases (k == j)) [
    | inl e ↦ inl (
      (==_iff k j).0 e,
      some_inj v w
          (subst (λ b. (if b then some v else get d j) ≡ some w) e (sym (get-put d k j v) ∙ h)),
    )
    | inr e ↦
        inr (subst (λ b. (if b then some v else get d j) ≡ some w) e (sym (get-put d k j v) ∙ h))
  ]
