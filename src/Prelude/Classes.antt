-- ===== src/Prelude/Classes.antt =====
-- Equality of dictionary keys as an interface, with instances at numbers, texts and pairs.
use Prim.Native.Nat.{ℕ}
use Prim.Native.String.{String}
use mathlib.Core.Path.{◌≡◌, refl}
use mathlib.Core.Logic.{◌↔◌}
use mathlib.Core.Bool.{Bool, true, ◌&&◌}
use native.Mathlib.Omega.{arith}
use text.Mathlib.Text.{◌==◌ as str_eq}
use text.Mathlib.TextEquality.{eq_iff}
use minimachine.Prelude.Tests.{nat_eqb, nat_eqb_iff}

-- A test that decides when two keys are one.
pub record Eq {ℓ} (K : Type ℓ) : Type ℓ where
  pub same_key : K → K → Bool
  pub decides : (x y : K) → (same_key x y ≡ true) ↔ (x ≡ y)

instance abbrev pub string_eq : Eq String
string_eq = record { decides = eq_iff; same_key = str_eq }

instance abbrev pub nat_eq : Eq ℕ
nat_eq = record { decides = nat_eqb_iff; same_key = nat_eqb }

module _ {ℓ} {K : Type ℓ} ⦃key : Eq K⦄ where
  infix 50 ◌==◌
  abbrev pub ◌==◌ : K → K → Bool
  x == y = key.same_key x y

  pub ==_iff : (x y : K) → ((x == y) ≡ true) ↔ (x ≡ y)
  ==_iff x y = key.decides x y

  pub ==_refl : (x : K) → (x == x) ≡ true
  ==_refl x = (key.decides x x).1 refl

module _ {ℓ κ} {A : Type ℓ} {B : Type κ} ⦃a : Eq A⦄ ⦃b : Eq B⦄ where
  abbrev pub pair_eqb : A × B → A × B → Bool
  pair_eqb x y = a.same_key x.0 y.0 && b.same_key x.1 y.1

  pub pair_eqb_iff : (x y : A × B) → (pair_eqb x y ≡ true) ↔ (x ≡ y)
  pair_eqb_iff x y = ground (arith, a.decides x.0 y.0, b.decides x.1 y.1)

  instance abbrev pub pair_eq : Eq (A × B)
  pair_eq = record { decides = pair_eqb_iff; same_key = pair_eqb }
