-- ===== src/Verify/Sets.antt =====
-- Label sets: membership, and when a set has as many members as the list it was made of.
use minimachine.Prelude.{
  String, ◌≤◌, ◌≡◌, refl, ◌↔◌, ◌⊎◌, inl, inr, arith, true, List, [], ◌∷◌, length, ◌==◌, string_eq,
  ==_iff, Bool-cases,
}
use minimachine.Verify.{elem, to_set}

abbrev pub Member : String → List String → Type 0
Member x [] = ⊥
Member x (y ∷ ys) = (y ≡ x) ⊎ Member x ys

abbrev pub AreDistinct : List String → Type 0
AreDistinct [] = Unit
AreDistinct (x ∷ xs) = (¬ Member x xs) × AreDistinct xs

pub elem→Member : (x : String) (xs : List String) → elem x xs ≡ true → Member x xs
unfolding elem
elem→Member x [] h = cc
elem→Member x (y ∷ ys) h = elim (Bool-cases (y == x)) [
  | inl e ↦ inl ((==_iff y x).0 e)
  | inr e ↦ inr (elem→Member x ys (rw e at h))
]

pub Member→elem : (x : String) (xs : List String) → Member x xs → elem x xs ≡ true
unfolding elem
Member→elem x [] h = absurd h
Member→elem x (y ∷ ys) (inl e) = rw ((==_iff y x).1 e)
Member→elem x (y ∷ ys) (inr h) = ground (arith, Member→elem x ys h)

elem-to_set : (x : String) (xs : List String) → elem x (to_set xs) ≡ elem x xs
unfolding elem to_set
elem-to_set x [] = refl
elem-to_set x (y ∷ ys) =
    ground (arith, elem-to_set x ys, elem-to_set y ys, ==_iff y x, Bool-cases (y == x))

pub Member-to_set : (x : String) (xs : List String) → Member x (to_set xs) ↔ Member x xs
Member-to_set x xs = (
  λ h. elem→Member x xs (rw (← elem-to_set x xs) (Member→elem x (to_set xs) h)),
  λ h. elem→Member x (to_set xs) (rw (elem-to_set x xs) (Member→elem x xs h)),
)

length-to_set-le : (xs : List String) → length (to_set xs) ≤ length xs
unfolding to_set
length-to_set-le [] = omega arith
length-to_set-le (x ∷ xs) = ground (arith, length-to_set-le xs)

pub distinct_of_length : (xs : List String) → length (to_set xs) ≡ length xs → AreDistinct xs
unfolding to_set
distinct_of_length [] h = tt
distinct_of_length (x ∷ xs) h = elim (Bool-cases (elem x (to_set xs))) [
  | inl e ↦ absurd (ground (arith, length-to_set-le xs))
  | inr e ↦ (
    λ m. ground (arith, Member→elem x xs m, elem-to_set x xs),
    distinct_of_length xs (ground arith),
  )
]

pub length_of_distinct : (xs : List String) → AreDistinct xs → length (to_set xs) ≡ length xs
unfolding to_set
length_of_distinct [] h = refl
length_of_distinct (x ∷ xs) h = elim (Bool-cases (elem x (to_set xs))) [
  | inl e ↦ absurd (h.0 (elem→Member x xs (ground (arith, elem-to_set x xs))))
  | inr e ↦ ground (arith, length_of_distinct xs h.1)
]
