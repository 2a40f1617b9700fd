-- ===== src/UserBundle/Mapped.antt =====
-- Where the mapping of `namespace_user_program` (src/minimachine/user_bundle.py) sends a name, and
-- lists of prefixed names.
use Prim.Native.Char.{Char}
use Prim.Native.String.append
use minimachine.UserBundle.{default_one}
use minimachine.UserImage.{function_names}
use minimachine.Prelude.{
  Option-cases, String, ◌+++◌, ◌≡◌, refl, sym, ap, ◌∙◌, subst, Option, none, some, List, [], ◌∷◌,
  map, inl, inr, string_eq, ◌==◌, ==_iff, Bool-cases,
}
use minimachine.Prelude.Dict
use minimachine.Prelude.Dict.{get-put, get-put_ne, get-put_self}
use minimachine.Verify.Sets.{Member, AreDistinct}
use minimachine.UserImage.{UserProgramImage}
use minimachine.UserBundle.{
  ModuleImage, Mapping, rename, put_all, default_all, of_image, namespace_mapping,
}

append-nil : (s : String) → "" +++ s ≡ s
append-nil s = λ i. append.nil s i

append-cons : (c : Char) (s t : String) → String.◌∷◌ c s +++ t ≡ String.◌∷◌ c (s +++ t)
append-cons c s t = λ i. append.cons c s t i

-- The tail of two strings with the same first character.
tail-injective : (c : Char) (s t : String) → String.◌∷◌ c s ≡ String.◌∷◌ c t → s ≡ t
tail-injective c s t h = cc

-- A common prefix is cancelled.
prefix-injective : (prefix a b : String) → prefix +++ a ≡ prefix +++ b → a ≡ b
prefix-injective String.[] a b h = sym (append-nil a) ∙ h ∙ append-nil b
prefix-injective (String.◌∷◌ c p) a b h =
    prefix-injective p a b
      (tail-injective c (p +++ a) (p +++ b) (sym (append-cons c p a) ∙ h ∙ append-cons c p b))

-- A name that is mapped to its prefixed one stays so.
put_all-keeps :
    (prefix : String) (names : List String) (m : Mapping) (n : String)
    → Dict.get m n ≡ some (prefix +++ n)
    → Dict.get (put_all prefix names m) n ≡ some (prefix +++ n)
unfolding put_all
put_all-keeps prefix [] m n h = h
put_all-keeps prefix (k ∷ ks) m n h =
    put_all-keeps prefix ks (Dict.put m k (prefix +++ k)) n (elim (Bool-cases (k == n)) [
      | inl e ↦
          get-put m k n (prefix +++ k)
          ∙ rw e (ap (λ (t : String). some (prefix +++ t)) ((==_iff k n).0 e))
      | inr e ↦ get-put m k n (prefix +++ k) ∙ rw e h
    ])

put_all-Member :
    (prefix : String) (names : List String) (m : Mapping) (n : String)
    → Member n names
    → Dict.get (put_all prefix names m) n ≡ some (prefix +++ n)
unfolding put_all
put_all-Member prefix [] m n h = absurd h
put_all-Member prefix (k ∷ ks) m n (inl e) =
    put_all-keeps prefix ks (Dict.put m k (prefix +++ k)) n (
      subst (λ (t : String). Dict.get (Dict.put m k (prefix +++ k)) t ≡ some (prefix +++ t)) e
        (get-put_self m k (prefix +++ k)))
put_all-Member prefix (k ∷ ks) m n (inr h) =
    put_all-Member prefix ks (Dict.put m k (prefix +++ k)) n h

one_default-keeps :
    (prefix k : String) (m : Mapping) (n v : String)
    → Dict.get m n ≡ some v
    → Dict.get (default_one prefix k m) n ≡ some v
unfolding default_one
one_default-keeps prefix k m n v h = elim (Option-cases (Dict.get m k)) [
  | inl e ↦
      rw (e, default_one)
        (elim (Bool-cases (k == n)) [
          | inl same ↦
              absurd (nothing (sym e ∙ ap (λ (t : String). Dict.get m t) ((==_iff k n).0 same) ∙ h))
          | inr other ↦ get-put m k n (prefix +++ k) ∙ rw other h
        ])
  | inr (u, e) ↦ rw (e, default_one) h
]
  where
    nothing : {v : String} → none ≡ some v → ⊥
    nothing h = cc

default_all-keeps :
    (prefix : String) (names : List String) (m : Mapping) (n v : String)
    → Dict.get m n ≡ some v
    → Dict.get (default_all prefix names m) n ≡ some v
unfolding default_all
default_all-keeps prefix [] m n v h = h
default_all-keeps prefix (k ∷ ks) m n v h =
    default_all-keeps prefix ks _ n v (one_default-keeps prefix k m n v h)

of_image-keeps :
    (internal external : String) (image : Option ModuleImage) (m : Mapping) (n v : String)
    → Dict.get m n ≡ some v
    → Dict.get (of_image internal external image m) n ≡ some v
of_image-keeps internal external none m n v h = h
of_image-keeps internal external (some image) m n v h =
    default_all-keeps external image.external_functions _ n v (
      default_all-keeps external image.external_data _ n v (
        default_all-keeps internal (map (λ a. a.name) image.aliases) _ n v
          (default_all-keeps internal (map (λ o. o.name) image.objects) m n v h)))

-- Every function of the program is put into the internal namespace.
pub namespace_mapping-Member :
    (internal external : String) (p : UserProgramImage) (n : String)
    → Member n (function_names p.functions)
    → Dict.get (namespace_mapping internal external p) n ≡ some (internal +++ n)
unfolding namespace_mapping
namespace_mapping-Member internal external p n h =
    of_image-keeps internal external p.image _ n (internal +++ n)
      (put_all-Member internal (function_names p.functions) [] n h)

abbrev pub prefixed : String → List String → List String
prefixed prefix names = map (λ n. prefix +++ n) names

pub map-rename :
    (m : Mapping) (prefix : String) (names : List String)
    → ((n : String) → Member n names → Dict.get m n ≡ some (prefix +++ n))
    → map (rename m) names ≡ prefixed prefix names
map-rename m prefix [] h = refl
map-rename m prefix (n ∷ ns) h =
    rw (h n (inl refl))
      (ap (λ (t : List String). (prefix +++ n) ∷ t) (map-rename m prefix ns (λ k q. h k (inr q))))

pub Member-prefixed :
    (prefix : String) (names : List String) (n : String)
    → Member n names
    → Member (prefix +++ n) (prefixed prefix names)
Member-prefixed prefix [] n h = h
Member-prefixed prefix (k ∷ ks) n (inl e) = inl (ap (λ (t : String). prefix +++ t) e)
Member-prefixed prefix (k ∷ ks) n (inr h) = inr (Member-prefixed prefix ks n h)

prefixed-Member :
    (prefix : String) (names : List String) (n : String)
    → Member (prefix +++ n) (prefixed prefix names)
    → Member n names
prefixed-Member prefix [] n h = h
prefixed-Member prefix (k ∷ ks) n (inl e) = inl (prefix-injective prefix k n e)
prefixed-Member prefix (k ∷ ks) n (inr h) = inr (prefixed-Member prefix ks n h)

pub prefixed-AreDistinct :
    (prefix : String) (names : List String)
    → AreDistinct names
    → AreDistinct (prefixed prefix names)
prefixed-AreDistinct prefix [] h = tt
prefixed-AreDistinct prefix (n ∷ ns) h =
    (λ m. h.0 (prefixed-Member prefix ns n m), prefixed-AreDistinct prefix ns h.1)
