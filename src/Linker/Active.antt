-- ===== src/Linker/Active.antt =====
-- `active_groups` (src/minimachine/linker.py): one pass over the groups finds every active group,
-- since a group anchors after an earlier one.
use minimachine.Prelude.{
  ◌∙◌, if◌then◌else◌, ap, String, ◌≡◌, refl, sym, subst, ◌↔◌, ◌⊎◌, inl, inr, Bool, true, false,
  ◌||◌, Bool-cases, Option, none, some, List, [], ◌∷◌, arith, string_eq,
}
use minimachine.Verify.Sets.{Member, elem→Member, Member→elem}
use minimachine.Linker.{
  SectionGroup, LinkerContract, has_members, is_anchored, active_from, active_groups,
}

abbrev pub MemberGroup : SectionGroup → List SectionGroup → Type 0
MemberGroup g [] = ⊥
MemberGroup g (h ∷ hs) = (h ≡ g) ⊎ MemberGroup g hs

-- A group is active when the image has one of its sections, or when it anchors after a group that
-- is active.
pub data IsActive (groups : List SectionGroup) (sections : List String) : String → Type 0 where
  populated :
      (x : String) (g : SectionGroup)
      → MemberGroup g groups
      → g.name ≡ x
      → has_members g sections ≡ true
      → IsActive groups sections x
  anchored :
      (x : String) (g : SectionGroup) (anchor : String)
      → MemberGroup g groups
      → g.name ≡ x
      → g.empty_after ≡ some anchor
      → IsActive groups sections anchor
      → IsActive groups sections x

-- No name twice, and every anchor among the names before.
abbrev pub IsOrdered : List String → List SectionGroup → Type 0
IsOrdered seen [] = Unit
IsOrdered seen (g ∷ gs) =
    (¬ Member g.name seen)
    × ((anchor : String) → g.empty_after ≡ some anchor → Member anchor seen)
    × IsOrdered (g.name ∷ seen) gs

-- The test of one group.
abbrev is_active : SectionGroup → List String → List String → Bool
is_active g sections active = has_members g sections || is_anchored g.empty_after active

keep :
    (b : Bool) (y x : String) (xs : List String) → Member x xs → Member x (if b then y ∷ xs else xs)
keep true y x xs m = inr m
keep false y x xs m = m

module _ (groups : List SectionGroup) (sections : List String) where
  abbrev Active : String → Type 0
  Active x = IsActive groups sections x

  anchor-IsActive :
      (g : SectionGroup) (o : Option String) (active : List String)
      → MemberGroup g groups
      → g.empty_after ≡ o
      → ((x : String) → Member x active → Active x)
      → is_anchored o active ≡ true
      → Active g.name
  unfolding is_anchored
  anchor-IsActive g none active m e h t = absurd (cc)
  anchor-IsActive g (some anchor) active m e h t =
      anchored g.name g anchor m refl e (h anchor (elem→Member anchor active t))

  or-cases : (a b : Bool) → (a || b) ≡ true → (a ≡ true) ⊎ (b ≡ true)
  or-cases true b h = inl refl
  or-cases false b h = inr h

  active_from_sound :
      (gs : List SectionGroup) (active : List String)
      → ((g : SectionGroup) → MemberGroup g gs → MemberGroup g groups)
      → ((x : String) → Member x active → Active x)
      → (x : String) → Member x (active_from sections gs active)
      → Active x
  unfolding active_from
  active_from_sound [] active inside h = h
  active_from_sound (g ∷ gs) active inside h = elim (Bool-cases (is_active g sections active)) [
    | inl t ↦ rw t (
        active_from_sound gs (g.name ∷ active) (λ k m. inside k (inr m))
          (λ x m. elim m [
            | inl e ↦ subst Active e (elim (or-cases _ _ t) [
              | inl p ↦ populated g.name g (inside g (inl refl)) refl p
              | inr p ↦ anchor-IsActive g g.empty_after active (inside g (inl refl)) refl h p
            ])
            | inr n ↦ h x n
          ]))
    | inr f ↦ rw f (active_from_sound gs active (λ k m. inside k (inr m)) h)
  ]

  or-left : (a b : Bool) → a ≡ true → (a || b) ≡ true
  or-left a b h = ground arith

  or-right : (a b : Bool) → b ≡ true → (a || b) ≡ true
  or-right a b h = ground arith

  -- A later group has a name of its own.
  fresh_later :
      (gs : List SectionGroup) (seen : List String) (g : SectionGroup)
      → IsOrdered seen gs
      → MemberGroup g gs
      → ¬ Member g.name seen
  fresh_later [] seen g o m n = m
  fresh_later (h ∷ hs) seen g o (inl e) n =
      o.0 (subst (λ (k : SectionGroup). Member k.name seen) (sym e) n)
  fresh_later (h ∷ hs) seen g o (inr m) n = fresh_later hs (h.name ∷ seen) g o.2 m (inr n)

  -- The groups that are left, and the names of those that were looked at.
  abbrev Left : List String → List SectionGroup → Type 0
  Left seen gs = (k : SectionGroup) → MemberGroup k groups → MemberGroup k gs ⊎ Member k.name seen

  -- A group with the name of the one that is looked at is that one.
  same_group :
      (g k : SectionGroup) (gs : List SectionGroup) (seen : List String)
      → Left seen (g ∷ gs)
      → IsOrdered seen (g ∷ gs)
      → MemberGroup k groups
      → k.name ≡ g.name
      → g ≡ k
  same_group g k gs seen left o m e = elim (left k m) [
    | inl (inl same) ↦ same
    | inl (inr later) ↦ absurd (fresh_later gs (g.name ∷ seen) k o.2 later (inl (sym e)))
    | inr n ↦ absurd (o.0 (subst (λ x. Member x seen) e n))
  ]

  test-true :
      (g : SectionGroup) (gs : List SectionGroup) (seen active : List String)
      → Left seen (g ∷ gs)
      → IsOrdered seen (g ∷ gs)
      → ((x : String) → Member x seen → Active x → Member x active)
      → Active g.name
      → is_active g sections active ≡ true
  test-true g gs seen active left o h (populated x k m e p) =
      let same = same_group g k gs seen left o m e in
      or-left _ _ (subst (λ (k : SectionGroup). has_members k sections ≡ true) (sym same) p)
  test-true g gs seen active left o h (anchored x k anchor m e q a) =
      let same = same_group g k gs seen left o m e in
      let at : g.empty_after ≡ some anchor = ap (λ (g : SectionGroup). g.empty_after) same ∙ q in
      or-right _ _ (
        subst (λ o. is_anchored o active ≡ true) (sym at)
          (unfold is_anchored in Member→elem anchor active (h anchor (o.1 anchor at) a)))

  active_from_complete :
      (gs : List SectionGroup) (seen active : List String)
      → Left seen gs
      → IsOrdered seen gs
      → ((x : String) → Member x seen → Active x → Member x active)
      → (k : SectionGroup) → MemberGroup k groups
      → Active k.name
      → Member k.name (active_from sections gs active)
  unfolding active_from
  active_from_complete [] seen active left o h k m a = elim (left k m) [
    | inl n ↦ absurd n
    | inr n ↦ h k.name n a
  ]
  active_from_complete (g ∷ gs) seen active left o h k m a =
      active_from_complete gs (g.name ∷ seen)
        (if is_active g sections active then g.name ∷ active else active)
        (λ k m. elim (left k m) [
          | inl (inl e) ↦ inr (inl (ap (λ (g : SectionGroup). g.name) e))
          | inl (inr n) ↦ inl n
          | inr n ↦ inr (inr n)
        ])
        o.2
        (λ x m a. elim m [
          | inl e ↦ rw (test-true g gs seen active left o h (subst Active (sym e) a)) (inl e)
          | inr n ↦ keep (is_active g sections active) g.name x active (h x n a)
        ])
        k m a

  owner : (x : String) → Active x → (g : SectionGroup) × MemberGroup g groups × (g.name ≡ x)
  owner y (populated x g m e p) = (g, m, e)
  owner y (anchored x g anchor m e q a) = (g, m, e)

-- When no two groups have one name and every group anchors after an earlier one, the active groups
-- of the single pass are exactly those that have a section of the image, and those that anchor,
-- through any number of groups, after one that has.
pub active_groups-IsActive :
    (c : LinkerContract) (sections : List String) (x : String)
    → IsOrdered [] c.groups
    → Member x (active_groups c sections) ↔ IsActive c.groups sections x
unfolding active_groups
active_groups-IsActive c sections x o = (
  active_from_sound c.groups sections c.groups [] (λ g m. m) (λ x m. absurd m) x,
  λ a.
      let (g, m, e) = owner c.groups sections x a in
      subst (λ x. Member x (active_from sections c.groups [])) e
        (active_from_complete c.groups sections c.groups [] [] (λ k m. inl m) o (λ x m a. absurd m)
          g m (subst (IsActive c.groups sections) (sym e) a)),
)
