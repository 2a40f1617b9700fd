-- ===== src/UserBundle/Namespaced.antt =====
-- `namespace_user_program` (src/minimachine/user_bundle.py) succeeds, and where it puts the functions.
use minimachine.UserBundle.{
  for_each, rewrite_function, rewrite_image, rewrite_program, namespace_user_program,
}
use minimachine.UserBundle.Renamed.{rewrite_function-IsStrict}
use minimachine.Verify.{is_nil, to_set, elem}
use minimachine.Verify.Sets.{elem→Member, Member→elem, distinct_of_length, length_of_distinct}
use minimachine.UserImage.{UserImageError, function_names, check_program, make_program}
use minimachine.Prelude.{
  ap₂, not, ◌||◌, require, length, nat_eqb, nat_eqb_iff, >>=-eq-ok, String, ◌+++◌, ◌≡◌, refl, sym,
  ◌∙◌, subst, Bool, true, List, [], ◌∷◌, map, ok, All, string_eq, ◌==◌, arith,
}
use minimachine.P3
use minimachine.Verify.Strict.{IsStrict}
use minimachine.Verify.Sets.{Member, AreDistinct}
use minimachine.UserImage.{UserProgramImage}
use minimachine.UserBundle.{Mapping, rename, namespace_mapping}
use minimachine.UserBundle.Mapped.{
  prefixed, namespace_mapping-Member, map-rename, Member-prefixed, prefixed-AreDistinct,
}

functions_kept :
    (m : Mapping) (fs : List P3.Function)
    → All IsStrict fs
    → (gs : List P3.Function) × (for_each (rewrite_function m) fs ≡ ok gs)
      × (function_names gs ≡ map (rename m) (function_names fs))
unfolding for_each
functions_kept m [] h = ([], refl, refl)
functions_kept m (f ∷ fs) h =
    let (g, e, strict, labels, named, slots) = rewrite_function-IsStrict m f h.0 in
    let (gs, e', q) = functions_kept m fs h.1 in
    (g ∷ gs, rw (e, e') refl, ap₂ (λ (a : String) (b : List String). a ∷ b) named q)

-- What the constructor of a program tests.
abbrev IsProgram : String → String → List String → Type 0
IsProgram entry_point entry_args names =
    (not (is_nil names) ≡ true)
    × AreDistinct names
    × Member entry_point names
    × ((entry_args == "none" || entry_args == "linux-main") ≡ true)

require_lem : (b : Bool) (e : UserImageError) → require b e ≡ ok tt → b ≡ true
require_lem b e h = ground arith

check_program-IsProgram :
    (p : UserProgramImage)
    → check_program p ≡ ok tt
    → IsProgram p.entry p.entry_args (function_names p.functions)
unfolding check_program
check_program-IsProgram p h =
    let (a, e, h1) = >>=-eq-ok (require (not (is_nil (function_names p.functions))) _) _ h in
    let (b, f, h2) =
      >>=-eq-ok
        (require
          (nat_eqb (length (to_set (function_names p.functions)))
            (length (function_names p.functions)))
          _)
        _ h1 in
    let (c, g, h3) = >>=-eq-ok (require (elem p.entry (function_names p.functions)) _) _ h2 in
    (
      require_lem _ _ e,
      distinct_of_length _ ((nat_eqb_iff _ _).0 (require_lem _ _ f)),
      elem→Member p.entry _ (require_lem _ _ g),
      require_lem _ _ h3,
    )

IsProgram-make_program :
    (p : UserProgramImage)
    → IsProgram p.entry p.entry_args (function_names p.functions)
    → make_program p ≡ ok p
unfolding make_program check_program
IsProgram-make_program p (n, d, m, a) =
    rw
      (
        n,
        (nat_eqb_iff _ _).1 (length_of_distinct (function_names p.functions) d),
        Member→elem p.entry (function_names p.functions) m,
        a,
      )
      refl

prefixed_some :
    (prefix : String) (names : List String)
    → not (is_nil names) ≡ true
    → not (is_nil (prefixed prefix names)) ≡ true
unfolding is_nil
prefixed_some prefix [] h = h
prefixed_some prefix (n ∷ ns) h = refl

prefixed-IsProgram :
    (prefix entry_point entry_args : String) (names : List String)
    → IsProgram entry_point entry_args names
    → IsProgram (prefix +++ entry_point) entry_args (prefixed prefix names)
prefixed-IsProgram prefix entry_point entry_args names (n, d, m, a) = (
  prefixed_some prefix names n,
  prefixed-AreDistinct prefix names d,
  Member-prefixed prefix names entry_point m,
  a,
)

-- A program that its constructor accepts and whose functions are strict is put into a namespace
-- without an exception, and its functions and its entry then have the prefixed names, in order.
pub namespace_user_program-prefixed :
    (internal external : String) (p : UserProgramImage)
    → check_program p ≡ ok tt
    → All IsStrict p.functions
    → (q : UserProgramImage) × (namespace_user_program internal external p ≡ ok q)
      × (function_names q.functions ≡ prefixed internal (function_names p.functions))
      × (q.entry ≡ internal +++ p.entry)
unfolding namespace_user_program rewrite_program
namespace_user_program-prefixed internal external p h strict =
    let m : Mapping = namespace_mapping internal external p in
    let names : List String = function_names p.functions in
    let member : Member p.entry names = (check_program-IsProgram p h).2 in
    let (gs, e, kept) = functions_kept m p.functions strict in
    let renamed : function_names gs ≡ prefixed internal names =
      kept ∙ map-rename m internal names (namespace_mapping-Member internal external p) in
    let entry_name : rename m p.entry ≡ internal +++ p.entry =
      rw (namespace_mapping-Member internal external p p.entry member) refl in
    let q : UserProgramImage = record p {
      entry = rename m p.entry;
      functions = gs;
      image = rewrite_image m p.image;
    } in
    let accepted : make_program q ≡ ok q = IsProgram-make_program q (
      subst (λ (n : String). IsProgram n p.entry_args (function_names gs)) (sym entry_name)
        (subst (λ (ns : List String). IsProgram (internal +++ p.entry) p.entry_args ns)
          (sym renamed)
          (prefixed-IsProgram internal p.entry p.entry_args names
            (check_program-IsProgram p h)))) in
    (q, rw (e, accepted) refl, renamed, entry_name)
