-- ===== src/Linker.antt =====
-- The linker contract (src/minimachine/linker.py): which section groups and boundary symbols an
-- image has. `__post_init__` is `validate`; reading the contract from JSON is not modelled.
pub mod Active
use minimachine.Prelude.{
  ℕ, zero, suc, ◌-◌, String, Bool, true, false, ◌&&◌, ◌||◌, not, Option, none, some, List, [], ◌∷◌,
  ◌++◌, map, leb, ltb, nat_eqb, bit_and, ◌==◌, string_eq, if◌then◌else◌, Result, ok, err, ◌>>=◌,
  ◌>>◌, require,
}
use minimachine.Prelude.Int.{ℤ, pos, negsuc}
use minimachine.Prelude.Dict
use minimachine.Prelude.Dict.{Dict}
use minimachine.Verify.{elem}

pub data LinkerContractError : Type 0 where
  group_requires_name : LinkerContractError
  duplicate_group : String → LinkerContractError
  alignment_not_power_of_two : String → LinkerContractError
  empty_section_selector : String → LinkerContractError
  section_claimed_twice : String → String → String → LinkerContractError
  unknown_anchor : String → String → LinkerContractError
  anchor_not_earlier : String → LinkerContractError
  boundary_requires_name : LinkerContractError
  duplicate_boundary : String → LinkerContractError
  unknown_boundary_group : String → String → LinkerContractError
  invalid_edge : String → String → LinkerContractError
  semantic_requires_symbol : LinkerContractError
  duplicate_semantic : String → LinkerContractError
  invalid_point : String → String → LinkerContractError
  both_boundaries : LinkerContractError
  both_alias_and_boundary : LinkerContractError
  alias_requires_names : LinkerContractError

pub record SectionGroup : Type 0 where
  pub name : String
  pub sections : List String
  pub align : ℤ
  pub empty_after : Option String

pub record BoundarySymbol : Type 0 where
  pub symbol : String
  pub group : String
  pub edge : String

pub record SemanticBoundary : Type 0 where
  pub symbol : String
  pub point : String

pub record LinkerContract : Type 0 where
  pub aliases : Dict String String
  pub groups : List SectionGroup
  pub boundaries : List BoundarySymbol
  pub semantic_boundaries : List SemanticBoundary

abbrev pub Checked {ℓ} : Type ℓ → Type ℓ
Checked A = Result LinkerContractError A

-- `align <= 0 or align & (align - 1)`, denied.
unfoldable pub is_power_of_two : ℤ → Bool
is_power_of_two (pos zero) = false
is_power_of_two (pos (suc n)) = nat_eqb (bit_and (suc n) n) 0
is_power_of_two (negsuc n) = false

-- `claimed_sections.get(section)`, and the claim of a section that has no owner.
unfoldable pub claim :
    String → String → Option String → Dict String String → Checked (Dict String String)
claim group section (some owner) claimed = err (section_claimed_twice section owner group)
claim group section none claimed = ok (Dict.put claimed section group)

unfoldable pub claim_sections :
    String → List String → Dict String String → Checked (Dict String String)
claim_sections group [] claimed = ok claimed
claim_sections group (s ∷ ss) claimed = do
  require (not (s == "")) (empty_section_selector group)
  next ← claim group s (Dict.get claimed s) claimed
  claim_sections group ss next

-- The first loop: the names seen so far and the sections claimed.
unfoldable pub check_groups :
    List SectionGroup → List String → Dict String String → Checked (List String)
check_groups [] names claimed = ok names
check_groups (g ∷ gs) names claimed = do
  require (not (g.name == "")) group_requires_name
  require (not (elem g.name names)) (duplicate_group g.name)
  require (is_power_of_two g.align) (alignment_not_power_of_two g.name)
  next ← claim_sections g.name g.sections claimed
  check_groups gs (g.name ∷ names) next

-- `{group.name: i for i, group in enumerate(self.groups)}`, from index `i`
unfoldable pub group_order : ℕ → List SectionGroup → Dict String ℕ → Dict String ℕ
group_order i [] d = d
group_order i (g ∷ gs) d = group_order (suc i) gs (Dict.put d g.name i)

-- `group_order[a] < group_order[b]`; the names have entries where this is asked.
unfoldable pub is_before : Option ℕ → Option ℕ → Bool
is_before (some i) (some j) = ltb i j
is_before _ _ = false

unfoldable pub check_anchor :
    List String → Dict String ℕ → SectionGroup → Option String → Checked (Unit {0})
check_anchor names order g none = ok tt
check_anchor names order g (some anchor) = do
  require (elem anchor names) (unknown_anchor g.name anchor)
  require (is_before (Dict.get order anchor) (Dict.get order g.name)) (anchor_not_earlier g.name)

unfoldable pub check_anchors : List String → Dict String ℕ → List SectionGroup → Checked (Unit {0})
check_anchors names order [] = ok tt
check_anchors names order (g ∷ gs) = do
  check_anchor names order g g.empty_after
  check_anchors names order gs

unfoldable pub check_boundaries :
    List String → List BoundarySymbol → List String → Checked (List String)
check_boundaries groups [] names = ok names
check_boundaries groups (b ∷ bs) names = do
  require (not (b.symbol == "")) boundary_requires_name
  require (not (elem b.symbol names)) (duplicate_boundary b.symbol)
  require (elem b.group groups) (unknown_boundary_group b.symbol b.group)
  require (b.edge == "start" || b.edge == "end") (invalid_edge b.symbol b.edge)
  check_boundaries groups bs (b.symbol ∷ names)

unfoldable pub is_point : String → Bool
is_point p = p == "code_start" || p == "code_end" || p == "data_start" || p == "data_end"

unfoldable pub check_semantic : List SemanticBoundary → List String → Checked (List String)
check_semantic [] names = ok names
check_semantic (b ∷ bs) names = do
  require (not (b.symbol == "")) semantic_requires_symbol
  require (not (elem b.symbol names)) (duplicate_semantic b.symbol)
  require (is_point b.point) (invalid_point b.symbol b.point)
  check_semantic bs (b.symbol ∷ names)

-- Whether two sets have a common member.
unfoldable pub meets : List String → List String → Bool
meets [] ys = false
meets (x ∷ xs) ys = elem x ys || meets xs ys

unfoldable pub check_aliases : Dict String String → Checked (Unit {0})
check_aliases [] = ok tt
check_aliases ((name, target) ∷ rest) = do
  require (not (name == "") && not (target == "")) alias_requires_names
  check_aliases rest

unfoldable pub alias_names : Dict String String → List String
alias_names d = map (λ kv. kv.0) d

-- `LinkerContract.__post_init__`
unfoldable pub validate : LinkerContract → Checked (Unit {0})
validate c = do
  names ← check_groups c.groups [] []
  check_anchors names (group_order 0 c.groups []) c.groups
  boundary_names ← check_boundaries names c.boundaries []
  semantic_names ← check_semantic c.semantic_boundaries []
  require (not (meets boundary_names semantic_names)) both_boundaries
  require (not (meets (boundary_names ++ semantic_names) (alias_names c.aliases)))
      both_alias_and_boundary
  check_aliases c.aliases

-- `empty_after is not None and empty_after in active`
unfoldable pub is_anchored : Option String → List String → Bool
is_anchored none active = false
is_anchored (some anchor) active = elem anchor active

unfoldable pub has_members : SectionGroup → List String → Bool
has_members g sections = meets g.sections sections

-- The loop over the groups; the set of active names is a list.
unfoldable pub active_from : List String → List SectionGroup → List String → List String
active_from sections [] active = active
active_from sections (g ∷ gs) active =
    active_from sections gs (
      if has_members g sections || is_anchored g.empty_after active
      then g.name ∷ active
      else active)

unfoldable pub active_groups : LinkerContract → List String → List String
active_groups c sections = active_from sections c.groups []

-- The symbols of the boundaries whose group is active.
unfoldable pub active_symbols : List String → List BoundarySymbol → List String
active_symbols active [] = []
active_symbols active (b ∷ bs) =
    let rest = active_symbols active bs in if elem b.group active then b.symbol ∷ rest else rest

unfoldable pub active_boundary_symbols : LinkerContract → List String → List String
active_boundary_symbols c sections = active_symbols (active_groups c sections) c.boundaries

unfoldable pub defined_symbols : LinkerContract → List String → List String
defined_symbols c sections =
    alias_names c.aliases
    ++ active_boundary_symbols c sections
    ++ map (λ b. b.symbol) c.semantic_boundaries
