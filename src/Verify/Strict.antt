-- ===== src/Verify/Strict.antt =====
-- What `verify_p3` (src/minimachine/verify.py) accepts, stated without its loops and exceptions.
use minimachine.Prelude.{
  ◌>>◌, ◌||◌, nat_eqb_iff, length-map, All-map, length, not, nat_eqb, string_eq, ==_iff, Bool-cases,
  require, ℕ, String, ◌≤◌, ◌≡◌, ◌↔◌, ◌⊎◌, inl, inr, refl, arith, Bool, true, false, Option, none,
  some, List, [], ◌∷◌, All, get_last?, ok, >>=-eq-ok,
}
use minimachine.Muir.{Target, BrFields, is_direct, is_external, is_indirect}
use minimachine.P3
use minimachine.Verify.{
  invalid_target, duplicate_label, empty_block, unknown_direct_target, Check, VerifyError,
  check_all, check_target, check_src_bits, check_extend, check_p3_instr, check_p3_terminator,
  check_p3_block, verify_p3, p3_labels, label_known, to_set, is_nil,
}
use minimachine.Verify.Sets.{
  Member, AreDistinct, elem→Member, Member→elem, Member-to_set, distinct_of_length,
  length_of_distinct,
}

abbrev pub IsLabelIn : Option String → List String → Type 0
IsLabelIn none labels = ⊥
IsLabelIn (some l) labels = Member l labels

-- A local label of the function, or one of the two other forms.
abbrev pub IsTarget : List String → Target → Type 0
IsTarget labels t =
    ((is_direct t ≡ true) × IsLabelIn t.label labels)
    ⊎ ((is_direct t ≡ false) × ((is_external t ≡ true) ⊎ (is_indirect t ≡ true)))

abbrev pub IsSourceWidth : Option ℕ → Type 0
IsSourceWidth none = Unit
IsSourceWidth (some n) = (1 ≤ n) × (n ≤ 64)

abbrev pub IsExtension : Option String → Type 0
IsExtension none = Unit
IsExtension (some e) = (e ≡ "zext") ⊎ ((e ≡ "sext") ⊎ (e ≡ "trunc"))

abbrev pub IsStrictInstr : List String → P3.Instr → Type 0
IsStrictInstr labels (P3.Instr.mov i) = IsSourceWidth i.src_bits × IsExtension i.extend
IsStrictInstr labels (P3.Instr.sub i) = Unit
IsStrictInstr labels (P3.Instr.br i) =
    IsTarget labels i.true_target × IsTarget labels i.false_target

abbrev pub EndsInBr : List P3.Instr → Type 0
EndsInBr is = (i : BrFields) × (get_last? is ≡ some (P3.Instr.br i))

abbrev pub IsStrictBlock : List String → P3.Block → Type 0
IsStrictBlock labels b = All (IsStrictInstr labels) b.instructions × EndsInBr b.instructions

-- The labels are distinct, and each block is strict.
abbrev pub IsStrict : P3.Function → Type 0
IsStrict f = AreDistinct (p3_labels f) × All (IsStrictBlock (p3_labels f)) f.blocks

module _ {ℓ κ} {A : Type ℓ} (P : A → Type κ) (check : A → Check) where
  pub check_all-All :
      ((x : A) → check x ≡ ok tt → P x) → (xs : List A) → check_all check xs ≡ ok tt → All P xs
  unfolding check_all
  check_all-All sound [] h = tt
  check_all-All sound (x ∷ xs) h =
      let (u, p, q) = >>=-eq-ok (check x) (λ _. check_all check xs) h in
      (sound x p, check_all-All sound xs q)

  pub All-check_all :
      ((x : A) → P x → check x ≡ ok tt) → (xs : List A) → All P xs → check_all check xs ≡ ok tt
  unfolding check_all
  All-check_all complete [] h = refl
  All-check_all complete (x ∷ xs) h = rw (complete x h.0) (All-check_all complete xs h.1)

label_known-IsLabelIn :
    (labels : List String) (l : Option String) → label_known l labels ≡ true → IsLabelIn l labels
unfolding label_known
label_known-IsLabelIn labels none h = cc
label_known-IsLabelIn labels (some l) h = elem→Member l labels h

IsLabelIn-label_known :
    (labels : List String) (l : Option String) → IsLabelIn l labels → label_known l labels ≡ true
unfolding label_known
IsLabelIn-label_known labels none h = absurd h
IsLabelIn-label_known labels (some l) h = Member→elem l labels h

pub require-true : (b : Bool) (e : VerifyError) → require b e ≡ ok tt → b ≡ true
require-true b e h = ground arith

check_src_bits-IsSourceWidth : (n : Option ℕ) → check_src_bits n ≡ ok tt → IsSourceWidth n
unfolding check_src_bits
check_src_bits-IsSourceWidth none h = tt
check_src_bits-IsSourceWidth (some n) h = ground arith

IsSourceWidth-check_src_bits : (n : Option ℕ) → IsSourceWidth n → check_src_bits n ≡ ok tt
unfolding check_src_bits
IsSourceWidth-check_src_bits none h = refl
IsSourceWidth-check_src_bits (some n) h = ground arith

check_extend-IsExtension : (e : Option String) → check_extend e ≡ ok tt → IsExtension e
unfolding check_extend
check_extend-IsExtension none h = tt
check_extend-IsExtension (some e) h =
    ground (arith, ==_iff e "zext", ==_iff e "sext", ==_iff e "trunc")

IsExtension-check_extend : (e : Option String) → IsExtension e → check_extend e ≡ ok tt
unfolding check_extend
IsExtension-check_extend none h = refl
IsExtension-check_extend (some e) h =
    ground (arith, ==_iff e "zext", ==_iff e "sext", ==_iff e "trunc")

pub or-cases : (a b : Bool) → (a || b) ≡ true → (a ≡ true) ⊎ (b ≡ true)
or-cases true b h = inl refl
or-cases false b h = inr h

pub check_p3_terminator-br :
    (label : String) (o : Option P3.Instr)
    → check_p3_terminator label o ≡ ok tt
    → (i : BrFields) × (o ≡ some (P3.Instr.br i))
unfolding check_p3_terminator
check_p3_terminator-br label (some (P3.Instr.br i)) h = (i, refl)
check_p3_terminator-br label (some (P3.Instr.mov i)) h = absurd (cc)
check_p3_terminator-br label (some (P3.Instr.sub i)) h = absurd (cc)
check_p3_terminator-br label none h = absurd (cc)

pub is_nil-last {ℓ} : {A : Type ℓ} (xs : List A) (x : A) → get_last? xs ≡ some x → is_nil xs ≡ false
unfolding is_nil
is_nil-last [] x h = absurd (cc)
is_nil-last (y ∷ ys) x h = refl

module _ (labels : List String) where
  check_target-IsTarget : (t : Target) → check_target labels t ≡ ok tt → IsTarget labels t
  unfolding check_target
  check_target-IsTarget t h = elim (Bool-cases (is_direct t)) [
    | inl d ↦ inl (
      d,
      label_known-IsLabelIn labels t.label (
          require-true (label_known t.label labels) (unknown_direct_target t.label)
            (rw (d, check_target) at h)),
    )
    | inr d ↦ inr (
      d,
      or-cases (is_external t) (is_indirect t) (
          require-true (is_external t || is_indirect t) invalid_target (rw (d, check_target) at h)),
    )
  ]

  IsTarget-check_target : (t : Target) → IsTarget labels t → check_target labels t ≡ ok tt
  unfolding check_target
  IsTarget-check_target t (inl (d, m)) =
      rw (d, check_target, IsLabelIn-label_known labels t.label m)
  IsTarget-check_target t (inr (d, e)) = rw (d, check_target) (ground arith)

  pub check_p3_instr-IsStrictInstr :
      (i : P3.Instr) → check_p3_instr labels i ≡ ok tt → IsStrictInstr labels i
  unfolding check_p3_instr
  check_p3_instr-IsStrictInstr (P3.Instr.mov i) h =
      let (u, p, q) = >>=-eq-ok (check_src_bits i.src_bits) (λ _. check_extend i.extend) h in
      (check_src_bits-IsSourceWidth i.src_bits p, check_extend-IsExtension i.extend q)
  check_p3_instr-IsStrictInstr (P3.Instr.sub i) h = tt
  check_p3_instr-IsStrictInstr (P3.Instr.br i) h =
      let (u, p, q) =
        >>=-eq-ok (check_target labels i.true_target) (λ _. check_target labels i.false_target) h in
      (check_target-IsTarget i.true_target p, check_target-IsTarget i.false_target q)

  pub IsStrictInstr-check_p3_instr :
      (i : P3.Instr) → IsStrictInstr labels i → check_p3_instr labels i ≡ ok tt
  unfolding check_p3_instr
  IsStrictInstr-check_p3_instr (P3.Instr.mov i) h =
      rw (IsSourceWidth-check_src_bits i.src_bits h.0) (IsExtension-check_extend i.extend h.1)
  IsStrictInstr-check_p3_instr (P3.Instr.sub i) h = refl
  IsStrictInstr-check_p3_instr (P3.Instr.br i) h =
      rw (IsTarget-check_target i.true_target h.0) (IsTarget-check_target i.false_target h.1)

  abbrev check_body : P3.Block → Check
  check_body b = do
    check_all (check_p3_instr labels) b.instructions
    check_p3_terminator b.label (get_last? b.instructions)

  pub check_p3_block-IsStrictBlock :
      (b : P3.Block) → check_p3_block labels b ≡ ok tt → IsStrictBlock labels b
  unfolding check_p3_block
  check_p3_block-IsStrictBlock b h =
      let (u, p, q) =
        >>=-eq-ok (require (not (is_nil b.instructions)) (empty_block b.label)) (λ _. check_body b)
          h in
      let (v, r, t) =
        >>=-eq-ok (check_all (check_p3_instr labels) b.instructions)
          (λ _. check_p3_terminator b.label (get_last? b.instructions)) q in
      (
        check_all-All (IsStrictInstr labels) (check_p3_instr labels) check_p3_instr-IsStrictInstr
            b.instructions r,
        check_p3_terminator-br b.label (get_last? b.instructions) t,
      )

  pub IsStrictBlock-check_p3_block :
      (b : P3.Block) → IsStrictBlock labels b → check_p3_block labels b ≡ ok tt
  unfolding check_p3_block
  IsStrictBlock-check_p3_block b (all, (i, last)) =
      rw (is_nil-last b.instructions (P3.Instr.br i) last) (
        rw
          (All-check_all (IsStrictInstr labels) (check_p3_instr labels) IsStrictInstr-check_p3_instr
            b.instructions all)
          (rw (last, check_p3_terminator)))

pub length-p3_labels : (f : P3.Function) → length (p3_labels f) ≡ length f.blocks
unfolding p3_labels
length-p3_labels f = length-map f.blocks (λ b. b.label)

pub nat_eqb_refl : (n : ℕ) → nat_eqb n n ≡ true
nat_eqb_refl n = (nat_eqb_iff n n).1 refl

module _ (labels labels' : List String)
    (sub : (l : String) → Member l labels → Member l labels') where
  IsLabelIn-mono : (o : Option String) → IsLabelIn o labels → IsLabelIn o labels'
  IsLabelIn-mono none h = h
  IsLabelIn-mono (some l) h = sub l h

  IsTarget-mono : (t : Target) → IsTarget labels t → IsTarget labels' t
  IsTarget-mono t (inl (d, m)) = inl (d, IsLabelIn-mono t.label m)
  IsTarget-mono t (inr e) = inr e

  IsStrictInstr-mono : (i : P3.Instr) → IsStrictInstr labels i → IsStrictInstr labels' i
  IsStrictInstr-mono (P3.Instr.mov i) h = h
  IsStrictInstr-mono (P3.Instr.sub i) h = h
  IsStrictInstr-mono (P3.Instr.br i) h =
      (IsTarget-mono i.true_target h.0, IsTarget-mono i.false_target h.1)

  IsStrictBlock-mono : (b : P3.Block) → IsStrictBlock labels b → IsStrictBlock labels' b
  IsStrictBlock-mono b (all, last) = (All-map IsStrictInstr-mono b.instructions all, last)

module _ (f : P3.Function) where
  abbrev label_set : List String
  label_set = to_set (p3_labels f)

  verify_p3_sound : verify_p3 f ≡ ok tt → IsStrict f
  unfolding verify_p3
  verify_p3_sound h =
      let (u, p, q) =
        >>=-eq-ok (require (nat_eqb (length label_set) (length f.blocks)) duplicate_label)
          (λ _. check_all (check_p3_block label_set) f.blocks) h in
      (
        distinct_of_length (p3_labels f) (ground (arith, length-p3_labels f)),
        All-map
            (IsStrictBlock-mono label_set (p3_labels f) (λ l. (Member-to_set l (p3_labels f)).0))
            f.blocks
            (check_all-All (IsStrictBlock label_set) (check_p3_block label_set)
              (check_p3_block-IsStrictBlock label_set) f.blocks q),
      )

  verify_p3_complete : IsStrict f → verify_p3 f ≡ ok tt
  unfolding verify_p3
  verify_p3_complete s =
      rw (length_of_distinct (p3_labels f) s.0, length-p3_labels f, nat_eqb_refl (length f.blocks))
        (All-check_all (IsStrictBlock label_set) (check_p3_block label_set)
          (IsStrictBlock-check_p3_block label_set) f.blocks
          (All-map
            (IsStrictBlock-mono (p3_labels f) label_set (λ l. (Member-to_set l (p3_labels f)).1))
            f.blocks s.1))

-- `verify_p3` accepts a function exactly when its labels are distinct and each of its blocks has
-- well-formed moves, ends in a branch, and branches only to labels of the function, to external
-- symbols, or through one slot or address.
pub verify_p3-IsStrict : (f : P3.Function) → (verify_p3 f ≡ ok tt) ↔ IsStrict f
verify_p3-IsStrict f = (verify_p3_sound f, verify_p3_complete f)
