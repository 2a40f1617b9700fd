-- ===== src/Lower/Total.antt =====
-- When `lower_function` (src/minimachine/lower_p3.py) succeeds, and where it stops.
use minimachine.Prelude.{
  inl, inr, Option-cases, ◌∙◌, Option-cases, Bool-cases, if◌then◌else◌, sym, nat_eqb, ok-injective,
  subst, String, ◌≡◌, refl, Bool, true, false, not, Option, none, some, List, [], ◌∷◌, All, map,
  length, get_last?, ok, err, ◌>>=◌, ◌>>◌, >>=-eq-ok, ap, ap₂, require, length-map,
}
use minimachine.Muir
use minimachine.P3
use minimachine.Verify.{
  Check, verify_muir, verify_p3, muir_labels, p3_labels, check_all, check_muir_instr,
  check_muir_terminator, check_muir_block, check_p3_instr, check_p3_terminator, check_p3_block,
  is_nil, to_set, empty_block, duplicate_label,
}
use minimachine.Verify.Strict.{
  require-true, IsSourceWidth, IsExtension, IsStrictInstr-check_p3_instr, check_p3_terminator-br,
  is_nil-last,
}
use minimachine.Lower.{
  Lowered, pseudo_must_be_expanded, lower_value, lower_operand, lower_instr, lower_instrs,
  lower_block, lower_blocks, lower_function,
}

-- One of the three machine instructions, with a well-formed move.
abbrev pub IsCore : Muir.Instr → Type 0
IsCore (Muir.Instr.mov i) = IsSourceWidth i.src_bits × IsExtension i.extend
IsCore (Muir.Instr.sub i) = Unit
IsCore (Muir.Instr.br i) = Unit
IsCore _ = ⊥

abbrev pub IsCoreBlock : Muir.Block → Type 0
IsCoreBlock b = All IsCore b.instructions

abbrev p3_label : P3.Block → String
p3_label b = b.label

abbrev muir_label : Muir.Block → String
muir_label b = b.label

lower_instrs-cons :
    (i : Muir.Instr) (is : List Muir.Instr) (j : P3.Instr) (js : List P3.Instr)
    → lower_instr i ≡ ok j
    → lower_instrs is ≡ ok js
    → lower_instrs (i ∷ is) ≡ ok (j ∷ js)
unfolding lower_instrs
lower_instrs-cons i is j js e es = rw e (rw es)

check_all-cons {ℓ} :
    {A : Type ℓ} (check : A → Check) (x : A) (xs : List A)
    → check x ≡ ok tt
    → check_all check xs ≡ ok tt
    → check_all check (x ∷ xs) ≡ ok tt
unfolding check_all
check_all-cons check x xs e es = rw e es

module _ (labels : List String) where
  lower_instr-core :
      (i : Muir.Instr)
      → IsCore i
      → check_muir_instr labels i ≡ ok tt
      → (j : P3.Instr) × (lower_instr i ≡ ok j) × (check_p3_instr labels j ≡ ok tt)
  unfolding lower_instr check_muir_instr
  lower_instr-core (Muir.Instr.mov i) c h =
      let j : P3.Instr =
        P3.Instr.mov (record i { dst = lower_operand i.dst; src = lower_operand i.src }) in
      (j, refl, IsStrictInstr-check_p3_instr labels j c)
  lower_instr-core (Muir.Instr.sub i) c h =
      let j : P3.Instr = P3.Instr.sub (record i { a = lower_value i.a; b = lower_value i.b }) in
      (j, refl, IsStrictInstr-check_p3_instr labels j tt)
  lower_instr-core (Muir.Instr.br i) c h = (
    P3.Instr.br (record i { a = lower_value i.a; b = lower_value i.b }),
    refl,
    unfold check_p3_instr in h,
  )
  lower_instr-core (Muir.Instr.call a b d) c h = absurd c
  lower_instr-core (Muir.Instr.ret a) c h = absurd c
  lower_instr-core (Muir.Instr.helper a b d) c h = absurd c
  lower_instr-core (Muir.Instr.sys a b d) c h = absurd c
  lower_instr-core (Muir.Instr.trap a) c h = absurd c
  lower_instr-core (Muir.Instr.arch_escape a b d) c h = absurd c

  check_all-inv :
      (i : Muir.Instr) (is : List Muir.Instr)
      → check_all (check_muir_instr labels) (i ∷ is) ≡ ok tt
      → (check_muir_instr labels i ≡ ok tt) × (check_all (check_muir_instr labels) is ≡ ok tt)
  unfolding check_all
  check_all-inv i is h =
      let (u, p, q) =
        >>=-eq-ok (check_muir_instr labels i) (λ _. check_all (check_muir_instr labels) is) h in
      (p, q)

  abbrev muir_body : Muir.Block → Check
  muir_body b = do
    check_all (check_muir_instr labels) b.instructions
    check_muir_terminator b.label (get_last? b.instructions)

  last_core :
      (label : String) (i : Muir.Instr) (j : P3.Instr)
      → IsCore i
      → lower_instr i ≡ ok j
      → check_muir_terminator label (some i) ≡ ok tt
      → check_p3_terminator label (some j) ≡ ok tt
  unfolding lower_instr check_muir_terminator check_p3_terminator
  last_core label (Muir.Instr.br i) j c e h =
      subst (λ j. check_p3_terminator label (some j) ≡ ok tt) (ok-injective e) refl
  last_core label (Muir.Instr.mov i) j c e h = absurd (cc)
  last_core label (Muir.Instr.sub i) j c e h = absurd (cc)
  last_core label (Muir.Instr.call a b d) j c e h = absurd c
  last_core label (Muir.Instr.ret a) j c e h = absurd c
  last_core label (Muir.Instr.helper a b d) j c e h = absurd c
  last_core label (Muir.Instr.sys a b d) j c e h = absurd c
  last_core label (Muir.Instr.trap a) j c e h = absurd c
  last_core label (Muir.Instr.arch_escape a b d) j c e h = absurd c

  last_cons :
      (label : String) (j : P3.Instr) (js : List P3.Instr)
      → check_p3_terminator label (get_last? js) ≡ ok tt
      → check_p3_terminator label (get_last? (j ∷ js)) ≡ ok tt
  unfolding check_p3_terminator
  last_cons label j [] h = absurd (cc)
  last_cons label j (k ∷ ks) h = h

  lower_instrs-core :
      (label : String) (is : List Muir.Instr)
      → All IsCore is
      → check_all (check_muir_instr labels) is ≡ ok tt
      → check_muir_terminator label (get_last? is) ≡ ok tt
      → (js : List P3.Instr) × (lower_instrs is ≡ ok js)
        × (check_all (check_p3_instr labels) js ≡ ok tt)
        × (check_p3_terminator label (get_last? js) ≡ ok tt)
  lower_instrs-core label [] c h t = absurd (unfold check_muir_terminator in (cc))
  lower_instrs-core label (i ∷ []) c h t =
      let (p, q) = check_all-inv i [] h in
      let (j, e, k) = lower_instr-core i c.0 p in
      (
        j ∷ [],
        lower_instrs-cons i [] j [] e (unfold lower_instrs in refl),
        check_all-cons (check_p3_instr labels) j [] k (unfold check_all in refl),
        last_core label i j c.0 e t,
      )
  lower_instrs-core label (i ∷ i' ∷ is) c h t =
      let (p, q) = check_all-inv i (i' ∷ is) h in
      let (j, e, k) = lower_instr-core i c.0 p in
      let (js, es, ks, l) = lower_instrs-core label (i' ∷ is) c.1 q t in
      (
        j ∷ js,
        lower_instrs-cons i (i' ∷ is) j js e es,
        check_all-cons (check_p3_instr labels) j js k ks,
        last_cons label j js l,
      )

  lower_block-core :
      (b : Muir.Block)
      → IsCoreBlock b
      → check_muir_block labels b ≡ ok tt
      → (c : P3.Block) × (lower_block b ≡ ok c)
        × (check_p3_block labels c ≡ ok tt)
        × (c.label ≡ b.label)
  unfolding lower_block check_muir_block check_p3_block
  lower_block-core b core h =
      let (u, p, q) =
        >>=-eq-ok (require (not (is_nil b.instructions)) (empty_block b.label)) (λ _. muir_body b)
          h in
      let (v, r, t) =
        >>=-eq-ok (check_all (check_muir_instr labels) b.instructions)
          (λ _. check_muir_terminator b.label (get_last? b.instructions)) q in
      let (js, es, ks, l) = lower_instrs-core b.label b.instructions core r t in
      let (i, last) = check_p3_terminator-br b.label (get_last? js) l in
      (
        record { label = b.label; instructions = js },
        rw es,
        rw (is_nil-last js (P3.Instr.br i) last) (rw ks l),
        refl,
      )

  lower_blocks-core :
      (bs : List Muir.Block)
      → All IsCoreBlock bs
      → check_all (check_muir_block labels) bs ≡ ok tt
      → (cs : List P3.Block) × (lower_blocks bs ≡ ok cs)
        × (check_all (check_p3_block labels) cs ≡ ok tt)
        × (map p3_label cs ≡ map muir_label bs)
  unfolding lower_blocks check_all
  lower_blocks-core [] core h = ([], refl, refl, refl)
  lower_blocks-core (b ∷ bs) core h =
      let (u, p, q) =
        >>=-eq-ok (check_muir_block labels b) (λ _. check_all (check_muir_block labels) bs) h in
      let (c, e, k, l) = lower_block-core b core.0 p in
      let (cs, es, ks, ls) = lower_blocks-core bs core.1 q in
      (c ∷ cs, rw e (rw es), rw k ks, ap₂ ◌∷◌ l ls)

verify_muir-inv :
    (f : Muir.Function)
    → verify_muir f ≡ ok tt
    → (nat_eqb (length (to_set (map muir_label f.blocks))) (length f.blocks) ≡ true)
      × (check_all (check_muir_block (to_set (map muir_label f.blocks))) f.blocks ≡ ok tt)
unfolding verify_muir muir_labels
verify_muir-inv f h =
    let same : Bool = nat_eqb (length (to_set (map muir_label f.blocks))) (length f.blocks) in
    let (u, p, q) =
      >>=-eq-ok (require same duplicate_label)
        (λ _. check_all (check_muir_block (to_set (map muir_label f.blocks))) f.blocks) h in
    (require-true same duplicate_label p, q)

abbrev lowered : Muir.Function → List P3.Block → P3.Function
lowered f blocks = record { name = f.name; blocks = blocks; frame_slots = f.frame_slots }

verify_p3-lowered :
    (f : Muir.Function) (cs : List P3.Block)
    → map p3_label cs ≡ map muir_label f.blocks
    → nat_eqb (length (to_set (map muir_label f.blocks))) (length f.blocks) ≡ true
    → check_all (check_p3_block (to_set (map muir_label f.blocks))) cs ≡ ok tt
    → verify_p3 (lowered f cs) ≡ ok tt
unfolding verify_p3 p3_labels
verify_p3-lowered f cs ls p ks =
    let len : length cs ≡ length f.blocks =
      sym (length-map cs p3_label) ∙ ap length ls ∙ length-map f.blocks muir_label in
    rw (ls, len, p) ks

lower_function-ok :
    (f : Muir.Function) (cs : List P3.Block)
    → verify_muir f ≡ ok tt
    → lower_blocks f.blocks ≡ ok cs
    → verify_p3 (lowered f cs) ≡ ok tt
    → lower_function f ≡ ok (lowered f cs)
unfolding lower_function
lower_function-ok f cs h es v = rw (h, es, v)

-- Lowering a verified function of machine instructions with well-formed moves succeeds: the second
-- verifier has nothing to object to.
pub lower_function-total :
    (f : Muir.Function)
    → verify_muir f ≡ ok tt
    → All IsCoreBlock f.blocks
    → (g : P3.Function) × (lower_function f ≡ ok g)
lower_function-total f h core =
    let (p, q) = verify_muir-inv f h in
    let (cs, es, ks, ls) = lower_blocks-core (to_set (map muir_label f.blocks)) f.blocks core q in
    (lowered f cs, lower_function-ok f cs h es (verify_p3-lowered f cs ls p ks))

abbrev pub is_pseudo : Muir.Instr → Bool
is_pseudo (Muir.Instr.mov i) = false
is_pseudo (Muir.Instr.sub i) = false
is_pseudo (Muir.Instr.br i) = false
is_pseudo _ = true

-- The first instruction that strict P3 does not have, in program order.
unfoldable pub first_pseudo : List Muir.Instr → Option Muir.Instr
first_pseudo [] = none
first_pseudo (i ∷ is) = if is_pseudo i then some i else first_pseudo is

abbrev pub or_else : Option Muir.Instr → Option Muir.Instr → Option Muir.Instr
or_else (some i) rest = some i
or_else none rest = rest

unfoldable pub first_pseudo_in : List Muir.Block → Option Muir.Instr
unfolding first_pseudo
first_pseudo_in [] = none
first_pseudo_in (b ∷ bs) = or_else (first_pseudo b.instructions) (first_pseudo_in bs)

abbrev IsLoweredAs : {A : Type 0} → Option Muir.Instr → Lowered A → Type 0
IsLoweredAs {A} (some i) r = r ≡ err (pseudo_must_be_expanded i)
IsLoweredAs {A} none r = (a : A) × (r ≡ ok a)

lower_instr-pseudo :
    (i : Muir.Instr) → is_pseudo i ≡ true → lower_instr i ≡ err (pseudo_must_be_expanded i)
unfolding lower_instr
lower_instr-pseudo (Muir.Instr.mov i) h = absurd (cc)
lower_instr-pseudo (Muir.Instr.sub i) h = absurd (cc)
lower_instr-pseudo (Muir.Instr.br i) h = absurd (cc)
lower_instr-pseudo _ h = refl

lower_instr-machine :
    (i : Muir.Instr) → is_pseudo i ≡ false → (j : P3.Instr) × (lower_instr i ≡ ok j)
unfolding lower_instr
lower_instr-machine (Muir.Instr.mov i) h = (_, refl)
lower_instr-machine (Muir.Instr.sub i) h = (_, refl)
lower_instr-machine (Muir.Instr.br i) h = (_, refl)
lower_instr-machine _ h = absurd (cc)

lowered-cons :
    {A : Type 0} (a : A) (o : Option Muir.Instr) (r : Lowered (List A))
    → IsLoweredAs o r
    → IsLoweredAs o (r >>= λ rest. ok (a ∷ rest))
lowered-cons a none r (x, e) = (a ∷ x, rw e)
lowered-cons a (some i) r e = rw e

lower_instrs-first : (is : List Muir.Instr) → IsLoweredAs (first_pseudo is) (lower_instrs is)
unfolding first_pseudo lower_instrs
lower_instrs-first [] = ([], refl)
lower_instrs-first (i ∷ is) = elim (Bool-cases (is_pseudo i)) [
  | inl p ↦ rw (p, lower_instr-pseudo i p)
  | inr p ↦
      let (j, e) = lower_instr-machine i p in
      rw p (rw e (lowered-cons j (first_pseudo is) (lower_instrs is) (lower_instrs-first is)))
]

lower_blocks-first : (bs : List Muir.Block) → IsLoweredAs (first_pseudo_in bs) (lower_blocks bs)
unfolding first_pseudo_in lower_blocks lower_block
lower_blocks-first [] = ([], refl)
lower_blocks-first (b ∷ bs) = elim (Option-cases (first_pseudo b.instructions)) [
  | inl n ↦
      let (js, e) : (js : List P3.Instr) × (lower_instrs b.instructions ≡ ok js) =
        subst (λ o. IsLoweredAs o (lower_instrs b.instructions)) n
          (lower_instrs-first b.instructions) in
      rw n (
        rw e (
          lowered-cons (record { label = b.label; instructions = js }) (first_pseudo_in bs)
            (lower_blocks bs) (lower_blocks-first bs)))
  | inr (p, s) ↦
      let e : lower_instrs b.instructions ≡ err (pseudo_must_be_expanded p) =
        subst (λ o. IsLoweredAs o (lower_instrs b.instructions)) s
          (lower_instrs-first b.instructions) in
      rw s (rw e)
]

-- On a verified function with a pseudo-instruction, lowering fails at the first one.
pub lower_function-pseudo :
    (f : Muir.Function) (p : Muir.Instr)
    → verify_muir f ≡ ok tt
    → first_pseudo_in f.blocks ≡ some p
    → lower_function f ≡ err (pseudo_must_be_expanded p)
unfolding lower_function
lower_function-pseudo f p h e =
    rw (h, subst (λ o. IsLoweredAs o (lower_blocks f.blocks)) e (lower_blocks-first f.blocks))
