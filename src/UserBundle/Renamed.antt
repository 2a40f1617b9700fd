-- ===== src/UserBundle/Renamed.antt =====
-- A strict function keeps being strict when its symbols are renamed
-- (src/minimachine/user_bundle.py, `_rewrite_function`).
use minimachine.Prelude.{
  ap₂, String, ◌≡◌, refl, sym, subst, Option, none, some, List, [], ◌∷◌, map, Result, ok, All, inl,
  inr,
}
use minimachine.Muir.{Target, Address, BrFields}
use minimachine.P3
use minimachine.Verify.{p3_labels}
use minimachine.Verify.Strict.{
  IsTarget, IsStrictInstr, IsStrictBlock, IsStrict, EndsInBr, verify_p3-IsStrict,
}
use minimachine.Verify.Sets.{AreDistinct}
use minimachine.UserImage.Codec.{IsOne, IsTarget-IsOne}
use minimachine.UserBundle.{
  BundleError, rewrite_value, Mapping, rename, for_each, rewrite_target, rewrite_instruction,
  rewrite_block, rewrite_function,
}

-- A result that is there and has a property.
abbrev pub Gives : {A : Type 0} → Result BundleError A → (A → Type 0) → Type 0
Gives {A} m P = (a : A) × (m ≡ ok a) × P a

abbrev target_with : Option String → Option String → Option String → Option Address → Target
target_with l s sl a = record { label = l; symbol = s; slot = sl; address = a }

module _ (mapping : Mapping) (labels : List String) where
  form_kept :
      (l s sl : Option String) (a : Option Address)
      → IsTarget labels (target_with l s sl a)
      → IsOne (target_with l s sl a)
      → Gives (rewrite_target mapping (target_with l s sl a)) (IsTarget labels)
  unfolding rewrite_target
  form_kept (some l) none none none t h = (_, refl, t)
  form_kept none (some s) none none t h = (_, refl, inr (refl, inl refl))
  form_kept none none (some s) none t h = (_, refl, inr (refl, inr refl))
  form_kept none none none (some a) t h = (_, refl, inr (refl, inr refl))
  form_kept (some l) (some s) sl a t h = absurd (cc)
  form_kept (some l) none (some s) a t h = absurd (cc)
  form_kept (some l) none none (some a) t h = absurd (cc)
  form_kept none (some s) (some l) a t h = absurd (cc)
  form_kept none (some s) none (some a) t h = absurd (cc)
  form_kept none none (some s) (some a) t h = absurd (cc)
  form_kept none none none none t h = absurd (cc)

  target_kept :
      (t : Target) → IsTarget labels t → Gives (rewrite_target mapping t) (IsTarget labels)
  target_kept t h = form_kept t.label t.symbol t.slot t.address h (IsTarget-IsOne labels t h)

  -- An instruction stays strict, and a branch stays a branch.
  abbrev Kept : P3.Instr → P3.Instr → Type 0
  Kept (P3.Instr.br i) (P3.Instr.br j) = IsStrictInstr labels (P3.Instr.br j)
  Kept (P3.Instr.br i) _ = ⊥
  Kept i j = IsStrictInstr labels j

  instr-Kept :
      (i : P3.Instr) → IsStrictInstr labels i → Gives (rewrite_instruction mapping i) (Kept i)
  unfolding rewrite_instruction
  instr-Kept (P3.Instr.mov i) h = (_, refl, h)
  instr-Kept (P3.Instr.sub i) h = (_, refl, tt)
  instr-Kept (P3.Instr.br i) h =
      let (t, e, p) = target_kept i.true_target h.0 in
      let (u, f, q) = target_kept i.false_target h.1 in
      (
        P3.Instr.br (record i {
          a = rewrite_value mapping i.a;
          b = rewrite_value mapping i.b;
          true_target = t;
          false_target = u;
        }),
        rw (e, f) refl,
        (p, q),
      )

  Kept-IsStrictInstr : (i j : P3.Instr) → Kept i j → IsStrictInstr labels j
  Kept-IsStrictInstr (P3.Instr.br i) (P3.Instr.br j) h = h
  Kept-IsStrictInstr (P3.Instr.br i) (P3.Instr.mov j) h = absurd h
  Kept-IsStrictInstr (P3.Instr.br i) (P3.Instr.sub j) h = absurd h
  Kept-IsStrictInstr (P3.Instr.mov i) j h = h
  Kept-IsStrictInstr (P3.Instr.sub i) j h = h

  -- One list element by element.
  abbrev AreKept : List P3.Instr → List P3.Instr → Type 0
  AreKept [] [] = Unit
  AreKept (i ∷ is) (j ∷ js) = Kept i j × AreKept is js
  AreKept [] (j ∷ js) = ⊥
  AreKept (i ∷ is) [] = ⊥

  instrs_kept :
      (is : List P3.Instr)
      → All (IsStrictInstr labels) is
      → Gives (for_each (rewrite_instruction mapping) is) (AreKept is)
  unfolding for_each
  instrs_kept [] h = ([], refl, tt)
  instrs_kept (i ∷ is) h =
      let (j, e, p) = instr-Kept i h.0 in
      let (js, f, q) = instrs_kept is h.1 in (j ∷ js, rw (e, f) refl, (p, q))

  AreKept-All : (is js : List P3.Instr) → AreKept is js → All (IsStrictInstr labels) js
  AreKept-All [] [] h = tt
  AreKept-All (i ∷ is) (j ∷ js) h = (Kept-IsStrictInstr i j h.0, AreKept-All is js h.1)
  AreKept-All [] (j ∷ js) h = absurd h
  AreKept-All (i ∷ is) [] h = absurd h

  one-Kept :
      (i j : P3.Instr) (b : BrFields) → Kept i j → some i ≡ some (P3.Instr.br b) → EndsInBr (j ∷ [])
  one-Kept (P3.Instr.br i) (P3.Instr.br j) b h e = (j, refl)
  one-Kept (P3.Instr.br i) (P3.Instr.mov j) b h e = absurd h
  one-Kept (P3.Instr.br i) (P3.Instr.sub j) b h e = absurd h
  one-Kept (P3.Instr.mov i) j b h e = absurd (cc)
  one-Kept (P3.Instr.sub i) j b h e = absurd (cc)

  last_kept : (is js : List P3.Instr) → AreKept is js → EndsInBr is → EndsInBr js
  last_kept (i ∷ []) (j ∷ []) h (b, e) = one-Kept i j b h.0 e
  last_kept (i ∷ i' ∷ is) (j ∷ j' ∷ js) h e = last_kept (i' ∷ is) (j' ∷ js) h.1 e
  last_kept [] js h (b, e) = absurd (cc)
  last_kept (i ∷ is) [] h e = absurd h
  last_kept (i ∷ []) (j ∷ j' ∷ js) h e = absurd (h.1)
  last_kept (i ∷ i' ∷ is) (j ∷ []) h e = absurd (h.1)

  block_kept :
      (b : P3.Block)
      → IsStrictBlock labels b
      → Gives (rewrite_block mapping b) (λ c. IsStrictBlock labels c × (c.label ≡ b.label))
  unfolding rewrite_block
  block_kept b h =
      let (js, e, k) = instrs_kept b.instructions h.0 in
      (
        record { label = b.label; instructions = js },
        rw e refl,
        ((AreKept-All b.instructions js k, last_kept b.instructions js k h.1), refl),
      )

  blocks_kept :
      (bs : List P3.Block)
      → All (IsStrictBlock labels) bs
      → Gives
          (for_each (rewrite_block mapping) bs)
          (λ cs. All (IsStrictBlock labels) cs × (map (λ c. c.label) cs ≡ map (λ b. b.label) bs))
  unfolding for_each
  blocks_kept [] h = ([], refl, (tt, refl))
  blocks_kept (b ∷ bs) h =
      let (c, e, p) = block_kept b h.0 in
      let (cs, f, q) = blocks_kept bs h.1 in
      (
        c ∷ cs,
        rw (e, f) refl,
        ((p.0, q.0), ap₂ (λ (l : String) (ls : List String). l ∷ ls) p.1 q.1),
      )

-- A strict function is rewritten without an exception, whatever the mapping, and the result is
-- strict, with the mapped name, the same labels in order and the same frame slots.
pub rewrite_function-IsStrict :
    (mapping : Mapping) (f : P3.Function)
    → IsStrict f
    → (g : P3.Function) × (rewrite_function mapping f ≡ ok g)
      × IsStrict g
      × (p3_labels g ≡ p3_labels f)
      × (g.name ≡ rename mapping f.name)
      × (g.frame_slots ≡ f.frame_slots)
unfolding rewrite_function p3_labels
rewrite_function-IsStrict mapping f h =
    let (blocks, e, p) = blocks_kept mapping (p3_labels f) f.blocks h.1 in
    let g : P3.Function = record {
      name = rename mapping f.name;
      blocks = blocks;
      frame_slots = f.frame_slots;
    } in
    let strict : IsStrict g =
      subst (λ (ls : List String). AreDistinct ls × All (IsStrictBlock ls) blocks) (sym p.1)
        (h.0, p.0) in
    (g, rw (e, (verify_p3-IsStrict g).1 strict) refl, strict, p.1, refl, refl)
