-- ===== src/Lower/Laws.antt =====
-- `lower_function` (src/minimachine/lower_p3.py): what it returns is strict P3 with no `Arbitrary`
-- left in an operand, and on legalized input it fails only at a pseudo-instruction.
use minimachine.Prelude.{
  ok-injective, subst, String, ◌≡◌, refl, List, [], ◌∷◌, All, map, Result, ok, err, ◌>>=◌, ◌>>◌,
  >>=-eq-ok, ap₂,
}
use minimachine.Muir
use minimachine.Muir.{
  Value, slot, imm, symbol, reloc, arbitrary, block_addr, sp, Operand, value, mem,
}
use minimachine.P3
use minimachine.Verify.{VerifyError, verify_muir, verify_p3, muir_labels, p3_labels}
use minimachine.Verify.Strict.{IsStrict, verify_p3-IsStrict}
use minimachine.Lower.{
  Lowered, lower_value, lower_operand, lower_instr, lower_instrs, lower_block, lower_blocks,
  lower_function, verified,
}

-- Neither `undef` nor `poison` is left.
abbrev pub IsConcrete : Value → Type 0
IsConcrete (arbitrary kind) = ⊥
IsConcrete v = Unit

abbrev pub IsConcreteOperand : Operand → Type 0
IsConcreteOperand (value v) = IsConcrete v
IsConcreteOperand (mem address width) = IsConcrete address.base

abbrev pub HasConcreteOperands : P3.Instr → Type 0
HasConcreteOperands (P3.Instr.mov i) = IsConcreteOperand i.dst × IsConcreteOperand i.src
HasConcreteOperands (P3.Instr.sub i) = IsConcrete i.a × IsConcrete i.b
HasConcreteOperands (P3.Instr.br i) = IsConcrete i.a × IsConcrete i.b

abbrev pub IsConcreteBlock : P3.Block → Type 0
IsConcreteBlock b = All HasConcreteOperands b.instructions

lower_value-IsConcrete : (v : Value) → IsConcrete (lower_value v)
unfolding lower_value
lower_value-IsConcrete (arbitrary k) = tt
lower_value-IsConcrete (slot n) = tt
lower_value-IsConcrete (imm n) = tt
lower_value-IsConcrete (symbol s) = tt
lower_value-IsConcrete (reloc s n) = tt
lower_value-IsConcrete (block_addr f l) = tt
lower_value-IsConcrete sp = tt

lower_operand-IsConcrete : (o : Operand) → IsConcreteOperand (lower_operand o)
unfolding lower_operand
lower_operand-IsConcrete (value v) = lower_value-IsConcrete v
lower_operand-IsConcrete (mem a w) = lower_value-IsConcrete a.base

lower_instr-concrete :
    (i : Muir.Instr) (j : P3.Instr) → lower_instr i ≡ ok j → HasConcreteOperands j
unfolding lower_instr
lower_instr-concrete (Muir.Instr.mov i) j e =
    subst HasConcreteOperands (ok-injective e)
      (lower_operand-IsConcrete i.dst, lower_operand-IsConcrete i.src)
lower_instr-concrete (Muir.Instr.sub i) j e =
    subst HasConcreteOperands (ok-injective e)
      (lower_value-IsConcrete i.a, lower_value-IsConcrete i.b)
lower_instr-concrete (Muir.Instr.br i) j e =
    subst HasConcreteOperands (ok-injective e)
      (lower_value-IsConcrete i.a, lower_value-IsConcrete i.b)
lower_instr-concrete (Muir.Instr.call c a r) j e = absurd (cc)
lower_instr-concrete (Muir.Instr.ret v) j e = absurd (cc)
lower_instr-concrete (Muir.Instr.helper s a r) j e = absurd (cc)
lower_instr-concrete (Muir.Instr.sys s a r) j e = absurd (cc)
lower_instr-concrete (Muir.Instr.trap s) j e = absurd (cc)
lower_instr-concrete (Muir.Instr.arch_escape k t ts) j e = absurd (cc)

lower_instrs-concrete :
    (is : List Muir.Instr) (js : List P3.Instr)
    → lower_instrs is ≡ ok js
    → All HasConcreteOperands js
unfolding lower_instrs
lower_instrs-concrete [] js e = subst (All HasConcreteOperands) (ok-injective e) tt
lower_instrs-concrete (i ∷ is) js e =
    let (j, p, q) = >>=-eq-ok (lower_instr i) (λ j. lower_instrs is >>= λ js. ok (j ∷ js)) e in
    let (ks, r, t) = >>=-eq-ok (lower_instrs is) (λ js. ok (j ∷ js)) q in
    subst (All HasConcreteOperands) (ok-injective t)
      (lower_instr-concrete i j p, lower_instrs-concrete is ks r)

lower_block-concrete :
    (b : Muir.Block) (c : P3.Block) → lower_block b ≡ ok c → IsConcreteBlock c × (c.label ≡ b.label)
unfolding lower_block
lower_block-concrete b c e =
    let (js, p, q) =
      >>=-eq-ok (lower_instrs b.instructions)
        (λ out. ok (record { label = b.label; instructions = out })) e in
    subst (λ (c : P3.Block). IsConcreteBlock c × (c.label ≡ b.label)) (ok-injective q)
      (lower_instrs-concrete b.instructions js p, refl)

abbrev p3_label : P3.Block → String
p3_label b = b.label

abbrev muir_label : Muir.Block → String
muir_label b = b.label

lower_blocks-concrete :
    (bs : List Muir.Block) (cs : List P3.Block)
    → lower_blocks bs ≡ ok cs
    → All IsConcreteBlock cs × (map p3_label cs ≡ map muir_label bs)
unfolding lower_blocks
lower_blocks-concrete [] cs e =
    subst (λ cs. All IsConcreteBlock cs × (map p3_label cs ≡ [])) (ok-injective e) (tt, refl)
lower_blocks-concrete (b ∷ bs) cs e =
    let (c, p, q) = >>=-eq-ok (lower_block b) (λ c. lower_blocks bs >>= λ cs. ok (c ∷ cs)) e in
    let (ds, r, t) = >>=-eq-ok (lower_blocks bs) (λ cs. ok (c ∷ cs)) q in
    let (one, l) = lower_block-concrete b c p in
    let (rest, ls) = lower_blocks-concrete bs ds r in
    subst (λ cs. All IsConcreteBlock cs × (map p3_label cs ≡ map muir_label (b ∷ bs)))
      (ok-injective t) ((one, rest), ap₂ ◌∷◌ l ls)

abbrev lowered : Muir.Function → List P3.Block → P3.Function
lowered f blocks = record { name = f.name; blocks = blocks; frame_slots = f.frame_slots }

abbrev lower_checked : Muir.Function → List P3.Block → Lowered P3.Function
lower_checked f blocks = do verified (verify_p3 (lowered f blocks)); ok (lowered f blocks)

abbrev lower_after : Muir.Function → Lowered P3.Function
lower_after f = lower_blocks f.blocks >>= lower_checked f

verified-ok : {A : Type 0} (r : Result VerifyError A) (a : A) → verified r ≡ ok a → r ≡ ok a
verified-ok (ok b) a h = cc
verified-ok (err e) a h = absurd (cc)

-- A function that lowering returns is strict P3 with no `Arbitrary` in any operand of a move,
-- subtraction or comparison, and it keeps the name, the block labels in order and the frame slots.
pub lower_function-IsStrict :
    (f : Muir.Function) (g : P3.Function)
    → lower_function f ≡ ok g
    → IsStrict g
      × All IsConcreteBlock g.blocks
      × (p3_labels g ≡ muir_labels f)
      × (g.name ≡ f.name)
      × (g.frame_slots ≡ f.frame_slots)
unfolding lower_function p3_labels muir_labels
lower_function-IsStrict f g e =
    let (u, p, q) = >>=-eq-ok (verified (verify_muir f)) (λ _. lower_after f) e in
    let (cs, r, t) = >>=-eq-ok (lower_blocks f.blocks) (λ cs. lower_checked f cs) q in
    let (v, x, y) = >>=-eq-ok (verified (verify_p3 (lowered f cs))) (λ _. ok (lowered f cs)) t in
    let (concrete, labels) = lower_blocks-concrete f.blocks cs r in
    subst
      (λ (g : P3.Function).
        IsStrict g
        × All IsConcreteBlock g.blocks
        × (map p3_label g.blocks ≡ map muir_label f.blocks)
        × (g.name ≡ f.name)
        × (g.frame_slots ≡ f.frame_slots))
      (ok-injective y)
      (
        (verify_p3-IsStrict (lowered f cs)).0 (verified-ok (verify_p3 (lowered f cs)) tt x),
        concrete,
        labels,
        refl,
        refl,
      )
