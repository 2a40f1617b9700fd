-- ===== src/Abi/Expanded.antt =====
-- What `expand_function` (src/minimachine/abi.py) returns: nothing is left of the pseudo-
-- instructions, the statistics count the calls, and the result can be lowered to strict P3.
use minimachine.Prelude.{
  if◌then◌else◌, ◌+◌, String, ◌≡◌, refl, sym, subst, ◌∙◌, false, List, [], ◌∷◌, All, length, ok,
  err, arith, >>=-eq-ok, ok-injective, ap,
}
use minimachine.Muir
use minimachine.P3
use minimachine.Verify.{Check, verify_muir, check_all, abi_pseudo_survived}
use minimachine.Verify.Sets.{Member}
use minimachine.Lower.{lower_function}
use minimachine.Lower.Total.{IsCore, IsCoreBlock, lower_function-total}
use minimachine.Abi.Builder.{AbiStats, Builder, init_builder}
use minimachine.Abi.Later.{Gives-value}
use minimachine.Abi.Sequences.{mov, sub, uncond}
use minimachine.Abi.Expand.{
  checked, built_function, finish_function, expand_blocks, entry_label, is_abi_pseudo,
  verify_abi_normalized, expand_function,
}
use minimachine.Abi.Normalized.{ExitsLast, calls_in}
use minimachine.Abi.Chain.{Chain, expand_blocks-Chain}

abbrev pub IsPlain : Muir.Instr → Type 0
IsPlain i = is_abi_pseudo i ≡ false

mov-IsPlain : (dst src : Muir.Operand) → IsPlain (mov dst src)
unfolding mov is_abi_pseudo
mov-IsPlain dst src = refl

sub-IsPlain : (dst : String) (a b : Muir.Value) → IsPlain (sub dst a b)
unfolding sub is_abi_pseudo
sub-IsPlain dst a b = refl

uncond-IsPlain : (t : Muir.Target) → IsPlain (uncond t)
unfolding uncond is_abi_pseudo
uncond-IsPlain t = refl

IsCore-IsPlain : (i : Muir.Instr) → IsCore i → IsPlain i
unfolding is_abi_pseudo
IsCore-IsPlain (Muir.Instr.mov i) h = refl
IsCore-IsPlain (Muir.Instr.sub i) h = refl
IsCore-IsPlain (Muir.Instr.br i) h = refl
IsCore-IsPlain (Muir.Instr.call c vs ns) h = absurd h
IsCore-IsPlain (Muir.Instr.helper c vs ns) h = absurd h
IsCore-IsPlain (Muir.Instr.sys c vs ns) h = absurd h
IsCore-IsPlain (Muir.Instr.ret v) h = absurd h
IsCore-IsPlain (Muir.Instr.trap r) h = absurd h
IsCore-IsPlain (Muir.Instr.arch_escape k t ts) h = absurd h

mov-IsCore : (dst src : Muir.Operand) → IsCore (mov dst src)
unfolding mov
mov-IsCore dst src = (tt, tt)

sub-IsCore : (dst : String) (a b : Muir.Value) → IsCore (sub dst a b)
unfolding sub
sub-IsCore dst a b = tt

uncond-IsCore : (t : Muir.Target) → IsCore (uncond t)
unfolding uncond
uncond-IsCore t = tt

-- The blocks of `b` with every return or trap after the calls.
abbrev pub AreExitsLast : List Muir.Block → Type 0
AreExitsLast bs = All (λ (b : Muir.Block). ExitsLast b.instructions) bs

checked-ok : (c : Check) (u : Unit {0}) → checked c ≡ ok u → c ≡ ok tt
checked-ok (ok u) v h = refl
checked-ok (err e) v h = absurd (cc)

-- The steps of an `expand_function` that succeeds.
record IsExpanded (f g : Muir.Function) (stats : AbiStats) : Type 0 where
  output : List Muir.Block
  built : Builder
  expands :
      expand_blocks (entry_label f.blocks) f.args f.blocks (init_builder f) ≡ ok (output, built)
  strict : verify_muir (built_function f output built) ≡ ok tt
  result : built_function f output built ≡ g
  counts : built.stats ≡ stats

expand_function-inv :
    (f g : Muir.Function) (stats : AbiStats)
    → expand_function f ≡ ok (g, stats)
    → IsExpanded f g stats
unfolding expand_function finish_function
expand_function-inv f g stats h =
    let (u, e, h) = >>=-eq-ok (checked (verify_muir f)) _ h in
    let (r, e, h) =
      >>=-eq-ok (expand_blocks (entry_label f.blocks) f.args f.blocks (init_builder f)) _ h in
    let (v, strict, h) = >>=-eq-ok (checked (verify_muir (built_function f r.0 r.1))) _ h in
    let (w, n, h) = >>=-eq-ok (checked (verify_abi_normalized (built_function f r.0 r.1))) _ h in
    let same = ok-injective h in
    record {
      output = r.0;
      built = r.1;
      expands = e;
      strict = checked-ok (verify_muir (built_function f r.0 r.1)) v strict;
      result = ap (λ x. x.0) same;
      counts = ap (λ x. x.1) same;
    }

ready :
    (P : Muir.Instr → Type 0) (bs : List Muir.Block)
    → All (λ (b : Muir.Block). All (λ i. is_abi_pseudo i ≡ false → P i) b.instructions) bs
    → AreExitsLast bs
    → All
        (λ (b : Muir.Block).
          All (λ i. is_abi_pseudo i ≡ false → P i) b.instructions × ExitsLast b.instructions)
        bs
ready P [] h k = tt
ready P (b ∷ bs) h k = ((h.0, k.0), ready P bs h.1 k.1)

All-plain : (is : List Muir.Instr) → All (λ i. IsPlain i → IsPlain i) is
All-plain [] = tt
All-plain (i ∷ is) = ((λ h. h), All-plain is)

blocks-plain :
    (bs : List Muir.Block)
    → All (λ (b : Muir.Block). All (λ i. IsPlain i → IsPlain i) b.instructions) bs
blocks-plain [] = tt
blocks-plain (b ∷ bs) = (All-plain b.instructions, blocks-plain bs)

plain-Chain :
    (entry : String) (args : List String) (bs : List Muir.Block) (s t : Builder)
    (out : List Muir.Block)
    → AreExitsLast bs
    → expand_blocks entry args bs s ≡ ok (out, t)
    → Chain IsPlain mov-IsPlain sub-IsPlain uncond-IsPlain
        (λ i h. h)
        (length bs)
        (calls_in bs)
        s
        out
        t
plain-Chain entry args bs s t out exits e =
    Gives-value
      (Chain IsPlain mov-IsPlain sub-IsPlain uncond-IsPlain (λ i h. h) (length bs) (calls_in bs) s)
      _ out t
      (expand_blocks-Chain IsPlain mov-IsPlain sub-IsPlain uncond-IsPlain (λ i h. h) entry args bs s
        (ready IsPlain bs (blocks-plain bs) exits))
      e

plain-checks :
    (is : List Muir.Instr) (f l : String)
    → All IsPlain is
    → check_all (λ i. if is_abi_pseudo i then err (abi_pseudo_survived f l) else ok tt) is ≡ ok tt
unfolding check_all
plain-checks [] f l h = refl
plain-checks (i ∷ is) f l h = rw h.0 (plain-checks is f l h.1)

blocks-check :
    (name : String) (bs : List Muir.Block)
    → All (λ (b : Muir.Block). All IsPlain b.instructions) bs
    → check_all
        (λ (b : Muir.Block).
          check_all
            (λ i. if is_abi_pseudo i then err (abi_pseudo_survived name b.label) else ok tt)
            b.instructions)
        bs
      ≡ ok tt
unfolding check_all
blocks-check name [] h = refl
blocks-check name (b ∷ bs) h =
    rw (plain-checks b.instructions name b.label h.0) (blocks-check name bs h.1)

-- When no return and no trap of a function stands before a call of its block, the final check for
-- pseudo-instructions passes on whatever the loop over the blocks has built.
pub expand_blocks-normalized :
    (f : Muir.Function) (entry : String) (s t : Builder) (out : List Muir.Block)
    → AreExitsLast f.blocks
    → expand_blocks entry f.args f.blocks s ≡ ok (out, t)
    → verify_abi_normalized (built_function f out t) ≡ ok tt
unfolding verify_abi_normalized built_function
expand_blocks-normalized f entry s t out exits e =
    blocks-check f.name out (plain-Chain entry f.args f.blocks s t out exits e).all

-- Under the same condition, an expansion that succeeds has one block more for each call, helper
-- call and system operation of the source; the statistics count as many continuation blocks, and as
-- many calls of the three kinds together; and every frame slot stays a frame slot.
pub expand_function-counts :
    (f g : Muir.Function) (stats : AbiStats)
    → AreExitsLast f.blocks
    → expand_function f ≡ ok (g, stats)
    → (length g.blocks ≡ length f.blocks + calls_in f.blocks)
      × (stats.continuation_blocks ≡ calls_in f.blocks)
      × (stats.calls + stats.helpers + stats.system_ops ≡ calls_in f.blocks)
      × ((x : String) → Member x f.frame_slots → Member x g.frame_slots)
unfolding built_function init_builder
expand_function-counts f g stats exits e =
    let x = expand_function-inv f g stats e in
    let c =
      plain-Chain (entry_label f.blocks) f.args f.blocks (init_builder f) x.built x.output exits
        x.expands in
    (
      ap (λ (g : Muir.Function). length g.blocks) (sym x.result) ∙ c.size,
      ap (λ (a : AbiStats). a.continuation_blocks) (sym x.counts)
          ∙ omega (arith, c.later.continuations),
      ap (λ (a : AbiStats). a.calls + a.helpers + a.system_ops) (sym x.counts)
          ∙ omega (arith, c.later.calls),
      λ y m. subst (λ (g : Muir.Function). Member y g.frame_slots) x.result (c.later.slots y m),
    )

-- Under the same condition, and when each instruction that the expansion keeps is a well-formed
-- move, a subtraction or a branch, the result of an expansion that succeeds is lowered to P3.
pub expand_function-lowers :
    (f g : Muir.Function) (stats : AbiStats)
    → AreExitsLast f.blocks
    → All
        (λ (b : Muir.Block). All (λ i. is_abi_pseudo i ≡ false → IsCore i) b.instructions)
        f.blocks
    → expand_function f ≡ ok (g, stats)
    → (h : P3.Function) × (lower_function g ≡ ok h)
unfolding built_function
expand_function-lowers f g stats exits core e =
    let x = expand_function-inv f g stats e in
    let c =
      Gives-value
        (Chain IsCore mov-IsCore sub-IsCore uncond-IsCore IsCore-IsPlain (length f.blocks)
          (calls_in f.blocks) (init_builder f))
        _ x.output x.built
        (expand_blocks-Chain IsCore mov-IsCore sub-IsCore uncond-IsCore IsCore-IsPlain
          (entry_label f.blocks) f.args f.blocks (init_builder f)
          (ready IsCore f.blocks core exits))
        x.expands in
    lower_function-total g (subst (λ g. verify_muir g ≡ ok tt) x.result x.strict)
      (subst (λ (g : Muir.Function). All IsCoreBlock g.blocks) x.result c.all)
