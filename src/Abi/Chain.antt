-- ===== src/Abi/Chain.antt =====
-- The chain of blocks that `expand_function` (src/minimachine/abi.py) makes of each block: one more
-- block for each call, none of them with a pseudo-instruction.
use minimachine.Prelude.{
  ℕ, zero, suc, ◌+◌, String, ◌≡◌, refl, subst, ◌∙◌, Bool, true, false, Option, none, some, List, [],
  ◌∷◌, ◌++◌, All, All-append, length, length-append, Result, ok, err, arith, ◌==◌, string_eq,
}
use minimachine.Muir
use minimachine.Muir.{Operand, Value, Target}
use minimachine.Abi.Builder.{AbiError, Builder, Build, counting, new_label, function_name}
use minimachine.Abi.Later.{
  IsLater, IsLater-trans, IsLater-cast, IsLater-same, Gives, Gives-bind, Gives-ok, Stays,
  new_label-Stays,
}
use minimachine.Abi.Made.{◌&◌, prologue-Made, call_sequence-Made, Made, Gave, load_results-All}
use minimachine.Abi.Sequences.{mov, sub, uncond, call_sequence, prologue}
use minimachine.Abi.Expand.{
  Split, split_call, count_calls, expand_tail, request_of, load_results, finish_block, expand_round,
  expand_pending, expand_block, expand_blocks, is_abi_pseudo,
}
use minimachine.Abi.Normalized.{
  OneCall, request_of-OneCall, calls_in, IsReady, SplitsWell, split_call-well, expand_tail-Made,
  count_calls-plain, IsReady-plain,
}

left :
    (is js : List Muir.Instr) (c : ℕ)
    → count_calls is ≡ suc (count_calls js)
    → count_calls is ≡ suc c
    → count_calls js ≡ c
left is js c a b = omega (arith, a, b)

module _ (P : Muir.Instr → Type 0) (moves : (dst src : Operand) → P (mov dst src))
    (subs : (dst : String) (a b : Value) → P (sub dst a b)) (jumps : (t : Target) → P (uncond t))
    (plain : (i : Muir.Instr) → P i → is_abi_pseudo i ≡ false) where
  abbrev pub Ready : List Muir.Instr → Type 0
  Ready is = IsReady P moves subs jumps plain is

  -- The blocks are `n` and one for each of `c` calls, which are counted.
  pub record Chain (n c : ℕ) (s : Builder) (blocks : List Muir.Block) (t : Builder) : Type 0 where
    pub all : All (λ (b : Muir.Block). All P b.instructions) blocks
    pub later : IsLater s t c c
    pub size : length blocks ≡ n + c

  finish_block-Chain :
      (label : String) (is : List Muir.Instr) (s : Builder)
      → count_calls is ≡ 0
      → Ready is
      → Gives (Chain 1 0 s) (finish_block label is s)
  unfolding finish_block
  finish_block-Chain label is s z r =
      Gives-bind (Made P moves subs jumps s) (Chain 1 0 s) (expand_tail is) _ s
        (expand_tail-Made P moves subs jumps plain is s z r)
        λ tail t h.
          Gives-ok (Chain 1 0 s) _ t (record { all = (h.0 & tt); later = h.1; size = refl })

  expand_round-Chain :
      (go : String → List Muir.Instr → Build (List Muir.Block)) (c : ℕ) (original label : String)
      (is : List Muir.Instr) (o : Option Split) (s : Builder)
      → ((label : String) (is : List Muir.Instr) (s : Builder)
          → count_calls is ≡ c
          → Ready is
          → Gives (Chain 1 c s) (go label is s))
      → SplitsWell P moves subs jumps plain is o
      → count_calls is ≡ suc c
      → Gives (Chain 1 (suc c) s) (expand_round go original label is o s)
  unfolding expand_round OneCall
  expand_round-Chain go c original label is none s k w z = absurd (omega (arith, w, z))
  expand_round-Chain go c original label is (some p) s k w z =
      Gives-bind (Stays s) (Chain 1 (suc c) s) function_name _ s
        (Gives-ok (Stays s) _ _ (IsLater-same s))
        λ f t a0.
          Gives-bind (Stays t) (Chain 1 (suc c) s) (new_label original "cont") _ t
            (new_label-Stays original "cont" t)
            λ l t1 a1.
              Gives-bind (λ u t2. IsLater t1 t2 1 0) (Chain 1 (suc c) s)
                (counting λ x. record x { continuation_blocks = x.continuation_blocks + 1 }) _ t1
                (Gives-ok _ _ _
                  (record { slots = λ x m. m; continuations = omega arith; calls = omega arith }))
                λ u t2 a2.
                  Gives-bind (OneCall t2) (Chain 1 (suc c) s) (request_of p.pseudo) _ t2
                    (request_of-OneCall p.pseudo t2)
                    λ r t3 a3.
                      Gives-bind (Gave P moves subs jumps t3) (Chain 1 (suc c) s)
                        (call_sequence f r.callee r.args l (length r.result)) _ t3
                        (call_sequence-Made P moves subs jumps f r.callee r.args l (length r.result)
                          t3)
                        λ q t4 h.
                          let loads = load_results q.1 0 r.result in
                          let loads-All = load_results-All P moves subs jumps q.1 0 r.result in
                          Gives-bind (Chain 1 c t4) (Chain 1 (suc c) s) (go l (loads ++ p.after)) _
                            t4
                            (k l (loads ++ p.after) t4
                              (count_calls-plain P moves subs jumps plain loads p.after loads-All
                                ∙ left is p.after c w.count z)
                              (IsReady-plain P moves subs jumps plain loads p.after loads-All
                                w.after))
                            λ rest t5 ch.
                              Gives-ok (Chain 1 (suc c) s)
                                (record { label = label; instructions = p.before ++ q.0 } ∷ rest) t5
                                (record {
                                  all = (All-append P p.before q.0 w.before h.0 & ch.all);
                                  later =
                                      IsLater-cast
                                        (IsLater-trans a0 (
                                          IsLater-trans a1 (
                                            IsLater-trans a2
                                              (IsLater-trans a3 (IsLater-trans h.1 ch.later)))))
                                        (omega arith) (omega arith);
                                  size = omega (arith, ch.size);
                                })

  earlier :
      (s t : Builder) (c : ℕ) (r : Result AbiError (List Muir.Block × Builder))
      → IsLater s t 0 0
      → Gives (Chain 1 c t) r
      → Gives (Chain 1 c s) r
  unfolding Gives
  earlier s t c (ok (bs, u)) a h = record {
    all = h.all;
    later = IsLater-cast (IsLater-trans a h.later) (omega arith) (omega arith);
    size = h.size;
  }
  earlier s t c (err e) a h = tt

  pub expand_pending-Chain :
      (rounds : ℕ) (original label : String) (is : List Muir.Instr) (s : Builder)
      → count_calls is ≡ rounds
      → Ready is
      → Gives (Chain 1 rounds s) (expand_pending rounds original label is s)
  unfolding expand_pending
  expand_pending-Chain zero original label is s z r = finish_block-Chain label is s z r
  expand_pending-Chain (suc rounds) original label is s z r =
      expand_round-Chain (λ l js. expand_pending rounds original l js) rounds original label is
        (split_call is) s (λ l js t. expand_pending-Chain rounds original l js t)
        (split_call-well P moves subs jumps plain is r) z

  expand_block-Chain :
      (at_entry : Bool) (args : List String) (b : Muir.Block) (s : Builder)
      → Ready b.instructions
      → Gives (Chain 1 (count_calls b.instructions) s) (expand_block at_entry args b s)
  unfolding expand_block
  expand_block-Chain false args b s r =
      expand_pending-Chain (count_calls b.instructions) b.label b.label b.instructions s refl r
  expand_block-Chain true args b s r =
      let n = count_calls b.instructions in
      Gives-bind (Made P moves subs jumps s) (Chain 1 n s) (prologue args) _ s
        (prologue-Made P moves subs jumps args s)
        λ loads t h.
          let all = loads ++ b.instructions in
          let e : count_calls all ≡ n =
            count_calls-plain P moves subs jumps plain loads b.instructions h.0 in
          earlier s t n _ h.1 (
            subst
              (λ c. Gives (Chain 1 c t) (expand_pending (count_calls all) b.label b.label all t)) e
              (expand_pending-Chain (count_calls all) b.label b.label all t refl
                (IsReady-plain P moves subs jumps plain loads b.instructions h.0 r)))

  pub expand_blocks-Chain :
      (entry : String) (args : List String) (bs : List Muir.Block) (s : Builder)
      → All (λ (b : Muir.Block). Ready b.instructions) bs
      → Gives (Chain (length bs) (calls_in bs) s) (expand_blocks entry args bs s)
  unfolding expand_blocks calls_in
  expand_blocks-Chain entry args [] s r =
      Gives-ok (Chain 0 0 s) [] s (record { all = tt; later = IsLater-same s; size = refl })
  expand_blocks-Chain entry args (b ∷ bs) s r =
      let n = count_calls b.instructions in
      let Q = Chain (suc (length bs)) (n + calls_in bs) s in
      Gives-bind (Chain 1 n s) Q (expand_block (b.label == entry) args b) _ s
        (expand_block-Chain (b.label == entry) args b s r.0)
        λ first t x.
          Gives-bind (Chain (length bs) (calls_in bs) t) Q (expand_blocks entry args bs) _ t
            (expand_blocks-Chain entry args bs t r.1)
            λ rest u y. Gives-ok Q (first ++ rest) u (record {
              all = All-append (λ (b : Muir.Block). All P b.instructions) first rest x.all y.all;
              later = IsLater-trans x.later y.later;
              size = omega (arith, length-append first rest, x.size, y.size);
            })
