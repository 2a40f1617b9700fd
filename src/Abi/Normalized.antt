-- ===== src/Abi/Normalized.antt =====
-- `expand_function` (src/minimachine/abi.py): what the expansion of a function is made of, and how
-- its blocks, its statistics and its slots grow.
use minimachine.Prelude.{
  ◌+++◌, ◌∙◌, inr, inl, ℕ, suc, ◌+◌, String, ◌≡◌, refl, sym, true, false, Bool-cases, Option, none,
  some, List, [], ◌∷◌, ◌++◌, All, All-append, Result, ok, err, arith, ◌==◌, string_eq,
}
use minimachine.Muir
use minimachine.Muir.{Operand, Value, Target}
use minimachine.Abi.Builder.{AbiError, AbiStats, Builder, ◌>>◌, counting, pure}
use minimachine.Abi.Later.{
  IsLater, IsLater-trans, IsLater-same, Gives, Gives-bind, Gives-ok, Gives-err, Stays,
}
use minimachine.Abi.Made.{◌&◌, return_sequence-Made, made, Made}
use minimachine.Abi.Names.{tag}
use minimachine.Abi.Sequences.{mov, sub, uncond, sysop_symbol}
use minimachine.Abi.Expand.{
  is_call, Split, put_before, split_call, count_calls, expand_leaving, expand_tail, Request,
  request_of, is_abi_pseudo,
}

-- A request counts one call and leaves the rest of the builder.
unfoldable pub OneCall : Builder → Request → Builder → Type 0
OneCall s r t = IsLater s t 0 1

pseudo-false : (i : Muir.Instr) → is_abi_pseudo i ≡ false → is_call i ≡ false
unfolding is_abi_pseudo is_call
pseudo-false (Muir.Instr.mov i) h = refl
pseudo-false (Muir.Instr.sub i) h = refl
pseudo-false (Muir.Instr.br i) h = refl
pseudo-false (Muir.Instr.arch_escape k t ts) h = refl
pseudo-false (Muir.Instr.ret v) h = refl
pseudo-false (Muir.Instr.trap r) h = refl
pseudo-false (Muir.Instr.call c vs ns) h = absurd (cc)
pseudo-false (Muir.Instr.helper c vs ns) h = absurd (cc)
pseudo-false (Muir.Instr.sys c vs ns) h = absurd (cc)

counting-calls :
    (s : Builder) (r : Request) (f : AbiStats → AbiStats)
    → ((x : AbiStats) → (f x).continuation_blocks ≡ x.continuation_blocks)
    → ((x : AbiStats)
        → (f x).calls + (f x).helpers + (f x).system_ops ≡ x.calls + x.helpers + x.system_ops + 1)
    → Gives (OneCall s) ((counting f >> pure r) s)
unfolding OneCall
counting-calls s r f k c = Gives-ok (OneCall s) r _ (record {
  slots = λ x m. m;
  continuations = omega (arith, k s.stats);
  calls = omega (arith, c s.stats);
})

pub request_of-OneCall : (i : Muir.Instr) (s : Builder) → Gives (OneCall s) (request_of i s)
unfolding request_of sysop_symbol
request_of-OneCall (Muir.Instr.call c vs ns) s =
    counting-calls s (record { callee = c; args = vs; result = ns })
      (λ x. record x { calls = x.calls + 1 }) (λ x. refl) (λ x. omega arith)
request_of-OneCall (Muir.Instr.helper n vs ns) s =
    counting-calls s
      (record { callee = record { symbol = some n; slot = none }; args = vs; result = ns })
      (λ x. record x { helpers = x.helpers + 1 }) (λ x. refl) (λ x. omega arith)
request_of-OneCall (Muir.Instr.sys op vs ns) s = elim (Bool-cases (tag op == "")) [
  | inl e ↦ rw e (Gives-err (OneCall s) _)
  | inr e ↦ rw e (
      counting-calls s
        (record {
          callee = record { symbol = some ("__mm_sys_" +++ tag op); slot = none };
          args = vs;
          result = ns;
        })
        (λ x. record x { system_ops = x.system_ops + 1 }) (λ x. refl) (λ x. omega arith))
]
request_of-OneCall (Muir.Instr.mov i) s = Gives-err (OneCall s) _
request_of-OneCall (Muir.Instr.sub i) s = Gives-err (OneCall s) _
request_of-OneCall (Muir.Instr.br i) s = Gives-err (OneCall s) _
request_of-OneCall (Muir.Instr.arch_escape k t ts) s = Gives-err (OneCall s) _
request_of-OneCall (Muir.Instr.ret v) s = Gives-err (OneCall s) _
request_of-OneCall (Muir.Instr.trap r) s = Gives-err (OneCall s) _

-- A return or a trap has no call after it: `before` keeps it as it is.
abbrev pub ExitsLast : List Muir.Instr → Type 0
ExitsLast [] = Unit
ExitsLast (i ∷ is) =
    (is_abi_pseudo i ≡ true → is_call i ≡ false → count_calls is ≡ 0) × ExitsLast is

unfoldable pub calls_in : List Muir.Block → ℕ
calls_in [] = 0
calls_in (b ∷ bs) = count_calls b.instructions + calls_in bs

-- What the output is made of: `P` holds of what the sequences are made of and of no pseudo-
-- instruction.
module _ (P : Muir.Instr → Type 0) (moves : (dst src : Operand) → P (mov dst src))
    (subs : (dst : String) (a b : Value) → P (sub dst a b)) (jumps : (t : Target) → P (uncond t))
    (plain : (i : Muir.Instr) → P i → is_abi_pseudo i ≡ false) where
  -- An instruction that the expansion keeps satisfies `P`.
  abbrev pub Keeps : Muir.Instr → Type 0
  Keeps i = is_abi_pseudo i ≡ false → P i

  abbrev pub IsReady : List Muir.Instr → Type 0
  IsReady is = All Keeps is × ExitsLast is

  pub count_calls-plain :
      (xs ys : List Muir.Instr) → All P xs → count_calls (xs ++ ys) ≡ count_calls ys
  unfolding count_calls
  count_calls-plain [] ys h = refl
  count_calls-plain (x ∷ xs) ys h = rw (pseudo-false x (plain x h.0)) (count_calls-plain xs ys h.1)

  pub IsReady-plain : (xs ys : List Muir.Instr) → All P xs → IsReady ys → IsReady (xs ++ ys)
  IsReady-plain [] ys h r = r
  IsReady-plain (x ∷ xs) ys h r =
      let rest = IsReady-plain xs ys h.1 r in
      let p : is_abi_pseudo x ≡ false = plain x h.0 in
      (((λ e. h.0), rest.0), ((λ e. absurd (cc)), rest.1))

  -- The parts of a block at its first call.
  pub record IsSplit (is : List Muir.Instr) (s : Split) : Type 0 where
    pub before : All P s.before
    pub after : IsReady s.after
    pub count : count_calls is ≡ suc (count_calls s.after)

  abbrev pub SplitsWell : List Muir.Instr → Option Split → Type 0
  SplitsWell is none = count_calls is ≡ 0
  SplitsWell is (some s) = IsSplit is s

  count-call :
      (i : Muir.Instr) (is : List Muir.Instr)
      → is_call i ≡ true
      → count_calls (i ∷ is) ≡ suc (count_calls is)
  unfolding count_calls
  count-call i is e = rw e refl

  count-other :
      (i : Muir.Instr) (is : List Muir.Instr)
      → is_call i ≡ false
      → count_calls (i ∷ is) ≡ count_calls is
  unfolding count_calls
  count-other i is e = rw e refl

  kept-before :
      (i : Muir.Instr) (is : List Muir.Instr) (n : ℕ)
      → is_call i ≡ false
      → IsReady (i ∷ is)
      → count_calls is ≡ suc n
      → P i
  kept-before i is n e r c = elim (Bool-cases (is_abi_pseudo i)) [
    | inl p ↦ let z = r.1.0 p e in absurd (omega (arith, z, c))
    | inr p ↦ r.0.0 p
  ]

  put_before-well :
      (i : Muir.Instr) (is : List Muir.Instr) (o : Option Split)
      → is_call i ≡ false
      → IsReady (i ∷ is)
      → SplitsWell is o
      → SplitsWell (i ∷ is) (put_before i o)
  unfolding put_before
  put_before-well i is none e r w = count-other i is e ∙ w
  put_before-well i is (some s) e r w = record {
    before = (kept-before i is (count_calls s.after) e r w.count & w.before);
    after = w.after;
    count = count-other i is e ∙ w.count;
  }

  pub split_call-well : (is : List Muir.Instr) → IsReady is → SplitsWell is (split_call is)
  unfolding split_call
  split_call-well [] r = unfold count_calls in refl
  split_call-well (i ∷ is) r = elim (Bool-cases (is_call i)) [
    | inl e ↦ rw e (record { before = tt; after = (r.0.1 & r.1.1); count = count-call i is e })
    | inr e ↦ rw e (put_before-well i is (split_call is) e r (split_call-well is (r.0.1 & r.1.1)))
  ]

  later-Made :
      (s t : Builder) (r : Result AbiError (List Muir.Instr × Builder))
      → IsLater s t 0 0
      → Gives (Made P moves subs jumps t) r
      → Gives (Made P moves subs jumps s) r
  unfolding Gives
  later-Made s t (ok (is, u)) a h = (h.0, IsLater-trans a h.1)
  later-Made s t (err e) a h = tt

  no-call :
      (i : Muir.Instr) (is : List Muir.Instr)
      → count_calls (i ∷ is) ≡ 0
      → (is_call i ≡ false) × (count_calls is ≡ 0)
  no-call i is z = elim (Bool-cases (is_call i)) [
    | inl e ↦ let c = count-call i is e in absurd (omega (arith, z, c))
    | inr e ↦ (e, sym (count-other i is e) ∙ z)
  ]

  expand_leaving-Made :
      (i : Muir.Instr) (s : Builder)
      → is_call i ≡ false
      → Keeps i
      → Gives (Made P moves subs jumps s) (expand_leaving i s)
  unfolding expand_leaving is_call is_abi_pseudo
  expand_leaving-Made (Muir.Instr.mov i) s e k =
      made P moves subs jumps s s _ (k refl & tt) (IsLater-same s)
  expand_leaving-Made (Muir.Instr.sub i) s e k =
      made P moves subs jumps s s _ (k refl & tt) (IsLater-same s)
  expand_leaving-Made (Muir.Instr.br i) s e k =
      made P moves subs jumps s s _ (k refl & tt) (IsLater-same s)
  expand_leaving-Made (Muir.Instr.arch_escape x t ts) s e k =
      made P moves subs jumps s s _ (k refl & tt) (IsLater-same s)
  expand_leaving-Made (Muir.Instr.trap r) s e k =
      made P moves subs jumps s s _ (jumps _ & tt) (IsLater-same s)
  expand_leaving-Made (Muir.Instr.ret v) s e k =
      Gives-bind (Stays s) (Made P moves subs jumps s)
        (counting λ x. record x { returns = x.returns + 1 }) _ s
        (Gives-ok (Stays s) _ _
          (record { slots = λ x m. m; continuations = omega arith; calls = omega arith }))
        λ u t a. later-Made s t _ a (return_sequence-Made P moves subs jumps v t)
  expand_leaving-Made (Muir.Instr.call c vs ns) s e k = absurd (cc)
  expand_leaving-Made (Muir.Instr.helper c vs ns) s e k = absurd (cc)
  expand_leaving-Made (Muir.Instr.sys c vs ns) s e k = absurd (cc)

  pub expand_tail-Made :
      (is : List Muir.Instr) (s : Builder)
      → count_calls is ≡ 0
      → IsReady is
      → Gives (Made P moves subs jumps s) (expand_tail is s)
  unfolding expand_tail
  expand_tail-Made [] s z r = made P moves subs jumps s s [] tt (IsLater-same s)
  expand_tail-Made (i ∷ is) s z r =
      let (e, z') = no-call i is z in
      Gives-bind (Made P moves subs jumps s) (Made P moves subs jumps s) (expand_leaving i) _ s
        (expand_leaving-Made i s e r.0.0)
        λ first t h.
          Gives-bind (Made P moves subs jumps t) (Made P moves subs jumps s) (expand_tail is) _ t
            (expand_tail-Made is t z' (r.0.1 & r.1.1))
            λ rest u k.
              made P moves subs jumps s u (first ++ rest) (All-append P first rest h.0 k.0)
                (IsLater-trans h.1 k.1)
