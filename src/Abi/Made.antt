-- ===== src/Abi/Made.antt =====
-- The sequences of the calling convention (src/minimachine/abi.py) are made of moves, subtractions
-- and unconditional branches only, and count no call.
use minimachine.Prelude.{
  length, ℕ, ◌+◌, ◌*◌, String, Option, none, some, List, [], ◌∷◌, ◌++◌, All, All-append, ok,
}
use minimachine.Muir
use minimachine.Muir.{Value, Operand, Target, Callee}
use minimachine.Abi.Builder.{Builder, Build, ◌>>=◌, counting, declare, temp}
use minimachine.Abi.Later.{
  IsLater, IsLater-trans, IsLater-same, Gives, Gives-bind, Gives-ok, Gives-err, Stays, temp-Stays,
  declare-Stays,
}
use minimachine.Abi.Sequences.{
  mov, sub, uncond, mem_at, descriptor, descriptor_of, load_args, prologue, CallSlots, call_header,
  call_code, call_slots, save_caller, resume_caller, prologue_code, store_args, call_sequence,
  store_result, return_sequence,
}
use minimachine.Abi.Frame.{word}
use minimachine.Abi.Expand.{load_results}

descriptor_of-Stays : (a b : Option String) (s : Builder) → Gives (Stays s) (descriptor_of a b s)
unfolding descriptor_of
descriptor_of-Stays (some a) none s = Gives-ok (Stays s) _ _ (IsLater-same s)
descriptor_of-Stays none (some b) s = Gives-ok (Stays s) _ _ (IsLater-same s)
descriptor_of-Stays none none s = Gives-err (Stays s) _
descriptor_of-Stays (some a) (some b) s = Gives-err (Stays s) _

descriptor-Stays : (c : Callee) (s : Builder) → Gives (Stays s) (descriptor c s)
unfolding descriptor
descriptor-Stays c s = descriptor_of-Stays c.symbol c.slot s

infixr 4 ◌&◌
pub ◌&◌ : {A B : Type 0} → A → B → A × B
a & b = (a, b)

-- A temporary is taken, and the rest goes on.
with_temp :
    {B : Type 0} (R : B → Builder → Type 0) (stem : String) (f : String → Build B) (s t : Builder)
    → IsLater s t 0 0
    → ((n : String) (u : Builder) → IsLater s u 0 0 → Gives R (f n u))
    → Gives R ((temp stem >>= f) t)
with_temp R stem f s t a k =
    Gives-bind (Stays t) R (temp stem) f t (temp-Stays stem t) λ n u b. k n u (IsLater-trans a b)

call_slots-Stays : (s : Builder) → Gives (Stays s) (call_slots s)
unfolding call_slots
call_slots-Stays s = with_temp (Stays s) "callee_frame_size" _ s s (IsLater-same s) λ x1 t a.
    with_temp (Stays s) "callee_entry" _ s t a λ x2 t a.
      with_temp (Stays s) "call_size" _ s t a λ x3 t a.
        with_temp (Stays s) "new_sp" _ s t a λ x4 t a.
          with_temp (Stays s) "neg_callee_frame_size" _ s t a λ x5 t a.
            with_temp (Stays s) "arg_base" _ s t a
              λ x6 t a. with_temp (Stays s) "result_base" _ s t a λ x7 t a. Gives-ok (Stays s) _ t a

module _ (P : Muir.Instr → Type 0) (moves : (dst src : Operand) → P (mov dst src))
    (subs : (dst : String) (a b : Value) → P (sub dst a b))
    (jumps : (t : Target) → P (uncond t)) where
  -- Every instruction satisfies `P`, and the builder is only later.
  abbrev pub Made : Builder → List Muir.Instr → Builder → Type 0
  Made s is t = All P is × IsLater s t 0 0

  abbrev pub Gave : Builder → List Muir.Instr × String → Builder → Type 0
  Gave s (is, base) t = Made s is t

  store_args-All : (base : String) (i : ℕ) (vs : List Value) → All P (store_args base i vs)
  unfolding store_args
  store_args-All base i [] = tt
  store_args-All base i (v ∷ vs) = (moves _ _, store_args-All base (i + 1) vs)

  pub load_results-All : (base : String) (i : ℕ) (ns : List String) → All P (load_results base i ns)
  unfolding load_results
  load_results-All base i [] = tt
  load_results-All base i (n ∷ ns) = (moves _ _, load_results-All base (i + 1) ns)

  prologue_code-All :
      (f n a : String) (loads : List Muir.Instr) → All P loads → All P (prologue_code f n a loads)
  unfolding prologue_code
  prologue_code-All f n a loads h = (moves _ _ & subs _ _ _ & subs _ _ _ & h)

  call_header-All :
      (t : CallSlots) (desc resume : Value) (m n : ℕ) → All P (call_header t desc resume m n)
  unfolding call_header
  call_header-All t desc resume m n =
      (moves _ _
        & moves _ _
        & subs _ _ _
        & subs _ _ _
        & moves _ _
        & moves _ _
        & moves _ _
        & moves _ _
        & moves _ _
        & moves _ _
        & subs _ _ _
        & subs _ _ _
        & subs _ _ _
        & moves _ _
        & tt)

  call_code-All :
      (t : CallSlots) (desc resume : Value) (vs : List Value) (n : ℕ)
      → All P (call_code t desc resume vs n)
  unfolding call_code call_header
  call_code-All t desc resume vs n =
      All-append P (call_header t desc resume (length vs) n) _
        (call_header-All t desc resume (length vs) n)
        (All-append P (store_args t.arg_base 0 vs) _ (store_args-All t.arg_base 0 vs)
          (moves _ _ & jumps _ & tt))

  return_code-All : (c : String) → All P (save_caller c ++ resume_caller c)
  unfolding save_caller resume_caller
  return_code-All c = (moves _ _ & moves _ _ & moves _ _ & jumps _ & tt)

  result_code-All :
      (c r : String) (v : Value) → All P (save_caller c ++ store_result r v ++ resume_caller c)
  unfolding save_caller store_result resume_caller
  result_code-All c r v = (moves _ _ & moves _ _ & moves _ _ & moves _ _ & moves _ _ & jumps _ & tt)

  pub made :
      (s t : Builder) (is : List Muir.Instr)
      → All P is
      → IsLater s t 0 0
      → Gives (Made s) (ok (is, t))
  made s t is h a = Gives-ok (Made s) is t (h, a)

  load_args-Made :
      (base : String) (i : ℕ) (ns : List String) (s : Builder)
      → Gives (Made s) (load_args base i ns s)
  unfolding load_args
  load_args-Made base i [] s = made s s [] tt (IsLater-same s)
  load_args-Made base i (n ∷ ns) s =
      Gives-bind (Stays s) (Made s) (declare n) _ s (declare-Stays n s) λ u t a.
        Gives-bind (Stays s) (Made s)
          (counting λ x. record x { argument_loads = x.argument_loads + 1 }) _ t
          (Gives-ok (Stays s) _ _
            (record { slots = a.slots; continuations = a.continuations; calls = a.calls }))
          λ u t a.
            Gives-bind (Made t) (Made s) (load_args base (i + 1) ns) _ t
              (load_args-Made base (i + 1) ns t)
              λ rest t' h.
                made s t'
                  (mov (Muir.value (Muir.slot n)) (mem_at (Muir.slot base) (i * word)) ∷ rest)
                  (moves _ _ & h.0) (IsLater-trans a h.1)

  pub prologue-Made : (ns : List String) (s : Builder) → Gives (Made s) (prologue ns s)
  unfolding prologue
  prologue-Made [] s = made s s [] tt (IsLater-same s)
  prologue-Made (n ∷ ns) s = with_temp (Made s) "frame_size" _ s s (IsLater-same s) λ x t a.
      with_temp (Made s) "neg_frame_size" _ s t a λ y t a.
        with_temp (Made s) "arg_base" _ s t a λ z t a.
          Gives-bind (Made t) (Made s) (load_args z 0 (n ∷ ns)) _ t (load_args-Made z 0 (n ∷ ns) t)
            λ loads u h. made s u _ (prologue_code-All x y z loads h.0) (IsLater-trans a h.1)

  pub call_sequence-Made :
      (f : String) (c : Callee) (vs : List Value) (k : String) (n : ℕ) (s : Builder)
      → Gives (Gave s) (call_sequence f c vs k n s)
  unfolding call_sequence
  call_sequence-Made f c vs k n s =
      Gives-bind (Stays s) (Gave s) (descriptor c) _ s (descriptor-Stays c s) λ d t a.
        Gives-bind (Stays t) (Gave s) call_slots _ t (call_slots-Stays t) λ x u b.
          Gives-ok (Gave s) _ u (call_code-All x d (Muir.block_addr f k) vs n & IsLater-trans a b)

  pub return_sequence-Made : (v : Option Value) (s : Builder) → Gives (Made s) (return_sequence v s)
  unfolding return_sequence
  return_sequence-Made none s =
      with_temp (Made s) "caller_sp" _ s s (IsLater-same s)
        λ x t a. made s t _ (return_code-All x) a
  return_sequence-Made (some v) s =
      with_temp (Made s) "caller_sp" _ s s (IsLater-same s) λ x t a.
        with_temp (Made s) "result_ptr" _ s t a λ y t a. made s t _ (result_code-All x y v) a
