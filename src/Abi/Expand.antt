-- ===== src/Abi/Expand.antt =====
-- `expand_function` (src/minimachine/abi.py): calls, helpers, system operations, returns and traps
-- become moves, subtractions and branches; a block with calls becomes a chain of blocks.
use minimachine.Prelude.{
  ℕ, zero, suc, ◌+◌, ◌*◌, String, Bool, true, false, Option, none, some, List, [], ◌∷◌, ◌++◌,
  length, ◌==◌, string_eq, if◌then◌else◌, Result, ok, err, ◌>>=◌ as ◌>>>◌, ◌>>◌ as ◌>>>!◌,
}
use minimachine.Muir
use minimachine.Muir.{Value, slot, value, Callee}
use minimachine.Verify.{Check, check_all, verify_muir, abi_pseudo_survived}
use minimachine.Abi.Frame.{word}
use minimachine.Abi.Builder.{
  function_name, AbiStats, AbiError, assertion_failed, verify_error, Builder, Build, ◌>>=◌, ◌>>◌,
  pure, raise, counting, init_builder, new_label,
}
use minimachine.Abi.Sequences.{
  mem_at, mov, prologue, call_sequence, return_sequence, uncond, symbol_target, system_symbol,
  sysop_symbol,
}

-- `isinstance(inst, (muir.Call, muir.Helper, muir.Sys))`
unfoldable pub is_call : Muir.Instr → Bool
is_call (Muir.Instr.call callee args result) = true
is_call (Muir.Instr.helper symbol args result) = true
is_call (Muir.Instr.sys op args result) = true
is_call _ = false

-- `before`, `pseudo` and `after` at the first call.
pub record Split : Type 0 where
  pub before : List Muir.Instr
  pub pseudo : Muir.Instr
  pub after : List Muir.Instr

unfoldable pub put_before : Muir.Instr → Option Split → Option Split
put_before i none = none
put_before i (some s) = some (record s { before = i ∷ s.before })

unfoldable pub split_call : List Muir.Instr → Option Split
split_call [] = none
split_call (i ∷ is) =
    let later = put_before i (split_call is) in
    if is_call i then some (record { before = []; pseudo = i; after = is }) else later

unfoldable pub count_calls : List Muir.Instr → ℕ
count_calls [] = 0
count_calls (i ∷ is) = let rest = count_calls is in if is_call i then suc rest else rest

-- A return or a trap; another instruction stays.
unfoldable pub expand_leaving : Muir.Instr → Build (List Muir.Instr)
expand_leaving (Muir.Instr.ret v) = do
  counting λ s. record s { returns = s.returns + 1 }
  return_sequence v
expand_leaving (Muir.Instr.trap reason) = pure (uncond (symbol_target (system_symbol reason)) ∷ [])
expand_leaving i = pure (i ∷ [])

unfoldable pub expand_tail : List Muir.Instr → Build (List Muir.Instr)
expand_tail [] = pure []
expand_tail (i ∷ is) = do first ← expand_leaving i; rest ← expand_tail is; pure (first ++ rest)

-- Callee, arguments and results of a pseudo-instruction, each kind with its own counter.
pub record Request : Type 0 where
  pub callee : Callee
  pub args : List Value
  pub result : List String

unfoldable pub request_of : Muir.Instr → Build Request
request_of (Muir.Instr.call callee args result) = do
  counting λ s. record s { calls = s.calls + 1 }
  pure (record { callee = callee; args = args; result = result })
request_of (Muir.Instr.helper symbol args result) = do
  counting λ s. record s { helpers = s.helpers + 1 }
  pure (record {
    callee = record { symbol = some symbol; slot = none };
    args = args;
    result = result;
  })
request_of (Muir.Instr.sys op args result) = do
  symbol ← sysop_symbol op
  counting λ s. record s { system_ops = s.system_ops + 1 }
  pure (record {
    callee = record { symbol = some symbol; slot = none };
    args = args;
    result = result;
  })
request_of i = raise assertion_failed

-- The moves of the results after a call, from the one with index `i`.
unfoldable pub load_results : String → ℕ → List String → List Muir.Instr
load_results base i [] = []
load_results base i (name ∷ names) =
    mov (value (slot name)) (mem_at (slot base) (i * word)) ∷ load_results base (i + 1) names

-- The end of the block: no call is left.
unfoldable pub finish_block : String → List Muir.Instr → Build (List Muir.Block)
finish_block current pending = do
  tail ← expand_tail pending
  pure (record { label = current; instructions = tail } ∷ [])

-- One round of `while True`. `go` makes the rest of the rounds, from their label and instructions.
unfoldable pub expand_round :
    (String → List Muir.Instr → Build (List Muir.Block))
    → String
    → String
    → List Muir.Instr
    → Option Split
    → Build (List Muir.Block)
expand_round go original current pending none = finish_block current pending
expand_round go original current pending (some s) = do
  function ← function_name
  continuation ← new_label original "cont"
  counting λ s. record s { continuation_blocks = s.continuation_blocks + 1 }
  request ← request_of s.pseudo
  (sequence, result_base) ←
      call_sequence function request.callee request.args continuation (length request.result)
  rest ← go continuation (load_results result_base 0 request.result ++ s.after)
  pure (record { label = current; instructions = s.before ++ sequence } ∷ rest)

-- `while True`: as many rounds with a call as `pending` has calls, and a last one without.
unfoldable pub expand_pending : ℕ → String → String → List Muir.Instr → Build (List Muir.Block)
expand_pending zero original current pending = finish_block current pending
expand_pending (suc rounds) original current pending =
    expand_round (λ label is. expand_pending rounds original label is) original current pending
      (split_call pending)

-- The loop's body for a block that stands at the entry, or not.
unfoldable pub expand_block : Bool → List String → Muir.Block → Build (List Muir.Block)
expand_block true args b = do
  loads ← prologue args
  let pending = loads ++ b.instructions
  expand_pending (count_calls pending) b.label b.label pending
expand_block false args b =
    expand_pending (count_calls b.instructions) b.label b.label b.instructions

unfoldable pub expand_blocks : String → List String → List Muir.Block → Build (List Muir.Block)
expand_blocks entry args [] = pure []
expand_blocks entry args (b ∷ bs) = do
  first ← expand_block (b.label == entry) args b
  rest ← expand_blocks entry args bs
  pure (first ++ rest)

-- `function.blocks[0].label if function.blocks else None`: without blocks no label is compared.
unfoldable pub entry_label : List Muir.Block → String
entry_label [] = ""
entry_label (b ∷ bs) = b.label

unfoldable pub is_abi_pseudo : Muir.Instr → Bool
is_abi_pseudo (Muir.Instr.call callee args result) = true
is_abi_pseudo (Muir.Instr.helper symbol args result) = true
is_abi_pseudo (Muir.Instr.sys op args result) = true
is_abi_pseudo (Muir.Instr.ret v) = true
is_abi_pseudo (Muir.Instr.trap reason) = true
is_abi_pseudo _ = false

-- The error names the function and the block; that of the instruction is left out.
unfoldable pub verify_abi_normalized : Muir.Function → Check
verify_abi_normalized f =
    check_all
      (λ (b : Muir.Block).
        check_all (λ i. if is_abi_pseudo i then err (abi_pseudo_survived f.name b.label) else ok tt)
          b.instructions)
      f.blocks

-- A verifier's exception passes through.
abbrev pub checked : Check → Result AbiError (Unit {0})
checked (ok u) = ok tt
checked (err e) = err (verify_error e)

unfoldable pub built_function : Muir.Function → List Muir.Block → Builder → Muir.Function
built_function f output s = record {
  name = f.name;
  blocks = output;
  frame_slots = s.frame_slots;
  args = f.args;
}

-- The checks of the result.
unfoldable pub finish_function :
    Muir.Function → List Muir.Block → Builder → Result AbiError (Muir.Function × AbiStats)
finish_function f output s =
    checked (verify_muir (built_function f output s))
    >>>! (checked (verify_abi_normalized (built_function f output s))
        >>>! ok (built_function f output s, s.stats))

unfoldable pub expand_function : Muir.Function → Result AbiError (Muir.Function × AbiStats)
expand_function f =
    checked (verify_muir f)
    >>>! (expand_blocks (entry_label f.blocks) f.args f.blocks (init_builder f) >>> λ (output, s).
        finish_function f output s)
