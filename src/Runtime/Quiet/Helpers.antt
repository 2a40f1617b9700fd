-- ===== src/Runtime/Quiet/Helpers.antt =====
-- Every helper of src/minimachine/runtime.py leaves the control state of the machine alone.
use minimachine.Prelude.{ℕ, Bool, String, List, [], ◌∷◌}
use minimachine.Vm.{Reply, HostService, nothing}
use minimachine.Exec.{Exec}
use minimachine.Vm.{Vm}
use minimachine.Runtime.Helper.{
  Helper, CountOp, cttz, ctlz, ctpop, refused, answering, answer, done,
}
use minimachine.Runtime.Dispatch.{
  with_1, with_2, with_3, with_4, with_6, with_flag, with_expected, with_3_first, with_none,
  run_count,
}
use minimachine.Runtime.Quiet.{Quiet, Any, Answers, Quiet-bind, Quiet-pure, quiet_rules}
use minimachine.Runtime.Quiet.Parts.{
  decode_integer-Quiet, encode_integer-Quiet, caller_frame-Quiet, aggregate_literal-Quiet,
  load_aggregate-Quiet, extractvalue-Quiet, insertvalue-Quiet, allocate-Quiet, make_wide-Quiet,
  restore_stack-Quiet, start_varargs-Quiet, run_binary-Quiet, run_compare-Quiet, run_cast-Quiet,
  run_add-Quiet, count_zeros-Quiet, absolute_value-Quiet, run_with_overflow-Quiet,
  load_integer-Quiet, store_integer-Quiet,
}

-- A service leaves the control state alone and answers, whatever its arguments.
abbrev pub QuietService : HostService → Type 0
QuietService f = (args : List ℕ) → Quiet Answers (f args)

pub refused-Quiet : (s : String) → Quiet Answers (refused s)
refused-Quiet s = search (quiet_rules)

pub answer-Quiet : (n : ℕ) → Quiet Answers (answer n)
answer-Quiet n = Quiet-pure Answers _ tt

pub answering-Quiet : (m : Exec Vm ℕ) → Quiet Any m → Quiet Answers (answering m)
answering-Quiet m q = Quiet-bind Answers _ m q answer-Quiet

pub done-Quiet : (m : Exec Vm (Unit {0})) → Quiet Any m → Quiet Answers (done m)
done-Quiet m q = Quiet-bind Answers _ m q (λ u. Quiet-pure Answers nothing tt)

pub with_1-Quiet :
    (s : String) (f : ℕ → Exec Vm Reply)
    → ((a : ℕ) → Quiet Answers (f a))
    → QuietService (with_1 s f)
unfolding with_1
with_1-Quiet s f q (a ∷ []) = q a
with_1-Quiet s f q [] = refused-Quiet s
with_1-Quiet s f q (a ∷ b ∷ args) = refused-Quiet s

pub with_2-Quiet :
    (s : String) (f : ℕ → ℕ → Exec Vm Reply)
    → ((a b : ℕ) → Quiet Answers (f a b))
    → QuietService (with_2 s f)
unfolding with_2
with_2-Quiet s f q (a ∷ b ∷ []) = q a b
with_2-Quiet s f q [] = refused-Quiet s
with_2-Quiet s f q (a ∷ []) = refused-Quiet s
with_2-Quiet s f q (a ∷ b ∷ c ∷ args) = refused-Quiet s

pub with_3-Quiet :
    (s : String) (f : ℕ → ℕ → ℕ → Exec Vm Reply)
    → ((a b c : ℕ) → Quiet Answers (f a b c))
    → QuietService (with_3 s f)
unfolding with_3
with_3-Quiet s f q (a ∷ b ∷ c ∷ []) = q a b c
with_3-Quiet s f q [] = refused-Quiet s
with_3-Quiet s f q (a ∷ []) = refused-Quiet s
with_3-Quiet s f q (a ∷ b ∷ []) = refused-Quiet s
with_3-Quiet s f q (a ∷ b ∷ c ∷ d ∷ args) = refused-Quiet s

pub with_4-Quiet :
    (s : String) (f : ℕ → ℕ → ℕ → ℕ → Exec Vm Reply)
    → ((a b c d : ℕ) → Quiet Answers (f a b c d))
    → QuietService (with_4 s f)
unfolding with_4
with_4-Quiet s f q (a ∷ b ∷ c ∷ d ∷ []) = q a b c d
with_4-Quiet s f q [] = refused-Quiet s
with_4-Quiet s f q (a ∷ []) = refused-Quiet s
with_4-Quiet s f q (a ∷ b ∷ []) = refused-Quiet s
with_4-Quiet s f q (a ∷ b ∷ c ∷ []) = refused-Quiet s
with_4-Quiet s f q (a ∷ b ∷ c ∷ d ∷ e ∷ args) = refused-Quiet s

pub with_6-Quiet :
    (s : String) (f : ℕ → ℕ → ℕ → ℕ → ℕ → ℕ → Exec Vm Reply)
    → ((a b c d e g : ℕ) → Quiet Answers (f a b c d e g))
    → QuietService (with_6 s f)
unfolding with_6
with_6-Quiet s f q (a ∷ b ∷ c ∷ d ∷ e ∷ g ∷ []) = q a b c d e g
with_6-Quiet s f q [] = refused-Quiet s
with_6-Quiet s f q (a ∷ []) = refused-Quiet s
with_6-Quiet s f q (a ∷ b ∷ []) = refused-Quiet s
with_6-Quiet s f q (a ∷ b ∷ c ∷ []) = refused-Quiet s
with_6-Quiet s f q (a ∷ b ∷ c ∷ d ∷ []) = refused-Quiet s
with_6-Quiet s f q (a ∷ b ∷ c ∷ d ∷ e ∷ []) = refused-Quiet s
with_6-Quiet s f q (a ∷ b ∷ c ∷ d ∷ e ∷ g ∷ h ∷ args) = refused-Quiet s

pub with_flag-Quiet :
    (s : String) (f : ℕ → Bool → Exec Vm Reply)
    → ((a : ℕ) (b : Bool) → Quiet Answers (f a b))
    → QuietService (with_flag s f)
unfolding with_flag
with_flag-Quiet s f q (a ∷ []) = q a _
with_flag-Quiet s f q (a ∷ b ∷ []) = q a _
with_flag-Quiet s f q [] = refused-Quiet s
with_flag-Quiet s f q (a ∷ b ∷ c ∷ args) = refused-Quiet s

pub with_expected-Quiet :
    (s : String) (f : ℕ → Exec Vm Reply)
    → ((a : ℕ) → Quiet Answers (f a))
    → QuietService (with_expected s f)
unfolding with_expected
with_expected-Quiet s f q (a ∷ b ∷ []) = q a
with_expected-Quiet s f q (a ∷ b ∷ c ∷ []) = q a
with_expected-Quiet s f q [] = refused-Quiet s
with_expected-Quiet s f q (a ∷ []) = refused-Quiet s
with_expected-Quiet s f q (a ∷ b ∷ c ∷ d ∷ args) = refused-Quiet s

pub with_3_first-Quiet :
    (s : String) (f : ℕ → ℕ → ℕ → Exec Vm Reply)
    → ((a b c : ℕ) → Quiet Answers (f a b c))
    → QuietService (with_3_first s f)
unfolding with_3_first
with_3_first-Quiet s f q (a ∷ b ∷ c ∷ args) = q a b c
with_3_first-Quiet s f q [] = refused-Quiet s
with_3_first-Quiet s f q (a ∷ []) = refused-Quiet s
with_3_first-Quiet s f q (a ∷ b ∷ []) = refused-Quiet s

pub with_none-Quiet :
    (s : String) (m : Exec Vm Reply) → Quiet Answers m → QuietService (with_none s m)
unfolding with_none
with_none-Quiet s m q [] = q
with_none-Quiet s m q (a ∷ args) = refused-Quiet s

pub ruleset arities = (
  with_1-Quiet, with_2-Quiet, with_3-Quiet, with_4-Quiet, with_6-Quiet, with_flag-Quiet,
  with_expected-Quiet, with_3_first-Quiet, with_none-Quiet, answer-Quiet, answering-Quiet,
  done-Quiet,
)

run_count-Quiet : (s : String) (op : CountOp) (bits : ℕ) → QuietService (run_count s op bits)
unfolding run_count
run_count-Quiet s ctpop bits = search (arities)
run_count-Quiet s cttz bits = search (arities, count_zeros-Quiet)
run_count-Quiet s ctlz bits = search (arities, count_zeros-Quiet)

ruleset parts = (
  allocate-Quiet, make_wide-Quiet, restore_stack-Quiet, start_varargs-Quiet, run_binary-Quiet,
  run_compare-Quiet, run_cast-Quiet, run_add-Quiet, absolute_value-Quiet, run_with_overflow-Quiet,
  load_integer-Quiet, store_integer-Quiet, decode_integer-Quiet, encode_integer-Quiet,
  caller_frame-Quiet, aggregate_literal-Quiet, load_aggregate-Quiet, extractvalue-Quiet,
  insertvalue-Quiet, run_count-Quiet,
)
