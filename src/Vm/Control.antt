-- ===== src/Vm/Control.antt =====
-- `_set_code` and `_invoke_host` (src/minimachine/vm.py): wherever control goes in a linked
-- program, the machine halts or stands before an instruction.
use minimachine.Prelude.{
  sym, word_mod, ◌+◌, subst, ℕ, zero, suc, ◌<◌, String, ◌≡◌, refl, ◌⊎◌, inl, inr, Option, none,
  some, List, [], ◌∷◌, length, true, Bool-cases, Option-cases, string_eq, nat_eq, ◌==◌, arith,
  nat_eqb,
}
use minimachine.Prelude.Int.{mod_ℤ, ℤ}
use minimachine.Prelude.Dict
use minimachine.Exec.{Exec}
use minimachine.P3
use minimachine.Verify.Strict.{EndsInBr}
use minimachine.Memory
use minimachine.Program.{Program, LinkedFunction}
use minimachine.Program.Linked.{IsLinked}
use minimachine.Program.Blocks.{link-strict, link-finds}
use minimachine.Abi.Frame.{frame_size, arg_count, result_count, result_ptr, caller_sp, ret_pc, word}
use minimachine.Vm.{Vm, HostService, Reply, nothing, one, many, control_transfer}
use minimachine.Vm.Faults.{Ensures, Ensures-bind, Ensures-reading}
use minimachine.Vm.Places.{IsAt, read_64-IsSafe}
use minimachine.Vm.Step.{
  write_memory, read_word, read_header, read_words, write_words, set_sp, halt, results_of,
  check_count, return_results, call_service, enter_block, after_reply, invoke_host, dispatch,
  set_code,
}

-- The machine has halted or stands before an instruction.
abbrev pub IsRunning : Program → Vm → Type 0
IsRunning p vm = (vm.halted ≡ true) ⊎ IsAt p vm

-- What the machine needs of the host services: they raise run-time faults only, and one that
-- transfers control itself leaves the machine at an instruction or halted.
pub record AreWellBehaved (p : Program) : Type 0 where
  pub behaves :
      (symbol : String) (callback : HostService)
      → Dict.get p.host_services symbol ≡ some callback
      → (args : List ℕ) (vm : Vm)
      → Ensures (λ reply vm'. reply ≡ control_transfer → IsRunning p vm') (callback args vm)

abbrev pub Anything : {A : Type 0} → A → Vm → Type 0
Anything a vm = Unit

pub write_word-Ensures : (a v : ℕ) (vm : Vm) → Ensures Anything (write_memory a 64 v vm)
unfolding write_memory Memory.write
write_word-Ensures a v vm = tt

read_header-Ensures : (o : ℕ) (vm : Vm) → Ensures Anything (read_header o vm)
unfolding read_header
read_header-Ensures o vm =
    Ensures-reading Anything (Memory.read vm.memory (vm.sp + o) 64) vm
      (read_64-IsSafe vm.memory (vm.sp + o)) (λ a e. tt)

pub read_words-Ensures : (a n : ℕ) (vm : Vm) → Ensures Anything (read_words a n vm)
unfolding read_words read_word
read_words-Ensures a zero vm = tt
read_words-Ensures a (suc n) vm =
    Ensures-bind Anything Anything (read_word a) _ vm
      (Ensures-reading Anything (Memory.read vm.memory a 64) vm (read_64-IsSafe vm.memory a)
        (λ a e. tt))
      (λ first t _.
        Ensures-bind Anything Anything (read_words (a + word) n) _ t
          (read_words-Ensures (a + word) n t) (λ rest t' _. tt))

write_words-Ensures : (a : ℕ) (vs : List ℤ) (vm : Vm) → Ensures Anything (write_words a vs vm)
unfolding write_words
write_words-Ensures a [] vm = tt
write_words-Ensures a (v ∷ vs) vm =
    Ensures-bind Anything Anything (write_memory a 64 (mod_ℤ v word_mod)) _ vm
      (write_word-Ensures a (mod_ℤ v word_mod) vm) (λ u t _. write_words-Ensures (a + word) vs t)

check_count-Ensures : (s : String) (n m : ℕ) (vm : Vm) → Ensures Anything (check_count s n m vm)
unfolding check_count
check_count-Ensures s n m vm = elim (Bool-cases (nat_eqb n m)) [
  | inl e ↦ rw e tt
  | inr e ↦ rw e (λ h. h)
]

return_results-Ensures :
    (s : String) (rs : List ℤ) (vm : Vm) → Ensures Anything (return_results s rs vm)
unfolding return_results set_sp
return_results-Ensures s rs vm =
    Ensures-bind Anything Anything (read_header result_count) _ vm
      (read_header-Ensures result_count vm)
      λ n t _.
        Ensures-bind Anything Anything (check_count s (length rs) n) _ t
          (check_count-Ensures s (length rs) n t)
          λ u t _.
            Ensures-bind Anything Anything (read_header result_ptr) _ t
              (read_header-Ensures result_ptr t)
              λ a t _.
                Ensures-bind Anything Anything (write_words a rs) _ t (write_words-Ensures a rs t)
                  λ u t _.
                    Ensures-bind Anything Anything (read_header caller_sp) _ t
                      (read_header-Ensures caller_sp t)
                      λ c t _.
                        Ensures-bind Anything Anything (read_header ret_pc) _ t
                          (read_header-Ensures ret_pc t) λ r t _. tt

module _ (p : Program) (l : IsLinked p) (services : AreWellBehaved p) where
  abbrev Runs : Unit {0} → Vm → Type 0
  Runs u vm = IsRunning p vm

  pub length-pos : (is : List P3.Instr) → EndsInBr is → 0 < length is
  length-pos [] (i, e) = absurd (cc)
  length-pos (i ∷ is) e = omega arith

  enter_block-Runs :
      (code : ℕ) (vm : Vm) → Ensures Runs (enter_block code (Dict.get p.code_block code) vm)
  unfolding enter_block
  enter_block-Runs code vm = elim (Option-cases (Dict.get p.code_block code)) [
    | inl e ↦ rw e (λ h. h)
    | inr ((f, b), e) ↦
        let (lf, found, m) = l.owned code f b e in
        let (v, same) = l.verified f lf found in
        let (block, has) = link-finds lf.function v b m in
        rw e (
          inr (record {
            name = f;
            lf = lf;
            label = b;
            block = block;
            at_function = refl;
            has_function = found;
            at_block = refl;
            has_block =
                subst (λ (lf : LinkedFunction). Dict.get lf.block_map b ≡ some block) (sym same)
                  has;
            in_range = length-pos block.instructions (link-strict lf.function v b block has).1;
          }))
  ]

  call_service-Ensures :
      (symbol : String) (vm : Vm)
      → Ensures
          (λ reply vm'. reply ≡ control_transfer → IsRunning p vm')
          (call_service symbol (Dict.get p.host_services symbol) vm)
  unfolding call_service
  call_service-Ensures symbol vm = elim (Option-cases (Dict.get p.host_services symbol)) [
    | inl e ↦ rw e (λ h. h)
    | inr (callback, e) ↦ rw e (
        Ensures-bind Anything _ (read_header frame_size) _ vm (read_header-Ensures frame_size vm)
          λ size t _.
            Ensures-bind Anything _ (read_header arg_count) _ t (read_header-Ensures arg_count t)
              λ argc t _.
                Ensures-bind Anything _ (read_words (t.sp + size) argc) _ t
                  (read_words-Ensures (t.sp + size) argc t)
                  λ args t _. services.behaves symbol callback e args t)
  ]

  after_reply-Runs :
      (go : ℕ → Exec Vm (Unit {0})) (symbol : String) (reply : Reply) (vm : Vm)
      → ((code : ℕ) (vm : Vm) → Ensures Runs (go code vm))
      → (reply ≡ control_transfer → IsRunning p vm)
      → Ensures Runs (after_reply go symbol reply vm)
  unfolding after_reply
  after_reply-Runs go symbol control_transfer vm h k = k refl
  after_reply-Runs go symbol nothing vm h k =
      Ensures-bind Anything Runs (return_results symbol (results_of nothing)) _ vm
        (return_results-Ensures symbol (results_of nothing) vm) (λ c t _. h c t)
  after_reply-Runs go symbol (one v) vm h k =
      Ensures-bind Anything Runs (return_results symbol (results_of (one v))) _ vm
        (return_results-Ensures symbol (results_of (one v)) vm) (λ c t _. h c t)
  after_reply-Runs go symbol (many vs) vm h k =
      Ensures-bind Anything Runs (return_results symbol (results_of (many vs))) _ vm
        (return_results-Ensures symbol (results_of (many vs)) vm) (λ c t _. h c t)

  dispatch-Runs :
      (go : ℕ → Exec Vm (Unit {0})) (code : ℕ) (host : Option String) (vm : Vm)
      → ((code : ℕ) (vm : Vm) → Ensures Runs (go code vm))
      → Ensures Runs (dispatch go p code host vm)
  unfolding dispatch invoke_host halt
  dispatch-Runs go code none vm h = enter_block-Runs code vm
  dispatch-Runs go code (some symbol) vm h = elim (Bool-cases (symbol == "__halt__")) [
    | inl e ↦ rw e (inl refl)
    | inr e ↦ rw e (
        Ensures-bind (λ reply vm'. reply ≡ control_transfer → IsRunning p vm') Runs
          (call_service symbol (Dict.get p.host_services symbol)) _ vm
          (call_service-Ensures symbol vm) (λ reply t k. after_reply-Runs go symbol reply t h k))
  ]

  -- Wherever a code address leads, the machine halts, stands before an instruction, or raises a
  -- run-time fault.
  pub set_code-Runs : (depth code : ℕ) (vm : Vm) → Ensures Runs (set_code p depth code vm)
  unfolding set_code halt
  set_code-Runs zero code vm = λ h. h
  set_code-Runs (suc depth) code vm = elim (Bool-cases (nat_eqb code p.halt_code)) [
    | inl e ↦ rw e (inl refl)
    | inr e ↦ rw e (
        dispatch-Runs (λ target. set_code p depth target) code (Dict.get p.host_code code) vm
          (λ c t. set_code-Runs depth c t))
  ]
