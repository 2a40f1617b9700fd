-- ===== src/Vm/Entry.antt =====
-- `run_function` of src/minimachine/vm.py on a linked program: it starts before an instruction, and
-- its run ends with as many results as were asked for or with a run-time fault.
use minimachine.Prelude.{
  ℕ, zero, suc, ◌+◌, String, ◌≡◌, refl, ap, sym, subst, inl, inr, Option, none, some, List, [], ◌∷◌,
  true, Option-cases, Result, ok, err, length, map, nat_eq, string_eq, pair_eq,
}
use minimachine.Prelude.Int.{ℤ, pos, negsuc}
use minimachine.Prelude.Dict
use minimachine.Error.{unknown_entry_function, VmError}
use minimachine.Exec.{Exec, reading, ◌>>◌}
use minimachine.P3
use minimachine.Memory
use minimachine.Abi.Frame.{word}
use minimachine.Program.{Program, LinkedFunction}
use minimachine.Program.Linked.{IsLinked}
use minimachine.Program.Blocks.{link-finds, link-strict}
use minimachine.Verify.{p3_labels}
use minimachine.Verify.Sets.{Member}
use minimachine.Vm.{Vm}
use minimachine.Vm.Faults.{IsFault, IsSafe, Ensures, Ensures-bind, Ensures-reading}
use minimachine.Vm.Control.{IsRunning, AreWellBehaved, Anything, write_word-Ensures, length-pos}
use minimachine.Vm.Counting.{AreCounting}
use minimachine.Vm.Loop.{EndsWell, run-ends}
use minimachine.Vm.Read.{or_raise}
use minimachine.Vm.Step.{write_memory, read_word, read_words}
use minimachine.Vm.Run.{
  entry_block, labelled_code, write_args, words, start_at, start_function, finish, run, run_started,
  run_function,
}

-- As many results as were asked for, from a machine that has halted, or a run-time fault.
abbrev pub Finishes : ℤ → Option (Result VmError (List ℕ) × Vm) → Type 0
Finishes count none = ⊥
Finishes count (some (ok results, vm)) = (pos (length results) ≡ count) × (vm.halted ≡ true)
Finishes count (some (err e, vm)) = IsFault e

write_args-Ensures : (a : ℕ) (vs : List ℕ) (vm : Vm) → Ensures Anything (write_args a vs vm)
unfolding write_args
write_args-Ensures a [] vm = tt
write_args-Ensures a (v ∷ vs) vm =
    Ensures-bind Anything Anything (write_memory a 64 v) _ vm (write_word-Ensures a v vm)
      (λ u t _. write_args-Ensures (a + word) vs t)

-- The read of the results succeeds, leaves the machine, and gives as many words as it should.
read_words-length :
    (a n : ℕ) (vm : Vm) → (rs : List ℕ) × (read_words a n vm ≡ (ok rs, vm)) × (length rs ≡ n)
unfolding read_words read_word Memory.read
read_words-length a zero vm = ([], refl, refl)
read_words-length a (suc n) vm =
    let (rs, e, l) = read_words-length (a + word) n vm in
    (Memory.load vm.memory a 64 ∷ rs, rw e refl, rw l refl)

finish-Finishes :
    (a n : ℕ) (r : Option (Result VmError (Unit {0}) × Vm))
    → EndsWell r
    → Finishes (pos n) (finish a n r)
unfolding finish
finish-Finishes a n none h = h
finish-Finishes a n (some (ok u, vm)) h =
    let (rs, e, l) = read_words-length a n vm in rw e (ap pos l, h)
finish-Finishes a n (some (err x, vm)) h = h

is_some-IsSafe : {A : Type 0} (o : Option A) (e : VmError) → IsFault e → IsSafe (or_raise o e)
is_some-IsSafe none e h = h
is_some-IsSafe (some a) e h = tt

or_raise-some : {A : Type 0} (o : Option A) (e : VmError) (a : A) → or_raise o e ≡ ok a → o ≡ some a
or_raise-some none e a h = absurd (cc)
or_raise-some (some b) e a h = cc

-- What `entry_block` finds is the first block.
abbrev IsEntry : List P3.Block → String → Type 0
IsEntry bs label = Member label (map (λ b. b.label) bs)

entry_block-IsSafe :
    (p : Program) (name : String) (bs : List P3.Block) → IsSafe (entry_block p name bs)
unfolding entry_block
entry_block-IsSafe p name [] = λ h. h
entry_block-IsSafe p name (b ∷ bs) = elim (Option-cases (Dict.get p.block_code (name, b.label))) [
  | inl e ↦ rw e (λ h. h)
  | inr (c, e) ↦ rw e tt
]

entry_block-IsEntry :
    (p : Program) (name : String) (bs : List P3.Block) (code : ℕ) (label : String)
    → entry_block p name bs ≡ ok (code, label)
    → IsEntry bs label
unfolding entry_block
entry_block-IsEntry p name [] code label h = absurd (cc)
entry_block-IsEntry p name (b ∷ bs) code label h =
    elim (Option-cases (Dict.get p.block_code (name, b.label))) [
      | inl e ↦ absurd (not_found (subst (λ o. labelled_code b.label o ≡ ok (code, label)) e h))
      | inr (c, e) ↦ inl (found (subst (λ o. labelled_code b.label o ≡ ok (code, label)) e h))
    ]
  where
    not_found : ¬ (labelled_code b.label none ≡ ok (code, label))
    not_found h = cc

    found : {c : ℕ} → labelled_code b.label (some c) ≡ ok (code, label) → b.label ≡ label
    found h = cc

-- The step counter takes no part in the place of the machine.
reset : (p : Program) (vm : Vm) → IsRunning p vm → IsRunning p (record vm { steps = 0 })
reset p vm (inl h) = inl h
reset p vm (inr at) = inr (record {
  name = at.name;
  lf = at.lf;
  label = at.label;
  block = at.block;
  at_function = at.at_function;
  has_function = at.has_function;
  at_block = at.at_block;
  has_block = at.has_block;
  in_range = at.in_range;
})

write_then :
    {B : Type 0} (R : B → Vm → Type 0) (a v : ℕ) (rest : Exec Vm B) (vm : Vm)
    → ((t : Vm) → Ensures R (rest t))
    → Ensures R ((write_memory a 64 v >> rest) vm)
write_then R a v rest vm k =
    Ensures-bind Anything R (write_memory a 64 v) (λ u. rest) vm (write_word-Ensures a v vm)
      (λ u t _. k t)

module _ (p : Program) (l : IsLinked p) (services : AreWellBehaved p)
    (counting : AreCounting p) where
  start_at-runs :
      (name label : String) (lf : LinkedFunction) (callee_sp : ℕ) (vm : Vm)
      → Dict.get p.functions name ≡ some lf
      → IsEntry lf.function.blocks label
      → Ensures (λ u. IsRunning p) (start_at name label callee_sp vm)
  unfolding start_at p3_labels
  start_at-runs name label lf callee_sp vm found m =
      let (v, same) = l.verified name lf found in
      let (block, has) = link-finds lf.function v label m in
      inr (record {
        name = name;
        lf = lf;
        label = label;
        block = block;
        at_function = refl;
        has_function = found;
        at_block = refl;
        has_block =
            subst (λ (lf : LinkedFunction). Dict.get lf.block_map label ≡ some block) (sym same)
              has;
        in_range =
            length-pos p l services block.instructions
              (link-strict lf.function v label block has).1;
      })

  abbrev R : ℕ → Vm → Type 0
  R a vm = IsRunning p vm

  abbrev Runs : Unit {0} → Vm → Type 0
  Runs u vm = IsRunning p vm

  start_function-runs :
      (name : String) (args : List ℤ) (n : ℕ) (vm : Vm)
      → Ensures (λ a. IsRunning p) (start_function p name args n vm)
  unfolding start_function
  start_function-runs name args n vm =
      Ensures-bind (λ (lf : LinkedFunction) t. Dict.get p.functions name ≡ some lf) _
        (reading λ vm. or_raise (Dict.get p.functions name) (unknown_entry_function name)) _ vm
        (Ensures-reading _ _ vm (is_some-IsSafe (Dict.get p.functions name) _ (λ h. h))
          (λ lf e. or_raise-some _ _ lf e))
        λ lf vm found.
          Ensures-bind (λ (e : ℕ × String) t. IsEntry lf.function.blocks e.1) _
            (reading λ vm. entry_block p name lf.function.blocks) _ vm
            (Ensures-reading _ _ vm (entry_block-IsSafe p name lf.function.blocks)
              (λ e h. entry_block-IsEntry p name lf.function.blocks e.0 e.1 h))
            λ e vm m. write_then R _ _ _ vm λ t. write_then R _ _ _ t λ t. write_then R _ _ _ t λ t.
              write_then R _ _ _ t λ t. write_then R _ _ _ t λ t. write_then R _ _ _ t λ t.
                write_then R _ _ _ t λ t.
                  Ensures-bind Anything R (write_args _ (words args)) _ t
                    (write_args-Ensures _ (words args) t)
                    λ u t _.
                      Ensures-bind Runs R (start_at name e.1 _) _ t
                        (start_at-runs name e.1 lf _ t found m) λ u t runs. reset p t runs

  run_started-Finishes :
      (depth max_steps n : ℕ) (r : Result VmError ℕ × Vm)
      → Ensures R r
      → Finishes (pos n) (run_started p depth max_steps n r)
  unfolding run_started
  run_started-Finishes depth m n (ok a, vm) runs =
      finish-Finishes a n (run p depth m vm) (run-ends p l services counting depth m vm runs)
  run_started-Finishes depth m n (err e, vm) h = h

  -- On a linked program, with host services that behave well and do not lower the step counter,
  -- `run_function` always ends, whatever the machine, the name and the arguments: with as many
  -- results as were asked for and the machine halted, or with a run-time fault, that is the step
  -- limit or another exception that is none of those that the verifier excludes.
  pub run_function-Finishes :
      (depth max_steps : ℕ) (name : String) (args : List ℤ) (count : ℤ) (vm : Vm)
      → Finishes count (run_function p depth max_steps name args count vm)
  unfolding run_function
  run_function-Finishes depth m name args (pos n) vm =
      run_started-Finishes depth m n (start_function p name args n vm)
        (start_function-runs name args n vm)
  run_function-Finishes depth m name args (negsuc n) vm =
      elim (Option-cases (Dict.get p.functions name)) [
        | inl e ↦ rw e (λ h. h)
        | inr (lf, e) ↦ rw e (λ h. h)
      ]
