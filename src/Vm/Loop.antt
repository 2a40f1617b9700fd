-- ===== src/Vm/Loop.antt =====
-- `run` of src/minimachine/vm.py: the loop ends within its step limit, and how it can end.
use minimachine.Prelude.{
  if◌then◌else◌, leb-false, subst, ℕ, zero, suc, ◌+◌, ◌<◌, ◌≡◌, refl, Option, none, some, Bool,
  true, false, Result, ok, err, leb, arith,
}
use minimachine.Error.{VmError}
use minimachine.Program.{Program}
use minimachine.Program.Linked.{IsLinked}
use minimachine.Vm.{Vm}
use minimachine.Vm.Faults.{IsFault, Ensures}
use minimachine.Vm.Control.{IsRunning, AreWellBehaved}
use minimachine.Vm.Safety.{step-IsRunning}
use minimachine.Vm.Counting.{AreCounting, step-counts}
use minimachine.Vm.Step.{step}
use minimachine.Vm.Run.{continue_run, run_loop, run}

-- A run that ended: the machine halted, or the run raised a fault that a linked program may raise.
abbrev pub EndsWell : Option (Result VmError (Unit {0}) × Vm) → Type 0
EndsWell none = ⊥
EndsWell (some (ok u, vm)) = vm.halted ≡ true
EndsWell (some (err e, vm)) = IsFault e

ends-if :
    (b : Bool) (x y : Option (Result VmError (Unit {0}) × Vm))
    → (b ≡ true → EndsWell x)
    → (b ≡ false → EndsWell y)
    → EndsWell (if b then x else y)
ends-if true x y t f = t refl
ends-if false x y t f = f refl

module _ (p : Program) (l : IsLinked p) (services : AreWellBehaved p)
    (counting : AreCounting p) where
  continued :
      (depth max_steps fuel : ℕ) (vm : Vm) (r : Result VmError (Unit {0}) × Vm)
      → step p depth vm ≡ r
      → vm.halted ≡ false
      → vm.steps < max_steps
      → max_steps < suc fuel + vm.steps
      → IsRunning p vm
      → ((vm' : Vm)
          → max_steps < fuel + vm'.steps
          → 0 < fuel
          → IsRunning p vm'
          → EndsWell (run_loop p depth max_steps fuel vm'))
      → EndsWell (continue_run (run_loop p depth max_steps fuel) r)
  unfolding continue_run
  continued depth m fuel vm (ok tt, vm') e h lt enough runs go =
      let c = step-counts p counting depth vm vm' h e in
      go vm' (omega arith) (omega arith)
        (subst (Ensures (λ u. IsRunning p)) e (step-IsRunning p l services depth vm runs))
  continued depth m fuel vm (err x, vm') e h lt enough runs go =
      subst (Ensures (λ u. IsRunning p)) e (step-IsRunning p l services depth vm runs)

  run_loop-ends :
      (depth max_steps fuel : ℕ) (vm : Vm)
      → max_steps < fuel + vm.steps
      → 0 < fuel
      → IsRunning p vm
      → EndsWell (run_loop p depth max_steps fuel vm)
  unfolding run_loop
  run_loop-ends depth m zero vm enough pos runs = absurd (omega arith)
  run_loop-ends depth m (suc fuel) vm enough pos runs =
      ends-if vm.halted _ _ (λ h. h)
        λ h.
          ends-if (leb m vm.steps) _ _ (λ le x. x)
            λ gt.
              continued depth m fuel vm (step p depth vm) refl h (leb-false m vm.steps gt) enough
                runs (λ vm'. run_loop-ends depth m fuel vm')

  pub run-ends :
      (depth max_steps : ℕ) (vm : Vm) → IsRunning p vm → EndsWell (run p depth max_steps vm)
  unfolding run
  run-ends depth m vm runs = run_loop-ends depth m (m + 1) vm (omega arith) (omega arith) runs
