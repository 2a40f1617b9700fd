-- ===== src/Vm/Safety.antt =====
-- A machine that runs a linked program (src/minimachine/vm.py) always stands before an instruction
-- or has halted, and never raises what the verifier is there to exclude.
use minimachine.Prelude.{
  dec_lt, sym, ◌∙◌, subst, ◌≢◌, ℕ, ◌<◌, ◌+◌, ◌%◌, ◌^◌, String, ◌≡◌, refl, inl, inr, some, List,
  length, get_elem?, get_elem?-last, Bool, true, false, Bool-cases, Result, ok, err, if◌then◌else◌,
  arith, All-get_elem?,
}
use minimachine.Error.{VmError}
use minimachine.Muir.{
  Width, i8, i16, i32, i64, width_bits, slot, imm, symbol, reloc, arbitrary, block_addr, sp,
  Operand, value, mem, BrFields, Target,
}
use minimachine.P3
use minimachine.Prelude.Dict.{some_inj}
use minimachine.Exec.{reading, modify, ◌>>=◌, ◌>>◌}
use minimachine.Memory
use minimachine.Verify.{p3_labels}
use minimachine.Verify.Strict.{IsStrictInstr, IsTarget}
use minimachine.Program.{Program}
use minimachine.Program.Linked.{IsLinked}
use minimachine.Vm.{Vm}
use minimachine.Vm.Read.{mov_value, read_value, slot_address, address_of, condition, target_code}
use minimachine.Vm.Faults.{IsSafe, Ensures, Ensures-bind, Ensures-reading}
use minimachine.Vm.Places.{
  IsAt, at-strict, fetch_at, mov_value-IsSafe, read_value-IsSafe, slot_address-IsSafe,
  address_of-IsSafe, condition-IsSafe, target_code-IsSafe,
}
use minimachine.Vm.Control.{IsRunning, AreWellBehaved, set_code-Runs}
use minimachine.Vm.Step.{
  write_memory, set_sp, write_operand, advance, difference, run_instr, fetch, step,
}

-- The machine has not moved.
record SamePlace (vm t : Vm) : Type 0 where
  function : t.current_function ≡ vm.current_function
  block : t.current_block ≡ vm.current_block
  ip : t.ip ≡ vm.ip

SamePlace-refl : (vm : Vm) → SamePlace vm vm
SamePlace-refl vm = record { function = refl; block = refl; ip = refl }

SamePlace-trans : {a b c : Vm} → SamePlace a b → SamePlace b c → SamePlace a c
SamePlace-trans s t = record {
  function = t.function ∙ s.function;
  block = t.block ∙ s.block;
  ip = t.ip ∙ s.ip;
}

Ensures-mono :
    {S A : Type 0} {Q R : S → Type 0}
    → ((s : S) → Q s → R s)
    → (r : Result VmError A × S) → Ensures (λ a s. Q s) r
    → Ensures (λ a s. R s) r
Ensures-mono f (ok a, s) q = f s q
Ensures-mono f (err e, s) q = q

write_memory-same :
    (a v : ℕ) (w : Width) (vm : Vm)
    → Ensures (λ u t. SamePlace vm t) (write_memory a (width_bits w) v vm)
unfolding write_memory Memory.write
write_memory-same a v i8 vm = record { function = refl; block = refl; ip = refl }
write_memory-same a v i16 vm = record { function = refl; block = refl; ip = refl }
write_memory-same a v i32 vm = record { function = refl; block = refl; ip = refl }
write_memory-same a v i64 vm = record { function = refl; block = refl; ip = refl }

module _ (p : Program) (vm : Vm) (at : IsAt p vm) where
  IsAt-same : (t : Vm) → SamePlace vm t → IsAt p t
  IsAt-same t s = record {
    name = at.name;
    lf = at.lf;
    label = at.label;
    block = at.block;
    at_function = s.function ∙ at.at_function;
    has_function = at.has_function;
    at_block = s.block ∙ at.at_block;
    has_block = at.has_block;
    in_range = subst (λ n. n < length at.block.instructions) (sym s.ip) at.in_range;
  }

  write_operand-same :
      (o : Operand) (v bits : ℕ) → Ensures (λ u t. SamePlace vm t) (write_operand p o v bits vm)
  unfolding write_operand set_sp
  write_operand-same (mem a w) v bits =
      Ensures-bind (λ x t. SamePlace vm t) (λ u t. SamePlace vm t) (λ vm. (address_of p vm a, vm)) _
        vm
        (Ensures-reading (λ x t. SamePlace vm t) (address_of p vm a) vm
          (address_of-IsSafe p vm at a) (λ x e. SamePlace-refl vm))
        (λ x t s. Ensures-mono (λ r. SamePlace-trans s) _ (write_memory-same x (v % 2 ^ bits) w t))
  write_operand-same (value (slot n)) v bits =
      Ensures-bind (λ x t. SamePlace vm t) (λ u t. SamePlace vm t) (λ vm. (slot_address p vm n, vm))
        _ vm
        (Ensures-reading (λ x t. SamePlace vm t) (slot_address p vm n) vm
          (slot_address-IsSafe p vm at n) (λ x e. SamePlace-refl vm))
        (λ x t s.
          Ensures-mono (λ r. SamePlace-trans s) _ (write_memory-same x (v % 2 ^ bits) i64 t))
  write_operand-same (value sp) v bits = record { function = refl; block = refl; ip = refl }
  write_operand-same (value (imm n)) v bits = λ h. h
  write_operand-same (value (symbol n)) v bits = λ h. h
  write_operand-same (value (reloc n k)) v bits = λ h. h
  write_operand-same (value (arbitrary n)) v bits = λ h. h
  write_operand-same (value (block_addr n k)) v bits = λ h. h

chosen :
    (taken : Bool) (t f : Target) (labels : List String)
    → IsTarget labels t × IsTarget labels f
    → IsTarget labels (if taken then t else f)
chosen true t f labels h = h.0
chosen false t f labels h = h.1

running_at : (p : Program) (vm : Vm) → vm.halted ≡ false → IsRunning p vm → IsAt p vm
running_at p vm h (inl r) = absurd (cc)
running_at p vm h (inr at) = at

module _ (p : Program) (l : IsLinked p) (services : AreWellBehaved p) where
  abbrev Runs : Unit {0} → Vm → Type 0
  Runs u vm = IsRunning p vm

  -- An instruction that is no branch is not the last of its block.
  not_last :
      (vm : Vm) (at : IsAt p vm) (i : P3.Instr)
      → get_elem? at.block.instructions vm.ip ≡ some i
      → ((b : BrFields) → i ≢ P3.Instr.br b)
      → vm.ip + 1 < length at.block.instructions
  not_last vm at i e other = elim (dec_lt (vm.ip + 1) (length at.block.instructions)) [
    | yes h ↦ h
    | no h ↦
        let (b, last) = (at-strict p vm at l).1 in
        absurd (
          other b (
            some_inj i (P3.Instr.br b) (
              sym e
              ∙ get_elem?-last at.block.instructions vm.ip (omega (arith, at.in_range))
              ∙ last)))
  ]

  advance-Runs :
      (vm : Vm) (at : IsAt p vm) (t : Vm)
      → vm.ip + 1 < length at.block.instructions
      → SamePlace vm t
      → Ensures Runs (advance t)
  unfolding advance
  advance-Runs vm at t h s = inr (record {
    name = at.name;
    lf = at.lf;
    label = at.label;
    block = at.block;
    at_function = s.function ∙ at.at_function;
    has_function = at.has_function;
    at_block = s.block ∙ at.at_block;
    has_block = at.has_block;
    in_range = subst (λ n. n + 1 < length at.block.instructions) (sym s.ip) h;
  })

  run_instr-Runs :
      (depth : ℕ) (vm : Vm) (at : IsAt p vm) (i : P3.Instr)
      → get_elem? at.block.instructions vm.ip ≡ some i
      → Ensures Runs (run_instr p depth i vm)
  unfolding run_instr
  run_instr-Runs depth vm at (P3.Instr.mov i) e =
      let (w, x) =
        All-get_elem? (IsStrictInstr (p3_labels at.lf.function)) at.block.instructions vm.ip
          (P3.Instr.mov i) (at-strict p vm at l).0 e in
      Ensures-bind (λ a t. SamePlace vm t) Runs (λ vm. (mov_value p vm i, vm)) _ vm
        (Ensures-reading (λ a t. SamePlace vm t) (mov_value p vm i) vm
          (mov_value-IsSafe p vm at i w x) (λ a q. SamePlace-refl vm))
        λ v t s.
          Ensures-bind (λ u t'. SamePlace t t') Runs (write_operand p i.dst v (width_bits i.width))
            _ t (write_operand-same p t (IsAt-same p vm at t s) i.dst v (width_bits i.width))
            λ u t' s'.
              advance-Runs vm at t' (not_last vm at (P3.Instr.mov i) e (λ b q. cc))
                (SamePlace-trans s s')
  run_instr-Runs depth vm at (P3.Instr.sub i) e =
      Ensures-bind (λ a t. SamePlace vm t) Runs (λ vm. (read_value p vm i.a, vm)) _ vm
        (Ensures-reading (λ a t. SamePlace vm t) (read_value p vm i.a) vm
          (read_value-IsSafe p vm at i.a) (λ a q. SamePlace-refl vm))
        λ a t s.
          Ensures-bind (λ a t. SamePlace vm t) Runs (λ vm. (read_value p vm i.b, vm)) _ t
            (Ensures-reading (λ a t. SamePlace vm t) (read_value p t i.b) t
              (read_value-IsSafe p t (IsAt-same p vm at t s) i.b) (λ a q. s))
            λ b t s.
              Ensures-bind (λ u t'. SamePlace t t') Runs
                (write_operand p (value (slot i.dst)) (difference a b (width_bits i.width))
                  (width_bits i.width))
                _ t
                (write_operand-same p t (IsAt-same p vm at t s) (value (slot i.dst))
                  (difference a b (width_bits i.width)) (width_bits i.width))
                λ u t' s'.
                  advance-Runs vm at t' (not_last vm at (P3.Instr.sub i) e (λ b q. cc))
                    (SamePlace-trans s s')
  run_instr-Runs depth vm at (P3.Instr.br i) e =
      let targets =
        All-get_elem? (IsStrictInstr (p3_labels at.lf.function)) at.block.instructions vm.ip
          (P3.Instr.br i) (at-strict p vm at l).0 e in
      Ensures-bind (λ a t. t ≡ vm) Runs (λ vm. (condition p vm i, vm)) _ vm
        (Ensures-reading (λ a t. t ≡ vm) (condition p vm i) vm (condition-IsSafe p vm at i)
          (λ a q. refl))
        λ taken t s.
          Ensures-bind (λ a t. Unit {0}) Runs
            (λ vm. (target_code p vm (if taken then i.true_target else i.false_target), vm)) _ t
            (Ensures-reading (λ a t. Unit {0}) _ t
              (subst
                (λ t. IsSafe (target_code p t (if taken then i.true_target else i.false_target)))
                (sym s)
                (target_code-IsSafe p vm at l (if taken then i.true_target else i.false_target)
                  (chosen taken i.true_target i.false_target (p3_labels at.lf.function) targets)))
              (λ a q. tt))
            λ code t u. set_code-Runs p l services depth code t

  -- A step of a machine that has not halted.
  abbrev step_body : ℕ → Vm → Result VmError (Unit {0}) × Vm
  step_body depth vm =
      (do
        inst ← reading (fetch p)
        modify λ vm. record vm { steps = vm.steps + 1 }
        run_instr p depth inst)
        vm

  step_from : (depth : ℕ) (vm : Vm) → vm.halted ≡ false → IsAt p vm → Ensures Runs (step p depth vm)
  unfolding step IsAt-same
  step_from depth vm h at =
      let (i, e, g) = fetch_at p vm at l in
      let vm' : Vm = record vm { steps = vm.steps + 1 } in
      subst (λ b. Ensures Runs (if b then (ok tt, vm) else step_body depth vm)) (sym h)
        (rw e (
          run_instr-Runs depth vm'
            (IsAt-same p vm at vm' (record { function = refl; block = refl; ip = refl })) i g))

  pub step-IsRunning :
      (depth : ℕ) (vm : Vm)
      → IsRunning p vm
      → Ensures (λ (u : Unit {0}) vm'. IsRunning p vm') (step p depth vm)
  unfolding step
  step-IsRunning depth vm r = elim (Bool-cases vm.halted) [
    | inl h ↦
        subst (λ b. Ensures Runs (if b then (ok tt, vm) else step_body depth vm)) (sym h) (inl h)
    | inr h ↦ step_from depth vm h (running_at p vm h r)
  ]
