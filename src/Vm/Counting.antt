-- ===== src/Vm/Counting.antt =====
-- The step counter of src/minimachine/vm.py: no method lowers it, and a step that runs an
-- instruction raises it, which bounds the rounds of `run`.
use minimachine.Prelude.{
  length, nat_eq, word_mod, if◌then◌else◌, ◌==◌, nat_eqb, string_eq, Result-cases, ℕ, zero, suc,
  ◌+◌, ◌≤◌, ◌<◌, String, ◌≡◌, refl, inl, inr, Option, none, some, List, [], ◌∷◌, false, Bool-cases,
  Option-cases, Result, ok, err, arith, subst,
}
use minimachine.Prelude.Int.{mod_ℤ, ℤ}
use minimachine.Prelude.Dict
use minimachine.Error.{VmError}
use minimachine.Exec.{Exec, continue, reading, modify, ◌>>=◌, ◌>>◌}
use minimachine.Muir.{Width, i64, Operand, value, mem}
use minimachine.Memory
use minimachine.P3
use minimachine.Program.{Program}
use minimachine.Abi.Frame.{frame_size, arg_count, result_count, result_ptr, caller_sp, ret_pc}
use minimachine.Vm.Read.{slot_address, address_of, read_value, mov_value, condition, target_code}
use minimachine.Muir.{
  Width, i8, i16, i32, i64, slot, imm, symbol, reloc, arbitrary, block_addr, sp, width_bits,
}
use minimachine.Vm.{Vm, HostService, Reply, nothing, one, many, control_transfer}
use minimachine.Vm.Step.{
  difference, fetch, write_memory, read_word, read_header, read_words, write_words, set_sp, halt,
  write_operand, results_of, check_count, return_results, call_service, enter_block, after_reply,
  invoke_host, dispatch, set_code, advance, run_instr, step,
}

-- The counter is at least `n`, whether the method returned or raised.
unfoldable pub AtLeast : {A : Type 0} → ℕ → Result VmError A × Vm → Type 0
AtLeast n r = n ≤ r.1.steps

-- The method never lowers the counter, whether it returns or raises.
abbrev pub Counts : {A : Type 0} → Exec Vm A → Type 0
Counts m = (n : ℕ) (vm : Vm) → n ≤ vm.steps → AtLeast n (m vm)

-- What the loop needs of the host services.
pub record AreCounting (p : Program) : Type 0 where
  pub counts :
      (symbol : String) (callback : HostService)
      → Dict.get p.host_services symbol ≡ some callback
      → (args : List ℕ) → Counts (callback args)

Counts-continue :
    {A B : Type 0} (f : A → Exec Vm B) (r : Result VmError A) (s : Vm) (n : ℕ)
    → ((a : A) → Counts (f a))
    → n ≤ s.steps
    → AtLeast n (continue r f s)
unfolding AtLeast
Counts-continue f (ok a) s n k h = k a n s h
Counts-continue f (err e) s n k h = h

Counts-bind :
    {A B : Type 0} (m : Exec Vm A) (f : A → Exec Vm B)
    → Counts m
    → ((a : A) → Counts (f a))
    → (n : ℕ) (vm : Vm) → n ≤ vm.steps
    → AtLeast n ((m >>= f) vm)
unfolding AtLeast
Counts-bind m f c k n vm h = Counts-continue f (m vm).0 (m vm).1 n k (c n vm h)

-- The counter stays.
Counts-stay :
    {A : Type 0} (r : Result VmError A) (n : ℕ) (vm vm' : Vm)
    → n ≤ vm.steps
    → vm'.steps ≡ vm.steps
    → AtLeast n (r, vm')
unfolding AtLeast
Counts-stay r n vm vm' h e = omega arith

Counts-reading : {A : Type 0} (f : Vm → Result VmError A) → Counts (reading f)
Counts-reading f n vm h = Counts-stay (f vm) n vm vm h refl

write_memory-Counts : (a v : ℕ) (w : Width) → Counts (write_memory a (width_bits w) v)
unfolding write_memory Memory.write
write_memory-Counts a v i8 n vm h = Counts-stay _ n vm _ h refl
write_memory-Counts a v i16 n vm h = Counts-stay _ n vm _ h refl
write_memory-Counts a v i32 n vm h = Counts-stay _ n vm _ h refl
write_memory-Counts a v i64 n vm h = Counts-stay _ n vm _ h refl

read_word-Counts : (a : ℕ) → Counts (read_word a)
unfolding read_word
read_word-Counts a = Counts-reading λ vm. Memory.read vm.memory a 64

read_header-Counts : (o : ℕ) → Counts (read_header o)
unfolding read_header
read_header-Counts o = Counts-reading λ vm. Memory.read vm.memory (vm.sp + o) 64

read_words-Counts : (a n : ℕ) → Counts (read_words a n)
unfolding read_words
read_words-Counts a zero n vm h = Counts-stay _ n vm vm h refl
read_words-Counts a (suc m) n vm h =
    Counts-bind (read_word a) _ (read_word-Counts a)
      (λ first.
        Counts-bind (read_words (a + 8) m) _ (read_words-Counts (a + 8) m)
          λ rest n vm h. Counts-stay _ n vm vm h refl)
      n vm h

write_words-Counts : (a : ℕ) (vs : List ℤ) → Counts (write_words a vs)
unfolding write_words
write_words-Counts a [] n vm h = Counts-stay _ n vm vm h refl
write_words-Counts a (v ∷ vs) n vm h =
    Counts-bind (write_memory a 64 (mod_ℤ v word_mod)) _ (write_memory-Counts a _ i64)
      (λ u. write_words-Counts (a + 8) vs) n vm h

write_operand-Counts : (p : Program) (o : Operand) (v bits : ℕ) → Counts (write_operand p o v bits)
unfolding write_operand set_sp
write_operand-Counts p (mem a w) v bits n vm h =
    Counts-bind (reading λ vm. address_of p vm a) _ (Counts-reading _)
      (λ address. write_memory-Counts address _ w) n vm h
write_operand-Counts p (value (slot name)) v bits n vm h =
    Counts-bind (reading λ vm. slot_address p vm name) _ (Counts-reading _)
      (λ address. write_memory-Counts address _ i64) n vm h
write_operand-Counts p (value sp) v bits n vm h = Counts-stay _ n vm _ h refl
write_operand-Counts p (value (imm i)) v bits n vm h = Counts-stay _ n vm vm h refl
write_operand-Counts p (value (symbol s)) v bits n vm h = Counts-stay _ n vm vm h refl
write_operand-Counts p (value (reloc s a)) v bits n vm h = Counts-stay _ n vm vm h refl
write_operand-Counts p (value (block_addr f b)) v bits n vm h = Counts-stay _ n vm vm h refl
write_operand-Counts p (value (arbitrary t)) v bits n vm h = Counts-stay _ n vm vm h refl

check_count-Counts : (s : String) (m k : ℕ) → Counts (check_count s m k)
unfolding check_count
check_count-Counts s m k n vm h = elim (Bool-cases (nat_eqb m k)) [
  | inl e ↦ rw e (Counts-stay _ n vm vm h refl)
  | inr e ↦ rw e (Counts-stay _ n vm vm h refl)
]

return_results-Counts : (s : String) (rs : List ℤ) → Counts (return_results s rs)
unfolding return_results set_sp
return_results-Counts s rs n vm h =
    Counts-bind (read_header result_count) _ (read_header-Counts _)
      (λ m. Counts-bind (check_count s (length rs) m) _ (check_count-Counts s _ m) λ u.
        Counts-bind (read_header result_ptr) _ (read_header-Counts _) λ a.
          Counts-bind (write_words a rs) _ (write_words-Counts a rs) λ u.
            Counts-bind (read_header caller_sp) _ (read_header-Counts _) λ c.
              Counts-bind (read_header ret_pc) _ (read_header-Counts _)
                λ r n vm h. Counts-stay _ n vm _ h refl)
      n vm h

counted : (n : ℕ) (vm : Vm) → AtLeast {A = Unit {0}} (n + 1) (ok tt, vm) → n < vm.steps
unfolding AtLeast
counted n vm h = omega arith

raised :
    (x : VmError) (vm vm' : Vm)
    → ¬ (◌≡◌ {A = Result VmError (Unit {0}) × Vm} (err x, vm) (ok tt, vm'))
raised x vm vm' h = absurd (cc)

module _ (p : Program) (services : AreCounting p) where
  call_service-Counts : (name : String) → Counts (call_service name (Dict.get p.host_services name))
  unfolding call_service
  call_service-Counts name n vm h = elim (Option-cases (Dict.get p.host_services name)) [
    | inl e ↦ rw e (Counts-stay _ n vm vm h refl)
    | inr (callback, e) ↦ rw e (
        Counts-bind (read_header frame_size) _ (read_header-Counts _)
          (λ size. Counts-bind (read_header arg_count) _ (read_header-Counts _) λ argc.
            Counts-bind (reading λ vm. ok (vm.sp + size)) _ (Counts-reading _) λ base.
              Counts-bind (read_words base argc) _ (read_words-Counts base argc)
                λ args. services.counts name callback e args)
          n vm h)
  ]

  enter_block-Counts :
      (code : ℕ) (place : Option (String × String)) → Counts (enter_block code place)
  unfolding enter_block
  enter_block-Counts code none n vm h = Counts-stay _ n vm vm h refl
  enter_block-Counts code (some (f, b)) n vm h = Counts-stay _ n vm _ h refl

  after_reply-Counts :
      (go : ℕ → Exec Vm (Unit {0})) (name : String) (reply : Reply)
      → ((code : ℕ) → Counts (go code))
      → Counts (after_reply go name reply)
  unfolding after_reply results_of
  after_reply-Counts go name control_transfer k n vm h = Counts-stay _ n vm vm h refl
  after_reply-Counts go name nothing k n vm h =
      Counts-bind (return_results name []) _ (return_results-Counts name _) k n vm h
  after_reply-Counts go name (one v) k n vm h =
      Counts-bind (return_results name (v ∷ [])) _ (return_results-Counts name _) k n vm h
  after_reply-Counts go name (many vs) k n vm h =
      Counts-bind (return_results name vs) _ (return_results-Counts name _) k n vm h

  dispatch-Counts :
      (go : ℕ → Exec Vm (Unit {0})) (code : ℕ) (host : Option String)
      → ((code : ℕ) → Counts (go code))
      → Counts (dispatch go p code host)
  unfolding dispatch invoke_host halt
  dispatch-Counts go code none k n vm h = enter_block-Counts code _ n vm h
  dispatch-Counts go code (some name) k n vm h = elim (Bool-cases (name == "__halt__")) [
    | inl e ↦ rw e (Counts-stay _ n vm _ h refl)
    | inr e ↦ rw e (
        Counts-bind (call_service name (Dict.get p.host_services name)) _ (call_service-Counts name)
          (λ reply. after_reply-Counts go name reply k) n vm h)
  ]

  set_code-Counts : (depth code : ℕ) → Counts (set_code p depth code)
  unfolding set_code halt
  set_code-Counts zero code n vm h = Counts-stay _ n vm vm h refl
  set_code-Counts (suc depth) code n vm h = elim (Bool-cases (nat_eqb code p.halt_code)) [
    | inl e ↦ rw e (Counts-stay _ n vm _ h refl)
    | inr e ↦ rw e (
        dispatch-Counts (λ target. set_code p depth target) code (Dict.get p.host_code code)
          (λ c. set_code-Counts depth c) n vm h)
  ]

  run_instr-Counts : (depth : ℕ) (i : P3.Instr) → Counts (run_instr p depth i)
  unfolding run_instr advance
  run_instr-Counts depth (P3.Instr.mov i) n vm h =
      Counts-bind (reading λ vm. mov_value p vm i) _ (Counts-reading _)
        (λ v.
          Counts-bind (write_operand p i.dst v (width_bits i.width)) _
            (write_operand-Counts p i.dst v _) λ u n vm h. Counts-stay _ n vm _ h refl)
        n vm h
  run_instr-Counts depth (P3.Instr.sub i) n vm h =
      Counts-bind (reading λ vm. read_value p vm i.a) _ (Counts-reading _)
        (λ a. Counts-bind (reading λ vm. read_value p vm i.b) _ (Counts-reading _) λ b.
          Counts-bind
            (write_operand p (value (slot i.dst)) (difference a b (width_bits i.width))
              (width_bits i.width))
            _ (write_operand-Counts p _ _ _) λ u n vm h. Counts-stay _ n vm _ h refl)
        n vm h
  run_instr-Counts depth (P3.Instr.br i) n vm h =
      Counts-bind (reading λ vm. condition p vm i) _ (Counts-reading _)
        (λ taken.
          Counts-bind
            (reading λ vm. target_code p vm (if taken then i.true_target else i.false_target)) _
            (Counts-reading _) λ code. set_code-Counts depth code)
        n vm h

  -- The counter of the state after a step, when the step returns.
  abbrev step_body : ℕ → Vm → Result VmError (Unit {0}) × Vm
  step_body depth vm =
      (do
        inst ← reading (fetch p)
        modify λ vm. record vm { steps = vm.steps + 1 }
        run_instr p depth inst)
        vm

  body-counts : (depth : ℕ) (vm vm' : Vm) → step_body depth vm ≡ (ok tt, vm') → vm.steps < vm'.steps
  unfolding AtLeast
  body-counts depth vm vm' e = elim (Result-cases (fetch p vm)) [
    | inl (i, q) ↦
        let vm1 : Vm = record vm { steps = vm.steps + 1 } in
        let c = run_instr-Counts depth i (vm.steps + 1) vm1 (omega arith) in
        let same : run_instr p depth i vm1 ≡ (ok tt, vm') =
          subst
            (λ r.
              continue r (λ i (vm : Vm). run_instr p depth i (record vm { steps = vm.steps + 1 }))
                vm
              ≡ (ok tt, vm'))
            q e in
        counted vm.steps vm' (subst (AtLeast (vm.steps + 1)) same c)
    | inr (x, q) ↦ absurd (
        raised x vm vm' (
          subst
            (λ r.
              continue r (λ i (vm : Vm). run_instr p depth i (record vm { steps = vm.steps + 1 }))
                vm
              ≡ (ok tt, vm'))
            q e))
  ]

  -- A step of a machine that has not halted and that returns raises the counter.
  pub step-counts :
      (depth : ℕ) (vm vm' : Vm)
      → vm.halted ≡ false
      → step p depth vm ≡ (ok tt, vm')
      → vm.steps < vm'.steps
  unfolding step
  step-counts depth vm vm' h e =
      body-counts depth vm vm'
        (subst (λ b. (if b then (ok tt, vm) else step_body depth vm) ≡ (ok tt, vm')) h e)
