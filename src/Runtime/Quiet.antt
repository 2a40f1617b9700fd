-- ===== src/Runtime/Quiet.antt =====
-- Rules for what the host services of src/minimachine/runtime.py leave alone: the place of the
pub mod Parts
pub mod Helpers
pub mod Systems
pub mod Directs
-- machine, its stack, its counter of steps, and what they may raise.
use minimachine.Prelude.{
  ℕ, zero, suc, ◌+◌, ◌%◌, ◌≡◌, refl, ◌∙◌, Bool, true, false, Result, require, ok, err, String, List,
  [], ◌∷◌, Option, if◌then◌else◌, nat_eqb, not, ◌||◌, ◌&&◌, leb, bit_and, ◌-◌, max, arith,
}
use minimachine.Prelude.Int.{ℤ, pos, negsuc}
use minimachine.Error.{
  heap_collided_with_stack, VmError, ServiceError, service_failed, allocation_alignment,
}
use minimachine.Exec.{Exec, pure, raise, reading, modify, continue, ◌>>=◌, ◌>>◌}
use minimachine.Memory
use minimachine.Memory.{SparseMemory}
use minimachine.Vm.{Vm, Platform, HostService, Reply, nothing, one, many, control_transfer}
use minimachine.Vm.Faults.{IsFault}
use minimachine.Vm.Run.{alloc_bytes}
use minimachine.Vm.Step.{write_memory, read_word, read_header}
use minimachine.Runtime.Blob.{on_memory, refuse_if}

-- Only the memory, the heap and the platform's registers may differ.
pub record SameControl (vm vm' : Vm) : Type 0 where
  pub stack_top : vm'.stack_top ≡ vm.stack_top
  pub sp : vm'.sp ≡ vm.sp
  pub current_function : vm'.current_function ≡ vm.current_function
  pub current_block : vm'.current_block ≡ vm.current_block
  pub ip : vm'.ip ≡ vm.ip
  pub halted : vm'.halted ≡ vm.halted
  pub steps : vm'.steps ≡ vm.steps

pub SameControl-refl : (vm : Vm) → SameControl vm vm
SameControl-refl vm = record {
  stack_top = refl;
  sp = refl;
  current_function = refl;
  current_block = refl;
  ip = refl;
  halted = refl;
  steps = refl;
}

pub SameControl-trans : (a b c : Vm) → SameControl a b → SameControl b c → SameControl a c
SameControl-trans a b c s t = record {
  stack_top = t.stack_top ∙ s.stack_top;
  sp = t.sp ∙ s.sp;
  current_function = t.current_function ∙ s.current_function;
  current_block = t.current_block ∙ s.current_block;
  ip = t.ip ∙ s.ip;
  halted = t.halted ∙ s.halted;
  steps = t.steps ∙ s.steps;
}

-- A value with a property, or an exception that no verifier excludes.
abbrev pub Outcome : {A : Type 0} → (A → Type 0) → Result VmError A → Type 0
Outcome P (ok a) = P a
Outcome P (err e) = IsFault e

abbrev pub Any : {A : Type 0} → A → Type 0
Any a = Unit

-- A reply after which the machine returns to the caller.
abbrev pub Answers : Reply → Type 0
Answers nothing = Unit
Answers (one v) = Unit
Answers (many vs) = Unit
Answers control_transfer = ⊥

pub record Quiet {A : Type 0} (P : A → Type 0) (m : Exec Vm A) : Type 0 where
  pub same : (vm : Vm) → SameControl vm (m vm).1
  pub outcome : (vm : Vm) → Outcome P (m vm).0

module _ {A : Type 0} (P : A → Type 0) where
  pub Quiet-pure : (a : A) → P a → Quiet P (pure a)
  Quiet-pure a p = record { same = λ vm. SameControl-refl vm; outcome = λ vm. p }

  pub Quiet-raise : (e : ServiceError) → Quiet P (raise (service_failed e))
  Quiet-raise e = record { same = λ vm. SameControl-refl vm; outcome = λ vm h. h }

  pub Quiet-reading :
      (f : Vm → Result VmError A) → ((vm : Vm) → Outcome P (f vm)) → Quiet P (reading f)
  Quiet-reading f h = record { same = λ vm. SameControl-refl vm; outcome = h }

  pub Quiet-if : (b : Bool) (m n : Exec Vm A) → Quiet P m → Quiet P n → Quiet P (if b then m else n)
  Quiet-if true m n p q = p
  Quiet-if false m n p q = q

module _ {A B : Type 0} (P : B → Type 0) (f : A → Exec Vm B) where
  Quiet-continue :
      (r : Result VmError A) (s : Vm)
      → ((a : A) → Quiet P (f a))
      → Outcome Any r
      → SameControl s (continue r f s).1 × Outcome P (continue r f s).0
  Quiet-continue (ok a) s k o = ((k a).same s, (k a).outcome s)
  Quiet-continue (err e) s k o = (SameControl-refl s, o)

  pub Quiet-bind : (m : Exec Vm A) → Quiet Any m → ((a : A) → Quiet P (f a)) → Quiet P (m >>= f)
  Quiet-bind m q k = record {
    same = λ vm.
        SameControl-trans vm (m vm).1 _ (q.same vm)
          (Quiet-continue (m vm).0 (m vm).1 k (q.outcome vm)).0;
    outcome = λ vm. (Quiet-continue (m vm).0 (m vm).1 k (q.outcome vm)).1;
  }

pub Quiet-modify : (f : Vm → Vm) → ((vm : Vm) → SameControl vm (f vm)) → Quiet Any (modify f)
Quiet-modify f h = record { same = h; outcome = λ vm. tt }

pub Quiet-on_memory : (f : SparseMemory → SparseMemory) → Quiet Any (on_memory f)
Quiet-on_memory f = Quiet-modify _ (λ vm. record {
  stack_top = refl;
  sp = refl;
  current_function = refl;
  current_block = refl;
  ip = refl;
  halted = refl;
  steps = refl;
})

pub Quiet-refuse_if : (b : Bool) (e : ServiceError) → Quiet Any (refuse_if b e)
unfolding refuse_if
Quiet-refuse_if true e = Quiet-raise Any e
Quiet-refuse_if false e = Quiet-pure Any tt tt

pub Quiet-Answers : {m : Exec Vm Reply} → Quiet Answers m → Quiet Any m
Quiet-Answers {m} q = record { same = q.same; outcome = λ vm. weaken (m vm).0 (q.outcome vm) }
  where
    weaken : (r : Result VmError Reply) → Outcome Answers r → Outcome Any r
    weaken (ok a) p = tt
    weaken (err e) p = p

-- The words of the memory are always of a width that it supports.
pub Quiet-read_word : (a : ℕ) → Quiet Any (read_word a)
unfolding read_word Memory.read
Quiet-read_word a = Quiet-reading Any _ (λ vm. tt)

pub Quiet-read_header : (a : ℕ) → Quiet Any (read_header a)
unfolding read_header Memory.read
Quiet-read_header a = Quiet-reading Any _ (λ vm. tt)

pub Quiet-write_word : (a v : ℕ) → Quiet Any (write_memory a 64 v)
unfolding write_memory Memory.write
Quiet-write_word a v = Quiet-on_memory (λ m. Memory.store m a 64 v)

-- The three ends of an allocation.
abbrev ends : Vm → Vm → ℕ → Bool → Bool → Result VmError ℕ × Vm
ends vm vm' a b c =
    if b
    then (err allocation_alignment, vm)
    else if c
    then (err heap_collided_with_stack, vm')
    else (ok a, vm')

alloc-ends :
    (vm vm' : Vm) (a : ℕ) (b c : Bool)
    → SameControl vm vm'
    → SameControl vm (ends vm vm' a b c).1 × Outcome Any (ends vm vm' a b c).0
alloc-ends vm vm' a true c s = (SameControl-refl vm, λ h. h)
alloc-ends vm vm' a false true s = (s, λ h. h)
alloc-ends vm vm' a false false s = (s, tt)

alloc-SameControl : (vm : Vm) (n : ℕ) → SameControl vm (record vm { heap_next = n })
alloc-SameControl vm n = record {
  stack_top = refl;
  sp = refl;
  current_function = refl;
  current_block = refl;
  ip = refl;
  halted = refl;
  steps = refl;
}

pub Quiet-heap : (n : ℕ) → Quiet Any (modify λ vm. record vm { heap_next = n })
Quiet-heap n = Quiet-modify _ (λ vm. alloc-SameControl vm n)

pub Quiet-alloc_bytes : (size align : ℕ) → Quiet Any (alloc_bytes (pos size) (pos align))
unfolding alloc_bytes
Quiet-alloc_bytes size align = record {
  same = λ vm. (alloc-ends vm _ _ _ _ (alloc-SameControl vm _)).0;
  outcome = λ vm. (alloc-ends vm _ _ _ _ (alloc-SameControl vm _)).1;
}

pub require-Outcome : (b : Bool) (e : ServiceError) → Outcome Any (require b (service_failed e))
require-Outcome true e = tt
require-Outcome false e = λ h. h

pub ruleset quiet_rules = (
  Quiet-pure, Quiet-raise, Quiet-reading, Quiet-if, Quiet-bind, Quiet-on_memory, Quiet-refuse_if,
  Quiet-read_word, Quiet-read_header, Quiet-write_word, Quiet-alloc_bytes,
)
