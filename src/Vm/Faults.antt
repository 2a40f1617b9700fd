-- ===== src/Vm/Faults.antt =====
-- The exceptions that a linked program can still raise at run time, and rules for them. The others
-- are those that the verifier of src/minimachine/verify.py is there to exclude.
use minimachine.Prelude.{◌≡◌, refl, Result, ok, err, ◌>>=◌ as ◌>>>◌}
use minimachine.Error.{
  VmError, no_current_function, no_current_block, unknown_function, unknown_block, fell_off_block,
  unknown_local_target, local_branch_without_function, invalid_branch_target,
  unknown_extension_mode, invalid_source_width, unsupported_memory_width,
}
use minimachine.Exec.{Exec, ◌>>=◌, continue}

-- The place is lost, a local branch has no target, or a move is not well formed.
abbrev pub IsStructural : VmError → Type 0
IsStructural no_current_function = Unit
IsStructural no_current_block = Unit
IsStructural (unknown_function n) = Unit
IsStructural (unknown_block l) = Unit
IsStructural fell_off_block = Unit
IsStructural (unknown_local_target l) = Unit
IsStructural local_branch_without_function = Unit
IsStructural invalid_branch_target = Unit
IsStructural (unknown_extension_mode e) = Unit
IsStructural (invalid_source_width n) = Unit
IsStructural (unsupported_memory_width n) = Unit
IsStructural _ = ⊥

abbrev pub IsFault : VmError → Type 0
IsFault e = ¬ IsStructural e

-- A read succeeds or raises a run-time fault.
abbrev pub IsSafe : {A : Type 0} → Result VmError A → Type 0
IsSafe (ok a) = Unit {0}
IsSafe (err e) = IsFault e

pub IsSafe-bind :
    {A B : Type 0} (m : Result VmError A) (f : A → Result VmError B)
    → IsSafe m
    → ((a : A) → m ≡ ok a → IsSafe (f a))
    → IsSafe (m >>> f)
IsSafe-bind (ok a) f s k = k a refl
IsSafe-bind (err e) f s k = s

-- A method succeeds with a postcondition or raises a run-time fault.
abbrev pub Ensures : {S A : Type 0} → (A → S → Type 0) → Result VmError A × S → Type 0
Ensures Q (ok a, s) = Q a s
Ensures Q (err e, s) = IsFault e

Ensures-continue :
    {S A B : Type 0} (Q : A → S → Type 0) (R : B → S → Type 0) (f : A → Exec S B)
    (r : Result VmError A) (s : S)
    → Ensures Q (r, s)
    → ((a : A) (t : S) → Q a t → Ensures R (f a t))
    → Ensures R (continue r f s)
Ensures-continue Q R f (ok a) s q k = k a s q
Ensures-continue Q R f (err e) s q k = q

pub Ensures-bind :
    {S A B : Type 0} (Q : A → S → Type 0) (R : B → S → Type 0) (m : Exec S A) (f : A → Exec S B)
    (s : S)
    → Ensures Q (m s)
    → ((a : A) (t : S) → Q a t → Ensures R (f a t))
    → Ensures R ((m >>= f) s)
Ensures-bind Q R m f s q k = Ensures-continue Q R f (m s).0 (m s).1 q k

pub Ensures-reading :
    {S A : Type 0} (Q : A → S → Type 0) (r : Result VmError A) (s : S)
    → IsSafe r
    → ((a : A) → r ≡ ok a → Q a s)
    → Ensures Q (r, s)
Ensures-reading Q (ok a) s safe k = k a refl
Ensures-reading Q (err e) s safe k = safe
