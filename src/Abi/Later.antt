-- ===== src/Abi/Later.antt =====
-- How the builder of src/minimachine/abi.py changes while a part of a function is expanded.
use minimachine.Prelude.{
  subst, ℕ, ◌+◌, String, ◌≡◌, inl, inr, Bool-cases, List, Result, ok, err, arith,
}
use minimachine.Verify.{elem}
use minimachine.Verify.Sets.{Member}
use minimachine.Abi.Builder.{
  AbiError, Builder, Build, continue, ◌>>=◌, add_slot, declare, temp, new_label,
}

-- The counted calls of the three kinds.
abbrev pub counted : Builder → ℕ
counted s = s.stats.calls + s.stats.helpers + s.stats.system_ops

-- `t` comes after `s`: it has the slots of `s`, `k` more continuations and `c` more calls.
pub record IsLater (s t : Builder) (k c : ℕ) : Type 0 where
  pub slots : (x : String) → Member x s.frame_slots → Member x t.frame_slots
  pub continuations : t.stats.continuation_blocks ≡ s.stats.continuation_blocks + k
  pub calls : counted t ≡ counted s + c

pub IsLater-trans :
    {s t u : Builder} {j k c d : ℕ}
    → IsLater s t j c
    → IsLater t u k d
    → IsLater s u (j + k) (c + d)
IsLater-trans a b = record {
  slots = λ x m. b.slots x (a.slots x m);
  continuations = omega (arith, a.continuations, b.continuations);
  calls = omega (arith, a.calls, b.calls);
}

pub IsLater-cast : {s t : Builder} {j k c d : ℕ} → IsLater s t j c → j ≡ k → c ≡ d → IsLater s t k d
IsLater-cast a e q = record {
  slots = a.slots;
  continuations = omega (arith, a.continuations, e);
  calls = omega (arith, a.calls, q);
}

-- A build fails, or its result and its builder satisfy `Q`.
unfoldable pub Gives :
    {A : Type 0} → (A → Builder → Type 0) → Result AbiError (A × Builder) → Type 0
Gives Q (ok (a, t)) = Q a t
Gives Q (err e) = Unit

Gives-result :
    {A B : Type 0} (Q : A → Builder → Type 0) (R : B → Builder → Type 0) (f : A → Build B)
    (r : Result AbiError (A × Builder))
    → Gives Q r
    → ((a : A) (t : Builder) → Q a t → Gives R (f a t))
    → Gives R (continue r f)
unfolding Gives
Gives-result Q R f (ok (a, t)) q k = k a t q
Gives-result Q R f (err e) q k = tt

pub Gives-bind :
    {A B : Type 0} (Q : A → Builder → Type 0) (R : B → Builder → Type 0) (m : Build A)
    (f : A → Build B) (s : Builder)
    → Gives Q (m s)
    → ((a : A) (t : Builder) → Q a t → Gives R (f a t))
    → Gives R ((m >>= f) s)
Gives-bind Q R m f s q k = Gives-result Q R f (m s) q k

pub Gives-ok :
    {A : Type 0} (Q : A → Builder → Type 0) (a : A) (t : Builder) → Q a t → Gives Q (ok (a, t))
unfolding Gives
Gives-ok Q a t q = q

pub Gives-err : {A : Type 0} (Q : A → Builder → Type 0) (e : AbiError) → Gives Q (err e)
unfolding Gives
Gives-err Q e = tt

-- What a build that succeeds has given.
pub Gives-value :
    {A : Type 0} (Q : A → Builder → Type 0) (r : Result AbiError (A × Builder)) (a : A)
    (t : Builder)
    → Gives Q r
    → r ≡ ok (a, t)
    → Q a t
unfolding Gives
Gives-value Q r a t g e = subst (Gives Q) e g

add_slot-keeps :
    (name x : String) (slots : List String) → Member x slots → Member x (add_slot name slots)
unfolding add_slot
add_slot-keeps name x slots m = elim (Bool-cases (elem name slots)) [
  | inl e ↦ rw e m
  | inr e ↦ rw e (inr m)
]

abbrev pub Stays : {A : Type 0} → Builder → A → Builder → Type 0
Stays s a t = IsLater s t 0 0

pub IsLater-same : (s : Builder) → IsLater s s 0 0
IsLater-same s = record { slots = λ x m. m; continuations = omega arith; calls = omega arith }

pub temp-Stays : (stem : String) (s : Builder) → Gives (Stays s) (temp stem s)
unfolding temp
temp-Stays stem s = Gives-ok (Stays s) _ _ (record {
  slots = λ x m. add_slot-keeps _ x s.frame_slots m;
  continuations = omega arith;
  calls = omega arith;
})

pub declare-Stays : (name : String) (s : Builder) → Gives (Stays s) (declare name s)
unfolding declare
declare-Stays name s = Gives-ok (Stays s) _ _ (record {
  slots = λ x m. add_slot-keeps name x s.frame_slots m;
  continuations = omega arith;
  calls = omega arith;
})

pub new_label-Stays : (block stem : String) (s : Builder) → Gives (Stays s) (new_label block stem s)
unfolding new_label
new_label-Stays block stem s =
    Gives-ok (Stays s) _ _
      (record { slots = λ x m. m; continuations = omega arith; calls = omega arith })
