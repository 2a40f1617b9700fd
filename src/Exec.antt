-- ===== src/Exec.antt =====
-- Methods that mutate an object and may raise a `VMError`. What was written before a raise stays
-- written, so the state comes back beside the error too.
use minimachine.Prelude.{ap, ◌≡◌, refl, Result, ok, err}
use minimachine.Error.{VmError}

abbrev pub Exec {ℓ} : Type 0 → Type ℓ → Type ℓ
Exec S A = S → Result VmError A × S

abbrev pub pure {ℓ} : {S : Type 0} {A : Type ℓ} → A → Exec S A
pure a s = (ok a, s)

abbrev pub raise {ℓ} : {S : Type 0} {A : Type ℓ} → VmError → Exec S A
raise e s = (err e, s)

-- A computation that reads the state and may raise.
abbrev pub reading {ℓ} : {S : Type 0} {A : Type ℓ} → (S → Result VmError A) → Exec S A
reading f s = (f s, s)

abbrev pub modify : {S : Type 0} → (S → S) → Exec S (Unit {0})
modify f s = (ok tt, f s)

abbrev pub continue {ℓ κ} :
    {S : Type 0} {A : Type ℓ} {B : Type κ} → Result VmError A → (A → Exec S B) → Exec S B
continue (ok a) f s = f a s
continue (err e) f s = (err e, s)

infixl 10 ◌>>=◌ ◌>>◌
abbrev pub ◌>>=◌ {ℓ κ} :
    {S : Type 0} {A : Type ℓ} {B : Type κ} → Exec S A → (A → Exec S B) → Exec S B
◌>>=◌ m f s = let r = m s in continue r.0 f r.1

abbrev pub ◌>>◌ {ℓ κ} : {S : Type 0} {A : Type ℓ} {B : Type κ} → Exec S A → Exec S B → Exec S B
m >> n = m >>= λ _. n

continue-eq-ok {ℓ κ} :
    {S : Type 0} {A : Type ℓ} {B : Type κ} (r : Result VmError A) (f : A → Exec S B) (s s' : S)
    {b : B}
    → continue r f s ≡ (ok b, s')
    → (a : A) × (r ≡ ok a) × (f a s ≡ (ok b, s'))
continue-eq-ok (ok a) f s s' h = (a, refl, h)
continue-eq-ok (err e) f s s' h = absurd (cc)

-- A successful sequence is two successful parts.
pub >>=-eq-ok {ℓ κ} :
    {S : Type 0} {A : Type ℓ} {B : Type κ} (m : Exec S A) (f : A → Exec S B) (s s' : S) {b : B}
    → (m >>= f) s ≡ (ok b, s')
    → (a : A) × (t : S) × (m s ≡ (ok a, t)) × (f a t ≡ (ok b, s'))
>>=-eq-ok m f s s' h =
    let (a, e, q) = continue-eq-ok (m s).0 f (m s).1 s' h in
    (a, (m s).1, ap (λ r. (r, (m s).1)) e, q)
