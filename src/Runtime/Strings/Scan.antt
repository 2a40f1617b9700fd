-- ===== src/Runtime/Strings/Scan.antt =====
-- Scans of memory (src/minimachine/runtime.py) find the first index at which their loop returns,
-- and the C strings of the machine always end.
use minimachine.Prelude.{
  ℕ, zero, suc, ◌+◌, ◌≤◌, ◌<◌, ◌≡◌, refl, ◌∙◌, arith, Bool, true, false, Bool-cases, inl, inr, [],
  ◌∷◌, nat_eqb, nat_eqb_iff, subst, ltb, ltb→lt, nat_eq, none,
}
use native.Mathlib.Nat.{add-zero}
use minimachine.Prelude.Dict
use minimachine.Prelude.Dict.{Dict}
use minimachine.Memory.{SparseMemory, byte_at}
use minimachine.Memory.Bytes.{IsByteMemory}
use minimachine.Runtime.Encoded.{read_byte_lem}
use minimachine.Runtime.Strings.{limit_of, limit, scan, at, is_nul, strlen}

-- The first index from `lo` on at which the test holds.
pub record IsFirst (stop : ℕ → Bool) (lo i : ℕ) : Type 0 where
  pub from : lo ≤ i
  pub here : stop i ≡ true
  pub before : (k : ℕ) → lo ≤ k → k < i → stop k ≡ false

-- An index at or after `i` is `i` or past it.
before_all :
    (stop : ℕ → Bool) (i n k : ℕ)
    → stop i ≡ false
    → ((k : ℕ) → i + 1 ≤ k → k < n → stop k ≡ false)
    → i ≤ k
    → k < n
    → stop k ≡ false
before_all stop i n k e h p q = elim (Bool-cases (nat_eqb i k)) [
  | inl same ↦ subst (λ (k : ℕ). stop k ≡ false) ((nat_eqb_iff i k).0 same) e
  | inr other ↦ h k (ground arith) q
]

pub scan-IsFirst :
    (stop : ℕ → Bool) (fuel i : ℕ) → stop (i + fuel) ≡ true → IsFirst stop i (scan stop fuel i)
unfolding scan
scan-IsFirst stop zero i h = record {
  from = omega arith;
  here = subst (λ (k : ℕ). stop k ≡ true) (add-zero i) h;
  before = λ k p q. absurd (omega arith);
}
scan-IsFirst stop (suc fuel) i h = elim (Bool-cases (stop i)) [
  | inl e ↦ rw e (record { from = omega arith; here = e; before = λ k p q. absurd (omega arith) })
  | inr e ↦
      let ih : IsFirst stop (i + 1) (scan stop fuel (i + 1)) =
        scan-IsFirst stop fuel (i + 1) (subst (λ (k : ℕ). stop k ≡ true) (omega arith) h) in
      rw e (record {
        from = omega (arith, ih.from);
        here = ih.here;
        before = λ k p q. before_all stop i (scan stop fuel (i + 1)) k e ih.before p q;
      })
]

get-limit : (d : Dict ℕ ℕ) (a : ℕ) → limit_of d ≤ a → Dict.get d a ≡ none
unfolding limit_of Dict.get
get-limit [] a h = refl
get-limit ((k, v) ∷ d) a h = ground (arith, get-limit d a)

-- No byte was written at the limit or past it.
pub at-limit : (m : SparseMemory) (ptr i : ℕ) → IsByteMemory m → limit m ≤ i → at m ptr i ≡ 0
unfolding byte_at
at-limit m ptr i w h =
    read_byte_lem m (ptr + i) w ∙ rw (get-limit m.bytes (ptr + i) (omega arith)) refl

-- A string ends at its length, and at no index before.
pub strlen-IsFirst :
    (m : SparseMemory) (ptr : ℕ) → IsByteMemory m → IsFirst (is_nul m ptr) 0 (strlen m ptr)
unfolding strlen
strlen-IsFirst m ptr w =
    scan-IsFirst (is_nul m ptr) (limit m) 0
      ((nat_eqb_iff (at m ptr (0 + limit m)) 0).1 (at-limit m ptr (0 + limit m) w (omega arith)))

-- A first index is the only one.
pub IsFirst-unique : (stop : ℕ → Bool) (lo i j : ℕ) → IsFirst stop lo i → IsFirst stop lo j → i ≡ j
IsFirst-unique stop lo i j f g = elim (Bool-cases (ltb i j)) [
  | inl e ↦ absurd (clash (f.here) (g.before i f.from (ltb→lt i j e)))
  | inr e ↦ elim (Bool-cases (ltb j i)) [
    | inl k ↦ absurd (clash (g.here) (f.before j g.from (ltb→lt j i k)))
    | inr k ↦ ground arith
  ]
]
  where
    clash : {b : Bool} → b ≡ true → b ≡ false → ⊥
    clash h k = cc
