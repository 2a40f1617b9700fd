-- ===== src/Runtime/Strings/Compared.antt =====
-- `strcmp` of src/minimachine/runtime.py tells exactly whether two strings are the same.
use minimachine.Prelude.{ℕ, ◌+◌, ◌<◌, ◌≡◌, ◌↔◌, ◌∙◌, sym, subst, arith, Bool, ◌||◌, nat_eqb_iff}
use minimachine.Prelude.Int.{mod_ℤ}
use minimachine.Memory.{SparseMemory}
use minimachine.Memory.Bytes.{IsByteMemory}
use minimachine.Runtime.Encoded.{read_byte_lem}
use minimachine.Runtime.Strings.{
  limit, scan, at, is_nul, strlen, strcmp, differ_at, byte_difference,
}
use minimachine.Runtime.Strings.Scan.{
  IsFirst, scan-IsFirst, at-limit, strlen-IsFirst, IsFirst-unique,
}

-- The strings have one length, and the same byte at each index below it.
pub record SameString (m : SparseMemory) (a b : ℕ) : Type 0 where
  pub as_long : strlen m a ≡ strlen m b
  pub bytes : (k : ℕ) → k < strlen m a → at m a k ≡ at m b k

byte_difference-zero : (x y : ℕ) → x < 256 → y < 256 → byte_difference x y ≡ 0 → x ≡ y
unfolding mod_ℤ
byte_difference-zero x y p q h = ground arith

byte_difference_self : (x : ℕ) → byte_difference x x ≡ 0
unfolding mod_ℤ
byte_difference_self x = ground arith

at-lt : (m : SparseMemory) (ptr i : ℕ) → IsByteMemory m → at m ptr i < 256
at-lt m ptr i w = omega (arith, read_byte_lem m (ptr + i) w, w.bound (ptr + i))

abbrev stop : SparseMemory → ℕ → ℕ → ℕ → Bool
stop m a b i = differ_at m a b i || is_nul m a i

strcmp-stops :
    (m : SparseMemory) (a b : ℕ)
    → IsByteMemory m
    → IsFirst (stop m a b) 0 (scan (stop m a b) (limit m) 0)
strcmp-stops m a b w =
    scan-IsFirst (stop m a b) (limit m) 0 (ground (arith, at-limit m a (0 + limit m) w))

-- Where the comparison stops on equal bytes, both strings end, and they are the same before.
stopped-SameString :
    (m : SparseMemory) (a b i : ℕ)
    → IsByteMemory m
    → IsFirst (stop m a b) 0 i
    → at m a i ≡ at m b i
    → SameString m a b
stopped-SameString m a b i w f e =
    let ends_a : IsFirst (is_nul m a) 0 i = record {
      from = omega arith;
      here = ground (arith, f.here);
      before = λ k p q. ground (arith, f.before k p q);
    } in
    let ends_b : IsFirst (is_nul m b) 0 i = record {
      from = omega arith;
      here = ground (arith, f.here);
      before = λ k p q. ground (arith, f.before k p q);
    } in
    let la : strlen m a ≡ i = IsFirst-unique (is_nul m a) 0 _ _ (strlen-IsFirst m a w) ends_a in
    let lb : strlen m b ≡ i = IsFirst-unique (is_nul m b) 0 _ _ (strlen-IsFirst m b w) ends_b in
    record { as_long = la ∙ sym lb; bytes = λ k h. ground (arith, f.before k) }

SameString-stops :
    (m : SparseMemory) (a b : ℕ)
    → IsByteMemory m
    → SameString m a b
    → IsFirst (stop m a b) 0 (strlen m a)
SameString-stops m a b w s =
    let fa = strlen-IsFirst m a w in
    record {
      from = omega arith;
      here = ground (arith, fa.here);
      before = λ k p q. ground (arith, fa.before k p q, s.bytes k q);
    }

ends : (m : SparseMemory) (p : ℕ) → IsByteMemory m → at m p (strlen m p) ≡ 0
ends m p w = (nat_eqb_iff (at m p (strlen m p)) 0).0 (strlen-IsFirst m p w).here

same_end :
    (m : SparseMemory) (a b : ℕ)
    → IsByteMemory m
    → strlen m a ≡ strlen m b
    → at m a (strlen m a) ≡ at m b (strlen m a)
same_end m a b w e = ends m a w ∙ sym (subst (λ (n : ℕ). at m b n ≡ 0) (sym e) (ends m b w))

-- In a memory of bytes `strcmp` returns 0 exactly for two strings of one length with the same
-- bytes.
pub strcmp-SameString :
    (m : SparseMemory) (a b : ℕ) → IsByteMemory m → (strcmp m a b ≡ 0) ↔ SameString m a b
unfolding strcmp
strcmp-SameString m a b w =
    let i = scan (stop m a b) (limit m) 0 in
    let f = strcmp-stops m a b w in
    (
      λ h.
          stopped-SameString m a b i w f
            (byte_difference-zero (at m a i) (at m b i) (at-lt m a i w) (at-lt m b i w) h),
      λ s.
          let g = SameString-stops m a b w s in
          let here : i ≡ strlen m a = IsFirst-unique (stop m a b) 0 _ _ f g in
          subst (λ (j : ℕ). byte_difference (at m a j) (at m b j) ≡ 0) (sym here)
            (subst (λ (v : ℕ). byte_difference (at m a (strlen m a)) v ≡ 0)
              (same_end m a b w s.as_long) (byte_difference_self (at m a (strlen m a)))),
    )
