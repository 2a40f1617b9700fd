-- ===== src/Kallsyms/Length.antt =====
-- The length before a name in the kernel symbol table (src/minimachine/kallsyms.py) is read back.
use minimachine.Prelude.{
  ℕ, ◌+◌, ◌*◌, ◌-◌, ◌/◌, ◌%◌, ◌<◌, ◌≡◌, refl, subst, inl, inr, arith, List, [], ◌∷◌, ◌++◌, false,
  Bool-cases, leb, ltb, ok, ok-injective, if◌then◌else◌, Option, none, some,
}
use minimachine.Kallsyms.{encode_len}

-- How the kernel reads a length: a first byte with its high bit set is followed by the bits from
-- the eighth on.
decode_high : ℕ → List ℕ → Option (ℕ × List ℕ)
decode_high a [] = none
decode_high a (b ∷ rest) = some (a - 128 + b * 128, rest)

unfoldable pub decode_len : List ℕ → Option (ℕ × List ℕ)
unfolding decode_high
decode_len [] = none
decode_len (a ∷ rest) = if ltb a 128 then some (a, rest) else decode_high a rest

abbrev Decodes : ℕ → List ℕ → List ℕ → Type 0
Decodes n rest bs = (decode_len (bs ++ rest) ≡ some (n, rest)) × (0 < n) × (n < 16384)

short : (n : ℕ) (rest : List ℕ) → 0 < n → n < 128 → Decodes n rest (n ∷ [])
unfolding decode_len
short n rest p h = (ground arith, p, omega arith)

long :
    (n : ℕ) (rest : List ℕ)
    → 127 < n
    → n < 16384
    → Decodes n rest ((n % 128 + 128) ∷ (n / 128 % 128) ∷ [])
unfolding decode_len
long n rest p h =
    let high : ltb (n % 128 + 128) 128 ≡ false = ground arith in
    let same : n % 128 + 128 - 128 + n / 128 % 128 * 128 ≡ n = omega arith in
    (rw (high, same) refl, omega arith, h)

-- A length that is encoded is positive and below 2 ^ 14, and the kernel's decoder gets it and the
-- bytes after it back.
pub decode_len-encode_len :
    (n : ℕ) (bs rest : List ℕ)
    → encode_len n ≡ ok bs
    → (decode_len (bs ++ rest) ≡ some (n, rest)) × (0 < n) × (n < 16384)
unfolding encode_len
decode_len-encode_len n bs rest h = elim (Bool-cases (leb n 0)) [
  | inl e ↦ absurd (cc (rw e at h))
  | inr e ↦ elim (Bool-cases (leb n 0x7F)) [
    | inl s ↦
        subst (Decodes n rest) (ok-injective (rw (e, s) at h))
          (short n rest (ground arith) (ground arith))
    | inr s ↦ elim (Bool-cases (ltb 0x3FFF n)) [
      | inl t ↦ absurd (cc (rw (e, s, t) at h))
      | inr t ↦
          subst (Decodes n rest) (ok-injective (rw (e, s, t) at h))
            (long n rest (ground arith) (ground arith))
    ]
  ]
]
