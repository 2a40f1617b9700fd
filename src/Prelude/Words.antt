-- ===== src/Prelude/Words.antt =====
-- 64-bit words as natural numbers.
use Prim.Native.Nat.{ℕ, ◌^◌}

-- MASK64 + 1: `x & MASK64` is `x % word_mod`.
abbrev pub word_mod : ℕ
word_mod = 2 ^ 64
