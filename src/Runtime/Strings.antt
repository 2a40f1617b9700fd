-- ===== src/Runtime/Strings.antt =====
-- The C strings of `direct_runtime_callback` (src/minimachine/runtime.py), in the memory of the
-- Python machine. A loop that walks a string is a scan for the first index at which it returns; a
-- memory holds finitely many bytes, and past the last of them every byte is 0, so that the scan on
-- fuel up to there finds the index.
pub mod Scan
pub mod Compared
use minimachine.Prelude.{
  ℕ, zero, suc, ◌+◌, ◌-◌, ◌*◌, ◌%◌, ◌^◌, max, Bool, true, false, not, ◌&&◌, ◌||◌, nat_eqb, ltb, leb,
  List, [], ◌∷◌, Option, none, some, word_mod, if◌then◌else◌,
}
use minimachine.Prelude.Int.{sub_ℕ, mod_ℤ}
use minimachine.Prelude.Dict.{Dict}
use minimachine.Memory.{SparseMemory}
use minimachine.Runtime.Blob.{read_byte, store_byte}

-- One more than the highest address that was written.
unfoldable pub limit_of : Dict ℕ ℕ → ℕ
limit_of [] = 0
limit_of ((address, byte) ∷ cells) = max (suc address) (limit_of cells)

abbrev pub limit : SparseMemory → ℕ
limit m = limit_of m.bytes

-- The first index from `i` on at which the test holds, or `i + fuel`.
unfoldable pub scan : (ℕ → Bool) → ℕ → ℕ → ℕ
scan stop zero i = i
scan stop (suc fuel) i = let rest = scan stop fuel (i + 1) in if stop i then i else rest

-- The byte at an index of a string.
abbrev pub at : SparseMemory → ℕ → ℕ → ℕ
at m ptr i = read_byte m (ptr + i)

abbrev pub is_nul : SparseMemory → ℕ → ℕ → Bool
is_nul m ptr i = nat_eqb (at m ptr i) 0

-- The length never reaches `MASK64` in a memory of this machine.
unfoldable pub strlen : SparseMemory → ℕ → ℕ
strlen m ptr = scan (is_nul m ptr) (limit m) 0

-- `(av - bv) & MASK64`
abbrev pub byte_difference : ℕ → ℕ → ℕ
byte_difference av bv = mod_ℤ (sub_ℕ av bv) word_mod

abbrev pub differ_at : SparseMemory → ℕ → ℕ → ℕ → Bool
differ_at m a b i = not (nat_eqb (at m a i) (at m b i))

-- What the comparison returns at the index where it stops: 0 at the end of both strings.
unfoldable pub strcmp : SparseMemory → ℕ → ℕ → ℕ
strcmp m a b =
    let i = scan (λ i. differ_at m a b i || is_nul m a i) (limit m) 0 in
    byte_difference (at m a i) (at m b i)

-- The loops on `range(size)` return 0 when the scan reaches the size.
unfoldable pub strncmp : SparseMemory → ℕ → ℕ → ℕ → ℕ
strncmp m a b size =
    let i = scan (λ i. differ_at m a b i || is_nul m a i) size 0 in
    if ltb i size then byte_difference (at m a i) (at m b i) else 0

unfoldable pub memcmp : SparseMemory → ℕ → ℕ → ℕ → ℕ
memcmp m a b size =
    let i = scan (differ_at m a b) size 0 in
    if ltb i size then byte_difference (at m a i) (at m b i) else 0

abbrev pub strchr_stop : SparseMemory → ℕ → ℕ → ℕ → Bool
strchr_stop m ptr ch i = nat_eqb (at m ptr i) ch || is_nul m ptr i

unfoldable pub strchrnul : SparseMemory → ℕ → ℕ → ℕ
strchrnul m ptr ch = ptr + scan (strchr_stop m ptr (ch % 256)) (limit m) 0

unfoldable pub strchr : SparseMemory → ℕ → ℕ → ℕ
strchr m ptr ch =
    let i = scan (strchr_stop m ptr (ch % 256)) (limit m) 0 in
    if nat_eqb (at m ptr i) (ch % 256) then ptr + i else 0

unfoldable pub memchr : SparseMemory → ℕ → ℕ → ℕ → ℕ
memchr m ptr ch size =
    let i = scan (λ i. nat_eqb (at m ptr i) (ch % 256)) size 0 in if ltb i size then ptr + i else 0

-- `av + 32 if 65 <= av <= 90 else av`
unfoldable pub lowered : ℕ → ℕ
lowered c = if leb 65 c && leb c 90 then c + 32 else c

abbrev pub case_stop : SparseMemory → ℕ → ℕ → ℕ → Bool
case_stop m a b i =
    not (nat_eqb (lowered (at m a i)) (lowered (at m b i))) || is_nul m a i || is_nul m b i

abbrev pub case_difference : SparseMemory → ℕ → ℕ → ℕ → ℕ
case_difference m a b i = byte_difference (lowered (at m a i)) (lowered (at m b i))

unfoldable pub strcasecmp : SparseMemory → ℕ → ℕ → ℕ
strcasecmp m a b = case_difference m a b (scan (case_stop m a b) (limit m) 0)

unfoldable pub strncasecmp : SparseMemory → ℕ → ℕ → ℕ → ℕ
strncasecmp m a b size =
    let i = scan (case_stop m a b) size 0 in if ltb i size then case_difference m a b i else 0

-- Whether a byte is one of the string's, of which `n` are left from index `j` on.
unfoldable pub has_byte_from : SparseMemory → ℕ → ℕ → ℕ → ℕ → Bool
has_byte_from m set byte j zero = false
has_byte_from m set byte j (suc n) = nat_eqb (at m set j) byte || has_byte_from m set byte (j + 1) n

unfoldable pub is_in : SparseMemory → ℕ → ℕ → Bool
is_in m set byte = has_byte_from m set byte 0 (strlen m set)

abbrev pub span_stop : SparseMemory → ℕ → ℕ → ℕ → Bool
span_stop m ptr set i = is_nul m ptr i || is_in m set (at m ptr i)

unfoldable pub strcspn : SparseMemory → ℕ → ℕ → ℕ
strcspn m ptr reject = scan (span_stop m ptr reject) (limit m) 0

unfoldable pub strpbrk : SparseMemory → ℕ → ℕ → ℕ
strpbrk m ptr accept =
    let i = scan (span_stop m ptr accept) (limit m) 0 in if is_nul m ptr i then 0 else ptr + i

-- Whether the needle stands at an index of the haystack.
unfoldable pub matches : SparseMemory → ℕ → ℕ → ℕ → ℕ → Bool
matches m haystack needle j zero = true
matches m haystack needle j (suc n) =
    nat_eqb (at m haystack j) (at m needle j) && matches m haystack needle (j + 1) n

unfoldable pub strstr : SparseMemory → ℕ → ℕ → ℕ
strstr m haystack needle =
    let n = strlen m needle in
    let i = scan (λ i. is_nul m haystack i || matches m (haystack + i) needle 0 n) (limit m) 0 in
    if nat_eqb n 0 then haystack else if is_nul m haystack i then 0 else haystack + i

-- `strncpy` and `stpncpy` with `n` rounds left: once the source has ended the bytes are 0. The
-- index of the first 0 is where `stpncpy` returns.
unfoldable pub strncpy_from : Bool → SparseMemory → ℕ → ℕ → ℕ → ℕ → Bool → SparseMemory × ℕ
strncpy_from stops m dst src i zero ended = (m, dst + i)
strncpy_from stops m dst src i (suc n) ended =
    let byte : ℕ = if ended then 0 else at m src i in
    let m' = store_byte m (dst + i) byte in
    let rest = strncpy_from stops m' dst src (i + 1) n (ended || nat_eqb byte 0) in
    if stops && nat_eqb byte 0 then (m', dst + i) else rest

-- `strcpy` with fuel: it does not end when it overwrites the end of its source, and `none` means
-- that the fuel ran out. The address is that of the 0 that was written.
unfoldable pub strcpy_from : SparseMemory → ℕ → ℕ → ℕ → ℕ → Option (SparseMemory × ℕ)
strcpy_from m dst src i zero = none
strcpy_from m dst src i (suc fuel) =
    let byte : ℕ = at m src i in
    let m' = store_byte m (dst + i) byte in
    let rest = strcpy_from m' dst src (i + 1) fuel in
    if nat_eqb byte 0 then some (m', dst + i) else rest
