-- ===== src/Runtime/Direct.antt =====
-- The portable C runtime of src/minimachine/runtime.py, `direct_runtime_callback`: the callback of
-- each symbol. `strcpy` and `stpcpy` may never end and are in `Strings`; `fnmatch`, and the tracing
-- of console copies, which only prints, are left out.
use minimachine.Prelude.{
  word_mod, leb, ◌||◌, ℕ, ◌+◌, ◌%◌, String, Bool, true, false, not, nat_eqb, if◌then◌else◌, ok,
  string_eq,
}
use minimachine.Prelude.Int.{pos}
use minimachine.Exec.{Exec, pure, reading, ◌>>=◌, ◌>>◌}
use minimachine.Memory.{SparseMemory}
use minimachine.Vm.{Vm, HostService, Reply}
use minimachine.Vm.Run.{alloc_bytes}
use minimachine.Vm.Step.{write_memory, read_word}
use minimachine.Error.{string_wrapped}
use minimachine.Runtime.Blob.{refuse_if, on_memory, fill, read_byte, store_byte}
use minimachine.Runtime.Copy.{copy_bytes, move_bytes, whole}
use minimachine.Runtime.Arithmetic
use minimachine.Runtime.Helper.{answer, answering}
use minimachine.Runtime.Dispatch.{with_1, with_2, with_3}
use minimachine.Runtime.Strings
use minimachine.Runtime.Strings.{limit, scan, at, is_nul, is_in, strncpy_from}

pub data Direct : Type 0 where
  memcpy memmove memset memcmp strlen strcmp strncmp strchr strchrnul memchr : Direct
  strncpy stpncpy strcasecmp strncasecmp strcspn strpbrk strstr strdup strtok_r ror32 : Direct

-- A result that is computed from the memory.
abbrev pub from_memory : (SparseMemory → ℕ) → Exec Vm Reply
from_memory f = reading (λ vm. ok (f vm.memory)) >>= answer

-- The length, refused past 64 bits.
unfoldable pub run_strlen : ℕ → Exec Vm ℕ
run_strlen ptr = do
  n ← reading λ vm. ok (Strings.strlen vm.memory ptr)
  refuse_if (leb word_mod n) string_wrapped
  pure n

unfoldable pub run_strncpy : Bool → ℕ → ℕ → ℕ → Exec Vm Reply
run_strncpy stops dst src size = do
  written ← reading λ vm. ok (strncpy_from stops vm.memory dst src 0 size false)
  on_memory λ m. written.0
  answer (if stops then written.1 else dst)

unfoldable pub run_strdup : ℕ → Exec Vm ℕ
run_strdup src = do
  n ← reading λ vm. ok (Strings.strlen vm.memory src + 1)
  dst ← alloc_bytes (pos n) (pos 1)
  on_memory λ m. copy_bytes m dst src 0 n
  pure dst

-- The start of the token, past the delimiters, and its end.
unfoldable pub token_start : SparseMemory → ℕ → ℕ → ℕ
token_start m ptr delim =
    ptr + scan (λ i. is_nul m ptr i || not (is_in m delim (at m ptr i))) (limit m) 0

unfoldable pub token_end : SparseMemory → ℕ → ℕ → ℕ
token_end m ptr delim = ptr + scan (λ i. is_nul m ptr i || is_in m delim (at m ptr i)) (limit m) 0

-- A delimiter that ends the token is overwritten, and the next call starts after it; at the end of
-- the string the next call starts there.
unfoldable pub end_token : ℕ → ℕ → ℕ → ℕ → Exec Vm (Unit {0})
end_token saveptr stop byte delim =
    if nat_eqb byte 0
    then write_memory saveptr 64 stop
    else on_memory (λ m. store_byte m stop 0) >> write_memory saveptr 64 (stop + 1)

unfoldable pub take_token : ℕ → ℕ → ℕ → Exec Vm Reply
take_token token delim saveptr = do
  stop ← reading λ vm. ok (token_end vm.memory token delim)
  byte ← reading λ vm. ok (read_byte vm.memory stop)
  end_token saveptr stop byte delim
  answer token

unfoldable pub no_token : ℕ → ℕ → Exec Vm Reply
no_token saveptr ptr = write_memory saveptr 64 ptr >> answer 0

unfoldable pub next_token : ℕ → ℕ → ℕ → Exec Vm Reply
next_token ptr delim saveptr = do
  token ← reading λ vm. ok (token_start vm.memory ptr delim)
  byte ← reading λ vm. ok (read_byte vm.memory token)
  (if nat_eqb byte 0 then no_token saveptr token else take_token token delim saveptr)

unfoldable pub run_strtok_r : ℕ → ℕ → ℕ → Exec Vm Reply
run_strtok_r ptr delim saveptr = do
  start ← (if nat_eqb ptr 0 then read_word saveptr else pure ptr)
  next_token start delim saveptr

unfoldable pub direct_callback : String → Direct → HostService
direct_callback s Direct.memcpy =
    with_3 s λ dst src n. on_memory (λ m. copy_bytes m dst src 0 n) >> answer dst
direct_callback s Direct.memmove =
    with_3 s λ dst src n. on_memory (λ m. move_bytes whole m dst src n) >> answer dst
direct_callback s Direct.memset =
    with_3 s λ dst v n. on_memory (λ m. fill m dst 0 n (v % 256)) >> answer dst
direct_callback s Direct.memcmp = with_3 s λ a b n. from_memory λ m. Strings.memcmp m a b n
direct_callback s Direct.strlen = with_1 s λ p. answering (run_strlen p)
direct_callback s Direct.strcmp = with_2 s λ a b. from_memory λ m. Strings.strcmp m a b
direct_callback s Direct.strncmp = with_3 s λ a b n. from_memory λ m. Strings.strncmp m a b n
direct_callback s Direct.strchr = with_2 s λ p c. from_memory λ m. Strings.strchr m p c
direct_callback s Direct.strchrnul = with_2 s λ p c. from_memory λ m. Strings.strchrnul m p c
direct_callback s Direct.memchr = with_3 s λ p c n. from_memory λ m. Strings.memchr m p c n
direct_callback s Direct.strncpy = with_3 s (run_strncpy false)
direct_callback s Direct.stpncpy = with_3 s (run_strncpy true)
direct_callback s Direct.strcasecmp = with_2 s λ a b. from_memory λ m. Strings.strcasecmp m a b
direct_callback s Direct.strncasecmp =
    with_3 s λ a b n. from_memory λ m. Strings.strncasecmp m a b n
direct_callback s Direct.strcspn = with_2 s λ p r. from_memory λ m. Strings.strcspn m p r
direct_callback s Direct.strpbrk = with_2 s λ p a. from_memory λ m. Strings.strpbrk m p a
direct_callback s Direct.strstr = with_2 s λ h n. from_memory λ m. Strings.strstr m h n
direct_callback s Direct.strdup = with_1 s λ p. answering (run_strdup p)
direct_callback s Direct.strtok_r = with_3 s run_strtok_r
direct_callback s Direct.ror32 = with_2 s λ x n. answer (Arithmetic.ror32 x n)
