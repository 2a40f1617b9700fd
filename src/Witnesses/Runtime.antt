-- ===== src/Witnesses/Runtime.antt =====
-- The host services (src/minimachine/runtime.py) on concrete numbers, memories and programs.
use minimachine.Prelude.{
  ℕ, ◌+◌, ◌-◌, ◌^◌, ◌%◌, ◌<◌, ◌≤◌, ◌≡◌, ◌⊎◌, ◌↔◌, refl, inl, arith, ok, none, some, [], ◌∷◌,
  string_eq, nat_eq,
}
use minimachine.Prelude.Int.{pos, negsuc, mod_ℤ, neg_part, pos_part, ◌-ℤ◌, ◌*ℤ◌}
use minimachine.Prelude.Dict
use minimachine.Memory
use minimachine.Memory.{byte_at}
use minimachine.Memory.Bytes.{IsByteMemory, write_bytes-IsByteMemory}
use minimachine.Program.{Program}
use minimachine.Program.Link
use minimachine.Verify
use minimachine.Vm.{Vm, init_vm, heap_base}
use minimachine.Vm.Run.{alloc_bytes}
use minimachine.Runtime.Integer
use minimachine.Runtime.Integer.{
  int_mul, icmp_slt, icmp_ult, signed, icmp, binary_integer, quotient,
}
use minimachine.Runtime.Integer.Signed.{
  signed-mod_ℤ, signed-in_range, quotient-remainder, remainder,
}
use minimachine.Runtime.Integer.Range.{binary_integer-lt}
use minimachine.Runtime.Integer.Order.{unsigned_of, icmp-unsigned_of}
use minimachine.Runtime.Blob
use minimachine.Runtime.Blob.{encode_integer, decode_integer}
use minimachine.Runtime.Encoded.{decode_integer-encode_integer}
use minimachine.Runtime.Copy.{move_bytes, copy_bytes, whole}
use minimachine.Runtime.Moved.{move_bytes-moves, copy_bytes-move_bytes}
use minimachine.Runtime.Strings.{strlen, strcmp, is_nul}
use minimachine.Runtime.Strings.Scan.{IsFirst, strlen-IsFirst}
use minimachine.Runtime.Strings.Compared.{SameString, strcmp-SameString}
use minimachine.Runtime.Helper
use minimachine.Runtime.Dispatch.{helper_callback}
use minimachine.Runtime.System
use minimachine.Runtime.System.{amo_add}
use minimachine.Runtime.System.Registers.{system_callback}
use minimachine.Runtime.Direct
use minimachine.Runtime.Direct.{direct_callback}
use minimachine.Runtime.Quiet.Helpers.{QuietService}
use minimachine.Runtime.Quiet.Systems.{system_callback-QuietService}
use minimachine.Runtime.Install
use minimachine.Runtime.Install.{Found, install_runtime}
use minimachine.Samples.{linked, memory, sample_vm}

memory-IsByteMemory : IsByteMemory memory
memory-IsByteMemory =
    write_bytes-IsByteMemory (record { bytes = [] }) 100 0 2 2047
      (record { bound = λ a. unfold Memory.byte_at in (omega arith) })

binary_integer-lt_example : (r : ℕ) × (binary_integer int_mul 8 200 3 ≡ ok r) × (r < 2 ^ 8)
binary_integer-lt_example = binary_integer-lt int_mul 8 200 3 (omega arith)

signed-mod_ℤ_example :
    (neg_part (signed 200 8) ≤ 2 ^ (8 - 1))
    × (pos_part (signed 200 8) < 2 ^ (8 - 1))
    × (mod_ℤ (signed 200 8) (2 ^ 8) ≡ 200 % 2 ^ 8)
signed-mod_ℤ_example = signed-mod_ℤ 200 8 (omega arith)

signed-in_range_example : signed (mod_ℤ (negsuc 4) (2 ^ 8)) 8 ≡ negsuc 4
signed-in_range_example = signed-in_range (negsuc 4) 8 (omega arith) (ground arith) (ground arith)

quotient-remainder_example :
    negsuc 6 -ℤ quotient (negsuc 6) (pos 2) *ℤ pos 2 ≡ remainder (negsuc 6) (pos 2)
quotient-remainder_example = quotient-remainder (negsuc 6) (pos 2)

icmp-unsigned_of_example :
    icmp icmp_slt 8 200 3 ≡ icmp (unsigned_of icmp_slt) 8 (200 + 2 ^ (8 - 1)) (3 + 2 ^ (8 - 1))
icmp-unsigned_of_example = icmp-unsigned_of icmp_slt 8 200 3 tt (omega arith)

-- A number of 72 bits, which is put in new bytes.
abbrev byte_vm : Vm
byte_vm = record sample_vm { memory = memory }

abbrev encoded_vm : Vm
encoded_vm = (encode_integer 72 (pos 4722366482869645213696) byte_vm).1

abbrev encoded_at : ℕ
encoded_at = heap_base

encoded_ok : encode_integer 72 (pos 4722366482869645213696) byte_vm ≡ (ok encoded_at, encoded_vm)
unfolding encode_integer Blob.encode_wide Blob.int_abi_align alloc_bytes Integer.check_width mod_ℤ
    Link.new_vm init_vm
encoded_ok = refl

decode_integer-encode_integer_example :
    decode_integer encoded_at 72 encoded_vm
    ≡ (ok (mod_ℤ (pos 4722366482869645213696) (2 ^ 72)), encoded_vm)
decode_integer-encode_integer_example =
    decode_integer-encode_integer 72 encoded_at (pos 4722366482869645213696) byte_vm encoded_vm
      memory-IsByteMemory encoded_ok

move_bytes-moves_example :
    ((k : ℕ)
      → k < 2
      → byte_at (move_bytes whole memory 101 100 2) (101 + k) ≡ byte_at memory (100 + k))
    × ((c : ℕ)
        → (c < 101) ⊎ (101 + 2 ≤ c)
        → byte_at (move_bytes whole memory 101 100 2) c ≡ byte_at memory c)
move_bytes-moves_example = move_bytes-moves memory 101 100 2 memory-IsByteMemory

copy_bytes-move_bytes_example :
    byte_at (copy_bytes memory 99 100 0 2) 99 ≡ byte_at (move_bytes whole memory 99 100 2) 99
copy_bytes-move_bytes_example =
    copy_bytes-move_bytes memory 99 100 2 memory-IsByteMemory (inl (omega arith)) 99

strlen-IsFirst_example : IsFirst (is_nul memory 100) 0 (strlen memory 100)
strlen-IsFirst_example = strlen-IsFirst memory 100 memory-IsByteMemory

strcmp-SameString_example : (strcmp memory 100 101 ≡ 0) ↔ SameString memory 100 101
strcmp-SameString_example = strcmp-SameString memory 100 101 memory-IsByteMemory

system_callback-QuietService_example :
    QuietService (system_callback none "atomic_add_i64_relaxed" (System.atomic amo_add 64))
system_callback-QuietService_example =
    system_callback-QuietService none "atomic_add_i64_relaxed" (System.atomic amo_add 64) tt refl

abbrev direct : Found
direct = ("strlen", some (direct_callback "strlen" Direct.strlen)) ∷ []

abbrev helpers : Found
helpers =
    ("__mm_alloca", some (helper_callback "__mm_alloca" Helper.alloca)) ∷ ("__mm_other", none) ∷ []

abbrev systems : Found
systems = ("fence", some (system_callback none "fence" System.ordering)) ∷ []

abbrev installed : Program
installed = (install_runtime direct helpers systems linked).1
