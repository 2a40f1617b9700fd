-- ===== src/Witnesses.antt =====
-- The theorems at concrete inputs, and runs of the operations.
mod Tables
mod Images
mod Runtime
use minimachine.Prelude.{
  ◌<◌, ◌++◌, nat_eq, ℕ, ◌+◌, ◌%◌, ◌^◌, ◌↔◌, String, ◌≡◌, refl, subst, arith, List, [], ◌∷◌, some,
  ok, err, ◌>>=◌, false, inl, inr, length, string_eq,
}
use minimachine.Prelude.Int.{pos}
use minimachine.Prelude.Dict
use minimachine.Prelude.Dict.{some_inj, get-put_cases}
use minimachine.Kallsyms.{encode_len}
use minimachine.Kallsyms.Length.{decode_len, decode_len-encode_len}
use minimachine.Samples.{
  call_callee, main, increment, linked, sample, sample_vm, caller, plain, expanded, lowered,
  contract, memory,
}
use minimachine.Verify
use minimachine.Verify.{verify_p3, verify_muir}
use minimachine.Verify.Sets.{Member}
use minimachine.Verify.Strict.{IsStrict, verify_p3-IsStrict}
use minimachine.Lower.{lower_function, pseudo_must_be_expanded}
use minimachine.Verify.{p3_labels, muir_labels}
use minimachine.Lower.Laws.{IsConcreteBlock, lower_function-IsStrict}
use minimachine.Lower.Total.{
  lower_function-total, lower_function-pseudo, first_pseudo, first_pseudo_in,
}
use minimachine.Muir
use minimachine.P3
use minimachine.Memory
use minimachine.Memory.{SparseMemory}
use minimachine.Memory.Bytes.{IsByteMemory, write_bytes-IsByteMemory}
use minimachine.Memory.Laws.{read-write_self, read-write_disjoint}
use minimachine.Program.Link
use minimachine.Program.Link.{empty_program, add_functions, register_service}
use minimachine.Program.Linked.{IsLinked, empty_program-IsLinked, add_functions-IsLinked}
use minimachine.Program.Services.{services-IsLinked}
use minimachine.Vm.{Vm, control_transfer, HostService}
use minimachine.Vm.Control.{IsRunning, AreWellBehaved}
use minimachine.Vm.Counting.{AreCounting, Counts, AtLeast}
use minimachine.Vm.Faults.{Ensures}
use minimachine.Vm.Run.{run_function}
use minimachine.Vm.Entry.{Finishes, run_function-Finishes}
use minimachine.Abi.Names.{tag, decimal, digits, is_empty}
use minimachine.Abi.Builder
use minimachine.Abi.Sequences
use minimachine.Abi.Expand
use minimachine.Abi.Expand.{expand_function, expand_blocks}
use minimachine.Abi.Normalized.{calls_in}
use minimachine.Abi.Expanded.{
  AreExitsLast, expand_function-counts, expand_function-lowers, expand_blocks-normalized,
}
use minimachine.Lower.Total.{IsCore}
use minimachine.Prelude.{All, eq_iff}
use minimachine.Linker.Active.{IsOrdered}
use minimachine.Samples.{chained}
use minimachine.Linker.{active_groups}
use minimachine.Linker.Active.{IsActive, active_groups-IsActive}

linked_ok : add_functions (main ∷ []) empty_program ≡ (ok tt, linked)
unfolding add_functions Link.add_function Link.check_function Link.refuse_if Link.place_blocks
    Link.place_block Link.alloc_code Link.alloc_data Link.define_symbol Link.entry_code
    Link.write_initial Link.link empty_program Verify.verify_p3 Dict.get Dict.put Verify.check_all
    Memory.write
linked_ok = refl

add_functions-IsLinked_example : IsLinked linked
add_functions-IsLinked_example =
    add_functions-IsLinked (main ∷ []) empty_program linked empty_program-IsLinked linked_ok

registered : register_service "increment" increment linked ≡ (ok tt, sample)
unfolding register_service add_functions Link.add_function Link.check_function Link.refuse_if
    Link.place_blocks Link.place_block Link.alloc_code Link.alloc_data Link.define_symbol
    Link.entry_code Link.write_initial Link.link empty_program Verify.verify_p3 Dict.get Dict.put
    Verify.check_all Memory.write
registered = refl

services-IsLinked_example : IsLinked sample
services-IsLinked_example =
    services-IsLinked "increment" increment linked sample add_functions-IsLinked_example
      (inl registered)

services : sample.host_services ≡ Dict.put [] "increment" increment
unfolding register_service add_functions Link.add_function Link.check_function Link.refuse_if
    Link.place_blocks Link.place_block Link.alloc_code Link.alloc_data Link.define_symbol
    Link.entry_code Link.write_initial Link.link empty_program Verify.verify_p3 Dict.get Dict.put
    Verify.check_all Memory.write
services = refl

-- The only service of the sample.
only_service :
    (symbol : String) (callback : HostService)
    → Dict.get sample.host_services symbol ≡ some callback
    → increment ≡ callback
only_service symbol callback e =
    elim (get-put_cases [] "increment" symbol increment callback
      (subst (λ d. Dict.get d symbol ≡ some callback) services e)) [
        | inl (n, same) ↦ same
        | inr old ↦ absurd (unfold Dict.get in (cc))
      ]

increment-Ensures :
    (args : List ℕ) (vm : Vm)
    → Ensures (λ reply vm'. reply ≡ control_transfer → IsRunning sample vm') (increment args vm)
increment-Ensures [] vm = λ e. absurd (cc)
increment-Ensures (n ∷ ns) vm = λ e. absurd (cc)

sample-AreWellBehaved : AreWellBehaved sample
sample-AreWellBehaved = record {
  behaves = λ symbol callback e args vm.
      subst
        (λ (f : HostService).
          Ensures (λ reply vm'. reply ≡ control_transfer → IsRunning sample vm') (f args vm))
        (only_service symbol callback e) (increment-Ensures args vm);
}

increment-Counts : (args : List ℕ) → Counts (increment args)
unfolding AtLeast
increment-Counts [] n vm h = h
increment-Counts (m ∷ ms) n vm h = h

sample-AreCounting : AreCounting sample
sample-AreCounting = record {
  counts = λ symbol callback e args.
      subst (λ (f : HostService). Counts (f args)) (only_service symbol callback e)
        (increment-Counts args);
}

run_function-Finishes_example :
    Finishes (pos 1) (run_function sample 10 100 "main" (pos 35 ∷ []) (pos 1) sample_vm)
run_function-Finishes_example =
    run_function-Finishes sample services-IsLinked_example sample-AreWellBehaved sample-AreCounting
      10 100 "main" (pos 35 ∷ []) (pos 1) sample_vm

-- The machine before the first instruction of `main`.
abbrev standing : Vm
standing = record sample_vm { current_function = some "main"; current_block = some "entry" }

verify_p3-IsStrict_example : (verify_p3 main ≡ ok tt) ↔ IsStrict main
verify_p3-IsStrict_example = verify_p3-IsStrict main

plain_ok : lower_function plain ≡ ok lowered
unfolding lower_function Verify.verify_muir Verify.check_all Verify.verify_p3
plain_ok = refl

lower_function-IsStrict_example :
    IsStrict lowered
    × All IsConcreteBlock lowered.blocks
    × (p3_labels lowered ≡ muir_labels plain)
    × (lowered.name ≡ plain.name)
    × (lowered.frame_slots ≡ plain.frame_slots)
lower_function-IsStrict_example = lower_function-IsStrict plain lowered plain_ok

plain_verified : verify_muir plain ≡ ok tt
unfolding verify_muir Verify.check_all
plain_verified = refl

caller_verified : verify_muir caller ≡ ok tt
unfolding verify_muir Verify.check_all
caller_verified = refl

caller_pseudo : first_pseudo_in caller.blocks ≡ some call_callee
unfolding first_pseudo_in first_pseudo
caller_pseudo = refl

lower_function-total_example : (g : P3.Function) × (lower_function plain ≡ ok g)
lower_function-total_example = lower_function-total plain plain_verified (((tt, tt), (tt, tt)), tt)

lower_function-pseudo_example : lower_function caller ≡ err (pseudo_must_be_expanded call_callee)
lower_function-pseudo_example =
    lower_function-pseudo caller call_callee caller_verified caller_pseudo

caller_expands : expand_function caller ≡ ok expanded
unfolding expand_function expand_blocks Expand.expand_block Expand.entry_label Sequences.prologue
    Builder.temp Sequences.load_args Builder.declare Expand.expand_pending Expand.count_calls
    Sequences.prologue_code Expand.is_call Sequences.mov Sequences.sub Expand.expand_round
    Expand.split_call Expand.put_before Builder.add_slot Builder.init_builder Builder.new_label
    Expand.built_function Expand.expand_leaving Expand.expand_tail Expand.finish_block
    Expand.finish_function Expand.is_abi_pseudo Expand.load_results Expand.request_of
    Expand.verify_abi_normalized digits is_empty Sequences.call_code Sequences.call_header
    Sequences.call_sequence Sequences.call_slots Sequences.descriptor Sequences.descriptor_of
    Sequences.indirect_from_sp Sequences.mem_at Sequences.resume_caller Sequences.return_sequence
    Sequences.save_caller Sequences.store_args Sequences.store_result Sequences.symbol_target
    Sequences.sysop_symbol Sequences.system_symbol Sequences.uncond Verify.verify_muir
    Verify.check_all Verify.check_muir_block Verify.check_muir_instr Verify.check_muir_terminator
    Verify.check_target Verify.elem Verify.is_nil Verify.label_known Verify.muir_labels
    Verify.to_set decimal tag
caller_expands = refl

caller-AreExitsLast : AreExitsLast caller.blocks
unfolding Expand.is_abi_pseudo Expand.is_call Expand.count_calls
caller-AreExitsLast = (((λ p c. absurd (cc)), ((λ p c. refl), tt)), tt)

expand_function-counts_example :
    (length expanded.0.blocks ≡ 1 + calls_in caller.blocks)
    × (expanded.1.continuation_blocks ≡ calls_in caller.blocks)
    × (expanded.1.calls + expanded.1.helpers + expanded.1.system_ops ≡ calls_in caller.blocks)
    × ((x : String) → Member x caller.frame_slots → Member x expanded.0.frame_slots)
expand_function-counts_example =
    expand_function-counts caller expanded.0 expanded.1 caller-AreExitsLast caller_expands

caller-IsCore :
    All
      (λ (b : Muir.Block). All (λ i. Expand.is_abi_pseudo i ≡ false → IsCore i) b.instructions)
      caller.blocks
unfolding Expand.is_abi_pseudo
caller-IsCore = (((λ e. absurd (cc)), ((λ e. absurd (cc)), tt)), tt)

expand_function-lowers_example : (h : P3.Function) × (lower_function expanded.0 ≡ ok h)
expand_function-lowers_example =
    expand_function-lowers caller expanded.0 expanded.1 caller-AreExitsLast caller-IsCore
      caller_expands

chain_expands :
    expand_blocks "entry" caller.args caller.blocks (Builder.init_builder caller) ≡ ok chained
unfolding expand_blocks Expand.expand_block Expand.entry_label Sequences.prologue Builder.temp
    Sequences.load_args Builder.declare Expand.expand_pending Expand.count_calls
    Sequences.prologue_code Expand.is_call Sequences.mov Sequences.sub Expand.expand_round
    Expand.split_call Expand.put_before Builder.add_slot Builder.init_builder Builder.new_label
    Expand.built_function Expand.expand_leaving Expand.expand_tail Expand.finish_block
    Expand.finish_function Expand.is_abi_pseudo Expand.load_results Expand.request_of
    Expand.verify_abi_normalized digits is_empty Sequences.call_code Sequences.call_header
    Sequences.call_sequence Sequences.call_slots Sequences.descriptor Sequences.descriptor_of
    Sequences.indirect_from_sp Sequences.mem_at Sequences.resume_caller Sequences.return_sequence
    Sequences.save_caller Sequences.store_args Sequences.store_result Sequences.symbol_target
    Sequences.sysop_symbol Sequences.system_symbol Sequences.uncond Verify.verify_muir
    Verify.check_all Verify.check_muir_block Verify.check_muir_instr Verify.check_muir_terminator
    Verify.check_target Verify.elem Verify.is_nil Verify.label_known Verify.muir_labels
    Verify.to_set decimal tag
chain_expands = refl

expand_blocks-normalized_example :
    Expand.verify_abi_normalized (Expand.built_function caller chained.0 chained.1) ≡ ok tt
expand_blocks-normalized_example =
    expand_blocks-normalized caller "entry" (Builder.init_builder caller) chained.1 chained.0
      caller-AreExitsLast chain_expands

tag_trap : tag "llvm.trap: a b" ≡ "llvm_trap_a_b"
unfolding tag is_empty
tag_trap = refl

decimal_sample : decimal 1207 ≡ "1207"
unfolding decimal
decimal_sample = refl

empty-IsByteMemory : IsByteMemory (record { bytes = [] })
empty-IsByteMemory = record { bound = λ a. unfold Memory.byte_at in (omega arith) }

memory-IsByteMemory : IsByteMemory memory
memory-IsByteMemory =
    write_bytes-IsByteMemory (record { bytes = [] }) 100 0 2 2047 empty-IsByteMemory

read-write_self_example :
    (Memory.write memory 99 16 70000 >>= λ m. Memory.read m 99 16) ≡ ok (70000 % 2 ^ 16)
read-write_self_example = read-write_self memory 99 16 70000 memory-IsByteMemory refl

read-write_disjoint_example :
    Memory.read (Memory.store memory 104 32 7) 100 16 ≡ Memory.read memory 100 16
read-write_disjoint_example =
    read-write_disjoint memory (Memory.store memory 104 32 7) 104 32 7 100 16 memory-IsByteMemory
      (unfold Memory.write in refl) (inr (omega arith))

text_not_tail : ¬ (◌≡◌ {A = String} "text" "tail")
text_not_tail = ground (arith, eq_iff "text" "tail")

contract-IsOrdered : IsOrdered [] contract.groups
contract-IsOrdered = (
  (λ m. m),
  (λ a e. absurd (cc)),
  ((λ m. elim m [ inl e ↦ absurd (text_not_tail e) | inr n ↦ n ]), (λ a e. inl (cc)), tt),
)

active_groups-IsActive_example :
    Member "tail" (active_groups contract (".text" ∷ []))
    ↔ IsActive contract.groups (".text" ∷ []) "tail"
active_groups-IsActive_example =
    active_groups-IsActive contract (".text" ∷ []) "tail" contract-IsOrdered

encoded_300 : encode_len 300 ≡ ok (172 ∷ 2 ∷ [])
unfolding encode_len
encoded_300 = refl

decode_len-encode_len_example :
    (decode_len ((172 ∷ 2 ∷ []) ++ 7 ∷ []) ≡ some (300, 7 ∷ [])) × (0 < 300) × (300 < 16384)
decode_len-encode_len_example = decode_len-encode_len 300 (172 ∷ 2 ∷ []) (7 ∷ []) encoded_300
