-- ===== src/Lib.antt =====
-- MiniMachine: a minimal machine with three instructions (MOV, SUB, BR), the pipeline that lowers
-- its intermediate representation to it, and the reference machine that runs the result.
--
-- The parts, and the files that model them (paths from the repository's root):
--   * src/minimachine/muir.py and p3.py, the data model: Muir.antt and P3.antt, with one record or
--     data type for each dataclass, enum and union.
--   * src/minimachine/verify.py, the two verifiers: Verify.antt, with `Verify/Sets` and
--     `Verify/Strict` for what strict P3 is.
--   * src/minimachine/abi.py, the calling convention: Abi/Frame.antt (layout of descriptors and
--     frames), Abi/Names.antt (symbols of traps and system operations, decimal numbers),
--     Abi/Builder.antt (`_Builder` and `AbiStats`), Abi/Sequences.antt (`_prologue`,
--     `_call_sequence`, `_return_sequence`) and Abi/Expand.antt (`expand_function`). The proofs are
--     in Abi/Later, Abi/Made, Abi/Normalized, Abi/Chain and Abi/Expanded.
--   * src/minimachine/lower_p3.py, `lower_function`: Lower.antt.
--   * src/minimachine/vm.py: Error.antt (an error for each raise), Exec.antt (methods that mutate
--     and may raise), Memory.antt (`SparseMemory`), Program.antt and Program/ (`Program`: Slots,
--     Link and the agreement of its tables), Vm.antt and Vm/ (`VM`: Read for what is computed from
--     the state, Step for what changes it, Run for `run`, `run_function`, `enter_function` and
--     `alloc_bytes`).
--   * src/minimachine/linker.py, the linker contract: Linker.antt.
--   * src/minimachine/checkpoint.py, the byte-delta snapshot of a machine and its restore:
--     Checkpoint.antt, with the round trip in Checkpoint/Restore.
--   * src/minimachine/kallsyms.py, the kernel symbol tables: Kallsyms.antt, with
--     `install_p3_kallsyms` in Kallsyms/Install.
--   * src/minimachine/runtime.py, the host services: Runtime.antt and Runtime/. Integer
--     (`_binary_integer`, `_icmp`), Blob (integers of any width in memory, frames), Arithmetic (the
--     pure bit operations), Copy (memory and aggregates), Helper and Dispatch (`helper_callback`),
--     System and System/Registers (`system_callback`), Strings and Direct
--     (`direct_runtime_callback`), and Install (`install_runtime`, `accelerate_direct_runtime`).
--     Runtime/Quiet has the rules for what a service leaves alone.
--   * src/minimachine/user_image.py, the images of user programs: UserImage.antt with
--     UserImage/Encode, Decode and DecodeImage (objects of Json.antt), Payload (packed bytes) and
--     Flat (bFLT files).
--   * src/minimachine/image.py, module images: the records in Image.antt, and the resolution of
--     aliases in `install_module_image` in Image/Aliases.
--   * src/minimachine/user_bundle.py, the renaming of a user program into a namespace:
--     UserBundle.antt.
--
-- How they interact: `expand_function` takes verified μIR to μIR without pseudo-instructions,
-- `lower_function` takes that to strict P3, `Program.add_function` verifies it and gives each block
-- a code address, and `VM.run_function` runs it. Host services are functions that a program stores;
-- what the machine needs of them (`AreWellBehaved`, `AreCounting`) is a hypothesis of the machine's
-- theorems, and Runtime/Install/Installed fills it for the services that `install_runtime`
-- registers.
--
-- Bounds and fuel: Python's ints are ℕ where they are never negative and ℤ elsewhere; words are
-- cut to 64 bits where the code cuts them. `run` has fuel for one round more than its step limit,
-- which is enough since each step counts. `_set_code` and `_invoke_host` call one another; their
-- depth is bounded by a parameter, Python's recursion limit, whose exhaustion is an exception. The
-- loop of `expand_function` has one round for each call that its block holds, and a last one. The
-- loop over the aliases of an image has a round for each. A scan of a string ends before the first
-- address past all written bytes (`limit`), where memory reads as 0. Python dicts are association
-- lists, and sets are lists without repetitions.
--
-- Not modelled: the legalizer, the LLVM text reader, the image builder but for its records and
-- aliases, type layouts, the program cache, the native machine and the scripts. Of runtime.py:
-- floating point, the regular expressions that read a symbol (a service is named by a
-- constructor), `fnmatch`, `strrchr`, `strcpy` and `stpcpy` as services, since they may never end,
-- the bulk operations of the native memory, tracing and `collect_runtime_surface`. Of
-- user_bundle.py: `rebase_user_program_namespace` and `build_user_program_from_llvm`. Of
-- linker.py, the reading of a contract from JSON is left out; of checkpoint.py, the files and the
-- memory of the native machine.
mod Prelude
pub mod Error
pub mod Muir
pub mod P3
pub mod Verify
pub mod Lower
pub mod Memory
pub mod Exec
pub mod Abi
pub mod Vm
pub mod Program
pub mod Linker
pub mod Checkpoint
pub mod Kallsyms
pub mod Runtime
pub mod Json
pub mod Image
pub mod UserImage
pub mod UserBundle
mod Samples
mod Witnesses
