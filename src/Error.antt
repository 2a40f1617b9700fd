-- ===== src/Error.antt =====
-- The exceptions of src/minimachine/vm.py, one constructor for each `raise VMError`, and the
-- interpreter's `RecursionError`.
use minimachine.Prelude.{ℕ, String}
use minimachine.Verify.{VerifyError}

-- The exceptions that the host services of src/minimachine/runtime.py raise.
pub data ServiceError : Type 0 where
  wrong_arguments : String → ServiceError
  invalid_integer_width : ℕ → ServiceError
  width_outside_word : ℕ → ServiceError
  unknown_operation : String → ServiceError
  invalid_alloca_alignment : ℕ → ServiceError
  alloca_overflow : ServiceError
  invalid_saved_stack : ServiceError
  fixed_count_exceeds : ℕ → ℕ → ServiceError
  poison_input : String → ServiceError
  depth_exceeds_chain : ServiceError
  literal_size_outside_word : ℕ → ServiceError
  literal_exceeds_blob : ServiceError
  extract_size_outside_word : ℕ → ServiceError
  insert_exceeds_aggregate : ServiceError
  insert_size_outside_word : ℕ → ServiceError
  unsupported_result_count : ℕ → ServiceError
  no_ecall_handler : ServiceError
  string_wrapped : ServiceError

pub data VmError : Type 0 where
  verify_failed : VerifyError → VmError
  unsupported_memory_width : ℕ → VmError
  duplicate_program_symbol : String → VmError
  cannot_replace_non_function : String → VmError
  host_service_already_registered : String → VmError
  empty_system_operation : VmError
  unknown_transfer_target : String → VmError
  unknown_entry_function : String → VmError
  allocation_alignment : VmError
  heap_collided_with_stack : VmError
  no_current_function : VmError
  no_current_block : VmError
  unknown_function : String → VmError
  unknown_block : String → VmError
  unknown_slot : String → VmError
  unresolved_symbol : String → VmError
  unresolved_block_address : String → String → VmError
  unsupported_value : VmError
  illegal_mov_destination : VmError
  missing_source_width : String → VmError
  invalid_source_width : ℕ → VmError
  unknown_extension_mode : String → VmError
  local_branch_without_function : VmError
  unknown_local_target : String → VmError
  unresolved_external_branch : String → VmError
  invalid_branch_target : VmError
  invalid_code_address : ℕ → VmError
  host_service_not_registered : String → VmError
  wrong_result_count : String → ℕ → ℕ → VmError
  fell_off_block : VmError
  step_limit_exceeded : ℕ → VmError
  recursion_limit : VmError
  no_entry_block : VmError
  negative_result_count : VmError
  negative_allocation_size : VmError
  service_failed : ServiceError → VmError
