-- ===== src/Abi/Frame.antt =====
-- The layout of descriptors and activation frames (src/minimachine/abi.py): offsets in bytes.
use minimachine.Prelude.{ℕ}

abbrev pub desc_entry : ℕ
desc_entry = 0

abbrev pub desc_frame_size : ℕ
desc_frame_size = 8

abbrev pub caller_sp : ℕ
caller_sp = 0

abbrev pub ret_pc : ℕ
ret_pc = 8

abbrev pub entry : ℕ
entry = 16

abbrev pub frame_size : ℕ
frame_size = 24

abbrev pub result_ptr : ℕ
result_ptr = 32

abbrev pub result_count : ℕ
result_count = 40

abbrev pub resume_pc : ℕ
resume_pc = 48

abbrev pub arg_count : ℕ
arg_count = 56

abbrev pub header_size : ℕ
header_size = 64

abbrev pub word : ℕ
word = 8
