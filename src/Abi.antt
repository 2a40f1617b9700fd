-- ===== src/Abi.antt =====
-- The calling convention (src/minimachine/abi.py).
pub mod Frame
pub mod Names
pub mod Builder
pub mod Sequences
pub mod Expand
pub mod Later
pub mod Made
pub mod Normalized
pub mod Chain
pub mod Expanded
