-- ===== src/Runtime.antt =====
-- The host services of src/minimachine/runtime.py.
pub mod Integer
pub mod Blob
pub mod Encoded
pub mod Arithmetic
pub mod Copy
pub mod Helper
pub mod Dispatch
pub mod System
pub mod Quiet
pub mod Moved
pub mod Direct
pub mod Install
pub mod Strings
