-- ===== src/Program.antt =====
-- `Program` of src/minimachine/vm.py: the linked image. Functions get a code address for each block
-- and a descriptor in data memory; host services get a code address and a descriptor.
pub mod Slots
pub mod Link
pub mod Placed
pub mod Linked
pub mod Services
pub mod Registered
pub mod Blocks
use minimachine.Prelude.{ℕ, String, Option, List}
use minimachine.Prelude.Dict.{Dict}
use minimachine.P3
use minimachine.Memory.{SparseMemory}
use minimachine.Vm.{HostService}

pub record LinkedFunction : Type 0 where
  pub function : P3.Function
  pub slot_offsets : Dict String ℕ
  pub frame_size : ℕ
  pub block_map : Dict String P3.Block

pub record Program : Type 0 where
  pub functions : Dict String LinkedFunction
  pub block_code : Dict (String × String) ℕ
  pub code_block : Dict ℕ (String × String)
  pub host_code : Dict ℕ String
  pub host_services : Dict String HostService
  pub symbol_addresses : Dict String ℕ
  pub initial_memory : SparseMemory
  pub next_code : ℕ
  pub next_data : ℕ
  pub halt_code : ℕ
