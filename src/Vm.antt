-- ===== src/Vm.antt =====
-- The state of the reference machine, `VM.__init__` of src/minimachine/vm.py, and its host
-- services. The program is an argument of the operations, since none of them changes it; the
-- platform's own registers, which no instruction reads, are kept apart in `Platform`.
pub mod Read
pub mod Step
pub mod Run
pub mod Faults
pub mod Places
pub mod Control
pub mod Safety
pub mod Counting
pub mod Loop
pub mod Entry
use minimachine.Prelude.{ℕ, ◌%◌, String, Bool, false, Option, none, List, [], Result, word_mod}
use minimachine.Prelude.Int.{ℤ}
use minimachine.Prelude.Dict.{Dict}
use minimachine.Error.{VmError}
use minimachine.Memory.{SparseMemory}
use minimachine.Exec.{Exec}

abbrev pub heap_base : ℕ
heap_base = 0x0000_0000_1000_0000

abbrev pub default_stack_top : ℕ
default_stack_top = 0x0000_0001_0000_0000

pub record Platform : Type 0 where
  pub system_state : Dict String ℕ
  pub csr : Dict ℕ ℕ
  pub static_keys : Dict ℕ ℕ
  pub cpu_features : List ℕ
  pub vector_state : ℕ × ℕ × ℕ × ℕ × ℕ

pub record Vm : Type 0 where
  pub memory : SparseMemory
  pub stack_top : ℕ
  pub sp : ℕ
  pub current_function : Option String
  pub current_block : Option String
  pub ip : ℕ
  pub halted : Bool
  pub steps : ℕ
  pub platform : Platform
  pub heap_next : ℕ

abbrev pub init_platform : Platform
init_platform = record {
  system_state = [];
  csr = [];
  static_keys = [];
  cpu_features = [];
  vector_state = (0, 0, 0, 0, 0);
}

unfoldable pub init_vm : SparseMemory → ℕ → Vm
init_vm memory stack_top = record {
  memory = memory;
  stack_top = stack_top % word_mod;
  sp = stack_top % word_mod;
  current_function = none;
  current_block = none;
  ip = 0;
  halted = false;
  steps = 0;
  platform = init_platform;
  heap_next = heap_base;
}

-- What a host service returns: `None`, an int, several, or `HOST_CONTROL_TRANSFER`.
pub data Reply : Type 0 where
  nothing : Reply
  one : ℤ → Reply
  many : List ℤ → Reply
  control_transfer : Reply

-- A callback sees the machine and the arguments, and may change the machine.
abbrev pub HostService : Type 0
HostService = List ℕ → Exec Vm Reply
