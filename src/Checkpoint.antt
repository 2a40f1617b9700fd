-- ===== src/Checkpoint.antt =====
-- Checkpoints of the reference machine (src/minimachine/checkpoint.py): what `_snapshot` stores and
-- what `load_checkpoint` restores, between the reading and writing of the file. The memory is the
-- sparse one: the branches for the memory of the native machine are not modelled.
pub mod Restore
use minimachine.Prelude.{
  ◌||◌, ℕ, zero, suc, ◌+◌, ◌*◌, String, Bool, true, false, not, Option, none, some, List, [], ◌∷◌,
  nat_eqb, nat_eq, string_eq, ◌==◌, if◌then◌else◌, Result, ok, err, ◌>>=◌, ◌>>◌, require,
}
use minimachine.Prelude.Dict
use minimachine.Prelude.Dict.{Dict}
use minimachine.Verify.{elem}
use minimachine.Memory
use minimachine.Memory.{SparseMemory}
use minimachine.Vm.{Vm, Platform}

abbrev pub checkpoint_version : ℕ
checkpoint_version = 3

-- `_LINUX_ATTRS`
abbrev pub linux_attrs : List String
linux_attrs =
    "linux_task_contexts" ∷ "linux_task_shadow_stacks" ∷ "linux_shadow_stack_next"
    ∷ "linux_task_semantic_stacks" ∷ "linux_semantic_stack_next" ∷ "linux_task_sched_class_offset"
    ∷ []

pub data CheckpointError : Type 0 where
  version_mismatch : ℕ → CheckpointError
  image_mismatch : CheckpointError
  initramfs_mismatch : CheckpointError
  stack_layout_mismatch : CheckpointError
  unknown_format : String → CheckpointError
  -- `KeyError` of the payload
  missing_memory : CheckpointError

-- The part of the payload that holds the memory, in the formats of the three versions.
pub data MemoryPayload : Type 0 where
  full : Dict ℕ ℕ → MemoryPayload
  byte_delta : Dict ℕ ℕ → MemoryPayload
  -- page size, page numbers and bytes
  native_pages : ℕ → List ℕ → List ℕ → MemoryPayload
  other_format : String → MemoryPayload

-- A machine with the attributes that a platform has set on it, whose values are not looked at.
pub record Host (V : Type 0) : Type 0 where
  pub vm : Vm
  pub attributes : Dict String V

pub record Payload (V : Type 0) : Type 0 where
  pub version : ℕ
  pub image_sha256 : String
  pub initramfs_sha256 : Option String
  pub stack_top : ℕ
  pub memory : MemoryPayload
  pub sp : ℕ
  pub current_function : Option String
  pub current_block : Option String
  pub ip : ℕ
  pub halted : Bool
  pub steps : ℕ
  pub platform : Platform
  pub heap_next : ℕ
  pub linux_state : Dict String V

-- The cells that differ from the baseline.
unfoldable pub changed : SparseMemory → Dict ℕ ℕ → Dict ℕ ℕ
changed baseline [] = []
changed baseline ((a, v) ∷ cells) =
    let rest = changed baseline cells in
    if nat_eqb (Memory.byte_at baseline a) v then rest else (a, v) ∷ rest

module _ {V : Type 0} where
  abbrev pub with_value : String → Option V → Dict String V → Dict String V
  with_value n none rest = rest
  with_value n (some v) rest = (n, v) ∷ rest

  -- `{name: getattr(vm, name) for name in names if hasattr(vm, name)}`
  unfoldable pub present : Dict String V → List String → Dict String V
  present attributes [] = []
  present attributes (n ∷ ns) = with_value n (Dict.get attributes n) (present attributes ns)

  -- `delattr` of each name
  unfoldable pub without : List String → Dict String V → Dict String V
  without names [] = []
  without names ((n, v) ∷ d) =
      let rest = without names d in if elem n names then rest else (n, v) ∷ rest

  -- `setattr` of each item
  unfoldable pub set_all : Dict String V → Dict String V → Dict String V
  set_all d [] = d
  set_all d ((n, v) ∷ items) = set_all (Dict.put d n v) items

  -- `_snapshot`, for a machine with sparse memory.
  unfoldable pub snapshot : SparseMemory → Host V → String → Option String → Payload V
  snapshot baseline h image_sha256 initramfs_sha256 = record {
    version = checkpoint_version;
    image_sha256 = image_sha256;
    initramfs_sha256 = initramfs_sha256;
    stack_top = h.vm.stack_top;
    memory = byte_delta (changed baseline h.vm.memory.bytes);
    sp = h.vm.sp;
    current_function = h.vm.current_function;
    current_block = h.vm.current_block;
    ip = h.vm.ip;
    halted = h.vm.halted;
    steps = h.vm.steps;
    platform = h.vm.platform;
    heap_next = h.vm.heap_next;
    linux_state = present h.attributes linux_attrs;
  }

-- `bytes.update(delta)`
unfoldable pub update : Dict ℕ ℕ → Dict ℕ ℕ → Dict ℕ ℕ
update d [] = d
update d ((a, v) ∷ cells) = update (Dict.put d a v) cells

unfoldable pub take : ℕ → List ℕ → List ℕ
take zero xs = []
take (suc n) [] = []
take (suc n) (x ∷ xs) = x ∷ take n xs

unfoldable pub drop : ℕ → List ℕ → List ℕ
drop zero xs = xs
drop (suc n) [] = []
drop (suc n) (x ∷ xs) = drop n xs

-- The bytes of one page that are not zero, from address `a` on.
unfoldable pub put_page : Dict ℕ ℕ → ℕ → List ℕ → Dict ℕ ℕ
put_page d a [] = d
put_page d a (v ∷ vs) = put_page (if nat_eqb v 0 then d else Dict.put d a v) (a + 1) vs

-- The pages, from the one with index `i` on.
unfoldable pub put_pages : ℕ → List ℕ → ℕ → List ℕ → Dict ℕ ℕ → Dict ℕ ℕ
put_pages page_size bytes i [] d = d
put_pages page_size bytes i (page_no ∷ page_nos) d =
    put_pages page_size bytes (i + 1) page_nos
      (put_page d (page_no * page_size) (take page_size (drop (i * page_size) bytes)))

-- The memory of versions 1, 2 and 3.
unfoldable pub restore_memory :
    ℕ → MemoryPayload → SparseMemory → Result CheckpointError SparseMemory
restore_memory (suc zero) (full cells) baseline = ok (record { bytes = cells })
restore_memory (suc (suc zero)) (byte_delta cells) baseline =
    ok (record { bytes = update baseline.bytes cells })
restore_memory (suc (suc (suc zero))) (byte_delta cells) baseline =
    ok (record { bytes = update baseline.bytes cells })
restore_memory (suc (suc (suc zero))) (native_pages size page_nos bytes) baseline =
    ok (record { bytes = put_pages size bytes 0 page_nos [] })
restore_memory (suc (suc (suc zero))) (other_format f) baseline = err (unknown_format f)
restore_memory (suc (suc (suc zero))) (full cells) baseline = err (unknown_format "None")
restore_memory _ _ baseline = err missing_memory

-- `checkpoint_initramfs is not None and initramfs_sha256 is not None and ...`, denied.
unfoldable pub initramfs_agrees : Option String → Option String → Bool
initramfs_agrees (some a) (some b) = a == b
initramfs_agrees (some a) none = true
initramfs_agrees none b = true

unfoldable pub is_known_version : ℕ → Bool
is_known_version v = nat_eqb v 1 || nat_eqb v 2 || nat_eqb v checkpoint_version

-- `load_checkpoint`, from the payload on.
unfoldable pub load_checkpoint :
    {V : Type 0}
    → SparseMemory
    → Host V
    → Payload V
    → String
    → Option String
    → Result CheckpointError (Host V)
load_checkpoint baseline h payload image_sha256 initramfs_sha256 = do
  require (is_known_version payload.version) (version_mismatch payload.version)
  require (payload.image_sha256 == image_sha256) image_mismatch
  require (initramfs_agrees payload.initramfs_sha256 initramfs_sha256) initramfs_mismatch
  require (nat_eqb payload.stack_top h.vm.stack_top) stack_layout_mismatch
  memory ← restore_memory payload.version payload.memory baseline
  ok (record {
    vm = record {
      memory = memory;
      stack_top = h.vm.stack_top;
      sp = payload.sp;
      current_function = payload.current_function;
      current_block = payload.current_block;
      ip = payload.ip;
      halted = payload.halted;
      steps = payload.steps;
      platform = payload.platform;
      heap_next = payload.heap_next;
    };
    attributes = set_all (without linux_attrs h.attributes) payload.linux_state;
  })
