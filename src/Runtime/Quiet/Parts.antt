-- ===== src/Runtime/Quiet/Parts.antt =====
-- The parts of the helpers of src/minimachine/runtime.py leave the control state alone.
use minimachine.Prelude.{ℕ, zero, suc, Bool, leb, List, [], ◌∷◌, String}
use minimachine.Prelude.Int.{ℤ}
use minimachine.Error.{invalid_integer_width}
use minimachine.Runtime.Integer.{check_width, IntOp, binary_integer, Predicate, icmp}
use minimachine.Prelude.{Bool-cases, inl, inr}
use minimachine.Runtime.Helper
use minimachine.Runtime.Helper.{CastOp, CountOp}
use minimachine.Runtime.Arithmetic.{Signedness, OverflowOp}
use minimachine.Runtime.Copy.{
  write_fields, aggregate_literal, load_aggregate, extractvalue, extract_scalar, extract_blob,
  insert_field, insert_scalar, insertvalue,
}
use minimachine.Runtime.Blob.{
  refuse_if, on_memory, decode_integer, encode_wide, encode_integer, overflow_blob, walk_frames,
  caller_frame,
}
use minimachine.Runtime.Quiet.{
  Quiet-on_memory, Quiet-refuse_if, Quiet, Any, Outcome, Quiet-bind, require-Outcome, quiet_rules,
}

check_width-Outcome : (bits : ℕ) → Outcome Any (check_width bits)
unfolding check_width
check_width-Outcome bits = require-Outcome (leb 1 bits) (invalid_integer_width bits)

pub decode_integer-Quiet : (e bits : ℕ) → Quiet Any (decode_integer e bits)
unfolding decode_integer
decode_integer-Quiet e bits = search (quiet_rules, check_width-Outcome)

encode_wide-Quiet : (bits v : ℕ) → Quiet Any (encode_wide bits v)
unfolding encode_wide
encode_wide-Quiet bits v = search (quiet_rules)

pub encode_integer-Quiet : (bits : ℕ) (z : ℤ) → Quiet Any (encode_integer bits z)
unfolding encode_integer
encode_integer-Quiet bits z = search (quiet_rules, check_width-Outcome, encode_wide-Quiet)

overflow_blob-Quiet : (bits : ℕ) (z : ℤ) (b : Bool) → Quiet Any (overflow_blob bits z b)
unfolding overflow_blob
overflow_blob-Quiet bits z b = search (quiet_rules, check_width-Outcome)

walk_frames-Quiet : (frame depth : ℕ) → Quiet Any (walk_frames frame depth)
unfolding walk_frames
walk_frames-Quiet frame zero = search (quiet_rules)
walk_frames-Quiet frame (suc depth) =
    search (quiet_rules, λ (parent : ℕ). walk_frames-Quiet parent depth)

pub caller_frame-Quiet : (depth : ℕ) → Quiet Any (caller_frame depth)
unfolding caller_frame
caller_frame-Quiet depth = search (quiet_rules, walk_frames-Quiet)

write_fields-Quiet : (total blob : ℕ) (fields : List ℕ) → Quiet Any (write_fields total blob fields)
unfolding write_fields
write_fields-Quiet total blob (o ∷ v ∷ n ∷ rest) =
    Quiet-bind Any _ (refuse_if _ _) (Quiet-refuse_if _ _) (λ u.
      Quiet-bind Any _ (refuse_if _ _) (Quiet-refuse_if _ _) (λ u.
        Quiet-bind Any _ (on_memory _) (Quiet-on_memory _)
          (λ u. write_fields-Quiet total blob rest)))
write_fields-Quiet total blob [] = search (quiet_rules)
write_fields-Quiet total blob (o ∷ []) = search (quiet_rules)
write_fields-Quiet total blob (o ∷ v ∷ []) = search (quiet_rules)

pub aggregate_literal-Quiet : (args : List ℕ) → Quiet Any (aggregate_literal args)
unfolding aggregate_literal
aggregate_literal-Quiet [] = search (quiet_rules)
aggregate_literal-Quiet (total ∷ fields) = search (quiet_rules, write_fields-Quiet)

pub load_aggregate-Quiet : (source size : ℕ) → Quiet Any (load_aggregate source size)
unfolding load_aggregate
load_aggregate-Quiet source size = search (quiet_rules)

pub extractvalue-Quiet : (b o n i : ℕ) → Quiet Any (extractvalue b o n i)
unfolding extractvalue extract_scalar extract_blob
extractvalue-Quiet b o n i = search (quiet_rules)

insert_field-Quiet : (a v n i : ℕ) → Quiet Any (insert_field a v n i)
unfolding insert_field insert_scalar
insert_field-Quiet a v n i = search (quiet_rules)

pub insertvalue-Quiet : (b t o v n i : ℕ) → Quiet Any (insertvalue b t o v n i)
unfolding insertvalue
insertvalue-Quiet b t o v n i = search (quiet_rules, insert_field-Quiet)

pub allocate-Quiet : (n c a : ℕ) → Quiet Any (Helper.allocate n c a)
unfolding Helper.allocate
allocate-Quiet n c a = search (quiet_rules)

pub make_wide-Quiet :
    (s : String) (bits : ℕ) (args : List ℕ) → Quiet Any (Helper.make_wide s bits args)
unfolding Helper.make_wide
make_wide-Quiet s bits args = search (quiet_rules, encode_integer-Quiet)

pub restore_stack-Quiet : (saved : ℕ) → Quiet Any (Helper.restore_stack saved)
unfolding Helper.restore_stack
restore_stack-Quiet saved = search (quiet_rules)

pub start_varargs-Quiet : (l n : ℕ) → Quiet Any (Helper.start_varargs l n)
unfolding Helper.start_varargs
start_varargs-Quiet l n = search (quiet_rules)

binary_integer-Outcome : (op : IntOp) (bits a b : ℕ) → Outcome Any (binary_integer op bits a b)
unfolding binary_integer check_width
binary_integer-Outcome op bits a b = elim (Bool-cases (leb 1 bits)) [
  | inl e ↦ rw e tt
  | inr e ↦ rw e (λ h. h)
]

icmp-Outcome : (pred : Predicate) (bits a b : ℕ) → Outcome Any (icmp pred bits a b)
unfolding icmp check_width
icmp-Outcome pred bits a b = elim (Bool-cases (leb 1 bits)) [
  | inl e ↦ rw e tt
  | inr e ↦ rw e (λ h. h)
]

pub run_binary-Quiet : (op : IntOp) (bits x y : ℕ) → Quiet Any (Helper.run_binary op bits x y)
unfolding Helper.run_binary
run_binary-Quiet op bits x y =
    search (quiet_rules, decode_integer-Quiet, encode_integer-Quiet, binary_integer-Outcome)

pub run_compare-Quiet :
    (pred : Predicate) (bits x y : ℕ) → Quiet Any (Helper.run_compare pred bits x y)
unfolding Helper.run_compare
run_compare-Quiet pred bits x y = search (quiet_rules, decode_integer-Quiet, icmp-Outcome)

pub run_cast-Quiet : (op : CastOp) (src dst x : ℕ) → Quiet Any (Helper.run_cast op src dst x)
unfolding Helper.run_cast
run_cast-Quiet op src dst x = search (quiet_rules, decode_integer-Quiet, encode_integer-Quiet)

pub run_add-Quiet : (bits x y : ℕ) → Quiet Any (Helper.run_add bits x y)
unfolding Helper.run_add
run_add-Quiet bits x y = search (quiet_rules, decode_integer-Quiet, encode_integer-Quiet)

pub count_zeros-Quiet :
    (s : String) (op : CountOp) (bits x : ℕ) (b : Bool)
    → Quiet Any (Helper.count_zeros s op bits x b)
unfolding Helper.count_zeros
count_zeros-Quiet s op bits x b = search (quiet_rules)

pub absolute_value-Quiet :
    (s : String) (bits x : ℕ) (b : Bool) → Quiet Any (Helper.absolute_value s bits x b)
unfolding Helper.absolute_value
absolute_value-Quiet s bits x b = search (quiet_rules)

pub run_with_overflow-Quiet :
    (g : Signedness) (op : OverflowOp) (bits x y : ℕ)
    → Quiet Any (Helper.run_with_overflow g op bits x y)
unfolding Helper.run_with_overflow
run_with_overflow-Quiet g op bits x y =
    search (quiet_rules, decode_integer-Quiet, overflow_blob-Quiet)

pub load_integer-Quiet : (bits p : ℕ) → Quiet Any (Helper.load_integer bits p)
unfolding Helper.load_integer
load_integer-Quiet bits p = search (quiet_rules, encode_integer-Quiet)

pub store_integer-Quiet : (bits p x : ℕ) → Quiet Any (Helper.store_integer bits p x)
unfolding Helper.store_integer
store_integer-Quiet bits p x = search (quiet_rules, decode_integer-Quiet)
