-- ===== src/UserImage/Codec.antt =====
-- Functions of user programs read back from their JSON objects
-- (src/minimachine/user_image.py, `function_to_obj` and `function_from_obj`).
use minimachine.Prelude.{
  subst, ℕ, String, ◌≡◌, refl, true, Option, none, some, List, [], ◌∷◌, Result, ok, err, ◌>>=◌, All,
  not, arith, string_eq, inl, inr, ◌||◌,
}
use minimachine.Prelude.Int.{pos}
use minimachine.Muir
use minimachine.Muir.{
  Width, Value, Address, Operand, Target, Cond, is_none, is_direct, is_external, is_indirect,
}
use minimachine.P3
use minimachine.Program.Slots.{sorted}
use minimachine.Verify.{p3_labels, to_set, is_nil}
use minimachine.Verify.Strict.{IsTarget, IsStrictInstr, IsStrictBlock, IsStrict}
use minimachine.Json.{Json, Items, has_sorted_keys, are_items_sorted, follows, lookup}
use minimachine.UserImage.{UserImageError}
use minimachine.UserImage.Encode
use minimachine.UserImage.Encode.{
  Encoded, items_to_obj, names_to_obj, value_to_obj, address_to_obj, operand_to_obj, target_to_obj,
  instr_to_obj, block_to_obj, body_to_obj, function_to_obj,
}
use minimachine.UserImage.Decode
use minimachine.UserImage.Decode.{
  Decoded, items_from_obj, list_from_obj, value_from_obj, address_from_obj, operand_from_obj,
  target_from_obj, instr_from_obj, block_from_obj, body_from_obj, function_from_obj, as_text,
  function_body,
}

-- A property of the result, if there is one.
abbrev pub Yields {ℓ} : {A : Type 0} → Result UserImageError A → (A → Type ℓ) → Type ℓ
Yields (ok a) P = P a
Yields (err e) P = Unit

-- An object with its keys in order, which is read back.
abbrev pub Good : {A : Type 0} → (Json → Decoded A) → A → Json → Type 0
Good g a j = (has_sorted_keys j ≡ true) × (g j ≡ ok a)

pub Yields-bind :
    {A B : Type 0} {P : A → Type 0} (Q : B → Type 0) (m : Result UserImageError A)
    (next : A → Result UserImageError B)
    → Yields m P
    → ((a : A) → P a → Yields (next a) Q)
    → Yields (m >>= next) Q
Yields-bind Q (ok a) next p f = f a p
Yields-bind Q (err e) next p f = tt

abbrev pub GoodItems : {A : Type 0} → (Json → Decoded A) → List A → Items → Type 0
GoodItems g xs is = (are_items_sorted is ≡ true) × (items_from_obj g is ≡ ok xs)

module _ {A : Type 0} (P : A → Type 0) (f : A → Encoded) (g : Json → Decoded A) where
  pub items-Good :
      ((a : A) → P a → Yields (f a) (Good g a))
      → (xs : List A) → All P xs
      → Yields (items_to_obj f xs) (GoodItems g xs)
  unfolding items_to_obj items_from_obj has_sorted_keys
  items-Good each [] h = (refl, refl)
  items-Good each (x ∷ xs) h = Yields-bind (GoodItems g (x ∷ xs)) (f x) _ (each x h.0) (λ j p.
      Yields-bind (GoodItems g (x ∷ xs)) (items_to_obj f xs) _ (items-Good each xs h.1)
        (λ is q. (rw (p.0, q.0) refl, rw (p.1, q.1) refl)))

pub names-Good : (names : List String) → GoodItems as_text names (names_to_obj names)
unfolding items_from_obj has_sorted_keys as_text
names-Good [] = (refl, refl)
names-Good (s ∷ ss) = (rw (names-Good ss).0 refl, rw (names-Good ss).1 refl)

value-Good : (v : Value) → Yields (value_to_obj v) (Good value_from_obj v)
unfolding value_to_obj value_from_obj has_sorted_keys follows Decode.get_key Decode.field
    Decode.text_field Decode.as_int as_text lookup Decode.special_from
value-Good (Value.slot name) = (refl, refl)
value-Good (Value.imm n) = (refl, refl)
value-Good (Value.symbol name) = (refl, refl)
value-Good (Value.reloc s n) = (refl, refl)
value-Good (Value.block_addr f l) = (refl, refl)
value-Good Value.sp = (refl, refl)
value-Good (Value.arbitrary k) = tt

address-Good : (a : Address) → Yields (address_to_obj a) (Good address_from_obj a)
unfolding address_to_obj address_from_obj has_sorted_keys follows Decode.get_key Decode.field
    Decode.as_int lookup
address-Good a =
    Yields-bind (Good address_from_obj a) (value_to_obj a.base) _ (value-Good a.base)
      (λ j p. (rw p.0 refl, rw p.1 refl))

width-ok : (w : Width) → Decode.width_from (pos (Muir.width_bits w)) ≡ ok w
unfolding Decode.width_from
width-ok Muir.i8 = refl
width-ok Muir.i16 = refl
width-ok Muir.i32 = refl
width-ok Muir.i64 = refl

operand-Good : (o : Operand) → Yields (operand_to_obj o) (Good operand_from_obj o)
unfolding operand_to_obj operand_from_obj has_sorted_keys follows Decode.get_key Decode.field
    Decode.as_int lookup Decode.width_field
operand-Good (Operand.mem a w) =
    Yields-bind (Good operand_from_obj (Operand.mem a w)) (address_to_obj a) _ (address-Good a)
      (λ j p. (rw p.0 refl, rw (p.1, width-ok w) refl))
operand-Good (Operand.value v) =
    Yields-bind (Good operand_from_obj (Operand.value v)) (value_to_obj v) _ (value-Good v)
      (λ j p. (rw p.0 refl, rw p.1 refl))

cond-ok : (c : Cond) → Decode.cond_from (Encode.cond_name c) ≡ ok c
unfolding Decode.cond_from Encode.cond_name
cond-ok Cond.eq = refl
cond-ok Cond.slt = refl
cond-ok Cond.ult = refl

abbrev target_with : Option String → Option String → Option String → Option Address → Target
target_with l s sl a = record { label = l; symbol = s; slot = sl; address = a }

-- In one of the three forms.
abbrev pub IsOne : Target → Type 0
IsOne t = (is_direct t || is_external t || is_indirect t) ≡ true

pub IsTarget-IsOne : (labels : List String) (t : Target) → IsTarget labels t → IsOne t
IsTarget-IsOne labels t (inl d) = rw d.0 refl
IsTarget-IsOne labels t (inr (d, inl e)) = rw (d, e) refl
IsTarget-IsOne labels t (inr (d, inr i)) = ground (arith, d, i)

form-Good :
    (l s sl : Option String) (a : Option Address)
    → IsOne (target_with l s sl a)
    → Yields (target_to_obj (target_with l s sl a)) (Good target_from_obj (target_with l s sl a))
unfolding target_to_obj target_from_obj has_sorted_keys follows Decode.get_key Decode.field
    Decode.text_field as_text lookup Encode.address_target_to_obj
form-Good (some l) none none none h = (refl, refl)
form-Good none (some s) none none h = (refl, refl)
form-Good none none (some s) none h = (refl, refl)
form-Good none none none (some a) h =
    Yields-bind (Good target_from_obj (target_with none none none (some a))) (address_to_obj a) _
      (address-Good a) (λ j p. (rw p.0 refl, rw p.1 refl))
form-Good (some l) (some s) sl a h = absurd (cc)
form-Good (some l) none (some s) a h = absurd (cc)
form-Good (some l) none none (some a) h = absurd (cc)
form-Good none (some s) (some l) a h = absurd (cc)
form-Good none (some s) none (some a) h = absurd (cc)
form-Good none none (some s) (some a) h = absurd (cc)
form-Good none none none none h = absurd (cc)

target-Good :
    (labels : List String) (t : Target)
    → IsTarget labels t
    → Yields (target_to_obj t) (Good target_from_obj t)
target-Good labels t h = form-Good t.label t.symbol t.slot t.address (IsTarget-IsOne labels t h)

abbrev moving : Width → Operand → Operand → Option String → Option ℕ → P3.Instr
moving w dst src e b =
    P3.Instr.mov (record { width = w; dst = dst; src = src; extend = e; src_bits = b })

mov-Good :
    (w : Width) (dst src : Operand) (e : Option String) (b : Option ℕ)
    → Yields (instr_to_obj (moving w dst src e b)) (Good instr_from_obj (moving w dst src e b))
unfolding instr_to_obj instr_from_obj has_sorted_keys follows Decode.get_key Decode.field
    Decode.text_field as_text lookup Decode.as_int Decode.width_field Decode.mov_from_obj
    Encode.optional Decode.optional_text Decode.optional_bits
mov-Good w dst src e b =
    let done : P3.Instr = moving w dst src e b in
    Yields-bind (Good instr_from_obj done) (operand_to_obj dst) _ (operand-Good dst) (λ j p.
      Yields-bind (Good instr_from_obj done) (operand_to_obj src) _ (operand-Good src)
        (λ k q. read e b j k p q))
  where
    read :
        (e : Option String) (b : Option ℕ) (j k : Json)
        → Good operand_from_obj dst j
        → Good operand_from_obj src k
        → Good instr_from_obj (moving w dst src e b) (Encode.mov_object w e b j k)
    read none none j k p q = (rw (p.0, q.0) refl, rw (p.1, q.1, width-ok w) refl)
    read (some e) none j k p q = (rw (p.0, q.0) refl, rw (p.1, q.1, width-ok w) refl)
    read none (some b) j k p q = (rw (p.0, q.0) refl, rw (p.1, q.1, width-ok w) refl)
    read (some e) (some b) j k p q = (rw (p.0, q.0) refl, rw (p.1, q.1, width-ok w) refl)

instr-Good :
    (labels : List String) (i : P3.Instr)
    → IsStrictInstr labels i
    → Yields (instr_to_obj i) (Good instr_from_obj i)
unfolding instr_to_obj instr_from_obj has_sorted_keys follows Decode.get_key Decode.field
    Decode.text_field as_text lookup Decode.as_int Decode.width_field Decode.sub_from_obj
    Decode.br_from_obj
instr-Good labels (P3.Instr.mov i) h = mov-Good i.width i.dst i.src i.extend i.src_bits
instr-Good labels (P3.Instr.sub i) h =
    let Q = Good instr_from_obj (P3.Instr.sub i) in
    Yields-bind Q (value_to_obj i.a) _ (value-Good i.a) (λ a p.
      Yields-bind Q (value_to_obj i.b) _ (value-Good i.b)
        (λ b q. (rw (p.0, q.0) refl, rw (p.1, q.1, width-ok i.width) refl)))
instr-Good labels (P3.Instr.br i) h =
    let Q = Good instr_from_obj (P3.Instr.br i) in
    Yields-bind Q (value_to_obj i.a) _ (value-Good i.a) (λ a p.
      Yields-bind Q (value_to_obj i.b) _ (value-Good i.b) (λ b q.
        Yields-bind Q (target_to_obj i.true_target) _ (target-Good labels i.true_target h.0) (λ t r.
          Yields-bind Q (target_to_obj i.false_target) _ (target-Good labels i.false_target h.1)
            (λ f s. (
              rw (p.0, q.0, r.0, s.0) refl,
              rw (p.1, q.1, r.1, s.1, width-ok i.width, cond-ok i.cond) refl,
            )))))

block-Good :
    (labels : List String) (b : P3.Block)
    → IsStrictBlock labels b
    → Yields (block_to_obj b) (Good block_from_obj b)
unfolding block_to_obj block_from_obj has_sorted_keys follows Decode.get_key Decode.field
    Decode.text_field as_text lookup list_from_obj
block-Good labels b h =
    Yields-bind (Good block_from_obj b) (items_to_obj instr_to_obj b.instructions) _
      (items-Good (IsStrictInstr labels) instr_to_obj instr_from_obj (instr-Good labels)
        b.instructions h.0)
      (λ is p. (rw p.0 refl, rw p.1 refl))

-- The function that is read back: its set of slots was sorted.
abbrev pub with_sorted_slots : P3.Function → P3.Function
with_sorted_slots f = record f { frame_slots = to_set (sorted f.frame_slots) }

body-Good :
    (f : P3.Function)
    → IsStrict f
    → not (is_nil f.blocks) ≡ true
    → Yields (body_to_obj f) (Good (λ j. function_body (some j)) (with_sorted_slots f))
unfolding body_to_obj body_from_obj has_sorted_keys follows Decode.get_key Decode.field
    Decode.text_field as_text lookup list_from_obj function_body
body-Good f h n =
    Yields-bind (Good (λ j. function_body (some j)) (with_sorted_slots f))
      (items_to_obj block_to_obj f.blocks) _
      (items-Good (IsStrictBlock (p3_labels f)) block_to_obj block_from_obj
        (block-Good (p3_labels f)) f.blocks h.1)
      (λ is p.
        let q = names-Good (sorted f.frame_slots) in (rw (p.0, q.0) refl, rw (p.1, n, q.1) refl))

-- A strict function with a block, if it has an object, is read back from it with its set of frame
-- slots sorted, and the object has its keys in order.
pub function_from_obj-function_to_obj :
    (f : P3.Function) (j : Json)
    → IsStrict f
    → not (is_nil f.blocks) ≡ true
    → function_to_obj f ≡ ok j
    → (has_sorted_keys j ≡ true) × (function_from_obj j ≡ ok (with_sorted_slots f))
unfolding function_to_obj function_from_obj has_sorted_keys follows Decode.get_key lookup
function_from_obj-function_to_obj f j h n e =
    subst (λ r. Yields r (Good function_from_obj (with_sorted_slots f))) e
      (Yields-bind (Good function_from_obj (with_sorted_slots f)) (body_to_obj f) _
        (body-Good f h n) (λ b p. (rw p.0 refl, p.1)))
